-- ===== src/Rpc/Link/Progress.antt =====
-- When `transfer` of guest/shim/src/gl_rpc.h succeeds.
use vw_firmware_mac.Base.{ℕ, zero, suc, ◌+◌, ◌-◌, ◌<◌, ◌≤◌, ◌≡◌, refl, sym, ap, ◌∙◌, arith}
use vw_firmware_mac.Base.{List, [], ◌∷◌, ◌++◌, some, true, false}
use vw_firmware_mac.Base.{length, take, drop, take-append-drop, append_assoc, append-nil}
use vw_firmware_mac.Base.{length-drop, length-take, take-append, ◌==◌}
use vw_firmware_mac.Rpc.Link.{Answer, Link, send_from, send_all, recv_from, recv_exact}

-- Among the answers there are `k` calls that move a byte at least, and none before them fails.
abbrev pub Willing : ℕ → List Answer → Type 0
Willing zero answers = Unit
Willing (suc k) [] = ⊥
Willing (suc k) (Answer.moves n ∷ more) = (0 < n) × Willing k more
Willing (suc k) (Answer.interrupted ∷ more) = Willing (suc k) more
Willing (suc k) (Answer.fails ∷ more) = ⊥

pub Willing-le : (k j : ℕ) (answers : List Answer) → j ≤ k → Willing k answers → Willing j answers
Willing-le k zero answers h w = tt
Willing-le zero (suc j) answers h w = absurd (omega arith)
Willing-le (suc k) (suc j) [] h w = w
Willing-le (suc k) (suc j) (Answer.moves n ∷ more) h w =
    (w.0, Willing-le k j more (omega arith) w.1)
Willing-le (suc k) (suc j) (Answer.interrupted ∷ more) h w = Willing-le (suc k) (suc j) more h w
Willing-le (suc k) (suc j) (Answer.fails ∷ more) h w = w

-- What a successful exchange leaves: `outbox` and `inbox` as given, and a kernel that is still
-- willing to make `k` moves.
pub record Leaves (k : ℕ) (out inb : List ℕ) (l : Link) : Type 0 where
  pub outbox : l.outbox ≡ out
  pub inbox : l.inbox ≡ inb
  pub willing : Willing k l.answers

pub suc-==-zero : (n : ℕ) → (suc n == 0) ≡ false
suc-==-zero n = ground arith

-- What one call moved and what is left make up the bytes again.
pub rejoin :
    (front : List ℕ) (x : ℕ) (xs : List ℕ) (n : ℕ)
    → (front ++ x ∷ take n xs) ++ drop n xs ≡ front ++ x ∷ xs
rejoin front x xs n =
    append_assoc front (x ∷ take n xs) (drop n xs)
    ∙ ap (λ r. front ++ x ∷ r) (take-append-drop n xs)

send_from-progress :
    (answers : List Answer) (bytes out inb : List ℕ) (k j : ℕ)
    → length bytes + k ≤ j
    → Willing j answers
    → (l' : Link) × (send_from answers bytes out inb ≡ some (true, l'))
      × Leaves k (out ++ bytes) inb l'
unfolding send_from
send_from-progress answers [] out inb k j h w = (
  record { answers = answers; outbox = out; inbox = inb },
  refl,
  record {
    outbox = sym (append-nil out);
    inbox = refl;
    willing = Willing-le j k answers (omega arith) w;
  },
)
send_from-progress answers (x ∷ xs) out inb k zero h w = absurd (omega arith)
send_from-progress [] (x ∷ xs) out inb k (suc j) h w = absurd w
send_from-progress (Answer.moves zero ∷ more) (x ∷ xs) out inb k (suc j) h w = absurd (omega arith)
send_from-progress (Answer.moves (suc n) ∷ more) (x ∷ xs) out inb k (suc j) h w =
    let (l', e, v) =
      send_from-progress more (drop n xs) (out ++ x ∷ take n xs) inb k j
        (omega (arith, length-drop n xs)) w.1 in
    (
      l',
      rw (suc-==-zero n) e,
      record { outbox = v.outbox ∙ rejoin out x xs n; inbox = v.inbox; willing = v.willing },
    )
send_from-progress (Answer.interrupted ∷ more) (x ∷ xs) out inb k (suc j) h w =
    send_from-progress more (x ∷ xs) out inb k (suc j) h w
send_from-progress (Answer.fails ∷ more) (x ∷ xs) out inb k (suc j) h w = absurd w

-- What is left of a stream when part of the bytes wanted is taken.
pub drop-length-take {ℓ} :
    {A : Type ℓ} (n : ℕ) (xs ys : List A) → drop (length (take n xs)) (xs ++ ys) ≡ drop n xs ++ ys
drop-length-take zero xs ys = refl
drop-length-take (suc n) [] ys = refl
drop-length-take (suc n) (x ∷ xs) ys = drop-length-take n xs ys

recv_step :
    (n : ℕ) (more : List Answer) (x : ℕ) (xs got out rest : List ℕ)
    → recv_from (Answer.moves (suc n) ∷ more) (suc (length xs)) got out (x ∷ (xs ++ rest))
      ≡ recv_from more (length (drop n xs)) (got ++ x ∷ take n xs) out (drop n xs ++ rest)
unfolding recv_from
recv_step n more x xs got out rest = rw (
  take-append (length xs) xs rest refl,
  suc-==-zero (length (take n xs)),
  drop-length-take n xs rest,
  left,
)
  where
    left : suc (length xs) - suc (length (take n xs)) ≡ length (drop n xs)
    left = omega (arith, length-drop n xs, length-take n xs)

recv_from-progress :
    (answers : List Answer) (bytes got out rest : List ℕ) (k j : ℕ)
    → length bytes + k ≤ j
    → Willing j answers
    → (l' : Link) × (recv_from answers (length bytes) got out (bytes ++ rest)
        ≡ some ((true, got ++ bytes), l'))
      × Leaves k out rest l'
unfolding recv_from
recv_from-progress answers [] got out rest k j h w = (
  record { answers = answers; outbox = out; inbox = rest },
  ap (λ g. some ((true, g), record { answers = answers; outbox = out; inbox = rest }))
      (sym (append-nil got)),
  record { outbox = refl; inbox = refl; willing = Willing-le j k answers (omega arith) w },
)
recv_from-progress answers (x ∷ xs) got out rest k zero h w = absurd (omega arith)
recv_from-progress [] (x ∷ xs) got out rest k (suc j) h w = absurd w
recv_from-progress (Answer.moves zero ∷ more) (x ∷ xs) got out rest k (suc j) h w =
    absurd (omega arith)
recv_from-progress (Answer.moves (suc n) ∷ more) (x ∷ xs) got out rest k (suc j) h w =
    let (l', e, v) =
      recv_from-progress more (drop n xs) (got ++ x ∷ take n xs) out rest k j
        (omega (arith, length-drop n xs)) w.1 in
    (l', recv_step n more x xs got out rest ∙ rw (rejoin got x xs n) at e, v)
recv_from-progress (Answer.interrupted ∷ more) (x ∷ xs) got out rest k (suc j) h w =
    recv_from-progress more (x ∷ xs) got out rest k (suc j) h w
recv_from-progress (Answer.fails ∷ more) (x ∷ xs) got out rest k (suc j) h w = absurd w

-- A sending `transfer` returns success with all bytes sent, if the kernel makes a move for each of
-- them, interrupted or not, and does not fail before.
pub send_all-progress :
    (bytes : List ℕ) (k : ℕ) (l : Link)
    → Willing (length bytes + k) l.answers
    → (l' : Link) × (send_all bytes l ≡ some (true, l')) × Leaves k (l.outbox ++ bytes) l.inbox l'
unfolding send_all
send_all-progress bytes k l w =
    send_from-progress l.answers bytes l.outbox l.inbox k _ (omega arith) w

-- A receiving `transfer` returns success with exactly the bytes asked for, and leaves what follows
-- them, if the stream has them and the kernel makes a move for each, interrupted or not, and does
-- not fail before.
pub recv_exact-progress :
    (size : ℕ) (bytes rest : List ℕ) (k : ℕ) (l : Link)
    → size ≡ length bytes
    → l.inbox ≡ bytes ++ rest
    → Willing (length bytes + k) l.answers
    → (l' : Link) × (recv_exact size l ≡ some ((true, bytes), l')) × Leaves k l.outbox rest l'
unfolding recv_exact
recv_exact-progress size bytes rest k l e i w =
    rw (e, i) (recv_from-progress l.answers bytes [] l.outbox rest k _ (omega arith) w)
