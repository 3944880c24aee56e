-- ===== src/Rpc/Link/Delivery.antt =====
-- What `transfer` of guest/shim/src/gl_rpc.h does to the stream when it sends.
use vw_firmware_mac.Base.{ℕ, ◌≡◌, refl, sym, ap, ◌∙◌, subst}
use vw_firmware_mac.Base.{List, [], ◌∷◌, ◌++◌, some, Bool, true, false, if◌then◌else◌}
use vw_firmware_mac.Base.{
  take, drop, take-append-drop, append_assoc, append-nil, inl, inr, Bool-cases, ◌==◌,
}
use vw_firmware_mac.Rpc.Link.{Answer, Link, M, >>=-eq-some, pure, ◌>&◌, send_from, send_all}

-- How sending `bytes` ends: what went out is a prefix, all of it if the call reports success, and
-- nothing was received.
pub record Sent (bytes : List ℕ) (l : Link) (done : Bool) (l' : Link) : Type 0 where
  pub front : List ℕ
  pub back : List ℕ
  pub split : front ++ back ≡ bytes
  pub outbox : l'.outbox ≡ l.outbox ++ front
  pub inbox : l'.inbox ≡ l.inbox
  pub complete : done ≡ true → back ≡ []

abbrev pub Sends : M Bool → List ℕ → Type 0
Sends m bytes = (l : Link) (done : Bool) (l' : Link) → m l ≡ some (done, l') → Sent bytes l done l'

-- A call that sends nothing and fails, and one that goes on after `sent` went out.
pub Sent-refused :
    (bytes : List ℕ) (l : Link) {done : Bool} (l' : Link)
    → done ≡ false
    → l'.outbox ≡ l.outbox
    → l'.inbox ≡ l.inbox
    → Sent bytes l done l'
Sent-refused bytes l l' refused out inb = record {
  front = [];
  back = bytes;
  split = refl;
  outbox = out ∙ sym (append-nil l.outbox);
  inbox = inb;
  complete = λ e. cc;
}

pub Sent-all :
    (bytes : List ℕ) (l : Link) {done : Bool} (l' : Link)
    → l'.outbox ≡ l.outbox ++ bytes
    → l'.inbox ≡ l.inbox
    → Sent bytes l done l'
Sent-all bytes l l' out inb = record {
  front = bytes;
  back = [];
  split = append-nil bytes;
  outbox = out;
  inbox = inb;
  complete = λ e. refl;
}

pub Sent-append :
    {xs ys : List ℕ} {l m l' : Link} {done : Bool}
    → Sent xs l true m
    → Sent ys m done l'
    → Sent (xs ++ ys) l done l'
Sent-append {xs} {ys} {l} {m} {l'} s t = record {
  front = xs ++ t.front;
  back = t.back;
  split = append_assoc xs t.front t.back ∙ ap (λ r. xs ++ r) t.split;
  outbox = t.outbox ∙ ap (λ o. o ++ t.front) whole ∙ append_assoc l.outbox xs t.front;
  inbox = t.inbox ∙ s.inbox;
  complete = t.complete;
}
  where
    whole : m.outbox ≡ l.outbox ++ xs
    whole =
        s.outbox
        ∙ ap (λ r. l.outbox ++ r)
            (sym (append-nil s.front) ∙ ap (λ r. s.front ++ r) (sym (s.complete refl)) ∙ s.split)

send_from-Sent :
    (answers : List Answer) (bytes out inb : List ℕ) (done : Bool) (l' : Link)
    → send_from answers bytes out inb ≡ some (done, l')
    → Sent bytes (record { answers = answers; outbox = out; inbox = inb }) done l'
unfolding send_from
send_from-Sent answers [] out inb done l' e = Sent-all [] _ l' (cc (append-nil out)) (cc)
send_from-Sent [] (x ∷ xs) out inb done l' e = cc
send_from-Sent (Answer.moves n ∷ more) (x ∷ xs) out inb done l' e = elim (Bool-cases (n == 0)) [
  | inl z ↦ let e' = rw z at e in Sent-refused _ _ l' (cc) (cc) (cc)
  | inr nz ↦
      let l : Link = record { answers = Answer.moves n ∷ more; outbox = out; inbox = inb } in
      subst (λ b. Sent b l done l') (take-append-drop n (x ∷ xs))
        (Sent-append
          (Sent-all (take n (x ∷ xs)) l
            (record { answers = more; outbox = out ++ take n (x ∷ xs); inbox = inb }) refl refl)
          (send_from-Sent more (drop n (x ∷ xs)) (out ++ take n (x ∷ xs)) inb done l' (rw nz at e)))
]
send_from-Sent (Answer.interrupted ∷ more) (x ∷ xs) out inb done l' e =
    let t = send_from-Sent more (x ∷ xs) out inb done l' e in
    record {
      front = t.front;
      back = t.back;
      split = t.split;
      outbox = t.outbox;
      inbox = t.inbox;
      complete = t.complete;
    }
send_from-Sent (Answer.fails ∷ more) (x ∷ xs) out inb done l' e = Sent-refused _ _ l' (cc) (cc) (cc)

-- A sending `transfer` that returns has handed over a prefix of the bytes, in order and each once,
-- all of them if it reports success, and has received nothing.
pub send_all-Sends :
    (bytes : List ℕ) (l : Link) (done : Bool) (l' : Link)
    → send_all bytes l ≡ some (done, l')
    → Sent bytes l done l'
unfolding send_all
send_all-Sends bytes l done l' e = send_from-Sent l.answers bytes l.outbox l.inbox done l' e

pub Sends-pure-false : (bytes : List ℕ) → Sends (pure false) bytes
Sends-pure-false bytes l done l' e = Sent-refused bytes l l' (cc) (cc) (cc)

pub Sends-pure-true : Sends (pure true) []
Sends-pure-true l done l' e = Sent-all [] l l' (cc (append-nil l.outbox)) (cc)

module _ (m k : M Bool) (xs ys : List ℕ) (sm : Sends m xs) (sk : Sends k ys) where
  -- `m` ended with `ok`; the rest is `k` or nothing.
  both_step :
      (ok : Bool) (l l₁ : Link) (done : Bool) (l' : Link)
      → m l ≡ some (ok, l₁)
      → (if ok then k else pure false) l₁ ≡ some (done, l')
      → Sent (xs ++ ys) l done l'
  both_step true l l₁ done l' first second = Sent-append (sm l true l₁ first) (sk l₁ done l' second)
  both_step false l l₁ done l' first second =
      let s = sm l false l₁ first in
      record {
        front = s.front;
        back = s.back ++ ys;
        split = sym (append_assoc s.front s.back ys) ∙ ap (λ b. b ++ ys) s.split;
        outbox = cc (s.outbox);
        inbox = cc (s.inbox);
        complete = λ e. cc;
      }

  pub Sends-both : Sends (m >& k) (xs ++ ys)
  Sends-both l done l' e =
      let (ok, l₁, first, second) = >>=-eq-some m _ l e in both_step ok l l₁ done l' first second
