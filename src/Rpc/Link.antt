-- ===== src/Rpc/Link.antt =====
-- A connected stream socket as the code sees it, and `transfer` of guest/shim/src/gl_rpc.h.
-- What the kernel does enters as a list of answers, one for each call of `send` or `recv`.
pub mod Delivery
pub mod Progress
pub mod Reading
pub mod Keeping
pub mod Moving
use vw_firmware_mac.Base.{ℕ, zero, suc, List, [], ◌∷◌, ◌++◌, Option, none, some, Bool, true, false}
use vw_firmware_mac.Base.{◌-◌, ◌==◌, if◌then◌else◌, length, take, drop, ◌≡◌, refl}

-- `moves n`: the call moves at most `n` bytes (of those offered, wanted or there). `interrupted`
-- is -1 with `EINTR`, `fails` any other -1, a timeout among them.
pub data Answer : Type 0 where
  moves : ℕ → Answer
  interrupted fails : Answer

-- `outbox` is what the peer was sent so far, `inbox` what it sends and was not yet received.
pub record Link : Type 0 where
  pub answers : List Answer
  pub outbox : List ℕ
  pub inbox : List ℕ

-- `none`: a call of the kernel has not returned yet.
abbrev pub M {ℓ} : Type ℓ → Type ℓ
M A = Link → Option (A × Link)

abbrev pub pure {ℓ} : {A : Type ℓ} → A → M A
pure a l = some (a, l)

infixl 5 ◌>>=◌
abbrev pub ◌>>=◌ {ℓ κ} : {A : Type ℓ} {B : Type κ} → M A → (A → M B) → M B
◌>>=◌ m f l = elim (m l) [ none ↦ none | some (a, l') ↦ f a l' ]

-- Inversion of a call that returned.
pub >>=-eq-some {ℓ κ} :
    {A : Type ℓ} {B : Type κ} (m : M A) (f : A → M B) (l : Link) {b : B} {l' : Link}
    → (m >>= f) l ≡ some (b, l')
    → (a : A) × (l₁ : Link) × (m l ≡ some (a, l₁)) × (f a l₁ ≡ some (b, l'))
>>=-eq-some {A} {B} m f l {b} {l'} e = go (m l) refl e
  where
    go :
        (r : Option (A × Link))
        → m l ≡ r
        → (elim r [ none ↦ none | some (a, l₁) ↦ f a l₁ ]) ≡ some (b, l')
        → (a : A) × (l₁ : Link) × (m l ≡ some (a, l₁)) × (f a l₁ ≡ some (b, l'))
    go none h e = cc
    go (some (a, l₁)) h e = (a, l₁, h, e)

pub >>=-step {ℓ κ} :
    {A : Type ℓ} {B : Type κ} (m : M A) (f : A → M B) (l : Link) {a : A} {l₁ : Link}
    → m l ≡ some (a, l₁)
    → (m >>= f) l ≡ f a l₁
>>=-step m f l e = rw (e, ◌>>=◌)

-- `if(!m) return 0;` and then `k`.
infixr 6 ◌>&◌
abbrev pub ◌>&◌ : M Bool → M Bool → M Bool
◌>&◌ m k = m >>= λ done. if done then k else pure false

-- The loop of `transfer` with `sending` set; the list is `data + done` to `data + size`.
unfoldable pub send_from : List Answer → List ℕ → List ℕ → List ℕ → Option (Bool × Link)
send_from answers [] out inb = some (true, record { answers = answers; outbox = out; inbox = inb })
send_from [] (x ∷ xs) out inb = none
send_from (Answer.moves n ∷ more) (x ∷ xs) out inb =
    let rest = send_from more (drop n (x ∷ xs)) (out ++ take n (x ∷ xs)) inb in
    if n == 0 then some (false, record { answers = more; outbox = out; inbox = inb }) else rest
send_from (Answer.interrupted ∷ more) (x ∷ xs) out inb = send_from more (x ∷ xs) out inb
send_from (Answer.fails ∷ more) (x ∷ xs) out inb =
    some (false, record { answers = more; outbox = out; inbox = inb })

unfoldable pub send_all : List ℕ → M Bool
send_all bytes l = send_from l.answers bytes l.outbox l.inbox

-- The loop of `transfer` with `sending` clear: `left` is `size - done`, and `got` what the buffer
-- holds so far, also where the transfer fails. An empty `inbox` is the end of the stream.
recv_from : List Answer → ℕ → List ℕ → List ℕ → List ℕ → Option ((Bool × List ℕ) × Link)
recv_from answers zero got out inb =
    some ((true, got), record { answers = answers; outbox = out; inbox = inb })
recv_from [] (suc left) got out inb = none
recv_from (Answer.moves n ∷ more) (suc left) got out inb =
    let part = take n (take (suc left) inb) in
    let rest = recv_from more (suc left - length part) (got ++ part) out (drop (length part) inb) in
    if length part == 0
    then some ((false, got), record { answers = more; outbox = out; inbox = inb })
    else rest
recv_from (Answer.interrupted ∷ more) (suc left) got out inb = recv_from more (suc left) got out inb
recv_from (Answer.fails ∷ more) (suc left) got out inb =
    some ((false, got), record { answers = more; outbox = out; inbox = inb })

pub recv_exact : ℕ → M (Bool × List ℕ)
recv_exact size l = recv_from l.answers size [] l.outbox l.inbox
