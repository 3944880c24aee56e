-- ===== src/Rpc/Link/Keeping.antt =====
-- Readers of the stream and what they leave of it, for guest/shim/src/gl_rpc.h.
use vw_firmware_mac.Base.{ℕ, zero, suc, ◌-◌, ◌≡◌, ◌∙◌, inl, inr, Bool-cases}
use vw_firmware_mac.Base.{List, [], ◌∷◌, ◌++◌, some, Bool, true, false, if◌then◌else◌}
use vw_firmware_mac.Base.{length, take, drop, ◌==◌}
use vw_firmware_mac.Rpc.Link.{Answer, Link, M, pure, ◌>>=◌, >>=-eq-some, recv_from, recv_exact}

-- A reader sends nothing.
pub record Keeps {ℓ} {A : Type ℓ} (m : M A) : Type ℓ where
  pub keeps : (l : Link) (a : A) (l' : Link) → m l ≡ some (a, l') → l'.outbox ≡ l.outbox

pub Keeps-pure {ℓ} : {A : Type ℓ} (a : A) → Keeps (pure a)
Keeps-pure a = record { keeps = λ l b l' e. cc }

pub Keeps-bind {ℓ κ} :
    {A : Type ℓ} {B : Type κ} {m : M A} {f : A → M B}
    → Keeps m
    → ((a : A) → Keeps (f a))
    → Keeps (m >>= f)
Keeps-bind {m} {f} km kf = record {
  keeps = λ l b l' e.
      let (a, l₁, first, second) = >>=-eq-some m f l e in
      (kf a).keeps l₁ b l' second ∙ km.keeps l a l₁ first;
}

pub Keeps-if {ℓ} :
    {A : Type ℓ} (b : Bool) {m k : M A} → Keeps m → Keeps k → Keeps (if b then m else k)
Keeps-if true km kk = km
Keeps-if false km kk = kk

recv_from-outbox :
    (answers : List Answer) (left : ℕ) (got out inb : List ℕ) {a : Bool × List ℕ} {l' : Link}
    → recv_from answers left got out inb ≡ some (a, l')
    → l'.outbox ≡ out
unfolding recv_from
recv_from-outbox answers zero got out inb e = cc
recv_from-outbox [] (suc left) got out inb e = cc
recv_from-outbox (Answer.moves n ∷ more) (suc left) got out inb e =
    let part = take n (take (suc left) inb) in
    elim (Bool-cases (length part == 0)) [
      | inl z ↦ let e' = rw z at e in cc
      | inr nz ↦
          recv_from-outbox more (suc left - length part) (got ++ part) out (drop (length part) inb)
            (rw nz at e)
    ]
recv_from-outbox (Answer.interrupted ∷ more) (suc left) got out inb e =
    recv_from-outbox more (suc left) got out inb e
recv_from-outbox (Answer.fails ∷ more) (suc left) got out inb e = cc

pub recv_exact-Keeps : (size : ℕ) → Keeps (recv_exact size)
unfolding recv_exact
recv_exact-Keeps size = record {
  keeps = λ l a l' e. recv_from-outbox l.answers size [] l.outbox l.inbox e;
}
