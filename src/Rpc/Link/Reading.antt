-- ===== src/Rpc/Link/Reading.antt =====
-- Readers of the stream (guest/shim/src/gl_rpc.h): how much they take off it, and what they come
-- to.
use vw_firmware_mac.Base.{ℕ, ◌+◌, ◌≡◌, refl, ◌∙◌, subst, arith}
use vw_firmware_mac.Base.{List, [], ◌++◌, some, true}
use vw_firmware_mac.Base.{length, length-append, append_assoc, append-nil}
use vw_firmware_mac.Rpc.Link.{Link, M, pure, >>=-step, ◌>>=◌, recv_exact}
use vw_firmware_mac.Rpc.Link.Progress.{Willing, Leaves, recv_exact-progress}

-- `m` takes `bytes` off the stream and comes to `a`, if the kernel makes enough moves.
pub record Takes {ℓ} {A : Type ℓ} (m : M A) (bytes : List ℕ) (a : A) : Type ℓ where
  pub run :
      (k : ℕ) (l : Link) (rest : List ℕ)
      → l.inbox ≡ bytes ++ rest
      → Willing (length bytes + k) l.answers
      → (l' : Link) × (m l ≡ some (a, l')) × Leaves k l.outbox rest l'

pub Takes-pure {ℓ} : {A : Type ℓ} (a : A) → Takes (pure a) [] a
Takes-pure a = record {
  run = λ k l rest e w. (
    l,
    refl,
    record { outbox = refl; inbox = e; willing = subst (λ n. Willing n l.answers) (omega arith) w },
  );
}

module _ {ℓ κ} {A : Type ℓ} {B : Type κ} (m : M A) (a : A) where
  pub Takes-bind :
      (f : A → M B) (xs ys : List ℕ) (b : B)
      → Takes m xs a
      → Takes (f a) ys b
      → Takes (m >>= f) (xs ++ ys) b
  Takes-bind f xs ys b tm tf = record {
    run = λ j l rest e w.
        let more = subst (λ n. Willing n l.answers) (enough j) w in
        let (l₁, e₁, v₁) =
          tm.run (length ys + j) l (ys ++ rest) (e ∙ append_assoc xs ys rest) more in
        let (l₂, e₂, v₂) = tf.run j l₁ rest v₁.inbox v₁.willing in
        (
          l₂,
          >>=-step m f l e₁ ∙ e₂,
          record { outbox = v₂.outbox ∙ v₁.outbox; inbox = v₂.inbox; willing = v₂.willing },
        );
  }
    where
      enough : (j : ℕ) → length (xs ++ ys) + j ≡ length xs + (length ys + j)
      enough j = omega (arith, length-append xs ys)

  -- A reader whose result is computed from `m` with no further call.
  pub Takes-map :
      (f : A → B) (bytes : List ℕ) → Takes m bytes a → Takes (m >>= λ x. pure (f x)) bytes (f a)
  Takes-map f bytes tm =
      subst (λ b. Takes (m >>= λ x. pure (f x)) b (f a)) (append-nil bytes)
        (Takes-bind (λ x. pure (f x)) bytes [] (f a) tm (Takes-pure (f a)))

pub Takes-recv :
    (size : ℕ) (bytes : List ℕ) → size ≡ length bytes → Takes (recv_exact size) bytes (true, bytes)
Takes-recv size bytes h = record {
  run = λ k l rest e w. recv_exact-progress size bytes rest k l h e w;
}
