-- ===== src/Screen/Objects/Heap.antt =====
-- The objects of guest/shim/src/libscreen_stub.c on the heap: which are well formed, and what a write
-- keeps.
use vw_firmware_mac.Base.{
  ℕ, ◌≤◌, ◌<◌, ◌≡◌, refl, sym, ap, ◌∙◌, subst, inl, inr, Bool-cases, List, Option, none, some,
  false, ℤ, pos, negsuc, arith,
}
use vw_firmware_mac.Base.{◌==◌}
use mathlib.Core.Option.{some-injective}
use vw_firmware_mac.Screen.Property.{Kind, Obj}
use vw_firmware_mac.Screen.Objects.{Screen, write, put}

abbrev pub Cells : Type 0
Cells = ℕ → Option Obj

unfoldable count_of : ℤ → ℕ
count_of (pos n) = n
count_of (negsuc n) = 0

pub pos_injective : (m n : ℕ) → pos m ≡ pos n → m ≡ n
unfolding count_of
pos_injective m n e = ap count_of e

-- The address of a buffer.
pub record IsBuffer (c : Cells) (a : ℕ) : Type 0 where
  pub obj : Obj
  pub cell : c a ≡ some obj
  pub kind : obj.kind ≡ Kind.buffer

-- The first `n` slots of an object are buffers.
abbrev pub Filled : Cells → (ℕ → ℕ) → ℕ → Type 0
Filled c f n = (i : ℕ) → i < n → IsBuffer c (f i)

-- An object has 0 to 8 buffers, in its first slots.
pub record IsObject (c : Cells) (o : Obj) : Type 0 where
  pub count : ℕ
  pub nbuffers : o.nbuffers ≡ pos count
  pub bound : count ≤ 8
  pub filled : Filled c o.buffers count

abbrev pub Objects : Cells → Type 0
Objects c = (a : ℕ) (o : Obj) → c a ≡ some o → IsObject c o

-- Every object is well formed, and `calloc` returns an address that is not in use.
pub record IsValid (s : Screen) : Type 0 where
  pub unused : (a : ℕ) → s.fresh ≤ a → s.cells a ≡ none
  pub positive : 0 < s.fresh
  pub objects : Objects s.cells

-- What was a buffer stays one.
abbrev pub Keeps : Cells → Cells → Type 0
Keeps c d = (a : ℕ) → IsBuffer c a → IsBuffer d a

pub IsObject-Keeps : (c d : Cells) (o : Obj) → Keeps c d → IsObject c o → IsObject d o
IsObject-Keeps c d o k h = record {
  count = h.count;
  nbuffers = h.nbuffers;
  bound = h.bound;
  filled = λ i lt. k (o.buffers i) (h.filled i lt);
}

pub write-same {ℓ} : {A : Type ℓ} (f : ℕ → A) (p : ℕ) (v : A) → write f p v p ≡ v
write-same f p v = ground arith

pub write-other {ℓ} :
    {A : Type ℓ} (f : ℕ → A) (p q : ℕ) (v : A) → (q == p) ≡ false → write f p v q ≡ f q
write-other f p q v h = rw h refl

-- A new object, and an object that keeps its kind.
pub write-Keeps_new : (c : Cells) (p : ℕ) (o : Obj) → c p ≡ none → Keeps c (write c p (some o))
write-Keeps_new c p o e a h = elim (Bool-cases (a == p)) [
  | inl same ↦
      let at_p : c p ≡ some h.obj = subst (λ b. c b ≡ some h.obj) (ground arith) h.cell in cc
  | inr other ↦ record {
    obj = h.obj;
    cell = write-other c p a (some o) other ∙ h.cell;
    kind = h.kind;
  }
]

pub write-Keeps_old :
    (c : Cells) (p : ℕ) (o o' : Obj)
    → c p ≡ some o
    → o'.kind ≡ o.kind
    → Keeps c (write c p (some o'))
write-Keeps_old c p o o' e k a h = elim (Bool-cases (a == p)) [
  | inl same ↦
      let at_p : c p ≡ some h.obj = subst (λ b. c b ≡ some h.obj) (ground arith) h.cell in
      let object : o ≡ h.obj = some-injective _ _ (sym e ∙ at_p) in
      record { obj = o'; cell = rw same refl; kind = k ∙ ap (λ b. b.kind) object ∙ h.kind }
  | inr other ↦ record {
    obj = h.obj;
    cell = write-other c p a (some o') other ∙ h.cell;
    kind = h.kind;
  }
]

pub write-Objects :
    (c : Cells) (p : ℕ) (o : Obj)
    → Keeps c (write c p (some o))
    → IsObject (write c p (some o)) o
    → Objects c
    → Objects (write c p (some o))
write-Objects c p o k h objects a b e = elim (Bool-cases (a == p)) [
  | inl same ↦
      let object : o ≡ b = some-injective _ _ (rw same at e) in
      subst (IsObject (write c p (some o))) object h
  | inr other ↦ IsObject-Keeps c (write c p (some o)) b k (objects a b (rw other at e))
]

-- An object without buffers.
pub empty-IsObject : (c : Cells) (o : Obj) → o.nbuffers ≡ pos 0 → IsObject c o
empty-IsObject c o e = record {
  count = 0;
  nbuffers = e;
  bound = omega arith;
  filled = λ i h. absurd (omega arith);
}

-- A write to an object that keeps its kind and its buffers.
pub put-IsValid :
    (s : Screen) (p : ℕ) (o o' : Obj)
    → IsValid s
    → s.cells p ≡ some o
    → o'.kind ≡ o.kind
    → IsObject s.cells o'
    → IsValid (put s p o')
unfolding put
put-IsValid s p o o' v e k h =
    let keeps : Keeps s.cells (write s.cells p (some o')) = write-Keeps_old s.cells p o o' e k in
    record {
      unused = λ a le. ground (arith, v.unused a, v.unused p, e);
      positive = v.positive;
      objects = write-Objects s.cells p o' keeps (IsObject-Keeps _ _ o' keeps h) v.objects;
    }

-- A new object without buffers.
pub put_new-IsValid :
    (s : Screen) (o : Obj) (blocks : ℕ → Option (List ℕ)) (fresh next_id : ℕ)
    → IsValid s
    → o.nbuffers ≡ pos 0
    → s.fresh < fresh
    → IsValid (record (put s s.fresh o) { blocks = blocks; fresh = fresh; next_id = next_id })
unfolding put
put_new-IsValid s o blocks fresh next_id v e lt =
    let keeps : Keeps s.cells (write s.cells s.fresh (some o)) =
      write-Keeps_new s.cells s.fresh o (v.unused s.fresh (omega arith)) in
    record {
      unused = λ a le. ground (arith, v.unused a);
      positive = omega arith;
      objects = write-Objects s.cells s.fresh o keeps (empty-IsObject _ o e) v.objects;
    }
