-- ===== src/Screen/Property/Storage.antt =====
-- `get_iv` after `set_iv` (guest/shim/src/libscreen_stub.c).
use vw_firmware_mac.Base.{
  ℤ, pos, ℕ, ◌⊎◌, subst, zero, suc, ◌+◌, ◌*◌, ◌≤◌, ◌<◌, ◌≡◌, ◌≢◌, refl, ap, ap₂, ◌∙◌, List, [], ◌∷◌,
  true, Option, none, some, arith,
}
use vw_firmware_mac.Base.{◌==◌, length, length-replicate, Bool-cases, inl, inr}
use vw_firmware_mac.Screen.Property.{
  Obj, Size, one_of, vec_len, unset_iv, read_cells, write_cell, write_cells, values, get_iv, mark,
  set_iv,
}

length-read_cells : (iv : ℕ → ℤ) (at n : ℕ) → length (read_cells iv at n) ≡ n
unfolding read_cells
length-read_cells iv at zero = refl
length-read_cells iv at (suc n) = ap suc (length-read_cells iv (suc at) n)

length-unset_iv : (s : Size) (o : Obj) (p : ℕ) → length (unset_iv s o p) ≡ vec_len p
unfolding unset_iv vec_len one_of
length-unset_iv s o p = ground (arith, length-replicate (vec_len p) (pos 0))

-- Where `get_iv` succeeds, it writes as many integers as `vec_len` says that the property has.
pub length-get_iv :
    (s : Size) (o : Option Obj) (p : ℕ) (vs : List ℤ)
    → get_iv s o (pos p) ≡ values vs
    → length vs ≡ vec_len p
unfolding get_iv
length-get_iv s none p vs e = cc
length-get_iv s (some o) p vs e =
    ground (arith, length-unset_iv s o p, length-read_cells o.iv (4 * p) (vec_len p))

-- The integers `param[i]` to `param[i+n-1]`.
unfoldable pub listed : (ℕ → ℤ) → ℕ → ℕ → List ℤ
listed param i zero = []
listed param i (suc n) = param i ∷ listed param (suc i) n

write_cell-same : (iv : ℕ → ℤ) (at : ℕ) (v : ℤ) → write_cell iv at v at ≡ v
unfolding write_cell
write_cell-same iv at v = ground arith

write_cell-other : (iv : ℕ → ℤ) (at j : ℕ) (v : ℤ) → j ≢ at → write_cell iv at v j ≡ iv j
unfolding write_cell
write_cell-other iv at j v h = ground arith

write_cells-in :
    (iv : ℕ → ℤ) (at : ℕ) (param : ℕ → ℤ) (n i : ℕ)
    → i < n
    → write_cells iv at param n (at + i) ≡ param i
unfolding write_cells
write_cells-in iv at param zero i h = absurd (omega arith)
write_cells-in iv at param (suc n) i h = elim (Bool-cases (i == n)) [
  | inl e ↦
      subst (λ m. write_cell (write_cells iv at param n) (at + n) (param n) (at + m) ≡ param m)
        (ground arith) (write_cell-same (write_cells iv at param n) (at + n) (param n))
  | inr e ↦
      write_cell-other (write_cells iv at param n) (at + n) (at + i) (param n) (ground arith)
      ∙ write_cells-in iv at param n i (ground arith)
]

write_cells-out :
    (iv : ℕ → ℤ) (at : ℕ) (param : ℕ → ℤ) (n j : ℕ)
    → (j < at) ⊎ (at + n ≤ j)
    → write_cells iv at param n j ≡ iv j
unfolding write_cells
write_cells-out iv at param zero j h = refl
write_cells-out iv at param (suc n) j h =
    write_cell-other (write_cells iv at param n) (at + n) j (param n) (ground arith)
    ∙ write_cells-out iv at param n j (ground arith)

read_cells-written :
    (iv : ℕ → ℤ) (at : ℕ) (param : ℕ → ℤ) (n i j k : ℕ)
    → i + k ≤ n
    → j ≡ at + i
    → read_cells (write_cells iv at param n) j k ≡ listed param i k
unfolding read_cells listed
read_cells-written iv at param n i j zero h e = refl
read_cells-written iv at param n i j (suc k) h e =
    ap₂ (λ x xs. x ∷ xs)
      (ap (write_cells iv at param n) e ∙ write_cells-in iv at param n i (omega arith))
      (read_cells-written iv at param n (suc i) (suc j) k (omega arith) (omega arith))

read_cells-kept :
    (iv : ℕ → ℤ) (at : ℕ) (param : ℕ → ℤ) (n j k : ℕ)
    → (j + k ≤ at) ⊎ (at + n ≤ j)
    → read_cells (write_cells iv at param n) j k ≡ read_cells iv j k
unfolding read_cells
read_cells-kept iv at param n j zero h = refl
read_cells-kept iv at param n j (suc k) h =
    ap₂ (λ x xs. x ∷ xs) (write_cells-out iv at param n j (ground arith))
      (read_cells-kept iv at param n (suc j) k (ground arith))

-- A property below 200 that was set on an object is read as it was set, with all of its integers.
pub get_iv-set_iv :
    (s : Size) (o : Obj) (p : ℕ) (param : ℕ → ℤ)
    → p < 200
    → get_iv s (set_iv (some o) (pos p) param) (pos p) ≡ values (listed param 0 (vec_len p))
unfolding get_iv set_iv mark
get_iv-set_iv s o p param h =
    ground (arith, read_cells-written o.iv (4 * p) param (vec_len p) 0 (4 * p) (vec_len p))

vec_len-row : (p : ℕ) → p ≢ 127 → vec_len p ≤ 3
unfolding vec_len
vec_len-row p h = ground arith

-- Setting a property below 200 leaves every other as it was, set or unset, where neither is property
-- 127.
pub get_iv-set_iv_other :
    (s : Size) (o : Obj) (p q : ℕ) (param : ℕ → ℤ)
    → p < 200
    → q ≢ p
    → p ≢ 127
    → q ≢ 127
    → get_iv s (set_iv (some o) (pos p) param) (pos q) ≡ get_iv s (some o) (pos q)
unfolding get_iv set_iv mark unset_iv
get_iv-set_iv_other s o p q param h d e f = ground (
  arith,
  vec_len-row p e,
  vec_len-row q f,
  read_cells-kept o.iv (4 * p) param (vec_len p) (4 * q) (vec_len q),
)

-- Setting property 127, which has nine integers in a row of four, overwrites property 128 with its
-- fifth integer, where property 128 was set.
pub get_iv-set_iv_127 :
    (s : Size) (o : Obj) (param : ℕ → ℤ)
    → o.iv_set 128 ≡ true
    → get_iv s (set_iv (some o) (pos 127) param) (pos 128) ≡ values (param 4 ∷ [])
unfolding get_iv set_iv mark vec_len one_of read_cells
get_iv-set_iv_127 s o param h = ground (arith, h, write_cells-in o.iv 508 param 9 4)
