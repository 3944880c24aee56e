-- ===== src/Dsi/Bytes.antt =====
-- Checked reads of a packet, and `put32` of guest/dsi/trace.c on a local array.
use vw_firmware_mac.Base.{
  ℕ, ◌+◌, ◌/◌, ◌%◌, ◌≤◌, ◌≡◌, ◌<◌, zero, suc, refl, subst, List, [], ◌∷◌, Bool, true, false, Option,
  none, some, get_elem?, leb, if◌then◌else◌,
}
use vw_firmware_mac.Base.{length, take, drop, set, u32_at, arith}

-- A chain of checked reads.
infixl 5 ◌>>=◌
abbrev pub ◌>>=◌ {ℓ κ} : {A : Type ℓ} {B : Type κ} → Option A → (A → Option B) → Option B
none >>= f = none
some a >>= f = f a

-- A chain that reads nothing past the end.
abbrev pub Total {ℓ} : {A : Type ℓ} → Option A → Type ℓ
Total {A} m = (a : A) × (m ≡ some a)

pub Total-bind {ℓ κ} :
    {A : Type ℓ} {B : Type κ} {m : Option A} {f : A → Option B}
    → Total m
    → ((a : A) → Total (f a))
    → Total (m >>= f)
Total-bind {f} (a, e) k = let (b, e') = k a in (b, rw e e')

pub Total-chain {ℓ κ} :
    {A : Type ℓ} {B : Type κ} {m : Option A} {f : A → Option B}
    → Total m
    → ((a : A) → m ≡ some a → Total (f a))
    → Total (m >>= f)
Total-chain {f} (a, e) k = let (b, e') = k a e in (b, rw e e')

pub Total-if {ℓ} :
    {A : Type ℓ} (b : Bool) {m k : Option A}
    → (b ≡ true → Total m)
    → (b ≡ false → Total k)
    → Total (if b then m else k)
Total-if true hm hk = hm refl
Total-if false hm hk = hk refl

pub Total-some {ℓ} : {A : Type ℓ} (a : A) → Total (some a)
Total-some a = (a, refl)

-- A chain of reads that, where it ends, ends in `P`.
abbrev pub Ends : {A : Type 0} → (A → Type 0) → Option A → Type 0
Ends {A} P m = (a : A) → m ≡ some a → P a

pub Ends-bind :
    {A B : Type 0} (P : B → Type 0) (m : Option A) (f : A → Option B)
    → ((a : A) → Ends P (f a))
    → Ends P (m >>= f)
Ends-bind P none f k b e = cc
Ends-bind P (some a) f k b e = k a b e

pub Ends-chain :
    {A B : Type 0} {Q : A → Type 0} (P : B → Type 0) (m : Option A) (f : A → Option B)
    → Ends Q m
    → ((a : A) → Q a → Ends P (f a))
    → Ends P (m >>= f)
Ends-chain P none f q k b e = cc
Ends-chain P (some a) f q k b e = k a (q a refl) b e

pub Ends-some : {A : Type 0} (P : A → Type 0) (a : A) → P a → Ends P (some a)
Ends-some P a p b e = subst P (cc) p

pub Ends-if :
    {A : Type 0} (P : A → Type 0) (b : Bool) (m k : Option A)
    → Ends P m
    → Ends P k
    → Ends P (if b then m else k)
Ends-if P true m k hm hk = hm
Ends-if P false m k hm hk = hk

pub get_elem?-Total : (p : List ℕ) (i : ℕ) → i < length p → Total (get_elem? p i)
get_elem?-Total [] i h = absurd (omega arith)
get_elem?-Total (x ∷ p) zero h = (x, refl)
get_elem?-Total (x ∷ p) (suc i) h = get_elem?-Total p i (omega arith)

-- `u32(p+i)`; `none` is a read past the end of the packet.
unfoldable pub u32_in : List ℕ → ℕ → Option ℕ
u32_in p i = if leb (i + 4) (length p) then some (u32_at p i) else none

pub u32_in_lem : (p : List ℕ) (i : ℕ) → i + 4 ≤ length p → u32_in p i ≡ some (u32_at p i)
unfolding u32_in
u32_in_lem p i h = ground arith

-- The `n` bytes from `i` on, as `memcpy` reads them; `none` is a read past the end.
unfoldable pub bytes_in : List ℕ → ℕ → ℕ → Option (List ℕ)
bytes_in p i n = if leb (i + n) (length p) then some (take n (drop i p)) else none

pub bytes_in_lem :
    (p : List ℕ) (i n : ℕ) → i + n ≤ length p → bytes_in p i n ≡ some (take n (drop i p))
unfolding bytes_in
bytes_in_lem p i n h = ground arith

pub bytes_in-Total : (p : List ℕ) (i n : ℕ) → i + n ≤ length p → Total (bytes_in p i n)
bytes_in-Total p i n h = (take n (drop i p), bytes_in_lem p i n h)

-- A write past the end of the array changes nothing.
unfoldable pub put32 : List ℕ → ℕ → ℕ → List ℕ
put32 out i v =
    set (set (set (set out i (v % 256)) (i + 1) (v / 256 % 256)) (i + 2) (v / 65536 % 256)) (i + 3)
      (v / 16777216 % 256)

pub u32_in-Total : (p : List ℕ) (i : ℕ) → i + 4 ≤ length p → Total (u32_in p i)
u32_in-Total p i h = (u32_at p i, u32_in_lem p i h)
