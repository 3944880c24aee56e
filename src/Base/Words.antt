-- ===== src/Base/Words.antt =====
-- Bytes, 32-bit words and their little-endian encoding, which every protocol of the program uses.
-- On the targets (little-endian ARM, and Python's `<I`) a `memcpy` of a `uint32_t` writes `le32`.
use Prim.Native.Nat.{ℕ, ◌+◌, ◌*◌, ◌/◌, ◌%◌, ◌^◌, ◌<◌, ◌≤◌}
use mathlib.Core.Path.{◌≡◌}
use mathlib.Core.List.{List, [], ◌∷◌, ◌++◌}
use native.Mathlib.Omega.{arith}
use vw_firmware_mac.Base.Lists.{All, get_or, length, get_or-append_left, get_or-append_right}

abbrev pub IsByte : ℕ → Type 0
IsByte b = b < 256

abbrev pub IsU32 : ℕ → Type 0
IsU32 v = v < 2 ^ 32

-- The four bytes of a word, lowest first. Bytes above the word are cut off.
unfoldable pub le32 : ℕ → List ℕ
le32 v = (v % 256) ∷ (v / 256 % 256) ∷ (v / 65536 % 256) ∷ (v / 16777216 % 256) ∷ []

-- The word that four bytes stand for.
unfoldable pub word : ℕ → ℕ → ℕ → ℕ → ℕ
word a b c d = a + b * 256 + c * 65536 + d * 16777216

pub word_le32 :
    (v : ℕ) → IsU32 v → word (v % 256) (v / 256 % 256) (v / 65536 % 256) (v / 16777216 % 256) ≡ v
unfolding word
word_le32 v h = omega arith

pub word-IsU32 : (a b c d : ℕ) → IsByte a → IsByte b → IsByte c → IsByte d → IsU32 (word a b c d)
unfolding word
word-IsU32 a b c d ha hb hc hd = omega arith

pub le32-IsByte : (v : ℕ) → All IsByte (le32 v)
unfolding le32
le32-IsByte v = omega arith

-- The word at an index of a buffer. Every caller checks the length first, so the default of
-- `get_or` is never read.
unfoldable pub u32_at : List ℕ → ℕ → ℕ
unfolding word
u32_at p i = word (get_or p i 0) (get_or p (i + 1) 0) (get_or p (i + 2) 0) (get_or p (i + 3) 0)

pub u32_at-append_left :
    (xs ys : List ℕ) (i : ℕ) → i + 4 ≤ length xs → u32_at (xs ++ ys) i ≡ u32_at xs i
unfolding u32_at
u32_at-append_left xs ys i h = rw (
  get_or-append_left xs ys i 0 (omega arith),
  get_or-append_left xs ys (i + 1) 0 (omega arith),
  get_or-append_left xs ys (i + 2) 0 (omega arith),
  get_or-append_left xs ys (i + 3) 0 (omega arith),
)

pub u32_at-append_right :
    (xs ys : List ℕ) (i j : ℕ) → j ≡ length xs + i → u32_at (xs ++ ys) j ≡ u32_at ys i
unfolding u32_at
u32_at-append_right xs ys i j e = rw (
  get_or-append_right xs ys i j 0 e,
  get_or-append_right xs ys (i + 1) (j + 1) 0 (omega arith),
  get_or-append_right xs ys (i + 2) (j + 2) 0 (omega arith),
  get_or-append_right xs ys (i + 3) (j + 3) 0 (omega arith),
)
