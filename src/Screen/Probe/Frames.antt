-- ===== src/Screen/Probe/Frames.antt =====
-- The pictures that guest/shim/src/display_probe.c draws.
use vw_firmware_mac.Base.{
  ℕ, zero, suc, ◌+◌, ◌*◌, ◌<◌, ◌≡◌, refl, sym, ap, ap₂, ◌∙◌, List, [], ◌∷◌, ◌++◌, append_assoc,
  arith,
}
use vw_firmware_mac.Base.{length, length-append, get_or, get_or-append_left, get_or-append_right}
use vw_firmware_mac.Screen.Probe.{color, row_from, rows_from, frame}

length-color : (t x y : ℕ) → length (color t x y) ≡ 3
unfolding color
length-color t x y = ground arith

-- The four bytes of a pixel.
unfoldable pub rgba : ℕ → ℕ → ℕ → List ℕ
rgba t x y = color t x y ++ (255 ∷ [])

length-rgba : (t x y : ℕ) → length (rgba t x y) ≡ 4
unfolding rgba
length-rgba t x y = omega (arith, length-append (color t x y) (255 ∷ []), length-color t x y)

row_from-suc : (t y x n : ℕ) → row_from t y x (suc n) ≡ rgba t x y ++ row_from t y (x + 1) n
unfolding row_from rgba
row_from-suc t y x n = sym (append_assoc (color t x y) (255 ∷ []) (row_from t y (x + 1) n))

length-row : (t y x n : ℕ) → length (row_from t y x n) ≡ 4 * n
unfolding row_from
length-row t y x zero = refl
length-row t y x (suc n) =
    ap length (row_from-suc t y x n)
    ∙ omega (
      arith,
      length-append (rgba t x y) (row_from t y (x + 1) n),
      length-rgba t x y,
      length-row t y (x + 1) n,
    )

row-pixel :
    (t y x n i c : ℕ)
    → i < n
    → c < 4
    → get_or (row_from t y x n) (4 * i + c) 0 ≡ get_or (rgba t (x + i) y) c 0
row-pixel t y x zero i c h hc = absurd (omega arith)
row-pixel t y x (suc n) zero c h hc =
    ap (λ l. get_or l (4 * 0 + c) 0) (row_from-suc t y x n)
    ∙ (get_or-append_left (rgba t x y) (row_from t y (x + 1) n) (4 * 0 + c) 0
          (omega (arith, length-rgba t x y))
        ∙ ap₂ (λ x' c'. get_or (rgba t x' y) c' 0) (omega arith) (omega arith))
row-pixel t y x (suc n) (suc i) c h hc =
    ap (λ l. get_or l (4 * suc i + c) 0) (row_from-suc t y x n)
    ∙ (get_or-append_right (rgba t x y) (row_from t y (x + 1) n) (4 * i + c) (4 * suc i + c) 0
          (omega (arith, length-rgba t x y))
        ∙ row-pixel t y (x + 1) n i c (omega arith) hc
        ∙ ap (λ x'. get_or (rgba t x' y) c 0) (omega arith))

length-rows : (t y n : ℕ) → length (rows_from t y n) ≡ 3200 * n
unfolding rows_from
length-rows t y zero = refl
length-rows t y (suc n) = omega (
  arith,
  length-append (row_from t y 0 800) (rows_from t (y + 1) n),
  length-row t y 0 800,
  length-rows t (y + 1) n,
)

pub length-frame : (t : ℕ) → length (frame t) ≡ 1536000
unfolding frame
length-frame t = length-rows t 0 480

rows-pixel :
    (t y n i x c : ℕ)
    → i < n
    → x < 800
    → c < 4
    → get_or (rows_from t y n) (3200 * i + (4 * x + c)) 0 ≡ get_or (rgba t x (y + i)) c 0
unfolding rows_from
rows-pixel t y zero i x c h hx hc = absurd (omega arith)
rows-pixel t y (suc n) zero x c h hx hc =
    get_or-append_left (row_from t y 0 800) (rows_from t (y + 1) n) (3200 * 0 + (4 * x + c)) 0
      (omega (arith, length-row t y 0 800))
    ∙ ap (λ k. get_or (row_from t y 0 800) k 0) (omega arith)
    ∙ row-pixel t y 0 800 x c hx hc
    ∙ ap₂ (λ x' y'. get_or (rgba t x' y') c 0) (omega arith) (omega arith)
rows-pixel t y (suc n) (suc i) x c h hx hc =
    get_or-append_right (row_from t y 0 800) (rows_from t (y + 1) n) (3200 * i + (4 * x + c))
      (3200 * suc i + (4 * x + c)) 0 (omega (arith, length-row t y 0 800))
    ∙ rows-pixel t (y + 1) n i x c (omega arith) hx hc
    ∙ ap (λ y'. get_or (rgba t x y') c 0) (omega arith)

-- A frame has 1536000 bytes, and its four bytes at 3200 * y + 4 * x, for x below 800 and y below 480,
-- are those of the pixel at x, y: its colour, then 255.
pub frame-pixel :
    (t y x c : ℕ)
    → y < 480
    → x < 800
    → c < 4
    → (length (frame t) ≡ 1536000)
      × (get_or (frame t) (3200 * y + (4 * x + c)) 0 ≡ get_or (rgba t x y) c 0)
unfolding frame
frame-pixel t y x c hy hx hc = (
  length-frame t,
  rows-pixel t 0 480 y x c hy hx hc ∙ ap (λ y'. get_or (rgba t x y') c 0) (omega arith),
)
