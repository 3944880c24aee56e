-- ===== src/Display/Paint/Shown.antt =====
-- What `paint` of runtime/qemu-display/mib-display.c leaves on the surface where the frame is shown.
use vw_firmware_mac.Base.{
  ℕ, zero, suc, ◌+◌, ◌≤◌, ◌<◌, ◌≡◌, ◌≢◌, refl, sym, ap, ◌∙◌, inl, inr, Bool-cases, List, [], ◌∷◌,
  ◌++◌, true, false, Option, none, some, arith,
}
use vw_firmware_mac.Base.{◌==◌, ◌&&◌, if◌then◌else◌}
use vw_firmware_mac.Display.Frame.{Receiver}
use vw_firmware_mac.Display.Paint.{
  Plot, plot, loop, pixel_color, background, frame_plots, decoration, drawing, color_at,
}
use vw_firmware_mac.Display.Paint.Bounds.{
  Within, Within-imp, loop-Within, IsBeside, decoration-IsBeside,
}

-- Writes that do not touch a point.
abbrev Misses : ℕ → ℕ → List Plot → Type 0
Misses x y ps = Within (λ a b. ((a == x) && (b == y)) ≡ false) ps

color_at-Misses : (ps : List Plot) (x y : ℕ) → Misses x y ps → color_at ps x y ≡ none
unfolding color_at
color_at-Misses [] x y h = refl
color_at-Misses (p ∷ ps) x y h = rw (color_at-Misses ps x y h.1, h.0) refl

-- The later of two.
unfoldable later : Option ℕ → Option ℕ → Option ℕ
later a none = a
later a (some c) = some c

later-none : (b : Option ℕ) → later none b ≡ b
unfolding later
later-none none = refl
later-none (some c) = refl

later_assoc : (a b c : Option ℕ) → later a (later b c) ≡ later (later a b) c
unfolding later
later_assoc a b none = refl
later_assoc a b (some c) = refl

first_of : Plot → ℕ → ℕ → Option ℕ
first_of p x y = if (p.x == x) && (p.y == y) then some p.color else none

color_at-cons :
    (p : Plot) (ps : List Plot) (x y : ℕ)
    → color_at (p ∷ ps) x y ≡ later (first_of p x y) (color_at ps x y)
unfolding color_at later first_of
color_at-cons p ps x y = go (color_at ps x y)
  where
    go :
        (r : Option ℕ)
        → (elim r as (λ _. Option ℕ) [
          | none ↦ if (p.x == x) && (p.y == y) then some p.color else none
          | some c ↦ some c
        ])
          ≡ later (if (p.x == x) && (p.y == y) then some p.color else none) r
    go none = refl
    go (some c) = refl

color_at-append :
    (a b : List Plot) (x y : ℕ) → color_at (a ++ b) x y ≡ later (color_at a x y) (color_at b x y)
unfolding color_at
color_at-append [] b x y = sym (later-none (color_at b x y))
color_at-append (p ∷ a) b x y =
    color_at-cons p (a ++ b) x y
    ∙ ap (later (first_of p x y)) (color_at-append a b x y)
    ∙ later_assoc (first_of p x y) (color_at a x y) (color_at b x y)
    ∙ ap (λ c. later c (color_at b x y)) (sym (color_at-cons p a x y))

later-Misses : (a b : List Plot) (x y : ℕ) → Misses x y b → color_at (a ++ b) x y ≡ color_at a x y
unfolding later
later-Misses a b x y h =
    color_at-append a b x y ∙ ap (later (color_at a x y)) (color_at-Misses b x y h)

earlier-Misses : (a b : List Plot) (x y : ℕ) → Misses x y a → color_at (a ++ b) x y ≡ color_at b x y
earlier-Misses a b x y h =
    color_at-append a b x y
    ∙ ap (λ c. later c (color_at b x y)) (color_at-Misses a x y h)
    ∙ later-none (color_at b x y)

-- Of a loop only the round `k` touches the point.
color_at-loop :
    (body : ℕ → List Plot) (i n k x y : ℕ)
    → i ≤ k
    → k < i + n
    → ((j : ℕ) → j ≢ k → Misses x y (body j))
    → color_at (loop body i n) x y ≡ color_at (body k) x y
unfolding loop
color_at-loop body i zero k x y l u h = absurd (omega arith)
color_at-loop body i (suc n) k x y l u h = elim (Bool-cases (i == k)) [
  | inl same ↦
      let at_k : i ≡ k = ground arith in
      later-Misses (body i) (loop body (i + 1) n) x y
        (loop-Within _ body (i + 1) n (λ j a b. h j (omega arith)))
      ∙ ap (λ m. color_at (body m) x y) at_k
  | inr other ↦
      let not_k : i ≢ k = ground arith in
      earlier-Misses (body i) (loop body (i + 1) n) x y (h i not_k)
      ∙ color_at-loop body (i + 1) n k x y (omega arith) (omega arith) h
]

other_row : (a x b y : ℕ) → b ≢ y → ((a == x) && (b == y)) ≡ false
other_row a x b y h = ground arith

other_column : (a x b y : ℕ) → a ≢ x → ((a == x) && (b == y)) ≡ false
other_column a x b y h = ground arith

color_at-plot : (x y color : ℕ) → color_at (plot x y color ∷ []) x y ≡ some color
unfolding color_at plot
color_at-plot x y color = ground arith

frame_plots-shown :
    (pixels : List ℕ) (x y : ℕ)
    → x < 800
    → y < 480
    → color_at (frame_plots pixels) (x + 100) (y + 60) ≡ some (pixel_color pixels x y)
unfolding frame_plots plot
frame_plots-shown pixels x y hx hy =
    color_at-loop _ 0 480 y (x + 100) (y + 60) (omega arith) (omega arith) (λ j other.
      loop-Within _ _ 0 800
        (λ i a b. (other_row (i + 100) (x + 100) (j + 60) (y + 60) (omega arith), tt)))
    ∙ color_at-loop _ 0 800 x (x + 100) (y + 60) (omega arith) (omega arith)
        (λ j other. (other_column (j + 100) (x + 100) (y + 60) (y + 60) (omega arith), tt))
    ∙ color_at-plot (x + 100) (y + 60) (pixel_color pixels x y)

beside-Misses :
    (x y a b : ℕ) → x < 800 → y < 480 → IsBeside a b → ((a == x + 100) && (b == y + 60)) ≡ false
beside-Misses x y a b hx hy h = ground arith

later-some : (a b : Option ℕ) (c : ℕ) → b ≡ some c → later a b ≡ some c
unfolding later
later-some a b c e = rw e refl

-- After a `paint` of a device that has a frame, the point of the surface at column x + 100 and row
-- y + 60, for x below 800 and y below 480, has the colour of the pixel x, y of the frame.
pub drawing-shown :
    (font : ℕ → ℕ) (s : Receiver) (x y : ℕ)
    → s.has_frame ≡ true
    → x < 800
    → y < 480
    → color_at (drawing font s) (x + 100) (y + 60) ≡ some (pixel_color s.pixels x y)
unfolding drawing
drawing-shown font s x y framed hx hy =
    let over : Misses (x + 100) (y + 60) (decoration font) =
      Within-imp IsBeside _ (decoration font) (λ a b. beside-Misses x y a b hx hy)
        (decoration-IsBeside font) in
    let shown : color_at (frame_plots s.pixels ++ decoration font) (x + 100) (y + 60)
        ≡ some (pixel_color s.pixels x y) =
      later-Misses (frame_plots s.pixels) (decoration font) (x + 100) (y + 60) over
      ∙ frame_plots-shown s.pixels x y hx hy in
    rw framed (
      color_at-append background (frame_plots s.pixels ++ decoration font) (x + 100) (y + 60)
      ∙ later-some (color_at background (x + 100) (y + 60)) _ (pixel_color s.pixels x y) shown)
