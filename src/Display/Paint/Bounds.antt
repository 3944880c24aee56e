-- ===== src/Display/Paint/Bounds.antt =====
-- Where the writes of `paint` in runtime/qemu-display/mib-display.c go.
use vw_firmware_mac.Base.{
  ℕ, zero, suc, ◌+◌, ◌*◌, ◌≤◌, ◌<◌, subst, ◌⊎◌, List, [], ◌∷◌, Bool, true, false, arith,
}
use vw_firmware_mac.Base.{All, All-append, length, get_or, if◌then◌else◌, leb}
use vw_firmware_mac.Display.Frame.{Receiver}
use vw_firmware_mac.Display.Input.Layout.{Outline, outline, left, right, power, tune_button, knob}
use vw_firmware_mac.Display.Paint.{
  Plot, plot, loop, has_bit, letter, label, button_outline, background, frame_plots, dots_x, dots_y,
  dot_color, square, dot, codes, loading_plots, left_text, right_text, outline_plots, text_plots,
  decoration, drawing,
}

-- A property of the points of all writes.
module _ (P : ℕ → ℕ → Type 0) where
  abbrev pub Within : List Plot → Type 0
  Within ps = All (λ p. P p.x p.y) ps

  pub loop-Within :
      (body : ℕ → List Plot) (i n : ℕ)
      → ((j : ℕ) → i ≤ j → j < i + n → Within (body j))
      → Within (loop body i n)
  unfolding loop
  loop-Within body i zero h = tt
  loop-Within body i (suc n) h =
      All-append _ (body i) (loop body (i + 1) n) (h i (omega arith) (omega arith))
        (loop-Within body (i + 1) n (λ j a b. h j (omega arith) (omega arith)))

  if-Within :
      (test : Bool) (ps qs : List Plot) → Within ps → Within qs → Within (if test then ps else qs)
  if-Within true ps qs h k = h
  if-Within false ps qs h k = k

  -- A text takes eight columns for each character and sixteen rows.
  label-Within :
      (font : ℕ → ℕ) (x y : ℕ) (text : List ℕ)
      → ((c r : ℕ) → c < 8 * length text → r < 16 → P (x + c) (y + r))
      → Within (label font x y text)
  unfolding label letter plot
  label-Within font x y [] h = tt
  label-Within font x y (ch ∷ text) h =
      All-append _ (letter font x y ch) (label font (x + 8) y text)
        (loop-Within _ 0 16 (λ r a b. loop-Within _ 0 8 (λ c d e.
          if-Within (has_bit (font (ch * 16 + r)) c) (plot (x + c) (y + r) 0xffdddddd ∷ []) []
            (h c r (omega arith) (omega arith), tt) tt)))
        (label-Within font (x + 8) y text
          (λ c r lc lr. subst (λ k. P k (y + r)) (omega arith) (h (8 + c) r (omega arith) lr)))

  outline-Within :
      (o : Outline)
      → ((c r : ℕ) → c < o.w → r < o.h → P (o.x + c) (o.y + r))
      → Within (button_outline o)
  unfolding button_outline plot
  outline-Within o h =
      loop-Within _ 0 o.h
        (λ r a b. loop-Within _ 0 o.w (λ c d e. (h c r (omega arith) (omega arith), tt)))

abbrev pub IsOnSurface : ℕ → ℕ → Type 0
IsOnSurface x y = (x < 1000) × (y < 600)

-- A point of the surface that shows no pixel of the frame.
abbrev pub IsBeside : ℕ → ℕ → Type 0
IsBeside x y = (x < 1000) × ((y < 600) × ((x < 100) ⊎ ((900 ≤ x) ⊎ ((y < 60) ⊎ (540 ≤ y)))))

pub Within-imp :
    (P Q : ℕ → ℕ → Type 0) (ps : List Plot)
    → ((x y : ℕ) → P x y → Q x y)
    → Within P ps
    → Within Q ps
Within-imp P Q [] f h = tt
Within-imp P Q (p ∷ ps) f h = (f p.x p.y h.0, Within-imp P Q ps f h.1)

-- A text beside the frame, and an outline.
text-IsBeside :
    (font : ℕ → ℕ) (x y : ℕ) (text : List ℕ)
    → x + 8 * length text ≤ 1000
    → y + 16 ≤ 600
    → (x + 8 * length text ≤ 100) ⊎ ((900 ≤ x) ⊎ ((y + 16 ≤ 60) ⊎ (540 ≤ y)))
    → Within IsBeside (label font x y text)
text-IsBeside font x y text hx hy side =
    label-Within IsBeside font x y text (λ c r lc lr. (omega arith, (omega arith, omega arith)))

drawn-IsBeside :
    (o : Outline)
    → o.x + o.w ≤ 1000
    → o.y + o.h ≤ 600
    → (o.x + o.w ≤ 100) ⊎ (900 ≤ o.x)
    → Within IsBeside (button_outline o)
drawn-IsBeside o hx hy side =
    outline-Within IsBeside o (λ c r lc lr. (omega arith, (omega arith, omega arith)))

outlines-IsBeside : Within IsBeside outline_plots
unfolding outline_plots outline
outlines-IsBeside =
    All-append _ _ _
      (loop-Within IsBeside _ 0 4 (λ i a b.
        All-append _ (button_outline (outline (left i))) _
          (drawn-IsBeside (outline (left i)) (omega arith) (omega arith) (omega arith))
          (drawn-IsBeside (outline (right i)) (omega arith) (omega arith) (omega arith))))
      (All-append _ (button_outline (outline power)) _
        (drawn-IsBeside (outline power) (omega arith) (omega arith) (omega arith))
        (All-append _ (button_outline (outline tune_button)) _
          (drawn-IsBeside (outline tune_button) (omega arith) (omega arith) (omega arith))
          (loop-Within IsBeside _ 0 2 (λ side a b. loop-Within IsBeside _ 0 2 (λ half c d.
            drawn-IsBeside (outline (knob side half)) (omega arith) (omega arith)
              (ground arith))))))

length-left_text : (i : ℕ) → length (left_text i) ≤ 7
unfolding left_text
length-left_text i = ground arith

length-right_text : (i : ℕ) → length (right_text i) ≤ 7
unfolding right_text
length-right_text i = ground arith

texts-IsBeside : (font : ℕ → ℕ) → Within IsBeside (text_plots font)
unfolding text_plots
texts-IsBeside font =
    All-append _ _ _
      (loop-Within IsBeside _ 0 4 (λ i a b.
        All-append _ (label font 18 (112 + i * 85) (left_text i)) _
          (text-IsBeside font 18 (112 + i * 85) (left_text i) (omega (arith, length-left_text i))
            (omega arith) (omega (arith, length-left_text i)))
          (text-IsBeside font 910 (112 + i * 85) (right_text i) (omega (arith, length-right_text i))
            (omega arith) (omega arith))))
      (All-append _ (label font 10 514 (codes "POWER/VOL")) _
        (text-IsBeside font 10 514 (codes "POWER/VOL") (omega arith) (omega arith) (omega arith))
        (All-append _ (label font 918 514 (codes "TUNE")) _
          (text-IsBeside font 918 514 (codes "TUNE") (omega arith) (omega arith) (omega arith))
          (All-append _ (label font 18 546 (codes "[-]  [+]")) _
            (text-IsBeside font 18 546 (codes "[-]  [+]") (omega arith) (omega arith) (omega arith))
            (All-append _ (label font 918 546 (codes "[-]  [+]")) _
              (text-IsBeside font 918 546 (codes "[-]  [+]") (omega arith) (omega arith)
                (omega arith))
              (text-IsBeside font 260 570 (codes "Touch: mouse | Knobs: wheel | F1-F8: buttons")
                (omega arith) (omega arith) (omega arith))))))

pub decoration-IsBeside : (font : ℕ → ℕ) → Within IsBeside (decoration font)
unfolding decoration
decoration-IsBeside font =
    All-append _ (label font 324 20 (codes "SEAT MIB2 - ORIGINAL QNX HMI")) _
      (text-IsBeside font 324 20 (codes "SEAT MIB2 - ORIGINAL QNX HMI") (omega arith) (omega arith)
        (omega arith))
      (All-append _ outline_plots _ outlines-IsBeside (texts-IsBeside font))

get_or-All : (P : ℕ → Type 0) (l : List ℕ) (i : ℕ) → P 0 → All P l → P (get_or l i 0)
get_or-All P [] i z h = z
get_or-All P (v ∷ l) zero z h = h.0
get_or-All P (v ∷ l) (suc i) z h = get_or-All P l i z h.1

dots-small : (i : ℕ) → (get_or dots_x i 0 ≤ 72) × (get_or dots_y i 0 ≤ 72)
dots-small i = (
  get_or-All (λ v. v ≤ 72) dots_x i (omega arith) (omega arith),
  get_or-All (λ v. v ≤ 72) dots_y i (omega arith) (omega arith),
)

loading-IsOnSurface : (font : ℕ → ℕ) (phase : ℕ) → Within IsOnSurface (loading_plots font phase)
unfolding loading_plots dot plot
loading-IsOnSurface font phase =
    All-append _ (loop (dot phase) 0 12) _
      (loop-Within IsOnSurface (dot phase) 0 12 (λ i a b. loop-Within IsOnSurface _ 0 9 (λ y c d.
        loop-Within IsOnSurface _ 0 9 (λ x e f.
          if-Within IsOnSurface (leb (square x + square y) 16)
            (plot (460 + get_or dots_x i 0 + x) (200 + get_or dots_y i 0 + y) (dot_color phase i)
              ∷ [])
            [] ((omega (arith, (dots-small i).0), omega (arith, (dots-small i).1)), tt) tt))))
      (All-append _ (label font 396 315 (codes "Starting the SEAT system...")) _
        (label-Within IsOnSurface font 396 315 (codes "Starting the SEAT system...")
          (λ c r a b. (omega arith, omega arith)))
        (label-Within IsOnSurface font 384 345 (codes "This may take 2-3 minutes.")
          (λ c r a b. (omega arith, omega arith))))

-- Every write of `paint` goes to a column below 1000 and a row below 600 of the surface, whatever the
-- font, the frame and the phase of the dots are.
pub drawing-IsOnSurface : (font : ℕ → ℕ) (s : Receiver) → Within IsOnSurface (drawing font s)
unfolding drawing background frame_plots plot
drawing-IsOnSurface font s =
    All-append _ background _
      (loop-Within IsOnSurface _ 0 600
        (λ y a b. loop-Within IsOnSurface _ 0 1000 (λ x c d. ((omega arith, omega arith), tt))))
      (All-append _ (frame_plots s.pixels) _
        (loop-Within IsOnSurface _ 0 480
          (λ y a b. loop-Within IsOnSurface _ 0 800 (λ x c d. ((omega arith, omega arith), tt))))
        (All-append _ (if s.has_frame then [] else loading_plots font s.spinner_phase) _
          (if-Within IsOnSurface s.has_frame [] (loading_plots font s.spinner_phase) tt
            (loading-IsOnSurface font s.spinner_phase))
          (Within-imp IsBeside IsOnSurface (decoration font) (λ x y h. (h.0, h.1.0))
            (decoration-IsBeside font))))
