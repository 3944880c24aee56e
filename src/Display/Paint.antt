-- ===== src/Display/Paint.antt =====
-- What `paint` of runtime/qemu-display/mib-display.c draws: `label`, `button_outline` and `paint` as the
-- list of their writes. A write is given by its column and its row on the surface; it goes to
-- `p[row*stride+column]`. QEMU's font `vgafont16` is an argument.
pub mod Bounds
pub mod Shown
mod Tests
use vw_firmware_mac.Base.{
  ℕ, zero, suc, ◌+◌, ◌-◌, ◌*◌, ◌/◌, ◌%◌, ◌^◌, List, [], ◌∷◌, ◌++◌, Bool, true, false,
}
use vw_firmware_mac.Base.{ltb, leb, ◌==◌, ◌||◌, ◌&&◌, Option, none, some, if◌then◌else◌, get_or}
use Prim.Native.String.{String}
use Prim.Native.Char.{code}
use vw_firmware_mac.Display.Frame.{Receiver}
use vw_firmware_mac.Display.Input.Layout.{
  Drawn, left, right, power, tune_button, knob, Outline, outline,
}

pub record Plot : Type 0 where
  pub x : ℕ
  pub y : ℕ
  pub color : ℕ

unfoldable pub plot : ℕ → ℕ → ℕ → Plot
plot x y color = record { x = x; y = y; color = color }

-- `for (i = …; …; i++)` for `n` rounds.
unfoldable pub loop : (ℕ → List Plot) → ℕ → ℕ → List Plot
loop body i zero = []
loop body i (suc n) = body i ++ loop body (i + 1) n

-- `byte & (0x80 >> c)`
unfoldable pub has_bit : ℕ → ℕ → Bool
has_bit byte c = byte / 2 ^ (7 - c) % 2 == 1

-- One character of a text.
unfoldable pub letter : (ℕ → ℕ) → ℕ → ℕ → ℕ → List Plot
letter font x y ch =
    loop
      (λ r.
        loop
          (λ c. if has_bit (font (ch * 16 + r)) c then plot (x + c) (y + r) 0xffdddddd ∷ [] else [])
          0 8)
      0 16

unfoldable pub label : (ℕ → ℕ) → ℕ → ℕ → List ℕ → List Plot
label font x y [] = []
label font x y (ch ∷ text) = letter font x y ch ++ label font (x + 8) y text

unfoldable pub button_outline : Outline → List Plot
button_outline o =
    loop
      (λ row.
        loop
          (λ col.
            let edge = row == 0 || (row == o.h - 1 || (col == 0 || col == o.w - 1)) in
            plot (o.x + col) (o.y + row) (if edge then 0xff65656d else 0xff29292f) ∷ [])
          0 o.w)
      0 o.h

-- The colour of a pixel of the frame: `0xff000000|(v[0]<<16)|(v[1]<<8)|v[2]`.
unfoldable pub pixel_color : List ℕ → ℕ → ℕ → ℕ
pixel_color pixels x y =
    let v = (y * 800 + x) * 4 in
    0xff000000 + get_or pixels v 0 * 65536 + get_or pixels (v + 1) 0 * 256 + get_or pixels (v + 2) 0

unfoldable pub background : List Plot
background = loop (λ y. loop (λ x. plot x y 0xff202024 ∷ []) 0 1000) 0 600

unfoldable pub frame_plots : List ℕ → List Plot
frame_plots pixels =
    loop (λ y. loop (λ x. plot (x + 100) (y + 60) (pixel_color pixels x y) ∷ []) 0 800) 0 480

-- `dx[i]+36` and `dy[i]+36`.
abbrev pub dots_x : List ℕ
dots_x = 36 ∷ 54 ∷ 67 ∷ 72 ∷ 67 ∷ 54 ∷ 36 ∷ 18 ∷ 5 ∷ 0 ∷ 5 ∷ 18 ∷ []

abbrev pub dots_y : List ℕ
dots_y = 0 ∷ 5 ∷ 18 ∷ 36 ∷ 54 ∷ 67 ∷ 72 ∷ 67 ∷ 54 ∷ 36 ∷ 18 ∷ 5 ∷ []

unfoldable pub dot_color : ℕ → ℕ → ℕ
dot_color phase i =
    let age = (phase + 12 - i) % 12 in 0xff000000 + (70 + (11 - age) * 16) * 65536 + 0x2020

-- `v*v` for `v` from -4, where `i` is `v+4`.
unfoldable pub square : ℕ → ℕ
square i = ((i - 4) + (4 - i)) * ((i - 4) + (4 - i))

unfoldable pub dot : ℕ → ℕ → List Plot
dot phase i =
    loop
      (λ y.
        loop
          (λ x.
            if leb (square x + square y) 16
            then plot (460 + get_or dots_x i 0 + x) (200 + get_or dots_y i 0 + y)
                (dot_color phase i)
              ∷ []
            else [])
          0 9)
      0 9

-- The bytes of a text.
abbrev pub codes : String → List ℕ
codes String.[] = []
codes (String.◌∷◌ c s) = code c ∷ codes s

unfoldable pub loading_plots : (ℕ → ℕ) → ℕ → List Plot
loading_plots font phase =
    loop (dot phase) 0 12
    ++ (label font 396 315 (codes "Starting the SEAT system...")
        ++ label font 384 345 (codes "This may take 2-3 minutes."))

unfoldable pub left_text : ℕ → List ℕ
left_text i =
    if i == 0
    then codes "RADIO"
    else (if i == 1 then codes "MEDIA" else (if i == 2 then codes "PHONE" else codes "VOICE"))

unfoldable pub right_text : ℕ → List ℕ
right_text i =
    if i == 0
    then codes "NAV"
    else (if i == 1 then codes "TRAFFIC" else (if i == 2 then codes "CAR" else codes "MENU"))

-- The outlines, in the order of the calls.
unfoldable pub outline_plots : List Plot
outline_plots =
    loop (λ i. button_outline (outline (left i)) ++ button_outline (outline (right i))) 0 4
    ++ (button_outline (outline power)
        ++ (button_outline (outline tune_button)
            ++ loop (λ side. loop (λ half. button_outline (outline (knob side half))) 0 2) 0 2))

unfoldable pub text_plots : (ℕ → ℕ) → List Plot
text_plots font =
    loop
      (λ i.
        label font 18 (112 + i * 85) (left_text i) ++ label font 910 (112 + i * 85) (right_text i))
      0 4
    ++ (label font 10 514 (codes "POWER/VOL")
        ++ (label font 918 514 (codes "TUNE")
            ++ (label font 18 546 (codes "[-]  [+]")
                ++ (label font 918 546 (codes "[-]  [+]")
                    ++ label font 260 570 (codes "Touch: mouse | Knobs: wheel | F1-F8: buttons")))))

-- What is drawn over the frame.
unfoldable pub decoration : (ℕ → ℕ) → List Plot
decoration font =
    label font 324 20 (codes "SEAT MIB2 - ORIGINAL QNX HMI") ++ (outline_plots ++ text_plots font)

unfoldable pub drawing : (ℕ → ℕ) → Receiver → List Plot
drawing font s =
    background
    ++ (frame_plots s.pixels
        ++ ((if s.has_frame then [] else loading_plots font s.spinner_phase) ++ decoration font))

-- The colour that writes leave at a point, from the last of them there.
unfoldable pub color_at : List Plot → ℕ → ℕ → Option ℕ
color_at [] x y = none
color_at (p ∷ ps) x y =
    let rest = color_at ps x y in
    elim rest [ none ↦ if p.x == x && p.y == y then some p.color else none | some c ↦ some c ]
