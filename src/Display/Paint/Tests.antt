-- ===== src/Display/Paint/Tests.antt =====
-- The drawing of runtime/qemu-display/mib-display.c at concrete inputs.
use vw_firmware_mac.Base.{ℕ, ◌+◌, ◌≡◌, refl, [], ◌∷◌, some, true, false, arith}
use vw_firmware_mac.Display.Frame.{Receiver}
use vw_firmware_mac.Display.Paint.{
  drawing, color_at, pixel_color, dot_color, has_bit, left_text, codes,
}
use vw_firmware_mac.Display.Paint.Bounds.{Within, IsOnSurface, drawing-IsOnSurface}
use vw_firmware_mac.Display.Paint.Shown.{drawing-shown}

-- A device with a frame that starts with the bytes 1, 2, 3.
abbrev device : Receiver
device = record {
  header = [];
  pixels = 1 ∷ 2 ∷ 3 ∷ 255 ∷ [];
  received = 0;
  has_frame = true;
  loading = false;
  spinner_phase = 0;
  painted = [];
}

abbrev font : ℕ → ℕ
font i = 0x81

drawing-shown_example :
    color_at (drawing font device) (0 + 100) (0 + 60) ≡ some (pixel_color device.pixels 0 0)
drawing-shown_example = drawing-shown font device 0 0 refl (omega arith) (omega arith)

first_pixel : pixel_color device.pixels 0 0 ≡ 0xff010203
unfolding pixel_color
first_pixel = refl

drawing-IsOnSurface_example : Within IsOnSurface (drawing font device)
drawing-IsOnSurface_example = drawing-IsOnSurface font device

-- The first dot in the first phase is the brightest.
dot_bright : dot_color 0 0 ≡ 0xfff62020
unfolding dot_color
dot_bright = refl

-- The two edges of a row of a letter.
edges : has_bit 0x81 0 ≡ true
unfolding has_bit
edges = refl

third_text : left_text 2 ≡ codes "PHONE"
unfolding left_text
third_text = refl
