-- ===== src/Screen/Tests.antt =====
-- The Screen library (guest/shim/src/libscreen_stub.c, frame_transport.h) at concrete inputs.
use vw_firmware_mac.Base.{
  List, true, false, replicate, ℕ, ◌≡◌, refl, arith, ℤ, pos, [], ◌∷◌, some, ◌==◌, ◌*◌,
  if◌then◌else◌, length,
}
use vw_firmware_mac.Rpc.Link.{moves}
use vw_firmware_mac.Screen.Transport.{Network, Publication, frame_publish, publish_on, is_frame}
use vw_firmware_mac.Screen.Transport.Publish.{
  IsPublication, published_bytes, frame_publish-IsPublication,
}
use vw_firmware_mac.Rpc.Link.Moving.{Moving-replicate}
use vw_firmware_mac.Screen.Transport.Progress.{frame_publish-Moving}
use vw_firmware_mac.Screen.Property.{
  Kind, Obj, Size, get_iv, set_iv, values, vec_len, unset_iv, one_of,
}
use vw_firmware_mac.Screen.Property.Storage.{
  listed, length-get_iv, get_iv-set_iv, get_iv-set_iv_other, get_iv-set_iv_127,
}

abbrev screen : Size
screen = record { screen_w = pos 800; screen_h = pos 480 }

-- A window whose property 128 is set to 90.
abbrev window : Obj
window = record {
  kind = Kind.window;
  id = 2;
  iv = λ i. if i == 512 then pos 90 else pos 0;
  iv_set = λ p. p == 128;
  nbuffers = pos 0;
  pv = λ i. 0;
  cv = λ p. [];
  buffers = λ i. 0;
  pixels = 0;
}

abbrev param : ℕ → ℤ
param i = pos (i * 10)

length-get_iv_example : length (pos 800 ∷ pos 480 ∷ []) ≡ vec_len 40
unfolding get_iv unset_iv one_of
length-get_iv_example = length-get_iv screen (some window) 40 (pos 800 ∷ pos 480 ∷ []) refl

get_iv-set_iv_example :
    get_iv screen (set_iv (some window) (pos 40) param) (pos 40) ≡ values (pos 0 ∷ pos 10 ∷ [])
unfolding vec_len one_of listed
get_iv-set_iv_example = get_iv-set_iv screen window 40 param (omega arith)

get_iv-set_iv_other_example :
    get_iv screen (set_iv (some window) (pos 40) param) (pos 42)
    ≡ get_iv screen (some window) (pos 42)
get_iv-set_iv_other_example =
    get_iv-set_iv_other screen window 40 42 param (omega arith) (omega arith) (omega arith)
      (omega arith)

get_iv-set_iv_127_example :
    get_iv screen (set_iv (some window) (pos 127) param) (pos 128) ≡ values (pos 40 ∷ [])
get_iv-set_iv_127_example = get_iv-set_iv_127 screen window param refl

-- A network whose host does not answer.
abbrev deaf : Network
deaf = record { host = true; socket = true; connects = false; answers = [] }

abbrev deaf_publication : Publication
deaf_publication = record { ok = false; opened = true; closed = true; sent = [] }

abbrev one_pixel : List ℕ
one_pixel = 1 ∷ 2 ∷ 3 ∷ 4 ∷ []

frame_publish-IsPublication_example : IsPublication (some one_pixel) 1 1 4 8 deaf_publication
unfolding frame_publish publish_on is_frame
frame_publish-IsPublication_example =
    frame_publish-IsPublication deaf (some one_pixel) 1 1 4 8 deaf_publication refl

-- A network that moves at most five bytes at a time.
abbrev slow : ℕ → Network
slow k = record { host = true; socket = true; connects = true; answers = replicate k (moves 5) }

abbrev one_pixel_bytes : List ℕ
one_pixel_bytes = published_bytes (some one_pixel) 1 1 4 8

one_pixel-is_frame : is_frame 1 1 4 8 ≡ true
unfolding is_frame
one_pixel-is_frame = refl

frame_publish-Moving_example :
    frame_publish (slow (length one_pixel_bytes)) (some one_pixel) 1 1 4 8
    ≡ some (record { ok = true; opened = true; closed = true; sent = one_pixel_bytes })
frame_publish-Moving_example =
    frame_publish-Moving (slow (length one_pixel_bytes)) one_pixel 1 1 4 8 refl refl refl
      one_pixel-is_frame (Moving-replicate (length one_pixel_bytes) 5 (omega arith))
