-- ===== src/Display/Tests.antt =====
-- The device of runtime/qemu-display/mib-display.c at concrete inputs.
use vw_firmware_mac.Base.{
  ℕ, ◌≡◌, refl, ap, append-nil, arith, List, [], ◌∷◌, ◌++◌, some, true, false, none, length,
  length-replicate, replicate, le32,
}
use vw_firmware_mac.Base.{All, u32_at, word}
use vw_firmware_mac.Display.Frame.{
  Receiver, read_frame, can_read, frame_bytes, read_header, overlay_at, is_frame_header,
}
use vw_firmware_mac.Display.Frame.Assembly.{IsValid, read_frame-IsValid, joined, feed, Paced, Shows}
use vw_firmware_mac.Display.Frame.Header.{frame_message, feed-frame_message}
use vw_firmware_mac.Display.Input.{Panel, absolute, left_button, x_axis, hit}
use vw_firmware_mac.Display.Input.{lift, press, touch, release, touches, strays, clamp_from}
use vw_firmware_mac.Display.Input.Drag.{drag, strayed, end_of, lift-drag}
use vw_firmware_mac.Display.Input.Protocol.{
  Call, event, sync, session, follows, IsOnPanel, session-IsOnPanel,
}
use vw_firmware_mac.Display.Input.Layout.{left, outline, Inside, number, hit-outline}

-- Black pixels. The bytes of a whole frame are never computed.
unfoldable dark : ℕ → List ℕ
dark n = replicate n 0

length-dark : (n : ℕ) → length (dark n) ≡ n
unfolding dark
length-dark n = length-replicate n 0

abbrev black : List ℕ
black = dark frame_bytes

length-black : length black ≡ frame_bytes
length-black = length-dark frame_bytes

abbrev fresh : Receiver
fresh = record {
  header = replicate 8 0;
  pixels = black;
  received = 0;
  has_frame = false;
  loading = true;
  spinner_phase = 0;
  painted = [];
}

fresh-IsValid : IsValid fresh
fresh-IsValid = record {
  header_size = refl;
  pixels_size = length-black;
  bound = omega arith;
  good_header = λ h. absurd (omega arith);
  phase = omega arith;
}

-- The first two bytes of a header.
read_frame_example : IsValid (read_frame fresh (77 ∷ 73 ∷ []))
unfolding can_read
read_frame_example = read_frame-IsValid fresh (77 ∷ 73 ∷ []) fresh-IsValid (omega arith)

-- The header in one piece, and the pixels in another.
abbrev header : List ℕ
header = 77 ∷ 73 ∷ 66 ∷ 70 ∷ 0 ∷ 112 ∷ 23 ∷ 0 ∷ []

abbrev pieces : List (List ℕ)
pieces = header ∷ black ∷ []

header-can_read : can_read (read_frame fresh header) ≡ frame_bytes
unfolding can_read read_frame read_header overlay_at is_frame_header u32_at word
header-can_read = refl

pieces-Paced : Paced fresh pieces
unfolding can_read
pieces-Paced = (
  omega arith,
  omega arith,
  (omega (arith, length-black), omega (arith, length-black, header-can_read), tt),
)

pieces-joined : joined pieces ≡ frame_message black
unfolding frame_message le32
pieces-joined = rw length-black (ap (λ r. header ++ r) (append-nil black))

feed_example : Shows black (feed fresh pieces)
feed_example =
    feed-frame_message pieces fresh black fresh-IsValid refl pieces-Paced pieces-joined length-black

abbrev panel : Panel
panel = record {
  x = 500;
  y = 300;
  pressed = none;
  press_x = 0;
  press_y = 0;
  touching = false;
  moved = false;
}

-- A press, a move to 600 and a release; the scale is the identity.
abbrev calls : List (Call ℕ)
calls =
    event (left_button true) ∷ event (absolute x_axis 600) ∷ sync ∷ event (left_button false) ∷ []

session_example :
    (follows false (session (λ v low high size last. v) panel calls) ≡ true)
    × All IsOnPanel (session (λ v low high size last. v) panel calls)
session_example = session-IsOnPanel (λ v low high size last. v) panel calls refl

-- The middle of the second button on the left.
middle-Inside : Inside (outline (left 1)) 50 200
unfolding outline
middle-Inside = record {
  left_edge = omega arith;
  right_edge = omega arith;
  top_edge = omega arith;
  bottom_edge = omega arith;
}

hit_example : hit 50 200 ≡ some 1
unfolding number
hit_example = hit-outline (left 1) 50 200 (omega arith) middle-Inside

-- A press at (500, 300), and a move to the column 600.
lift-drag_example :
    (lift (drag (λ (v low high size last : ℕ). v) (press panel).0 ((x_axis, 600) ∷ []))).1
    ≡ touch release 500 240 ∷ []
unfolding touches strayed end_of strays clamp_from
lift-drag_example = lift-drag (λ (v low high size last : ℕ). v) panel ((x_axis, 600) ∷ []) refl
