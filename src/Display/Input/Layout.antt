-- ===== src/Display/Input/Layout.antt =====
-- The buttons that `paint` of runtime/qemu-display/mib-display.c draws, and those that `hit` finds.
use vw_firmware_mac.Base.{ℕ, ◌+◌, ◌*◌, ◌≤◌, ◌<◌, ◌≡◌, some, arith}
use vw_firmware_mac.Display.Input.{hit, hit_row, hit_knob}

-- The calls of `button_outline` in `paint`: the four of each column, the two below, and a half of a
-- knob for each side.
pub data Drawn : Type 0 where
  left : ℕ → Drawn
  right : ℕ → Drawn
  power : Drawn
  tune_button : Drawn
  knob : ℕ → ℕ → Drawn

-- The arguments of `button_outline`.
pub record Outline : Type 0 where
  pub x : ℕ
  pub y : ℕ
  pub w : ℕ
  pub h : ℕ

unfoldable pub outline : Drawn → Outline
outline (left i) = record { x = 6; y = 84 + i * 85; w = 88; h = 73 }
outline (right i) = record { x = 906; y = 84 + i * 85; w = 88; h = 73 }
outline power = record { x = 6; y = 486; w = 88; h = 46 }
outline tune_button = record { x = 906; y = 486; w = 88; h = 46 }
outline (knob side half) = record { x = 6 + side * 900 + half * 50; y = 538; w = 38; h = 28 }

-- The bounds of the loops in `paint`.
abbrev pub IsDrawn : Drawn → Type 0
IsDrawn (left i) = i < 4
IsDrawn (right i) = i < 4
IsDrawn power = Unit
IsDrawn tune_button = Unit
IsDrawn (knob side half) = (side < 2) × (half < 2)

-- Its place in `buttons`, and behind that array the halves of the volume and of the tuning knob.
unfoldable pub number : Drawn → ℕ
number (left i) = i
number (right i) = i + 4
number power = 8
number tune_button = 9
number (knob side half) = 10 + 2 * side + half

-- `button_outline` fills the rows from y and the columns from x.
pub record Inside (o : Outline) (x y : ℕ) : Type 0 where
  pub left_edge : o.x ≤ x
  pub right_edge : x < o.x + o.w
  pub top_edge : o.y ≤ y
  pub bottom_edge : y < o.y + o.h

-- A press on any point of a button that `paint` draws is a press of that button, and of no other.
pub hit-outline :
    (d : Drawn) (x y : ℕ) → IsDrawn d → Inside (outline d) x y → hit x y ≡ some (number d)
unfolding hit hit_row hit_knob outline number
hit-outline (left i) x y b s =
    ground (arith, b, s.left_edge, s.right_edge, s.top_edge, s.bottom_edge)
hit-outline (right i) x y b s =
    ground (arith, b, s.left_edge, s.right_edge, s.top_edge, s.bottom_edge)
hit-outline power x y b s = ground (arith, s.left_edge, s.right_edge, s.top_edge, s.bottom_edge)
hit-outline tune_button x y b s =
    ground (arith, s.left_edge, s.right_edge, s.top_edge, s.bottom_edge)
hit-outline (knob side half) x y b s =
    ground (arith, b.0, b.1, s.left_edge, s.right_edge, s.top_edge, s.bottom_edge)
