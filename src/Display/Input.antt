-- ===== src/Display/Input.antt =====
-- The input half of runtime/qemu-display/mib-display.c: `send_touch`, `send_button`, `hit`, `input_event`
-- and `input_sync`. A message stands for the JSON line that `snprintf` makes of it, and the index of a
-- button for its entry in `buttons`.
pub mod Protocol
pub mod Layout
pub mod Drag
use vw_firmware_mac.Base.{
  ℕ, ◌+◌, ◌-◌, ◌/◌, List, [], ◌∷◌, ◌++◌, Bool, true, false, Option, none, some,
}
use vw_firmware_mac.Base.{ltb, leb, ◌==◌, ◌&&◌, ◌||◌, not, if◌then◌else◌}

pub data Phase : Type 0 where
  down : Phase
  move : Phase
  up : Phase
  release : Phase

pub data Knob : Type 0 where
  volume : Knob
  tune : Knob

pub data Message : Type 0 where
  touch : Phase → ℕ → ℕ → Message
  -- One step of a knob, to the right when the flag is `true` (a delta of 1, else of -1).
  encoder : Knob → Bool → Message
  button : ℕ → Message

-- The fields of `MIBDisplay` that the handlers use; `none` for a `pressed` of -1.
pub record Panel : Type 0 where
  pub x : ℕ
  pub y : ℕ
  pub pressed : Option ℕ
  pub press_x : ℕ
  pub press_y : ℕ
  pub touching : Bool
  pub moved : Bool

-- `CLAMP(v-low,0,high)`
unfoldable pub clamp_from : ℕ → ℕ → ℕ → ℕ
clamp_from v low high = if ltb v low then 0 else (if ltb high (v - low) then high else v - low)

unfoldable pub send_touch : Panel → Phase → Message
send_touch s phase = touch phase (clamp_from s.x 100 799) (clamp_from s.y 60 479)

-- An odd number turns the knob to the right.
unfoldable pub knob_message : ℕ → Message
knob_message i = encoder (if ltb i 12 then volume else tune) (i == 11 || i == 13)

unfoldable pub send_button : ℕ → Message
send_button i = if leb 10 i then knob_message i else button i

-- `row+(s->x<100?0:4)` while there is such a row.
unfoldable pub hit_row : ℕ → ℕ → Option ℕ
hit_row x y =
    let row = (y - 80) / 85 in
    if leb 80 y && ltb row 4 then some (row + (if ltb x 100 then 0 else 4)) else none

unfoldable pub hit_knob : ℕ → ℕ
hit_knob x = if ltb x 100 then (if ltb x 50 then 10 else 11) else (if ltb x 950 then 12 else 13)

unfoldable pub hit : ℕ → ℕ → Option ℕ
hit x y =
    if leb 100 x && ltb x 900
    then none
    else if leb 536 y && ltb y 568
    then some (hit_knob x)
    else (if leb 480 y then some (if ltb x 100 then 8 else 9) else hit_row x y)

pub data Axis : Type 0 where
  x_axis : Axis
  y_axis : Axis

-- `QemuInputEvent`, as far as the handler looks at it. `V` is the type of a raw axis value.
pub data Event (V : Type 0) : Type 0 where
  absolute : Axis → V → Event V
  left_button : Bool → Event V
  wheel_up : Bool → Event V
  wheel_down : Bool → Event V
  key : ℕ → Bool → Event V
  ignored : Event V

-- `abs(a-b)>3`
unfoldable pub strays : ℕ → ℕ → Bool
strays a b = ltb 3 ((a - b) + (b - a))

unfoldable pub note_move : Panel → Panel
unfolding strays
note_move s =
    if s.touching && (strays s.x s.press_x || strays s.y s.press_y)
    then record s { moved = true }
    else s

unfoldable pub touches : ℕ → ℕ → Bool
touches x y = leb 100 x && (ltb x 900 && (leb 60 y && ltb y 540))

unfoldable pub press : Panel → Panel × List Message
press s =
    let touching = touches s.x s.y in
    let t = record s {
      pressed = hit s.x s.y;
      touching = touching;
      press_x = s.x;
      press_y = s.y;
      moved = false;
    } in
    let sent = if touching then send_touch t down ∷ [] else [] in (t, sent)

-- `s->pressed>=0&&s->pressed==hit(s)`, and then `send_button`.
unfoldable pub clicked : Option ℕ → Option ℕ → List Message
clicked none now = []
clicked (some b) none = []
clicked (some b) (some c) = if b == c then send_button b ∷ [] else []

unfoldable pub lift : Panel → Panel × List Message
lift s =
    let sent =
      if s.touching
      then send_touch s (if s.moved then release else up) ∷ []
      else clicked s.pressed (hit s.x s.y) in
    (record s { touching = false; pressed = none }, sent)

unfoldable pub turn : Panel → Bool → Message
turn s right = encoder (if ltb s.x 500 then volume else tune) right

-- `scale v low high size last` is `qemu_input_scale_axis` of QEMU.
module _ {V : Type 0} (scale : V → ℕ → ℕ → ℕ → ℕ → ℕ) where
  unfoldable pub place : Panel → Axis → V → Panel
  place s x_axis v = record s { x = scale v 0 32767 0 999 }
  place s y_axis v = record s { y = scale v 0 32767 0 599 }

  unfoldable pub input_event : Panel → Event V → Panel × List Message
  input_event s (absolute axis v) = (note_move (place s axis v), [])
  input_event s (left_button true) = press s
  input_event s (left_button false) = lift s
  input_event s (wheel_up on) = (s, if on then turn s true ∷ [] else [])
  input_event s (wheel_down on) = (s, if on then turn s false ∷ [] else [])
  input_event s (key k on) =
      (s, (if not on && (leb 59 k && leb k 66) then send_button (k - 59) ∷ [] else []))
  input_event s ignored = (s, [])

unfoldable pub input_sync : Panel → List Message
input_sync s = if s.touching && s.moved then send_touch s move ∷ [] else []
