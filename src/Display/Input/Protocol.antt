-- ===== src/Display/Input/Protocol.antt =====
-- What runtime/qemu-display/mib-display.c writes to its character device, for a sequence of input
-- events.
use vw_firmware_mac.Base.{
  ℕ, ap₂, sym, ◌∙◌, ◌-◌, ◌<◌, ◌≡◌, refl, List, [], ◌∷◌, ◌++◌, Bool, true, false, Option, none, some,
  arith,
}
use vw_firmware_mac.Base.{◌==◌, ◌&&◌, if◌then◌else◌, All, All-append}
use vw_firmware_mac.Display.Input.{
  Axis, x_axis, y_axis, Phase, down, move, up, release, Message, touch, encoder, button, Panel,
  clamp_from, send_touch,
}
use vw_firmware_mac.Display.Input.{
  knob_message, send_button, hit, note_move, press, clicked, lift, turn, Event, absolute,
}
use vw_firmware_mac.Display.Input.{
  left_button, wheel_up, wheel_down, key, ignored, input_event, input_sync, place, touches,
}

-- The finger is down after `down`, moves only while it is down, and is lifted by `up` or `release`.
unfoldable pub follows : Bool → List Message → Bool
follows held [] = true
follows held (touch down x y ∷ ms) = follows true ms
follows held (touch move x y ∷ ms) = held && follows held ms
follows held (touch up x y ∷ ms) = held && follows false ms
follows held (touch release x y ∷ ms) = held && follows false ms
follows held (encoder k right ∷ ms) = follows held ms
follows held (button i ∷ ms) = follows held ms

-- A touch lies on the screen of 800 by 480, and a button is one of the ten in `buttons`.
abbrev pub IsOnPanel : Message → Type 0
IsOnPanel (touch p x y) = (x < 800) × (y < 480)
IsOnPanel (encoder k right) = Unit
IsOnPanel (button i) = i < 10

-- `next` is a state of the finger that the panel's `touching` allows.
abbrev pub Allows : Bool → Bool → Type 0
Allows touching held = touching ≡ true → held ≡ true

absurd-Allows : (held : Bool) → Allows false held
absurd-Allows held e = cc

-- A button or a knob leaves the finger where it is.
follows-send_button :
    (i : ℕ) (held : Bool) (later : List Message)
    → follows held (send_button i ∷ later) ≡ follows held later
unfolding send_button knob_message follows
follows-send_button i held later = ground arith

follows-clicked :
    (a b : Option ℕ) (held : Bool) (later : List Message)
    → follows held later ≡ true
    → follows held (clicked a b ++ later) ≡ true
unfolding clicked
follows-clicked none b held later h = h
follows-clicked (some a) none held later h = h
follows-clicked (some a) (some b) held later h = ground (arith, follows-send_button a held later)

follows-press :
    (b : Bool) (s : Panel) (held : Bool) (later : List Message)
    → ((next : Bool) → Allows b next → follows next later ≡ true)
    → follows held ((if b then send_touch s down ∷ [] else []) ++ later) ≡ true
unfolding follows send_touch
follows-press true s held later k = k true (λ e. refl)
follows-press false s held later k = k held (absurd-Allows held)

follows-lift :
    (b m : Bool) (s : Panel) (clicks : List Message) (held : Bool) (later : List Message)
    → Allows b held
    → ((next : Bool) → follows next later ≡ true)
    → ((next : Bool) → follows next (clicks ++ later) ≡ true)
    → follows held ((if b then send_touch s (if m then release else up) ∷ [] else clicks) ++ later)
      ≡ true
unfolding follows send_touch
follows-lift true true s clicks held later h k c = ap₂ (λ a b. a && b) (h refl) (k false)
follows-lift true false s clicks held later h k c = ap₂ (λ a b. a && b) (h refl) (k false)
follows-lift false m s clicks held later h k c = c held

follows-sync :
    (b m : Bool) (s : Panel) (held : Bool) (later : List Message)
    → Allows b held
    → follows held later ≡ true
    → follows held ((if b && m then send_touch s move ∷ [] else []) ++ later) ≡ true
unfolding follows send_touch
follows-sync true true s held later h k = ap₂ (λ a b. a && b) (h refl) k
follows-sync true false s held later h k = k
follows-sync false m s held later h k = k

when-All : (b : Bool) (m : Message) → IsOnPanel m → All IsOnPanel (if b then m ∷ [] else [])
when-All true m h = (h, tt)
when-All false m h = tt

All-if :
    (b : Bool) (xs ys : List Message)
    → All IsOnPanel xs
    → All IsOnPanel ys
    → All IsOnPanel (if b then xs else ys)
All-if true xs ys h k = h
All-if false xs ys h k = k

-- QEMU calls `input_event` for each event and `input_sync` at the end of a batch.
pub data Call (V : Type 0) : Type 0 where
  event : Event V → Call V
  sync : Call V

module _ {V : Type 0} (scale : V → ℕ → ℕ → ℕ → ℕ → ℕ) where
  unfoldable pub called : Panel → Call V → Panel × List Message
  unfolding input_event
  called s (event e) = input_event scale s e
  called s sync = (s, input_sync s)

  unfoldable pub session : Panel → List (Call V) → List Message
  session s [] = []
  session s (c ∷ cs) = (called s c).1 ++ session (called s c).0 cs

  touching-note_move :
      (s : Panel) (a : Axis) (v : V) → (note_move (place scale s a v)).touching ≡ s.touching
  unfolding note_move place
  touching-note_move s x_axis v = ground arith
  touching-note_move s y_axis v = ground arith

  -- One call's messages, and those after it.
  follows-called :
      (s : Panel) (c : Call V) (held : Bool) (later : List Message)
      → Allows s.touching held
      → ((next : Bool) → Allows (called s c).0.touching next → follows next later ≡ true)
      → follows held ((called s c).1 ++ later) ≡ true
  unfolding called press lift input_sync note_move turn follows
  follows-called s (event (left_button true)) held later h k =
      follows-press (touches s.x s.y) _ held later k
  follows-called s (event (left_button false)) held later h k =
      let any : (next : Bool) → follows next later ≡ true = λ next. k next (absurd-Allows next) in
      follows-lift s.touching s.moved s (clicked s.pressed (hit s.x s.y)) held later h any
        (λ next. follows-clicked s.pressed (hit s.x s.y) next later (any next))
  follows-called s (event (wheel_up on)) held later h k = ground (arith, k held h)
  follows-called s (event (wheel_down on)) held later h k = ground (arith, k held h)
  follows-called s (event (key c on)) held later h k =
      ground (arith, k held h, follows-send_button (c - 59) held later)
  follows-called s (event ignored) held later h k = k held h
  follows-called s (event (absolute a v)) held later h k =
      k held (λ e. h (sym (touching-note_move s a v) ∙ e))
  follows-called s sync held later h k = follows-sync s.touching s.moved s held later h (k held h)

  follows-session_from :
      (s : Panel) (cs : List (Call V)) (held : Bool)
      → Allows s.touching held
      → follows held (session s cs) ≡ true
  unfolding session follows
  follows-session_from s [] held h = refl
  follows-session_from s (c ∷ cs) held h =
      follows-called s c held (session (called s c).0 cs) h (follows-session_from (called s c).0 cs)

  IsOnPanel-send_touch : (s : Panel) (p : Phase) → IsOnPanel (send_touch s p)
  unfolding send_touch clamp_from
  IsOnPanel-send_touch s p = (ground arith, ground arith)

  IsOnPanel-send_button : (i : ℕ) → IsOnPanel (send_button i)
  unfolding send_button knob_message
  IsOnPanel-send_button i = ground arith

  clicked-All : (a b : Option ℕ) → All IsOnPanel (clicked a b)
  unfolding clicked
  clicked-All none b = tt
  clicked-All (some a) none = tt
  clicked-All (some a) (some b) = when-All (a == b) _ (IsOnPanel-send_button a)

  IsOnPanel-called : (s : Panel) (c : Call V) → All IsOnPanel (called s c).1
  unfolding called press lift input_sync note_move turn
  IsOnPanel-called s (event (left_button true)) =
      when-All (touches s.x s.y) _ (IsOnPanel-send_touch _ down)
  IsOnPanel-called s (event (left_button false)) =
      All-if s.touching _ _ (IsOnPanel-send_touch s (if s.moved then release else up), tt)
        (clicked-All s.pressed _)
  IsOnPanel-called s (event (wheel_up on)) = when-All on _ tt
  IsOnPanel-called s (event (wheel_down on)) = when-All on _ tt
  IsOnPanel-called s (event (key c on)) = when-All _ _ (IsOnPanel-send_button (c - 59))
  IsOnPanel-called s (event ignored) = tt
  IsOnPanel-called s (event (absolute a v)) = tt
  IsOnPanel-called s sync = when-All _ _ (IsOnPanel-send_touch s move)

  session-All : (s : Panel) (cs : List (Call V)) → All IsOnPanel (session s cs)
  unfolding session
  session-All s [] = tt
  session-All s (c ∷ cs) =
      All-append IsOnPanel (called s c).1 (session (called s c).0 cs) (IsOnPanel-called s c)
        (session-All (called s c).0 cs)

  -- From a panel that is not touched, and whatever the scaling of an axis, the messages of any
  -- sequence of events follow the touch protocol, every touch lies on the screen, and every button
  -- named is one of the ten.
  pub session-IsOnPanel :
      (s : Panel) (cs : List (Call V))
      → s.touching ≡ false
      → (follows false (session s cs) ≡ true) × All IsOnPanel (session s cs)
  session-IsOnPanel s cs h = (follows-session_from s cs false (λ e. sym h ∙ e), session-All s cs)
