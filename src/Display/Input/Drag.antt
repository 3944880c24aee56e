-- ===== src/Display/Input/Drag.antt =====
-- A press on the screen, movements, and the release that follows
-- (runtime/qemu-display/mib-display.c).
use vw_firmware_mac.Base.{ℕ, ◌≡◌, refl, ap, ◌∙◌, List, [], ◌∷◌, Bool, true, false, arith}
use vw_firmware_mac.Base.{◌||◌, if◌then◌else◌, Bool-cases, inl, inr}
use vw_firmware_mac.Display.Input.{
  Axis, x_axis, y_axis, up, release, Message, touch, Panel, clamp_from, send_touch, strays,
  note_move, touches, press, lift, absolute, input_event, place,
}

or_true : (b : Bool) → (b || true) ≡ true
or_true true = refl
or_true false = refl

-- A movement of the pointer is along an axis.
module _ {V : Type 0} (scale : V → ℕ → ℕ → ℕ → ℕ → ℕ) where
  -- The panel after some movements.
  unfoldable pub drag : Panel → List (Axis × V) → Panel
  unfolding input_event
  drag s [] = s
  drag s ((a, v) ∷ ms) = drag (input_event scale s (absolute a v)).0 ms

  -- Where the pointer ends.
  unfoldable pub end_of : ℕ → ℕ → List (Axis × V) → ℕ × ℕ
  end_of x y [] = (x, y)
  end_of x y ((x_axis, v) ∷ ms) = end_of (scale v 0 32767 0 999) y ms
  end_of x y ((y_axis, v) ∷ ms) = end_of x (scale v 0 32767 0 599) ms

  -- Whether it was ever more than 3 pixels away from (x₀, y₀) in one direction.
  unfoldable pub strayed : ℕ → ℕ → ℕ → ℕ → List (Axis × V) → Bool
  unfolding strays
  strayed x₀ y₀ x y [] = false
  strayed x₀ y₀ x y ((x_axis, v) ∷ ms) =
      (strays (scale v 0 32767 0 999) x₀ || strays y y₀)
      || strayed x₀ y₀ (scale v 0 32767 0 999) y ms
  strayed x₀ y₀ x y ((y_axis, v) ∷ ms) =
      (strays x x₀ || strays (scale v 0 32767 0 599) y₀)
      || strayed x₀ y₀ x (scale v 0 32767 0 599) ms

  -- The message that lifts the finger.
  unfoldable lifted : Panel → List (Axis × V) → List Message
  lifted s ms =
      touch (if s.moved || strayed s.press_x s.press_y s.x s.y ms then release else up)
        (clamp_from (end_of s.x s.y ms).0 100 799) (clamp_from (end_of s.x s.y ms).1 60 479)
      ∷ []

  note_move-far :
      (t : Panel)
      → t.touching ≡ true
      → (strays t.x t.press_x || strays t.y t.press_y) ≡ true
      → note_move t ≡ record t { moved = true }
  unfolding note_move
  note_move-far t h e = rw (h, e) refl

  note_move-near :
      (t : Panel) → (strays t.x t.press_x || strays t.y t.press_y) ≡ false → note_move t ≡ t
  unfolding note_move
  note_move-near t e = elim (Bool-cases t.touching) [ inl h ↦ rw (h, e) refl | inr h ↦ rw h refl ]

  -- One movement to where `t` is, and those after it.
  lift-note_move :
      (t : Panel) (ms : List (Axis × V))
      → ((u : Panel) → u.touching ≡ true → (lift (drag u ms)).1 ≡ lifted u ms)
      → t.touching ≡ true
      → (lift (drag (note_move t) ms)).1
        ≡ touch
            (if t.moved
                || ((strays t.x t.press_x || strays t.y t.press_y)
                    || strayed t.press_x t.press_y t.x t.y ms)
              then release
              else up)
            (clamp_from (end_of t.x t.y ms).0 100 799)
            (clamp_from (end_of t.x t.y ms).1 60 479)
          ∷ []
  unfolding lifted
  lift-note_move t ms ih h = elim (Bool-cases (strays t.x t.press_x || strays t.y t.press_y)) [
    | inl e ↦
        rw (e, or_true t.moved)
          (ap (λ u. (lift (drag u ms)).1) (note_move-far t h e) ∙ ih (record t { moved = true }) h)
    | inr e ↦ rw e (ap (λ u. (lift (drag u ms)).1) (note_move-near t e) ∙ ih t h)
  ]

  lift-drag_touching :
      (s : Panel) (ms : List (Axis × V)) → s.touching ≡ true → (lift (drag s ms)).1 ≡ lifted s ms
  unfolding drag end_of strayed lifted place
  lift-drag_touching s [] h = unfold lift send_touch in ground (arith, h)
  lift-drag_touching s ((x_axis, v) ∷ ms) h =
      lift-note_move (record s { x = scale v 0 32767 0 999 }) ms (λ u k. lift-drag_touching u ms k)
        h
  lift-drag_touching s ((y_axis, v) ∷ ms) h =
      lift-note_move (record s { y = scale v 0 32767 0 599 }) ms (λ u k. lift-drag_touching u ms k)
        h

  -- A press on the screen, any movements and a release: the release sends one message, for the point
  -- where the pointer ends, and it is `release` if the pointer was ever more than 3 pixels from the press
  -- in one direction, else `up`.
  pub lift-drag :
      (s : Panel) (ms : List (Axis × V))
      → touches s.x s.y ≡ true
      → (lift (drag (press s).0 ms)).1
        ≡ touch
            (if strayed s.x s.y s.x s.y ms then release else up)
            (clamp_from (end_of s.x s.y ms).0 100 799)
            (clamp_from (end_of s.x s.y ms).1 60 479)
          ∷ []
  unfolding press lifted
  lift-drag s ms h = lift-drag_touching (press s).0 ms h
