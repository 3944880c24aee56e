-- ===== src/Screen/Calls/Tests.antt =====
-- The entry points of guest/shim/src/libscreen_stub.c at concrete inputs.
use vw_firmware_mac.Base.{ℕ, ◌≡◌, refl, List, none, some, Bool, true, pos}
use vw_firmware_mac.Screen.Property.{Kind, Obj, one_of}
use vw_firmware_mac.Screen.Objects.{
  Screen, put, blank, new_obj, get_pv, pointers, is_drawable, ensure_buffers, ensure_from,
  fill_buffers, add_buffer, set_nbuffers, at_most_8, has_none,
}
use vw_firmware_mac.Screen.Objects.Reading.{Buffers, get_pv-Buffers}
use vw_firmware_mac.Screen.Calls.{
  start, serve, create_drawable, create_buffers, screen_create_drawable, with_pv,
  screen_share_window_buffers,
}
use vw_firmware_mac.Screen.Calls.Valid.{
  Reach, begin, then_call, Reach-IsValid, any_drawable, legal_buffers,
}
use vw_firmware_mac.Screen.Calls.Steps.{Names}
use vw_firmware_mac.Screen.Calls.Sharing.{share-same_buffers}

abbrev room : ℕ → Bool
room n = true

-- A process that has made a window, at 1.
abbrev with_window : Screen
with_window = screen_create_drawable Kind.window 0 start

abbrev window : Obj
window = with_pv 95 0 (blank Kind.window 1)

with_window-Reach : Reach room none with_window
unfolding serve
with_window-Reach =
    then_call start with_window (create_drawable Kind.window 0) begin (any_drawable Kind.window 0)
      refl

get_pv-Buffers_example : Buffers (get_pv room none 1 (pos 37) with_window)
unfolding with_pv blank one_of is_drawable screen_create_drawable put new_obj start
get_pv-Buffers_example =
    get_pv-Buffers room none with_window 0 37 window
      (Reach-IsValid room none with_window with_window-Reach) refl refl refl

-- A second window, at 2, and then two buffers for the first.
abbrev two_windows : Screen
two_windows = screen_create_drawable Kind.window 0 with_window

after_buffers : Screen
unfolding ensure_buffers ensure_from fill_buffers add_buffer set_nbuffers at_most_8 put new_obj
    screen_create_drawable with_pv blank start
after_buffers = elim (ensure_buffers room 1 (pos 2) two_windows) [ none ↦ start | some t ↦ t ]

two_windows-Reach : Reach room none two_windows
unfolding serve
two_windows-Reach =
    then_call with_window two_windows (create_drawable Kind.window 0) with_window-Reach
      (any_drawable Kind.window 0) refl

first_window-Names : Names two_windows 1
unfolding screen_create_drawable put new_obj start
first_window-Names = record { obj = window; cell = refl }

after_buffers-Reach : Reach room none after_buffers
unfolding after_buffers ensure_buffers ensure_from fill_buffers add_buffer set_nbuffers at_most_8
    put new_obj screen_create_drawable with_pv blank start serve
after_buffers-Reach =
    then_call two_windows after_buffers (create_buffers 1 (pos 2)) two_windows-Reach
      (legal_buffers 1 2 first_window-Names) refl

-- The two windows there.
window_at : ℕ → Obj
window_at p = elim (after_buffers.cells p) [ none ↦ window | some o ↦ o ]

share-same_buffers_example :
    (t : Screen) × (list : List ℕ) × (screen_share_window_buffers 2 1 after_buffers ≡ some t)
    × (get_pv room none 2 (pos 37) t ≡ some (pointers list, t))
    × (get_pv room none 1 (pos 37) t ≡ some (pointers list, t))
unfolding window_at after_buffers ensure_buffers ensure_from fill_buffers add_buffer set_nbuffers
    at_most_8 put new_obj screen_create_drawable with_pv blank start has_none is_drawable one_of
share-same_buffers_example =
    share-same_buffers room none after_buffers 1 0 37 (window_at 2) (window_at 1)
      (Reach-IsValid room none after_buffers after_buffers-Reach) refl refl refl refl refl refl
