-- ===== src/Gles/Accepted/Drawing.antt =====
-- The host accepts what the entry points of Gles/Drawing.antt send.
use vw_firmware_mac.Base.{refl, inl, inr, Bool-cases, ◌==◌}
use vw_firmware_mac.Gles.Accepted.Check.{IsServed, checks, outcome_of}
use vw_firmware_mac.Gles.Drawing.{
  DrawCall, draw_command, draw_operation, clear, clear_color, clear_depthf, clear_stencil, disable,
  draw_arrays, draw_elements, enable, hint, line_width, scissor, viewport,
}
use vw_firmware_mac.Gles.Command.{Bridge}

pub draw_command-IsServed :
    (bridge : Bridge) (c : DrawCall)
    → IsServed (draw_operation c) (outcome_of (draw_operation c)) (draw_command bridge c)
unfolding checks outcome_of draw_command draw_operation
draw_command-IsServed bridge (clear a0) = (refl, refl)
draw_command-IsServed bridge (clear_color a0 a1 a2 a3) = (refl, refl)
draw_command-IsServed bridge (clear_depthf a0) = (refl, refl)
draw_command-IsServed bridge (clear_stencil a0) = (refl, refl)
draw_command-IsServed bridge (disable a0) = (refl, refl)
draw_command-IsServed bridge (draw_arrays a0 a1 a2) = (refl, refl)
draw_command-IsServed bridge (draw_elements a0 a1 a2 a3 a4) =
    elim (Bool-cases (bridge.element_buffer == 0)) [
      | inl z ↦ rw z (refl, refl)
      | inr nz ↦ rw nz (refl, refl)
    ]
draw_command-IsServed bridge (enable a0) = (refl, refl)
draw_command-IsServed bridge (hint a0 a1) = (refl, refl)
draw_command-IsServed bridge (line_width a0) = (refl, refl)
draw_command-IsServed bridge (scissor a0 a1 a2 a3) = (refl, refl)
draw_command-IsServed bridge (viewport a0 a1 a2 a3) = (refl, refl)
