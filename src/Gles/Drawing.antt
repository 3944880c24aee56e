-- ===== src/Gles/Drawing.antt =====
-- Drawing, clearing and capabilities: entry points of guest/shim/src/libGLESv2_bridge.c.
use vw_firmware_mac.Base.{ℕ, ◌*◌, ◌%◌, ◌^◌, [], ◌∷◌}
use vw_firmware_mac.Base.{◌==◌, if◌then◌else◌}
use vw_firmware_mac.Gles.Command.{Memory, Command, call, nothing}
use vw_firmware_mac.Gles.Command.{scalar_word, input}
use vw_firmware_mac.Gles.Command.{Bridge}
use vw_firmware_mac.Gles.Command.{unsigned_byte}

-- glClear
unfoldable pub gl_clear : ℕ → Command
gl_clear mask = call nothing 16 ((scalar_word mask) ∷ [])

-- glClearColor
unfoldable pub gl_clear_color : ℕ → ℕ → ℕ → ℕ → Command
gl_clear_color red green blue alpha =
    call nothing 17
      ((scalar_word red) ∷ (scalar_word green) ∷ (scalar_word blue) ∷ (scalar_word alpha) ∷ [])

-- glClearDepthf
unfoldable pub gl_clear_depthf : ℕ → Command
gl_clear_depthf depth = call nothing 18 ((scalar_word depth) ∷ [])

-- glClearStencil
unfoldable pub gl_clear_stencil : ℕ → Command
gl_clear_stencil s = call nothing 19 ((scalar_word s) ∷ [])

-- glDisable
unfoldable pub gl_disable : ℕ → Command
gl_disable cap = call nothing 39 ((scalar_word cap) ∷ [])

-- glDrawArrays
unfoldable pub gl_draw_arrays : ℕ → ℕ → ℕ → Command
gl_draw_arrays mode first count =
    call nothing 41 ((scalar_word mode) ∷ (scalar_word first) ∷ (scalar_word count) ∷ [])

-- glDrawElements: `indices` is an offset (a word) while an element buffer is bound, else memory.
unfoldable pub gl_draw_elements : Bridge → ℕ → ℕ → ℕ → ℕ → Memory → Command
gl_draw_elements s mode count kind offset memory = call nothing 42 (
    scalar_word mode
    ∷ scalar_word count
    ∷ scalar_word kind
    ∷ (if s.element_buffer == 0
        then input memory (count * (if kind == unsigned_byte then 1 else 2) % 2 ^ 32)
        else scalar_word offset)
    ∷ [])

-- glEnable
unfoldable pub gl_enable : ℕ → Command
gl_enable cap = call nothing 43 ((scalar_word cap) ∷ [])

-- glHint
unfoldable pub gl_hint : ℕ → ℕ → Command
gl_hint target mode = call nothing 81 ((scalar_word target) ∷ (scalar_word mode) ∷ [])

-- glLineWidth
unfoldable pub gl_line_width : ℕ → Command
gl_line_width width = call nothing 89 ((scalar_word width) ∷ [])

-- glScissor
unfoldable pub gl_scissor : ℕ → ℕ → ℕ → ℕ → Command
gl_scissor x y width height =
    call nothing 97
      ((scalar_word x) ∷ (scalar_word y) ∷ (scalar_word width) ∷ (scalar_word height) ∷ [])

-- glViewport
unfoldable pub gl_viewport : ℕ → ℕ → ℕ → ℕ → Command
gl_viewport x y width height =
    call nothing 142
      ((scalar_word x) ∷ (scalar_word y) ∷ (scalar_word width) ∷ (scalar_word height) ∷ [])

-- A call of one of these entry points, with its arguments.
pub data DrawCall : Type 0 where
  clear : ℕ → DrawCall
  clear_color : ℕ → ℕ → ℕ → ℕ → DrawCall
  clear_depthf : ℕ → DrawCall
  clear_stencil : ℕ → DrawCall
  disable : ℕ → DrawCall
  draw_arrays : ℕ → ℕ → ℕ → DrawCall
  draw_elements : ℕ → ℕ → ℕ → ℕ → Memory → DrawCall
  enable : ℕ → DrawCall
  hint : ℕ → ℕ → DrawCall
  line_width : ℕ → DrawCall
  scissor : ℕ → ℕ → ℕ → ℕ → DrawCall
  viewport : ℕ → ℕ → ℕ → ℕ → DrawCall

-- The number of the operation: the place of the entry point in the file.
unfoldable pub draw_operation : DrawCall → ℕ
draw_operation (clear _) = 16
draw_operation (clear_color _ _ _ _) = 17
draw_operation (clear_depthf _) = 18
draw_operation (clear_stencil _) = 19
draw_operation (disable _) = 39
draw_operation (draw_arrays _ _ _) = 41
draw_operation (draw_elements _ _ _ _ _) = 42
draw_operation (enable _) = 43
draw_operation (hint _ _) = 81
draw_operation (line_width _) = 89
draw_operation (scissor _ _ _ _) = 97
draw_operation (viewport _ _ _ _) = 142

unfoldable pub draw_command : Bridge → DrawCall → Command
unfolding gl_clear gl_clear_color gl_clear_depthf gl_clear_stencil gl_disable gl_draw_arrays
    gl_draw_elements gl_enable gl_hint gl_line_width gl_scissor gl_viewport
draw_command bridge (clear mask) = gl_clear mask
draw_command bridge (clear_color red green blue alpha) = gl_clear_color red green blue alpha
draw_command bridge (clear_depthf depth) = gl_clear_depthf depth
draw_command bridge (clear_stencil s) = gl_clear_stencil s
draw_command bridge (disable cap) = gl_disable cap
draw_command bridge (draw_arrays mode first count) = gl_draw_arrays mode first count
draw_command bridge (draw_elements mode count kind offset memory) =
    gl_draw_elements bridge mode count kind offset memory
draw_command bridge (enable cap) = gl_enable cap
draw_command bridge (hint target mode) = gl_hint target mode
draw_command bridge (line_width width) = gl_line_width width
draw_command bridge (scissor x y width height) = gl_scissor x y width height
draw_command bridge (viewport x y width height) = gl_viewport x y width height
