-- ===== src/Gles/Buffers.antt =====
-- Buffer objects: entry points of guest/shim/src/libGLESv2_bridge.c.
use vw_firmware_mac.Base.{ℕ, [], ◌∷◌}
use vw_firmware_mac.Base.{◌==◌, if◌then◌else◌}
use vw_firmware_mac.Gles.Command.{Memory, Command, call, nothing, byte}
use vw_firmware_mac.Gles.Command.{scalar_word, input, output, words}
use vw_firmware_mac.Gles.Command.{Bridge}
use vw_firmware_mac.Gles.Command.{array_target, element_target}

-- glBindBuffer: the bridge remembers the two bindings.
unfoldable pub gl_bind_buffer : Bridge → ℕ → ℕ → Bridge × Command
gl_bind_buffer s target buffer = (
  record {
    array_buffer = if target == array_target then buffer else s.array_buffer;
    element_buffer = if target == element_target then buffer else s.element_buffer;
  },
  call nothing 4 (scalar_word target ∷ scalar_word buffer ∷ []),
)

-- glBufferData
unfoldable pub gl_buffer_data : ℕ → ℕ → Memory → ℕ → Command
gl_buffer_data target count_bytes bytes usage = call nothing 13 (
    (scalar_word target)
    ∷ (scalar_word count_bytes)
    ∷ (input bytes count_bytes)
    ∷ (scalar_word usage)
    ∷ [])

-- glBufferSubData
unfoldable pub gl_buffer_sub_data : ℕ → ℕ → ℕ → Memory → Command
gl_buffer_sub_data target offset count_bytes bytes = call nothing 14 (
    (scalar_word target)
    ∷ (scalar_word offset)
    ∷ (scalar_word count_bytes)
    ∷ (input bytes count_bytes)
    ∷ [])

-- glDeleteBuffers
unfoldable pub gl_delete_buffers : ℕ → Memory → Command
gl_delete_buffers n buffers = call nothing 29 ((scalar_word n) ∷ (input buffers (words n 1)) ∷ [])

-- glGenBuffers
unfoldable pub gl_gen_buffers : ℕ → Memory → Command
gl_gen_buffers n buffers = call nothing 50 ((scalar_word n) ∷ (output buffers (words n 1)) ∷ [])

-- glGetBufferParameteriv
unfoldable pub gl_get_buffer_parameteriv : ℕ → ℕ → Memory → Command
gl_get_buffer_parameteriv target pname params =
    call nothing 60 ((scalar_word target) ∷ (scalar_word pname) ∷ (output params 4) ∷ [])

-- glIsBuffer
unfoldable pub gl_is_buffer : ℕ → Command
gl_is_buffer buffer = call byte 82 ((scalar_word buffer) ∷ [])

-- A call of one of these entry points, with its arguments.
pub data BufferCall : Type 0 where
  bind_buffer : ℕ → ℕ → BufferCall
  buffer_data : ℕ → ℕ → Memory → ℕ → BufferCall
  buffer_sub_data : ℕ → ℕ → ℕ → Memory → BufferCall
  delete_buffers : ℕ → Memory → BufferCall
  gen_buffers : ℕ → Memory → BufferCall
  get_buffer_parameteriv : ℕ → ℕ → Memory → BufferCall
  is_buffer : ℕ → BufferCall

-- The number of the operation: the place of the entry point in the file.
unfoldable pub buffer_operation : BufferCall → ℕ
buffer_operation (bind_buffer _ _) = 4
buffer_operation (buffer_data _ _ _ _) = 13
buffer_operation (buffer_sub_data _ _ _ _) = 14
buffer_operation (delete_buffers _ _) = 29
buffer_operation (gen_buffers _ _) = 50
buffer_operation (get_buffer_parameteriv _ _ _) = 60
buffer_operation (is_buffer _) = 82

unfoldable pub buffer_command : Bridge → BufferCall → Bridge × Command
unfolding gl_bind_buffer gl_buffer_data gl_buffer_sub_data gl_delete_buffers gl_gen_buffers
    gl_get_buffer_parameteriv gl_is_buffer
buffer_command bridge (bind_buffer target buffer) = gl_bind_buffer bridge target buffer
buffer_command bridge (buffer_data target count_bytes bytes usage) =
    (bridge, gl_buffer_data target count_bytes bytes usage)
buffer_command bridge (buffer_sub_data target offset count_bytes bytes) =
    (bridge, gl_buffer_sub_data target offset count_bytes bytes)
buffer_command bridge (delete_buffers n buffers) = (bridge, gl_delete_buffers n buffers)
buffer_command bridge (gen_buffers n buffers) = (bridge, gl_gen_buffers n buffers)
buffer_command bridge (get_buffer_parameteriv target pname params) =
    (bridge, gl_get_buffer_parameteriv target pname params)
buffer_command bridge (is_buffer buffer) = (bridge, gl_is_buffer buffer)
