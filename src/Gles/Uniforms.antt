-- ===== src/Gles/Uniforms.antt =====
-- Uniforms: entry points of guest/shim/src/libGLESv2_bridge.c.
use vw_firmware_mac.Base.{ℕ, [], ◌∷◌}
use vw_firmware_mac.Rpc.Client.{invalid_operation}
use vw_firmware_mac.Gles.Command.{Memory, Command, call, refuse, nothing, word}
use vw_firmware_mac.Gles.Command.{scalar_word, scalar_byte, input, text, words}

-- glGetUniformfv
unfoldable pub gl_get_uniformfv : ℕ → ℕ → Memory → Command
gl_get_uniformfv program location params = refuse invalid_operation

-- glGetUniformiv
unfoldable pub gl_get_uniformiv : ℕ → ℕ → Memory → Command
gl_get_uniformiv program location params = refuse invalid_operation

-- glGetUniformLocation
unfoldable pub gl_get_uniform_location : ℕ → Memory → Command
gl_get_uniform_location program name = call word 77 ((scalar_word program) ∷ (text name) ∷ [])

-- glUniform1f
unfoldable pub gl_uniform1f : ℕ → ℕ → Command
gl_uniform1f location x = call nothing 112 ((scalar_word location) ∷ (scalar_word x) ∷ [])

-- glUniform1fv
unfoldable pub gl_uniform1fv : ℕ → ℕ → Memory → Command
gl_uniform1fv location count v =
    call nothing 113 ((scalar_word location) ∷ (scalar_word count) ∷ (input v (words count 1)) ∷ [])

-- glUniform1i
unfoldable pub gl_uniform1i : ℕ → ℕ → Command
gl_uniform1i location x = call nothing 114 ((scalar_word location) ∷ (scalar_word x) ∷ [])

-- glUniform1iv
unfoldable pub gl_uniform1iv : ℕ → ℕ → Memory → Command
gl_uniform1iv location count v =
    call nothing 115 ((scalar_word location) ∷ (scalar_word count) ∷ (input v (words count 1)) ∷ [])

-- glUniform2f
unfoldable pub gl_uniform2f : ℕ → ℕ → ℕ → Command
gl_uniform2f location x y =
    call nothing 116 ((scalar_word location) ∷ (scalar_word x) ∷ (scalar_word y) ∷ [])

-- glUniform2fv
unfoldable pub gl_uniform2fv : ℕ → ℕ → Memory → Command
gl_uniform2fv location count v =
    call nothing 117 ((scalar_word location) ∷ (scalar_word count) ∷ (input v (words count 2)) ∷ [])

-- glUniform2i
unfoldable pub gl_uniform2i : ℕ → ℕ → ℕ → Command
gl_uniform2i location x y =
    call nothing 118 ((scalar_word location) ∷ (scalar_word x) ∷ (scalar_word y) ∷ [])

-- glUniform2iv
unfoldable pub gl_uniform2iv : ℕ → ℕ → Memory → Command
gl_uniform2iv location count v =
    call nothing 119 ((scalar_word location) ∷ (scalar_word count) ∷ (input v (words count 2)) ∷ [])

-- glUniform3f
unfoldable pub gl_uniform3f : ℕ → ℕ → ℕ → ℕ → Command
gl_uniform3f location x y z =
    call nothing 120
      ((scalar_word location) ∷ (scalar_word x) ∷ (scalar_word y) ∷ (scalar_word z) ∷ [])

-- glUniform3fv
unfoldable pub gl_uniform3fv : ℕ → ℕ → Memory → Command
gl_uniform3fv location count v =
    call nothing 121 ((scalar_word location) ∷ (scalar_word count) ∷ (input v (words count 3)) ∷ [])

-- glUniform3i
unfoldable pub gl_uniform3i : ℕ → ℕ → ℕ → ℕ → Command
gl_uniform3i location x y z =
    call nothing 122
      ((scalar_word location) ∷ (scalar_word x) ∷ (scalar_word y) ∷ (scalar_word z) ∷ [])

-- glUniform3iv
unfoldable pub gl_uniform3iv : ℕ → ℕ → Memory → Command
gl_uniform3iv location count v =
    call nothing 123 ((scalar_word location) ∷ (scalar_word count) ∷ (input v (words count 3)) ∷ [])

-- glUniform4f
unfoldable pub gl_uniform4f : ℕ → ℕ → ℕ → ℕ → ℕ → Command
gl_uniform4f location x y z w = call nothing 124 (
    (scalar_word location)
    ∷ (scalar_word x)
    ∷ (scalar_word y)
    ∷ (scalar_word z)
    ∷ (scalar_word w)
    ∷ [])

-- glUniform4fv
unfoldable pub gl_uniform4fv : ℕ → ℕ → Memory → Command
gl_uniform4fv location count v =
    call nothing 125 ((scalar_word location) ∷ (scalar_word count) ∷ (input v (words count 4)) ∷ [])

-- glUniform4i
unfoldable pub gl_uniform4i : ℕ → ℕ → ℕ → ℕ → ℕ → Command
gl_uniform4i location x y z w = call nothing 126 (
    (scalar_word location)
    ∷ (scalar_word x)
    ∷ (scalar_word y)
    ∷ (scalar_word z)
    ∷ (scalar_word w)
    ∷ [])

-- glUniform4iv
unfoldable pub gl_uniform4iv : ℕ → ℕ → Memory → Command
gl_uniform4iv location count v =
    call nothing 127 ((scalar_word location) ∷ (scalar_word count) ∷ (input v (words count 4)) ∷ [])

-- glUniformMatrix2fv
unfoldable pub gl_uniform_matrix2fv : ℕ → ℕ → ℕ → Memory → Command
gl_uniform_matrix2fv location count transpose value = call nothing 128 (
    (scalar_word location)
    ∷ (scalar_word count)
    ∷ (scalar_byte transpose)
    ∷ (input value (words count 4))
    ∷ [])

-- glUniformMatrix3fv
unfoldable pub gl_uniform_matrix3fv : ℕ → ℕ → ℕ → Memory → Command
gl_uniform_matrix3fv location count transpose value = call nothing 129 (
    (scalar_word location)
    ∷ (scalar_word count)
    ∷ (scalar_byte transpose)
    ∷ (input value (words count 9))
    ∷ [])

-- glUniformMatrix4fv
unfoldable pub gl_uniform_matrix4fv : ℕ → ℕ → ℕ → Memory → Command
gl_uniform_matrix4fv location count transpose value = call nothing 130 (
    (scalar_word location)
    ∷ (scalar_word count)
    ∷ (scalar_byte transpose)
    ∷ (input value (words count 16))
    ∷ [])

-- A call of one of these entry points, with its arguments.
pub data UniformCall : Type 0 where
  get_uniformfv : ℕ → ℕ → Memory → UniformCall
  get_uniformiv : ℕ → ℕ → Memory → UniformCall
  get_uniform_location : ℕ → Memory → UniformCall
  uniform1f : ℕ → ℕ → UniformCall
  uniform1fv : ℕ → ℕ → Memory → UniformCall
  uniform1i : ℕ → ℕ → UniformCall
  uniform1iv : ℕ → ℕ → Memory → UniformCall
  uniform2f : ℕ → ℕ → ℕ → UniformCall
  uniform2fv : ℕ → ℕ → Memory → UniformCall
  uniform2i : ℕ → ℕ → ℕ → UniformCall
  uniform2iv : ℕ → ℕ → Memory → UniformCall
  uniform3f : ℕ → ℕ → ℕ → ℕ → UniformCall
  uniform3fv : ℕ → ℕ → Memory → UniformCall
  uniform3i : ℕ → ℕ → ℕ → ℕ → UniformCall
  uniform3iv : ℕ → ℕ → Memory → UniformCall
  uniform4f : ℕ → ℕ → ℕ → ℕ → ℕ → UniformCall
  uniform4fv : ℕ → ℕ → Memory → UniformCall
  uniform4i : ℕ → ℕ → ℕ → ℕ → ℕ → UniformCall
  uniform4iv : ℕ → ℕ → Memory → UniformCall
  uniform_matrix2fv : ℕ → ℕ → ℕ → Memory → UniformCall
  uniform_matrix3fv : ℕ → ℕ → ℕ → Memory → UniformCall
  uniform_matrix4fv : ℕ → ℕ → ℕ → Memory → UniformCall

-- The number of the operation: the place of the entry point in the file.
unfoldable pub uniform_operation : UniformCall → ℕ
uniform_operation (get_uniformfv _ _ _) = 75
uniform_operation (get_uniformiv _ _ _) = 76
uniform_operation (get_uniform_location _ _) = 77
uniform_operation (uniform1f _ _) = 112
uniform_operation (uniform1fv _ _ _) = 113
uniform_operation (uniform1i _ _) = 114
uniform_operation (uniform1iv _ _ _) = 115
uniform_operation (uniform2f _ _ _) = 116
uniform_operation (uniform2fv _ _ _) = 117
uniform_operation (uniform2i _ _ _) = 118
uniform_operation (uniform2iv _ _ _) = 119
uniform_operation (uniform3f _ _ _ _) = 120
uniform_operation (uniform3fv _ _ _) = 121
uniform_operation (uniform3i _ _ _ _) = 122
uniform_operation (uniform3iv _ _ _) = 123
uniform_operation (uniform4f _ _ _ _ _) = 124
uniform_operation (uniform4fv _ _ _) = 125
uniform_operation (uniform4i _ _ _ _ _) = 126
uniform_operation (uniform4iv _ _ _) = 127
uniform_operation (uniform_matrix2fv _ _ _ _) = 128
uniform_operation (uniform_matrix3fv _ _ _ _) = 129
uniform_operation (uniform_matrix4fv _ _ _ _) = 130

unfoldable pub uniform_command : UniformCall → Command
unfolding gl_get_uniformfv gl_get_uniformiv gl_get_uniform_location gl_uniform1f gl_uniform1fv
    gl_uniform1i gl_uniform1iv gl_uniform2f gl_uniform2fv gl_uniform2i gl_uniform2iv gl_uniform3f
    gl_uniform3fv gl_uniform3i gl_uniform3iv gl_uniform4f gl_uniform4fv gl_uniform4i gl_uniform4iv
    gl_uniform_matrix2fv gl_uniform_matrix3fv gl_uniform_matrix4fv
uniform_command (get_uniformfv program location params) = gl_get_uniformfv program location params
uniform_command (get_uniformiv program location params) = gl_get_uniformiv program location params
uniform_command (get_uniform_location program name) = gl_get_uniform_location program name
uniform_command (uniform1f location x) = gl_uniform1f location x
uniform_command (uniform1fv location count v) = gl_uniform1fv location count v
uniform_command (uniform1i location x) = gl_uniform1i location x
uniform_command (uniform1iv location count v) = gl_uniform1iv location count v
uniform_command (uniform2f location x y) = gl_uniform2f location x y
uniform_command (uniform2fv location count v) = gl_uniform2fv location count v
uniform_command (uniform2i location x y) = gl_uniform2i location x y
uniform_command (uniform2iv location count v) = gl_uniform2iv location count v
uniform_command (uniform3f location x y z) = gl_uniform3f location x y z
uniform_command (uniform3fv location count v) = gl_uniform3fv location count v
uniform_command (uniform3i location x y z) = gl_uniform3i location x y z
uniform_command (uniform3iv location count v) = gl_uniform3iv location count v
uniform_command (uniform4f location x y z w) = gl_uniform4f location x y z w
uniform_command (uniform4fv location count v) = gl_uniform4fv location count v
uniform_command (uniform4i location x y z w) = gl_uniform4i location x y z w
uniform_command (uniform4iv location count v) = gl_uniform4iv location count v
uniform_command (uniform_matrix2fv location count transpose value) =
    gl_uniform_matrix2fv location count transpose value
uniform_command (uniform_matrix3fv location count transpose value) =
    gl_uniform_matrix3fv location count transpose value
uniform_command (uniform_matrix4fv location count transpose value) =
    gl_uniform_matrix4fv location count transpose value
