-- ===== src/Gles/Programs.antt =====
-- Programs: entry points of guest/shim/src/libGLESv2_bridge.c.
use vw_firmware_mac.Base.{ℕ, [], ◌∷◌}
use vw_firmware_mac.Rpc.Client.{invalid_operation}
use vw_firmware_mac.Gles.Command.{Memory, Command, call, refuse, nothing, byte, word}
use vw_firmware_mac.Gles.Command.{scalar_word, output, text}

-- glBindAttribLocation
unfoldable pub gl_bind_attrib_location : ℕ → ℕ → Memory → Command
gl_bind_attrib_location program index name =
    call nothing 3 ((scalar_word program) ∷ (scalar_word index) ∷ (text name) ∷ [])

-- glCreateProgram
unfoldable pub gl_create_program : Command
gl_create_program = call word 26 []

-- glDeleteProgram
unfoldable pub gl_delete_program : ℕ → Command
gl_delete_program program = call nothing 31 ((scalar_word program) ∷ [])

-- glGetActiveAttrib
unfoldable pub gl_get_active_attrib : ℕ → ℕ → ℕ → Memory → Memory → Memory → Memory → Command
gl_get_active_attrib program index bufsize written size kind name = call nothing 55 (
    (scalar_word program)
    ∷ (scalar_word index)
    ∷ (scalar_word bufsize)
    ∷ (output written 4)
    ∷ (output size 4)
    ∷ (output kind 4)
    ∷ (output name bufsize)
    ∷ [])

-- glGetActiveUniform
unfoldable pub gl_get_active_uniform : ℕ → ℕ → ℕ → Memory → Memory → Memory → Memory → Command
gl_get_active_uniform program index bufsize written size kind name = call nothing 56 (
    (scalar_word program)
    ∷ (scalar_word index)
    ∷ (scalar_word bufsize)
    ∷ (output written 4)
    ∷ (output size 4)
    ∷ (output kind 4)
    ∷ (output name bufsize)
    ∷ [])

-- glGetAttribLocation
unfoldable pub gl_get_attrib_location : ℕ → Memory → Command
gl_get_attrib_location program name = call word 58 ((scalar_word program) ∷ (text name) ∷ [])

-- glGetProgramiv
unfoldable pub gl_get_programiv : ℕ → ℕ → Memory → Command
gl_get_programiv program pname params =
    call nothing 65 ((scalar_word program) ∷ (scalar_word pname) ∷ (output params 4) ∷ [])

-- glGetProgramInfoLog
unfoldable pub gl_get_program_info_log : ℕ → ℕ → Memory → Memory → Command
gl_get_program_info_log program bufsize written infolog = call nothing 66 (
    (scalar_word program)
    ∷ (scalar_word bufsize)
    ∷ (output written 4)
    ∷ (output infolog bufsize)
    ∷ [])

-- glIsProgram
unfoldable pub gl_is_program : ℕ → Command
gl_is_program program = call byte 85 ((scalar_word program) ∷ [])

-- glLinkProgram
unfoldable pub gl_link_program : ℕ → Command
gl_link_program program = call nothing 90 ((scalar_word program) ∷ [])

-- glUseProgram
unfoldable pub gl_use_program : ℕ → Command
gl_use_program program = call nothing 131 ((scalar_word program) ∷ [])

-- glValidateProgram
unfoldable pub gl_validate_program : ℕ → Command
gl_validate_program program = call nothing 132 ((scalar_word program) ∷ [])

-- glProgramBinaryOES
unfoldable pub gl_program_binary_oes : ℕ → ℕ → Memory → ℕ → Command
gl_program_binary_oes program binary_format binary written = refuse invalid_operation

-- glGetProgramBinaryOES
unfoldable pub gl_get_program_binary_oes : ℕ → ℕ → Memory → Memory → Memory → Command
gl_get_program_binary_oes program buf_size written binary_format binary = refuse invalid_operation

-- A call of one of these entry points, with its arguments.
pub data ProgramCall : Type 0 where
  bind_attrib_location : ℕ → ℕ → Memory → ProgramCall
  create_program : ProgramCall
  delete_program : ℕ → ProgramCall
  get_active_attrib : ℕ → ℕ → ℕ → Memory → Memory → Memory → Memory → ProgramCall
  get_active_uniform : ℕ → ℕ → ℕ → Memory → Memory → Memory → Memory → ProgramCall
  get_attrib_location : ℕ → Memory → ProgramCall
  get_programiv : ℕ → ℕ → Memory → ProgramCall
  get_program_info_log : ℕ → ℕ → Memory → Memory → ProgramCall
  is_program : ℕ → ProgramCall
  link_program : ℕ → ProgramCall
  use_program : ℕ → ProgramCall
  validate_program : ℕ → ProgramCall
  program_binary_oes : ℕ → ℕ → Memory → ℕ → ProgramCall
  get_program_binary_oes : ℕ → ℕ → Memory → Memory → Memory → ProgramCall

-- The number of the operation: the place of the entry point in the file.
unfoldable pub program_operation : ProgramCall → ℕ
program_operation (bind_attrib_location _ _ _) = 3
program_operation create_program = 26
program_operation (delete_program _) = 31
program_operation (get_active_attrib _ _ _ _ _ _ _) = 55
program_operation (get_active_uniform _ _ _ _ _ _ _) = 56
program_operation (get_attrib_location _ _) = 58
program_operation (get_programiv _ _ _) = 65
program_operation (get_program_info_log _ _ _ _) = 66
program_operation (is_program _) = 85
program_operation (link_program _) = 90
program_operation (use_program _) = 131
program_operation (validate_program _) = 132
program_operation (program_binary_oes _ _ _ _) = 143
program_operation (get_program_binary_oes _ _ _ _ _) = 144

unfoldable pub program_command : ProgramCall → Command
unfolding gl_bind_attrib_location gl_create_program gl_delete_program gl_get_active_attrib
    gl_get_active_uniform gl_get_attrib_location gl_get_programiv gl_get_program_info_log
    gl_is_program gl_link_program gl_use_program gl_validate_program gl_program_binary_oes
    gl_get_program_binary_oes
program_command (bind_attrib_location program index name) =
    gl_bind_attrib_location program index name
program_command create_program = gl_create_program
program_command (delete_program program) = gl_delete_program program
program_command (get_active_attrib program index bufsize written size kind name) =
    gl_get_active_attrib program index bufsize written size kind name
program_command (get_active_uniform program index bufsize written size kind name) =
    gl_get_active_uniform program index bufsize written size kind name
program_command (get_attrib_location program name) = gl_get_attrib_location program name
program_command (get_programiv program pname params) = gl_get_programiv program pname params
program_command (get_program_info_log program bufsize written infolog) =
    gl_get_program_info_log program bufsize written infolog
program_command (is_program program) = gl_is_program program
program_command (link_program program) = gl_link_program program
program_command (use_program program) = gl_use_program program
program_command (validate_program program) = gl_validate_program program
program_command (program_binary_oes program binary_format binary written) =
    gl_program_binary_oes program binary_format binary written
program_command (get_program_binary_oes program buf_size written binary_format binary) =
    gl_get_program_binary_oes program buf_size written binary_format binary
