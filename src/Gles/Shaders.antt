-- ===== src/Gles/Shaders.antt =====
-- Shaders: entry points of guest/shim/src/libGLESv2_bridge.c.
use vw_firmware_mac.Base.{ℕ, ◌+◌, ◌%◌, ◌^◌, List, [], ◌∷◌, ◌++◌, Option, none, some, Bool}
use vw_firmware_mac.Base.{if◌then◌else◌, length, take, ltb}
use vw_firmware_mac.Rpc.Client.{invalid_operation}
use vw_firmware_mac.Gles.Command.{Memory, Command, call, refuse, nothing, byte, word}
use vw_firmware_mac.Gles.Command.{scalar_word, input, output, out_of_memory}

-- glAttachShader
unfoldable pub gl_attach_shader : ℕ → ℕ → Command
gl_attach_shader program shader = call nothing 2 ((scalar_word program) ∷ (scalar_word shader) ∷ [])

-- glCompileShader
unfoldable pub gl_compile_shader : ℕ → Command
gl_compile_shader shader = call nothing 21 ((scalar_word shader) ∷ [])

-- glCreateShader
unfoldable pub gl_create_shader : ℕ → Command
gl_create_shader kind = call word 27 ((scalar_word kind) ∷ [])

-- glDeleteShader
unfoldable pub gl_delete_shader : ℕ → Command
gl_delete_shader shader = call nothing 33 ((scalar_word shader) ∷ [])

-- glDetachShader
unfoldable pub gl_detach_shader : ℕ → ℕ → Command
gl_detach_shader program shader =
    call nothing 38 ((scalar_word program) ∷ (scalar_word shader) ∷ [])

-- glGetAttachedShaders
unfoldable pub gl_get_attached_shaders : ℕ → ℕ → Memory → Memory → Command
gl_get_attached_shaders program maxcount count shaders = refuse invalid_operation

-- glGetShaderiv
unfoldable pub gl_get_shaderiv : ℕ → ℕ → Memory → Command
gl_get_shaderiv shader pname params =
    call nothing 68 ((scalar_word shader) ∷ (scalar_word pname) ∷ (output params 4) ∷ [])

-- glGetShaderInfoLog
unfoldable pub gl_get_shader_info_log : ℕ → ℕ → Memory → Memory → Command
gl_get_shader_info_log shader bufsize written infolog = call nothing 69 (
    (scalar_word shader)
    ∷ (scalar_word bufsize)
    ∷ (output written 4)
    ∷ (output infolog bufsize)
    ∷ [])

-- glGetShaderPrecisionFormat
unfoldable pub gl_get_shader_precision_format : ℕ → ℕ → Memory → Memory → Command
gl_get_shader_precision_format shadertype precisiontype range precision = call nothing 70 (
    (scalar_word shadertype)
    ∷ (scalar_word precisiontype)
    ∷ (output range 8)
    ∷ (output precision 4)
    ∷ [])

-- glGetShaderSource
unfoldable pub gl_get_shader_source : ℕ → ℕ → Memory → Memory → Command
gl_get_shader_source shader bufsize written source = call nothing 71 (
    (scalar_word shader)
    ∷ (scalar_word bufsize)
    ∷ (output written 4)
    ∷ (output source bufsize)
    ∷ [])

-- glIsShader
unfoldable pub gl_is_shader : ℕ → Command
gl_is_shader shader = call byte 87 ((scalar_word shader) ∷ [])

-- glReleaseShaderCompiler
unfoldable pub gl_release_shader_compiler : Command
gl_release_shader_compiler = call nothing 94 []

-- glShaderBinary
unfoldable pub gl_shader_binary : ℕ → Memory → ℕ → Memory → ℕ → Command
gl_shader_binary n shaders binaryformat binary written = refuse invalid_operation

-- A source string with its `length[i]`, `none` where that is missing or negative.
pub record Piece : Type 0 where
  pub given : Option ℕ
  pub memory : List ℕ

-- `(length && length[i]>=0)?length[i]:strlen(string[i])`; `memory` holds the string without its NUL.
unfoldable pub piece_length : Piece → ℕ
piece_length p = elim p.given [ none ↦ length p.memory | some n ↦ n ]

unfoldable pub joined_size : List Piece → ℕ
joined_size [] = 1
joined_size (p ∷ pieces) = (piece_length p + joined_size pieces) % 2 ^ 32

-- The text that is copied together, with its NUL.
unfoldable pub joined : List Piece → List ℕ
joined [] = 0 ∷ []
joined (p ∷ pieces) = take (piece_length p) p.memory ++ joined pieces

-- The pieces that `for(i=0;i<count;i++)` reads; the 32 bits of a negative count give none.
unfoldable pub counted : ℕ → List Piece → List Piece
counted count pieces = if ltb count (2 ^ 31) then take count pieces else []

-- glShaderSource: `allocated` says whether `malloc` succeeds; `pieces` is what `string` and `length`
-- hold, `count` elements at least.
unfoldable pub gl_shader_source : Bool → ℕ → ℕ → List Piece → Command
unfolding counted
gl_shader_source allocated shader count pieces =
    if allocated
    then call nothing 99 (
        scalar_word shader
        ∷ scalar_word count
        ∷ input (some (joined (counted count pieces))) (joined_size (counted count pieces))
        ∷ input none 0
        ∷ [])
    else refuse out_of_memory

-- A call of one of these entry points, with its arguments.
pub data ShaderCall : Type 0 where
  attach_shader : ℕ → ℕ → ShaderCall
  compile_shader : ℕ → ShaderCall
  create_shader : ℕ → ShaderCall
  delete_shader : ℕ → ShaderCall
  detach_shader : ℕ → ℕ → ShaderCall
  get_attached_shaders : ℕ → ℕ → Memory → Memory → ShaderCall
  get_shaderiv : ℕ → ℕ → Memory → ShaderCall
  get_shader_info_log : ℕ → ℕ → Memory → Memory → ShaderCall
  get_shader_precision_format : ℕ → ℕ → Memory → Memory → ShaderCall
  get_shader_source : ℕ → ℕ → Memory → Memory → ShaderCall
  is_shader : ℕ → ShaderCall
  release_shader_compiler : ShaderCall
  shader_binary : ℕ → Memory → ℕ → Memory → ℕ → ShaderCall
  shader_source : Bool → ℕ → ℕ → List Piece → ShaderCall

-- The number of the operation: the place of the entry point in the file.
unfoldable pub shader_operation : ShaderCall → ℕ
shader_operation (attach_shader _ _) = 2
shader_operation (compile_shader _) = 21
shader_operation (create_shader _) = 27
shader_operation (delete_shader _) = 33
shader_operation (detach_shader _ _) = 38
shader_operation (get_attached_shaders _ _ _ _) = 57
shader_operation (get_shaderiv _ _ _) = 68
shader_operation (get_shader_info_log _ _ _ _) = 69
shader_operation (get_shader_precision_format _ _ _ _) = 70
shader_operation (get_shader_source _ _ _ _) = 71
shader_operation (is_shader _) = 87
shader_operation release_shader_compiler = 94
shader_operation (shader_binary _ _ _ _ _) = 98
shader_operation (shader_source _ _ _ _) = 99

unfoldable pub shader_command : ShaderCall → Command
unfolding gl_attach_shader gl_compile_shader gl_create_shader gl_delete_shader gl_detach_shader
    gl_get_attached_shaders gl_get_shaderiv gl_get_shader_info_log gl_get_shader_precision_format
    gl_get_shader_source gl_is_shader gl_release_shader_compiler gl_shader_binary gl_shader_source
shader_command (attach_shader program shader) = gl_attach_shader program shader
shader_command (compile_shader shader) = gl_compile_shader shader
shader_command (create_shader kind) = gl_create_shader kind
shader_command (delete_shader shader) = gl_delete_shader shader
shader_command (detach_shader program shader) = gl_detach_shader program shader
shader_command (get_attached_shaders program maxcount count shaders) =
    gl_get_attached_shaders program maxcount count shaders
shader_command (get_shaderiv shader pname params) = gl_get_shaderiv shader pname params
shader_command (get_shader_info_log shader bufsize written infolog) =
    gl_get_shader_info_log shader bufsize written infolog
shader_command (get_shader_precision_format shadertype precisiontype range precision) =
    gl_get_shader_precision_format shadertype precisiontype range precision
shader_command (get_shader_source shader bufsize written source) =
    gl_get_shader_source shader bufsize written source
shader_command (is_shader shader) = gl_is_shader shader
shader_command release_shader_compiler = gl_release_shader_compiler
shader_command (shader_binary n shaders binaryformat binary written) =
    gl_shader_binary n shaders binaryformat binary written
shader_command (shader_source allocated shader count pieces) =
    gl_shader_source allocated shader count pieces
