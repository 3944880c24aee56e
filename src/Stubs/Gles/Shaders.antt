-- ===== src/Stubs/Gles/Shaders.antt =====
-- Shaders of guest/shim/src/libGLESv2_stub.c: each entry point, under its name, and what it logs.
use vw_firmware_mac.Base.{ℕ, ◌+◌, ◌%◌, ◌^◌, List, [], ◌∷◌, ◌++◌, Option, take, ◌==◌, if◌then◌else◌}
use vw_firmware_mac.Stubs.Log.{
  uint, sint, addr, line, nothing, number, store, Reply, answers, unless_null, if_room,
}
use vw_firmware_mac.Stubs.Names.{GlStub, rounds, source_lines}

unfoldable pub stub_attach_shader : ℕ → ℕ → Reply
stub_attach_shader program shader =
    answers ((line "glAttachShader" (uint "program" program ∷ uint "shader" shader ∷ [])) ∷ [])
      nothing []

unfoldable pub stub_compile_shader : ℕ → Reply
stub_compile_shader shader =
    answers ((line "glCompileShader" (uint "shader" shader ∷ [])) ∷ []) nothing []

unfoldable pub stub_create_shader : ℕ → GlStub → Reply × GlStub
stub_create_shader kind s = (
  answers ((line "glCreateShader" (uint "type" kind ∷ [])) ∷ []) (number s.shaders) [],
  record s { shaders = (s.shaders + 1) % 2 ^ 32 },
)

unfoldable pub stub_delete_shader : ℕ → Reply
stub_delete_shader shader =
    answers ((line "glDeleteShader" (uint "shader" shader ∷ [])) ∷ []) nothing []

unfoldable pub stub_detach_shader : ℕ → ℕ → Reply
stub_detach_shader program shader =
    answers ((line "glDetachShader" (uint "program" program ∷ uint "shader" shader ∷ [])) ∷ [])
      nothing []

unfoldable pub stub_get_attached_shaders : ℕ → ℕ → ℕ → ℕ → Reply
stub_get_attached_shaders program maxcount count shaders =
    answers
      ((line "glGetAttachedShaders" (
          uint "program" program
          ∷ sint "maxcount" maxcount
          ∷ addr "count" count
          ∷ addr "shaders" shaders
          ∷ []))
        ∷ [])
      nothing (unless_null count (store count 0 0))

unfoldable pub stub_get_shaderiv : ℕ → ℕ → ℕ → Reply
stub_get_shaderiv shader pname params =
    answers
      ((line "glGetShaderiv"
          (uint "shader" shader ∷ uint "pname" pname ∷ addr "params" params ∷ []))
        ∷ [])
      nothing (store params 0 (if pname == 0x8B81 then 1 else 0) ∷ [])

unfoldable pub stub_get_shader_info_log : ℕ → ℕ → ℕ → ℕ → Reply
stub_get_shader_info_log shader bufsize written infolog =
    answers
      ((line "glGetShaderInfoLog" (
          uint "shader" shader
          ∷ sint "bufsize" bufsize
          ∷ addr "length" written
          ∷ addr "infolog" infolog
          ∷ []))
        ∷ [])
      nothing (unless_null written (store written 0 0) ++ if_room bufsize infolog)

unfoldable pub stub_get_shader_precision_format : ℕ → ℕ → ℕ → ℕ → Reply
stub_get_shader_precision_format shadertype precisiontype limits precision =
    answers
      ((line "glGetShaderPrecisionFormat" (
          uint "shadertype" shadertype
          ∷ uint "precisiontype" precisiontype
          ∷ addr "range" limits
          ∷ addr "precision" precision
          ∷ []))
        ∷ [])
      nothing (store limits 0 127 ∷ store limits 1 127 ∷ store precision 0 23 ∷ [])

unfoldable pub stub_get_shader_source : ℕ → ℕ → ℕ → ℕ → Reply
stub_get_shader_source shader bufsize written source =
    answers
      ((line "glGetShaderSource" (
          uint "shader" shader
          ∷ sint "bufsize" bufsize
          ∷ addr "length" written
          ∷ addr "source" source
          ∷ []))
        ∷ [])
      nothing (unless_null written (store written 0 0) ++ if_room bufsize source)

unfoldable pub stub_is_shader : ℕ → Reply
stub_is_shader shader = answers ((line "glIsShader" (uint "shader" shader ∷ [])) ∷ []) (number 1) []

unfoldable pub stub_release_shader_compiler : Reply
stub_release_shader_compiler = answers ((line "glReleaseShaderCompiler" []) ∷ []) nothing []

unfoldable pub stub_shader_binary : ℕ → ℕ → ℕ → ℕ → ℕ → Reply
stub_shader_binary n shaders binaryformat binary written =
    answers
      ((line "glShaderBinary" (
          sint "n" n
          ∷ addr "shaders" shaders
          ∷ uint "binaryformat" binaryformat
          ∷ addr "binary" binary
          ∷ sint "length" written
          ∷ []))
        ∷ [])
      nothing []

unfoldable pub stub_shader_source : ℕ → ℕ → ℕ → ℕ → (List (List ℕ × Option ℕ)) → Reply
stub_shader_source shader count strings written sources =
    answers
      ((line "glShaderSource" (
          uint "shader" shader
          ∷ sint "count" count
          ∷ addr "string" strings
          ∷ addr "length" written
          ∷ []))
        ∷ source_lines shader 0 (take (rounds count) sources))
      nothing []

-- The entry points as data, and what a call does.
pub data ShaderEntry : Type 0 where
  attach_shader : ℕ → ℕ → ShaderEntry
  compile_shader : ℕ → ShaderEntry
  create_shader : ℕ → ShaderEntry
  delete_shader : ℕ → ShaderEntry
  detach_shader : ℕ → ℕ → ShaderEntry
  get_attached_shaders : ℕ → ℕ → ℕ → ℕ → ShaderEntry
  get_shaderiv : ℕ → ℕ → ℕ → ShaderEntry
  get_shader_info_log : ℕ → ℕ → ℕ → ℕ → ShaderEntry
  get_shader_precision_format : ℕ → ℕ → ℕ → ℕ → ShaderEntry
  get_shader_source : ℕ → ℕ → ℕ → ℕ → ShaderEntry
  is_shader : ℕ → ShaderEntry
  release_shader_compiler : ShaderEntry
  shader_binary : ℕ → ℕ → ℕ → ℕ → ℕ → ShaderEntry
  shader_source : ℕ → ℕ → ℕ → ℕ → (List (List ℕ × Option ℕ)) → ShaderEntry

unfoldable pub shader_reply : ShaderEntry → GlStub → Reply × GlStub
shader_reply (attach_shader program shader) s = (stub_attach_shader program shader, s)
shader_reply (compile_shader shader) s = (stub_compile_shader shader, s)
shader_reply (create_shader kind) s = stub_create_shader kind s
shader_reply (delete_shader shader) s = (stub_delete_shader shader, s)
shader_reply (detach_shader program shader) s = (stub_detach_shader program shader, s)
shader_reply (get_attached_shaders program maxcount count shaders) s =
    (stub_get_attached_shaders program maxcount count shaders, s)
shader_reply (get_shaderiv shader pname params) s = (stub_get_shaderiv shader pname params, s)
shader_reply (get_shader_info_log shader bufsize written infolog) s =
    (stub_get_shader_info_log shader bufsize written infolog, s)
shader_reply (get_shader_precision_format shadertype precisiontype limits precision) s =
    (stub_get_shader_precision_format shadertype precisiontype limits precision, s)
shader_reply (get_shader_source shader bufsize written source) s =
    (stub_get_shader_source shader bufsize written source, s)
shader_reply (is_shader shader) s = (stub_is_shader shader, s)
shader_reply release_shader_compiler s = (stub_release_shader_compiler, s)
shader_reply (shader_binary n shaders binaryformat binary written) s =
    (stub_shader_binary n shaders binaryformat binary written, s)
shader_reply (shader_source shader count strings written sources) s =
    (stub_shader_source shader count strings written sources, s)
