-- ===== src/Stubs/Gles/Programs.antt =====
-- Programs of guest/shim/src/libGLESv2_stub.c: each entry point, under its name, and what it logs.
use vw_firmware_mac.Base.{ℕ, ◌+◌, ◌%◌, ◌^◌, [], ◌∷◌, ◌++◌, ◌==◌, if◌then◌else◌}
use vw_firmware_mac.Stubs.Log.{
  uint, sint, addr, line, nothing, number, store, Reply, answers, unless_null, if_room,
}
use vw_firmware_mac.Stubs.Names.{GlStub}

unfoldable pub stub_bind_attrib_location : ℕ → ℕ → ℕ → Reply
stub_bind_attrib_location program index name =
    answers
      ((line "glBindAttribLocation"
          (uint "program" program ∷ uint "index" index ∷ addr "name" name ∷ []))
        ∷ [])
      nothing []

unfoldable pub stub_create_program : GlStub → Reply × GlStub
stub_create_program s = (
  answers ((line "glCreateProgram" []) ∷ []) (number s.programs) [],
  record s { programs = (s.programs + 1) % 2 ^ 32 },
)

unfoldable pub stub_delete_program : ℕ → Reply
stub_delete_program program =
    answers ((line "glDeleteProgram" (uint "program" program ∷ [])) ∷ []) nothing []

unfoldable pub stub_get_active_attrib : ℕ → ℕ → ℕ → ℕ → ℕ → ℕ → ℕ → Reply
stub_get_active_attrib program index bufsize written size kind name =
    answers
      ((line "glGetActiveAttrib" (
          uint "program" program
          ∷ uint "index" index
          ∷ sint "bufsize" bufsize
          ∷ addr "length" written
          ∷ addr "size" size
          ∷ addr "type" kind
          ∷ addr "name" name
          ∷ []))
        ∷ [])
      nothing
      (unless_null written (store written 0 0)
        ++ unless_null size (store size 0 1)
        ++ unless_null kind (store kind 0 0x8B50)
        ++ if_room bufsize name)

unfoldable pub stub_get_active_uniform : ℕ → ℕ → ℕ → ℕ → ℕ → ℕ → ℕ → Reply
stub_get_active_uniform program index bufsize written size kind name =
    answers
      ((line "glGetActiveUniform" (
          uint "program" program
          ∷ uint "index" index
          ∷ sint "bufsize" bufsize
          ∷ addr "length" written
          ∷ addr "size" size
          ∷ addr "type" kind
          ∷ addr "name" name
          ∷ []))
        ∷ [])
      nothing
      (unless_null written (store written 0 0)
        ++ unless_null size (store size 0 1)
        ++ unless_null kind (store kind 0 0x8B50)
        ++ if_room bufsize name)

unfoldable pub stub_get_attrib_location : ℕ → ℕ → GlStub → Reply × GlStub
stub_get_attrib_location program name s = (
  answers ((line "glGetAttribLocation" (uint "program" program ∷ addr "name" name ∷ [])) ∷ [])
      (number (s.attribs % 16)) [],
  record s { attribs = s.attribs + 1 },
)

unfoldable pub stub_get_programiv : ℕ → ℕ → ℕ → Reply
stub_get_programiv program pname params =
    answers
      ((line "glGetProgramiv"
          (uint "program" program ∷ uint "pname" pname ∷ addr "params" params ∷ []))
        ∷ [])
      nothing (store params 0 (if pname == 0x8B82 then 1 else 0) ∷ [])

unfoldable pub stub_get_program_info_log : ℕ → ℕ → ℕ → ℕ → Reply
stub_get_program_info_log program bufsize written infolog =
    answers
      ((line "glGetProgramInfoLog" (
          uint "program" program
          ∷ sint "bufsize" bufsize
          ∷ addr "length" written
          ∷ addr "infolog" infolog
          ∷ []))
        ∷ [])
      nothing (unless_null written (store written 0 0) ++ if_room bufsize infolog)

unfoldable pub stub_is_program : ℕ → Reply
stub_is_program program =
    answers ((line "glIsProgram" (uint "program" program ∷ [])) ∷ []) (number 1) []

unfoldable pub stub_link_program : ℕ → Reply
stub_link_program program =
    answers ((line "glLinkProgram" (uint "program" program ∷ [])) ∷ []) nothing []

unfoldable pub stub_use_program : ℕ → Reply
stub_use_program program =
    answers ((line "glUseProgram" (uint "program" program ∷ [])) ∷ []) nothing []

unfoldable pub stub_validate_program : ℕ → Reply
stub_validate_program program =
    answers ((line "glValidateProgram" (uint "program" program ∷ [])) ∷ []) nothing []

unfoldable pub stub_program_binary_oes : ℕ → ℕ → ℕ → ℕ → Reply
stub_program_binary_oes program binary_format binary written =
    answers
      ((line "glProgramBinaryOES" (
          uint "program" program
          ∷ uint "binaryFormat" binary_format
          ∷ addr "binary" binary
          ∷ sint "length" written
          ∷ []))
        ∷ [])
      nothing []

unfoldable pub stub_get_program_binary_oes : ℕ → ℕ → ℕ → ℕ → ℕ → Reply
stub_get_program_binary_oes program buf_size written binary_format binary =
    answers
      ((line "glGetProgramBinaryOES" (
          uint "program" program
          ∷ sint "bufSize" buf_size
          ∷ addr "length" written
          ∷ addr "binaryFormat" binary_format
          ∷ addr "binary" binary
          ∷ []))
        ∷ [])
      nothing (unless_null written (store written 0 0))

-- The entry points as data, and what a call does.
pub data ProgramEntry : Type 0 where
  bind_attrib_location : ℕ → ℕ → ℕ → ProgramEntry
  create_program : ProgramEntry
  delete_program : ℕ → ProgramEntry
  get_active_attrib : ℕ → ℕ → ℕ → ℕ → ℕ → ℕ → ℕ → ProgramEntry
  get_active_uniform : ℕ → ℕ → ℕ → ℕ → ℕ → ℕ → ℕ → ProgramEntry
  get_attrib_location : ℕ → ℕ → ProgramEntry
  get_programiv : ℕ → ℕ → ℕ → ProgramEntry
  get_program_info_log : ℕ → ℕ → ℕ → ℕ → ProgramEntry
  is_program : ℕ → ProgramEntry
  link_program : ℕ → ProgramEntry
  use_program : ℕ → ProgramEntry
  validate_program : ℕ → ProgramEntry
  program_binary_oes : ℕ → ℕ → ℕ → ℕ → ProgramEntry
  get_program_binary_oes : ℕ → ℕ → ℕ → ℕ → ℕ → ProgramEntry

unfoldable pub program_reply : ProgramEntry → GlStub → Reply × GlStub
program_reply (bind_attrib_location program index name) s =
    (stub_bind_attrib_location program index name, s)
program_reply create_program s = stub_create_program s
program_reply (delete_program program) s = (stub_delete_program program, s)
program_reply (get_active_attrib program index bufsize written size kind name) s =
    (stub_get_active_attrib program index bufsize written size kind name, s)
program_reply (get_active_uniform program index bufsize written size kind name) s =
    (stub_get_active_uniform program index bufsize written size kind name, s)
program_reply (get_attrib_location program name) s = stub_get_attrib_location program name s
program_reply (get_programiv program pname params) s = (stub_get_programiv program pname params, s)
program_reply (get_program_info_log program bufsize written infolog) s =
    (stub_get_program_info_log program bufsize written infolog, s)
program_reply (is_program program) s = (stub_is_program program, s)
program_reply (link_program program) s = (stub_link_program program, s)
program_reply (use_program program) s = (stub_use_program program, s)
program_reply (validate_program program) s = (stub_validate_program program, s)
program_reply (program_binary_oes program binary_format binary written) s =
    (stub_program_binary_oes program binary_format binary written, s)
program_reply (get_program_binary_oes program buf_size written binary_format binary) s =
    (stub_get_program_binary_oes program buf_size written binary_format binary, s)
