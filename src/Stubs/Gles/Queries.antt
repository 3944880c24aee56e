-- ===== src/Stubs/Gles/Queries.antt =====
-- Queries of guest/shim/src/libGLESv2_stub.c: each entry point, under its name, and what it logs.
use vw_firmware_mac.Base.{ℕ, List, [], ◌∷◌, ◌==◌, if◌then◌else◌}
use vw_firmware_mac.Stubs.Log.{uint, addr, line, nothing, number, text, store, Reply, answers}
use vw_firmware_mac.Stubs.Names.{GlStub, one_bits, eight_bits, value_of}

unfoldable pub stub_finish : Reply
stub_finish = answers ((line "glFinish" []) ∷ []) nothing []

unfoldable pub stub_flush : Reply
stub_flush = answers ((line "glFlush" []) ∷ []) nothing []

unfoldable pub stub_get_booleanv : ℕ → ℕ → Reply
stub_get_booleanv pname params =
    answers ((line "glGetBooleanv" (uint "pname" pname ∷ addr "params" params ∷ [])) ∷ []) nothing
      (store params 0 0 ∷ [])

unfoldable pub stub_get_error : Reply
stub_get_error = answers ((line "glGetError" []) ∷ []) (number 0) []

unfoldable pub stub_get_floatv : ℕ → ℕ → Reply
stub_get_floatv pname params =
    answers ((line "glGetFloatv" (uint "pname" pname ∷ addr "params" params ∷ [])) ∷ []) nothing (
      if pname == 0x846D
      then store params 0 one_bits ∷ store params 1 eight_bits ∷ []
      else (if pname == 0x846E
          then store params 0 one_bits ∷ store params 1 one_bits ∷ []
          else store params 0 0 ∷ []))

-- The cases of the `switch` that write one integer; the others write 0.
abbrev pub integers : List (ℕ × ℕ)
integers =
    (0x8DFA, 1)
    ∷ (0x8DF9, 0)
    ∷ (0x8DFB, 128)
    ∷ (0x8DFC, 15)
    ∷ (0x8DFD, 16)
    ∷ (0x0D33, 4096)
    ∷ (0x851C, 4096)
    ∷ (0x8869, 16)
    ∷ (0x8872, 16)
    ∷ (0x8B4D, 16)
    ∷ (0x8B4C, 8)
    ∷ (0x8CDF, 1)
    ∷ (0x84E8, 4096)
    ∷ (0x0D3A, 1)
    ∷ (0x8B9A, 0x1401)
    ∷ (0x8B9B, 0x1908)
    ∷ []

unfoldable pub stub_get_integerv : ℕ → ℕ → Reply
stub_get_integerv pname params =
    answers ((line "glGetIntegerv" (uint "pname" pname ∷ addr "params" params ∷ [])) ∷ []) nothing (
      if pname == 0x0D32
      then store params 0 4096 ∷ store params 1 4096 ∷ []
      else store params 0 (value_of pname integers) ∷ [])

unfoldable pub stub_get_string : ℕ → Reply
stub_get_string name =
    answers ((line "glGetString" (uint "name" name ∷ [])) ∷ [])
      (text (
        if name == 0x1F00
        then "StubVendor"
        else (if name == 0x1F01
            then "StubRenderer"
            else (if name == 0x1F02
                then "OpenGL ES 2.0"
                else (if name == 0x8B8C
                    then "OpenGL ES GLSL ES 1.00"
                    else (if name == 0x1F03 then "" else ""))))))
      []

unfoldable pub stub_is_enabled : ℕ → Reply
stub_is_enabled cap = answers ((line "glIsEnabled" (uint "cap" cap ∷ [])) ∷ []) (number 0) []

-- The entry points as data, and what a call does.
pub data QueryEntry : Type 0 where
  finish : QueryEntry
  flush : QueryEntry
  get_booleanv : ℕ → ℕ → QueryEntry
  get_error : QueryEntry
  get_floatv : ℕ → ℕ → QueryEntry
  get_integerv : ℕ → ℕ → QueryEntry
  get_string : ℕ → QueryEntry
  is_enabled : ℕ → QueryEntry

unfoldable pub query_reply : QueryEntry → GlStub → Reply × GlStub
query_reply finish s = (stub_finish, s)
query_reply flush s = (stub_flush, s)
query_reply (get_booleanv pname params) s = (stub_get_booleanv pname params, s)
query_reply get_error s = (stub_get_error, s)
query_reply (get_floatv pname params) s = (stub_get_floatv pname params, s)
query_reply (get_integerv pname params) s = (stub_get_integerv pname params, s)
query_reply (get_string name) s = (stub_get_string name, s)
query_reply (is_enabled cap) s = (stub_is_enabled cap, s)
