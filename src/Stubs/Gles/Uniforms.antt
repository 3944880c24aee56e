-- ===== src/Stubs/Gles/Uniforms.antt =====
-- Uniforms of guest/shim/src/libGLESv2_stub.c: each entry point, under its name, and what it logs.
use vw_firmware_mac.Base.{ℕ, ◌+◌, [], ◌∷◌}
use vw_firmware_mac.Stubs.Log.{uint, sint, real, addr, line, nothing, number, store, Reply, answers}
use vw_firmware_mac.Stubs.Names.{GlStub}

unfoldable pub stub_get_uniformfv : ℕ → ℕ → ℕ → Reply
stub_get_uniformfv program location params =
    answers
      ((line "glGetUniformfv"
          (uint "program" program ∷ sint "location" location ∷ addr "params" params ∷ []))
        ∷ [])
      nothing (store params 0 0 ∷ [])

unfoldable pub stub_get_uniformiv : ℕ → ℕ → ℕ → Reply
stub_get_uniformiv program location params =
    answers
      ((line "glGetUniformiv"
          (uint "program" program ∷ sint "location" location ∷ addr "params" params ∷ []))
        ∷ [])
      nothing (store params 0 0 ∷ [])

unfoldable pub stub_get_uniform_location : ℕ → ℕ → GlStub → Reply × GlStub
stub_get_uniform_location program name s = (
  answers ((line "glGetUniformLocation" (uint "program" program ∷ addr "name" name ∷ [])) ∷ [])
      (number s.uniforms) [],
  record s { uniforms = s.uniforms + 1 },
)

unfoldable pub stub_uniform1f : ℕ → ℕ → Reply
stub_uniform1f location x =
    answers ((line "glUniform1f" (sint "location" location ∷ real "x" x ∷ [])) ∷ []) nothing []

unfoldable pub stub_uniform1fv : ℕ → ℕ → ℕ → Reply
stub_uniform1fv location count v =
    answers
      ((line "glUniform1fv" (sint "location" location ∷ sint "count" count ∷ addr "v" v ∷ [])) ∷ [])
      nothing []

unfoldable pub stub_uniform1i : ℕ → ℕ → Reply
stub_uniform1i location x =
    answers ((line "glUniform1i" (sint "location" location ∷ sint "x" x ∷ [])) ∷ []) nothing []

unfoldable pub stub_uniform1iv : ℕ → ℕ → ℕ → Reply
stub_uniform1iv location count v =
    answers
      ((line "glUniform1iv" (sint "location" location ∷ sint "count" count ∷ addr "v" v ∷ [])) ∷ [])
      nothing []

unfoldable pub stub_uniform2f : ℕ → ℕ → ℕ → Reply
stub_uniform2f location x y =
    answers ((line "glUniform2f" (sint "location" location ∷ real "x" x ∷ real "y" y ∷ [])) ∷ [])
      nothing []

unfoldable pub stub_uniform2fv : ℕ → ℕ → ℕ → Reply
stub_uniform2fv location count v =
    answers
      ((line "glUniform2fv" (sint "location" location ∷ sint "count" count ∷ addr "v" v ∷ [])) ∷ [])
      nothing []

unfoldable pub stub_uniform2i : ℕ → ℕ → ℕ → Reply
stub_uniform2i location x y =
    answers ((line "glUniform2i" (sint "location" location ∷ sint "x" x ∷ sint "y" y ∷ [])) ∷ [])
      nothing []

unfoldable pub stub_uniform2iv : ℕ → ℕ → ℕ → Reply
stub_uniform2iv location count v =
    answers
      ((line "glUniform2iv" (sint "location" location ∷ sint "count" count ∷ addr "v" v ∷ [])) ∷ [])
      nothing []

unfoldable pub stub_uniform3f : ℕ → ℕ → ℕ → ℕ → Reply
stub_uniform3f location x y z =
    answers
      ((line "glUniform3f" (sint "location" location ∷ real "x" x ∷ real "y" y ∷ real "z" z ∷ []))
        ∷ [])
      nothing []

unfoldable pub stub_uniform3fv : ℕ → ℕ → ℕ → Reply
stub_uniform3fv location count v =
    answers
      ((line "glUniform3fv" (sint "location" location ∷ sint "count" count ∷ addr "v" v ∷ [])) ∷ [])
      nothing []

unfoldable pub stub_uniform3i : ℕ → ℕ → ℕ → ℕ → Reply
stub_uniform3i location x y z =
    answers
      ((line "glUniform3i" (sint "location" location ∷ sint "x" x ∷ sint "y" y ∷ sint "z" z ∷ []))
        ∷ [])
      nothing []

unfoldable pub stub_uniform3iv : ℕ → ℕ → ℕ → Reply
stub_uniform3iv location count v =
    answers
      ((line "glUniform3iv" (sint "location" location ∷ sint "count" count ∷ addr "v" v ∷ [])) ∷ [])
      nothing []

unfoldable pub stub_uniform4f : ℕ → ℕ → ℕ → ℕ → ℕ → Reply
stub_uniform4f location x y z w =
    answers
      ((line "glUniform4f"
          (sint "location" location ∷ real "x" x ∷ real "y" y ∷ real "z" z ∷ real "w" w ∷ []))
        ∷ [])
      nothing []

unfoldable pub stub_uniform4fv : ℕ → ℕ → ℕ → Reply
stub_uniform4fv location count v =
    answers
      ((line "glUniform4fv" (sint "location" location ∷ sint "count" count ∷ addr "v" v ∷ [])) ∷ [])
      nothing []

unfoldable pub stub_uniform4i : ℕ → ℕ → ℕ → ℕ → ℕ → Reply
stub_uniform4i location x y z w =
    answers
      ((line "glUniform4i"
          (sint "location" location ∷ sint "x" x ∷ sint "y" y ∷ sint "z" z ∷ sint "w" w ∷ []))
        ∷ [])
      nothing []

unfoldable pub stub_uniform4iv : ℕ → ℕ → ℕ → Reply
stub_uniform4iv location count v =
    answers
      ((line "glUniform4iv" (sint "location" location ∷ sint "count" count ∷ addr "v" v ∷ [])) ∷ [])
      nothing []

unfoldable pub stub_uniform_matrix2fv : ℕ → ℕ → ℕ → ℕ → Reply
stub_uniform_matrix2fv location count transpose value =
    answers
      ((line "glUniformMatrix2fv" (
          sint "location" location
          ∷ sint "count" count
          ∷ sint "transpose" transpose
          ∷ addr "value" value
          ∷ []))
        ∷ [])
      nothing []

unfoldable pub stub_uniform_matrix3fv : ℕ → ℕ → ℕ → ℕ → Reply
stub_uniform_matrix3fv location count transpose value =
    answers
      ((line "glUniformMatrix3fv" (
          sint "location" location
          ∷ sint "count" count
          ∷ sint "transpose" transpose
          ∷ addr "value" value
          ∷ []))
        ∷ [])
      nothing []

unfoldable pub stub_uniform_matrix4fv : ℕ → ℕ → ℕ → ℕ → Reply
stub_uniform_matrix4fv location count transpose value =
    answers
      ((line "glUniformMatrix4fv" (
          sint "location" location
          ∷ sint "count" count
          ∷ sint "transpose" transpose
          ∷ addr "value" value
          ∷ []))
        ∷ [])
      nothing []

-- The entry points as data, and what a call does.
pub data UniformEntry : Type 0 where
  get_uniformfv : ℕ → ℕ → ℕ → UniformEntry
  get_uniformiv : ℕ → ℕ → ℕ → UniformEntry
  get_uniform_location : ℕ → ℕ → UniformEntry
  uniform1f : ℕ → ℕ → UniformEntry
  uniform1fv : ℕ → ℕ → ℕ → UniformEntry
  uniform1i : ℕ → ℕ → UniformEntry
  uniform1iv : ℕ → ℕ → ℕ → UniformEntry
  uniform2f : ℕ → ℕ → ℕ → UniformEntry
  uniform2fv : ℕ → ℕ → ℕ → UniformEntry
  uniform2i : ℕ → ℕ → ℕ → UniformEntry
  uniform2iv : ℕ → ℕ → ℕ → UniformEntry
  uniform3f : ℕ → ℕ → ℕ → ℕ → UniformEntry
  uniform3fv : ℕ → ℕ → ℕ → UniformEntry
  uniform3i : ℕ → ℕ → ℕ → ℕ → UniformEntry
  uniform3iv : ℕ → ℕ → ℕ → UniformEntry
  uniform4f : ℕ → ℕ → ℕ → ℕ → ℕ → UniformEntry
  uniform4fv : ℕ → ℕ → ℕ → UniformEntry
  uniform4i : ℕ → ℕ → ℕ → ℕ → ℕ → UniformEntry
  uniform4iv : ℕ → ℕ → ℕ → UniformEntry
  uniform_matrix2fv : ℕ → ℕ → ℕ → ℕ → UniformEntry
  uniform_matrix3fv : ℕ → ℕ → ℕ → ℕ → UniformEntry
  uniform_matrix4fv : ℕ → ℕ → ℕ → ℕ → UniformEntry

unfoldable pub uniform_reply : UniformEntry → GlStub → Reply × GlStub
uniform_reply (get_uniformfv program location params) s =
    (stub_get_uniformfv program location params, s)
uniform_reply (get_uniformiv program location params) s =
    (stub_get_uniformiv program location params, s)
uniform_reply (get_uniform_location program name) s = stub_get_uniform_location program name s
uniform_reply (uniform1f location x) s = (stub_uniform1f location x, s)
uniform_reply (uniform1fv location count v) s = (stub_uniform1fv location count v, s)
uniform_reply (uniform1i location x) s = (stub_uniform1i location x, s)
uniform_reply (uniform1iv location count v) s = (stub_uniform1iv location count v, s)
uniform_reply (uniform2f location x y) s = (stub_uniform2f location x y, s)
uniform_reply (uniform2fv location count v) s = (stub_uniform2fv location count v, s)
uniform_reply (uniform2i location x y) s = (stub_uniform2i location x y, s)
uniform_reply (uniform2iv location count v) s = (stub_uniform2iv location count v, s)
uniform_reply (uniform3f location x y z) s = (stub_uniform3f location x y z, s)
uniform_reply (uniform3fv location count v) s = (stub_uniform3fv location count v, s)
uniform_reply (uniform3i location x y z) s = (stub_uniform3i location x y z, s)
uniform_reply (uniform3iv location count v) s = (stub_uniform3iv location count v, s)
uniform_reply (uniform4f location x y z w) s = (stub_uniform4f location x y z w, s)
uniform_reply (uniform4fv location count v) s = (stub_uniform4fv location count v, s)
uniform_reply (uniform4i location x y z w) s = (stub_uniform4i location x y z w, s)
uniform_reply (uniform4iv location count v) s = (stub_uniform4iv location count v, s)
uniform_reply (uniform_matrix2fv location count transpose value) s =
    (stub_uniform_matrix2fv location count transpose value, s)
uniform_reply (uniform_matrix3fv location count transpose value) s =
    (stub_uniform_matrix3fv location count transpose value, s)
uniform_reply (uniform_matrix4fv location count transpose value) s =
    (stub_uniform_matrix4fv location count transpose value, s)
