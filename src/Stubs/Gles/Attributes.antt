-- ===== src/Stubs/Gles/Attributes.antt =====
-- Vertex attributes of guest/shim/src/libGLESv2_stub.c: each entry point, under its name, and what it logs.
use vw_firmware_mac.Base.{ℕ, [], ◌∷◌}
use vw_firmware_mac.Stubs.Log.{uint, sint, real, addr, line, nothing, store, Reply, answers}
use vw_firmware_mac.Stubs.Names.{GlStub}

unfoldable pub stub_disable_vertex_attrib_array : ℕ → Reply
stub_disable_vertex_attrib_array index =
    answers ((line "glDisableVertexAttribArray" (uint "index" index ∷ [])) ∷ []) nothing []

unfoldable pub stub_enable_vertex_attrib_array : ℕ → Reply
stub_enable_vertex_attrib_array index =
    answers ((line "glEnableVertexAttribArray" (uint "index" index ∷ [])) ∷ []) nothing []

unfoldable pub stub_get_vertex_attribfv : ℕ → ℕ → ℕ → Reply
stub_get_vertex_attribfv index pname params =
    answers
      ((line "glGetVertexAttribfv"
          (uint "index" index ∷ uint "pname" pname ∷ addr "params" params ∷ []))
        ∷ [])
      nothing (store params 0 0 ∷ [])

unfoldable pub stub_get_vertex_attribiv : ℕ → ℕ → ℕ → Reply
stub_get_vertex_attribiv index pname params =
    answers
      ((line "glGetVertexAttribiv"
          (uint "index" index ∷ uint "pname" pname ∷ addr "params" params ∷ []))
        ∷ [])
      nothing (store params 0 0 ∷ [])

unfoldable pub stub_get_vertex_attrib_pointerv : ℕ → ℕ → ℕ → Reply
stub_get_vertex_attrib_pointerv index pname pointer =
    answers
      ((line "glGetVertexAttribPointerv"
          (uint "index" index ∷ uint "pname" pname ∷ addr "pointer" pointer ∷ []))
        ∷ [])
      nothing (store pointer 0 0 ∷ [])

unfoldable pub stub_vertex_attrib1f : ℕ → ℕ → Reply
stub_vertex_attrib1f index x =
    answers ((line "glVertexAttrib1f" (uint "indx" index ∷ real "x" x ∷ [])) ∷ []) nothing []

unfoldable pub stub_vertex_attrib1fv : ℕ → ℕ → Reply
stub_vertex_attrib1fv index values =
    answers ((line "glVertexAttrib1fv" (uint "indx" index ∷ addr "values" values ∷ [])) ∷ [])
      nothing []

unfoldable pub stub_vertex_attrib2f : ℕ → ℕ → ℕ → Reply
stub_vertex_attrib2f index x y =
    answers ((line "glVertexAttrib2f" (uint "indx" index ∷ real "x" x ∷ real "y" y ∷ [])) ∷ [])
      nothing []

unfoldable pub stub_vertex_attrib2fv : ℕ → ℕ → Reply
stub_vertex_attrib2fv index values =
    answers ((line "glVertexAttrib2fv" (uint "indx" index ∷ addr "values" values ∷ [])) ∷ [])
      nothing []

unfoldable pub stub_vertex_attrib3f : ℕ → ℕ → ℕ → ℕ → Reply
stub_vertex_attrib3f index x y z =
    answers
      ((line "glVertexAttrib3f" (uint "indx" index ∷ real "x" x ∷ real "y" y ∷ real "z" z ∷ []))
        ∷ [])
      nothing []

unfoldable pub stub_vertex_attrib3fv : ℕ → ℕ → Reply
stub_vertex_attrib3fv index values =
    answers ((line "glVertexAttrib3fv" (uint "indx" index ∷ addr "values" values ∷ [])) ∷ [])
      nothing []

unfoldable pub stub_vertex_attrib4f : ℕ → ℕ → ℕ → ℕ → ℕ → Reply
stub_vertex_attrib4f index x y z w =
    answers
      ((line "glVertexAttrib4f"
          (uint "indx" index ∷ real "x" x ∷ real "y" y ∷ real "z" z ∷ real "w" w ∷ []))
        ∷ [])
      nothing []

unfoldable pub stub_vertex_attrib4fv : ℕ → ℕ → Reply
stub_vertex_attrib4fv index values =
    answers ((line "glVertexAttrib4fv" (uint "indx" index ∷ addr "values" values ∷ [])) ∷ [])
      nothing []

unfoldable pub stub_vertex_attrib_pointer : ℕ → ℕ → ℕ → ℕ → ℕ → ℕ → GlStub → Reply × GlStub
stub_vertex_attrib_pointer index size kind normalized stride ptr s = (
  answers
      ((line "glVertexAttribPointer" (
          uint "indx" index
          ∷ sint "size" size
          ∷ uint "type" kind
          ∷ sint "normalized" normalized
          ∷ sint "stride" stride
          ∷ addr "ptr" ptr
          ∷ []))
        ∷ line "  attrib" (uint "" index ∷ uint "bound array buffer" s.array_buffer ∷ [])
        ∷ [])
      nothing [],
  s,
)

-- The entry points as data, and what a call does.
pub data AttributeEntry : Type 0 where
  disable_vertex_attrib_array : ℕ → AttributeEntry
  enable_vertex_attrib_array : ℕ → AttributeEntry
  get_vertex_attribfv : ℕ → ℕ → ℕ → AttributeEntry
  get_vertex_attribiv : ℕ → ℕ → ℕ → AttributeEntry
  get_vertex_attrib_pointerv : ℕ → ℕ → ℕ → AttributeEntry
  vertex_attrib1f : ℕ → ℕ → AttributeEntry
  vertex_attrib1fv : ℕ → ℕ → AttributeEntry
  vertex_attrib2f : ℕ → ℕ → ℕ → AttributeEntry
  vertex_attrib2fv : ℕ → ℕ → AttributeEntry
  vertex_attrib3f : ℕ → ℕ → ℕ → ℕ → AttributeEntry
  vertex_attrib3fv : ℕ → ℕ → AttributeEntry
  vertex_attrib4f : ℕ → ℕ → ℕ → ℕ → ℕ → AttributeEntry
  vertex_attrib4fv : ℕ → ℕ → AttributeEntry
  vertex_attrib_pointer : ℕ → ℕ → ℕ → ℕ → ℕ → ℕ → AttributeEntry

unfoldable pub attribute_reply : AttributeEntry → GlStub → Reply × GlStub
attribute_reply (disable_vertex_attrib_array index) s = (stub_disable_vertex_attrib_array index, s)
attribute_reply (enable_vertex_attrib_array index) s = (stub_enable_vertex_attrib_array index, s)
attribute_reply (get_vertex_attribfv index pname params) s =
    (stub_get_vertex_attribfv index pname params, s)
attribute_reply (get_vertex_attribiv index pname params) s =
    (stub_get_vertex_attribiv index pname params, s)
attribute_reply (get_vertex_attrib_pointerv index pname pointer) s =
    (stub_get_vertex_attrib_pointerv index pname pointer, s)
attribute_reply (vertex_attrib1f index x) s = (stub_vertex_attrib1f index x, s)
attribute_reply (vertex_attrib1fv index values) s = (stub_vertex_attrib1fv index values, s)
attribute_reply (vertex_attrib2f index x y) s = (stub_vertex_attrib2f index x y, s)
attribute_reply (vertex_attrib2fv index values) s = (stub_vertex_attrib2fv index values, s)
attribute_reply (vertex_attrib3f index x y z) s = (stub_vertex_attrib3f index x y z, s)
attribute_reply (vertex_attrib3fv index values) s = (stub_vertex_attrib3fv index values, s)
attribute_reply (vertex_attrib4f index x y z w) s = (stub_vertex_attrib4f index x y z w, s)
attribute_reply (vertex_attrib4fv index values) s = (stub_vertex_attrib4fv index values, s)
attribute_reply (vertex_attrib_pointer index size kind normalized stride ptr) s =
    stub_vertex_attrib_pointer index size kind normalized stride ptr s
