-- ===== src/Gles/Attributes.antt =====
-- Vertex attributes: entry points of guest/shim/src/libGLESv2_bridge.c.
use vw_firmware_mac.Base.{ℕ, [], ◌∷◌, not}
use vw_firmware_mac.Base.{◌==◌, ◌&&◌, if◌then◌else◌}
use vw_firmware_mac.Rpc.Client.{invalid_operation}
use vw_firmware_mac.Gles.Command.{Memory, Command, call, refuse, nothing}
use vw_firmware_mac.Gles.Command.{scalar_word, scalar_byte, input}
use vw_firmware_mac.Gles.Command.{Bridge}

-- glDisableVertexAttribArray
unfoldable pub gl_disable_vertex_attrib_array : ℕ → Command
gl_disable_vertex_attrib_array index = call nothing 40 ((scalar_word index) ∷ [])

-- glEnableVertexAttribArray
unfoldable pub gl_enable_vertex_attrib_array : ℕ → Command
gl_enable_vertex_attrib_array index = call nothing 44 ((scalar_word index) ∷ [])

-- glGetVertexAttribfv
unfoldable pub gl_get_vertex_attribfv : ℕ → ℕ → Memory → Command
gl_get_vertex_attribfv index pname params = refuse invalid_operation

-- glGetVertexAttribiv
unfoldable pub gl_get_vertex_attribiv : ℕ → ℕ → Memory → Command
gl_get_vertex_attribiv index pname params = refuse invalid_operation

-- glGetVertexAttribPointerv
unfoldable pub gl_get_vertex_attrib_pointerv : ℕ → ℕ → Memory → Command
gl_get_vertex_attrib_pointerv index pname pointer = refuse invalid_operation

-- glVertexAttrib1f
unfoldable pub gl_vertex_attrib1f : ℕ → ℕ → Command
gl_vertex_attrib1f index x = call nothing 133 ((scalar_word index) ∷ (scalar_word x) ∷ [])

-- glVertexAttrib1fv
unfoldable pub gl_vertex_attrib1fv : ℕ → Memory → Command
gl_vertex_attrib1fv index values = call nothing 134 ((scalar_word index) ∷ (input values 4) ∷ [])

-- glVertexAttrib2f
unfoldable pub gl_vertex_attrib2f : ℕ → ℕ → ℕ → Command
gl_vertex_attrib2f index x y =
    call nothing 135 ((scalar_word index) ∷ (scalar_word x) ∷ (scalar_word y) ∷ [])

-- glVertexAttrib2fv
unfoldable pub gl_vertex_attrib2fv : ℕ → Memory → Command
gl_vertex_attrib2fv index values = call nothing 136 ((scalar_word index) ∷ (input values 8) ∷ [])

-- glVertexAttrib3f
unfoldable pub gl_vertex_attrib3f : ℕ → ℕ → ℕ → ℕ → Command
gl_vertex_attrib3f index x y z =
    call nothing 137
      ((scalar_word index) ∷ (scalar_word x) ∷ (scalar_word y) ∷ (scalar_word z) ∷ [])

-- glVertexAttrib3fv
unfoldable pub gl_vertex_attrib3fv : ℕ → Memory → Command
gl_vertex_attrib3fv index values = call nothing 138 ((scalar_word index) ∷ (input values 12) ∷ [])

-- glVertexAttrib4f
unfoldable pub gl_vertex_attrib4f : ℕ → ℕ → ℕ → ℕ → ℕ → Command
gl_vertex_attrib4f index x y z w = call nothing 139 (
    (scalar_word index)
    ∷ (scalar_word x)
    ∷ (scalar_word y)
    ∷ (scalar_word z)
    ∷ (scalar_word w)
    ∷ [])

-- glVertexAttrib4fv
unfoldable pub gl_vertex_attrib4fv : ℕ → Memory → Command
gl_vertex_attrib4fv index values = call nothing 140 ((scalar_word index) ∷ (input values 16) ∷ [])

-- glVertexAttribPointer: client memory is refused; `ptr` is an offset into the bound buffer.
unfoldable pub gl_vertex_attrib_pointer : Bridge → ℕ → ℕ → ℕ → ℕ → ℕ → ℕ → Command
gl_vertex_attrib_pointer s index size kind normalized stride ptr =
    if s.array_buffer == 0 && not (ptr == 0)
    then refuse invalid_operation
    else call nothing 141 (
        scalar_word index
        ∷ scalar_word size
        ∷ scalar_word kind
        ∷ scalar_byte normalized
        ∷ scalar_word stride
        ∷ scalar_word ptr
        ∷ [])

-- A call of one of these entry points, with its arguments.
pub data AttributeCall : Type 0 where
  disable_vertex_attrib_array : ℕ → AttributeCall
  enable_vertex_attrib_array : ℕ → AttributeCall
  get_vertex_attribfv : ℕ → ℕ → Memory → AttributeCall
  get_vertex_attribiv : ℕ → ℕ → Memory → AttributeCall
  get_vertex_attrib_pointerv : ℕ → ℕ → Memory → AttributeCall
  vertex_attrib1f : ℕ → ℕ → AttributeCall
  vertex_attrib1fv : ℕ → Memory → AttributeCall
  vertex_attrib2f : ℕ → ℕ → ℕ → AttributeCall
  vertex_attrib2fv : ℕ → Memory → AttributeCall
  vertex_attrib3f : ℕ → ℕ → ℕ → ℕ → AttributeCall
  vertex_attrib3fv : ℕ → Memory → AttributeCall
  vertex_attrib4f : ℕ → ℕ → ℕ → ℕ → ℕ → AttributeCall
  vertex_attrib4fv : ℕ → Memory → AttributeCall
  vertex_attrib_pointer : ℕ → ℕ → ℕ → ℕ → ℕ → ℕ → AttributeCall

-- The number of the operation: the place of the entry point in the file.
unfoldable pub attribute_operation : AttributeCall → ℕ
attribute_operation (disable_vertex_attrib_array _) = 40
attribute_operation (enable_vertex_attrib_array _) = 44
attribute_operation (get_vertex_attribfv _ _ _) = 78
attribute_operation (get_vertex_attribiv _ _ _) = 79
attribute_operation (get_vertex_attrib_pointerv _ _ _) = 80
attribute_operation (vertex_attrib1f _ _) = 133
attribute_operation (vertex_attrib1fv _ _) = 134
attribute_operation (vertex_attrib2f _ _ _) = 135
attribute_operation (vertex_attrib2fv _ _) = 136
attribute_operation (vertex_attrib3f _ _ _ _) = 137
attribute_operation (vertex_attrib3fv _ _) = 138
attribute_operation (vertex_attrib4f _ _ _ _ _) = 139
attribute_operation (vertex_attrib4fv _ _) = 140
attribute_operation (vertex_attrib_pointer _ _ _ _ _ _) = 141

unfoldable pub attribute_command : Bridge → AttributeCall → Command
unfolding gl_disable_vertex_attrib_array gl_enable_vertex_attrib_array gl_get_vertex_attribfv
    gl_get_vertex_attribiv gl_get_vertex_attrib_pointerv gl_vertex_attrib1f gl_vertex_attrib1fv
    gl_vertex_attrib2f gl_vertex_attrib2fv gl_vertex_attrib3f gl_vertex_attrib3fv gl_vertex_attrib4f
    gl_vertex_attrib4fv gl_vertex_attrib_pointer
attribute_command bridge (disable_vertex_attrib_array index) = gl_disable_vertex_attrib_array index
attribute_command bridge (enable_vertex_attrib_array index) = gl_enable_vertex_attrib_array index
attribute_command bridge (get_vertex_attribfv index pname params) =
    gl_get_vertex_attribfv index pname params
attribute_command bridge (get_vertex_attribiv index pname params) =
    gl_get_vertex_attribiv index pname params
attribute_command bridge (get_vertex_attrib_pointerv index pname pointer) =
    gl_get_vertex_attrib_pointerv index pname pointer
attribute_command bridge (vertex_attrib1f index x) = gl_vertex_attrib1f index x
attribute_command bridge (vertex_attrib1fv index values) = gl_vertex_attrib1fv index values
attribute_command bridge (vertex_attrib2f index x y) = gl_vertex_attrib2f index x y
attribute_command bridge (vertex_attrib2fv index values) = gl_vertex_attrib2fv index values
attribute_command bridge (vertex_attrib3f index x y z) = gl_vertex_attrib3f index x y z
attribute_command bridge (vertex_attrib3fv index values) = gl_vertex_attrib3fv index values
attribute_command bridge (vertex_attrib4f index x y z w) = gl_vertex_attrib4f index x y z w
attribute_command bridge (vertex_attrib4fv index values) = gl_vertex_attrib4fv index values
attribute_command bridge (vertex_attrib_pointer index size kind normalized stride ptr) =
    gl_vertex_attrib_pointer bridge index size kind normalized stride ptr
