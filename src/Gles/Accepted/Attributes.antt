-- ===== src/Gles/Accepted/Attributes.antt =====
-- The host accepts what the entry points of Gles/Attributes.antt send.
use vw_firmware_mac.Base.{refl, ◌==◌, ◌&&◌, not, if◌then◌else◌}
use vw_firmware_mac.Gles.Accepted.Check.{
  Outcome, refused, served, IsServed, IsServed-if, checks, outcome_of,
}
use vw_firmware_mac.Gles.Attributes.{
  AttributeCall, attribute_command, attribute_operation, disable_vertex_attrib_array,
  enable_vertex_attrib_array, get_vertex_attribfv, get_vertex_attribiv, get_vertex_attrib_pointerv,
  vertex_attrib1f, vertex_attrib1fv, vertex_attrib2f, vertex_attrib2fv, vertex_attrib3f,
  vertex_attrib3fv, vertex_attrib4f, vertex_attrib4fv, vertex_attrib_pointer,
}
use vw_firmware_mac.Gles.Command.{Bridge}
use vw_firmware_mac.Rpc.Client.{invalid_operation}

-- `glVertexAttribPointer` is also refused for client memory: no array buffer is bound, and the pointer
-- is not null.
unfoldable pub attribute_outcome : Bridge → AttributeCall → Outcome
unfolding outcome_of
attribute_outcome bridge (vertex_attrib_pointer _ _ _ _ _ pointer) =
    if bridge.array_buffer == 0 && not (pointer == 0) then refused invalid_operation else served
attribute_outcome bridge c = outcome_of (attribute_operation c)

pub attribute_command-IsServed :
    (bridge : Bridge) (c : AttributeCall)
    → IsServed (attribute_operation c) (attribute_outcome bridge c) (attribute_command bridge c)
unfolding checks outcome_of attribute_outcome attribute_command attribute_operation
attribute_command-IsServed bridge (disable_vertex_attrib_array a0) = (refl, refl)
attribute_command-IsServed bridge (enable_vertex_attrib_array a0) = (refl, refl)
attribute_command-IsServed bridge (get_vertex_attribfv a0 a1 a2) = refl
attribute_command-IsServed bridge (get_vertex_attribiv a0 a1 a2) = refl
attribute_command-IsServed bridge (get_vertex_attrib_pointerv a0 a1 a2) = refl
attribute_command-IsServed bridge (vertex_attrib1f a0 a1) = (refl, refl)
attribute_command-IsServed bridge (vertex_attrib1fv a0 a1) = (refl, refl)
attribute_command-IsServed bridge (vertex_attrib2f a0 a1 a2) = (refl, refl)
attribute_command-IsServed bridge (vertex_attrib2fv a0 a1) = (refl, refl)
attribute_command-IsServed bridge (vertex_attrib3f a0 a1 a2 a3) = (refl, refl)
attribute_command-IsServed bridge (vertex_attrib3fv a0 a1) = (refl, refl)
attribute_command-IsServed bridge (vertex_attrib4f a0 a1 a2 a3 a4) = (refl, refl)
attribute_command-IsServed bridge (vertex_attrib4fv a0 a1) = (refl, refl)
attribute_command-IsServed bridge (vertex_attrib_pointer a0 a1 a2 a3 a4 a5) =
    IsServed-if (bridge.array_buffer == 0 && not (a5 == 0)) 141 _ _ _ _ refl (refl, refl)
