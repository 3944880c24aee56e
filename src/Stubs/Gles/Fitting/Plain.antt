-- ===== src/Stubs/Gles/Fitting/Plain.antt =====
-- The entry points of guest/shim/src/libGLESv2_stub.c that keep the static variables.
use vw_firmware_mac.Stubs.Names.{GlStub}
use vw_firmware_mac.Stubs.Gles.Effect.{keeps}
use vw_firmware_mac.Stubs.Gles.Attributes.{
  AttributeEntry, attribute_reply, disable_vertex_attrib_array, enable_vertex_attrib_array,
  get_vertex_attribfv, get_vertex_attribiv, get_vertex_attrib_pointerv, vertex_attrib1f,
  vertex_attrib1fv, vertex_attrib2f, vertex_attrib2fv, vertex_attrib3f, vertex_attrib3fv,
  vertex_attrib4f, vertex_attrib4fv, vertex_attrib_pointer, stub_vertex_attrib_pointer,
}
use vw_firmware_mac.Stubs.Gles.Queries.{
  QueryEntry, query_reply, finish, flush, get_booleanv, get_error, get_floatv, get_integerv,
  get_string, is_enabled,
}
use vw_firmware_mac.Stubs.Gles.Drawing.{
  DrawEntry, draw_reply, clear, clear_color, clear_depthf, clear_stencil, disable, draw_arrays,
  draw_elements, enable, hint, line_width, scissor, viewport,
}
use vw_firmware_mac.Stubs.Gles.Raster.{
  RasterEntry, raster_reply, blend_color, blend_equation, blend_equation_separate, blend_func,
  blend_func_separate, color_mask, cull_face, depth_func, depth_mask, depth_rangef, front_face,
  polygon_offset, sample_coverage, stencil_func, stencil_func_separate, stencil_mask,
  stencil_mask_separate, stencil_op, stencil_op_separate,
}
use vw_firmware_mac.Stubs.Gles.Fitting.{Fits, plain}

pub attribute_reply-Fits :
    (entry : AttributeEntry) (s : GlStub) → Fits (keeps) s (attribute_reply entry s)
unfolding attribute_reply stub_vertex_attrib_pointer
attribute_reply-Fits (disable_vertex_attrib_array a) s = plain _ s
attribute_reply-Fits (enable_vertex_attrib_array a) s = plain _ s
attribute_reply-Fits (get_vertex_attribfv a b c) s = plain _ s
attribute_reply-Fits (get_vertex_attribiv a b c) s = plain _ s
attribute_reply-Fits (get_vertex_attrib_pointerv a b c) s = plain _ s
attribute_reply-Fits (vertex_attrib1f a b) s = plain _ s
attribute_reply-Fits (vertex_attrib1fv a b) s = plain _ s
attribute_reply-Fits (vertex_attrib2f a b c) s = plain _ s
attribute_reply-Fits (vertex_attrib2fv a b) s = plain _ s
attribute_reply-Fits (vertex_attrib3f a b c d) s = plain _ s
attribute_reply-Fits (vertex_attrib3fv a b) s = plain _ s
attribute_reply-Fits (vertex_attrib4f a b c d e) s = plain _ s
attribute_reply-Fits (vertex_attrib4fv a b) s = plain _ s
attribute_reply-Fits (vertex_attrib_pointer a b c d e f) s = plain _ s

pub query_reply-Fits : (entry : QueryEntry) (s : GlStub) → Fits (keeps) s (query_reply entry s)
unfolding query_reply
query_reply-Fits finish s = plain _ s
query_reply-Fits flush s = plain _ s
query_reply-Fits (get_booleanv a b) s = plain _ s
query_reply-Fits get_error s = plain _ s
query_reply-Fits (get_floatv a b) s = plain _ s
query_reply-Fits (get_integerv a b) s = plain _ s
query_reply-Fits (get_string a) s = plain _ s
query_reply-Fits (is_enabled a) s = plain _ s

pub draw_reply-Fits : (entry : DrawEntry) (s : GlStub) → Fits (keeps) s (draw_reply entry s)
unfolding draw_reply
draw_reply-Fits (clear a) s = plain _ s
draw_reply-Fits (clear_color a b c d) s = plain _ s
draw_reply-Fits (clear_depthf a) s = plain _ s
draw_reply-Fits (clear_stencil a) s = plain _ s
draw_reply-Fits (disable a) s = plain _ s
draw_reply-Fits (draw_arrays a b c) s = plain _ s
draw_reply-Fits (draw_elements a b c d) s = plain _ s
draw_reply-Fits (enable a) s = plain _ s
draw_reply-Fits (hint a b) s = plain _ s
draw_reply-Fits (line_width a) s = plain _ s
draw_reply-Fits (scissor a b c d) s = plain _ s
draw_reply-Fits (viewport a b c d) s = plain _ s

pub raster_reply-Fits : (entry : RasterEntry) (s : GlStub) → Fits (keeps) s (raster_reply entry s)
unfolding raster_reply
raster_reply-Fits (blend_color a b c d) s = plain _ s
raster_reply-Fits (blend_equation a) s = plain _ s
raster_reply-Fits (blend_equation_separate a b) s = plain _ s
raster_reply-Fits (blend_func a b) s = plain _ s
raster_reply-Fits (blend_func_separate a b c d) s = plain _ s
raster_reply-Fits (color_mask a b c d) s = plain _ s
raster_reply-Fits (cull_face a) s = plain _ s
raster_reply-Fits (depth_func a) s = plain _ s
raster_reply-Fits (depth_mask a) s = plain _ s
raster_reply-Fits (depth_rangef a b) s = plain _ s
raster_reply-Fits (front_face a) s = plain _ s
raster_reply-Fits (polygon_offset a b) s = plain _ s
raster_reply-Fits (sample_coverage a b) s = plain _ s
raster_reply-Fits (stencil_func a b c) s = plain _ s
raster_reply-Fits (stencil_func_separate a b c d) s = plain _ s
raster_reply-Fits (stencil_mask a) s = plain _ s
raster_reply-Fits (stencil_mask_separate a b) s = plain _ s
raster_reply-Fits (stencil_op a b c) s = plain _ s
raster_reply-Fits (stencil_op_separate a b c d) s = plain _ s
