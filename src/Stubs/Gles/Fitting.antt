-- ===== src/Stubs/Gles/Fitting.antt =====
-- What it means that a call of guest/shim/src/libGLESv2_stub.c has an effect.
pub mod Objects
pub mod Plain
pub mod Calls
use vw_firmware_mac.Base.{
  ℕ, zero, suc, ◌+◌, ◌%◌, ◌^◌, ◌≡◌, refl, sym, ap, ap₂, subst, ◌∙◌, List, [], ◌∷◌, ◌<◌, ◌&&◌,
  Option, none, some, true, false, arith, Bool-cases, inl, inr, ◌==◌, if◌then◌else◌,
}
use vw_firmware_mac.Stubs.Log.{Line, Reply, Write, store, nothing, number, answers}
use vw_firmware_mac.Stubs.Names.{GlStub, names, rounds}
use vw_firmware_mac.Stubs.Gles.{
  GlEntry, gl_reply, textures_entry, uniforms_entry, attributes_entry, framebuffers_entry,
  buffers_entry, shaders_entry, programs_entry, queries_entry, drawing_entry, raster_entry,
}
use vw_firmware_mac.Stubs.Gles.Effect.{
  Family, buffer, framebuffer, renderbuffer, texture, program, shader, next_of, advance, Effect,
  keeps, next_attrib, next_uniform, binds, gives, apply, texture_effect, framebuffer_effect,
  buffer_effect, program_effect, shader_effect, uniform_effect, effect, written, left_at, elements,
  given, numbers,
}
use vw_firmware_mac.Stubs.Gles.Textures.{
  TextureEntry, texture_reply, active_texture, bind_texture, compressed_tex_image_2d,
  compressed_tex_sub_image_2d, copy_tex_image_2d, copy_tex_sub_image_2d, delete_textures,
  generate_mipmap, gen_textures, get_tex_parameterfv, get_tex_parameteriv, is_texture, pixel_storei,
  read_pixels, tex_image_2d, tex_parameterf, tex_parameterfv, tex_parameteri, tex_parameteriv,
  tex_sub_image_2d, stub_gen_textures,
}
use vw_firmware_mac.Stubs.Gles.Uniforms.{
  UniformEntry, uniform_reply, get_uniformfv, get_uniformiv, get_uniform_location, uniform1f,
  uniform1fv, uniform1i, uniform1iv, uniform2f, uniform2fv, uniform2i, uniform2iv, uniform3f,
  uniform3fv, uniform3i, uniform3iv, uniform4f, uniform4fv, uniform4i, uniform4iv,
  uniform_matrix2fv, uniform_matrix3fv, uniform_matrix4fv, stub_get_uniform_location,
}
use vw_firmware_mac.Stubs.Gles.Attributes.{
  AttributeEntry, attribute_reply, disable_vertex_attrib_array, enable_vertex_attrib_array,
  get_vertex_attribfv, get_vertex_attribiv, get_vertex_attrib_pointerv, vertex_attrib1f,
  vertex_attrib1fv, vertex_attrib2f, vertex_attrib2fv, vertex_attrib3f, vertex_attrib3fv,
  vertex_attrib4f, vertex_attrib4fv, vertex_attrib_pointer, stub_vertex_attrib_pointer,
}
use vw_firmware_mac.Stubs.Gles.Framebuffers.{
  FramebufferEntry, framebuffer_reply, bind_framebuffer, bind_renderbuffer,
  check_framebuffer_status, delete_framebuffers, delete_renderbuffers, framebuffer_renderbuffer,
  framebuffer_texture_2d, gen_framebuffers, gen_renderbuffers,
  get_framebuffer_attachment_parameteriv, get_renderbuffer_parameteriv, is_framebuffer,
  is_renderbuffer, renderbuffer_storage, stub_gen_framebuffers, stub_gen_renderbuffers,
}
use vw_firmware_mac.Stubs.Gles.Buffers.{
  BufferEntry, buffer_reply, bind_buffer, buffer_data, buffer_sub_data, delete_buffers, gen_buffers,
  get_buffer_parameteriv, is_buffer, stub_bind_buffer, stub_gen_buffers,
}
use vw_firmware_mac.Stubs.Gles.Shaders.{
  ShaderEntry, shader_reply, attach_shader, compile_shader, create_shader, delete_shader,
  detach_shader, get_attached_shaders, get_shaderiv, get_shader_info_log,
  get_shader_precision_format, get_shader_source, is_shader, release_shader_compiler, shader_binary,
  shader_source, stub_create_shader,
}
use vw_firmware_mac.Stubs.Gles.Programs.{
  ProgramEntry, program_reply, bind_attrib_location, create_program, delete_program,
  get_active_attrib, get_active_uniform, get_attrib_location, get_programiv, get_program_info_log,
  is_program, link_program, use_program, validate_program, program_binary_oes,
  get_program_binary_oes, stub_create_program, stub_get_attrib_location,
}
use vw_firmware_mac.Stubs.Gles.Queries.{
  QueryEntry, query_reply, finish, flush, get_booleanv, get_error, get_floatv, get_integerv,
  get_string, is_enabled,
}
use vw_firmware_mac.Stubs.Gles.Drawing.{
  DrawEntry, draw_reply, clear, clear_color, clear_depthf, clear_stencil, disable, draw_arrays,
  draw_elements, enable, hint, line_width, scissor, viewport,
}
use vw_firmware_mac.Stubs.Gles.Raster.{
  RasterEntry, raster_reply, blend_color, blend_equation, blend_equation_separate, blend_func,
  blend_func_separate, color_mask, cull_face, depth_func, depth_mask, depth_rangef, front_face,
  polygon_offset, sample_coverage, stencil_func, stencil_func_separate, stencil_mask,
  stencil_mask_separate, stencil_op, stencil_op_separate,
}

-- The names in a reply are those of the effect.
abbrev pub Named : Effect → GlStub → Reply → Type 0
Named (gives f p n) s r = given p n r ≡ numbers (next_of f s) n
Named _ s r = Unit

-- A reply and a state that have the effect `e` on `s`.
pub record Fits (e : Effect) (s : GlStub) (r : Reply × GlStub) : Type 0 where
  pub state : r.1 ≡ apply e s
  pub names : Named e s r.0

pub plain : (r : Reply) (s : GlStub) → Fits keeps s (r, s)
unfolding apply
plain r s = record { state = refl; names = tt }

-- An element before those written is not set, and the first write stays.
left_at-names : (p n i j next : ℕ) → j < i → left_at p j (names p n i next) ≡ none
unfolding left_at names written
left_at-names p zero i j next h = refl
left_at-names p (suc n) i j next h =
    rw (left_at-names p n (i + 1) j ((next + 1) % 2 ^ 32) (omega arith)) (ground arith)

left_at-store :
    (p i v : ℕ) (ws : List Write) (j : ℕ) → i < j → left_at p j (store p i v ∷ ws) ≡ left_at p j ws
unfolding left_at written
left_at-store p i v ws j h = ground arith

-- A write in front of the elements does not matter to them.
elements-store :
    (p i v : ℕ) (ws : List Write) (j n : ℕ)
    → i < j
    → elements p j n (store p i v ∷ ws) ≡ elements p j n ws
unfolding elements
elements-store p i v ws j zero h = refl
elements-store p i v ws j (suc n) h =
    ap₂ (λ o rest. elim o [ none ↦ rest | some w ↦ w ∷ rest ]) (left_at-store p i v ws j h)
      (elements-store p i v ws (j + 1) n (omega arith))

elements-names : (p n i next : ℕ) → elements p i n (names p n i next) ≡ numbers next n
unfolding elements left_at names numbers written
elements-names p zero i next = refl
elements-names p (suc n) i next =
    let after = (next + 1) % 2 ^ 32 in
    let here : (p == p && i == i) ≡ true = ground arith in
    rw
      (
        left_at-names p n (i + 1) i after (omega arith),
        here,
        elements-store p i next (names p n (i + 1) after) (i + 1) n (omega arith),
        elements-names p n (i + 1) after,
      )
      refl

-- A loop that writes names, and a return of one.
pub gen-Fits :
    (f : Family) (n p : ℕ) (s : GlStub) (lines : List Line) (r : Reply × GlStub)
    → r ≡ (answers lines nothing (names p n 0 (next_of f s)), advance f n s)
    → Fits (gives f p n) s r
unfolding apply given answers
gen-Fits f n p s lines r e =
    subst (Fits (gives f p n) s) (sym e)
      (record { state = refl; names = elements-names p n 0 (next_of f s) })

pub create-Fits :
    (f : Family) (s : GlStub) (lines : List Line) (r : Reply × GlStub)
    → r ≡ (answers lines (number (next_of f s)) [], advance f 1 s)
    → Fits (gives f 0 1) s r
unfolding apply given answers numbers
create-Fits f s lines r e =
    subst (Fits (gives f 0 1) s) (sym e) (record { state = refl; names = refl })
