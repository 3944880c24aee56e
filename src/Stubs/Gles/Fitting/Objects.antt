-- ===== src/Stubs/Gles/Fitting/Objects.antt =====
-- The entry points of guest/shim/src/libGLESv2_stub.c that give names or bind, and those beside them.
use vw_firmware_mac.Base.{refl, Bool-cases, inl, inr, ◌==◌}
use vw_firmware_mac.Stubs.Names.{GlStub, rounds}
use vw_firmware_mac.Stubs.Gles.Effect.{
  buffer, framebuffer, renderbuffer, texture, program, shader, next_of, advance, apply,
  texture_effect, framebuffer_effect, buffer_effect, program_effect, shader_effect, uniform_effect,
}
use vw_firmware_mac.Stubs.Gles.Textures.{
  TextureEntry, texture_reply, active_texture, bind_texture, compressed_tex_image_2d,
  compressed_tex_sub_image_2d, copy_tex_image_2d, copy_tex_sub_image_2d, delete_textures,
  generate_mipmap, gen_textures, get_tex_parameterfv, get_tex_parameteriv, is_texture, pixel_storei,
  read_pixels, tex_image_2d, tex_parameterf, tex_parameterfv, tex_parameteri, tex_parameteriv,
  tex_sub_image_2d, stub_gen_textures,
}
use vw_firmware_mac.Stubs.Gles.Uniforms.{
  UniformEntry, uniform_reply, get_uniformfv, get_uniformiv, get_uniform_location, uniform1f,
  uniform1fv, uniform1i, uniform1iv, uniform2f, uniform2fv, uniform2i, uniform2iv, uniform3f,
  uniform3fv, uniform3i, uniform3iv, uniform4f, uniform4fv, uniform4i, uniform4iv,
  uniform_matrix2fv, uniform_matrix3fv, uniform_matrix4fv, stub_get_uniform_location,
}
use vw_firmware_mac.Stubs.Gles.Framebuffers.{
  FramebufferEntry, framebuffer_reply, bind_framebuffer, bind_renderbuffer,
  check_framebuffer_status, delete_framebuffers, delete_renderbuffers, framebuffer_renderbuffer,
  framebuffer_texture_2d, gen_framebuffers, gen_renderbuffers,
  get_framebuffer_attachment_parameteriv, get_renderbuffer_parameteriv, is_framebuffer,
  is_renderbuffer, renderbuffer_storage, stub_gen_framebuffers, stub_gen_renderbuffers,
}
use vw_firmware_mac.Stubs.Gles.Buffers.{
  BufferEntry, buffer_reply, bind_buffer, buffer_data, buffer_sub_data, delete_buffers, gen_buffers,
  get_buffer_parameteriv, is_buffer, stub_bind_buffer, stub_gen_buffers,
}
use vw_firmware_mac.Stubs.Gles.Shaders.{
  ShaderEntry, shader_reply, attach_shader, compile_shader, create_shader, delete_shader,
  detach_shader, get_attached_shaders, get_shaderiv, get_shader_info_log,
  get_shader_precision_format, get_shader_source, is_shader, release_shader_compiler, shader_binary,
  shader_source, stub_create_shader,
}
use vw_firmware_mac.Stubs.Gles.Programs.{
  ProgramEntry, program_reply, bind_attrib_location, create_program, delete_program,
  get_active_attrib, get_active_uniform, get_attrib_location, get_programiv, get_program_info_log,
  is_program, link_program, use_program, validate_program, program_binary_oes,
  get_program_binary_oes, stub_create_program, stub_get_attrib_location,
}
use vw_firmware_mac.Stubs.Gles.Fitting.{Fits, plain, gen-Fits, create-Fits}

pub texture_reply-Fits :
    (entry : TextureEntry) (s : GlStub) → Fits (texture_effect entry) s (texture_reply entry s)
unfolding texture_reply texture_effect next_of advance apply stub_gen_textures
texture_reply-Fits (active_texture a) s = plain _ s
texture_reply-Fits (bind_texture a b) s = plain _ s
texture_reply-Fits (compressed_tex_image_2d a b c d e f g h) s = plain _ s
texture_reply-Fits (compressed_tex_sub_image_2d a b c d e f g h i) s = plain _ s
texture_reply-Fits (copy_tex_image_2d a b c d e f g h) s = plain _ s
texture_reply-Fits (copy_tex_sub_image_2d a b c d e f g h) s = plain _ s
texture_reply-Fits (delete_textures a b) s = plain _ s
texture_reply-Fits (generate_mipmap a) s = plain _ s
texture_reply-Fits (gen_textures a b) s = gen-Fits texture (rounds a) b s _ _ refl
texture_reply-Fits (get_tex_parameterfv a b c) s = plain _ s
texture_reply-Fits (get_tex_parameteriv a b c) s = plain _ s
texture_reply-Fits (is_texture a) s = plain _ s
texture_reply-Fits (pixel_storei a b) s = plain _ s
texture_reply-Fits (read_pixels a b c d e f g) s = plain _ s
texture_reply-Fits (tex_image_2d a b c d e f g h i) s = plain _ s
texture_reply-Fits (tex_parameterf a b c) s = plain _ s
texture_reply-Fits (tex_parameterfv a b c) s = plain _ s
texture_reply-Fits (tex_parameteri a b c) s = plain _ s
texture_reply-Fits (tex_parameteriv a b c) s = plain _ s
texture_reply-Fits (tex_sub_image_2d a b c d e f g h i) s = plain _ s

pub uniform_reply-Fits :
    (entry : UniformEntry) (s : GlStub) → Fits (uniform_effect entry) s (uniform_reply entry s)
unfolding uniform_reply uniform_effect next_of advance apply stub_get_uniform_location
uniform_reply-Fits (get_uniformfv a b c) s = plain _ s
uniform_reply-Fits (get_uniformiv a b c) s = plain _ s
uniform_reply-Fits (get_uniform_location a b) s = record { state = refl; names = tt }
uniform_reply-Fits (uniform1f a b) s = plain _ s
uniform_reply-Fits (uniform1fv a b c) s = plain _ s
uniform_reply-Fits (uniform1i a b) s = plain _ s
uniform_reply-Fits (uniform1iv a b c) s = plain _ s
uniform_reply-Fits (uniform2f a b c) s = plain _ s
uniform_reply-Fits (uniform2fv a b c) s = plain _ s
uniform_reply-Fits (uniform2i a b c) s = plain _ s
uniform_reply-Fits (uniform2iv a b c) s = plain _ s
uniform_reply-Fits (uniform3f a b c d) s = plain _ s
uniform_reply-Fits (uniform3fv a b c) s = plain _ s
uniform_reply-Fits (uniform3i a b c d) s = plain _ s
uniform_reply-Fits (uniform3iv a b c) s = plain _ s
uniform_reply-Fits (uniform4f a b c d e) s = plain _ s
uniform_reply-Fits (uniform4fv a b c) s = plain _ s
uniform_reply-Fits (uniform4i a b c d e) s = plain _ s
uniform_reply-Fits (uniform4iv a b c) s = plain _ s
uniform_reply-Fits (uniform_matrix2fv a b c d) s = plain _ s
uniform_reply-Fits (uniform_matrix3fv a b c d) s = plain _ s
uniform_reply-Fits (uniform_matrix4fv a b c d) s = plain _ s

pub framebuffer_reply-Fits :
    (entry : FramebufferEntry) (s : GlStub)
    → Fits (framebuffer_effect entry) s (framebuffer_reply entry s)
unfolding framebuffer_reply framebuffer_effect next_of advance apply stub_gen_framebuffers
    stub_gen_renderbuffers
framebuffer_reply-Fits (bind_framebuffer a b) s = plain _ s
framebuffer_reply-Fits (bind_renderbuffer a b) s = plain _ s
framebuffer_reply-Fits (check_framebuffer_status a) s = plain _ s
framebuffer_reply-Fits (delete_framebuffers a b) s = plain _ s
framebuffer_reply-Fits (delete_renderbuffers a b) s = plain _ s
framebuffer_reply-Fits (framebuffer_renderbuffer a b c d) s = plain _ s
framebuffer_reply-Fits (framebuffer_texture_2d a b c d e) s = plain _ s
framebuffer_reply-Fits (gen_framebuffers a b) s = gen-Fits framebuffer (rounds a) b s _ _ refl
framebuffer_reply-Fits (gen_renderbuffers a b) s = gen-Fits renderbuffer (rounds a) b s _ _ refl
framebuffer_reply-Fits (get_framebuffer_attachment_parameteriv a b c d) s = plain _ s
framebuffer_reply-Fits (get_renderbuffer_parameteriv a b c) s = plain _ s
framebuffer_reply-Fits (is_framebuffer a) s = plain _ s
framebuffer_reply-Fits (is_renderbuffer a) s = plain _ s
framebuffer_reply-Fits (renderbuffer_storage a b c d) s = plain _ s

pub buffer_reply-Fits :
    (entry : BufferEntry) (s : GlStub) → Fits (buffer_effect entry) s (buffer_reply entry s)
unfolding buffer_reply buffer_effect next_of advance apply stub_bind_buffer stub_gen_buffers
buffer_reply-Fits (bind_buffer target b) s = elim (Bool-cases (target == 0x8892)) [
  | inl array ↦ rw array (record { state = refl; names = tt })
  | inr other ↦ rw other (plain _ s)
]
buffer_reply-Fits (buffer_data a b c d) s = plain _ s
buffer_reply-Fits (buffer_sub_data a b c d) s = plain _ s
buffer_reply-Fits (delete_buffers a b) s = plain _ s
buffer_reply-Fits (gen_buffers a b) s = gen-Fits buffer (rounds a) b s _ _ refl
buffer_reply-Fits (get_buffer_parameteriv a b c) s = plain _ s
buffer_reply-Fits (is_buffer a) s = plain _ s

pub shader_reply-Fits :
    (entry : ShaderEntry) (s : GlStub) → Fits (shader_effect entry) s (shader_reply entry s)
unfolding shader_reply shader_effect next_of advance apply stub_create_shader
shader_reply-Fits (attach_shader a b) s = plain _ s
shader_reply-Fits (compile_shader a) s = plain _ s
shader_reply-Fits (create_shader a) s = create-Fits shader s _ _ refl
shader_reply-Fits (delete_shader a) s = plain _ s
shader_reply-Fits (detach_shader a b) s = plain _ s
shader_reply-Fits (get_attached_shaders a b c d) s = plain _ s
shader_reply-Fits (get_shaderiv a b c) s = plain _ s
shader_reply-Fits (get_shader_info_log a b c d) s = plain _ s
shader_reply-Fits (get_shader_precision_format a b c d) s = plain _ s
shader_reply-Fits (get_shader_source a b c d) s = plain _ s
shader_reply-Fits (is_shader a) s = plain _ s
shader_reply-Fits release_shader_compiler s = plain _ s
shader_reply-Fits (shader_binary a b c d e) s = plain _ s
shader_reply-Fits (shader_source a b c d e) s = plain _ s

pub program_reply-Fits :
    (entry : ProgramEntry) (s : GlStub) → Fits (program_effect entry) s (program_reply entry s)
unfolding program_reply program_effect next_of advance apply stub_create_program
    stub_get_attrib_location
program_reply-Fits (bind_attrib_location a b c) s = plain _ s
program_reply-Fits create_program s = create-Fits program s _ _ refl
program_reply-Fits (delete_program a) s = plain _ s
program_reply-Fits (get_active_attrib a b c d e f g) s = plain _ s
program_reply-Fits (get_active_uniform a b c d e f g) s = plain _ s
program_reply-Fits (get_attrib_location a b) s = record { state = refl; names = tt }
program_reply-Fits (get_programiv a b c) s = plain _ s
program_reply-Fits (get_program_info_log a b c d) s = plain _ s
program_reply-Fits (is_program a) s = plain _ s
program_reply-Fits (link_program a) s = plain _ s
program_reply-Fits (use_program a) s = plain _ s
program_reply-Fits (validate_program a) s = plain _ s
program_reply-Fits (program_binary_oes a b c d) s = plain _ s
program_reply-Fits (get_program_binary_oes a b c d e) s = plain _ s
