-- ===== src/Stubs/Gles.antt =====
-- The entry points of guest/shim/src/libGLESv2_stub.c together.
pub mod Textures
pub mod Uniforms
pub mod Attributes
pub mod Framebuffers
pub mod Buffers
pub mod Shaders
pub mod Programs
pub mod Queries
pub mod Drawing
pub mod Raster
pub mod Effect
pub mod Fitting
pub mod Given
pub mod Binding
use vw_firmware_mac.Base.{List, [], ◌∷◌}
use vw_firmware_mac.Stubs.Log.{Reply}
use vw_firmware_mac.Stubs.Names.{GlStub}
use vw_firmware_mac.Stubs.Gles.Textures.{TextureEntry, texture_reply}
use vw_firmware_mac.Stubs.Gles.Uniforms.{UniformEntry, uniform_reply}
use vw_firmware_mac.Stubs.Gles.Attributes.{AttributeEntry, attribute_reply}
use vw_firmware_mac.Stubs.Gles.Framebuffers.{FramebufferEntry, framebuffer_reply}
use vw_firmware_mac.Stubs.Gles.Buffers.{BufferEntry, buffer_reply}
use vw_firmware_mac.Stubs.Gles.Shaders.{ShaderEntry, shader_reply}
use vw_firmware_mac.Stubs.Gles.Programs.{ProgramEntry, program_reply}
use vw_firmware_mac.Stubs.Gles.Queries.{QueryEntry, query_reply}
use vw_firmware_mac.Stubs.Gles.Drawing.{DrawEntry, draw_reply}
use vw_firmware_mac.Stubs.Gles.Raster.{RasterEntry, raster_reply}

-- A call of the library.
pub data GlEntry : Type 0 where
  textures_entry : TextureEntry → GlEntry
  uniforms_entry : UniformEntry → GlEntry
  attributes_entry : AttributeEntry → GlEntry
  framebuffers_entry : FramebufferEntry → GlEntry
  buffers_entry : BufferEntry → GlEntry
  shaders_entry : ShaderEntry → GlEntry
  programs_entry : ProgramEntry → GlEntry
  queries_entry : QueryEntry → GlEntry
  drawing_entry : DrawEntry → GlEntry
  raster_entry : RasterEntry → GlEntry

unfoldable pub gl_reply : GlEntry → GlStub → Reply × GlStub
gl_reply (textures_entry e) s = texture_reply e s
gl_reply (uniforms_entry e) s = uniform_reply e s
gl_reply (attributes_entry e) s = attribute_reply e s
gl_reply (framebuffers_entry e) s = framebuffer_reply e s
gl_reply (buffers_entry e) s = buffer_reply e s
gl_reply (shaders_entry e) s = shader_reply e s
gl_reply (programs_entry e) s = program_reply e s
gl_reply (queries_entry e) s = query_reply e s
gl_reply (drawing_entry e) s = draw_reply e s
gl_reply (raster_entry e) s = raster_reply e s

-- What calls leave behind.
unfoldable pub gl_run : List GlEntry → GlStub → GlStub
gl_run [] s = s
gl_run (c ∷ cs) s = gl_run cs (gl_reply c s).1
