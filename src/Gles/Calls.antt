-- ===== src/Gles/Calls.antt =====
-- All entry points of guest/shim/src/libGLESv2_bridge.c together.
use vw_firmware_mac.Base.{ℕ}
use vw_firmware_mac.Gles.Command.{Command, Bridge}
use vw_firmware_mac.Gles.Textures.{TextureCall, texture_operation, texture_command}
use vw_firmware_mac.Gles.Uniforms.{UniformCall, uniform_operation, uniform_command}
use vw_firmware_mac.Gles.Attributes.{AttributeCall, attribute_operation, attribute_command}
use vw_firmware_mac.Gles.Framebuffers.{FramebufferCall, framebuffer_operation, framebuffer_command}
use vw_firmware_mac.Gles.Buffers.{BufferCall, buffer_operation, buffer_command}
use vw_firmware_mac.Gles.Shaders.{ShaderCall, shader_operation, shader_command}
use vw_firmware_mac.Gles.Programs.{ProgramCall, program_operation, program_command}
use vw_firmware_mac.Gles.Queries.{QueryCall, query_operation, query_command}
use vw_firmware_mac.Gles.Drawing.{DrawCall, draw_operation, draw_command}
use vw_firmware_mac.Gles.Raster.{RasterCall, raster_operation, raster_command}
use vw_firmware_mac.Gles.Accepted.Textures.{texture_command-IsServed}
use vw_firmware_mac.Gles.Accepted.Uniforms.{uniform_command-IsServed}
use vw_firmware_mac.Gles.Accepted.Attributes.{attribute_command-IsServed, attribute_outcome}
use vw_firmware_mac.Gles.Accepted.Framebuffers.{framebuffer_command-IsServed}
use vw_firmware_mac.Gles.Accepted.Buffers.{buffer_command-IsServed}
use vw_firmware_mac.Gles.Accepted.Shaders.{shader_command-IsServed, shader_outcome}
use vw_firmware_mac.Gles.Accepted.Programs.{program_command-IsServed}
use vw_firmware_mac.Gles.Accepted.Queries.{query_command-IsServed, query_outcome}
use vw_firmware_mac.Gles.Accepted.Drawing.{draw_command-IsServed}
use vw_firmware_mac.Gles.Accepted.Raster.{raster_command-IsServed}
use vw_firmware_mac.Gles.Accepted.Check.{IsServed, Outcome, outcome_of}

pub data GlCall : Type 0 where
  texture : TextureCall → GlCall
  uniform : UniformCall → GlCall
  attribute : AttributeCall → GlCall
  framebuffer : FramebufferCall → GlCall
  buffer : BufferCall → GlCall
  shader : ShaderCall → GlCall
  program : ProgramCall → GlCall
  query : QueryCall → GlCall
  draw : DrawCall → GlCall
  raster : RasterCall → GlCall

-- The number under which a call goes over the wire, and which keys the manifest.
unfoldable pub operation : GlCall → ℕ
operation (texture c) = texture_operation c
operation (uniform c) = uniform_operation c
operation (attribute c) = attribute_operation c
operation (framebuffer c) = framebuffer_operation c
operation (buffer c) = buffer_operation c
operation (shader c) = shader_operation c
operation (program c) = program_operation c
operation (query c) = query_operation c
operation (draw c) = draw_operation c
operation (raster c) = raster_operation c

-- What a call does, given the bridge's variables and the pending `rpc_error`.
unfoldable pub gl_command : Bridge → ℕ → GlCall → Bridge × Command
gl_command bridge error (texture c) = (bridge, texture_command c)
gl_command bridge error (uniform c) = (bridge, uniform_command c)
gl_command bridge error (attribute c) = (bridge, attribute_command bridge c)
gl_command bridge error (framebuffer c) = (bridge, framebuffer_command c)
gl_command bridge error (buffer c) = buffer_command bridge c
gl_command bridge error (shader c) = (bridge, shader_command c)
gl_command bridge error (program c) = (bridge, program_command c)
gl_command bridge error (query c) = (bridge, query_command error c)
gl_command bridge error (draw c) = (bridge, draw_command bridge c)
gl_command bridge error (raster c) = (bridge, raster_command c)

-- What should become of a call, given the bridge's variables and the pending `rpc_error`.
unfoldable pub outcome : Bridge → ℕ → GlCall → Outcome
unfolding operation
outcome bridge error (attribute c) = attribute_outcome bridge c
outcome bridge error (shader c) = shader_outcome c
outcome bridge error (query c) = query_outcome error c
outcome bridge error c = outcome_of (operation c)

-- Each of the 144 GL entry points, in any state and with any arguments, does one of three things. It
-- refuses with an invalid operation exactly if the manifest has the operation as unsupported, or it is
-- `glVertexAttribPointer` with no array buffer bound and a pointer that is not null; with out of
-- memory exactly if it is `glShaderSource` and memory has run out. It returns the pending error exactly
-- if it is `glGetError` and one is pending. Otherwise it makes the call that the host's manifest has
-- under its number, with at most 16 arguments and none that the host's decoding loop raises an
-- exception for.
pub gl_command-IsServed :
    (bridge : Bridge) (error : ℕ) (c : GlCall)
    → IsServed (operation c) (outcome bridge error c) (gl_command bridge error c).1
unfolding operation gl_command outcome
gl_command-IsServed bridge error (texture c) = texture_command-IsServed c
gl_command-IsServed bridge error (uniform c) = uniform_command-IsServed c
gl_command-IsServed bridge error (attribute c) = attribute_command-IsServed bridge c
gl_command-IsServed bridge error (framebuffer c) = framebuffer_command-IsServed c
gl_command-IsServed bridge error (buffer c) = buffer_command-IsServed bridge c
gl_command-IsServed bridge error (shader c) = shader_command-IsServed c
gl_command-IsServed bridge error (program c) = program_command-IsServed c
gl_command-IsServed bridge error (query c) = query_command-IsServed error c
gl_command-IsServed bridge error (draw c) = draw_command-IsServed bridge c
gl_command-IsServed bridge error (raster c) = raster_command-IsServed c
