-- ===== src/Stubs/Gles/Fitting/Calls.antt =====
-- Every entry point of guest/shim/src/libGLESv2_stub.c does what `effect` says.
use vw_firmware_mac.Stubs.Names.{GlStub}
use vw_firmware_mac.Stubs.Gles.{
  GlEntry, gl_reply, textures_entry, uniforms_entry, attributes_entry, framebuffers_entry,
  buffers_entry, shaders_entry, programs_entry, queries_entry, drawing_entry, raster_entry,
}
use vw_firmware_mac.Stubs.Gles.Effect.{effect}
use vw_firmware_mac.Stubs.Gles.Fitting.{Fits}
use vw_firmware_mac.Stubs.Gles.Fitting.Objects.{
  texture_reply-Fits, framebuffer_reply-Fits, buffer_reply-Fits, shader_reply-Fits,
  program_reply-Fits, uniform_reply-Fits,
}
use vw_firmware_mac.Stubs.Gles.Fitting.Plain.{
  attribute_reply-Fits, query_reply-Fits, draw_reply-Fits, raster_reply-Fits,
}

-- Each of the 144 calls changes the static variables as its effect says, and the names that it hands
-- out of a family are as many as the effect has, counted in 32 bits from the counter of the family.
pub gl_reply-Fits : (entry : GlEntry) (s : GlStub) → Fits (effect entry) s (gl_reply entry s)
unfolding gl_reply effect
gl_reply-Fits (textures_entry e) s = texture_reply-Fits e s
gl_reply-Fits (uniforms_entry e) s = uniform_reply-Fits e s
gl_reply-Fits (attributes_entry e) s = attribute_reply-Fits e s
gl_reply-Fits (framebuffers_entry e) s = framebuffer_reply-Fits e s
gl_reply-Fits (buffers_entry e) s = buffer_reply-Fits e s
gl_reply-Fits (shaders_entry e) s = shader_reply-Fits e s
gl_reply-Fits (programs_entry e) s = program_reply-Fits e s
gl_reply-Fits (queries_entry e) s = query_reply-Fits e s
gl_reply-Fits (drawing_entry e) s = draw_reply-Fits e s
gl_reply-Fits (raster_entry e) s = raster_reply-Fits e s
