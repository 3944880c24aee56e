-- ===== src/Gles/Accepted.antt =====
-- The two generated halves of the GLES bridge agree: whatever the guest's entry points send, the
-- host's manifest and decoding loop accept.
pub mod Check
pub mod Textures
pub mod Uniforms
pub mod Attributes
pub mod Framebuffers
pub mod Buffers
pub mod Shaders
pub mod Programs
pub mod Queries
pub mod Drawing
pub mod Raster
