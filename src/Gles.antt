-- ===== src/Gles.antt =====
-- The GLES bridge library of the guest (guest/shim/src/libGLESv2_bridge.c): one definition for each
-- entry point, in children named for what the entry points are about.
pub mod Command
pub mod Manifest
pub mod Host
pub mod Accepted
pub mod Calls
pub mod Textures
pub mod Uniforms
pub mod Attributes
pub mod Framebuffers
pub mod Buffers
pub mod Shaders
pub mod Programs
pub mod Queries
pub mod Drawing
pub mod Raster
mod Tests
