-- ===== src/Stubs.antt =====
-- The libraries of the guest that log their calls and answer with constants and counters:
-- guest/shim/src/libEGL_stub.c and libGLESv2_stub.c.
pub mod Log
pub mod Names
pub mod Gles
pub mod Egl
mod Tests
