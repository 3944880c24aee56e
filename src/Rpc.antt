-- ===== src/Rpc.antt =====
-- The graphics RPC between the guest's GL library and the host renderer
-- (guest/shim/src/gl_rpc.h, guest/shim/src/gl_rpc_request.h, runtime/graphics/gl_server.py).
pub mod Link
pub mod Request
pub mod Server
mod Tests
pub mod Client
