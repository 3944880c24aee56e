-- ===== src/Screen.antt =====
-- The Screen library of the guest (guest/shim/src/libscreen_stub.c): objects and their properties.
pub mod Property
pub mod Transport
pub mod Objects
pub mod Calls
pub mod Probe
mod Tests
