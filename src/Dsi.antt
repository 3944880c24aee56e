-- ===== src/Dsi.antt =====
-- The DSI proxy of the guest (guest/dsi/trace.c and guest/dsi/input.h): it traces the HMI's messages,
-- answers some of them itself, and feeds in the input of the emulator.
pub mod Bytes
pub mod Jni
pub mod Power
pub mod Store
pub mod Send
pub mod Input
mod Tests
