-- ===== src/Display.antt =====
-- The native QEMU display device (runtime/qemu-display/mib-display.c): frames come in over a character
-- device, and the mouse and the keys go out as messages.
pub mod Frame
pub mod Input
pub mod Paint
mod Tests
