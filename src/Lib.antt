-- ===== src/Lib.antt =====
-- A verification library for the emulator support of the MIB2 head unit: the guest libraries that
-- stand in for hardware, the protocol by which they draw on the host, and the QEMU display device.
--
-- The program's parts and where they are modelled:
--
-- * guest/shim/src/gl_rpc.h and gl_rpc_request.h send each GL call of the guest to the host and read
--   the reply. Rpc/Link models `transfer` on a connected stream, Rpc/Request `send_request` with its
--   batch buffer and its streaming loop, and Rpc/Client `rpc` with the static variables `rpc_fd` and
--   `rpc_error` and the caller's buffers. Each function has the source's name. What the kernel does
--   is an argument: a list of answers, one for each call of `send` or `recv`, so every schedule of
--   short transfers, interruptions, failures and timeouts is covered.
-- * runtime/graphics/gl_server.py reads such a call and answers it. Rpc/Server models reading a
--   command and writing a reply, Gles/Host the checks and the decoding in `execute`, and
--   Gles/Manifest the table gl_manifest.json. The renderer's own calls are not modelled.
-- * guest/shim/src/libGLESv2_bridge.c has the 144 GL entry points. Gles/Textures, Uniforms,
--   Attributes, Framebuffers, Buffers, Shaders, Programs, Queries, Drawing and Raster have one
--   definition for each, which builds the arguments of `rpc`; Gles/Calls puts them together. Scalars
--   are the bit patterns that are sent.
-- * guest/dsi/trace.c stands before the original DSI library: it logs packets, answers those for the
--   power and the persistence service itself and forwards the others. Dsi/Power models `power_on`,
--   Dsi/Store `empty_store`, Dsi/Jni `record` and `deliver`, and Dsi/Send the three entry points.
--   What the Java VM, the dynamic linker and the environment answer is an argument, and what the
--   proxy does to the outside is a list of events. A read past the end of what is held of a packet (at most the 96 bytes of
--   `data` in the entry point) is `none`.
--   Dsi/Input models the input thread of guest/dsi/input.h: `start_input`, and `input_main` for the first
--   rounds of its endless loop.
-- * runtime/qemu-display/mib-display.c shows the frames and turns the mouse and the keys into
--   messages. Display/Frame models the receiver of frames, whose header and pixels are the buffers of
--   `MIBDisplay`, Display/Paint what `paint` draws as a list of writes, for any font, and Display/Input
--   the input handlers; a message is data in place of its JSON text.
--   `qemu_input_scale_axis` is an argument.
-- * guest/shim/src/libscreen_stub.c is a model of the Screen library. Screen/Property has its integer
--   properties on the flat memory of `iv`, Screen/Objects the objects on a heap with `new_obj`,
--   `get_display`, `ensure_buffers` and `get_pv`, and Screen/Calls the entry points, up to
--   `screen_share_window_buffers` and `screen_post_window`. A pointer is an address; `none` is a use of
--   a pointer to no object or an access before an array. Whether `calloc` has room for pixels is an
--   argument. Screen/Transport is the way of a buffer to the host (guest/shim/src/frame_transport.h).
-- * guest/shim/src/display_probe.c posts test pictures through that library. Screen/Probe models its
--   `main`, on the entry points of Screen/Calls; what each frame meets in the network is an argument.
-- * guest/shim/src/libEGL_stub.c and libGLESv2_stub.c log each call and answer with constants and
--   counters. Stubs/Egl and the modules below Stubs/Gles have one definition for each entry point: the
--   lines that it logs, what it returns, what it writes through its pointers, and its static variables.
--
-- Words are natural numbers with the wrap-around written out, `le32` is the little-endian form of a
-- word, `be32` the big-endian one, and a C int whose sign matters is a `ℤ`. Loops recurse on a list or
-- a count that the source walks along. The loops of `transfer`, `frame_send_all` and `input_exact` have
-- no such bound: they recurse on the kernel's answers, and `none` is a call that still waits. One move
-- for each byte is enough, since a move takes a byte at least. The loop over the packets of the input
-- thread recurses on a number of rounds; one more than there are packets is enough, since each round
-- takes a packet and the last one finds the end of the stream.
--
-- Not modelled: how a log file is opened and written, and the mutexes (each call is one step); the entry
-- points of the Screen library that only log and return 0; how the display device registers with QEMU;
-- the renderer, which calls the desktop's GL; and the Python tools, which build and launch.
pub mod Base
pub mod Rpc
pub mod Gles
pub mod Dsi
pub mod Display
pub mod Screen
pub mod Stubs
