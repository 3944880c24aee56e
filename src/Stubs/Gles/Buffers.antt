-- ===== src/Stubs/Gles/Buffers.antt =====
-- Buffers of guest/shim/src/libGLESv2_stub.c: each entry point, under its name, and what it logs.
use vw_firmware_mac.Base.{ℕ, ◌+◌, ◌%◌, ◌^◌, [], ◌∷◌, ◌==◌, if◌then◌else◌}
use vw_firmware_mac.Stubs.Log.{uint, sint, addr, long, line, nothing, number, store, Reply, answers}
use vw_firmware_mac.Stubs.Names.{GlStub, names, rounds}

unfoldable pub stub_bind_buffer : ℕ → ℕ → GlStub → Reply × GlStub
stub_bind_buffer target buffer s = (
  answers ((line "glBindBuffer" (uint "target" target ∷ uint "buffer" buffer ∷ [])) ∷ []) nothing
      [],
  if target == 0x8892 then record s { array_buffer = buffer } else s,
)

unfoldable pub stub_buffer_data : ℕ → ℕ → ℕ → ℕ → Reply
stub_buffer_data target size bytes usage =
    answers
      ((line "glBufferData"
          (uint "target" target ∷ long "size" size ∷ addr "data" bytes ∷ uint "usage" usage ∷ []))
        ∷ [])
      nothing []

unfoldable pub stub_buffer_sub_data : ℕ → ℕ → ℕ → ℕ → Reply
stub_buffer_sub_data target offset size bytes =
    answers
      ((line "glBufferSubData"
          (uint "target" target ∷ long "offset" offset ∷ long "size" size ∷ addr "data" bytes ∷ []))
        ∷ [])
      nothing []

unfoldable pub stub_delete_buffers : ℕ → ℕ → Reply
stub_delete_buffers n buffers =
    answers ((line "glDeleteBuffers" (sint "n" n ∷ addr "buffers" buffers ∷ [])) ∷ []) nothing []

unfoldable pub stub_gen_buffers : ℕ → ℕ → GlStub → Reply × GlStub
stub_gen_buffers n buffers s = (
  answers ((line "glGenBuffers" (sint "n" n ∷ addr "buffers" buffers ∷ [])) ∷ []) nothing
      (names buffers (rounds n) 0 (s.buffers)),
  record s { buffers = (s.buffers + rounds n) % 2 ^ 32 },
)

unfoldable pub stub_get_buffer_parameteriv : ℕ → ℕ → ℕ → Reply
stub_get_buffer_parameteriv target pname params =
    answers
      ((line "glGetBufferParameteriv"
          (uint "target" target ∷ uint "pname" pname ∷ addr "params" params ∷ []))
        ∷ [])
      nothing (store params 0 0 ∷ [])

unfoldable pub stub_is_buffer : ℕ → Reply
stub_is_buffer buffer = answers ((line "glIsBuffer" (uint "buffer" buffer ∷ [])) ∷ []) (number 1) []

-- The entry points as data, and what a call does.
pub data BufferEntry : Type 0 where
  bind_buffer : ℕ → ℕ → BufferEntry
  buffer_data : ℕ → ℕ → ℕ → ℕ → BufferEntry
  buffer_sub_data : ℕ → ℕ → ℕ → ℕ → BufferEntry
  delete_buffers : ℕ → ℕ → BufferEntry
  gen_buffers : ℕ → ℕ → BufferEntry
  get_buffer_parameteriv : ℕ → ℕ → ℕ → BufferEntry
  is_buffer : ℕ → BufferEntry

unfoldable pub buffer_reply : BufferEntry → GlStub → Reply × GlStub
buffer_reply (bind_buffer target buffer) s = stub_bind_buffer target buffer s
buffer_reply (buffer_data target size bytes usage) s = (stub_buffer_data target size bytes usage, s)
buffer_reply (buffer_sub_data target offset size bytes) s =
    (stub_buffer_sub_data target offset size bytes, s)
buffer_reply (delete_buffers n buffers) s = (stub_delete_buffers n buffers, s)
buffer_reply (gen_buffers n buffers) s = stub_gen_buffers n buffers s
buffer_reply (get_buffer_parameteriv target pname params) s =
    (stub_get_buffer_parameteriv target pname params, s)
buffer_reply (is_buffer buffer) s = (stub_is_buffer buffer, s)
