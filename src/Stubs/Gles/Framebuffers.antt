-- ===== src/Stubs/Gles/Framebuffers.antt =====
-- Framebuffers and renderbuffers of guest/shim/src/libGLESv2_stub.c: each entry point, under its name, and what it logs.
use vw_firmware_mac.Base.{ℕ, ◌+◌, ◌%◌, ◌^◌, [], ◌∷◌}
use vw_firmware_mac.Stubs.Log.{uint, sint, addr, line, nothing, number, store, Reply, answers}
use vw_firmware_mac.Stubs.Names.{GlStub, names, rounds}

unfoldable pub stub_bind_framebuffer : ℕ → ℕ → Reply
stub_bind_framebuffer target framebuffer =
    answers
      ((line "glBindFramebuffer" (uint "target" target ∷ uint "framebuffer" framebuffer ∷ [])) ∷ [])
      nothing []

unfoldable pub stub_bind_renderbuffer : ℕ → ℕ → Reply
stub_bind_renderbuffer target renderbuffer =
    answers
      ((line "glBindRenderbuffer" (uint "target" target ∷ uint "renderbuffer" renderbuffer ∷ []))
        ∷ [])
      nothing []

unfoldable pub stub_check_framebuffer_status : ℕ → Reply
stub_check_framebuffer_status target =
    answers ((line "glCheckFramebufferStatus" (uint "target" target ∷ [])) ∷ []) (number 0x8CD5) []

unfoldable pub stub_delete_framebuffers : ℕ → ℕ → Reply
stub_delete_framebuffers n framebuffers =
    answers
      ((line "glDeleteFramebuffers" (sint "n" n ∷ addr "framebuffers" framebuffers ∷ [])) ∷ [])
      nothing []

unfoldable pub stub_delete_renderbuffers : ℕ → ℕ → Reply
stub_delete_renderbuffers n renderbuffers =
    answers
      ((line "glDeleteRenderbuffers" (sint "n" n ∷ addr "renderbuffers" renderbuffers ∷ [])) ∷ [])
      nothing []

unfoldable pub stub_framebuffer_renderbuffer : ℕ → ℕ → ℕ → ℕ → Reply
stub_framebuffer_renderbuffer target attachment renderbuffertarget renderbuffer =
    answers
      ((line "glFramebufferRenderbuffer" (
          uint "target" target
          ∷ uint "attachment" attachment
          ∷ uint "renderbuffertarget" renderbuffertarget
          ∷ uint "renderbuffer" renderbuffer
          ∷ []))
        ∷ [])
      nothing []

unfoldable pub stub_framebuffer_texture_2d : ℕ → ℕ → ℕ → ℕ → ℕ → Reply
stub_framebuffer_texture_2d target attachment textarget texture level =
    answers
      ((line "glFramebufferTexture2D" (
          uint "target" target
          ∷ uint "attachment" attachment
          ∷ uint "textarget" textarget
          ∷ uint "texture" texture
          ∷ sint "level" level
          ∷ []))
        ∷ [])
      nothing []

unfoldable pub stub_gen_framebuffers : ℕ → ℕ → GlStub → Reply × GlStub
stub_gen_framebuffers n framebuffers s = (
  answers ((line "glGenFramebuffers" (sint "n" n ∷ addr "framebuffers" framebuffers ∷ [])) ∷ [])
      nothing (names framebuffers (rounds n) 0 (s.framebuffers)),
  record s { framebuffers = (s.framebuffers + rounds n) % 2 ^ 32 },
)

unfoldable pub stub_gen_renderbuffers : ℕ → ℕ → GlStub → Reply × GlStub
stub_gen_renderbuffers n renderbuffers s = (
  answers ((line "glGenRenderbuffers" (sint "n" n ∷ addr "renderbuffers" renderbuffers ∷ [])) ∷ [])
      nothing (names renderbuffers (rounds n) 0 (s.renderbuffers)),
  record s { renderbuffers = (s.renderbuffers + rounds n) % 2 ^ 32 },
)

unfoldable pub stub_get_framebuffer_attachment_parameteriv : ℕ → ℕ → ℕ → ℕ → Reply
stub_get_framebuffer_attachment_parameteriv target attachment pname params =
    answers
      ((line "glGetFramebufferAttachmentParameteriv" (
          uint "target" target
          ∷ uint "attachment" attachment
          ∷ uint "pname" pname
          ∷ addr "params" params
          ∷ []))
        ∷ [])
      nothing (store params 0 0 ∷ [])

unfoldable pub stub_get_renderbuffer_parameteriv : ℕ → ℕ → ℕ → Reply
stub_get_renderbuffer_parameteriv target pname params =
    answers
      ((line "glGetRenderbufferParameteriv"
          (uint "target" target ∷ uint "pname" pname ∷ addr "params" params ∷ []))
        ∷ [])
      nothing (store params 0 0 ∷ [])

unfoldable pub stub_is_framebuffer : ℕ → Reply
stub_is_framebuffer framebuffer =
    answers ((line "glIsFramebuffer" (uint "framebuffer" framebuffer ∷ [])) ∷ []) (number 1) []

unfoldable pub stub_is_renderbuffer : ℕ → Reply
stub_is_renderbuffer renderbuffer =
    answers ((line "glIsRenderbuffer" (uint "renderbuffer" renderbuffer ∷ [])) ∷ []) (number 1) []

unfoldable pub stub_renderbuffer_storage : ℕ → ℕ → ℕ → ℕ → Reply
stub_renderbuffer_storage target internalformat width height =
    answers
      ((line "glRenderbufferStorage" (
          uint "target" target
          ∷ uint "internalformat" internalformat
          ∷ sint "width" width
          ∷ sint "height" height
          ∷ []))
        ∷ [])
      nothing []

-- The entry points as data, and what a call does.
pub data FramebufferEntry : Type 0 where
  bind_framebuffer : ℕ → ℕ → FramebufferEntry
  bind_renderbuffer : ℕ → ℕ → FramebufferEntry
  check_framebuffer_status : ℕ → FramebufferEntry
  delete_framebuffers : ℕ → ℕ → FramebufferEntry
  delete_renderbuffers : ℕ → ℕ → FramebufferEntry
  framebuffer_renderbuffer : ℕ → ℕ → ℕ → ℕ → FramebufferEntry
  framebuffer_texture_2d : ℕ → ℕ → ℕ → ℕ → ℕ → FramebufferEntry
  gen_framebuffers : ℕ → ℕ → FramebufferEntry
  gen_renderbuffers : ℕ → ℕ → FramebufferEntry
  get_framebuffer_attachment_parameteriv : ℕ → ℕ → ℕ → ℕ → FramebufferEntry
  get_renderbuffer_parameteriv : ℕ → ℕ → ℕ → FramebufferEntry
  is_framebuffer : ℕ → FramebufferEntry
  is_renderbuffer : ℕ → FramebufferEntry
  renderbuffer_storage : ℕ → ℕ → ℕ → ℕ → FramebufferEntry

unfoldable pub framebuffer_reply : FramebufferEntry → GlStub → Reply × GlStub
framebuffer_reply (bind_framebuffer target framebuffer) s =
    (stub_bind_framebuffer target framebuffer, s)
framebuffer_reply (bind_renderbuffer target renderbuffer) s =
    (stub_bind_renderbuffer target renderbuffer, s)
framebuffer_reply (check_framebuffer_status target) s = (stub_check_framebuffer_status target, s)
framebuffer_reply (delete_framebuffers n framebuffers) s =
    (stub_delete_framebuffers n framebuffers, s)
framebuffer_reply (delete_renderbuffers n renderbuffers) s =
    (stub_delete_renderbuffers n renderbuffers, s)
framebuffer_reply (framebuffer_renderbuffer target attachment renderbuffertarget renderbuffer) s =
    (stub_framebuffer_renderbuffer target attachment renderbuffertarget renderbuffer, s)
framebuffer_reply (framebuffer_texture_2d target attachment textarget texture level) s =
    (stub_framebuffer_texture_2d target attachment textarget texture level, s)
framebuffer_reply (gen_framebuffers n framebuffers) s = stub_gen_framebuffers n framebuffers s
framebuffer_reply (gen_renderbuffers n renderbuffers) s = stub_gen_renderbuffers n renderbuffers s
framebuffer_reply (get_framebuffer_attachment_parameteriv target attachment pname params) s =
    (stub_get_framebuffer_attachment_parameteriv target attachment pname params, s)
framebuffer_reply (get_renderbuffer_parameteriv target pname params) s =
    (stub_get_renderbuffer_parameteriv target pname params, s)
framebuffer_reply (is_framebuffer framebuffer) s = (stub_is_framebuffer framebuffer, s)
framebuffer_reply (is_renderbuffer renderbuffer) s = (stub_is_renderbuffer renderbuffer, s)
framebuffer_reply (renderbuffer_storage target internalformat width height) s =
    (stub_renderbuffer_storage target internalformat width height, s)
