-- ===== src/Gles/Framebuffers.antt =====
-- Framebuffers and renderbuffers: entry points of guest/shim/src/libGLESv2_bridge.c.
use vw_firmware_mac.Base.{ℕ, [], ◌∷◌}
use vw_firmware_mac.Gles.Command.{Memory, Command, call, nothing, byte, word}
use vw_firmware_mac.Gles.Command.{scalar_word, input, output, words}

-- glBindFramebuffer
unfoldable pub gl_bind_framebuffer : ℕ → ℕ → Command
gl_bind_framebuffer target framebuffer =
    call nothing 5 ((scalar_word target) ∷ (scalar_word framebuffer) ∷ [])

-- glBindRenderbuffer
unfoldable pub gl_bind_renderbuffer : ℕ → ℕ → Command
gl_bind_renderbuffer target renderbuffer =
    call nothing 6 ((scalar_word target) ∷ (scalar_word renderbuffer) ∷ [])

-- glCheckFramebufferStatus
unfoldable pub gl_check_framebuffer_status : ℕ → Command
gl_check_framebuffer_status target = call word 15 ((scalar_word target) ∷ [])

-- glDeleteFramebuffers
unfoldable pub gl_delete_framebuffers : ℕ → Memory → Command
gl_delete_framebuffers n framebuffers =
    call nothing 30 ((scalar_word n) ∷ (input framebuffers (words n 1)) ∷ [])

-- glDeleteRenderbuffers
unfoldable pub gl_delete_renderbuffers : ℕ → Memory → Command
gl_delete_renderbuffers n renderbuffers =
    call nothing 32 ((scalar_word n) ∷ (input renderbuffers (words n 1)) ∷ [])

-- glFramebufferRenderbuffer
unfoldable pub gl_framebuffer_renderbuffer : ℕ → ℕ → ℕ → ℕ → Command
gl_framebuffer_renderbuffer target attachment renderbuffertarget renderbuffer = call nothing 47 (
    (scalar_word target)
    ∷ (scalar_word attachment)
    ∷ (scalar_word renderbuffertarget)
    ∷ (scalar_word renderbuffer)
    ∷ [])

-- glFramebufferTexture2D
unfoldable pub gl_framebuffer_texture_2d : ℕ → ℕ → ℕ → ℕ → ℕ → Command
gl_framebuffer_texture_2d target attachment textarget texture level = call nothing 48 (
    (scalar_word target)
    ∷ (scalar_word attachment)
    ∷ (scalar_word textarget)
    ∷ (scalar_word texture)
    ∷ (scalar_word level)
    ∷ [])

-- glGenFramebuffers
unfoldable pub gl_gen_framebuffers : ℕ → Memory → Command
gl_gen_framebuffers n framebuffers =
    call nothing 52 ((scalar_word n) ∷ (output framebuffers (words n 1)) ∷ [])

-- glGenRenderbuffers
unfoldable pub gl_gen_renderbuffers : ℕ → Memory → Command
gl_gen_renderbuffers n renderbuffers =
    call nothing 53 ((scalar_word n) ∷ (output renderbuffers (words n 1)) ∷ [])

-- glGetFramebufferAttachmentParameteriv
unfoldable pub gl_get_framebuffer_attachment_parameteriv : ℕ → ℕ → ℕ → Memory → Command
gl_get_framebuffer_attachment_parameteriv target attachment pname params =
    call nothing 63 (
      (scalar_word target)
      ∷ (scalar_word attachment)
      ∷ (scalar_word pname)
      ∷ (output params 4)
      ∷ [])

-- glGetRenderbufferParameteriv
unfoldable pub gl_get_renderbuffer_parameteriv : ℕ → ℕ → Memory → Command
gl_get_renderbuffer_parameteriv target pname params =
    call nothing 67 ((scalar_word target) ∷ (scalar_word pname) ∷ (output params 4) ∷ [])

-- glIsFramebuffer
unfoldable pub gl_is_framebuffer : ℕ → Command
gl_is_framebuffer framebuffer = call byte 84 ((scalar_word framebuffer) ∷ [])

-- glIsRenderbuffer
unfoldable pub gl_is_renderbuffer : ℕ → Command
gl_is_renderbuffer renderbuffer = call byte 86 ((scalar_word renderbuffer) ∷ [])

-- glRenderbufferStorage
unfoldable pub gl_renderbuffer_storage : ℕ → ℕ → ℕ → ℕ → Command
gl_renderbuffer_storage target internalformat width height = call nothing 95 (
    (scalar_word target)
    ∷ (scalar_word internalformat)
    ∷ (scalar_word width)
    ∷ (scalar_word height)
    ∷ [])

-- A call of one of these entry points, with its arguments.
pub data FramebufferCall : Type 0 where
  bind_framebuffer : ℕ → ℕ → FramebufferCall
  bind_renderbuffer : ℕ → ℕ → FramebufferCall
  check_framebuffer_status : ℕ → FramebufferCall
  delete_framebuffers : ℕ → Memory → FramebufferCall
  delete_renderbuffers : ℕ → Memory → FramebufferCall
  framebuffer_renderbuffer : ℕ → ℕ → ℕ → ℕ → FramebufferCall
  framebuffer_texture_2d : ℕ → ℕ → ℕ → ℕ → ℕ → FramebufferCall
  gen_framebuffers : ℕ → Memory → FramebufferCall
  gen_renderbuffers : ℕ → Memory → FramebufferCall
  get_framebuffer_attachment_parameteriv : ℕ → ℕ → ℕ → Memory → FramebufferCall
  get_renderbuffer_parameteriv : ℕ → ℕ → Memory → FramebufferCall
  is_framebuffer : ℕ → FramebufferCall
  is_renderbuffer : ℕ → FramebufferCall
  renderbuffer_storage : ℕ → ℕ → ℕ → ℕ → FramebufferCall

-- The number of the operation: the place of the entry point in the file.
unfoldable pub framebuffer_operation : FramebufferCall → ℕ
framebuffer_operation (bind_framebuffer _ _) = 5
framebuffer_operation (bind_renderbuffer _ _) = 6
framebuffer_operation (check_framebuffer_status _) = 15
framebuffer_operation (delete_framebuffers _ _) = 30
framebuffer_operation (delete_renderbuffers _ _) = 32
framebuffer_operation (framebuffer_renderbuffer _ _ _ _) = 47
framebuffer_operation (framebuffer_texture_2d _ _ _ _ _) = 48
framebuffer_operation (gen_framebuffers _ _) = 52
framebuffer_operation (gen_renderbuffers _ _) = 53
framebuffer_operation (get_framebuffer_attachment_parameteriv _ _ _ _) = 63
framebuffer_operation (get_renderbuffer_parameteriv _ _ _) = 67
framebuffer_operation (is_framebuffer _) = 84
framebuffer_operation (is_renderbuffer _) = 86
framebuffer_operation (renderbuffer_storage _ _ _ _) = 95

unfoldable pub framebuffer_command : FramebufferCall → Command
unfolding gl_bind_framebuffer gl_bind_renderbuffer gl_check_framebuffer_status
    gl_delete_framebuffers gl_delete_renderbuffers gl_framebuffer_renderbuffer
    gl_framebuffer_texture_2d gl_gen_framebuffers gl_gen_renderbuffers
    gl_get_framebuffer_attachment_parameteriv gl_get_renderbuffer_parameteriv gl_is_framebuffer
    gl_is_renderbuffer gl_renderbuffer_storage
framebuffer_command (bind_framebuffer target framebuffer) = gl_bind_framebuffer target framebuffer
framebuffer_command (bind_renderbuffer target renderbuffer) =
    gl_bind_renderbuffer target renderbuffer
framebuffer_command (check_framebuffer_status target) = gl_check_framebuffer_status target
framebuffer_command (delete_framebuffers n framebuffers) = gl_delete_framebuffers n framebuffers
framebuffer_command (delete_renderbuffers n renderbuffers) = gl_delete_renderbuffers n renderbuffers
framebuffer_command (framebuffer_renderbuffer target attachment renderbuffertarget renderbuffer) =
    gl_framebuffer_renderbuffer target attachment renderbuffertarget renderbuffer
framebuffer_command (framebuffer_texture_2d target attachment textarget texture level) =
    gl_framebuffer_texture_2d target attachment textarget texture level
framebuffer_command (gen_framebuffers n framebuffers) = gl_gen_framebuffers n framebuffers
framebuffer_command (gen_renderbuffers n renderbuffers) = gl_gen_renderbuffers n renderbuffers
framebuffer_command (get_framebuffer_attachment_parameteriv target attachment pname params) =
    gl_get_framebuffer_attachment_parameteriv target attachment pname params
framebuffer_command (get_renderbuffer_parameteriv target pname params) =
    gl_get_renderbuffer_parameteriv target pname params
framebuffer_command (is_framebuffer framebuffer) = gl_is_framebuffer framebuffer
framebuffer_command (is_renderbuffer renderbuffer) = gl_is_renderbuffer renderbuffer
framebuffer_command (renderbuffer_storage target internalformat width height) =
    gl_renderbuffer_storage target internalformat width height
