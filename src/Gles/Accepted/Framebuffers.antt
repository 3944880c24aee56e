-- ===== src/Gles/Accepted/Framebuffers.antt =====
-- The host accepts what the entry points of Gles/Framebuffers.antt send.
use vw_firmware_mac.Base.{refl}
use vw_firmware_mac.Gles.Accepted.Check.{IsServed, checks, outcome_of}
use vw_firmware_mac.Gles.Framebuffers.{
  FramebufferCall, framebuffer_command, framebuffer_operation, bind_framebuffer, bind_renderbuffer,
  check_framebuffer_status, delete_framebuffers, delete_renderbuffers, framebuffer_renderbuffer,
  framebuffer_texture_2d, gen_framebuffers, gen_renderbuffers,
  get_framebuffer_attachment_parameteriv, get_renderbuffer_parameteriv, is_framebuffer,
  is_renderbuffer, renderbuffer_storage,
}

pub framebuffer_command-IsServed :
    (c : FramebufferCall)
    → IsServed
        (framebuffer_operation c)
        (outcome_of (framebuffer_operation c))
        (framebuffer_command c)
unfolding checks outcome_of framebuffer_command framebuffer_operation
framebuffer_command-IsServed (bind_framebuffer a0 a1) = (refl, refl)
framebuffer_command-IsServed (bind_renderbuffer a0 a1) = (refl, refl)
framebuffer_command-IsServed (check_framebuffer_status a0) = (refl, refl)
framebuffer_command-IsServed (delete_framebuffers a0 a1) = (refl, refl)
framebuffer_command-IsServed (delete_renderbuffers a0 a1) = (refl, refl)
framebuffer_command-IsServed (framebuffer_renderbuffer a0 a1 a2 a3) = (refl, refl)
framebuffer_command-IsServed (framebuffer_texture_2d a0 a1 a2 a3 a4) = (refl, refl)
framebuffer_command-IsServed (gen_framebuffers a0 a1) = (refl, refl)
framebuffer_command-IsServed (gen_renderbuffers a0 a1) = (refl, refl)
framebuffer_command-IsServed (get_framebuffer_attachment_parameteriv a0 a1 a2 a3) = (refl, refl)
framebuffer_command-IsServed (get_renderbuffer_parameteriv a0 a1 a2) = (refl, refl)
framebuffer_command-IsServed (is_framebuffer a0) = (refl, refl)
framebuffer_command-IsServed (is_renderbuffer a0) = (refl, refl)
framebuffer_command-IsServed (renderbuffer_storage a0 a1 a2 a3) = (refl, refl)
