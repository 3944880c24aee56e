-- ===== src/Gles/Accepted/Uniforms.antt =====
-- The host accepts what the entry points of Gles/Uniforms.antt send.
use vw_firmware_mac.Base.{refl}
use vw_firmware_mac.Gles.Accepted.Check.{IsServed, checks, outcome_of}
use vw_firmware_mac.Gles.Uniforms.{
  UniformCall, uniform_command, uniform_operation, get_uniformfv, get_uniformiv,
  get_uniform_location, uniform1f, uniform1fv, uniform1i, uniform1iv, uniform2f, uniform2fv,
  uniform2i, uniform2iv, uniform3f, uniform3fv, uniform3i, uniform3iv, uniform4f, uniform4fv,
  uniform4i, uniform4iv, uniform_matrix2fv, uniform_matrix3fv, uniform_matrix4fv,
}

pub uniform_command-IsServed :
    (c : UniformCall)
    → IsServed (uniform_operation c) (outcome_of (uniform_operation c)) (uniform_command c)
unfolding checks outcome_of uniform_command uniform_operation
uniform_command-IsServed (get_uniformfv a0 a1 a2) = refl
uniform_command-IsServed (get_uniformiv a0 a1 a2) = refl
uniform_command-IsServed (get_uniform_location a0 a1) = (refl, refl)
uniform_command-IsServed (uniform1f a0 a1) = (refl, refl)
uniform_command-IsServed (uniform1fv a0 a1 a2) = (refl, refl)
uniform_command-IsServed (uniform1i a0 a1) = (refl, refl)
uniform_command-IsServed (uniform1iv a0 a1 a2) = (refl, refl)
uniform_command-IsServed (uniform2f a0 a1 a2) = (refl, refl)
uniform_command-IsServed (uniform2fv a0 a1 a2) = (refl, refl)
uniform_command-IsServed (uniform2i a0 a1 a2) = (refl, refl)
uniform_command-IsServed (uniform2iv a0 a1 a2) = (refl, refl)
uniform_command-IsServed (uniform3f a0 a1 a2 a3) = (refl, refl)
uniform_command-IsServed (uniform3fv a0 a1 a2) = (refl, refl)
uniform_command-IsServed (uniform3i a0 a1 a2 a3) = (refl, refl)
uniform_command-IsServed (uniform3iv a0 a1 a2) = (refl, refl)
uniform_command-IsServed (uniform4f a0 a1 a2 a3 a4) = (refl, refl)
uniform_command-IsServed (uniform4fv a0 a1 a2) = (refl, refl)
uniform_command-IsServed (uniform4i a0 a1 a2 a3 a4) = (refl, refl)
uniform_command-IsServed (uniform4iv a0 a1 a2) = (refl, refl)
uniform_command-IsServed (uniform_matrix2fv a0 a1 a2 a3) = (refl, refl)
uniform_command-IsServed (uniform_matrix3fv a0 a1 a2 a3) = (refl, refl)
uniform_command-IsServed (uniform_matrix4fv a0 a1 a2 a3) = (refl, refl)
