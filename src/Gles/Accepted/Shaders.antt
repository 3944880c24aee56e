-- ===== src/Gles/Accepted/Shaders.antt =====
-- The host accepts what the entry points of Gles/Shaders.antt send.
use vw_firmware_mac.Base.{refl, if◌then◌else◌}
use vw_firmware_mac.Gles.Command.{out_of_memory}
use vw_firmware_mac.Gles.Accepted.Check.{
  Outcome, refused, served, IsServed, IsServed-if, checks, outcome_of,
}
use vw_firmware_mac.Gles.Shaders.{
  ShaderCall, shader_command, shader_operation, attach_shader, compile_shader, create_shader,
  delete_shader, detach_shader, get_attached_shaders, get_shaderiv, get_shader_info_log,
  get_shader_precision_format, get_shader_source, is_shader, release_shader_compiler, shader_binary,
  shader_source,
}

-- `glShaderSource` is refused where memory has run out.
unfoldable pub shader_outcome : ShaderCall → Outcome
unfolding outcome_of
shader_outcome (shader_source allocated _ _ _) = if allocated then served else refused out_of_memory
shader_outcome c = outcome_of (shader_operation c)

pub shader_command-IsServed :
    (c : ShaderCall) → IsServed (shader_operation c) (shader_outcome c) (shader_command c)
unfolding checks outcome_of shader_outcome shader_command shader_operation
shader_command-IsServed (attach_shader a0 a1) = (refl, refl)
shader_command-IsServed (compile_shader a0) = (refl, refl)
shader_command-IsServed (create_shader a0) = (refl, refl)
shader_command-IsServed (delete_shader a0) = (refl, refl)
shader_command-IsServed (detach_shader a0 a1) = (refl, refl)
shader_command-IsServed (get_attached_shaders a0 a1 a2 a3) = refl
shader_command-IsServed (get_shaderiv a0 a1 a2) = (refl, refl)
shader_command-IsServed (get_shader_info_log a0 a1 a2 a3) = (refl, refl)
shader_command-IsServed (get_shader_precision_format a0 a1 a2 a3) = (refl, refl)
shader_command-IsServed (get_shader_source a0 a1 a2 a3) = (refl, refl)
shader_command-IsServed (is_shader a0) = (refl, refl)
shader_command-IsServed release_shader_compiler = (refl, refl)
shader_command-IsServed (shader_binary a0 a1 a2 a3 a4) = refl
shader_command-IsServed (shader_source a0 a1 a2 a3) = IsServed-if a0 99 _ _ _ _ (refl, refl) refl
