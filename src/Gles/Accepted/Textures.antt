-- ===== src/Gles/Accepted/Textures.antt =====
-- The host accepts what the entry points of Gles/Textures.antt send.
use vw_firmware_mac.Base.{refl}
use vw_firmware_mac.Gles.Accepted.Check.{IsServed, checks, outcome_of}
use vw_firmware_mac.Gles.Textures.{
  TextureCall, texture_command, texture_operation, active_texture, bind_texture,
  compressed_tex_image_2d, compressed_tex_sub_image_2d, copy_tex_image_2d, copy_tex_sub_image_2d,
  delete_textures, generate_mipmap, gen_textures, get_tex_parameterfv, get_tex_parameteriv,
  is_texture, pixel_storei, read_pixels, tex_image_2d, tex_parameterf, tex_parameterfv,
  tex_parameteri, tex_parameteriv, tex_sub_image_2d,
}

pub texture_command-IsServed :
    (c : TextureCall)
    → IsServed (texture_operation c) (outcome_of (texture_operation c)) (texture_command c)
unfolding checks outcome_of texture_command texture_operation
texture_command-IsServed (active_texture a0) = (refl, refl)
texture_command-IsServed (bind_texture a0 a1) = (refl, refl)
texture_command-IsServed (compressed_tex_image_2d a0 a1 a2 a3 a4 a5 a6 a7) = (refl, refl)
texture_command-IsServed (compressed_tex_sub_image_2d a0 a1 a2 a3 a4 a5 a6 a7 a8) = (refl, refl)
texture_command-IsServed (copy_tex_image_2d a0 a1 a2 a3 a4 a5 a6 a7) = (refl, refl)
texture_command-IsServed (copy_tex_sub_image_2d a0 a1 a2 a3 a4 a5 a6 a7) = (refl, refl)
texture_command-IsServed (delete_textures a0 a1) = (refl, refl)
texture_command-IsServed (generate_mipmap a0) = (refl, refl)
texture_command-IsServed (gen_textures a0 a1) = (refl, refl)
texture_command-IsServed (get_tex_parameterfv a0 a1 a2) = refl
texture_command-IsServed (get_tex_parameteriv a0 a1 a2) = refl
texture_command-IsServed (is_texture a0) = (refl, refl)
texture_command-IsServed (pixel_storei a0 a1) = (refl, refl)
texture_command-IsServed (read_pixels a0 a1 a2 a3 a4 a5 a6) = (refl, refl)
texture_command-IsServed (tex_image_2d a0 a1 a2 a3 a4 a5 a6 a7 a8) = (refl, refl)
texture_command-IsServed (tex_parameterf a0 a1 a2) = (refl, refl)
texture_command-IsServed (tex_parameterfv a0 a1 a2) = refl
texture_command-IsServed (tex_parameteri a0 a1 a2) = (refl, refl)
texture_command-IsServed (tex_parameteriv a0 a1 a2) = refl
texture_command-IsServed (tex_sub_image_2d a0 a1 a2 a3 a4 a5 a6 a7 a8) = (refl, refl)
