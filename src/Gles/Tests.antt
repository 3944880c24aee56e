-- ===== src/Gles/Tests.antt =====
-- An entry point at concrete arguments.
use vw_firmware_mac.Base.{[], ◌∷◌, some}
use vw_firmware_mac.Gles.Command.{Bridge}
use vw_firmware_mac.Gles.Textures.{tex_image_2d}
use vw_firmware_mac.Gles.Calls.{
  GlCall, texture, operation, outcome, gl_command, gl_command-IsServed,
}
use vw_firmware_mac.Gles.Accepted.Check.{IsServed}

abbrev bridge : Bridge
bridge = record { array_buffer = 0; element_buffer = 0 }

-- glTexImage2D with one RGBA pixel.
abbrev one_pixel : GlCall
one_pixel = texture (tex_image_2d 0x0DE1 0 0x1908 1 1 0 0x1908 0x1401 (some (1 ∷ 2 ∷ 3 ∷ 4 ∷ [])))

gl_command-IsServed_example :
    IsServed (operation one_pixel) (outcome bridge 0 one_pixel) (gl_command bridge 0 one_pixel).1
gl_command-IsServed_example = gl_command-IsServed bridge 0 one_pixel
