-- ===== src/Gles/Textures.antt =====
-- Textures and pixels: entry points of guest/shim/src/libGLESv2_bridge.c.
use vw_firmware_mac.Base.{ℕ, [], ◌∷◌}
use vw_firmware_mac.Rpc.Client.{invalid_operation}
use vw_firmware_mac.Gles.Command.{Memory, Command, call, refuse, nothing, byte}
use vw_firmware_mac.Gles.Command.{scalar_word, input, output, words}
use vw_firmware_mac.Gles.Command.{pixel_bytes}

-- glActiveTexture
unfoldable pub gl_active_texture : ℕ → Command
gl_active_texture texture = call nothing 1 ((scalar_word texture) ∷ [])

-- glBindTexture
unfoldable pub gl_bind_texture : ℕ → ℕ → Command
gl_bind_texture target texture = call nothing 7 ((scalar_word target) ∷ (scalar_word texture) ∷ [])

-- glCompressedTexImage2D
unfoldable pub gl_compressed_tex_image_2d : ℕ → ℕ → ℕ → ℕ → ℕ → ℕ → ℕ → Memory → Command
gl_compressed_tex_image_2d target level internalformat width height border image_size bytes =
    call nothing 22 (
      (scalar_word target)
      ∷ (scalar_word level)
      ∷ (scalar_word internalformat)
      ∷ (scalar_word width)
      ∷ (scalar_word height)
      ∷ (scalar_word border)
      ∷ (scalar_word image_size)
      ∷ (input bytes image_size)
      ∷ [])

-- glCompressedTexSubImage2D
unfoldable pub gl_compressed_tex_sub_image_2d : ℕ → ℕ → ℕ → ℕ → ℕ → ℕ → ℕ → ℕ → Memory → Command
gl_compressed_tex_sub_image_2d target level xoffset yoffset width height format image_size bytes =
    call nothing 23 (
      (scalar_word target)
      ∷ (scalar_word level)
      ∷ (scalar_word xoffset)
      ∷ (scalar_word yoffset)
      ∷ (scalar_word width)
      ∷ (scalar_word height)
      ∷ (scalar_word format)
      ∷ (scalar_word image_size)
      ∷ (input bytes image_size)
      ∷ [])

-- glCopyTexImage2D
unfoldable pub gl_copy_tex_image_2d : ℕ → ℕ → ℕ → ℕ → ℕ → ℕ → ℕ → ℕ → Command
gl_copy_tex_image_2d target level internalformat x y width height border = call nothing 24 (
    (scalar_word target)
    ∷ (scalar_word level)
    ∷ (scalar_word internalformat)
    ∷ (scalar_word x)
    ∷ (scalar_word y)
    ∷ (scalar_word width)
    ∷ (scalar_word height)
    ∷ (scalar_word border)
    ∷ [])

-- glCopyTexSubImage2D
unfoldable pub gl_copy_tex_sub_image_2d : ℕ → ℕ → ℕ → ℕ → ℕ → ℕ → ℕ → ℕ → Command
gl_copy_tex_sub_image_2d target level xoffset yoffset x y width height = call nothing 25 (
    (scalar_word target)
    ∷ (scalar_word level)
    ∷ (scalar_word xoffset)
    ∷ (scalar_word yoffset)
    ∷ (scalar_word x)
    ∷ (scalar_word y)
    ∷ (scalar_word width)
    ∷ (scalar_word height)
    ∷ [])

-- glDeleteTextures
unfoldable pub gl_delete_textures : ℕ → Memory → Command
gl_delete_textures n textures =
    call nothing 34 ((scalar_word n) ∷ (input textures (words n 1)) ∷ [])

-- glGenerateMipmap
unfoldable pub gl_generate_mipmap : ℕ → Command
gl_generate_mipmap target = call nothing 51 ((scalar_word target) ∷ [])

-- glGenTextures
unfoldable pub gl_gen_textures : ℕ → Memory → Command
gl_gen_textures n textures = call nothing 54 ((scalar_word n) ∷ (output textures (words n 1)) ∷ [])

-- glGetTexParameterfv
unfoldable pub gl_get_tex_parameterfv : ℕ → ℕ → Memory → Command
gl_get_tex_parameterfv target pname params = refuse invalid_operation

-- glGetTexParameteriv
unfoldable pub gl_get_tex_parameteriv : ℕ → ℕ → Memory → Command
gl_get_tex_parameteriv target pname params = refuse invalid_operation

-- glIsTexture
unfoldable pub gl_is_texture : ℕ → Command
gl_is_texture texture = call byte 88 ((scalar_word texture) ∷ [])

-- glPixelStorei
unfoldable pub gl_pixel_storei : ℕ → ℕ → Command
gl_pixel_storei pname param = call nothing 91 ((scalar_word pname) ∷ (scalar_word param) ∷ [])

-- glReadPixels
unfoldable pub gl_read_pixels : ℕ → ℕ → ℕ → ℕ → ℕ → ℕ → Memory → Command
gl_read_pixels x y width height format kind pixels = call nothing 93 (
    (scalar_word x)
    ∷ (scalar_word y)
    ∷ (scalar_word width)
    ∷ (scalar_word height)
    ∷ (scalar_word format)
    ∷ (scalar_word kind)
    ∷ (output pixels (pixel_bytes width height format kind))
    ∷ [])

-- glTexImage2D
unfoldable pub gl_tex_image_2d : ℕ → ℕ → ℕ → ℕ → ℕ → ℕ → ℕ → ℕ → Memory → Command
gl_tex_image_2d target level internalformat width height border format kind pixels =
    call nothing 106 (
      (scalar_word target)
      ∷ (scalar_word level)
      ∷ (scalar_word internalformat)
      ∷ (scalar_word width)
      ∷ (scalar_word height)
      ∷ (scalar_word border)
      ∷ (scalar_word format)
      ∷ (scalar_word kind)
      ∷ (input pixels (pixel_bytes width height format kind))
      ∷ [])

-- glTexParameterf
unfoldable pub gl_tex_parameterf : ℕ → ℕ → ℕ → Command
gl_tex_parameterf target pname param =
    call nothing 107 ((scalar_word target) ∷ (scalar_word pname) ∷ (scalar_word param) ∷ [])

-- glTexParameterfv
unfoldable pub gl_tex_parameterfv : ℕ → ℕ → Memory → Command
gl_tex_parameterfv target pname params = refuse invalid_operation

-- glTexParameteri
unfoldable pub gl_tex_parameteri : ℕ → ℕ → ℕ → Command
gl_tex_parameteri target pname param =
    call nothing 109 ((scalar_word target) ∷ (scalar_word pname) ∷ (scalar_word param) ∷ [])

-- glTexParameteriv
unfoldable pub gl_tex_parameteriv : ℕ → ℕ → Memory → Command
gl_tex_parameteriv target pname params = refuse invalid_operation

-- glTexSubImage2D
unfoldable pub gl_tex_sub_image_2d : ℕ → ℕ → ℕ → ℕ → ℕ → ℕ → ℕ → ℕ → Memory → Command
gl_tex_sub_image_2d target level xoffset yoffset width height format kind pixels =
    call nothing 111 (
      (scalar_word target)
      ∷ (scalar_word level)
      ∷ (scalar_word xoffset)
      ∷ (scalar_word yoffset)
      ∷ (scalar_word width)
      ∷ (scalar_word height)
      ∷ (scalar_word format)
      ∷ (scalar_word kind)
      ∷ (input pixels (pixel_bytes width height format kind))
      ∷ [])

-- A call of one of these entry points, with its arguments.
pub data TextureCall : Type 0 where
  active_texture : ℕ → TextureCall
  bind_texture : ℕ → ℕ → TextureCall
  compressed_tex_image_2d : ℕ → ℕ → ℕ → ℕ → ℕ → ℕ → ℕ → Memory → TextureCall
  compressed_tex_sub_image_2d : ℕ → ℕ → ℕ → ℕ → ℕ → ℕ → ℕ → ℕ → Memory → TextureCall
  copy_tex_image_2d : ℕ → ℕ → ℕ → ℕ → ℕ → ℕ → ℕ → ℕ → TextureCall
  copy_tex_sub_image_2d : ℕ → ℕ → ℕ → ℕ → ℕ → ℕ → ℕ → ℕ → TextureCall
  delete_textures : ℕ → Memory → TextureCall
  generate_mipmap : ℕ → TextureCall
  gen_textures : ℕ → Memory → TextureCall
  get_tex_parameterfv : ℕ → ℕ → Memory → TextureCall
  get_tex_parameteriv : ℕ → ℕ → Memory → TextureCall
  is_texture : ℕ → TextureCall
  pixel_storei : ℕ → ℕ → TextureCall
  read_pixels : ℕ → ℕ → ℕ → ℕ → ℕ → ℕ → Memory → TextureCall
  tex_image_2d : ℕ → ℕ → ℕ → ℕ → ℕ → ℕ → ℕ → ℕ → Memory → TextureCall
  tex_parameterf : ℕ → ℕ → ℕ → TextureCall
  tex_parameterfv : ℕ → ℕ → Memory → TextureCall
  tex_parameteri : ℕ → ℕ → ℕ → TextureCall
  tex_parameteriv : ℕ → ℕ → Memory → TextureCall
  tex_sub_image_2d : ℕ → ℕ → ℕ → ℕ → ℕ → ℕ → ℕ → ℕ → Memory → TextureCall

-- The number of the operation: the place of the entry point in the file.
unfoldable pub texture_operation : TextureCall → ℕ
texture_operation (active_texture _) = 1
texture_operation (bind_texture _ _) = 7
texture_operation (compressed_tex_image_2d _ _ _ _ _ _ _ _) = 22
texture_operation (compressed_tex_sub_image_2d _ _ _ _ _ _ _ _ _) = 23
texture_operation (copy_tex_image_2d _ _ _ _ _ _ _ _) = 24
texture_operation (copy_tex_sub_image_2d _ _ _ _ _ _ _ _) = 25
texture_operation (delete_textures _ _) = 34
texture_operation (generate_mipmap _) = 51
texture_operation (gen_textures _ _) = 54
texture_operation (get_tex_parameterfv _ _ _) = 73
texture_operation (get_tex_parameteriv _ _ _) = 74
texture_operation (is_texture _) = 88
texture_operation (pixel_storei _ _) = 91
texture_operation (read_pixels _ _ _ _ _ _ _) = 93
texture_operation (tex_image_2d _ _ _ _ _ _ _ _ _) = 106
texture_operation (tex_parameterf _ _ _) = 107
texture_operation (tex_parameterfv _ _ _) = 108
texture_operation (tex_parameteri _ _ _) = 109
texture_operation (tex_parameteriv _ _ _) = 110
texture_operation (tex_sub_image_2d _ _ _ _ _ _ _ _ _) = 111

unfoldable pub texture_command : TextureCall → Command
unfolding gl_active_texture gl_bind_texture gl_compressed_tex_image_2d
    gl_compressed_tex_sub_image_2d gl_copy_tex_image_2d gl_copy_tex_sub_image_2d gl_delete_textures
    gl_generate_mipmap gl_gen_textures gl_get_tex_parameterfv gl_get_tex_parameteriv gl_is_texture
    gl_pixel_storei gl_read_pixels gl_tex_image_2d gl_tex_parameterf gl_tex_parameterfv
    gl_tex_parameteri gl_tex_parameteriv gl_tex_sub_image_2d
texture_command (active_texture texture) = gl_active_texture texture
texture_command (bind_texture target texture) = gl_bind_texture target texture
texture_command
      (compressed_tex_image_2d target level internalformat width height border image_size bytes) =
    gl_compressed_tex_image_2d target level internalformat width height border image_size bytes
texture_command
      (compressed_tex_sub_image_2d target level xoffset yoffset width height format image_size
        bytes) =
    gl_compressed_tex_sub_image_2d target level xoffset yoffset width height format image_size bytes
texture_command (copy_tex_image_2d target level internalformat x y width height border) =
    gl_copy_tex_image_2d target level internalformat x y width height border
texture_command (copy_tex_sub_image_2d target level xoffset yoffset x y width height) =
    gl_copy_tex_sub_image_2d target level xoffset yoffset x y width height
texture_command (delete_textures n textures) = gl_delete_textures n textures
texture_command (generate_mipmap target) = gl_generate_mipmap target
texture_command (gen_textures n textures) = gl_gen_textures n textures
texture_command (get_tex_parameterfv target pname params) =
    gl_get_tex_parameterfv target pname params
texture_command (get_tex_parameteriv target pname params) =
    gl_get_tex_parameteriv target pname params
texture_command (is_texture texture) = gl_is_texture texture
texture_command (pixel_storei pname param) = gl_pixel_storei pname param
texture_command (read_pixels x y width height format kind pixels) =
    gl_read_pixels x y width height format kind pixels
texture_command (tex_image_2d target level internalformat width height border format kind pixels) =
    gl_tex_image_2d target level internalformat width height border format kind pixels
texture_command (tex_parameterf target pname param) = gl_tex_parameterf target pname param
texture_command (tex_parameterfv target pname params) = gl_tex_parameterfv target pname params
texture_command (tex_parameteri target pname param) = gl_tex_parameteri target pname param
texture_command (tex_parameteriv target pname params) = gl_tex_parameteriv target pname params
texture_command (tex_sub_image_2d target level xoffset yoffset width height format kind pixels) =
    gl_tex_sub_image_2d target level xoffset yoffset width height format kind pixels
