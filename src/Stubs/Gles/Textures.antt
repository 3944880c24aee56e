-- ===== src/Stubs/Gles/Textures.antt =====
-- Textures of guest/shim/src/libGLESv2_stub.c: each entry point, under its name, and what it logs.
use vw_firmware_mac.Base.{ℕ, ◌+◌, ◌*◌, ◌%◌, ◌^◌, [], ◌∷◌}
use vw_firmware_mac.Stubs.Log.{
  uint, sint, real, addr, line, nothing, number, store, zeros, Reply, answers,
}
use vw_firmware_mac.Stubs.Names.{GlStub, names, rounds}

unfoldable pub stub_active_texture : ℕ → Reply
stub_active_texture texture =
    answers ((line "glActiveTexture" (uint "texture" texture ∷ [])) ∷ []) nothing []

unfoldable pub stub_bind_texture : ℕ → ℕ → Reply
stub_bind_texture target texture =
    answers ((line "glBindTexture" (uint "target" target ∷ uint "texture" texture ∷ [])) ∷ [])
      nothing []

unfoldable pub stub_compressed_tex_image_2d : ℕ → ℕ → ℕ → ℕ → ℕ → ℕ → ℕ → ℕ → Reply
stub_compressed_tex_image_2d target level internalformat width height border image_size bytes =
    answers
      ((line "glCompressedTexImage2D" (
          uint "target" target
          ∷ sint "level" level
          ∷ uint "internalformat" internalformat
          ∷ sint "width" width
          ∷ sint "height" height
          ∷ sint "border" border
          ∷ sint "imageSize" image_size
          ∷ addr "data" bytes
          ∷ []))
        ∷ [])
      nothing []

unfoldable pub stub_compressed_tex_sub_image_2d : ℕ → ℕ → ℕ → ℕ → ℕ → ℕ → ℕ → ℕ → ℕ → Reply
stub_compressed_tex_sub_image_2d target level xoffset yoffset width height format image_size bytes =
    answers
      ((line "glCompressedTexSubImage2D" (
          uint "target" target
          ∷ sint "level" level
          ∷ sint "xoffset" xoffset
          ∷ sint "yoffset" yoffset
          ∷ sint "width" width
          ∷ sint "height" height
          ∷ uint "format" format
          ∷ sint "imageSize" image_size
          ∷ addr "data" bytes
          ∷ []))
        ∷ [])
      nothing []

unfoldable pub stub_copy_tex_image_2d : ℕ → ℕ → ℕ → ℕ → ℕ → ℕ → ℕ → ℕ → Reply
stub_copy_tex_image_2d target level internalformat x y width height border =
    answers
      ((line "glCopyTexImage2D" (
          uint "target" target
          ∷ sint "level" level
          ∷ uint "internalformat" internalformat
          ∷ sint "x" x
          ∷ sint "y" y
          ∷ sint "width" width
          ∷ sint "height" height
          ∷ sint "border" border
          ∷ []))
        ∷ [])
      nothing []

unfoldable pub stub_copy_tex_sub_image_2d : ℕ → ℕ → ℕ → ℕ → ℕ → ℕ → ℕ → ℕ → Reply
stub_copy_tex_sub_image_2d target level xoffset yoffset x y width height =
    answers
      ((line "glCopyTexSubImage2D" (
          uint "target" target
          ∷ sint "level" level
          ∷ sint "xoffset" xoffset
          ∷ sint "yoffset" yoffset
          ∷ sint "x" x
          ∷ sint "y" y
          ∷ sint "width" width
          ∷ sint "height" height
          ∷ []))
        ∷ [])
      nothing []

unfoldable pub stub_delete_textures : ℕ → ℕ → Reply
stub_delete_textures n textures =
    answers ((line "glDeleteTextures" (sint "n" n ∷ addr "textures" textures ∷ [])) ∷ []) nothing []

unfoldable pub stub_generate_mipmap : ℕ → Reply
stub_generate_mipmap target =
    answers ((line "glGenerateMipmap" (uint "target" target ∷ [])) ∷ []) nothing []

unfoldable pub stub_gen_textures : ℕ → ℕ → GlStub → Reply × GlStub
stub_gen_textures n textures s = (
  answers ((line "glGenTextures" (sint "n" n ∷ addr "textures" textures ∷ [])) ∷ []) nothing
      (names textures (rounds n) 0 (s.textures)),
  record s { textures = (s.textures + rounds n) % 2 ^ 32 },
)

unfoldable pub stub_get_tex_parameterfv : ℕ → ℕ → ℕ → Reply
stub_get_tex_parameterfv target pname params =
    answers
      ((line "glGetTexParameterfv"
          (uint "target" target ∷ uint "pname" pname ∷ addr "params" params ∷ []))
        ∷ [])
      nothing (store params 0 0 ∷ [])

unfoldable pub stub_get_tex_parameteriv : ℕ → ℕ → ℕ → Reply
stub_get_tex_parameteriv target pname params =
    answers
      ((line "glGetTexParameteriv"
          (uint "target" target ∷ uint "pname" pname ∷ addr "params" params ∷ []))
        ∷ [])
      nothing (store params 0 0 ∷ [])

unfoldable pub stub_is_texture : ℕ → Reply
stub_is_texture texture =
    answers ((line "glIsTexture" (uint "texture" texture ∷ [])) ∷ []) (number 1) []

unfoldable pub stub_pixel_storei : ℕ → ℕ → Reply
stub_pixel_storei pname param =
    answers ((line "glPixelStorei" (uint "pname" pname ∷ sint "param" param ∷ [])) ∷ []) nothing []

unfoldable pub stub_read_pixels : ℕ → ℕ → ℕ → ℕ → ℕ → ℕ → ℕ → Reply
stub_read_pixels x y width height format kind pixels =
    answers
      ((line "glReadPixels" (
          sint "x" x
          ∷ sint "y" y
          ∷ sint "width" width
          ∷ sint "height" height
          ∷ uint "format" format
          ∷ uint "type" kind
          ∷ addr "pixels" pixels
          ∷ []))
        ∷ [])
      nothing (zeros pixels (width * height * 4 % 2 ^ 32) ∷ [])

unfoldable pub stub_tex_image_2d : ℕ → ℕ → ℕ → ℕ → ℕ → ℕ → ℕ → ℕ → ℕ → Reply
stub_tex_image_2d target level internalformat width height border format kind pixels =
    answers
      ((line "glTexImage2D" (
          uint "target" target
          ∷ sint "level" level
          ∷ uint "internalformat" internalformat
          ∷ sint "width" width
          ∷ sint "height" height
          ∷ sint "border" border
          ∷ uint "format" format
          ∷ uint "type" kind
          ∷ addr "pixels" pixels
          ∷ []))
        ∷ [])
      nothing []

unfoldable pub stub_tex_parameterf : ℕ → ℕ → ℕ → Reply
stub_tex_parameterf target pname param =
    answers
      ((line "glTexParameterf"
          (uint "target" target ∷ uint "pname" pname ∷ real "param" param ∷ []))
        ∷ [])
      nothing []

unfoldable pub stub_tex_parameterfv : ℕ → ℕ → ℕ → Reply
stub_tex_parameterfv target pname params =
    answers
      ((line "glTexParameterfv"
          (uint "target" target ∷ uint "pname" pname ∷ addr "params" params ∷ []))
        ∷ [])
      nothing []

unfoldable pub stub_tex_parameteri : ℕ → ℕ → ℕ → Reply
stub_tex_parameteri target pname param =
    answers
      ((line "glTexParameteri"
          (uint "target" target ∷ uint "pname" pname ∷ sint "param" param ∷ []))
        ∷ [])
      nothing []

unfoldable pub stub_tex_parameteriv : ℕ → ℕ → ℕ → Reply
stub_tex_parameteriv target pname params =
    answers
      ((line "glTexParameteriv"
          (uint "target" target ∷ uint "pname" pname ∷ addr "params" params ∷ []))
        ∷ [])
      nothing []

unfoldable pub stub_tex_sub_image_2d : ℕ → ℕ → ℕ → ℕ → ℕ → ℕ → ℕ → ℕ → ℕ → Reply
stub_tex_sub_image_2d target level xoffset yoffset width height format kind pixels =
    answers
      ((line "glTexSubImage2D" (
          uint "target" target
          ∷ sint "level" level
          ∷ sint "xoffset" xoffset
          ∷ sint "yoffset" yoffset
          ∷ sint "width" width
          ∷ sint "height" height
          ∷ uint "format" format
          ∷ uint "type" kind
          ∷ addr "pixels" pixels
          ∷ []))
        ∷ [])
      nothing []

-- The entry points as data, and what a call does.
pub data TextureEntry : Type 0 where
  active_texture : ℕ → TextureEntry
  bind_texture : ℕ → ℕ → TextureEntry
  compressed_tex_image_2d : ℕ → ℕ → ℕ → ℕ → ℕ → ℕ → ℕ → ℕ → TextureEntry
  compressed_tex_sub_image_2d : ℕ → ℕ → ℕ → ℕ → ℕ → ℕ → ℕ → ℕ → ℕ → TextureEntry
  copy_tex_image_2d : ℕ → ℕ → ℕ → ℕ → ℕ → ℕ → ℕ → ℕ → TextureEntry
  copy_tex_sub_image_2d : ℕ → ℕ → ℕ → ℕ → ℕ → ℕ → ℕ → ℕ → TextureEntry
  delete_textures : ℕ → ℕ → TextureEntry
  generate_mipmap : ℕ → TextureEntry
  gen_textures : ℕ → ℕ → TextureEntry
  get_tex_parameterfv : ℕ → ℕ → ℕ → TextureEntry
  get_tex_parameteriv : ℕ → ℕ → ℕ → TextureEntry
  is_texture : ℕ → TextureEntry
  pixel_storei : ℕ → ℕ → TextureEntry
  read_pixels : ℕ → ℕ → ℕ → ℕ → ℕ → ℕ → ℕ → TextureEntry
  tex_image_2d : ℕ → ℕ → ℕ → ℕ → ℕ → ℕ → ℕ → ℕ → ℕ → TextureEntry
  tex_parameterf : ℕ → ℕ → ℕ → TextureEntry
  tex_parameterfv : ℕ → ℕ → ℕ → TextureEntry
  tex_parameteri : ℕ → ℕ → ℕ → TextureEntry
  tex_parameteriv : ℕ → ℕ → ℕ → TextureEntry
  tex_sub_image_2d : ℕ → ℕ → ℕ → ℕ → ℕ → ℕ → ℕ → ℕ → ℕ → TextureEntry

unfoldable pub texture_reply : TextureEntry → GlStub → Reply × GlStub
texture_reply (active_texture texture) s = (stub_active_texture texture, s)
texture_reply (bind_texture target texture) s = (stub_bind_texture target texture, s)
texture_reply
      (compressed_tex_image_2d target level internalformat width height border image_size bytes) s =
    (
      stub_compressed_tex_image_2d target level internalformat width height border image_size bytes,
      s,
    )
texture_reply
      (compressed_tex_sub_image_2d target level xoffset yoffset width height format image_size
        bytes)
      s =
    (
      stub_compressed_tex_sub_image_2d target level xoffset yoffset width height format image_size
          bytes,
      s,
    )
texture_reply (copy_tex_image_2d target level internalformat x y width height border) s =
    (stub_copy_tex_image_2d target level internalformat x y width height border, s)
texture_reply (copy_tex_sub_image_2d target level xoffset yoffset x y width height) s =
    (stub_copy_tex_sub_image_2d target level xoffset yoffset x y width height, s)
texture_reply (delete_textures n textures) s = (stub_delete_textures n textures, s)
texture_reply (generate_mipmap target) s = (stub_generate_mipmap target, s)
texture_reply (gen_textures n textures) s = stub_gen_textures n textures s
texture_reply (get_tex_parameterfv target pname params) s =
    (stub_get_tex_parameterfv target pname params, s)
texture_reply (get_tex_parameteriv target pname params) s =
    (stub_get_tex_parameteriv target pname params, s)
texture_reply (is_texture texture) s = (stub_is_texture texture, s)
texture_reply (pixel_storei pname param) s = (stub_pixel_storei pname param, s)
texture_reply (read_pixels x y width height format kind pixels) s =
    (stub_read_pixels x y width height format kind pixels, s)
texture_reply (tex_image_2d target level internalformat width height border format kind pixels) s =
    (stub_tex_image_2d target level internalformat width height border format kind pixels, s)
texture_reply (tex_parameterf target pname param) s = (stub_tex_parameterf target pname param, s)
texture_reply (tex_parameterfv target pname params) s =
    (stub_tex_parameterfv target pname params, s)
texture_reply (tex_parameteri target pname param) s = (stub_tex_parameteri target pname param, s)
texture_reply (tex_parameteriv target pname params) s =
    (stub_tex_parameteriv target pname params, s)
texture_reply (tex_sub_image_2d target level xoffset yoffset width height format kind pixels) s =
    (stub_tex_sub_image_2d target level xoffset yoffset width height format kind pixels, s)
