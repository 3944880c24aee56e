-- ===== src/Stubs/Gles/Raster.antt =====
-- The raster state of guest/shim/src/libGLESv2_stub.c: each entry point, under its name, and what it logs.
use vw_firmware_mac.Base.{ℕ, [], ◌∷◌}
use vw_firmware_mac.Stubs.Log.{uint, sint, real, line, nothing, Reply, answers}
use vw_firmware_mac.Stubs.Names.{GlStub}

unfoldable pub stub_blend_color : ℕ → ℕ → ℕ → ℕ → Reply
stub_blend_color red green blue alpha =
    answers
      ((line "glBlendColor"
          (real "red" red ∷ real "green" green ∷ real "blue" blue ∷ real "alpha" alpha ∷ []))
        ∷ [])
      nothing []

unfoldable pub stub_blend_equation : ℕ → Reply
stub_blend_equation mode =
    answers ((line "glBlendEquation" (uint "mode" mode ∷ [])) ∷ []) nothing []

unfoldable pub stub_blend_equation_separate : ℕ → ℕ → Reply
stub_blend_equation_separate mode_rgb mode_alpha =
    answers
      ((line "glBlendEquationSeparate" (uint "modeRGB" mode_rgb ∷ uint "modeAlpha" mode_alpha ∷ []))
        ∷ [])
      nothing []

unfoldable pub stub_blend_func : ℕ → ℕ → Reply
stub_blend_func sfactor dfactor =
    answers ((line "glBlendFunc" (uint "sfactor" sfactor ∷ uint "dfactor" dfactor ∷ [])) ∷ [])
      nothing []

unfoldable pub stub_blend_func_separate : ℕ → ℕ → ℕ → ℕ → Reply
stub_blend_func_separate src_rgb dst_rgb src_alpha dst_alpha =
    answers
      ((line "glBlendFuncSeparate" (
          uint "srcRGB" src_rgb
          ∷ uint "dstRGB" dst_rgb
          ∷ uint "srcAlpha" src_alpha
          ∷ uint "dstAlpha" dst_alpha
          ∷ []))
        ∷ [])
      nothing []

unfoldable pub stub_color_mask : ℕ → ℕ → ℕ → ℕ → Reply
stub_color_mask red green blue alpha =
    answers
      ((line "glColorMask"
          (sint "red" red ∷ sint "green" green ∷ sint "blue" blue ∷ sint "alpha" alpha ∷ []))
        ∷ [])
      nothing []

unfoldable pub stub_cull_face : ℕ → Reply
stub_cull_face mode = answers ((line "glCullFace" (uint "mode" mode ∷ [])) ∷ []) nothing []

unfoldable pub stub_depth_func : ℕ → Reply
stub_depth_func func = answers ((line "glDepthFunc" (uint "func" func ∷ [])) ∷ []) nothing []

unfoldable pub stub_depth_mask : ℕ → Reply
stub_depth_mask flag = answers ((line "glDepthMask" (sint "flag" flag ∷ [])) ∷ []) nothing []

unfoldable pub stub_depth_rangef : ℕ → ℕ → Reply
stub_depth_rangef z_near z_far =
    answers ((line "glDepthRangef" (real "zNear" z_near ∷ real "zFar" z_far ∷ [])) ∷ []) nothing []

unfoldable pub stub_front_face : ℕ → Reply
stub_front_face mode = answers ((line "glFrontFace" (uint "mode" mode ∷ [])) ∷ []) nothing []

unfoldable pub stub_polygon_offset : ℕ → ℕ → Reply
stub_polygon_offset factor units =
    answers ((line "glPolygonOffset" (real "factor" factor ∷ real "units" units ∷ [])) ∷ []) nothing
      []

unfoldable pub stub_sample_coverage : ℕ → ℕ → Reply
stub_sample_coverage value invert =
    answers ((line "glSampleCoverage" (real "value" value ∷ sint "invert" invert ∷ [])) ∷ [])
      nothing []

unfoldable pub stub_stencil_func : ℕ → ℕ → ℕ → Reply
stub_stencil_func func ref mask =
    answers
      ((line "glStencilFunc" (uint "func" func ∷ sint "ref" ref ∷ uint "mask" mask ∷ [])) ∷ [])
      nothing []

unfoldable pub stub_stencil_func_separate : ℕ → ℕ → ℕ → ℕ → Reply
stub_stencil_func_separate face func ref mask =
    answers
      ((line "glStencilFuncSeparate"
          (uint "face" face ∷ uint "func" func ∷ sint "ref" ref ∷ uint "mask" mask ∷ []))
        ∷ [])
      nothing []

unfoldable pub stub_stencil_mask : ℕ → Reply
stub_stencil_mask mask = answers ((line "glStencilMask" (uint "mask" mask ∷ [])) ∷ []) nothing []

unfoldable pub stub_stencil_mask_separate : ℕ → ℕ → Reply
stub_stencil_mask_separate face mask =
    answers ((line "glStencilMaskSeparate" (uint "face" face ∷ uint "mask" mask ∷ [])) ∷ []) nothing
      []

unfoldable pub stub_stencil_op : ℕ → ℕ → ℕ → Reply
stub_stencil_op fail zfail zpass =
    answers
      ((line "glStencilOp" (uint "fail" fail ∷ uint "zfail" zfail ∷ uint "zpass" zpass ∷ [])) ∷ [])
      nothing []

unfoldable pub stub_stencil_op_separate : ℕ → ℕ → ℕ → ℕ → Reply
stub_stencil_op_separate face fail zfail zpass =
    answers
      ((line "glStencilOpSeparate"
          (uint "face" face ∷ uint "fail" fail ∷ uint "zfail" zfail ∷ uint "zpass" zpass ∷ []))
        ∷ [])
      nothing []

-- The entry points as data, and what a call does.
pub data RasterEntry : Type 0 where
  blend_color : ℕ → ℕ → ℕ → ℕ → RasterEntry
  blend_equation : ℕ → RasterEntry
  blend_equation_separate : ℕ → ℕ → RasterEntry
  blend_func : ℕ → ℕ → RasterEntry
  blend_func_separate : ℕ → ℕ → ℕ → ℕ → RasterEntry
  color_mask : ℕ → ℕ → ℕ → ℕ → RasterEntry
  cull_face : ℕ → RasterEntry
  depth_func : ℕ → RasterEntry
  depth_mask : ℕ → RasterEntry
  depth_rangef : ℕ → ℕ → RasterEntry
  front_face : ℕ → RasterEntry
  polygon_offset : ℕ → ℕ → RasterEntry
  sample_coverage : ℕ → ℕ → RasterEntry
  stencil_func : ℕ → ℕ → ℕ → RasterEntry
  stencil_func_separate : ℕ → ℕ → ℕ → ℕ → RasterEntry
  stencil_mask : ℕ → RasterEntry
  stencil_mask_separate : ℕ → ℕ → RasterEntry
  stencil_op : ℕ → ℕ → ℕ → RasterEntry
  stencil_op_separate : ℕ → ℕ → ℕ → ℕ → RasterEntry

unfoldable pub raster_reply : RasterEntry → GlStub → Reply × GlStub
raster_reply (blend_color red green blue alpha) s = (stub_blend_color red green blue alpha, s)
raster_reply (blend_equation mode) s = (stub_blend_equation mode, s)
raster_reply (blend_equation_separate mode_rgb mode_alpha) s =
    (stub_blend_equation_separate mode_rgb mode_alpha, s)
raster_reply (blend_func sfactor dfactor) s = (stub_blend_func sfactor dfactor, s)
raster_reply (blend_func_separate src_rgb dst_rgb src_alpha dst_alpha) s =
    (stub_blend_func_separate src_rgb dst_rgb src_alpha dst_alpha, s)
raster_reply (color_mask red green blue alpha) s = (stub_color_mask red green blue alpha, s)
raster_reply (cull_face mode) s = (stub_cull_face mode, s)
raster_reply (depth_func func) s = (stub_depth_func func, s)
raster_reply (depth_mask flag) s = (stub_depth_mask flag, s)
raster_reply (depth_rangef z_near z_far) s = (stub_depth_rangef z_near z_far, s)
raster_reply (front_face mode) s = (stub_front_face mode, s)
raster_reply (polygon_offset factor units) s = (stub_polygon_offset factor units, s)
raster_reply (sample_coverage value invert) s = (stub_sample_coverage value invert, s)
raster_reply (stencil_func func ref mask) s = (stub_stencil_func func ref mask, s)
raster_reply (stencil_func_separate face func ref mask) s =
    (stub_stencil_func_separate face func ref mask, s)
raster_reply (stencil_mask mask) s = (stub_stencil_mask mask, s)
raster_reply (stencil_mask_separate face mask) s = (stub_stencil_mask_separate face mask, s)
raster_reply (stencil_op fail zfail zpass) s = (stub_stencil_op fail zfail zpass, s)
raster_reply (stencil_op_separate face fail zfail zpass) s =
    (stub_stencil_op_separate face fail zfail zpass, s)
