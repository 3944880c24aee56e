-- ===== src/Gles/Raster.antt =====
-- Blending, depth, stencil and rasterisation: entry points of guest/shim/src/libGLESv2_bridge.c.
use vw_firmware_mac.Base.{ℕ, [], ◌∷◌}
use vw_firmware_mac.Gles.Command.{Command, call, nothing}
use vw_firmware_mac.Gles.Command.{scalar_word, scalar_byte}

-- glBlendColor
unfoldable pub gl_blend_color : ℕ → ℕ → ℕ → ℕ → Command
gl_blend_color red green blue alpha =
    call nothing 8
      ((scalar_word red) ∷ (scalar_word green) ∷ (scalar_word blue) ∷ (scalar_word alpha) ∷ [])

-- glBlendEquation
unfoldable pub gl_blend_equation : ℕ → Command
gl_blend_equation mode = call nothing 9 ((scalar_word mode) ∷ [])

-- glBlendEquationSeparate
unfoldable pub gl_blend_equation_separate : ℕ → ℕ → Command
gl_blend_equation_separate mode_rgb mode_alpha =
    call nothing 10 ((scalar_word mode_rgb) ∷ (scalar_word mode_alpha) ∷ [])

-- glBlendFunc
unfoldable pub gl_blend_func : ℕ → ℕ → Command
gl_blend_func sfactor dfactor = call nothing 11 ((scalar_word sfactor) ∷ (scalar_word dfactor) ∷ [])

-- glBlendFuncSeparate
unfoldable pub gl_blend_func_separate : ℕ → ℕ → ℕ → ℕ → Command
gl_blend_func_separate src_rgb dst_rgb src_alpha dst_alpha = call nothing 12 (
    (scalar_word src_rgb)
    ∷ (scalar_word dst_rgb)
    ∷ (scalar_word src_alpha)
    ∷ (scalar_word dst_alpha)
    ∷ [])

-- glColorMask
unfoldable pub gl_color_mask : ℕ → ℕ → ℕ → ℕ → Command
gl_color_mask red green blue alpha =
    call nothing 20
      ((scalar_byte red) ∷ (scalar_byte green) ∷ (scalar_byte blue) ∷ (scalar_byte alpha) ∷ [])

-- glCullFace
unfoldable pub gl_cull_face : ℕ → Command
gl_cull_face mode = call nothing 28 ((scalar_word mode) ∷ [])

-- glDepthFunc
unfoldable pub gl_depth_func : ℕ → Command
gl_depth_func func = call nothing 35 ((scalar_word func) ∷ [])

-- glDepthMask
unfoldable pub gl_depth_mask : ℕ → Command
gl_depth_mask flag = call nothing 36 ((scalar_byte flag) ∷ [])

-- glDepthRangef
unfoldable pub gl_depth_rangef : ℕ → ℕ → Command
gl_depth_rangef z_near z_far = call nothing 37 ((scalar_word z_near) ∷ (scalar_word z_far) ∷ [])

-- glFrontFace
unfoldable pub gl_front_face : ℕ → Command
gl_front_face mode = call nothing 49 ((scalar_word mode) ∷ [])

-- glPolygonOffset
unfoldable pub gl_polygon_offset : ℕ → ℕ → Command
gl_polygon_offset factor units = call nothing 92 ((scalar_word factor) ∷ (scalar_word units) ∷ [])

-- glSampleCoverage
unfoldable pub gl_sample_coverage : ℕ → ℕ → Command
gl_sample_coverage value invert = call nothing 96 ((scalar_word value) ∷ (scalar_byte invert) ∷ [])

-- glStencilFunc
unfoldable pub gl_stencil_func : ℕ → ℕ → ℕ → Command
gl_stencil_func func ref mask =
    call nothing 100 ((scalar_word func) ∷ (scalar_word ref) ∷ (scalar_word mask) ∷ [])

-- glStencilFuncSeparate
unfoldable pub gl_stencil_func_separate : ℕ → ℕ → ℕ → ℕ → Command
gl_stencil_func_separate face func ref mask =
    call nothing 101
      ((scalar_word face) ∷ (scalar_word func) ∷ (scalar_word ref) ∷ (scalar_word mask) ∷ [])

-- glStencilMask
unfoldable pub gl_stencil_mask : ℕ → Command
gl_stencil_mask mask = call nothing 102 ((scalar_word mask) ∷ [])

-- glStencilMaskSeparate
unfoldable pub gl_stencil_mask_separate : ℕ → ℕ → Command
gl_stencil_mask_separate face mask = call nothing 103 ((scalar_word face) ∷ (scalar_word mask) ∷ [])

-- glStencilOp
unfoldable pub gl_stencil_op : ℕ → ℕ → ℕ → Command
gl_stencil_op fail zfail zpass =
    call nothing 104 ((scalar_word fail) ∷ (scalar_word zfail) ∷ (scalar_word zpass) ∷ [])

-- glStencilOpSeparate
unfoldable pub gl_stencil_op_separate : ℕ → ℕ → ℕ → ℕ → Command
gl_stencil_op_separate face fail zfail zpass =
    call nothing 105
      ((scalar_word face) ∷ (scalar_word fail) ∷ (scalar_word zfail) ∷ (scalar_word zpass) ∷ [])

-- A call of one of these entry points, with its arguments.
pub data RasterCall : Type 0 where
  blend_color : ℕ → ℕ → ℕ → ℕ → RasterCall
  blend_equation : ℕ → RasterCall
  blend_equation_separate : ℕ → ℕ → RasterCall
  blend_func : ℕ → ℕ → RasterCall
  blend_func_separate : ℕ → ℕ → ℕ → ℕ → RasterCall
  color_mask : ℕ → ℕ → ℕ → ℕ → RasterCall
  cull_face : ℕ → RasterCall
  depth_func : ℕ → RasterCall
  depth_mask : ℕ → RasterCall
  depth_rangef : ℕ → ℕ → RasterCall
  front_face : ℕ → RasterCall
  polygon_offset : ℕ → ℕ → RasterCall
  sample_coverage : ℕ → ℕ → RasterCall
  stencil_func : ℕ → ℕ → ℕ → RasterCall
  stencil_func_separate : ℕ → ℕ → ℕ → ℕ → RasterCall
  stencil_mask : ℕ → RasterCall
  stencil_mask_separate : ℕ → ℕ → RasterCall
  stencil_op : ℕ → ℕ → ℕ → RasterCall
  stencil_op_separate : ℕ → ℕ → ℕ → ℕ → RasterCall

-- The number of the operation: the place of the entry point in the file.
unfoldable pub raster_operation : RasterCall → ℕ
raster_operation (blend_color _ _ _ _) = 8
raster_operation (blend_equation _) = 9
raster_operation (blend_equation_separate _ _) = 10
raster_operation (blend_func _ _) = 11
raster_operation (blend_func_separate _ _ _ _) = 12
raster_operation (color_mask _ _ _ _) = 20
raster_operation (cull_face _) = 28
raster_operation (depth_func _) = 35
raster_operation (depth_mask _) = 36
raster_operation (depth_rangef _ _) = 37
raster_operation (front_face _) = 49
raster_operation (polygon_offset _ _) = 92
raster_operation (sample_coverage _ _) = 96
raster_operation (stencil_func _ _ _) = 100
raster_operation (stencil_func_separate _ _ _ _) = 101
raster_operation (stencil_mask _) = 102
raster_operation (stencil_mask_separate _ _) = 103
raster_operation (stencil_op _ _ _) = 104
raster_operation (stencil_op_separate _ _ _ _) = 105

unfoldable pub raster_command : RasterCall → Command
unfolding gl_blend_color gl_blend_equation gl_blend_equation_separate gl_blend_func
    gl_blend_func_separate gl_color_mask gl_cull_face gl_depth_func gl_depth_mask gl_depth_rangef
    gl_front_face gl_polygon_offset gl_sample_coverage gl_stencil_func gl_stencil_func_separate
    gl_stencil_mask gl_stencil_mask_separate gl_stencil_op gl_stencil_op_separate
raster_command (blend_color red green blue alpha) = gl_blend_color red green blue alpha
raster_command (blend_equation mode) = gl_blend_equation mode
raster_command (blend_equation_separate mode_rgb mode_alpha) =
    gl_blend_equation_separate mode_rgb mode_alpha
raster_command (blend_func sfactor dfactor) = gl_blend_func sfactor dfactor
raster_command (blend_func_separate src_rgb dst_rgb src_alpha dst_alpha) =
    gl_blend_func_separate src_rgb dst_rgb src_alpha dst_alpha
raster_command (color_mask red green blue alpha) = gl_color_mask red green blue alpha
raster_command (cull_face mode) = gl_cull_face mode
raster_command (depth_func func) = gl_depth_func func
raster_command (depth_mask flag) = gl_depth_mask flag
raster_command (depth_rangef z_near z_far) = gl_depth_rangef z_near z_far
raster_command (front_face mode) = gl_front_face mode
raster_command (polygon_offset factor units) = gl_polygon_offset factor units
raster_command (sample_coverage value invert) = gl_sample_coverage value invert
raster_command (stencil_func func ref mask) = gl_stencil_func func ref mask
raster_command (stencil_func_separate face func ref mask) =
    gl_stencil_func_separate face func ref mask
raster_command (stencil_mask mask) = gl_stencil_mask mask
raster_command (stencil_mask_separate face mask) = gl_stencil_mask_separate face mask
raster_command (stencil_op fail zfail zpass) = gl_stencil_op fail zfail zpass
raster_command (stencil_op_separate face fail zfail zpass) =
    gl_stencil_op_separate face fail zfail zpass
