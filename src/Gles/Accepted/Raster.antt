-- ===== src/Gles/Accepted/Raster.antt =====
-- The host accepts what the entry points of Gles/Raster.antt send.
use vw_firmware_mac.Base.{refl}
use vw_firmware_mac.Gles.Accepted.Check.{IsServed, checks, outcome_of}
use vw_firmware_mac.Gles.Raster.{
  RasterCall, raster_command, raster_operation, blend_color, blend_equation,
  blend_equation_separate, blend_func, blend_func_separate, color_mask, cull_face, depth_func,
  depth_mask, depth_rangef, front_face, polygon_offset, sample_coverage, stencil_func,
  stencil_func_separate, stencil_mask, stencil_mask_separate, stencil_op, stencil_op_separate,
}

pub raster_command-IsServed :
    (c : RasterCall)
    → IsServed (raster_operation c) (outcome_of (raster_operation c)) (raster_command c)
unfolding checks outcome_of raster_command raster_operation
raster_command-IsServed (blend_color a0 a1 a2 a3) = (refl, refl)
raster_command-IsServed (blend_equation a0) = (refl, refl)
raster_command-IsServed (blend_equation_separate a0 a1) = (refl, refl)
raster_command-IsServed (blend_func a0 a1) = (refl, refl)
raster_command-IsServed (blend_func_separate a0 a1 a2 a3) = (refl, refl)
raster_command-IsServed (color_mask a0 a1 a2 a3) = (refl, refl)
raster_command-IsServed (cull_face a0) = (refl, refl)
raster_command-IsServed (depth_func a0) = (refl, refl)
raster_command-IsServed (depth_mask a0) = (refl, refl)
raster_command-IsServed (depth_rangef a0 a1) = (refl, refl)
raster_command-IsServed (front_face a0) = (refl, refl)
raster_command-IsServed (polygon_offset a0 a1) = (refl, refl)
raster_command-IsServed (sample_coverage a0 a1) = (refl, refl)
raster_command-IsServed (stencil_func a0 a1 a2) = (refl, refl)
raster_command-IsServed (stencil_func_separate a0 a1 a2 a3) = (refl, refl)
raster_command-IsServed (stencil_mask a0) = (refl, refl)
raster_command-IsServed (stencil_mask_separate a0 a1) = (refl, refl)
raster_command-IsServed (stencil_op a0 a1 a2) = (refl, refl)
raster_command-IsServed (stencil_op_separate a0 a1 a2 a3) = (refl, refl)
