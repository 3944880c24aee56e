-- ===== src/Stubs/Gles/Drawing.antt =====
-- Drawing of guest/shim/src/libGLESv2_stub.c: each entry point, under its name, and what it logs.
use vw_firmware_mac.Base.{ℕ, [], ◌∷◌}
use vw_firmware_mac.Stubs.Log.{uint, sint, real, addr, line, nothing, Reply, answers}
use vw_firmware_mac.Stubs.Names.{GlStub}

unfoldable pub stub_clear : ℕ → Reply
stub_clear mask = answers ((line "glClear" (uint "mask" mask ∷ [])) ∷ []) nothing []

unfoldable pub stub_clear_color : ℕ → ℕ → ℕ → ℕ → Reply
stub_clear_color red green blue alpha =
    answers
      ((line "glClearColor"
          (real "red" red ∷ real "green" green ∷ real "blue" blue ∷ real "alpha" alpha ∷ []))
        ∷ [])
      nothing []

unfoldable pub stub_clear_depthf : ℕ → Reply
stub_clear_depthf depth = answers ((line "glClearDepthf" (real "depth" depth ∷ [])) ∷ []) nothing []

unfoldable pub stub_clear_stencil : ℕ → Reply
stub_clear_stencil index = answers ((line "glClearStencil" (sint "s" index ∷ [])) ∷ []) nothing []

unfoldable pub stub_disable : ℕ → Reply
stub_disable cap = answers ((line "glDisable" (uint "cap" cap ∷ [])) ∷ []) nothing []

unfoldable pub stub_draw_arrays : ℕ → ℕ → ℕ → Reply
stub_draw_arrays mode first count =
    answers
      ((line "glDrawArrays" (uint "mode" mode ∷ sint "first" first ∷ sint "count" count ∷ [])) ∷ [])
      nothing []

unfoldable pub stub_draw_elements : ℕ → ℕ → ℕ → ℕ → Reply
stub_draw_elements mode count kind indices =
    answers
      ((line "glDrawElements"
          (uint "mode" mode ∷ sint "count" count ∷ uint "type" kind ∷ addr "indices" indices ∷ []))
        ∷ [])
      nothing []

unfoldable pub stub_enable : ℕ → Reply
stub_enable cap = answers ((line "glEnable" (uint "cap" cap ∷ [])) ∷ []) nothing []

unfoldable pub stub_hint : ℕ → ℕ → Reply
stub_hint target mode =
    answers ((line "glHint" (uint "target" target ∷ uint "mode" mode ∷ [])) ∷ []) nothing []

unfoldable pub stub_line_width : ℕ → Reply
stub_line_width width = answers ((line "glLineWidth" (real "width" width ∷ [])) ∷ []) nothing []

unfoldable pub stub_scissor : ℕ → ℕ → ℕ → ℕ → Reply
stub_scissor x y width height =
    answers
      ((line "glScissor" (sint "x" x ∷ sint "y" y ∷ sint "width" width ∷ sint "height" height ∷ []))
        ∷ [])
      nothing []

unfoldable pub stub_viewport : ℕ → ℕ → ℕ → ℕ → Reply
stub_viewport x y width height =
    answers
      ((line "glViewport"
          (sint "x" x ∷ sint "y" y ∷ sint "width" width ∷ sint "height" height ∷ []))
        ∷ [])
      nothing []

-- The entry points as data, and what a call does.
pub data DrawEntry : Type 0 where
  clear : ℕ → DrawEntry
  clear_color : ℕ → ℕ → ℕ → ℕ → DrawEntry
  clear_depthf : ℕ → DrawEntry
  clear_stencil : ℕ → DrawEntry
  disable : ℕ → DrawEntry
  draw_arrays : ℕ → ℕ → ℕ → DrawEntry
  draw_elements : ℕ → ℕ → ℕ → ℕ → DrawEntry
  enable : ℕ → DrawEntry
  hint : ℕ → ℕ → DrawEntry
  line_width : ℕ → DrawEntry
  scissor : ℕ → ℕ → ℕ → ℕ → DrawEntry
  viewport : ℕ → ℕ → ℕ → ℕ → DrawEntry

unfoldable pub draw_reply : DrawEntry → GlStub → Reply × GlStub
draw_reply (clear mask) s = (stub_clear mask, s)
draw_reply (clear_color red green blue alpha) s = (stub_clear_color red green blue alpha, s)
draw_reply (clear_depthf depth) s = (stub_clear_depthf depth, s)
draw_reply (clear_stencil index) s = (stub_clear_stencil index, s)
draw_reply (disable cap) s = (stub_disable cap, s)
draw_reply (draw_arrays mode first count) s = (stub_draw_arrays mode first count, s)
draw_reply (draw_elements mode count kind indices) s =
    (stub_draw_elements mode count kind indices, s)
draw_reply (enable cap) s = (stub_enable cap, s)
draw_reply (hint target mode) s = (stub_hint target mode, s)
draw_reply (line_width width) s = (stub_line_width width, s)
draw_reply (scissor x y width height) s = (stub_scissor x y width height, s)
draw_reply (viewport x y width height) s = (stub_viewport x y width height, s)
