-- ===== src/Stubs/Egl/Constants.antt =====
-- The entry points of guest/shim/src/libEGL_stub.c that log and return a constant.
use vw_firmware_mac.Base.{ℕ, [], ◌∷◌}
use vw_firmware_mac.Stubs.Log.{uint, sint, addr, line, number, Reply, answers}

unfoldable pub egl_get_error : Reply
egl_get_error = answers (line "eglGetError" [] ∷ []) (number 0x3000) []

unfoldable pub egl_get_display : ℕ → Reply
egl_get_display display_id =
    answers (line "eglGetDisplay" (sint "display_id" display_id ∷ []) ∷ []) (number 1) []

unfoldable pub egl_terminate : ℕ → Reply
egl_terminate dpy = answers (line "eglTerminate" (sint "dpy" dpy ∷ []) ∷ []) (number 1) []

unfoldable pub egl_destroy_surface : ℕ → ℕ → Reply
egl_destroy_surface dpy surface =
    answers (line "eglDestroySurface" (sint "dpy" dpy ∷ sint "surface" surface ∷ []) ∷ [])
      (number 1) []

unfoldable pub egl_bind_api : ℕ → Reply
egl_bind_api api = answers (line "eglBindAPI" (uint "api" api ∷ []) ∷ []) (number 1) []

unfoldable pub egl_query_api : Reply
egl_query_api = answers (line "eglQueryAPI" [] ∷ []) (number 0x30A0) []

unfoldable pub egl_wait_client : Reply
egl_wait_client = answers (line "eglWaitClient" [] ∷ []) (number 1) []

unfoldable pub egl_release_thread : Reply
egl_release_thread = answers (line "eglReleaseThread" [] ∷ []) (number 1) []

unfoldable pub egl_create_pbuffer_from_client_buffer : ℕ → ℕ → ℕ → ℕ → ℕ → Reply
egl_create_pbuffer_from_client_buffer dpy buftype buffer config attrib_list =
    answers
      (line "eglCreatePbufferFromClientBuffer" (
          sint "dpy" dpy
          ∷ uint "buftype" buftype
          ∷ sint "buffer" buffer
          ∷ sint "config" config
          ∷ addr "attrib_list" attrib_list
          ∷ [])
        ∷ [])
      (number 0) []

unfoldable pub egl_surface_attrib : ℕ → ℕ → ℕ → ℕ → Reply
egl_surface_attrib dpy surface attribute value =
    answers
      (line "eglSurfaceAttrib" (
          sint "dpy" dpy
          ∷ sint "surface" surface
          ∷ sint "attribute" attribute
          ∷ sint "value" value
          ∷ [])
        ∷ [])
      (number 1) []

unfoldable pub egl_bind_tex_image : ℕ → ℕ → ℕ → Reply
egl_bind_tex_image dpy surface buffer =
    answers
      (line "eglBindTexImage" (sint "dpy" dpy ∷ sint "surface" surface ∷ sint "buffer" buffer ∷ [])
        ∷ [])
      (number 1) []

unfoldable pub egl_release_tex_image : ℕ → ℕ → ℕ → Reply
egl_release_tex_image dpy surface buffer =
    answers
      (line "eglReleaseTexImage"
          (sint "dpy" dpy ∷ sint "surface" surface ∷ sint "buffer" buffer ∷ [])
        ∷ [])
      (number 1) []

unfoldable pub egl_swap_interval : ℕ → ℕ → Reply
egl_swap_interval dpy interval =
    answers (line "eglSwapInterval" (sint "dpy" dpy ∷ sint "interval" interval ∷ []) ∷ [])
      (number 1) []

unfoldable pub egl_destroy_context : ℕ → ℕ → Reply
egl_destroy_context dpy ctx =
    answers (line "eglDestroyContext" (sint "dpy" dpy ∷ sint "ctx" ctx ∷ []) ∷ []) (number 1) []

unfoldable pub egl_get_current_display : Reply
egl_get_current_display = answers (line "eglGetCurrentDisplay" [] ∷ []) (number 1) []

unfoldable pub egl_wait_gl : Reply
egl_wait_gl = answers (line "eglWaitGL" [] ∷ []) (number 1) []

unfoldable pub egl_wait_native : ℕ → Reply
egl_wait_native engine =
    answers (line "eglWaitNative" (sint "engine" engine ∷ []) ∷ []) (number 1) []

unfoldable pub egl_copy_buffers : ℕ → ℕ → ℕ → Reply
egl_copy_buffers dpy surface target =
    answers
      (line "eglCopyBuffers" (sint "dpy" dpy ∷ sint "surface" surface ∷ sint "target" target ∷ [])
        ∷ [])
      (number 1) []

unfoldable pub egl_get_proc_address : ℕ → Reply
egl_get_proc_address procname =
    answers (line "eglGetProcAddress" (addr "procname" procname ∷ []) ∷ []) (number 0) []
