-- ===== src/Stubs/Egl/Entries.antt =====
-- All entry points of guest/shim/src/libEGL_stub.c together.
use vw_firmware_mac.Base.{ℕ, List, [], ◌∷◌, Option, none, some, Bool}
use vw_firmware_mac.Stubs.Log.{Reply}
use vw_firmware_mac.Stubs.Egl.{
  Egl, EglCall, egl_reply, egl_get_current_context, egl_get_current_surface, egl_swap_buffers,
}
use vw_firmware_mac.Stubs.Egl.Constants.{
  egl_get_error, egl_get_display, egl_terminate, egl_destroy_surface, egl_bind_api, egl_query_api,
  egl_wait_client, egl_release_thread, egl_create_pbuffer_from_client_buffer, egl_surface_attrib,
  egl_bind_tex_image, egl_release_tex_image, egl_swap_interval, egl_destroy_context,
  egl_get_current_display, egl_wait_gl, egl_wait_native, egl_copy_buffers, egl_get_proc_address,
}
use vw_firmware_mac.Stubs.Egl.Queries.{
  egl_initialize, egl_query_string, egl_get_configs, egl_choose_config, egl_get_config_attrib,
  egl_query_surface, egl_query_context,
}

-- A call of one of the 34 entry points. `swap_buffers` has the two answers that it depends on first.
pub data EglEntry : Type 0 where
  changes : EglCall → EglEntry
  get_error : EglEntry
  get_display : ℕ → EglEntry
  terminate : ℕ → EglEntry
  destroy_surface : ℕ → ℕ → EglEntry
  bind_api : ℕ → EglEntry
  query_api : EglEntry
  wait_client : EglEntry
  release_thread : EglEntry
  create_pbuffer_from_client_buffer : ℕ → ℕ → ℕ → ℕ → ℕ → EglEntry
  surface_attrib : ℕ → ℕ → ℕ → ℕ → EglEntry
  bind_tex_image : ℕ → ℕ → ℕ → EglEntry
  release_tex_image : ℕ → ℕ → ℕ → EglEntry
  swap_interval : ℕ → ℕ → EglEntry
  destroy_context : ℕ → ℕ → EglEntry
  get_current_display : EglEntry
  wait_gl : EglEntry
  wait_native : ℕ → EglEntry
  copy_buffers : ℕ → ℕ → ℕ → EglEntry
  get_proc_address : ℕ → EglEntry
  initialize : ℕ → ℕ → ℕ → EglEntry
  query_string : ℕ → ℕ → EglEntry
  get_configs : ℕ → ℕ → ℕ → ℕ → EglEntry
  choose_config : ℕ → ℕ → List ℕ → ℕ → ℕ → ℕ → EglEntry
  get_config_attrib : ℕ → ℕ → ℕ → ℕ → EglEntry
  query_surface : ℕ → ℕ → ℕ → ℕ → EglEntry
  query_context : ℕ → ℕ → ℕ → ℕ → EglEntry
  get_current_context : EglEntry
  get_current_surface : ℕ → EglEntry
  swap_buffers : Bool → Bool → ℕ → ℕ → EglEntry

-- The reply and the state that a call leaves; `none` is a list of attributes without an end.
unfoldable pub entry_reply : EglEntry → Egl → Option (Reply × Egl)
entry_reply (changes c) s = some (egl_reply c s)
entry_reply get_error s = some (egl_get_error, s)
entry_reply (get_display a0) s = some (egl_get_display a0, s)
entry_reply (terminate a0) s = some (egl_terminate a0, s)
entry_reply (destroy_surface a0 a1) s = some (egl_destroy_surface a0 a1, s)
entry_reply (bind_api a0) s = some (egl_bind_api a0, s)
entry_reply query_api s = some (egl_query_api, s)
entry_reply wait_client s = some (egl_wait_client, s)
entry_reply release_thread s = some (egl_release_thread, s)
entry_reply (create_pbuffer_from_client_buffer a0 a1 a2 a3 a4) s =
    some (egl_create_pbuffer_from_client_buffer a0 a1 a2 a3 a4, s)
entry_reply (surface_attrib a0 a1 a2 a3) s = some (egl_surface_attrib a0 a1 a2 a3, s)
entry_reply (bind_tex_image a0 a1 a2) s = some (egl_bind_tex_image a0 a1 a2, s)
entry_reply (release_tex_image a0 a1 a2) s = some (egl_release_tex_image a0 a1 a2, s)
entry_reply (swap_interval a0 a1) s = some (egl_swap_interval a0 a1, s)
entry_reply (destroy_context a0 a1) s = some (egl_destroy_context a0 a1, s)
entry_reply get_current_display s = some (egl_get_current_display, s)
entry_reply wait_gl s = some (egl_wait_gl, s)
entry_reply (wait_native a0) s = some (egl_wait_native a0, s)
entry_reply (copy_buffers a0 a1 a2) s = some (egl_copy_buffers a0 a1 a2, s)
entry_reply (get_proc_address a0) s = some (egl_get_proc_address a0, s)
entry_reply (initialize a0 a1 a2) s = some (egl_initialize a0 a1 a2, s)
entry_reply (query_string a0 a1) s = some (egl_query_string a0 a1, s)
entry_reply (get_configs a0 a1 a2 a3) s = some (egl_get_configs a0 a1 a2 a3, s)
entry_reply (choose_config a0 a1 a2 a3 a4 a5) s = elim (egl_choose_config a0 a1 a2 a3 a4 a5) [
  | none ↦ none
  | some r ↦ some (r, s)
]
entry_reply (get_config_attrib a0 a1 a2 a3) s = some (egl_get_config_attrib a0 a1 a2 a3, s)
entry_reply (query_surface a0 a1 a2 a3) s = some (egl_query_surface a0 a1 a2 a3, s)
entry_reply (query_context a0 a1 a2 a3) s = some (egl_query_context a0 a1 a2 a3, s)
entry_reply get_current_context s = some (egl_get_current_context s, s)
entry_reply (get_current_surface a0) s = some (egl_get_current_surface a0 s, s)
entry_reply (swap_buffers a0 a1 a2 a3) s = some ((egl_swap_buffers a0 a1 a2 a3).0, s)

-- What calls leave behind.
unfoldable pub entry_run : List EglEntry → Egl → Option Egl
entry_run [] s = some s
entry_run (c ∷ cs) s = elim (entry_reply c s) [ none ↦ none | some (reply, t) ↦ entry_run cs t ]
