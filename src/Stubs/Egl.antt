-- ===== src/Stubs/Egl.antt =====
-- The static variables of guest/shim/src/libEGL_stub.c, and the entry points that use them. The values
-- are those of EGL/egl.h, and a handle is the number that it is cast from.
pub mod Queries
pub mod Constants
pub mod Entries
pub mod Surfaces
pub mod Current
use vw_firmware_mac.Base.{
  ℕ, ◌+◌, ◌%◌, ◌^◌, List, [], ◌∷◌, ◌++◌, Option, none, some, Bool, true, false,
}
use vw_firmware_mac.Base.{◌==◌, ◌||◌, ◌&&◌, not, if◌then◌else◌}
use vw_firmware_mac.Stubs.Log.{
  uint, sint, addr, Line, line, Result, nothing, number, text, Write, store, Reply, answers,
  unless_null, is_positive,
}
use vw_firmware_mac.Stubs.Names.{value_of}

-- The three static variables of the file, and the static `next` of each function that has one, an int
-- whose overflow is not modelled.
pub record Egl : Type 0 where
  pub cur_ctx : ℕ
  pub cur_draw : ℕ
  pub cur_read : ℕ
  pub windows : ℕ
  pub pbuffers : ℕ
  pub pixmaps : ℕ
  pub contexts : ℕ

unfoldable pub egl_start : Egl
egl_start = record {
  cur_ctx = 0;
  cur_draw = 0;
  cur_read = 0;
  windows = 0x100;
  pbuffers = 0x200;
  pixmaps = 0x300;
  contexts = 0x400;
}

-- The creators of handles.
unfoldable pub egl_create_window_surface : ℕ → ℕ → ℕ → ℕ → Egl → Reply × Egl
egl_create_window_surface dpy config win attrib_list s = (
  answers
      (line "eglCreateWindowSurface" (
          sint "dpy" dpy
          ∷ sint "config" config
          ∷ sint "win" win
          ∷ addr "attrib_list" attrib_list
          ∷ [])
        ∷ [])
      (number s.windows) [],
  record s { windows = s.windows + 1 },
)

unfoldable pub egl_create_pbuffer_surface : ℕ → ℕ → ℕ → Egl → Reply × Egl
egl_create_pbuffer_surface dpy config attrib_list s = (
  answers
      (line "eglCreatePbufferSurface"
          (sint "dpy" dpy ∷ sint "config" config ∷ addr "attrib_list" attrib_list ∷ [])
        ∷ [])
      (number s.pbuffers) [],
  record s { pbuffers = s.pbuffers + 1 },
)

unfoldable pub egl_create_pixmap_surface : ℕ → ℕ → ℕ → ℕ → Egl → Reply × Egl
egl_create_pixmap_surface dpy config pixmap attrib_list s = (
  answers
      (line "eglCreatePixmapSurface" (
          sint "dpy" dpy
          ∷ sint "config" config
          ∷ sint "pixmap" pixmap
          ∷ addr "attrib_list" attrib_list
          ∷ [])
        ∷ [])
      (number s.pixmaps) [],
  record s { pixmaps = s.pixmaps + 1 },
)

unfoldable pub egl_create_context : ℕ → ℕ → ℕ → ℕ → Egl → Reply × Egl
egl_create_context dpy config share_context attrib_list s = (
  answers
      (line "eglCreateContext" (
          sint "dpy" dpy
          ∷ sint "config" config
          ∷ sint "share_context" share_context
          ∷ addr "attrib_list" attrib_list
          ∷ [])
        ∷ [])
      (number s.contexts) [],
  record s { contexts = s.contexts + 1 },
)

unfoldable pub egl_make_current : ℕ → ℕ → ℕ → ℕ → Egl → Reply × Egl
egl_make_current dpy draw read ctx s = (
  answers
      (line "eglMakeCurrent"
          (sint "dpy" dpy ∷ sint "draw" draw ∷ sint "read" read ∷ sint "ctx" ctx ∷ [])
        ∷ [])
      (number 1) [],
  record s { cur_ctx = ctx; cur_draw = draw; cur_read = read },
)

unfoldable pub egl_get_current_context : Egl → Reply
egl_get_current_context s = answers (line "eglGetCurrentContext" [] ∷ []) (number s.cur_ctx) []

unfoldable pub egl_get_current_surface : ℕ → Egl → Reply
egl_get_current_surface readdraw s =
    answers (line "eglGetCurrentSurface" (sint "readdraw" readdraw ∷ []) ∷ [])
      (number (if readdraw == 0x3059 then s.cur_draw else s.cur_read)) []

-- What `eglSwapBuffers` does: the answer, and whether it called `mib_gl_swap`. `host` tells whether
-- `MIB_GL_HOST` is set, `found` whether `dlsym` finds the function.
unfoldable pub egl_swap_buffers : (host found : Bool) → ℕ → ℕ → Reply × Bool
egl_swap_buffers host found dpy surface =
    let lines = line "eglSwapBuffers" (sint "dpy" dpy ∷ sint "surface" surface ∷ []) ∷ [] in
    if host
    then (if found
        then (answers lines (number 1) [], true)
        else (answers lines (number 0) [], false))
    else (answers lines (number 1) [], false)

-- The calls that change the static variables.
pub data EglCall : Type 0 where
  create_window_surface : ℕ → ℕ → ℕ → ℕ → EglCall
  create_pbuffer_surface : ℕ → ℕ → ℕ → EglCall
  create_pixmap_surface : ℕ → ℕ → ℕ → ℕ → EglCall
  create_context : ℕ → ℕ → ℕ → ℕ → EglCall
  make_current : ℕ → ℕ → ℕ → ℕ → EglCall

unfoldable pub egl_reply : EglCall → Egl → Reply × Egl
egl_reply (create_window_surface dpy config win attribs) s =
    egl_create_window_surface dpy config win attribs s
egl_reply (create_pbuffer_surface dpy config attribs) s =
    egl_create_pbuffer_surface dpy config attribs s
egl_reply (create_pixmap_surface dpy config pixmap attribs) s =
    egl_create_pixmap_surface dpy config pixmap attribs s
egl_reply (create_context dpy config share attribs) s =
    egl_create_context dpy config share attribs s
egl_reply (make_current dpy draw read ctx) s = egl_make_current dpy draw read ctx s

-- What calls leave behind.
unfoldable pub egl_run : List EglCall → Egl → Egl
egl_run [] s = s
egl_run (c ∷ cs) s = egl_run cs (egl_reply c s).1

-- The handles that calls return, of surfaces and of contexts.
unfoldable pub is_surface : EglCall → Bool
is_surface (create_window_surface _ _ _ _) = true
is_surface (create_pbuffer_surface _ _ _) = true
is_surface (create_pixmap_surface _ _ _ _) = true
is_surface _ = false

unfoldable pub handle : Reply → ℕ
handle r = elim r.result [ nothing ↦ 0 | number n ↦ n | text t ↦ 0 ]

unfoldable pub surfaces : List EglCall → Egl → List ℕ
surfaces [] s = []
surfaces (c ∷ cs) s =
    let rest = surfaces cs (egl_reply c s).1 in
    if is_surface c then handle (egl_reply c s).0 ∷ rest else rest
