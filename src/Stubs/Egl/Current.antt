-- ===== src/Stubs/Egl/Current.antt =====
-- The current context and its surfaces in guest/shim/src/libEGL_stub.c.
use vw_firmware_mac.Base.{
  ℕ, ◌≡◌, refl, ap₂, ◌∙◌, List, [], ◌∷◌, Bool, true, false, ◌==◌, if◌then◌else◌,
}
use vw_firmware_mac.Base.{All}
use vw_firmware_mac.Stubs.Log.{answers, Reply}
use mathlib.Core.Option.{some-injective}
use vw_firmware_mac.Base.{sym, ap, subst, Option, none, some}
use vw_firmware_mac.Stubs.Egl.Entries.{
  EglEntry, changes, entry_reply, entry_run, get_error, get_display, terminate, destroy_surface,
  bind_api, query_api, wait_client, release_thread, create_pbuffer_from_client_buffer,
  surface_attrib, bind_tex_image, release_tex_image, swap_interval, destroy_context,
  get_current_display, wait_gl, wait_native, copy_buffers, get_proc_address, initialize,
  query_string, get_configs, choose_config, get_config_attrib, query_surface, query_context,
  get_current_context, get_current_surface, swap_buffers,
}
use vw_firmware_mac.Stubs.Egl.Queries.{egl_choose_config}
use vw_firmware_mac.Stubs.Egl.{
  Egl, EglCall, create_window_surface, create_pbuffer_surface, create_pixmap_surface,
  create_context, make_current, egl_reply, egl_create_window_surface, egl_create_pbuffer_surface,
  egl_create_pixmap_surface, egl_create_context, egl_make_current, egl_get_current_context,
  egl_get_current_surface, handle,
}

unfoldable pub leaves_current : EglCall → Bool
leaves_current (make_current _ _ _ _) = false
leaves_current _ = true

record Same (s t : Egl) : Type 0 where
  pub ctx : t.cur_ctx ≡ s.cur_ctx
  pub draw : t.cur_draw ≡ s.cur_draw
  pub read : t.cur_read ≡ s.cur_read

reply-Same : (c : EglCall) (s : Egl) → leaves_current c ≡ true → Same s (egl_reply c s).1
unfolding egl_reply leaves_current egl_create_window_surface egl_create_pbuffer_surface
    egl_create_pixmap_surface egl_create_context
reply-Same (create_window_surface dpy config win attribs) s e = record {
  ctx = refl;
  draw = refl;
  read = refl;
}
reply-Same (create_pbuffer_surface dpy config attribs) s e = record {
  ctx = refl;
  draw = refl;
  read = refl;
}
reply-Same (create_pixmap_surface dpy config pixmap attribs) s e = record {
  ctx = refl;
  draw = refl;
  read = refl;
}
reply-Same (create_context dpy config share attribs) s e = record {
  ctx = refl;
  draw = refl;
  read = refl;
}
reply-Same (make_current dpy draw read ctx) s e = cc

unfoldable pub entry_leaves : EglEntry → Bool
unfolding leaves_current
entry_leaves (changes c) = leaves_current c
entry_leaves _ = true

state-Same : (s t : Egl) → s ≡ t → Same s t
state-Same s t e = record {
  ctx = sym (ap (λ u. u.cur_ctx) e);
  draw = sym (ap (λ u. u.cur_draw) e);
  read = sym (ap (λ u. u.cur_read) e);
}

-- A call that only replies leaves the state.
reply_only :
    (s t : Egl) (r r' : Reply)
    → ◌≡◌ {A = Option (Reply × Egl)} (some (r', s)) (some (r, t))
    → Same s t
reply_only s t r r' e = state-Same s t (ap (λ x. x.1) (some-injective _ _ e))

entry-Same :
    (c : EglEntry) (s t : Egl) (r : Reply)
    → entry_leaves c ≡ true
    → entry_reply c s ≡ some (r, t)
    → Same s t
unfolding entry_reply entry_leaves
entry-Same (changes c) s t r h e =
    subst (Same s) (ap (λ x. x.1) (some-injective _ _ e)) (reply-Same c s h)
entry-Same get_error s t r h e = reply_only s t r _ e
entry-Same (get_display a0) s t r h e = reply_only s t r _ e
entry-Same (terminate a0) s t r h e = reply_only s t r _ e
entry-Same (destroy_surface a0 a1) s t r h e = reply_only s t r _ e
entry-Same (bind_api a0) s t r h e = reply_only s t r _ e
entry-Same query_api s t r h e = reply_only s t r _ e
entry-Same wait_client s t r h e = reply_only s t r _ e
entry-Same release_thread s t r h e = reply_only s t r _ e
entry-Same (create_pbuffer_from_client_buffer a0 a1 a2 a3 a4) s t r h e = reply_only s t r _ e
entry-Same (surface_attrib a0 a1 a2 a3) s t r h e = reply_only s t r _ e
entry-Same (bind_tex_image a0 a1 a2) s t r h e = reply_only s t r _ e
entry-Same (release_tex_image a0 a1 a2) s t r h e = reply_only s t r _ e
entry-Same (swap_interval a0 a1) s t r h e = reply_only s t r _ e
entry-Same (destroy_context a0 a1) s t r h e = reply_only s t r _ e
entry-Same get_current_display s t r h e = reply_only s t r _ e
entry-Same wait_gl s t r h e = reply_only s t r _ e
entry-Same (wait_native a0) s t r h e = reply_only s t r _ e
entry-Same (copy_buffers a0 a1 a2) s t r h e = reply_only s t r _ e
entry-Same (get_proc_address a0) s t r h e = reply_only s t r _ e
entry-Same (initialize a0 a1 a2) s t r h e = reply_only s t r _ e
entry-Same (query_string a0 a1) s t r h e = reply_only s t r _ e
entry-Same (get_configs a0 a1 a2 a3) s t r h e = reply_only s t r _ e
entry-Same (choose_config a0 a1 a2 a3 a4 a5) s t r h e =
    at_reply (egl_choose_config a0 a1 a2 a3 a4 a5) e
  where
    at_reply :
        (o : Option Reply)
        → (elim o as (λ _. Option (Reply × Egl)) [ none ↦ none | some r' ↦ some (r', s) ])
          ≡ some (r, t)
        → Same s t
    at_reply none k = cc
    at_reply (some r') k = reply_only s t r r' k
entry-Same (get_config_attrib a0 a1 a2 a3) s t r h e = reply_only s t r _ e
entry-Same (query_surface a0 a1 a2 a3) s t r h e = reply_only s t r _ e
entry-Same (query_context a0 a1 a2 a3) s t r h e = reply_only s t r _ e
entry-Same get_current_context s t r h e = reply_only s t r _ e
entry-Same (get_current_surface a0) s t r h e = reply_only s t r _ e
entry-Same (swap_buffers a0 a1 a2 a3) s t r h e = reply_only s t r _ e

run-Same :
    (cs : List EglEntry) (s t : Egl)
    → All (λ c. entry_leaves c ≡ true) cs
    → entry_run cs s ≡ some t
    → Same s t
unfolding entry_run
run-Same [] s t h e = state-Same s t (some-injective _ _ e)
run-Same (c ∷ cs) s t h e = at_reply (entry_reply c s) refl e (λ u k. run-Same cs u t h.1 k)
  where
    at_reply :
        (o : Option (Reply × Egl))
        → entry_reply c s ≡ o
        → (elim o as (λ _. Option Egl) [ none ↦ none | some (r, u) ↦ entry_run cs u ]) ≡ some t
        → ((u : Egl) → entry_run cs u ≡ some t → Same u t)
        → Same s t
    at_reply none k e' later = cc
    at_reply (some (r, u)) k e' later =
        let now = entry-Same c s u r h.0 k in
        let rest = later u e' in
        record {
          ctx = rest.ctx ∙ now.ctx;
          draw = rest.draw ∙ now.draw;
          read = rest.read ∙ now.read;
        }

-- After `eglMakeCurrent`, and calls of any of the entry points but another one that end in a state,
-- `eglGetCurrentContext` returns its context, and `eglGetCurrentSurface` the surface to draw on for
-- `EGL_DRAW`, and the one to read from otherwise.
pub current-make_current :
    (s t : Egl) (cs : List EglEntry) (dpy draw read ctx readdraw : ℕ)
    → All (λ c. entry_leaves c ≡ true) cs
    → entry_run cs (egl_make_current dpy draw read ctx s).1 ≡ some t
    → (handle (egl_get_current_context t) ≡ ctx)
      × (handle (egl_get_current_surface readdraw t) ≡ (if readdraw == 0x3059 then draw else read))
unfolding egl_make_current egl_get_current_context egl_get_current_surface handle answers
current-make_current s t cs dpy draw read ctx readdraw h e =
    let same = run-Same cs (egl_make_current dpy draw read ctx s).1 t h e in
    (same.ctx, ap₂ (λ d r. if readdraw == 0x3059 then d else r) same.draw same.read)
