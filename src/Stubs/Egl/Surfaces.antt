-- ===== src/Stubs/Egl/Surfaces.antt =====
-- The handles of the surfaces that guest/shim/src/libEGL_stub.c gives out.
use vw_firmware_mac.Base.{
  ℕ, suc, ◌+◌, ◌≤◌, ◌<◌, ◌≡◌, ◌≢◌, ◌⊎◌, inl, inr, List, [], ◌∷◌, true, Bool-cases, arith,
}
use vw_firmware_mac.Base.{All, length}
use vw_firmware_mac.Stubs.Log.{answers}
use vw_firmware_mac.Stubs.Egl.{
  Egl, egl_start, EglCall, create_window_surface, create_pbuffer_surface, create_pixmap_surface,
  create_context, make_current, egl_reply, egl_create_window_surface, egl_create_pbuffer_surface,
  egl_create_pixmap_surface, egl_create_context, egl_make_current, is_surface, handle, surfaces,
}

-- No two elements are the same.
abbrev pub Distinct : List ℕ → Type 0
Distinct [] = Unit
Distinct (x ∷ xs) = All (λ y. x ≢ y) xs × Distinct xs

-- Each kind of surface has `n` numbers left before those of the next kind.
record HasRoom (s : Egl) (n : ℕ) : Type 0 where
  pub windows : s.windows + n ≤ 0x200
  pub above_windows : 0x200 ≤ s.pbuffers
  pub pbuffers : s.pbuffers + n ≤ 0x300
  pub above_pbuffers : 0x300 ≤ s.pixmaps
  pub pixmaps : s.pixmaps + n ≤ 0x400

-- A handle that a later call may return.
abbrev IsLater : Egl → ℕ → Type 0
IsLater s h =
    ((s.windows ≤ h) × (h < 0x200))
    ⊎ (((s.pbuffers ≤ h) × (h < 0x300)) ⊎ ((s.pixmaps ≤ h) × (h < 0x400)))

All-imp {ℓ} : {P Q : ℕ → Type ℓ} (xs : List ℕ) → ((x : ℕ) → P x → Q x) → All P xs → All Q xs
All-imp [] f h = tt
All-imp (x ∷ xs) f h = (f x h.0, All-imp xs f h.1)

-- A call moves each counter by one at most.
record Grows (s t : Egl) : Type 0 where
  pub windows : (s.windows ≤ t.windows) × (t.windows ≤ s.windows + 1)
  pub pbuffers : (s.pbuffers ≤ t.pbuffers) × (t.pbuffers ≤ s.pbuffers + 1)
  pub pixmaps : (s.pixmaps ≤ t.pixmaps) × (t.pixmaps ≤ s.pixmaps + 1)

reply-Grows : (c : EglCall) (s : Egl) → Grows s (egl_reply c s).1
unfolding egl_reply egl_create_window_surface egl_create_pbuffer_surface egl_create_pixmap_surface
    egl_create_context egl_make_current
reply-Grows (create_window_surface dpy config win attribs) s = record {
  windows = omega arith;
  pbuffers = omega arith;
  pixmaps = omega arith;
}
reply-Grows (create_pbuffer_surface dpy config attribs) s = record {
  windows = omega arith;
  pbuffers = omega arith;
  pixmaps = omega arith;
}
reply-Grows (create_pixmap_surface dpy config pixmap attribs) s = record {
  windows = omega arith;
  pbuffers = omega arith;
  pixmaps = omega arith;
}
reply-Grows (create_context dpy config share attribs) s = record {
  windows = omega arith;
  pbuffers = omega arith;
  pixmaps = omega arith;
}
reply-Grows (make_current dpy draw read ctx) s = record {
  windows = omega arith;
  pbuffers = omega arith;
  pixmaps = omega arith;
}

HasRoom-Grows : (s t : Egl) (n : ℕ) → Grows s t → HasRoom s (suc n) → HasRoom t n
HasRoom-Grows s t n g r = record {
  windows = omega (arith, g.windows, r.windows);
  above_windows = omega (arith, g.pbuffers, r.above_windows);
  pbuffers = omega (arith, g.pbuffers, r.pbuffers);
  above_pbuffers = omega (arith, g.pixmaps, r.above_pbuffers);
  pixmaps = omega (arith, g.pixmaps, r.pixmaps);
}

IsLater-Grows : (s t : Egl) (h : ℕ) → Grows s t → IsLater t h → IsLater s h
IsLater-Grows s t h g l = omega (arith, g.windows, g.pbuffers, g.pixmaps, l)

-- The handle of a surface is in its range, and later calls do not return it.
record Once (s t : Egl) (h : ℕ) : Type 0 where
  pub later : IsLater s h
  pub gone : (k : ℕ) → IsLater t k → h ≢ k

handle-Once :
    (c : EglCall) (s : Egl) (n : ℕ)
    → HasRoom s (suc n)
    → is_surface c ≡ true
    → Once s (egl_reply c s).1 (handle (egl_reply c s).0)
unfolding egl_reply egl_create_window_surface egl_create_pbuffer_surface egl_create_pixmap_surface
    egl_create_context egl_make_current is_surface handle answers
handle-Once (create_window_surface dpy config win attribs) s n r e = record {
  later = omega (arith, r.windows);
  gone = λ k l. omega (arith, l, r.windows, r.above_windows, r.above_pbuffers, r.pbuffers);
}
handle-Once (create_pbuffer_surface dpy config attribs) s n r e = record {
  later = omega (arith, r.pbuffers);
  gone = λ k l. omega (arith, l, r.above_windows, r.pbuffers, r.above_pbuffers);
}
handle-Once (create_pixmap_surface dpy config pixmap attribs) s n r e = record {
  later = omega (arith, r.pixmaps);
  gone = λ k l. omega (arith, l, r.above_windows, r.pbuffers, r.above_pbuffers);
}
handle-Once (create_context dpy config share attribs) s n r e = cc
handle-Once (make_current dpy draw read ctx) s n r e = cc

surfaces-Distinct_from :
    (cs : List EglCall) (s : Egl)
    → HasRoom s (length cs)
    → All (IsLater s) (surfaces cs s) × Distinct (surfaces cs s)
unfolding surfaces
surfaces-Distinct_from [] s r = (tt, tt)
surfaces-Distinct_from (c ∷ cs) s r =
    let t = (egl_reply c s).1 in
    let g = reply-Grows c s in
    let (later, apart) = surfaces-Distinct_from cs t (HasRoom-Grows s t (length cs) g r) in
    let kept = All-imp (surfaces cs t) (λ h. IsLater-Grows s t h g) later in
    elim (Bool-cases (is_surface c)) [
      | inl surface ↦
          let once = handle-Once c s (length cs) r surface in
          rw surface ((once.later, kept), (All-imp (surfaces cs t) once.gone later, apart))
      | inr other ↦ rw other (kept, apart)
    ]

-- In a process that makes at most 256 calls that change the state, no two surfaces have the same handle.
pub surfaces-Distinct : (cs : List EglCall) → length cs ≤ 256 → Distinct (surfaces cs egl_start)
unfolding egl_start
surfaces-Distinct cs few =
    (surfaces-Distinct_from cs egl_start (record {
      windows = omega arith;
      above_windows = omega arith;
      pbuffers = omega arith;
      above_pbuffers = omega arith;
      pixmaps = omega arith;
    })).1
