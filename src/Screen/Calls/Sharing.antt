-- ===== src/Screen/Calls/Sharing.antt =====
-- `screen_share_window_buffers` of guest/shim/src/libscreen_stub.c, and what `get_pv` gives after it.
use vw_firmware_mac.Base.{
  ℕ, zero, suc, ◌+◌, ◌<◌, ◌≡◌, refl, ap, ap₂, ◌∙◌, inl, inr, Bool-cases, List, [], ◌∷◌, Option,
  some, Bool, true, false, pos, arith,
}
use vw_firmware_mac.Base.{◌==◌, ◌||◌}
use vw_firmware_mac.Screen.Property.{Obj, Size, one_of}
use vw_firmware_mac.Screen.Objects.{
  Screen, pointers, put, get_pv, get_pv_of, get_buffers, ensure_some, has_none, is_drawable, slots,
  all_slots, read_at,
}
use vw_firmware_mac.Screen.Objects.Heap.{IsValid, write-same, write-other}
use vw_firmware_mac.Screen.Calls.{screen_share_window_buffers, share_from, copy_slots, change}

slots-eq : (f g : ℕ → ℕ) (i n : ℕ) → ((j : ℕ) → j < i + n → f j ≡ g j) → slots f i n ≡ slots g i n
unfolding slots
slots-eq f g i zero h = refl
slots-eq f g i (suc n) h =
    ap₂ (λ x xs. x ∷ xs) (h i (omega arith)) (slots-eq f g (i + 1) n (λ j lt. h j (omega arith)))

copied : (f g : ℕ → ℕ) (n : ℕ) → slots (copy_slots n f g) 0 n ≡ slots f 0 n
unfolding copy_slots
copied f g n = slots-eq (copy_slots n f g) f 0 n (λ j lt. ground arith)

shared_slots :
    (b a : Obj) (c : ℕ)
    → b.nbuffers ≡ pos c
    → slots (share_from b a).buffers 0 c ≡ slots b.buffers 0 c
unfolding share_from
shared_slots b a c e = rw e (copied b.buffers a.buffers c)

buffer_list : (n : ℕ) → one_of n (37 ∷ 168 ∷ 171 ∷ []) ≡ true → ((n == 60) || (n == 11)) ≡ false
unfolding one_of
buffer_list n member = ground arith

has_none-suc : (n : ℕ) → has_none (pos n) ≡ false → 0 < n
unfolding has_none
has_none-suc zero e = ground arith
has_none-suc (suc n) e = omega arith

module _ (alloc : ℕ → Bool) (asked : Option Size) where
  -- `get_pv` of a window that has buffers.
  get_pv-held :
      (s : Screen) (p n c : ℕ) (o : Obj)
      → s.cells (suc p) ≡ some o
      → is_drawable o.kind ≡ true
      → has_none o.nbuffers ≡ false
      → o.nbuffers ≡ pos c
      → one_of n (37 ∷ 168 ∷ 171 ∷ []) ≡ true
      → get_pv alloc asked (suc p) (pos n) s ≡ some (pointers (slots o.buffers 0 c), s)
  unfolding get_pv get_pv_of get_buffers ensure_some read_at all_slots
  get_pv-held s p n c o e k full count member =
      rw (e, get_pv)
        (rw (buffer_list n member, get_pv_of)
          (rw member (
            rw (k, get_buffers)
              (rw (full, ensure_some) (rw (e, read_at) (rw (count, all_slots) refl))))))

  -- What both windows of a share give, by the object at the address.
  given_by :
      (s : Screen) (p n c : ℕ) (f : ℕ → ℕ) (o : Obj)
      → s.cells (suc p) ≡ some o
      → is_drawable o.kind ≡ true
      → has_none o.nbuffers ≡ false
      → o.nbuffers ≡ pos c
      → slots o.buffers 0 c ≡ slots f 0 c
      → one_of n (37 ∷ 168 ∷ 171 ∷ []) ≡ true
      → get_pv alloc asked (suc p) (pos n) s ≡ some (pointers (slots f 0 c), s)
  given_by s p n c f o e k full count same member =
      get_pv-held s p n c o e k full count member ∙ ap (λ list. some (pointers list, s)) same

  -- In a well-formed state, after `w` and `share`, two windows or pixmaps of which `share` has buffers,
  -- are made to share buffers, `get_pv` of the property 37, 168 or 171 gives the same for both, and
  -- leaves the state.
  pub share-same_buffers :
      (s : Screen) (w share n : ℕ) (a b : Obj)
      → IsValid s
      → s.cells (suc w) ≡ some a
      → s.cells (suc share) ≡ some b
      → is_drawable a.kind ≡ true
      → is_drawable b.kind ≡ true
      → has_none b.nbuffers ≡ false
      → one_of n (37 ∷ 168 ∷ 171 ∷ []) ≡ true
      → (t : Screen) × (list : List ℕ) × (screen_share_window_buffers (suc w) (suc share) s
          ≡ some t)
        × (get_pv alloc asked (suc w) (pos n) t ≡ some (pointers list, t))
        × (get_pv alloc asked (suc share) (pos n) t ≡ some (pointers list, t))
  unfolding screen_share_window_buffers change share_from put
  share-same_buffers s w share n a b v ea eb ka kb full member =
      let h = v.objects (suc share) b eb in
      let t = put s (suc w) (share_from b a) in
      let made : screen_share_window_buffers (suc w) (suc share) s ≡ some t =
        rw (eb, screen_share_window_buffers) (rw full (rw (ea, change) refl)) in
      let at_w : t.cells (suc w) ≡ some (share_from b a) =
        write-same s.cells (suc w) (some (share_from b a)) in
      let copy : slots (share_from b a).buffers 0 h.count ≡ slots b.buffers 0 h.count =
        shared_slots b a h.count h.nbuffers in
      let give = λ (p : ℕ) (e : t.cells (suc p) ≡ some (share_from b a)).
        given_by t p n h.count b.buffers (share_from b a) e ka full h.nbuffers copy member in
      let second : get_pv alloc asked (suc share) (pos n) t
          ≡ some (pointers (slots b.buffers 0 h.count), t) =
        elim (Bool-cases (suc share == suc w)) [
          | inl same ↦ give share (rw same refl)
          | inr other ↦
              given_by t share n h.count b.buffers b
                (write-other s.cells (suc w) (suc share) (some (share_from b a)) other ∙ eb) kb full
                h.nbuffers refl member
        ] in
      (t, slots b.buffers 0 h.count, made, give w at_w, second)
