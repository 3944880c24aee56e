-- ===== src/Screen/Objects/Buffers.antt =====
-- The buffers of the objects of guest/shim/src/libscreen_stub.c: what `ensure_buffers` keeps.
use vw_firmware_mac.Base.{
  ℕ, zero, suc, ◌+◌, ◌-◌, ◌≤◌, ◌≡◌, refl, sym, ◌∙◌, subst, inl, inr, Bool-cases, some, Bool, pos,
  arith,
}
use vw_firmware_mac.Base.{ltb, ◌==◌, if◌then◌else◌, replicate, ◌*◌}
use vw_firmware_mac.Screen.Property.{Kind, Obj, Size, set_iv}
use vw_firmware_mac.Screen.Objects.{
  Screen, write, put, blank, buffer_of, add_buffer, fill_buffers, set_nbuffers, ensure_from,
  ensure_buffers, at_most_8, set_pair, set_cell, pixel_count,
}
use vw_firmware_mac.Screen.Objects.Heap.{
  pos_injective, IsBuffer, Filled, IsObject, IsValid, Keeps, write-same, write-other,
  write-Keeps_new, write-Keeps_old, put-IsValid, put_new-IsValid,
}

buffer_of-kind :
    (size : Size) (w : Obj) (id pixels : ℕ) → (buffer_of size w id pixels).kind ≡ Kind.buffer
unfolding buffer_of set_pair set_iv set_cell blank
buffer_of-kind size w id pixels = refl

buffer_of-nbuffers :
    (size : Size) (w : Obj) (id pixels : ℕ) → (buffer_of size w id pixels).nbuffers ≡ pos 0
unfolding buffer_of set_pair set_iv set_cell blank
buffer_of-nbuffers size w id pixels = refl

-- The object at `p` is a window or pixmap of which `i` slots are filled.
pub record Filling (s : Screen) (p i : ℕ) : Type 0 where
  pub valid : IsValid s
  pub w : Obj
  pub cell : s.cells p ≡ some w
  pub ahead : (n : ℕ) → w.nbuffers ≡ pos n → n ≤ i
  pub filled : Filled s.cells w.buffers i

-- A call of `ensure_buffers` that comes to an end, with the number of buffers asked for.
pub record Ensured (alloc : ℕ → Bool) (p c : ℕ) (s : Screen) : Type 0 where
  pub after : Screen
  pub ends : ensure_buffers alloc p (pos c) s ≡ some after
  pub valid : IsValid after
  pub object : Obj
  pub cell : after.cells p ≡ some object
  pub count : object.nbuffers ≡ pos (if ltb 8 c then 8 else c)

module _ (alloc : ℕ → Bool) where
  add_buffer-Filling :
      (s : Screen) (p i : ℕ) (h : Filling s p i) → Filling (add_buffer alloc s p h.w i) p (i + 1)
  unfolding add_buffer put
  add_buffer-Filling s p i h =
      let bytes = pixel_count s.size h.w * 4 in
      let room = alloc bytes in
      let b = buffer_of s.size h.w s.next_id (if room then s.fresh + 1 else 0) in
      let blocks =
        if room then write s.blocks (s.fresh + 1) (some (replicate bytes 0)) else s.blocks in
      let t : Screen = record (put s s.fresh b) {
        blocks = blocks;
        fresh = s.fresh + 2;
        next_id = s.next_id + 1;
      } in
      let t_valid : IsValid t =
        put_new-IsValid s b blocks (s.fresh + 2) (s.next_id + 1) h.valid
          (buffer_of-nbuffers _ _ _ _) (omega arith) in
      let keeps : Keeps s.cells t.cells =
        write-Keeps_new s.cells s.fresh b (h.valid.unused s.fresh (omega arith)) in
      let w' : Obj = record h.w { buffers = write h.w.buffers i s.fresh } in
      let cell : t.cells p ≡ some h.w = ground (arith, h.valid.unused s.fresh, h.cell) in
      let old : IsObject s.cells h.w = h.valid.objects p h.w h.cell in
      let made : IsBuffer t.cells s.fresh = record {
        obj = b;
        cell = write-same s.cells s.fresh (some b);
        kind = buffer_of-kind _ _ _ _;
      } in
      let slots' : Filled t.cells w'.buffers (i + 1) = λ j lt. elim (Bool-cases (j == i)) [
        | inl same ↦ subst (IsBuffer t.cells) (sym (rw same refl)) made
        | inr other ↦
            subst (IsBuffer t.cells) (sym (write-other h.w.buffers i j s.fresh other))
              (keeps (h.w.buffers j) (h.filled j (ground arith)))
      ] in
      let object : IsObject t.cells w' = record {
        count = old.count;
        nbuffers = old.nbuffers;
        bound = old.bound;
        filled = λ j lt. slots' j (omega (arith, h.ahead old.count old.nbuffers));
      } in
      let last = write-Keeps_old t.cells p h.w w' cell refl in
      record {
        valid = put-IsValid t p h.w w' t_valid cell refl object;
        w = w';
        cell = write-same t.cells p (some w');
        ahead = λ n e. omega (arith, h.ahead n e);
        filled = λ j lt. last (w'.buffers j) (slots' j lt);
      }

  pub fill_buffers-Filling :
      (n i p : ℕ) (s : Screen)
      → Filling s p i
      → (t : Screen) × (fill_buffers alloc n i p s ≡ some t) × Filling t p (n + i)
  unfolding fill_buffers
  fill_buffers-Filling zero i p s h = (s, refl, subst (Filling s p) (omega arith) h)
  fill_buffers-Filling (suc n) i p s h =
      let (t, e, done) =
        fill_buffers-Filling n (i + 1) p (add_buffer alloc s p h.w i)
          (add_buffer-Filling s p i h) in
      (t, rw (h.cell, fill_buffers) e, subst (Filling t p) (omega arith) done)

  ensure_buffers-steps :
      (p c n : ℕ) (s t : Screen) (w w' : Obj)
      → s.cells p ≡ some w
      → w.nbuffers ≡ pos n
      → fill_buffers alloc ((if ltb 8 c then 8 else c) - n) n p s ≡ some t
      → t.cells p ≡ some w'
      → ensure_buffers alloc p (pos c) s
        ≡ some (put t p (record w' { nbuffers = pos (if ltb 8 c then 8 else c) }))
  unfolding ensure_buffers ensure_from at_most_8 set_nbuffers
  ensure_buffers-steps p c n s t w w' e k f e' =
      rw (e, ensure_buffers) (rw (k, ensure_from) (rw f (rw (e', set_nbuffers) refl)))

  -- From a count that is not negative `ensure_buffers` comes to an end, with the buffers asked for.
  pub ensure_buffers-IsValid :
      (p c : ℕ) (s : Screen) (w : Obj) → IsValid s → s.cells p ≡ some w → Ensured alloc p c s
  unfolding ensure_buffers ensure_from at_most_8 set_nbuffers put
  ensure_buffers-IsValid p c s w v e =
      let old : IsObject s.cells w = v.objects p w e in
      let c' : ℕ = if ltb 8 c then 8 else c in
      let h : Filling s p old.count = record {
        valid = v;
        w = w;
        cell = e;
        ahead = λ n eq. omega (arith, pos_injective old.count n (sym old.nbuffers ∙ eq));
        filled = old.filled;
      } in
      let (t, eq, done) = fill_buffers-Filling (c' - old.count) old.count p s h in
      let w' : Obj = record done.w { nbuffers = pos c' } in
      let object : IsObject t.cells w' = record {
        count = c';
        nbuffers = refl;
        bound = ground arith;
        filled = λ j lt. done.filled j (omega arith);
      } in
      record {
        after = put t p w';
        ends = ensure_buffers-steps p c old.count s t w done.w e old.nbuffers eq done.cell;
        valid = put-IsValid t p done.w w' done.valid done.cell refl object;
        object = w';
        cell = write-same t.cells p (some w');
        count = refl;
      }
