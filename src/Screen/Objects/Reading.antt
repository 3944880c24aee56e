-- ===== src/Screen/Objects/Reading.antt =====
-- What `get_pv` of guest/shim/src/libscreen_stub.c writes.
use vw_firmware_mac.Base.{
  ℕ, zero, suc, ◌+◌, ◌<◌, ◌≡◌, refl, sym, ap, subst, ◌∙◌, inl, inr, ◌⊎◌, Bool-cases, List, [], ◌∷◌,
  Option, some, Bool, true, false, pos, arith,
}
use vw_firmware_mac.Base.{◌==◌, ◌||◌, ◌*◌, ltb, All, length, if◌then◌else◌}
use vw_firmware_mac.Screen.Property.{Kind, Obj, Size, one_of}
use vw_firmware_mac.Screen.Objects.{
  Screen, Pointers, pointers, einval, get_pv, get_buffers, get_front, ensure_some, has_none,
  is_drawable, slots, all_slots, read_at, get_pv_of, get_display, new_obj, blank,
}
use vw_firmware_mac.Screen.Objects.Buffers.{Ensured, ensure_buffers-IsValid}
use vw_firmware_mac.Screen.Objects.Heap.{
  IsValid, IsObject, IsBuffer, Cells, pos_injective, put_new-IsValid,
}

-- The slots of an object from `i`, `n` in number.
slots-All :
    (c : Cells) (f : ℕ → ℕ) (i n : ℕ)
    → ((j : ℕ) → j < i + n → IsBuffer c (f j))
    → All (IsBuffer c) (slots f i n)
unfolding slots
slots-All c f i zero h = omega arith
slots-All c f i (suc n) h = (h i (omega arith), slots-All c f (i + 1) n (λ j lt. h j (omega arith)))

length-slots : (f : ℕ → ℕ) (i n : ℕ) → length (slots f i n) ≡ n
unfolding slots
length-slots f i zero = refl
length-slots f i (suc n) = ap suc (length-slots f (i + 1) n)

pub new_obj-IsValid : (s : Screen) (kind : Kind) → IsValid s → IsValid (new_obj s kind)
unfolding new_obj blank
new_obj-IsValid s kind v =
    put_new-IsValid s (blank kind s.next_id) s.blocks (s.fresh + 1) (s.next_id + 1) v refl
      (omega arith)

get_display-IsValid : (asked : Option Size) (s : Screen) → IsValid s → IsValid (get_display asked s)
unfolding get_display
get_display-IsValid asked s v = elim (Bool-cases (s.the_display == 0)) [
  | inl unset ↦
      let n = new_obj-IsValid s Kind.display v in
      rw unset (record { unused = n.unused; positive = n.positive; objects = n.objects })
  | inr set ↦ rw set v
]

has_none-pos : (n : ℕ) → has_none (pos n) ≡ false → 0 < n
unfolding has_none
has_none-pos zero e = ground arith
has_none-pos (suc n) e = omega arith

buffer_properties :
    (n : ℕ)
    → one_of n (37 ∷ 168 ∷ 171 ∷ 15 ∷ []) ≡ true
    → ((((n == 60) || (n == 11)) ≡ false) × (one_of n (37 ∷ 168 ∷ 171 ∷ []) ≡ true)) ⊎ (n ≡ 15)
unfolding one_of
buffer_properties n member = ground arith

-- A state in which the object at `p` has buffers.
record Ready (p : ℕ) (after : Option Screen) : Type 0 where
  pub state : Screen
  pub ends : after ≡ some state
  pub valid : IsValid state
  pub object : Obj
  pub cell : state.cells p ≡ some object
  pub held : IsObject state.cells object
  pub some_buffers : 0 < held.count

-- What `get_pv` gives: pointers to buffers, and a well-formed state.
pub record Buffers (given : Option (Pointers × Screen)) : Type 0 where
  pub list : List ℕ
  pub state : Screen
  pub ends : given ≡ some (pointers list, state)
  pub valid : IsValid state
  pub buffers : All (IsBuffer state.cells) list
  pub some_buffers : 0 < length list

-- What `get_pv` gives of any object.
pub record Given (given : Option (Pointers × Screen)) : Type 0 where
  pub out : Pointers
  pub state : Screen
  pub ends : given ≡ some (out, state)
  pub valid : IsValid state

module _ (alloc : ℕ → Bool) where
  ensure_some-Ready :
      (s : Screen) (p : ℕ) (o : Obj)
      → IsValid s
      → s.cells p ≡ some o
      → Ready p (ensure_some alloc p o s)
  unfolding ensure_some has_none
  ensure_some-Ready s p o v e =
      let h = v.objects p o e in
      elim (Bool-cases (has_none o.nbuffers)) [
        | inl empty ↦
            let t : Ensured alloc p 2 s = ensure_buffers-IsValid alloc p 2 s o v e in
            let h' = t.valid.objects p t.object t.cell in
            record {
              state = t.after;
              ends = rw empty t.ends;
              valid = t.valid;
              object = t.object;
              cell = t.cell;
              held = h';
              some_buffers = omega (arith, pos_injective h'.count 2 (sym h'.nbuffers ∙ t.count));
            }
        | inr full ↦ record {
          state = s;
          ends = rw full refl;
          valid = v;
          object = o;
          cell = e;
          held = h;
          some_buffers = has_none-pos h.count (ap has_none (sym h.nbuffers) ∙ full);
        }
      ]

  -- The slots of a window or pixmap.
  get_buffers-Buffers :
      (s : Screen) (p : ℕ) (o : Obj)
      → is_drawable o.kind ≡ true
      → IsValid s
      → s.cells p ≡ some o
      → Buffers (get_buffers alloc p o s)
  unfolding get_buffers read_at all_slots
  get_buffers-Buffers s p o k v e =
      let r = ensure_some-Ready s p o v e in
      record {
        list = slots r.object.buffers 0 r.held.count;
        state = r.state;
        ends = rw k (rw r.ends (rw (r.cell, read_at) (rw (r.held.nbuffers, all_slots) refl)));
        valid = r.valid;
        buffers =
            slots-All r.state.cells r.object.buffers 0 r.held.count
              (λ j lt. r.held.filled j (omega arith));
        some_buffers =
            subst (λ n. 0 < n) (sym (length-slots r.object.buffers 0 r.held.count)) r.some_buffers;
      }

  get_front-Buffers :
      (s : Screen) (p : ℕ) (o : Obj)
      → IsValid s
      → s.cells p ≡ some o
      → Buffers (get_front alloc p o s)
  unfolding get_front read_at
  get_front-Buffers s p o v e =
      let r = ensure_some-Ready s p o v e in
      record {
        list = r.object.buffers 0 ∷ [];
        state = r.state;
        ends = rw (r.ends, get_front) (rw (r.cell, read_at) refl);
        valid = r.valid;
        buffers = (r.held.filled 0 r.some_buffers, omega arith);
        some_buffers = omega arith;
      }

  -- For a well-formed state and a window or pixmap, `get_pv` of the property 37, 168 or 171 (the buffers)
  -- or 15 (the front buffer) comes to an end with at least one pointer, each pointer is the address of
  -- a buffer, and the state is well formed.
  pub get_pv-Buffers :
      (asked : Option Size) (s : Screen) (p n : ℕ) (o : Obj)
      → IsValid s
      → s.cells (suc p) ≡ some o
      → is_drawable o.kind ≡ true
      → one_of n (37 ∷ 168 ∷ 171 ∷ 15 ∷ []) ≡ true
      → Buffers (get_pv alloc asked (suc p) (pos n) s)
  unfolding get_pv get_pv_of one_of
  get_pv-Buffers asked s p n o v e k member = elim (buffer_properties n member) [
    | inl many ↦ rw (e, get_pv) (rw many.0 (rw many.1 (get_buffers-Buffers s (suc p) o k v e)))
    | inr front ↦ rw (e, get_pv) (rw front (get_front-Buffers s (suc p) o v e))
  ]

  Buffers-Given : (given : Option (Pointers × Screen)) → Buffers given → Given given
  Buffers-Given given b = record {
    out = pointers b.list;
    state = b.state;
    ends = b.ends;
    valid = b.valid;
  }

  get_buffers-Given :
      (s : Screen) (p : ℕ) (o : Obj)
      → IsValid s
      → s.cells p ≡ some o
      → Given (get_buffers alloc p o s)
  unfolding get_buffers
  get_buffers-Given s p o v e = elim (Bool-cases (is_drawable o.kind)) [
    | inl drawable ↦
        Buffers-Given (get_buffers alloc p o s) (get_buffers-Buffers s p o drawable v e)
    | inr other ↦ record { out = pointers []; state = s; ends = rw other refl; valid = v }
  ]

  if-Given :
      (test : Bool) (a b : Option (Pointers × Screen))
      → Given a
      → Given b
      → Given (if test then a else b)
  if-Given true a b g h = g
  if-Given false a b g h = h

  -- `get_pv` of an object, for a property that is not negative.
  pub get_pv-Given :
      (asked : Option Size) (s : Screen) (p n : ℕ) (o : Obj)
      → IsValid s
      → s.cells p ≡ some o
      → Given (get_pv alloc asked p (pos n) s)
  unfolding get_pv get_pv_of
  get_pv-Given asked s zero n o v e = record { out = einval; state = s; ends = refl; valid = v }
  get_pv-Given asked s (suc p) n o v e =
      rw (e, get_pv)
        (if-Given _ _ _
          (record {
            out = pointers ((get_display asked s).the_display ∷ []);
            state = get_display asked s;
            ends = refl;
            valid = get_display-IsValid asked s v;
          })
          (if-Given _ _ _ (get_buffers-Given s (suc p) o v e) (
            if-Given _ _ _
              (Buffers-Given (get_front alloc (suc p) o s) (get_front-Buffers s (suc p) o v e))
              (if-Given _ _ _
                (record { out = pointers (o.pixels ∷ []); state = s; ends = refl; valid = v })
                (record {
                  out = pointers (o.pv (4 * (if ltb n 200 then n else 0)) ∷ []);
                  state = s;
                  ends = refl;
                  valid = v;
                })))))
