-- ===== src/Screen/Calls/Steps.antt =====
-- What the calls of guest/shim/src/libscreen_stub.c do to well-formed objects, call by call.
use vw_firmware_mac.Base.{
  ℕ, zero, suc, ◌<◌, ◌≡◌, refl, inl, inr, Bool-cases, Option, some, Bool, true, false, ℤ, pos,
  negsuc, arith,
}
use vw_firmware_mac.Base.{ltb, ◌==◌, ◌*◌}
use vw_firmware_mac.Screen.Property.{Kind, Obj, Size, set_iv, write_cells, vec_len, mark}
use vw_firmware_mac.Screen.Objects.{Screen, put, blank, new_obj, set_cell, has_none}
use vw_firmware_mac.Screen.Objects.Buffers.{ensure_buffers-IsValid}
use vw_firmware_mac.Screen.Objects.Heap.{IsValid, IsObject, Cells, put-IsValid, write-same}
use vw_firmware_mac.Screen.Objects.Reading.{new_obj-IsValid, get_pv-Given}
use vw_firmware_mac.Screen.Calls.{
  serve, set_property_iv, set_drawable_property_iv, set_object_iv, screen_set_drawable_property_iv,
  get_property_pv, create_buffers, with_pv, screen_create_drawable, screen_create_window_type,
  change_if, screen_set_property_iv, screen_set_buffer_property_pv, screen_share_window_buffers,
  screen_get_event, share_from, copy_slots,
}
use vw_firmware_mac.Screen.Calls.Changes.{IsMild, put-mild, change-step}

-- The address of an object.
pub record Names (s : Screen) (p : ℕ) : Type 0 where
  pub obj : Obj
  pub cell : s.cells p ≡ some obj

pub screen_create_drawable-IsValid :
    (kind : Kind) (ctx : ℕ) (s : Screen) → IsValid s → IsValid (screen_create_drawable kind ctx s)
unfolding screen_create_drawable with_pv new_obj blank put
screen_create_drawable-IsValid kind ctx s v =
    put-mild (new_obj s kind) s.fresh (blank kind s.next_id) (with_pv 95 ctx)
      (record { kind = λ o. refl; nbuffers = λ o. refl; buffers = λ o. refl })
      (new_obj-IsValid s kind v) (write-same s.cells s.fresh (some (blank kind s.next_id)))

pub screen_create_window_type-IsValid :
    (ctx : ℕ) (kind : ℤ) (s : Screen) → IsValid s → IsValid (screen_create_window_type ctx kind s)
unfolding screen_create_window_type with_pv set_cell new_obj blank put
screen_create_window_type-IsValid ctx kind s v =
    put-mild (new_obj s Kind.window) s.fresh (blank Kind.window s.next_id)
      (λ o. set_cell (with_pv 95 ctx o) 47 kind)
      (record { kind = λ o. refl; nbuffers = λ o. refl; buffers = λ o. refl })
      (new_obj-IsValid s Kind.window v)
      (write-same s.cells s.fresh (some (blank Kind.window s.next_id)))

-- A call that comes to an end, and what it leaves behind.
pub record Served (after : Option Screen) : Type 0 where
  pub state : Screen
  pub ends : after ≡ some state
  pub valid : IsValid state

set_object_iv-IsValid :
    (p : ℕ) (pname : ℤ) (param : ℕ → ℤ) (o : Obj) (s : Screen)
    → s.cells p ≡ some o
    → IsValid s
    → IsValid (set_object_iv p pname param o s).1
unfolding set_object_iv set_iv
set_object_iv-IsValid p (negsuc n) param o s e v = v
set_object_iv-IsValid p (pos n) param o s e v = elim (Bool-cases (ltb n 200)) [
  | inl small ↦
      rw (small, set_object_iv, set_iv)
        (put-mild s p o
          (λ o'. record o' {
            iv = write_cells o'.iv (4 * n) param (vec_len n);
            iv_set = mark o'.iv_set n;
          })
          (record { kind = λ o'. refl; nbuffers = λ o'. refl; buffers = λ o'. refl }) v e)
  | inr large ↦ rw (large, set_object_iv, set_iv) v
]

pub set_drawable_iv-Served :
    (alloc : ℕ → Bool) (asked : Option Size) (s : Screen) (p : ℕ) (pname : ℤ) (param : ℕ → ℤ)
    → Names s p
    → IsValid s
    → Served (serve alloc asked (set_drawable_property_iv p pname param) s)
unfolding serve screen_set_drawable_property_iv
set_drawable_iv-Served alloc asked s p pname param n v = record {
  state = (set_object_iv p pname param n.obj s).1;
  ends = rw (n.cell, serve, screen_set_drawable_property_iv) refl;
  valid = set_object_iv-IsValid p pname param n.obj s n.cell v;
}

pub set_iv-Served :
    (alloc : ℕ → Bool) (asked : Option Size) (s : Screen) (p : ℕ) (pname : ℤ) (param : ℕ → ℤ)
    → Names s p
    → IsValid s
    → Served (serve alloc asked (set_property_iv p pname param) s)
unfolding serve screen_set_property_iv
set_iv-Served alloc asked s zero pname param n v = record { state = s; ends = refl; valid = v }
set_iv-Served alloc asked s (suc p) pname param n v = record {
  state = (set_object_iv (suc p) pname param n.obj s).1;
  ends = rw (n.cell, serve, screen_set_property_iv) refl;
  valid = set_object_iv-IsValid (suc p) pname param n.obj s n.cell v;
}

-- A change of an object under a condition on the property.
pub change_if-Served :
    (s : Screen) (p : ℕ) (f : Obj → Obj) (test : Bool)
    → IsMild f
    → Names s p
    → IsValid s
    → Served (change_if test p f s)
unfolding change_if
change_if-Served s p f true m n v = record {
  state = put s p (f n.obj);
  ends = rw (n.cell, change_if) refl;
  valid = put-mild s p n.obj f m v n.cell;
}
change_if-Served s p f false m n v = record {
  state = s;
  ends = rw (n.cell, change_if) refl;
  valid = v;
}

ltb_below : (i n : ℕ) → i < n → ltb i n ≡ true
ltb_below i n lt = ground arith

share_from-kind : (b a : Obj) → (share_from b a).kind ≡ a.kind
unfolding share_from
share_from-kind b a = refl

-- The pointers of another object.
share_from-IsObject : (c : Cells) (a b : Obj) → IsObject c b → IsObject c (share_from b a)
unfolding share_from copy_slots
share_from-IsObject c a b h = record {
  count = h.count;
  nbuffers = h.nbuffers;
  bound = h.bound;
  filled = λ i lt. rw h.nbuffers (rw (ltb_below i h.count lt) (h.filled i lt));
}

pub share-Served :
    (s : Screen) (w share : ℕ)
    → Names s w
    → Names s share
    → IsValid s
    → Served (screen_share_window_buffers w share s)
unfolding screen_share_window_buffers
share-Served s w share a b v = elim (Bool-cases (has_none b.obj.nbuffers)) [
  | inl empty ↦ record {
    state = s;
    ends = rw (b.cell, screen_share_window_buffers) (rw empty refl);
    valid = v;
  }
  | inr some_buffers ↦ record {
    state = put s w (share_from b.obj a.obj);
    ends =
        rw (b.cell, screen_share_window_buffers)
          (rw some_buffers (change-step s w a.obj (share_from b.obj) a.cell));
    valid =
        put-IsValid s w a.obj (share_from b.obj a.obj) v a.cell (share_from-kind b.obj a.obj)
          (share_from-IsObject s.cells a.obj b.obj (v.objects share b.obj b.cell));
  }
]

pub get_pv-Served :
    (alloc : ℕ → Bool) (asked : Option Size) (s : Screen) (p n : ℕ)
    → Names s p
    → IsValid s
    → Served (serve alloc asked (get_property_pv p (pos n)) s)
unfolding serve
get_pv-Served alloc asked s p n o v =
    let g = get_pv-Given alloc asked s p n o.obj v o.cell in
    record { state = g.state; ends = rw (g.ends, serve) refl; valid = g.valid }

pub create_buffers-Served :
    (alloc : ℕ → Bool) (asked : Option Size) (s : Screen) (p c : ℕ)
    → Names s p
    → IsValid s
    → Served (serve alloc asked (create_buffers p (pos c)) s)
unfolding serve
create_buffers-Served alloc asked s p c o v =
    let t = ensure_buffers-IsValid alloc p c s o.obj v o.cell in
    record { state = t.after; ends = t.ends; valid = t.valid }

pub with_pv-IsMild : (n q : ℕ) → IsMild (with_pv n q)
unfolding with_pv
with_pv-IsMild n q = record { kind = λ o. refl; nbuffers = λ o. refl; buffers = λ o. refl }

pub buffer_pv-Served :
    (s : Screen) (p q : ℕ) (pname : ℤ)
    → Names s (suc p)
    → IsValid s
    → Served (screen_set_buffer_property_pv (suc p) pname q s)
unfolding screen_set_buffer_property_pv
buffer_pv-Served s p q (pos n) o v =
    change_if-Served s (suc p) (λ o'. record o' { pixels = q }) (n == 34)
      (record { kind = λ o'. refl; nbuffers = λ o'. refl; buffers = λ o'. refl }) o v
buffer_pv-Served s p q (negsuc n) o v =
    change_if-Served s (suc p) (λ o'. record o' { pixels = q }) false
      (record { kind = λ o'. refl; nbuffers = λ o'. refl; buffers = λ o'. refl }) o v

pub get_event-Served : (s : Screen) (e : ℕ) → Names s e → IsValid s → Served (screen_get_event e s)
unfolding screen_get_event set_cell
get_event-Served s e o v = record {
  state = _;
  ends = change-step s e o.obj (λ o'. set_cell o' 47 (pos 0)) o.cell;
  valid =
      put-mild s e o.obj (λ o'. set_cell o' 47 (pos 0))
        (record { kind = λ o'. refl; nbuffers = λ o'. refl; buffers = λ o'. refl }) v o.cell;
}
