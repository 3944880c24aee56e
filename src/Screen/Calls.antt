-- ===== src/Screen/Calls.antt =====
-- The entry points of guest/shim/src/libscreen_stub.c that change an object or read one. The others log
-- and return 0. `none` is a use of a pointer to no object, or an access before an array.
pub mod Changes
pub mod Steps
pub mod Valid
pub mod Sharing
pub mod Queries
mod Tests
use vw_firmware_mac.Base.{
  ℕ, zero, suc, ◌+◌, ◌-◌, ◌*◌, List, [], ◌∷◌, Option, none, some, Bool, true, false, ℤ, pos, negsuc,
}
use vw_firmware_mac.Base.{ltb, leb, ◌==◌, if◌then◌else◌, take}
use vw_firmware_mac.Screen.Property.{Kind, Obj, Size, Got, set_iv, get_iv}
use vw_firmware_mac.Screen.Objects.{
  Screen, write, put, new_obj, blank, set_cell, unsigned, has_none, Pointers, ensure_buffers,
  get_pv,
}
use vw_firmware_mac.Screen.Transport.{Network, Publication, frame_publish}

-- An update of the object at an address.
unfoldable pub change : ℕ → (Obj → Obj) → Screen → Option Screen
change p f s = elim (s.cells p) [ none ↦ none | some o ↦ some (put s p (f o)) ]

-- An update of the object at an address under a condition; the log reads the object in any case.
unfoldable pub change_if : Bool → ℕ → (Obj → Obj) → Screen → Option Screen
change_if test p f s = elim (s.cells p) [
  | none ↦ none
  | some o ↦ some (if test then put s p (f o) else s)
]

-- `screen_create_context`, `_buffer`, `_event`, `_group` and `_device_type`; the pointer is `fresh`.
unfoldable pub screen_create : Kind → Screen → Screen
screen_create kind s = new_obj s kind

-- `o->pv[pname][0] = q`
unfoldable pub with_pv : ℕ → ℕ → Obj → Obj
with_pv pname q o = record o { pv = write o.pv (4 * pname) q }

-- `screen_create_window` and `screen_create_pixmap`.
unfoldable pub screen_create_drawable : Kind → ℕ → Screen → Screen
screen_create_drawable kind ctx s =
    put (new_obj s kind) s.fresh (with_pv 95 ctx (blank kind s.next_id))

unfoldable pub screen_create_window_type : ℕ → ℤ → Screen → Screen
screen_create_window_type ctx kind s =
    put (new_obj s Kind.window) s.fresh
      (set_cell (with_pv 95 ctx (blank Kind.window s.next_id)) 47 kind)

-- `set_iv` of an object.
unfoldable pub set_object_iv : ℕ → ℤ → (ℕ → ℤ) → Obj → Screen → Bool × Screen
set_object_iv p pname param o s = elim (set_iv (some o) pname param) [
  | none ↦ (false, s)
  | some o' ↦ (true, put s p o')
]

-- `screen_set_window_property_iv` and `screen_set_pixmap_property_iv`: whether it returns 0. The log
-- reads the object before `set_iv` tests the pointer.
unfoldable pub screen_set_drawable_property_iv : ℕ → ℤ → (ℕ → ℤ) → Screen → Option (Bool × Screen)
screen_set_drawable_property_iv p pname param s = elim (s.cells p) [
  | none ↦ none
  | some o ↦ some (set_object_iv p pname param o s)
]

-- The other `screen_set_…_property_iv`: whether it returns 0.
unfoldable pub screen_set_property_iv : ℕ → ℤ → (ℕ → ℤ) → Screen → Option (Bool × Screen)
screen_set_property_iv zero pname param s = some (false, s)
screen_set_property_iv (suc p) pname param s = elim (s.cells (suc p)) [
  | none ↦ none
  | some o ↦ some (set_object_iv (suc p) pname param o s)
]

-- `screen_set_window_property_pv`, and `screen_set_context_property_pv` of a pointer that is not null.
unfoldable pub screen_set_property_pv : ℕ → ℤ → ℕ → Screen → Option Screen
screen_set_property_pv p (negsuc n) q s = none
screen_set_property_pv p (pos n) q s = change_if (ltb n 200) p (with_pv n q) s

unfoldable pub screen_set_buffer_property_pv : ℕ → ℤ → ℕ → Screen → Option Screen
screen_set_buffer_property_pv zero (negsuc n) q s = some s
screen_set_buffer_property_pv zero (pos n) q s = if n == 34 then none else some s
screen_set_buffer_property_pv (suc p) (negsuc n) q s =
    change_if false (suc p) (λ o. record o { pixels = q }) s
screen_set_buffer_property_pv (suc p) (pos n) q s =
    change_if (n == 34) (suc p) (λ o. record o { pixels = q }) s

-- `"%.*s"` of a text: a negative length takes all of it.
unfoldable pub precision : ℤ → List ℕ → List ℕ
precision (pos n) text = take n text
precision (negsuc n) text = text

-- `snprintf` into the 128 bytes of `cv[pname]`. A text is given without its NUL.
unfoldable pub screen_set_window_property_cv : ℕ → ℤ → ℤ → List ℕ → Screen → Option Screen
screen_set_window_property_cv p (negsuc n) len text s = none
screen_set_window_property_cv p (pos n) len text s =
    change_if (ltb n 200) p (λ o. record o { cv = write o.cv n (take 127 (precision len text)) }) s

-- The text that is left at `param`, which has `len` bytes.
unfoldable pub screen_get_window_property_cv : ℕ → ℤ → ℕ → Screen → Option (List ℕ)
screen_get_window_property_cv p (negsuc n) len s = none
screen_get_window_property_cv zero (pos n) len s = if ltb n 200 then none else some []
screen_get_window_property_cv (suc p) (pos n) len s = elim (s.cells (suc p)) [
  | none ↦ none
  | some o ↦ some (take (len - 1) (if ltb n 200 then o.cv n else []))
]

-- The first `n` slots of `from`, copied to `to`.
unfoldable pub copy_slots : ℕ → (ℕ → ℕ) → (ℕ → ℕ) → ℕ → ℕ
copy_slots n from to i = if ltb i n then from i else to i

unfoldable pub share_from : Obj → Obj → Obj
share_from b a = record a {
  nbuffers = b.nbuffers;
  buffers = elim b.nbuffers [ pos n ↦ copy_slots n b.buffers a.buffers | negsuc n ↦ a.buffers ];
}

unfoldable pub screen_share_window_buffers : ℕ → ℕ → Screen → Option Screen
screen_share_window_buffers w share s = elim (s.cells share) [
  | none ↦ none
  | some b ↦ if has_none b.nbuffers then some s else change w (share_from b) s
]

-- The queue is empty after the wait: the event is of the type 0.
unfoldable pub screen_get_event : ℕ → Screen → Option Screen
screen_get_event e s = change e (λ o. set_cell o 47 (pos 0)) s

unfoldable pub is_buffer : Kind → Bool
is_buffer Kind.buffer = true
is_buffer _ = false

-- How `screen_post_window` ends: 0 without a host, -1 with `EINVAL`, or what `frame_publish` returns.
pub data Post : Type 0 where
  posted einval : Post
  published : Publication → Post

unfoldable pub post_buffer : Network → Screen → Obj → Option Post
post_buffer net s b =
    if is_buffer b.kind
    then (elim (frame_publish net (s.blocks b.pixels) (unsigned (b.iv 20)) (unsigned (b.iv 21))
        (unsigned (b.iv 176)) (unsigned (b.iv 56))) [ none ↦ none | some p ↦ some (published p) ])
    else some einval

-- The window is only logged. `none` also for a call that still waits.
unfoldable pub screen_post_window : Network → ℕ → Screen → Option Post
screen_post_window net zero s = if net.host then some einval else some posted
screen_post_window net (suc b) s =
    if net.host
    then (elim (s.cells (suc b)) [ none ↦ none | some o ↦ post_buffer net s o ])
    else some posted

-- The calls that change the state.
pub data ScreenCall : Type 0 where
  create : Kind → ScreenCall
  create_drawable : Kind → ℕ → ScreenCall
  create_window_type : ℕ → ℤ → ScreenCall
  set_property_iv : ℕ → ℤ → (ℕ → ℤ) → ScreenCall
  set_drawable_property_iv : ℕ → ℤ → (ℕ → ℤ) → ScreenCall
  set_property_pv : ℕ → ℤ → ℕ → ScreenCall
  set_buffer_property_pv : ℕ → ℤ → ℕ → ScreenCall
  set_window_property_cv : ℕ → ℤ → ℤ → List ℕ → ScreenCall
  get_property_pv : ℕ → ℤ → ScreenCall
  -- `screen_create_window_buffers`, `screen_share_display_buffers`, `screen_create_pixmap_buffer`.
  create_buffers : ℕ → ℤ → ScreenCall
  share_window_buffers : ℕ → ℕ → ScreenCall
  get_event : ℕ → ScreenCall

-- What a call leaves behind.
unfoldable pub serve : (ℕ → Bool) → Option Size → ScreenCall → Screen → Option Screen
serve alloc asked (create kind) s = some (screen_create kind s)
serve alloc asked (create_drawable kind ctx) s = some (screen_create_drawable kind ctx s)
serve alloc asked (create_window_type ctx kind) s = some (screen_create_window_type ctx kind s)
serve alloc asked (set_property_iv p pname param) s =
    elim (screen_set_property_iv p pname param s) [ none ↦ none | some (ok, t) ↦ some t ]
serve alloc asked (set_drawable_property_iv p pname param) s =
    elim (screen_set_drawable_property_iv p pname param s) [ none ↦ none | some (ok, t) ↦ some t ]
serve alloc asked (set_property_pv p pname q) s = screen_set_property_pv p pname q s
serve alloc asked (set_buffer_property_pv p pname q) s = screen_set_buffer_property_pv p pname q s
serve alloc asked (set_window_property_cv p pname len text) s =
    screen_set_window_property_cv p pname len text s
serve alloc asked (get_property_pv p pname) s = elim (get_pv alloc asked p pname s) [
  | none ↦ none
  | some (out, t) ↦ some t
]
serve alloc asked (create_buffers p count) s = ensure_buffers alloc p count s
serve alloc asked (share_window_buffers w share) s = screen_share_window_buffers w share s
serve alloc asked (get_event e) s = screen_get_event e s

-- The static variables at the start. The address 0 is never given out.
unfoldable pub start : Screen
start = record {
  cells = λ p. none;
  blocks = λ p. none;
  fresh = 1;
  next_id = 1;
  the_display = 0;
  size = record { screen_w = pos 800; screen_h = pos 480 };
}
