-- ===== src/Screen/Calls/Valid.antt =====
-- The calls of guest/shim/src/libscreen_stub.c keep the objects well formed.
use vw_firmware_mac.Base.{
  ℕ, suc, ◌≡◌, refl, sym, ◌∙◌, subst, List, Option, some, Bool, ℤ, pos, arith,
}
use vw_firmware_mac.Base.{ltb}
use vw_firmware_mac.Screen.Property.{Kind, Size}
use vw_firmware_mac.Screen.Objects.{Screen, new_obj, get_pv}
use vw_firmware_mac.Screen.Objects.Heap.{IsValid}
use vw_firmware_mac.Screen.Objects.Reading.{new_obj-IsValid}
use mathlib.Core.Option.{none-ne-some, some-injective}
use vw_firmware_mac.Screen.Calls.{
  screen_create, ScreenCall, serve, start, create, create_drawable, create_window_type,
  set_property_iv, set_drawable_property_iv, set_property_pv, set_buffer_property_pv,
  set_window_property_cv, get_property_pv, create_buffers, share_window_buffers, get_event, with_pv,
  screen_set_property_iv, screen_set_property_pv, screen_set_window_property_cv,
}
use vw_firmware_mac.Screen.Calls.Steps.{
  Names, Served, screen_create_drawable-IsValid, screen_create_window_type-IsValid,
  set_drawable_iv-Served, set_iv-Served, change_if-Served, share-Served, get_pv-Served,
  create_buffers-Served, with_pv-IsMild, buffer_pv-Served, get_event-Served,
}

-- What a caller may pass: pointers to objects, or null where a call tests it; properties, and counts
-- that are not negative. A property of integers, and that of a buffer, may be any number.
pub data Legal (s : Screen) : ScreenCall → Type 0 where
  any_create : (kind : Kind) → Legal s (create kind)
  any_drawable : (kind : Kind) (ctx : ℕ) → Legal s (create_drawable kind ctx)
  any_window_type : (ctx : ℕ) (kind : ℤ) → Legal s (create_window_type ctx kind)
  null_iv : (pname : ℤ) (param : ℕ → ℤ) → Legal s (set_property_iv 0 pname param)
  legal_iv :
      (p : ℕ) (pname : ℤ) (param : ℕ → ℤ) → Names s p → Legal s (set_property_iv p pname param)
  legal_drawable_iv :
      (p : ℕ) (pname : ℤ) (param : ℕ → ℤ)
      → Names s p
      → Legal s (set_drawable_property_iv p pname param)
  legal_pv : (p n q : ℕ) → Names s p → Legal s (set_property_pv p (pos n) q)
  legal_buffer_pv :
      (p q : ℕ) (pname : ℤ) → Names s (suc p) → Legal s (set_buffer_property_pv (suc p) pname q)
  legal_cv :
      (p n : ℕ) (len : ℤ) (text : List ℕ)
      → Names s p
      → Legal s (set_window_property_cv p (pos n) len text)
  null_get_pv : (pname : ℤ) → Legal s (get_property_pv 0 pname)
  legal_get_pv : (p n : ℕ) → Names s p → Legal s (get_property_pv p (pos n))
  legal_buffers : (p c : ℕ) → Names s p → Legal s (create_buffers p (pos c))
  legal_share : (w share : ℕ) → Names s w → Names s share → Legal s (share_window_buffers w share)
  legal_event : (e : ℕ) → Names s e → Legal s (get_event e)

pub serve-IsValid :
    (alloc : ℕ → Bool) (asked : Option Size) (s : Screen) (call : ScreenCall)
    → IsValid s
    → Legal s call
    → Served (serve alloc asked call s)
unfolding serve screen_create screen_set_property_pv screen_set_window_property_cv get_pv
serve-IsValid alloc asked s _ v (any_create kind) = record {
  state = new_obj s kind;
  ends = refl;
  valid = new_obj-IsValid s kind v;
}
serve-IsValid alloc asked s _ v (any_drawable kind ctx) = record {
  state = _;
  ends = refl;
  valid = screen_create_drawable-IsValid kind ctx s v;
}
serve-IsValid alloc asked s _ v (any_window_type ctx kind) = record {
  state = _;
  ends = refl;
  valid = screen_create_window_type-IsValid ctx kind s v;
}
serve-IsValid alloc asked s _ v (null_iv pname param) = record {
  state = s;
  ends = unfold screen_set_property_iv in refl;
  valid = v;
}
serve-IsValid alloc asked s _ v (legal_iv p pname param o) =
    set_iv-Served alloc asked s p pname param o v
serve-IsValid alloc asked s _ v (legal_drawable_iv p pname param o) =
    set_drawable_iv-Served alloc asked s p pname param o v
serve-IsValid alloc asked s _ v (legal_pv p n q o) =
    change_if-Served s p (with_pv n q) (ltb n 200) (with_pv-IsMild n q) o v
serve-IsValid alloc asked s _ v (legal_buffer_pv p q pname o) = buffer_pv-Served s p q pname o v
serve-IsValid alloc asked s _ v (legal_cv p n len text o) =
    change_if-Served s p _ (ltb n 200)
      (record { kind = λ o'. refl; nbuffers = λ o'. refl; buffers = λ o'. refl }) o v
serve-IsValid alloc asked s _ v (null_get_pv pname) = record { state = s; ends = refl; valid = v }
serve-IsValid alloc asked s _ v (legal_get_pv p n o) = get_pv-Served alloc asked s p n o v
serve-IsValid alloc asked s _ v (legal_buffers p c o) = create_buffers-Served alloc asked s p c o v
serve-IsValid alloc asked s _ v (legal_share w share a b) = share-Served s w share a b v
serve-IsValid alloc asked s _ v (legal_event e o) = get_event-Served s e o v

start-IsValid : IsValid start
unfolding start
start-IsValid = record {
  unused = λ a le. refl;
  positive = omega arith;
  objects = λ a o e. absurd (none-ne-some o e);
}

-- The states that calls of such arguments lead to.
pub data Reach (alloc : ℕ → Bool) (asked : Option Size) : Screen → Type 0 where
  begin : Reach alloc asked start
  then_call :
      (s t : Screen) (call : ScreenCall)
      → Reach alloc asked s
      → Legal s call
      → serve alloc asked call s ≡ some t
      → Reach alloc asked t

pub Reach-IsValid :
    (alloc : ℕ → Bool) (asked : Option Size) (s : Screen) → Reach alloc asked s → IsValid s
Reach-IsValid alloc asked _ begin = start-IsValid
Reach-IsValid alloc asked _ (then_call s t call r legal e) =
    let h = serve-IsValid alloc asked s call (Reach-IsValid alloc asked s r) legal in
    subst IsValid (some-injective h.state t (sym h.ends ∙ e)) h.valid
