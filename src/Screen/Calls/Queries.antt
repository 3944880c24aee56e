-- ===== src/Screen/Calls/Queries.antt =====
-- The entry points of guest/shim/src/libscreen_stub.c that only read.
use vw_firmware_mac.Base.{ℕ, zero, suc, List, [], ◌∷◌, Option, none, some, ℤ, pos, negsuc}
use vw_firmware_mac.Base.{◌==◌, if◌then◌else◌, take}
use Prim.Native.String.{String}
use Prim.Native.Char.{code}
use vw_firmware_mac.Screen.Property.{Got, einval, get_iv}
use vw_firmware_mac.Screen.Objects.{Screen}

-- `get_iv` of an object.
unfoldable pub get_object_iv : ℕ → ℤ → Screen → Option Got
get_object_iv p pname s = elim (s.cells p) [
  | none ↦ none
  | some o ↦ some (get_iv s.size (some o) pname)
]

-- `screen_get_window_property_iv`; the log reads the window, also where `get_iv` has refused it.
unfoldable pub screen_get_window_property_iv : ℕ → ℤ → Screen → Option Got
unfolding get_object_iv
screen_get_window_property_iv w pname s = get_object_iv w pname s

-- The other `screen_get_…_property_iv`; `none` is a pointer to no object.
unfoldable pub screen_get_property_iv : ℕ → ℤ → Screen → Option Got
unfolding get_object_iv
screen_get_property_iv zero pname s = some einval
screen_get_property_iv (suc p) pname s = get_object_iv (suc p) pname s

-- The bytes of a text.
abbrev pub codes : String → List ℕ
codes String.[] = []
codes (String.◌∷◌ c s) = code c ∷ codes s

-- The text that is left at `param`, which has `len` bytes; nothing is written where `len` is not positive.
unfoldable pub screen_get_display_property_cv : ℤ → ℤ → Option (List ℕ)
screen_get_display_property_cv pname (negsuc n) = none
screen_get_display_property_cv pname (pos zero) = none
screen_get_display_property_cv (pos n) (pos (suc len)) =
    some (take len (if n == 20 then codes "stubdisplay" else []))
screen_get_display_property_cv (negsuc n) (pos (suc len)) = some []

-- The same of a context, a pixmap, a buffer, an event, a group or a device.
unfoldable pub screen_get_property_cv : ℤ → Option (List ℕ)
screen_get_property_cv (pos (suc len)) = some []
screen_get_property_cv _ = none

-- The first mode at `modes`, where there is room for one.
unfoldable pub screen_get_display_modes : ℤ → Screen → List ℤ
screen_get_display_modes (pos (suc max)) s =
    s.size.screen_w ∷ s.size.screen_h ∷ pos 60 ∷ pos 0 ∷ pos 0 ∷ pos 0 ∷ pos 0 ∷ pos 0 ∷ []
screen_get_display_modes _ s = []

-- `screen_get_event_property_pv`, and those of a group and a device.
unfoldable pub screen_get_property_pv : ℕ → ℕ
screen_get_property_pv pname = 0
