-- ===== src/Dsi/Send/Once.antt =====
-- Which packets `_send` of guest/dsi/trace.c forwards to the original library.
use vw_firmware_mac.Base.{ℕ, ◌≤◌, ◌≡◌, List, Option, none, some}
use vw_firmware_mac.Base.{if◌then◌else◌, length, min}
use vw_firmware_mac.Dsi.Jni.{Event, logged, jni_tx}
use vw_firmware_mac.Dsi.Send.Honest.{Honest, answered, forwards}

-- The original is called once, unless a packet was delivered in its place.
abbrev pub Settled : List Event → Type 0
Settled es = forwards es ≡ (if answered es then 0 else 1)

-- What `record` makes of the packet.
abbrev IsLine : ℕ → Event → Type 0
IsLine size line = (shown : List ℕ) × (line ≡ logged jni_tx size shown)

-- The array holds `size` bytes, and at most 96.
abbrev Holds : Option (ℕ × List ℕ) → Type 0
Holds none = Unit
Holds (some (size, p)) = min size 96 ≤ length p
