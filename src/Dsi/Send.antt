-- ===== src/Dsi/Send.antt =====
-- The entry points of guest/dsi/trace.c that stand before the original library: `trace_tx`, `trace_rx`
-- and the JNI `_send`.
pub mod Honest
pub mod Once
use vw_firmware_mac.Base.{
  ℕ, zero, suc, List, [], ◌∷◌, ◌++◌, Option, none, some, Bool, true, false, ℤ, pos, negsuc,
}
use vw_firmware_mac.Base.{ltb, leb, ◌==◌, ◌&&◌, if◌then◌else◌, length, take, min, u32_at}
use vw_firmware_mac.Dsi.Bytes.{◌>>=◌, u32_in, bytes_in}
use vw_firmware_mac.Dsi.Jni.{
  Jni, Label, Event, record_line, logged, jni_tx, tx, rx, tx_forward_missing, rx_forward_missing,
  forwarded, thrown, input_wanted,
}
use vw_firmware_mac.Dsi.Power.{power_on}
use vw_firmware_mac.Dsi.Store.{empty_store}

-- What the process and the Java VM answer: whether the original symbol is found,
-- `GetByteArrayRegion` leaves no exception, the class of the error is found, the two variables
-- are "1", and how far each delivery gets.
pub record Process : Type 0 where
  pub original : Bool
  pub region : Bool
  pub error_class : Bool
  pub power_enabled : Bool
  pub store_enabled : Bool
  pub power_jni : ℕ → Jni
  pub store_jni : Jni

-- `size` and the bytes copied to `data[96]`, where `bytes && size > 0 && size <= GetArrayLength(bytes)`.
unfoldable pub readable : Option (List ℕ) → ℤ → Option (ℕ × List ℕ)
readable none size = none
readable (some bytes) (negsuc n) = none
readable (some bytes) (pos zero) = none
readable (some bytes) (pos (suc n)) =
    if leb (suc n) (length bytes) then some (suc n, take (min (suc n) 96) bytes) else none

-- `power_on(…) || empty_store(…)`
unfoldable pub answer_packet : Process → ℕ → List ℕ → Option (Bool × List Event)
answer_packet s size p = do
  (powered, done) ← power_on s.power_enabled s.power_jni size p
  if powered then some (true, done) else (do
    (stored, more) ← empty_store s.store_enabled s.store_jni size p
    some (stored, done ++ more))

-- The call of the original, or the error.
unfoldable pub forward : Process → List Event
forward s = if s.original then forwarded ∷ [] else (if s.error_class then thrown ∷ [] else [])

-- `size >= 12 && u32(data) == 0x0201d000`
unfoldable pub wants_input : ℕ → List ℕ → Option Bool
wants_input size p =
    if leb 12 size then (do service ← u32_in p 0; some (service == 0x0201d000)) else some false

-- `record` of the array that the packet was copied to, which is read as far as `count` says.
unfoldable pub record_array : Label → ℕ → List ℕ → Option Event
record_array direction size p = do
  shown ← bytes_in p 0 (if ltb size 96 then size else 96)
  some (logged direction size shown)

-- The body for a packet that was read.
unfoldable pub send_packet : Process → ℕ → List ℕ → Option (List Event)
unfolding record_array
send_packet s size p = do
  line ← record_array jni_tx size p
  input ← wants_input size p
  (answered, events) ← if leb size 96 then answer_packet s size p else some (false, [])
  some (
      line
      ∷ ((if input then input_wanted ∷ [] else [])
          ++ (events ++ (if answered then [] else forward s))))

-- `none` is a read past the end of `data`.
unfoldable pub send : Process → Option (List ℕ) → ℤ → Option (List Event)
send s bytes size = elim (readable bytes size) [
  | none ↦ some (forward s)
  | some (size, p) ↦ if s.region then send_packet s size p else some (forward s)
]

unfoldable pub trace_tx : Process → Option (List ℕ) → ℤ → List Event
unfolding record_line
trace_tx s bytes size =
    (elim (readable bytes size) [
      | none ↦ []
      | some (n, p) ↦ if s.region then record_line tx n p ∷ [] else []
    ])
    ++ (if s.original then forwarded ∷ [] else record_line tx_forward_missing 0 [] ∷ [])

-- `data` is null or has `size` bytes.
unfoldable pub trace_rx : Process → Option (List ℕ) → List Event
unfolding record_line
trace_rx s packet =
    (elim packet [ none ↦ [] | some p ↦ record_line rx (length p) p ∷ [] ])
    ++ (if s.original then forwarded ∷ [] else record_line rx_forward_missing 0 [] ∷ [])
