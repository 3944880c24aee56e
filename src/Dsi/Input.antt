-- ===== src/Dsi/Input.antt =====
-- The input thread of guest/dsi/input.h on one connection: `input_exact`, and the inner loop of
-- `input_main` with its test of a packet.
pub mod Packets
pub mod Thread
use vw_firmware_mac.Base.{
  ℕ, zero, suc, ◌-◌, List, [], ◌∷◌, ◌++◌, Option, none, some, Bool, true, false,
}
use vw_firmware_mac.Base.{ltb, ◌==◌, ◌&&◌, ◌||◌, if◌then◌else◌, length, take, drop, u32_at}
use vw_firmware_mac.Rpc.Link.{Answer, moves, interrupted, fails}
use vw_firmware_mac.Dsi.Jni.{Jni, Event, record_line, deliver, input_connected, input_rx}

-- How a read ends: a return of 0, or the bytes, with the kernel's answers and the stream left.
pub data Received : Type 0 where
  ended : Received
  got : List ℕ → List Answer → List ℕ → Received

-- `count` bytes are missing, and `done` were read. An interrupted call ends it, as any failure does;
-- `none` is a call that waits.
unfoldable pub input_exact : List Answer → ℕ → List ℕ → List ℕ → Option Received
input_exact answers zero done stream = some (got done answers stream)
input_exact [] (suc count) done stream = none
input_exact (moves n ∷ more) (suc count) done stream =
    let part = take n (take (suc count) stream) in
    let rest =
      input_exact more (suc count - length part) (done ++ part) (drop (length part) stream) in
    if length part == 0 then some ended else rest
input_exact (interrupted ∷ more) (suc count) done stream = some ended
input_exact (fails ∷ more) (suc count) done stream = some ended

-- The notifications of DSIKeyPanel. The packet has 12 bytes at least.
unfoldable pub is_key_packet : List ℕ → Bool
is_key_packet p =
    u32_at p 0 == 0x0201d800
    && (u32_at p 4 == 0xa63ff832 && (u32_at p 8 == 20 || (u32_at p 8 == 23 || u32_at p 8 == 25)))

unfoldable pub take_packet : Jni → List ℕ → List Event
unfolding record_line
take_packet j p =
    if is_key_packet p then (deliver j p).1 ++ record_line input_rx (length p) p ∷ [] else []

-- The loop, for at most `rounds` packets; the list of VM answers has one for each packet.
unfoldable pub input_packets : ℕ → (ℕ → Jni) → List Answer → List ℕ → Option (List Event)
input_packets zero jni answers stream = none
input_packets (suc rounds) jni answers stream = elim (input_exact answers 4 [] stream) [
  | none ↦ none
  | some ended ↦ some []
  | some (got header more rest) ↦
      let size = u32_at header 0 in
      if ltb size 12 || ltb 256 size then some [] else (elim (input_exact more size [] rest) [
        | none ↦ none
        | some ended ↦ some []
        | some (got p more' rest') ↦ elim (input_packets rounds (λ i. jni (suc i)) more' rest') [
          | none ↦ none
          | some events ↦ some (take_packet (jni 0) p ++ events)
        ]
      ])
]

-- A connection, from `connect` to `close`.
unfoldable pub input_connection : ℕ → (ℕ → Jni) → List Answer → List ℕ → Option (List Event)
unfolding record_line
input_connection rounds jni answers stream = elim (input_packets rounds jni answers stream) [
  | none ↦ none
  | some events ↦ some (record_line input_connected 0 [] ∷ events)
]
