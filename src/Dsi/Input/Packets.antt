-- ===== src/Dsi/Input/Packets.antt =====
-- A stream of packets under `input_main` of guest/dsi/input.h.
use vw_firmware_mac.Base.{
  ℕ, zero, suc, ◌+◌, ◌-◌, ◌≤◌, ◌<◌, ◌≡◌, refl, sym, ap, ◌∙◌, arith, List, [], ◌∷◌, ◌++◌, some,
  append-nil,
}
use vw_firmware_mac.Base.{
  if◌then◌else◌, length, length-append, length-take, length-drop, take, drop, take-append, All,
  le32, u32_at, word_le32, Bool-cases, le→ltb_false, inl, inr,
}
use vw_firmware_mac.Rpc.Link.{Answer, moves, interrupted, fails}
use vw_firmware_mac.Rpc.Link.Moving.{Moving, Moving-le}
use vw_firmware_mac.Rpc.Link.Progress.{suc-==-zero, drop-length-take, rejoin}
use vw_firmware_mac.Dsi.Jni.{Jni, Event, deliver, record_line, input_rx, input_connected}
use vw_firmware_mac.Dsi.Power.Order.{
  deliveries, deliveries-append, deliveries-deliver, Reaches, length-le32,
}
use vw_firmware_mac.Dsi.Input.{
  got, input_exact, is_key_packet, take_packet, input_packets, input_connection,
}

input_exact-step :
    (n : ℕ) (more : List Answer) (x : ℕ) (xs done rest : List ℕ)
    → input_exact (moves (suc n) ∷ more) (suc (length xs)) done (x ∷ (xs ++ rest))
      ≡ input_exact more (length (drop n xs)) (done ++ x ∷ take n xs) (drop n xs ++ rest)
unfolding input_exact
input_exact-step n more x xs done rest = rw (
  take-append (length xs) xs rest refl,
  suc-==-zero (length (take n xs)),
  drop-length-take n xs rest,
  left,
)
  where
    left : suc (length xs) - suc (length (take n xs)) ≡ length (drop n xs)
    left = omega (arith, length-drop n xs, length-take n xs)

input_exact-Moving :
    (answers : List Answer) (bytes done rest : List ℕ) (k m : ℕ)
    → length bytes + k ≤ m
    → Moving m answers
    → (more : List Answer) × (input_exact answers (length bytes) done (bytes ++ rest)
        ≡ some (got (done ++ bytes) more rest))
      × Moving k more
unfolding input_exact
input_exact-Moving answers [] done rest k m h w = (
  answers,
  ap (λ g. some (got g answers rest)) (sym (append-nil done)),
  Moving-le m k answers (omega arith) w,
)
input_exact-Moving answers (x ∷ xs) done rest k zero h w = absurd (omega arith)
input_exact-Moving [] (x ∷ xs) done rest k (suc m) h w = absurd w
input_exact-Moving (moves zero ∷ more) (x ∷ xs) done rest k (suc m) h w = absurd (omega arith)
input_exact-Moving (moves (suc n) ∷ more) (x ∷ xs) done rest k (suc m) h w =
    let (left, e, v) =
      input_exact-Moving more (drop n xs) (done ++ x ∷ take n xs) rest k m
        (omega (arith, length-drop n xs)) w.1 in
    (left, input_exact-step n more x xs done rest ∙ rw (rejoin done x xs n) at e, v)
input_exact-Moving (interrupted ∷ more) (x ∷ xs) done rest k (suc m) h w = absurd w
input_exact-Moving (fails ∷ more) (x ∷ xs) done rest k (suc m) h w = absurd w

-- The stream that the host sends: each packet behind its size.
abbrev pub stream_of : List (List ℕ) → List ℕ
stream_of [] = []
stream_of (p ∷ ps) = le32 (length p) ++ (p ++ stream_of ps)

-- The sizes that the thread takes.
abbrev pub IsPacket : List ℕ → Type 0
IsPacket p = (12 ≤ length p) × (length p ≤ 256)

-- The key notifications among the packets.
unfoldable pub key_packets : List (List ℕ) → List (List ℕ)
key_packets [] = []
key_packets (p ∷ ps) = if is_key_packet p then p ∷ key_packets ps else key_packets ps

deliveries-take_packet :
    (j : Jni) (p : List ℕ) (events : List Event) (ps : List (List ℕ))
    → Reaches j
    → deliveries events ≡ key_packets ps
    → deliveries (take_packet j p ++ events) ≡ key_packets (p ∷ ps)
unfolding take_packet key_packets deliveries record_line
deliveries-take_packet j p events ps h e = elim (Bool-cases (is_key_packet p)) [
  | inl key' ↦ rw key' (
      deliveries-append ((deliver j p).1 ++ record_line input_rx (length p) p ∷ []) events
      ∙ ap (λ d. d ++ deliveries events)
          (deliveries-append (deliver j p).1 (record_line input_rx (length p) p ∷ [])
            ∙ ap (λ d. d ++ deliveries (record_line input_rx (length p) p ∷ []))
                (deliveries-deliver j p h))
      ∙ ap (λ d. p ∷ d) e)
  | inr other ↦ rw other e
]

u32_at-size : (a : ℕ) → a ≤ 256 → u32_at (le32 a) 0 ≡ a
unfolding u32_at le32
u32_at-size a h = word_le32 a (omega arith)

input_packets-end :
    (rounds : ℕ) (jni : ℕ → Jni) (answers : List Answer)
    → Moving 1 answers
    → input_packets (suc rounds) jni answers [] ≡ some []
unfolding input_packets input_exact
input_packets-end rounds jni [] w = absurd w
input_packets-end rounds jni (moves zero ∷ more) w = refl
input_packets-end rounds jni (moves (suc n) ∷ more) w = refl
input_packets-end rounds jni (interrupted ∷ more) w = absurd w
input_packets-end rounds jni (fails ∷ more) w = absurd w

-- A round of the loop that takes a packet.
input_packets-step :
    (p stream : List ℕ) (rounds : ℕ) (jni : ℕ → Jni) (answers a₁ a₂ : List Answer)
    (events : List Event)
    → IsPacket p
    → input_exact answers 4 [] (le32 (length p) ++ (p ++ stream))
      ≡ some (got (le32 (length p)) a₁ (p ++ stream))
    → input_exact a₁ (length p) [] (p ++ stream) ≡ some (got p a₂ stream)
    → input_packets rounds (λ i. jni (suc i)) a₂ stream ≡ some events
    → input_packets (suc rounds) jni answers (le32 (length p) ++ (p ++ stream))
      ≡ some (take_packet (jni 0) p ++ events)
unfolding input_packets
input_packets-step p stream rounds jni answers a₁ a₂ events s e₁ e₂ e =
    rw
      (
        e₁,
        u32_at-size (length p) s.1,
        le→ltb_false (length p) 12 s.0,
        le→ltb_false 256 (length p) s.1,
        e₂,
        e,
        input_packets,
      )
      refl

input_packets-stream_of :
    (ps : List (List ℕ)) (rounds : ℕ) (jni : ℕ → Jni) (answers : List Answer) (m : ℕ)
    → All IsPacket ps
    → length ps < rounds
    → ((i : ℕ) → Reaches (jni i))
    → length (stream_of ps) + 1 ≤ m
    → Moving m answers
    → (events : List Event) × (input_packets rounds jni answers (stream_of ps) ≡ some events)
      × (deliveries events ≡ key_packets ps)
unfolding input_packets
input_packets-stream_of ps zero jni answers m s r h k w = absurd (omega arith)
input_packets-stream_of [] (suc rounds) jni answers m s r h k w = (
  [],
  input_packets-end rounds jni answers (Moving-le m 1 answers (omega arith) w),
  unfold deliveries key_packets in refl,
)
input_packets-stream_of (p ∷ ps) (suc rounds) jni answers m s r h k w =
    let size = length p in
    let others = length (stream_of ps) + 1 in
    let sum : length (stream_of (p ∷ ps)) ≡ 4 + size + length (stream_of ps) = omega (
      arith,
      length-append (le32 size) (p ++ stream_of ps),
      length-append p (stream_of ps),
      length-le32 size,
    ) in
    let (a₁, e₁, w₁) =
      input_exact-Moving answers (le32 size) [] (p ++ stream_of ps) (size + others) m
        (omega (arith, sum, length-le32 size)) w in
    let (a₂, e₂, w₂) =
      input_exact-Moving a₁ p [] (stream_of ps) others (size + others) (omega arith) w₁ in
    let (events, e, d) =
      input_packets-stream_of ps rounds (λ i. jni (suc i)) a₂ others s.1 (omega arith)
        (λ i. h (suc i)) (omega arith) w₂ in
    (
      take_packet (jni 0) p ++ events,
      input_packets-step p (stream_of ps) rounds jni answers a₁ a₂ events s.0
          (ap (λ n. input_exact answers n [] (le32 size ++ (p ++ stream_of ps)))
              (sym (length-le32 size))
            ∙ e₁)
          e₂ e,
      deliveries-take_packet (jni 0) p events ps (h 0) d,
    )

-- A connection on which the host sends packets of 12 to 256 bytes and closes, with a kernel that moves
-- bytes at each of enough calls, a Java VM in which every call up to `receiveFromApp` succeeds, and more
-- rounds than packets, ends, and the dispatcher was handed the key notifications among the packets, in
-- their order.
pub input_connection-stream_of :
    (ps : List (List ℕ)) (rounds : ℕ) (jni : ℕ → Jni) (answers : List Answer)
    → All IsPacket ps
    → length ps < rounds
    → ((i : ℕ) → Reaches (jni i))
    → Moving (length (stream_of ps) + 1) answers
    → (events : List Event) × (input_connection rounds jni answers (stream_of ps) ≡ some events)
      × (deliveries events ≡ key_packets ps)
unfolding input_connection deliveries record_line
input_connection-stream_of ps rounds jni answers s r h w =
    let (events, e, d) = input_packets-stream_of ps rounds jni answers _ s r h (omega arith) w in
    (record_line input_connected 0 [] ∷ events, connection e, d)
  where
    connection :
        {events : List Event}
        → input_packets rounds jni answers (stream_of ps) ≡ some events
        → input_connection rounds jni answers (stream_of ps)
          ≡ some (record_line input_connected 0 [] ∷ events)
    connection e = rw (e, input_connection) refl
