-- ===== src/Dsi/Input/Thread.antt =====
-- The input thread of guest/dsi/input.h as a whole: `start_input`, and `input_main` with the loop that
-- connects again. The classes that `start_input` looks up are in Dsi/Jni's answers.
use vw_firmware_mac.Base.{
  ℕ, ◌+◌, ◌≤◌, ◌<◌, ◌≡◌, refl, ap₂, ◌∙◌, arith, List, [], ◌∷◌, ◌++◌, map, Option, none, some, Bool,
  true, false, not,
}
use vw_firmware_mac.Base.{◌==◌, ◌||◌, if◌then◌else◌, All, length, Bool-cases, inl, inr}
use vw_firmware_mac.Rpc.Link.{Answer}
use vw_firmware_mac.Rpc.Link.Moving.{Moving}
use vw_firmware_mac.Dsi.Jni.{Jni, Event}
use vw_firmware_mac.Dsi.Power.Order.{deliveries, deliveries-append, Reaches}
use vw_firmware_mac.Dsi.Input.{input_connection}
use vw_firmware_mac.Dsi.Input.Packets.{stream_of, IsPacket, key_packets, input_connection-stream_of}

-- What a call of `start_input` meets: the value of `MIB_INPUT`, whether `GetJavaVM` returns `JNI_OK`,
-- whether an exception is pending behind the three look-ups, which of these gave a reference, and
-- whether `pthread_create` makes the thread.
pub record StartAnswers : Type 0 where
  pub enabled : Option (List ℕ)
  pub has_vm : Bool
  pub exception : Bool
  pub has_bm : Bool
  pub has_bb : Bool
  pub has_dc : Bool
  pub makes_thread : Bool

-- `!strcmp(enabled,"1")`
unfoldable pub is_one : Option (List ℕ) → Bool
is_one none = false
is_one (some []) = false
is_one (some (c ∷ [])) = c == b'1'
is_one (some (c ∷ (d ∷ more))) = false

-- From `input_started` to what it is then, and whether the thread was made.
unfoldable pub start_input : Bool → StartAnswers → Bool × Bool
start_input input_started a =
    if input_started || not (is_one a.enabled)
    then (input_started, false)
    else (if not a.has_vm
        then (input_started, false)
        else (if a.exception || (not a.has_bm || (not a.has_bb || not a.has_dc))
            then (input_started, false)
            else (a.makes_thread, a.makes_thread)))

-- The number of threads that calls make.
unfoldable pub threads : Bool → List StartAnswers → ℕ
threads input_started [] = 0
threads input_started (a ∷ more) =
    (if (start_input input_started a).1 then 1 else 0)
    + threads (start_input input_started a).0 more

-- A round of the loop of `input_main`: `socket` or `connect` fails, or there is a connection, with a
-- number of rounds for its packets, the VM's and the kernel's answers, and what the host sends.
pub data Attempt : Type 0 where
  unreachable : Attempt
  connection : ℕ → (ℕ → Jni) → List Answer → List ℕ → Attempt

unfoldable pub input_attempts : List Attempt → Option (List Event)
input_attempts [] = some []
input_attempts (unreachable ∷ more) = input_attempts more
input_attempts (connection rounds jni answers stream ∷ more) =
    elim (input_connection rounds jni answers stream) [
      | none ↦ none
      | some events ↦ elim (input_attempts more) [
        | none ↦ none
        | some later ↦ some (events ++ later)
      ]
    ]

-- The loop does not end: these are its first rounds. `attached` tells whether
-- `AttachCurrentThreadAsDaemon` returns `JNI_OK`.
unfoldable pub input_main : Bool → List Attempt → Option (List Event)
input_main attached attempts = if attached then input_attempts attempts else some []

-- A host that sends packets and closes.
pub record Peer : Type 0 where
  pub packets : List (List ℕ)
  pub rounds : ℕ
  pub jni : ℕ → Jni
  pub answers : List Answer

pub record IsPeer (p : Peer) : Type 0 where
  pub packets : All IsPacket p.packets
  pub rounds : length p.packets < p.rounds
  pub reaches : (i : ℕ) → Reaches (p.jni i)
  pub moving : Moving (length (stream_of p.packets) + 1) p.answers

unfoldable pub attempt_of : Option Peer → Attempt
attempt_of none = unreachable
attempt_of (some p) = connection p.rounds p.jni p.answers (stream_of p.packets)

abbrev pub IsReached : Option Peer → Type 0
IsReached none = Unit
IsReached (some p) = IsPeer p

-- The key notifications among what the hosts send.
unfoldable pub all_keys : List (Option Peer) → List (List ℕ)
all_keys [] = []
all_keys (none ∷ peers) = all_keys peers
all_keys (some p ∷ peers) = key_packets p.packets ++ all_keys peers

attempts-step :
    (rounds : ℕ) (jni : ℕ → Jni) (answers : List Answer) (stream : List ℕ) (more : List Attempt)
    (events later : List Event)
    → input_connection rounds jni answers stream ≡ some events
    → input_attempts more ≡ some later
    → input_attempts (connection rounds jni answers stream ∷ more) ≡ some (events ++ later)
unfolding input_attempts
attempts-step rounds jni answers stream more events later e e' = rw (e, input_attempts) (rw e' refl)

input_attempts-deliveries :
    (peers : List (Option Peer))
    → All IsReached peers
    → (events : List Event) × (input_attempts (map attempt_of peers) ≡ some events)
      × (deliveries events ≡ all_keys peers)
unfolding input_attempts attempt_of all_keys deliveries
input_attempts-deliveries [] h = ([], refl, refl)
input_attempts-deliveries (none ∷ peers) h = input_attempts-deliveries peers h.1
input_attempts-deliveries (some p ∷ peers) h =
    let peer = h.0 in
    let (events, e, d) =
      input_connection-stream_of p.packets p.rounds p.jni p.answers peer.packets peer.rounds
        peer.reaches peer.moving in
    let (later, e', d') = input_attempts-deliveries peers h.1 in
    (
      events ++ later,
      attempts-step p.rounds p.jni p.answers (stream_of p.packets) (map attempt_of peers) events
          later e e',
      deliveries-append events later ∙ ap₂ (λ a b. a ++ b) d d',
    )

-- An attached thread whose attempts meet no host, or one that sends packets of 12 to 256 bytes and
-- closes, where on each connection the kernel moves bytes at each of enough calls, every call of the Java
-- VM up to `receiveFromApp` succeeds and there are more rounds than packets, gets through these attempts,
-- and the dispatcher was handed the key notifications of all connections, in their order.
pub input_main-deliveries :
    (peers : List (Option Peer))
    → All IsReached peers
    → (events : List Event) × (input_main true (map attempt_of peers) ≡ some events)
      × (deliveries events ≡ all_keys peers)
unfolding input_main
input_main-deliveries peers h = input_attempts-deliveries peers h

started-threads : (calls : List StartAnswers) → threads true calls ≡ 0
unfolding threads start_input
started-threads [] = refl
started-threads (a ∷ more) = omega (arith, started-threads more)

start_input-same : (a : StartAnswers) → (start_input false a).0 ≡ (start_input false a).1
unfolding start_input
start_input-same a = ground arith

-- Calls of `start_input` make one thread at most.
pub threads-once : (calls : List StartAnswers) → threads false calls ≤ 1
unfolding threads
threads-once [] = omega arith
threads-once (a ∷ more) = elim (Bool-cases (start_input false a).1) [
  | inl made ↦ rw (made, start_input-same a ∙ made) (omega (arith, started-threads more))
  | inr idle ↦ rw (idle, start_input-same a ∙ idle) (omega (arith, threads-once more))
]
