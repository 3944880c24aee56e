-- ===== src/Dsi/Tests.antt =====
-- The proxy of guest/dsi/trace.c and guest/dsi/input.h at concrete packets.
use vw_firmware_mac.Dsi.Input.Thread.{
  Peer, IsPeer, attempt_of, input_main, all_keys, input_main-deliveries,
}
use vw_firmware_mac.Base.{map, none}
use vw_firmware_mac.Base.{Bool, ℕ, ◌≡◌, refl, arith, List, [], ◌∷◌, ◌++◌, Option, some, true}
use vw_firmware_mac.Base.{u32_at, replicate, length, ◌+◌}
use vw_firmware_mac.Rpc.Link.{moves}
use vw_firmware_mac.Rpc.Link.Moving.{Moving-replicate}
use vw_firmware_mac.Dsi.Input.Packets.{stream_of}
use vw_firmware_mac.Dsi.Bytes.{Total}
use vw_firmware_mac.Dsi.Jni.{Jni, Event}
use vw_firmware_mac.Dsi.Power.{power_reply, power_on}
use vw_firmware_mac.Dsi.Power.Order.{
  deliveries, replies, Reaches, registration, power_on-registration,
}
use vw_firmware_mac.Dsi.Power.Replies
use vw_firmware_mac.Dsi.Power.Replies.{power_reply-IsReply, power_on-Total}
use vw_firmware_mac.Dsi.Store.{deliver_answer, empty_store}
use vw_firmware_mac.Dsi.Store.Answers.{empty_store-Total}
use vw_firmware_mac.Dsi.Store.Requests.{IsAnswer, empty_store-IsAnswer}
use vw_firmware_mac.Dsi.Send.{Process}

-- A Java VM in which every call succeeds.
abbrev good_vm : Jni
good_vm = record {
  frame = true;
  classes = true;
  methods = true;
  dispatcher = true;
  buffer = true;
  array = true;
  region = true;
  received_ok = true;
}

abbrev process : Process
process = record {
  original = true;
  region = true;
  error_class = true;
  power_enabled = true;
  store_enabled = true;
  power_jni = λ i. good_vm;
  store_jni = good_vm;
}

-- The power service is asked for attribute 1.
abbrev power_packet : List ℕ
power_packet = 0 ∷ 0 ∷ 4 ∷ 2 ∷ 0xf4 ∷ 0xf7 ∷ 0x3f ∷ 0xa6 ∷ 0xff ∷ 0x0e ∷ 0 ∷ 0 ∷ 1 ∷ 0 ∷ 0 ∷ 0 ∷ []

-- The store is asked to read a value: request 1002 with twelve bytes behind it.
abbrev store_packet : List ℕ
store_packet =
    0 ∷ 0xb0 ∷ 3 ∷ 2 ∷ 0x24 ∷ 0x8c ∷ 0xf1 ∷ 0x57 ∷ 0xea ∷ 3 ∷ 0 ∷ 0 ∷ 1 ∷ 2 ∷ 3 ∷ 4 ∷ 5 ∷ 6 ∷ 7 ∷ 8
    ∷ 9 ∷ 10 ∷ 11 ∷ 12 ∷ []

power_reply_example : Replies.IsAnswer 6 (power_reply 6)
power_reply_example = power_reply-IsReply 6 (omega arith)

-- The array of the entry point has 17 bytes, of which the packet is the first 16.
power_on-Total_example : Total (power_on true (λ i. good_vm) 16 (power_packet ++ 9 ∷ []))
power_on-Total_example =
    power_on-Total true (λ i. good_vm) 16 (power_packet ++ 9 ∷ []) (omega arith)

empty_store-Total_example : Total (empty_store true good_vm 24 store_packet)
empty_store-Total_example = empty_store-Total true good_vm 24 store_packet (omega arith)

empty_store-IsAnswer_example :
    (o : Option (List ℕ)) × (empty_store true good_vm 24 store_packet
      ≡ some (deliver_answer good_vm o))
    × IsAnswer 24 store_packet o
unfolding u32_at
empty_store-IsAnswer_example =
    empty_store-IsAnswer good_vm 24 store_packet (omega arith) (omega arith) refl refl

good_vm-Reaches : Reaches good_vm
good_vm-Reaches = record {
  frame = refl;
  classes = refl;
  methods = refl;
  dispatcher = refl;
  buffer = refl;
  array = refl;
  region = refl;
}

-- Attributes 1, 4 (which has no answer) and 7.
abbrev three_attrs : List ℕ
three_attrs = 1 ∷ 4 ∷ 7 ∷ []

power_on-registration_example :
    (answered : Bool) × (events : List Event) × (power_on true
        (λ i. good_vm)
        (length (registration three_attrs))
        (registration three_attrs)
      ≡ some (answered, events))
    × (deliveries events ≡ replies three_attrs)
power_on-registration_example =
    power_on-registration (λ i. good_vm) three_attrs (omega arith)
      (omega arith, (omega arith, (omega arith, tt))) (λ k. good_vm-Reaches)

-- A key notification, and a packet that is none.
abbrev key_stream : List (List ℕ)
key_stream =
    (0 ∷ 0xd8 ∷ 1 ∷ 2 ∷ 0x32 ∷ 0xf8 ∷ 0x3f ∷ 0xa6 ∷ 20 ∷ 0 ∷ 0 ∷ 0 ∷ [])
    ∷ (0 ∷ 0 ∷ 0 ∷ 0 ∷ 0 ∷ 0 ∷ 0 ∷ 0 ∷ 20 ∷ 0 ∷ 0 ∷ 0 ∷ 0 ∷ [])
    ∷ []

-- A host that cannot be reached at first.
abbrev peer : Peer
peer = record {
  packets = key_stream;
  rounds = 3;
  jni = λ i. good_vm;
  answers = replicate (length (stream_of key_stream) + 1) (moves 7);
}

peer-IsPeer : IsPeer peer
peer-IsPeer = record {
  packets = ((omega arith, omega arith), ((omega arith, omega arith), tt));
  rounds = omega arith;
  reaches = λ i. good_vm-Reaches;
  moving = Moving-replicate (length (stream_of key_stream) + 1) 7 (omega arith);
}

input_main-deliveries_example :
    (events : List Event) × (input_main true (map attempt_of (none ∷ some peer ∷ [])) ≡ some events)
    × (deliveries events ≡ all_keys (none ∷ some peer ∷ []))
input_main-deliveries_example =
    input_main-deliveries (none ∷ some peer ∷ []) (tt, (peer-IsPeer, tt))
