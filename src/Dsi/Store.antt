-- ===== src/Dsi/Store.antt =====
-- `empty_store` of guest/dsi/trace.c: an empty persistence store.
pub mod Answers
pub mod Requests
use vw_firmware_mac.Base.{
  ℕ, zero, suc, ◌+◌, ◌-◌, ◌*◌, ◌%◌, List, [], ◌∷◌, ◌++◌, Option, none, some, Bool, true, false, not,
}
use vw_firmware_mac.Base.{
  ltb, leb, ◌==◌, ◌&&◌, ◌||◌, if◌then◌else◌, length, take, drop, set, get_or, replicate, get_elem?,
}
use vw_firmware_mac.Dsi.Bytes.{◌>>=◌, u32_in, bytes_in, put32}
use vw_firmware_mac.Dsi.Jni.{Jni, Event, deliver}

abbrev pub store_request : ℕ
store_request = 0x0203b000

abbrev pub store_reply : ℕ
store_reply = 0x0203b800

abbrev pub store_interface : ℕ
store_interface = 0x57f18c24

-- `out` with its first two words.
unfoldable pub store_header : List ℕ
unfolding put32
store_header = put32 (put32 (replicate 40 0) 0 store_reply) 4 store_interface

-- The first test of the answer: a registration for attribute 1, `event` 3839 or 1016.
unfoldable pub asks_state : ℕ → ℕ → List ℕ → Option Bool
asks_state event size p =
    if event == 0 && size == 21
    then (do
      notify ← get_elem? p 12
      count ← u32_in p 13
      attr ← u32_in p 17
      some (notify == 1 && (count == 1 && attr == 1)))
    else (if event == 3839 && leb 16 size
        then (do attr ← u32_in p 12; some (attr == 1))
        else some (event == 1016))

-- `response`: the requests 1019 to 1023 are answered like 1001, 1003, …
unfoldable pub response_of : ℕ → ℕ
response_of event = if leb 1019 event && leb event 1023 then 1001 + (event - 1019) * 2 else event

-- `memcpy(out+12,p+12,12)` behind the number of the answer.
unfoldable pub echo_head : ℕ → List ℕ → Option (List ℕ)
unfolding put32 store_header
echo_head response p = do
  echo ← bytes_in p 12 12
  some (take 12 (put32 store_header 8 (response + 1000)) ++ echo)

-- The rest of `out` behind its first 24 bytes, up to `length`.
unfoldable pub answer_tail : ℕ → List ℕ
unfolding put32
answer_tail response =
    if response % 2 == 0
    then put32 (replicate 4 0) 0 6
    else (if response == 1001
        then put32 (put32 (replicate 8 0) 0 0) 4 2
        else put32 (replicate 5 0) 1 2)

unfoldable pub state_answer : List ℕ
unfolding put32 store_header
state_answer = take 20 (put32 (put32 (put32 store_header 8 1) 12 1) 16 1)

-- `out[0..length)`; `some none` is `length` 0, and `none` is a read past the packet's end.
unfoldable pub request_answer : ℕ → ℕ → List ℕ → Option (Option (List ℕ))
request_answer response size p =
    if leb 1000 response && (leb response 1009 && leb 24 size)
    then (do head ← echo_head response p; some (some (head ++ answer_tail response)))
    else some none

unfoldable pub store_answer : ℕ → List ℕ → Option (Option (List ℕ))
store_answer size p = do
  event ← u32_in p 8
  state ← asks_state event size p
  if state then some (some state_answer) else request_answer (response_of event) size p

unfoldable pub store_addressed : List ℕ → Option Bool
store_addressed p = do
  service ← u32_in p 0
  interface ← u32_in p 4
  some (service == store_request && interface == store_interface)

-- `length ? deliver(e,out,length) : 0`
unfoldable pub deliver_answer : Jni → Option (List ℕ) → Bool × List Event
deliver_answer j none = (false, [])
deliver_answer j (some out) = deliver j out

-- `enabled` is `MIB_DSI_EMPTY_STORE` being "1"; `size` is the packet's, and `p` what is held of it.
-- `none` is a read past the end of `p`.
unfoldable pub empty_store : Bool → Jni → ℕ → List ℕ → Option (Bool × List Event)
empty_store enabled j size p = if not enabled || ltb size 12 then some (false, []) else (do
  mine ← store_addressed p
  if mine
      then (do answer ← store_answer size p; some (deliver_answer j answer))
      else some (false, []))
