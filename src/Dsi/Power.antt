-- ===== src/Dsi/Power.antt =====
-- `power_on` of guest/dsi/trace.c: the simulated power state.
pub mod Replies
pub mod Order
use vw_firmware_mac.Base.{
  ℕ, zero, suc, ◌+◌, ◌*◌, ◌%◌, ◌^◌, List, [], ◌∷◌, ◌++◌, Option, none, some, Bool, true, false, not,
}
use vw_firmware_mac.Base.{
  ltb, leb, ◌==◌, ◌&&◌, ◌||◌, if◌then◌else◌, length, take, replicate, get_elem?, arith,
}
use vw_firmware_mac.Dsi.Bytes.{◌>>=◌, u32_in, put32}
use vw_firmware_mac.Dsi.Jni.{Jni, Event, deliver}

abbrev pub request_service : ℕ
request_service = 0x02040000

abbrev pub reply_service : ℕ
reply_service = 0x02040800

abbrev pub interface_id : ℕ
interface_id = 0xa63ff7f4

-- `out` with its first three words.
unfoldable pub power_header : ℕ → List ℕ
unfolding put32
power_header attr = put32 (put32 (put32 (replicate 24 0) 0 reply_service) 4 interface_id) 8 attr

-- The answer about one attribute, `out[0..length)`; `none` is `continue`.
unfoldable pub power_reply : ℕ → Option (List ℕ)
unfolding put32 power_header
power_reply attr =
    let out = power_header attr in
    if attr == 1 || attr == 2
    then some (take 24 (put32 (put32 (put32 out 12 1) 16 7) 20 1))
    else (if attr == 3 || (attr == 5 || (attr == 6 || attr == 9))
        then some (
            take 20
              (put32 (put32 out 12 (if attr == 6 then 1 else (if attr == 9 then 2 else 0))) 16 1))
        else (if attr == 7 || (attr == 8 || attr == 11)
            then some (take 17 (put32 out 13 1))
            else none))

-- `count` and `offset` of the request.
unfoldable pub power_query : ℕ → List ℕ → Option (ℕ × ℕ)
power_query size p = do
  event ← u32_in p 8
  if event == 0 && leb 17 size
      then (do
        notify ← get_elem? p 12
        if notify == 1 then (do count ← u32_in p 13; some (count, 17)) else some (0, 0))
      else some (if event == 3839 then (1, 12) else (0, 0))

-- The attributes `u32(p+offset+4*i)`, for `count` rounds.
unfoldable pub read_attrs : ℕ → ℕ → List ℕ → Option (List ℕ)
read_attrs zero offset p = some []
read_attrs (suc count) offset p = do
  attr ← u32_in p offset
  attrs ← read_attrs count (offset + 4) p
  some (attr ∷ attrs)

-- The loop: whether an answer was delivered, and what was done. The Java VM's answers come one for
-- each delivery; a missing one counts as a VM that fails at once.
unfoldable pub answer_attrs : (ℕ → Jni) → ℕ → List ℕ → Bool × List Event
answer_attrs jni i [] = (false, [])
answer_attrs jni i (attr ∷ attrs) = elim (power_reply attr) [
  | none ↦ answer_attrs jni i attrs
  | some out ↦ (
    (deliver (jni i) out).0 || (answer_attrs jni (i + 1) attrs).0,
    (deliver (jni i) out).1 ++ (answer_attrs jni (i + 1) attrs).1,
  )
]

-- The checks before `event` is read: the packet is addressed to the power service.
unfoldable pub power_request : List ℕ → Option Bool
power_request p = do
  service ← u32_in p 0
  interface ← u32_in p 4
  some (service == request_service && interface == interface_id)

unfoldable pub answer_query : (ℕ → Jni) → ℕ → List ℕ → ℕ → ℕ → Option (Bool × List Event)
answer_query jni size p count offset =
    if ltb 16 count || ltb size ((offset + count * 4) % 2 ^ 32)
    then some (false, [])
    else (do attrs ← read_attrs count offset p; some (answer_attrs jni 0 attrs))

-- `enabled` is `MIB_DSI_POWER_ON` being "1". `size` is the packet's, and `p` what is held of it. `none`
-- is a read past the end of `p`.
unfoldable pub power_on : Bool → (ℕ → Jni) → ℕ → List ℕ → Option (Bool × List Event)
power_on enabled jni size p = if not enabled || ltb size 16 then some (false, []) else (do
  mine ← power_request p
  if mine
      then (do (count, offset) ← power_query size p; answer_query jni size p count offset)
      else some (false, []))
