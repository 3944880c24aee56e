-- ===== src/Rpc/Request.antt =====
-- The arguments of a call and `send_request` (guest/shim/src/gl_rpc.h, gl_rpc_request.h).
pub mod Wire
pub mod Progress
use vw_firmware_mac.Base.{ℕ, ◌+◌, ◌-◌, List, [], ◌∷◌, ◌++◌, Option, none, some, Bool, true, false}
use vw_firmware_mac.Base.{ltb, ◌==◌, if◌then◌else◌, ◌||◌, length, take, le32}
use vw_firmware_mac.Rpc.Link.{M, pure, ◌>>=◌, ◌>&◌, send_all}

-- `memory` is what `data` points at, `none` for a null pointer.
pub record RpcArg : Type 0 where
  pub memory : Option (List ℕ)
  pub size : ℕ
  pub mode : ℕ

-- The mode of an argument that the renderer fills; the guest sends no bytes for it.
abbrev pub out_mode : ℕ
out_mode = 2

abbrev pub max_arg : ℕ
max_arg = 67108864

abbrev pub batch_size : ℕ
batch_size = 4096

-- `args[i].data?args[i].size:0`
unfoldable pub arg_length : RpcArg → ℕ
arg_length a = elim a.memory [ none ↦ 0 | some bytes ↦ a.size ]

-- The bytes that `args[i].data` points at, `args[i].size` of them.
unfoldable pub arg_bytes : RpcArg → List ℕ
arg_bytes a = elim a.memory [ none ↦ [] | some bytes ↦ take a.size bytes ]

-- `h[0]==2?0:h[1]`
unfoldable pub payload : RpcArg → ℕ
payload a = if a.mode == out_mode then 0 else arg_length a

-- The bytes of an argument that are sent behind its mode and length.
unfoldable pub payload_bytes : RpcArg → List ℕ
payload_bytes a = if a.mode == out_mode then [] else arg_bytes a

-- The two words `h` before an argument.
unfoldable pub arg_header : RpcArg → List ℕ
arg_header a = le32 a.mode ++ le32 (arg_length a)

-- How the loop that fills the batch ends: `return 0`, `break`, or `i==count`. The list is
-- `batch[0..used)`.
pub data Batched : Type 0 where
  oversize : Batched
  stopped : List ℕ → Batched
  complete : List ℕ → Batched

unfoldable pub fill_batch : List RpcArg → ℕ → List ℕ → Batched
fill_batch [] used batch = complete batch
fill_batch (a ∷ args) used batch =
    let more =
      fill_batch args (used + 8 + payload a) (batch ++ (arg_header a ++ payload_bytes a)) in
    if ltb max_arg (arg_length a)
    then oversize
    else (if ltb (batch_size - 8) (payload a) || ltb (batch_size - 8 - payload a) used
        then stopped batch
        else more)

-- One round of the streaming loop. No call is made for an empty or an unsent argument.
unfoldable pub stream_arg : RpcArg → M Bool
stream_arg a =
    (if ltb max_arg (arg_length a) then pure false else send_all (arg_header a))
    >& (if a.mode == out_mode || arg_length a == 0 then pure true else send_all (arg_bytes a))

unfoldable pub stream_args : List RpcArg → M Bool
stream_args [] = pure true
stream_args (a ∷ args) = stream_arg a >& stream_args args

unfoldable pub request_header : ℕ → ℕ → List ℕ
request_header op count = le32 op ++ le32 count

-- What follows the batch loop.
unfoldable pub send_batched : List ℕ → List RpcArg → Batched → M Bool
send_batched header args oversize = pure false
send_batched header args (complete batch) = send_all batch
send_batched header args (stopped batch) = send_all header >& stream_args args

-- `args` are the first `count` entries of the array, so `count` is their number.
unfoldable pub send_request : ℕ → List RpcArg → M Bool
send_request op args =
    let header = request_header op (length args) in
    send_batched header args (fill_batch args 8 header)
