-- ===== src/Rpc/Client.antt =====
-- `rpc` of guest/shim/src/gl_rpc.h: connect if needed, send the request, read the reply.
-- The mutex makes each call one step of the shared state; the log lines are left out.
pub mod Outputs
pub mod Exchange
pub mod Failure
use vw_firmware_mac.Base.{ℕ, zero, suc, List, [], ◌∷◌, ◌++◌, Option, none, some, Bool, true, false}
use vw_firmware_mac.Base.{ltb, ◌==◌, if◌then◌else◌, length, drop, u32_at}
use vw_firmware_mac.Rpc.Link.{Link, M, pure, ◌>>=◌, recv_exact}
use vw_firmware_mac.Rpc.Request.{RpcArg, out_mode, send_request}

-- GL_INVALID_OPERATION
abbrev pub invalid_operation : ℕ
invalid_operation = 0x502

-- `rpc_fd` (`none` is -1) with its stream, and `rpc_error`.
pub record Client : Type 0 where
  pub link : Option Link
  pub rpc_error : ℕ

-- What opening a connection comes to: `MIB_GL_HOST` is not set, `inet_pton` refuses it, `socket`
-- fails, `connect` fails, or there is a stream.
pub data Dial : Type 0 where
  no_host bad_address no_socket refused : Dial
  connected : Link → Dial

-- The part under `if(rpc_fd<0)`. Every `goto fail` there ends with `rpc_fd` -1.
unfoldable pub dial_link : Option Link → Dial → Option Link
dial_link (some l) d = some l
dial_link none (connected l) = some l
dial_link none no_host = none
dial_link none bad_address = none
dial_link none no_socket = none
dial_link none refused = none

-- A buffer after `bytes` were received at its front.
unfoldable pub overlay : List ℕ → List ℕ → List ℕ
overlay bytes old = bytes ++ drop (length bytes) old

-- `transfer(args[i].data,length,0)`; a null pointer makes `recv` fail with `EFAULT`.
unfoldable pub receive_into : Option (List ℕ) → ℕ → M (Bool × Option (List ℕ))
receive_into none count = pure (false, none)
receive_into (some old) count = do (ok, got) ← recv_exact count; pure (ok, some (overlay got old))

-- The length that the host announced for an output, and its bytes.
unfoldable pub receive_sized : RpcArg → ℕ → M (Bool × RpcArg)
receive_sized a count =
    if ltb a.size count
    then pure (false, a)
    else (if count == 0 then pure (true, a) else (do
      (ok, memory) ← receive_into a.memory count
      pure (ok, record a { memory = memory })))

unfoldable pub receive_output : RpcArg → M (Bool × RpcArg)
receive_output a = do
  (ok, got) ← recv_exact 4
  if ok then receive_sized a (u32_at got 0) else pure (false, a)

-- The last loop of `rpc`: it stops at the first argument that fails.
unfoldable pub receive_outputs : List RpcArg → M (Bool × List RpcArg)
receive_outputs [] = pure (true, [])
receive_outputs (a ∷ args) =
    let rest = receive_outputs args in
    let skip = (do (ok, args') ← rest; pure (ok, a ∷ args')) in
    let fill = (do
      (ok, a') ← receive_output a
      if ok then (do (ok', args') ← rest; pure (ok', a' ∷ args')) else pure (false, a' ∷ args)) in
    if a.mode == out_mode then fill else skip

-- How the body of `rpc` ends: `return result` or `goto fail`, with the caller's buffers.
pub data Outcome : Type 0 where
  returned : ℕ → List ℕ → List RpcArg → Outcome
  failed : List ℕ → List RpcArg → Outcome

unfoldable pub finish_reply : ℕ → List ℕ → List RpcArg → M Outcome
finish_reply result extra args = do
  (ok, args') ← receive_outputs args
  pure (if ok then returned result extra args' else failed extra args')

-- `extra` has `capacity` bytes; `count` is `reply[1]`.
unfoldable pub read_extra : ℕ → ℕ → List ℕ → ℕ → List RpcArg → M Outcome
read_extra result count extra capacity args =
    if ltb capacity count
    then pure (failed extra args)
    else (if count == 0 then finish_reply result extra args else (do
      (ok, got) ← recv_exact count
      if ok
          then finish_reply result (overlay got extra) args
          else pure (failed (overlay got extra) args)))

unfoldable pub read_reply : List ℕ → ℕ → List RpcArg → M Outcome
read_reply extra capacity args = do
  (ok, reply) ← recv_exact 8
  if ok
      then read_extra (u32_at reply 0) (u32_at reply 4) extra capacity args
      else pure (failed extra args)

unfoldable pub exchange : ℕ → List RpcArg → List ℕ → ℕ → M Outcome
exchange op args extra capacity = do
  sent ← send_request op args
  if sent then read_reply extra capacity args else pure (failed extra args)

-- What a call of `rpc` leaves: its result, the caller's buffers, and the static variables.
pub record Return : Type 0 where
  pub result : ℕ
  pub extra : List ℕ
  pub args : List RpcArg
  pub client : Client

-- The label `fail`.
unfoldable pub fail : List ℕ → List RpcArg → Return
fail extra args = record {
  result = 0;
  extra = extra;
  args = args;
  client = record { link = none; rpc_error = invalid_operation };
}

unfoldable pub settle : Client → Outcome → Link → Return
settle c (returned result extra args) l = record {
  result = result;
  extra = extra;
  args = args;
  client = record { link = some l; rpc_error = c.rpc_error };
}
settle c (failed extra args) l = fail extra args

-- The part of `rpc` below the connection, on an open stream or on none.
unfoldable pub rpc_on : Client → Option Link → ℕ → List RpcArg → List ℕ → ℕ → Option Return
rpc_on c none op args extra capacity = some (fail extra args)
rpc_on c (some l) op args extra capacity = elim (exchange op args extra capacity l) [
  | none ↦ none
  | some (outcome, l') ↦ some (settle c outcome l')
]

-- `none`: the call waits for the kernel.
unfoldable pub rpc : Client → Dial → ℕ → List RpcArg → List ℕ → ℕ → Option Return
rpc c d op args extra capacity = rpc_on c (dial_link c.link d) op args extra capacity

-- A call without arguments, whose result is not used.
unfoldable pub mib_gl_swap : Client → Dial → Option Client
mib_gl_swap c d = elim (rpc c d 0 [] [] 0) [ none ↦ none | some r ↦ some r.client ]
