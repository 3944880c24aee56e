-- ===== src/Rpc/Request/Wire.antt =====
-- What `send_request` of guest/shim/src/gl_rpc_request.h puts on the wire.
use vw_firmware_mac.Base.{
  ℕ, zero, suc, take, ◌+◌, ◌≤◌, ◌≡◌, refl, arith, inl, inr, Option-cases, Bool-cases,
}
use vw_firmware_mac.Base.{List, [], ◌∷◌, ◌++◌, none, some, Bool, true, false, if◌then◌else◌}
use vw_firmware_mac.Base.{
  length, length-append, append_assoc, append-nil, All, le32, length-take, ◌==◌, ◌||◌,
}
use vw_firmware_mac.Rpc.Link.{M, pure, send_all, Link}
use vw_firmware_mac.Rpc.Link.Delivery.{
  Sends, Sent, Sends-both, send_all-Sends, Sends-pure-false, Sends-pure-true,
}
use vw_firmware_mac.Rpc.Request.{
  RpcArg, arg_length, arg_bytes, payload, payload_bytes, arg_header, Batched, oversize, stopped,
  complete, fill_batch, stream_arg, stream_args, request_header, send_batched, send_request,
  batch_size, out_mode,
}

-- The wire format: for each argument mode, length and, for an input, its bytes.
abbrev pub args_bytes : List RpcArg → List ℕ
args_bytes [] = []
args_bytes (a ∷ args) = (arg_header a ++ payload_bytes a) ++ args_bytes args

abbrev pub request_bytes : ℕ → List RpcArg → List ℕ
request_bytes op args = request_header op (length args) ++ args_bytes args

-- The pointer of an argument is null or has `size` bytes behind it.
abbrev pub IsReadable : RpcArg → Type 0
IsReadable a = elim a.memory [ none ↦ Unit {0} | some bytes ↦ a.size ≤ length bytes ]

-- A test between two ways to send the same bytes.
Sends-if :
    (b : Bool) (m k : M Bool) (bytes : List ℕ)
    → Sends m bytes
    → Sends k bytes
    → Sends (if b then m else k) bytes
Sends-if true m k bytes sm sk = sm
Sends-if false m k bytes sm sk = sk

take_none : (n : ℕ) (bytes : List ℕ) → n ≡ 0 → take n bytes ≡ []
take_none zero bytes h = refl
take_none (suc n) bytes h = absurd (omega arith)

-- An argument without bytes needs no call of the kernel.
pub arg_bytes-empty : (a : RpcArg) → arg_length a ≡ 0 → arg_bytes a ≡ []
unfolding arg_length arg_bytes
arg_bytes-empty a h = elim (Option-cases a.memory) [
  | inl e ↦ rw e
  | inr (m, e) ↦ ground (arith, take_none a.size m)
]

pub fill_batch-complete :
    (args : List RpcArg) (used : ℕ) (batch b : List ℕ)
    → fill_batch args used batch ≡ complete b
    → b ≡ batch ++ args_bytes args
unfolding fill_batch
fill_batch-complete [] used batch b e = cc (append-nil batch)
fill_batch-complete (a ∷ args) used batch b e =
    let part : List ℕ = arg_header a ++ payload_bytes a in
    ground (
      arith,
      fill_batch-complete args (used + 8 + payload a) (batch ++ part) b,
      append_assoc batch part (args_bytes args),
    )

pub length-arg_bytes : (a : RpcArg) → IsReadable a → length (arg_bytes a) ≡ arg_length a
unfolding arg_bytes arg_length
length-arg_bytes a h = elim (Option-cases a.memory) [
  | inl e ↦ ground arith
  | inr (m, e) ↦ ground (arith, length-take a.size m)
]

pub length-payload_bytes : (a : RpcArg) → IsReadable a → length (payload_bytes a) ≡ payload a
unfolding payload payload_bytes
length-payload_bytes a h = ground (arith, length-arg_bytes a h)

-- The bytes written into `batch` stay inside the array.
abbrev pub FitsBatch : Batched → Type 0
FitsBatch oversize = Unit
FitsBatch (stopped batch) = length batch ≤ batch_size
FitsBatch (complete batch) = length batch ≤ batch_size

pub length-arg_header : (a : RpcArg) → length (arg_header a) ≡ 8
unfolding arg_header le32
length-arg_header a = refl

-- The batch loop, started with `used` the number of the bytes in `batch`, at most 4096, and
-- arguments whose memory can be read, never has more than 4096 bytes in `batch`.
pub fill_batch-FitsBatch :
    (args : List RpcArg) (used : ℕ) (batch : List ℕ)
    → All IsReadable args
    → used ≡ length batch
    → used ≤ batch_size
    → FitsBatch (fill_batch args used batch)
unfolding fill_batch
fill_batch-FitsBatch [] used batch r e h = omega arith
fill_batch-FitsBatch (a ∷ args) used batch r e h =
    let part = arg_header a ++ payload_bytes a in
    ground (
      arith,
      length-payload_bytes a r.0,
      length-arg_header a,
      length-append batch part,
      length-append (arg_header a) (payload_bytes a),
      fill_batch-FitsBatch args (used + 8 + payload a) (batch ++ part) r.1,
    )

Sends-payload :
    (a : RpcArg)
    → Sends
        (if a.mode == out_mode || arg_length a == 0 then pure true else send_all (arg_bytes a))
        (payload_bytes a)
unfolding payload_bytes
Sends-payload a = elim (Bool-cases (a.mode == out_mode)) [
  | inl out ↦ rw out Sends-pure-true
  | inr inp ↦ rw inp (elim (Bool-cases (arg_length a == 0)) [
    | inl z ↦ rw (z, arg_bytes-empty a (ground arith)) Sends-pure-true
    | inr nz ↦ rw nz (send_all-Sends (arg_bytes a))
  ])
]

stream_arg-Sends : (a : RpcArg) → Sends (stream_arg a) (arg_header a ++ payload_bytes a)
unfolding stream_arg
stream_arg-Sends a =
    Sends-both _ _ (arg_header a) (payload_bytes a)
      (Sends-if _ _ _ _ (Sends-pure-false _) (send_all-Sends _)) (Sends-payload a)

stream_args-Sends : (args : List RpcArg) → Sends (stream_args args) (args_bytes args)
unfolding stream_args
stream_args-Sends [] = Sends-pure-true
stream_args-Sends (a ∷ args) = Sends-both _ _ _ _ (stream_arg-Sends a) (stream_args-Sends args)

send_batched-Sends :
    (header : List ℕ) (args : List RpcArg) (b : Batched)
    → ((batch : List ℕ) → b ≡ complete batch → batch ≡ header ++ args_bytes args)
    → Sends (send_batched header args b) (header ++ args_bytes args)
unfolding send_batched
send_batched-Sends header args oversize h = Sends-pure-false _
send_batched-Sends header args (stopped batch) h =
    Sends-both _ _ header (args_bytes args) (send_all-Sends header) (stream_args-Sends args)
send_batched-Sends header args (complete batch) h = rw (h batch refl) (send_all-Sends _)

-- Whether it coalesces or streams, and wherever it stops, a `send_request` that returns has sent a
-- prefix of one and the same encoding of the call, all of it if it reports success, and has received
-- nothing.
pub send_request-Sends :
    (op : ℕ) (args : List RpcArg) (l : Link) (done : Bool) (l' : Link)
    → send_request op args l ≡ some (done, l')
    → Sent (request_bytes op args) l done l'
unfolding send_request
send_request-Sends op args =
    send_batched-Sends _ args _ (λ batch e. fill_batch-complete args 8 _ batch e)
