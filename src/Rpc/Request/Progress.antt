-- ===== src/Rpc/Request/Progress.antt =====
-- When `send_request` of guest/shim/src/gl_rpc_request.h succeeds.
use vw_firmware_mac.Base.{ℕ, ◌+◌, ◌≤◌, ◌≡◌, refl, sym, ap, ◌∙◌, subst, arith, inl, inr, Bool-cases}
use vw_firmware_mac.Base.{List, [], ◌∷◌, ◌++◌, some, Bool, true, false, if◌then◌else◌}
use vw_firmware_mac.Base.{
  length, length-append, append_assoc, append-nil, All, ltb, ◌==◌, ◌||◌, ◌≢◌,
}
use vw_firmware_mac.Rpc.Link.{M, pure, >>=-step, ◌>&◌, send_all, Link}
use vw_firmware_mac.Rpc.Link.Progress.{Willing, Leaves, send_all-progress}
use vw_firmware_mac.Rpc.Request.{
  RpcArg, arg_length, arg_bytes, payload, payload_bytes, arg_header, Batched, oversize, stopped,
  complete, fill_batch, stream_arg, stream_args, request_header, send_batched, send_request,
  max_arg, out_mode,
}
use vw_firmware_mac.Rpc.Request.Wire.{
  args_bytes, request_bytes, arg_bytes-empty, fill_batch-complete,
}

-- `m` sends `bytes` and reports success, if the kernel makes enough moves.
abbrev pub Delivers : M Bool → List ℕ → Type 0
Delivers m bytes =
    (k : ℕ) (l : Link)
    → Willing (length bytes + k) l.answers
    → (l' : Link) × (m l ≡ some (true, l')) × Leaves k (l.outbox ++ bytes) l.inbox l'

pub send_all-Delivers : (bytes : List ℕ) → Delivers (send_all bytes) bytes
send_all-Delivers = send_all-progress

Delivers-pure-true : Delivers (pure true) []
Delivers-pure-true k l w = (
  l,
  refl,
  record {
    outbox = sym (append-nil l.outbox);
    inbox = refl;
    willing = subst (λ n. Willing n l.answers) (omega arith) w;
  },
)

Delivers-both :
    (m k : M Bool) (xs ys : List ℕ) → Delivers m xs → Delivers k ys → Delivers (m >& k) (xs ++ ys)
Delivers-both m k xs ys dm dk j l w =
    let (l₁, e₁, v₁) =
      dm (length ys + j) l
        (subst (λ n. Willing n l.answers) (omega (arith, length-append xs ys)) w) in
    let (l₂, e₂, v₂) = dk j l₁ v₁.willing in
    (
      l₂,
      >>=-step m _ l e₁ ∙ e₂,
      record {
        outbox = v₂.outbox ∙ ap (λ o. o ++ ys) v₁.outbox ∙ append_assoc l.outbox xs ys;
        inbox = v₂.inbox ∙ v₁.inbox;
        willing = v₂.willing;
      },
    )

abbrev pub IsSmall : RpcArg → Type 0
IsSmall a = arg_length a ≤ max_arg

Delivers-payload :
    (a : RpcArg)
    → Delivers
        (if a.mode == out_mode || arg_length a == 0 then pure true else send_all (arg_bytes a))
        (payload_bytes a)
unfolding payload_bytes
Delivers-payload a = elim (Bool-cases (a.mode == out_mode)) [
  | inl out ↦ rw out Delivers-pure-true
  | inr inp ↦ rw inp (elim (Bool-cases (arg_length a == 0)) [
    | inl z ↦ rw (z, arg_bytes-empty a (ground arith)) Delivers-pure-true
    | inr nz ↦ rw nz (send_all-Delivers (arg_bytes a))
  ])
]

pub small_test : (a : RpcArg) → IsSmall a → ltb max_arg (arg_length a) ≡ false
small_test a h = ground arith

stream_arg-Delivers :
    (a : RpcArg) → IsSmall a → Delivers (stream_arg a) (arg_header a ++ payload_bytes a)
unfolding stream_arg
stream_arg-Delivers a h =
    Delivers-both _ _ (arg_header a) (payload_bytes a)
      (rw (small_test a h) (send_all-Delivers (arg_header a))) (Delivers-payload a)

stream_args-Delivers :
    (args : List RpcArg) → All IsSmall args → Delivers (stream_args args) (args_bytes args)
unfolding stream_args
stream_args-Delivers [] h = Delivers-pure-true
stream_args-Delivers (a ∷ args) h =
    Delivers-both _ _ _ _ (stream_arg-Delivers a h.0) (stream_args-Delivers args h.1)

fill_batch-ne-oversize :
    (args : List RpcArg) (used : ℕ) (batch : List ℕ)
    → All IsSmall args
    → fill_batch args used batch ≢ oversize
unfolding fill_batch
fill_batch-ne-oversize [] used batch h e = cc
fill_batch-ne-oversize (a ∷ args) used batch h e = ground (
  arith,
  fill_batch-ne-oversize args (used + 8 + payload a) (batch ++ (arg_header a ++ payload_bytes a))
      h.1,
)

send_batched-Delivers :
    (header : List ℕ) (args : List RpcArg) (b : Batched)
    → All IsSmall args
    → b ≢ oversize
    → ((batch : List ℕ) → b ≡ complete batch → batch ≡ header ++ args_bytes args)
    → Delivers (send_batched header args b) (header ++ args_bytes args)
unfolding send_batched
send_batched-Delivers header args oversize small ne h = absurd (ne refl)
send_batched-Delivers header args (stopped batch) small ne h =
    Delivers-both _ _ header (args_bytes args) (send_all-Delivers header)
      (stream_args-Delivers args small)
send_batched-Delivers header args (complete batch) small ne h =
    rw (h batch refl) (send_all-Delivers (header ++ args_bytes args))

-- With no argument above 64 MiB and a kernel that makes a move for each byte of the encoding, none
-- of its calls failing before, `send_request` returns success and has sent the whole encoding of the
-- call.
pub send_request-Delivers :
    (op : ℕ) (args : List RpcArg)
    → All IsSmall args
    → (k : ℕ) (l : Link) → Willing (length (request_bytes op args) + k) l.answers
    → (l' : Link) × (send_request op args l ≡ some (true, l'))
      × Leaves k (l.outbox ++ request_bytes op args) l.inbox l'
unfolding send_request
send_request-Delivers op args small =
    let header = request_header op (length args) in
    send_batched-Delivers header args _ small (fill_batch-ne-oversize args 8 header small)
      (λ batch e. fill_batch-complete args 8 header batch e)
