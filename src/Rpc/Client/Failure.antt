-- ===== src/Rpc/Client/Failure.antt =====
-- What a call of `rpc` (guest/shim/src/gl_rpc.h) leaves behind, however it ends.
use vw_firmware_mac.Base.{ℕ, ◌≡◌, refl, sym, ap, ◌∙◌}
use vw_firmware_mac.Base.{List, [], ◌∷◌, ◌++◌, Option, none, some, Bool, true, false, if◌then◌else◌}
use vw_firmware_mac.Base.{ltb, ◌==◌, append-nil, subst, u32_at}
use vw_firmware_mac.Rpc.Link.{Link, pure, >>=-eq-some}
use vw_firmware_mac.Rpc.Link.Keeping.{Keeps, Keeps-pure, Keeps-bind, Keeps-if, recv_exact-Keeps}
use mathlib.Core.Option.{some-injective}
use vw_firmware_mac.Rpc.Request.{RpcArg, out_mode, send_request}
use vw_firmware_mac.Rpc.Request.Wire.{request_bytes, send_request-Sends}
use vw_firmware_mac.Rpc.Client.{
  Client, Dial, rpc, rpc_on, dial_link, settle, fail, Return, invalid_operation, overlay,
  receive_into, receive_sized, receive_output, receive_outputs, Outcome, returned, failed,
  finish_reply, read_extra, read_reply, exchange,
}

receive_into-Keeps : (m : Option (List ℕ)) (count : ℕ) → Keeps (receive_into m count)
unfolding receive_into
receive_into-Keeps none count = Keeps-pure _
receive_into-Keeps (some old) count = Keeps-bind (recv_exact-Keeps count) (λ p. Keeps-pure _)

receive_output-Keeps : (a : RpcArg) → Keeps (receive_output a)
unfolding receive_output receive_sized
receive_output-Keeps a = Keeps-bind (recv_exact-Keeps 4) (λ p.
    Keeps-if p.0
      (Keeps-if (ltb a.size (u32_at p.1 0)) (Keeps-pure _) (
        Keeps-if (u32_at p.1 0 == 0) (Keeps-pure _)
          (Keeps-bind (receive_into-Keeps a.memory (u32_at p.1 0)) (λ q. Keeps-pure _))))
      (Keeps-pure _))

receive_outputs-Keeps : (args : List RpcArg) → Keeps (receive_outputs args)
unfolding receive_outputs
receive_outputs-Keeps [] = Keeps-pure _
receive_outputs-Keeps (a ∷ args) =
    let rest = receive_outputs-Keeps args in
    Keeps-if (a.mode == out_mode)
      (Keeps-bind (receive_output-Keeps a)
        (λ p. Keeps-if p.0 (Keeps-bind rest (λ q. Keeps-pure _)) (Keeps-pure _)))
      (Keeps-bind rest (λ q. Keeps-pure _))

finish_reply-Keeps :
    (result : ℕ) (extra : List ℕ) (args : List RpcArg) → Keeps (finish_reply result extra args)
unfolding finish_reply
finish_reply-Keeps result extra args = Keeps-bind (receive_outputs-Keeps args) (λ p. Keeps-pure _)

read_reply-Keeps :
    (extra : List ℕ) (capacity : ℕ) (args : List RpcArg) → Keeps (read_reply extra capacity args)
unfolding read_reply read_extra
read_reply-Keeps extra capacity args = Keeps-bind (recv_exact-Keeps 8) (λ p.
    Keeps-if p.0
      (Keeps-if (ltb capacity (u32_at p.1 4)) (Keeps-pure _) (
        Keeps-if (u32_at p.1 4 == 0) (finish_reply-Keeps _ extra args) (
          Keeps-bind (recv_exact-Keeps (u32_at p.1 4))
            (λ q. Keeps-if q.0 (finish_reply-Keeps _ (overlay q.1 extra) args) (Keeps-pure _)))))
      (Keeps-pure _))

-- `exchange` comes to a result only if `send_request` reported success.
exchange-outbox :
    (op : ℕ) (args : List RpcArg) (extra : List ℕ) (capacity : ℕ) (l l' : Link) {result : ℕ}
    {extra' : List ℕ} {args' : List RpcArg}
    → exchange op args extra capacity l ≡ some (returned result extra' args', l')
    → l'.outbox ≡ l.outbox ++ request_bytes op args
unfolding exchange
exchange-outbox op args extra capacity l l' {result} {extra'} {args'} e =
    let (ok, l₁, first, second) = >>=-eq-some (send_request op args) _ l e in go ok l₁ first second
  where
    go :
        (ok : Bool) (l₁ : Link)
        → send_request op args l ≡ some (ok, l₁)
        → (if ok then read_reply extra capacity args else pure (failed extra args)) l₁
          ≡ some (returned result extra' args', l')
        → l'.outbox ≡ l.outbox ++ request_bytes op args
    go false l₁ first second = cc
    go true l₁ first second =
        let s = send_request-Sends op args l true l₁ first in
        (read_reply-Keeps extra capacity args).keeps l₁ _ l' second
        ∙ s.outbox
        ∙ ap (λ b. l.outbox ++ b)
            (sym (append-nil s.front) ∙ ap (λ b. s.front ++ b) (sym (s.complete refl)) ∙ s.split)

-- How the call ended: the connection is kept and carried the whole call, or it is closed.
pub data Ended (c : Client) (start : Option Link) (op : ℕ) (args : List RpcArg) (r : Return)
    : Type 0 where
  kept :
      (l l' : Link)
      → start ≡ some l
      → r.client.link ≡ some l'
      → l'.outbox ≡ l.outbox ++ request_bytes op args
      → r.client.rpc_error ≡ c.rpc_error
      → Ended c start op args r
  closed :
      r.client.link ≡ none
      → r.client.rpc_error ≡ invalid_operation
      → r.result ≡ 0
      → Ended c start op args r

settle-Ended :
    (c : Client) (l : Link) (op : ℕ) (args : List RpcArg) (extra : List ℕ) (capacity : ℕ)
    (o : Outcome) (l' : Link)
    → exchange op args extra capacity l ≡ some (o, l')
    → Ended c (some l) op args (settle c o l')
unfolding settle fail
settle-Ended c l op args extra capacity (returned result extra' args') l' e =
    Ended.kept l l' refl refl (exchange-outbox op args extra capacity l l' e) refl
settle-Ended c l op args extra capacity (failed extra' args') l' e = Ended.closed refl refl refl

rpc_on-Ended :
    (c : Client) (start : Option Link) (op : ℕ) (args : List RpcArg) (extra : List ℕ) (capacity : ℕ)
    (r : Return)
    → rpc_on c start op args extra capacity ≡ some r
    → Ended c start op args r
unfolding rpc_on fail
rpc_on-Ended c none op args extra capacity r e =
    subst (λ r'. Ended c none op args r') (some-injective _ _ e) (Ended.closed refl refl refl)
rpc_on-Ended c (some l) op args extra capacity r e = go (exchange op args extra capacity l) refl e
  where
    go :
        (x : Option (Outcome × Link))
        → exchange op args extra capacity l ≡ x
        → (elim x [ none ↦ none | some (outcome, l') ↦ some (settle c outcome l') ]) ≡ some r
        → Ended c (some l) op args r
    go none h q = cc
    go (some (o, l')) h q =
        subst (λ r'. Ended c (some l) op args r') (some-injective _ _ q)
          (settle-Ended c l op args extra capacity o l' h)

-- Every call of `rpc` that returns either keeps the connection that it had or opened, has sent the
-- whole call on it and leaves the pending error alone, or leaves no connection, the error
-- GL_INVALID_OPERATION and the result 0.
pub rpc-Ended :
    (c : Client) (d : Dial) (op : ℕ) (args : List RpcArg) (extra : List ℕ) (capacity : ℕ)
    (r : Return)
    → rpc c d op args extra capacity ≡ some r
    → Ended c (dial_link c.link d) op args r
unfolding rpc
rpc-Ended c d op args extra capacity r e =
    rpc_on-Ended c (dial_link c.link d) op args extra capacity r e
