-- ===== src/Rpc/Client/Exchange.antt =====
-- A whole exchange of `rpc` (guest/shim/src/gl_rpc.h) with a host that answers.
use vw_firmware_mac.Base.{ℕ, ◌+◌, ◌≤◌, ◌≡◌, refl, sym, ◌∙◌, subst, arith}
use vw_firmware_mac.Base.{List, [], ◌∷◌, ◌++◌, some, true, if◌then◌else◌}
use vw_firmware_mac.Base.{length, All, IsU32, le32, u32_at, word_le32, le→ltb_false}
use vw_firmware_mac.Rpc.Link.{Link, >>=-step, recv_exact}
use vw_firmware_mac.Rpc.Link.Progress.{Willing, Leaves, suc-==-zero}
use vw_firmware_mac.Rpc.Request.{RpcArg, send_request}
use vw_firmware_mac.Rpc.Request.Wire.{request_bytes}
use vw_firmware_mac.Rpc.Request.Progress.{send_request-Delivers, IsSmall}
use vw_firmware_mac.Rpc.Server.{Response, reply_bytes, outputs_bytes}
use vw_firmware_mac.Rpc.Client.{
  Dial, rpc, rpc_on, dial_link, settle, overlay, receive_outputs, returned, failed, finish_reply,
  read_extra, read_reply, exchange,
}
use vw_firmware_mac.Rpc.Link.Reading.{Takes, Takes-bind, Takes-map, Takes-recv}
use vw_firmware_mac.Rpc.Client.Outputs.{Answers, stored, receive_outputs-Takes}

u32_at-words :
    (a b : ℕ)
    → IsU32 a
    → IsU32 b
    → (u32_at (le32 a ++ le32 b) 0 ≡ a) × (u32_at (le32 a ++ le32 b) 4 ≡ b)
unfolding u32_at le32
u32_at-words a b ha hb = (word_le32 a ha, word_le32 b hb)

recv_words : (a b : ℕ) → Takes (recv_exact 8) (le32 a ++ le32 b) (true, le32 a ++ le32 b)
unfolding le32
recv_words a b = Takes-recv 8 (le32 a ++ le32 b) refl

-- The host's reply fits the buffers of the call.
pub record Replies (args : List RpcArg) (capacity : ℕ) (r : Response) : Type 0 where
  pub outputs : Answers args r.outputs
  pub result : IsU32 r.result
  pub extra : length r.extra ≤ capacity
  pub room : IsU32 capacity

module _ (args : List RpcArg) (capacity : ℕ) (r : Response) (h : Replies args capacity r)
    (extra : List ℕ) where
  finish_reply-Takes :
      (ex : List ℕ)
      → Takes
          (finish_reply r.result ex args)
          (outputs_bytes r.outputs)
          (returned r.result ex (stored h.outputs))
  unfolding finish_reply
  finish_reply-Takes ex =
      Takes-map (receive_outputs args) (true, stored h.outputs)
        (λ p. if p.0 then returned r.result ex p.1 else failed ex p.1) (outputs_bytes r.outputs)
        (receive_outputs-Takes h.outputs)

  read_extra-Takes :
      (sent : List ℕ)
      → sent ≡ r.extra
      → Takes
          (read_extra r.result (length sent) extra capacity args)
          (sent ++ outputs_bytes r.outputs)
          (returned r.result (overlay sent extra) (stored h.outputs))
  unfolding read_extra
  read_extra-Takes [] e =
      rw (le→ltb_false capacity 0 (omega arith)) (unfold overlay in finish_reply-Takes extra)
  read_extra-Takes (x ∷ xs) e =
      rw
        (
          le→ltb_false capacity (length (x ∷ xs))
              (subst (λ b. length b ≤ capacity) (sym e) h.extra),
          suc-==-zero (length xs),
        )
        (Takes-bind (recv_exact (length (x ∷ xs))) (true, x ∷ xs) _ (x ∷ xs)
          (outputs_bytes r.outputs) _ (Takes-recv (length (x ∷ xs)) (x ∷ xs) refl)
          (finish_reply-Takes (overlay (x ∷ xs) extra)))

  read_reply-Takes :
      Takes
        (read_reply extra capacity args)
        (reply_bytes r)
        (returned r.result (overlay r.extra extra) (stored h.outputs))
  unfolding read_reply reply_bytes
  read_reply-Takes =
      let words =
        u32_at-words r.result (length r.extra) h.result (omega (arith, h.extra, h.room)) in
      Takes-bind (recv_exact 8) (true, le32 r.result ++ le32 (length r.extra)) _
        (le32 r.result ++ le32 (length r.extra)) (r.extra ++ outputs_bytes r.outputs) _
        (recv_words r.result (length r.extra))
        (rw (words.0, words.1) (read_extra-Takes r.extra refl))

  exchange-returned :
      (op k : ℕ) (rest : List ℕ) (l : Link)
      → All IsSmall args
      → l.inbox ≡ reply_bytes r ++ rest
      → Willing (length (request_bytes op args) + (length (reply_bytes r) + k)) l.answers
      → (l' : Link) × (exchange op args extra capacity l
          ≡ some (returned r.result (overlay r.extra extra) (stored h.outputs), l'))
        × Leaves k (l.outbox ++ request_bytes op args) rest l'
  unfolding exchange
  exchange-returned op k rest l small inb w =
      let (l₁, e₁, v₁) = send_request-Delivers op args small (length (reply_bytes r) + k) l w in
      let (l₂, e₂, v₂) = read_reply-Takes.run k l₁ rest (v₁.inbox ∙ inb) v₁.willing in
      (
        l₂,
        >>=-step (send_request op args) _ l e₁ ∙ e₂,
        record { outbox = v₂.outbox ∙ v₁.outbox; inbox = v₂.inbox; willing = v₂.willing },
      )

  -- On an open connection, where no argument is above 64 MiB, the host's reply stands in the inbox
  -- and fits the buffers of the call, and the kernel makes a move for each byte of the exchange,
  -- `rpc` returns: with the host's result, its extra bytes and outputs in the caller's buffers, the
  -- connection and the pending error kept, the whole call sent, and exactly the reply taken off the
  -- stream.
  pub rpc-returns :
      (op k error : ℕ) (rest : List ℕ) (l : Link) (d : Dial)
      → All IsSmall args
      → l.inbox ≡ reply_bytes r ++ rest
      → Willing (length (request_bytes op args) + (length (reply_bytes r) + k)) l.answers
      → (l' : Link) × (rpc (record { link = some l; rpc_error = error }) d op args extra capacity
          ≡ some (record {
            result = r.result;
            extra = overlay r.extra extra;
            args = stored h.outputs;
            client = record { link = some l'; rpc_error = error };
          }))
        × Leaves k (l.outbox ++ request_bytes op args) rest l'
  unfolding rpc rpc_on dial_link settle
  rpc-returns op k error rest l d small inb w =
      let (l', e, v) = exchange-returned op k rest l small inb w in (l', rw (e, rpc_on) refl, v)
