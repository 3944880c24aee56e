-- ===== src/Rpc/Client/Outputs.antt =====
-- How the outputs of a reply reach the caller's arguments (the last loop of
-- guest/shim/src/gl_rpc.h).
use vw_firmware_mac.Base.{ℕ, ◌≤◌, ◌≡◌, refl, ap, arith}
use vw_firmware_mac.Base.{List, [], ◌∷◌, ◌++◌, Option, none, some, true, false}
use vw_firmware_mac.Base.{length, ◌==◌, IsU32, le32, u32_at, word_le32, le→ltb_false}
use vw_firmware_mac.Rpc.Link.{recv_exact}
use vw_firmware_mac.Rpc.Link.Progress.{suc-==-zero}
use vw_firmware_mac.Rpc.Request.{RpcArg, out_mode}
use vw_firmware_mac.Rpc.Server.{outputs_bytes}
use vw_firmware_mac.Rpc.Client.{
  overlay, receive_into, receive_sized, receive_output, receive_outputs,
}
use vw_firmware_mac.Rpc.Link.Reading.{Takes, Takes-pure, Takes-bind, Takes-map, Takes-recv}

-- The argument after the host's bytes were written to it.
abbrev pub store : RpcArg → List ℕ → RpcArg
store a out = record a {
  memory = elim a.memory [ none ↦ none | some old ↦ some (overlay out old) ];
}

-- The host's bytes for an output: no more than asked for, and none for a null pointer.
abbrev pub Fits : RpcArg → List ℕ → Type 0
Fits a out = (length out ≤ a.size) × IsU32 a.size × (a.memory ≡ none → length out ≡ 0)

-- The host answers each output argument, in order.
pub data Answers : List RpcArg → List (List ℕ) → Type 0 where
  done : Answers [] []
  input :
      {a : RpcArg} {args : List RpcArg} {outs : List (List ℕ)}
      → (a.mode == out_mode) ≡ false
      → Answers args outs
      → Answers (a ∷ args) outs
  output :
      {a : RpcArg} {args : List RpcArg} {out : List ℕ} {outs : List (List ℕ)}
      → (a.mode == out_mode) ≡ true
      → Fits a out
      → Answers args outs
      → Answers (a ∷ args) (out ∷ outs)

-- The caller's arguments after the reply.
abbrev pub stored : {args : List RpcArg} {outs : List (List ℕ)} → Answers args outs → List RpcArg
stored done = []
stored (input {a} m rest) = a ∷ stored rest
stored (output {a} {out} m f rest) = store a out ∷ stored rest

overlay-nil : (old : List ℕ) → overlay [] old ≡ old
unfolding overlay
overlay-nil old = refl

memory_kept :
    (m : Option (List ℕ)) → (elim m [ none ↦ none | some old ↦ some (overlay [] old) ]) ≡ m
memory_kept none = refl
memory_kept (some old) = ap some (overlay-nil old)

store-nil : (a : RpcArg) (out : List ℕ) → length out ≡ 0 → store a out ≡ a
store-nil a [] h = ap (λ m. record a { memory = m }) (memory_kept a.memory)
store-nil a (x ∷ out) h = absurd (omega arith)

receive_into-Takes :
    (m : Option (List ℕ)) (out : List ℕ)
    → (m ≡ none → ⊥)
    → Takes
        (receive_into m (length out))
        out
        (true, elim m [ none ↦ none | some old ↦ some (overlay out old) ])
unfolding receive_into
receive_into-Takes none out h = absurd (h refl)
receive_into-Takes (some old) out h =
    Takes-map (recv_exact (length out)) (true, out) (λ p. (p.0, some (overlay p.1 old))) out
      (Takes-recv (length out) out refl)

receive_sized-Takes :
    (a : RpcArg) (out : List ℕ)
    → Fits a out
    → Takes (receive_sized a (length out)) out (true, store a out)
unfolding receive_sized
receive_sized-Takes a [] (fits, word, null) =
    rw (le→ltb_false a.size 0 fits, store-nil a [] refl) (Takes-pure (true, a))
receive_sized-Takes a (x ∷ xs) (fits, word, null) =
    rw (le→ltb_false a.size (length (x ∷ xs)) fits, suc-==-zero (length xs))
      (Takes-map (receive_into a.memory (length (x ∷ xs))) (true, _)
        (λ p. (p.0, record a { memory = p.1 })) (x ∷ xs)
        (receive_into-Takes a.memory (x ∷ xs) (λ e. absurd (omega (arith, null e)))))

-- A word on the wire.
pub recv_word : (n : ℕ) → Takes (recv_exact 4) (le32 n) (true, le32 n)
unfolding le32
recv_word n = Takes-recv 4 (le32 n) refl

u32_at-le32 : (n : ℕ) → IsU32 n → u32_at (le32 n) 0 ≡ n
unfolding u32_at le32
u32_at-le32 n h = word_le32 n h

receive_output-Takes :
    (a : RpcArg) (out : List ℕ)
    → Fits a out
    → Takes (receive_output a) (le32 (length out) ++ out) (true, store a out)
unfolding receive_output
receive_output-Takes a out h =
    Takes-bind (recv_exact 4) (true, le32 (length out)) _ (le32 (length out)) out
      (true, store a out) (recv_word (length out))
      (rw (u32_at-le32 (length out) (omega (arith, h))) (receive_sized-Takes a out h))

pub receive_outputs-Takes :
    {args : List RpcArg} {outs : List (List ℕ)} (h : Answers args outs)
    → Takes (receive_outputs args) (outputs_bytes outs) (true, stored h)
unfolding receive_outputs outputs_bytes
receive_outputs-Takes done = Takes-pure (true, [])
receive_outputs-Takes (input {a} {args} {outs} m rest) = rw m (
    Takes-map (receive_outputs args) (true, stored rest) (λ p. (p.0, a ∷ p.1)) (outputs_bytes outs)
      (receive_outputs-Takes rest))
receive_outputs-Takes (output {a} {args} {out} {outs} m f rest) = rw m (
    Takes-bind (receive_output a) (true, store a out) _ (le32 (length out) ++ out)
      (outputs_bytes outs) _ (receive_output-Takes a out f)
      (Takes-map (receive_outputs args) (true, stored rest) (λ p. (p.0, store a out ∷ p.1))
        (outputs_bytes outs) (receive_outputs-Takes rest)))
