-- ===== src/Rpc/Server/RoundTrip.antt =====
-- The encoding of guest/shim/src/gl_rpc_request.h under the reader of
-- runtime/graphics/gl_server.py.
use vw_firmware_mac.Base.{
  ℕ, suc, ◌≤◌, ◌≡◌, refl, sym, ap, ◌∙◌, arith, inl, inr, Bool-cases, le→ltb_false,
}
use vw_firmware_mac.Base.{List, [], ◌∷◌, ◌++◌, map}
use vw_firmware_mac.Base.{
  length, take-append, drop-append, length-append, append_assoc, All, ◌==◌, IsU32, le32, u32_at,
  word_le32,
}
use vw_firmware_mac.Rpc.Request.{
  RpcArg, arg_length, arg_bytes, payload_bytes, arg_header, request_header, out_mode,
}
use vw_firmware_mac.Rpc.Request.Wire.{args_bytes, request_bytes, IsReadable, length-arg_bytes}
use vw_firmware_mac.Rpc.Request.Progress.{IsSmall, small_test}
use vw_firmware_mac.Rpc.Server.{
  Item, read_payload, read_arguments, >>=-step, read, exact, command_header, read_item, read_items,
  read_command, ◌>>=◌, max_count,
}

exact-append : (n : ℕ) (xs rest : List ℕ) → n ≡ length xs → exact n (xs ++ rest) ≡ read xs rest
unfolding exact
exact-append n xs rest e =
    ground (arith, length-append xs rest, take-append n xs rest e, drop-append n xs rest e)

-- Two words at the front of the input.
exact_words :
    (a b : ℕ) (rest : List ℕ) → exact 8 ((le32 a ++ le32 b) ++ rest) ≡ read (le32 a ++ le32 b) rest
unfolding le32
exact_words a b rest = exact-append 8 (le32 a ++ le32 b) rest refl

first_word : (a b : ℕ) → IsU32 a → u32_at (le32 a ++ le32 b) 0 ≡ a
unfolding le32 u32_at
first_word a b h = word_le32 a h

second_word : (a b : ℕ) → IsU32 b → u32_at (le32 a ++ le32 b) 4 ≡ b
unfolding le32 u32_at
second_word a b h = word_le32 b h

-- The entry of `items` that an argument becomes.
abbrev pub item_of : RpcArg → Item
item_of a = record { mode = a.mode; size = arg_length a; bytes = payload_bytes a }

-- What the guest's code guarantees of an argument: a word for its mode, memory that can be read,
-- and at most 64 MiB.
abbrev pub IsSendable : RpcArg → Type 0
IsSendable a = IsU32 a.mode × IsReadable a × IsSmall a

read_payload-append :
    (a : RpcArg) (rest : List ℕ)
    → IsSendable a
    → read_payload a.mode (arg_length a) (payload_bytes a ++ rest) ≡ read (item_of a) rest
unfolding read_payload payload_bytes
read_payload-append a rest h = elim (Bool-cases (a.mode == out_mode)) [
  | inl out ↦ rw (small_test a h.2, out) refl
  | inr inp ↦
      rw (small_test a h.2, inp)
        (>>=-step (exact (arg_length a))
          (λ bytes. read (record { mode = a.mode; size = arg_length a; bytes = bytes })) _
          (exact-append (arg_length a) (arg_bytes a) rest (sym (length-arg_bytes a h.1))))
]

arg_length-IsU32 : (a : RpcArg) → IsSmall a → IsU32 (arg_length a)
arg_length-IsU32 a h = omega arith

read_item-append :
    (a : RpcArg) (rest : List ℕ)
    → IsSendable a
    → read_item ((arg_header a ++ payload_bytes a) ++ rest) ≡ read (item_of a) rest
unfolding read_item arg_header
read_item-append a rest h =
    let header : List ℕ = le32 a.mode ++ le32 (arg_length a) in
    ap read_item (append_assoc header (payload_bytes a) rest)
    ∙ >>=-step (exact 8) (λ h'. read_payload (u32_at h' 0) (u32_at h' 4)) _
        (exact_words a.mode (arg_length a) (payload_bytes a ++ rest))
    ∙ rw
        (
          first_word a.mode (arg_length a) h.0,
          second_word a.mode (arg_length a) (arg_length-IsU32 a h.2),
        )
        (read_payload-append a rest h)

read_items-append :
    (args : List RpcArg) (rest : List ℕ)
    → All IsSendable args
    → read_items (length args) (args_bytes args ++ rest) ≡ read (map item_of args) rest
unfolding read_items
read_items-append [] rest h = refl
read_items-append (a ∷ args) rest h =
    ap (read_items (suc (length args)))
      (append_assoc (arg_header a ++ payload_bytes a) (args_bytes args) rest)
    ∙ >>=-step read_item (λ item. read_items (length args) >>= λ items. read (item ∷ items)) _
        (read_item-append a (args_bytes args ++ rest) h.0)
    ∙ >>=-step (read_items (length args)) (λ items. read (item_of a ∷ items)) _
        (read_items-append args rest h.1)

command_header-append :
    (op count : ℕ) (rest : List ℕ)
    → IsU32 op
    → IsU32 count
    → command_header ((le32 op ++ le32 count) ++ rest) ≡ read (op, count) rest
unfolding command_header
command_header-append op count rest ho hc =
    >>=-step (exact 8) (λ h. read (u32_at h 0, u32_at h 4)) _ (exact_words op count rest)
    ∙ rw (first_word op count ho, second_word op count hc) refl

read_arguments-append :
    (op : ℕ) (args : List RpcArg) (rest : List ℕ)
    → length args ≤ max_count
    → All IsSendable args
    → read_arguments op (length args) (args_bytes args ++ rest) ≡ read (op, map item_of args) rest
unfolding read_arguments
read_arguments-append op args rest hc h = rw (le→ltb_false max_count (length args) hc) (
    >>=-step (read_items (length args)) (λ items. read (op, items)) _
      (read_items-append args rest h))

-- The encoding of a call with a word for its operation and at most 16 arguments, each with a word
-- for its mode, readable memory and at most 64 MiB, is read back by the host as that operation with
-- those arguments, and the host stops just behind it.
pub read_command-request_bytes :
    (op : ℕ) (args : List RpcArg) (rest : List ℕ)
    → IsU32 op
    → length args ≤ max_count
    → All IsSendable args
    → read_command (request_bytes op args ++ rest) ≡ read (op, map item_of args) rest
unfolding read_command request_header
read_command-request_bytes op args rest ho hc h =
    ap read_command (append_assoc (le32 op ++ le32 (length args)) (args_bytes args) rest)
    ∙ >>=-step command_header (λ c. read_arguments c.0 c.1) _
        (command_header-append op (length args) (args_bytes args ++ rest) ho (omega arith))
    ∙ read_arguments-append op args rest hc h
