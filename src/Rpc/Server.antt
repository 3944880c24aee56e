-- ===== src/Rpc/Server.antt =====
-- The host's side of the wire: `exact`, `command_header` and the command loop of `serve` in
-- runtime/graphics/gl_server.py. The bytes that the guest sends before it closes are a list.
pub mod RoundTrip
use vw_firmware_mac.Base.{
  ℕ, zero, suc, ◌≡◌, refl, List, [], ◌∷◌, ◌++◌, Option, none, some, Bool, true, false,
}
use vw_firmware_mac.Base.{ltb, leb, ◌==◌, if◌then◌else◌, length, take, drop, le32, u32_at}

-- An entry of `items`: mode, size and the bytes of an input.
pub record Item : Type 0 where
  pub mode : ℕ
  pub size : ℕ
  pub bytes : List ℕ

-- How reading a command ends: `EOFError`, the `ValueError`s, or what was read and what follows.
pub data Read {ℓ} (A : Type ℓ) : Type ℓ where
  eof too_many too_large : Read A
  read : A → List ℕ → Read A

infixl 5 ◌>>=◌
abbrev pub ◌>>=◌ {ℓ κ} :
    {A : Type ℓ} {B : Type κ} → (List ℕ → Read A) → (A → List ℕ → Read B) → List ℕ → Read B
◌>>=◌ m f input = elim (m input) [
  | eof ↦ eof
  | too_many ↦ too_many
  | too_large ↦ too_large
  | read a rest ↦ f a rest
]

-- One step of a reader that did not stop.
pub >>=-step {ℓ κ} :
    {A : Type ℓ} {B : Type κ} (m : List ℕ → Read A) (f : A → List ℕ → Read B) (input : List ℕ)
    {a : A} {rest : List ℕ}
    → m input ≡ read a rest
    → (m >>= f) input ≡ f a rest
>>=-step m f input e = rw (e, ◌>>=◌)

unfoldable pub exact : ℕ → List ℕ → Read (List ℕ)
exact count input =
    if leb count (length input) then read (take count input) (drop count input) else eof

abbrev pub max_count : ℕ
max_count = 16

abbrev pub max_size : ℕ
max_size = 67108864

-- `command_header`: op and count.
unfoldable pub command_header : List ℕ → Read (ℕ × ℕ)
command_header = do header ← exact 8; read (u32_at header 0, u32_at header 4)

-- The test of an argument's size, and its bytes.
unfoldable pub read_payload : ℕ → ℕ → List ℕ → Read Item
read_payload mode size =
    if ltb max_size size
    then (λ input. too_large)
    else (if mode == 2
        then read (record { mode = mode; size = size; bytes = [] })
        else (do bytes ← exact size; read (record { mode = mode; size = size; bytes = bytes })))

unfoldable pub read_item : List ℕ → Read Item
read_item = do header ← exact 8; read_payload (u32_at header 0) (u32_at header 4)

unfoldable pub read_items : ℕ → List ℕ → Read (List Item)
read_items zero = read []
read_items (suc count) = do item ← read_item; items ← read_items count; read (item ∷ items)

-- The test of the argument count, and the arguments.
unfoldable pub read_arguments : ℕ → ℕ → List ℕ → Read (ℕ × List Item)
read_arguments op count =
    if ltb max_count count
    then (λ input. too_many)
    else (do items ← read_items count; read (op, items))

-- One command of the loop of `serve`, up to `bridge.execute`.
unfoldable pub read_command : List ℕ → Read (ℕ × List Item)
read_command = do (op, count) ← command_header; read_arguments op count

-- What `bridge.execute` returns.
pub record Response : Type 0 where
  pub result : ℕ
  pub extra : List ℕ
  pub outputs : List (List ℕ)

unfoldable pub outputs_bytes : List (List ℕ) → List ℕ
outputs_bytes [] = []
outputs_bytes (out ∷ outs) = (le32 (length out) ++ out) ++ outputs_bytes outs

-- `struct.pack('<II',result,len(extra))+extra` and the outputs, each behind its length.
unfoldable pub reply_bytes : Response → List ℕ
reply_bytes r = (le32 r.result ++ le32 (length r.extra)) ++ (r.extra ++ outputs_bytes r.outputs)
