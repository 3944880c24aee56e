-- ===== src/Gles/Accepted/Check.antt =====
-- What it takes for the host to accept a command.
use vw_firmware_mac.Base.{
  ℕ, zero, suc, ◌≡◌, Bool, true, false, not, none, some, map, List, length, leb, ◌&&◌,
  if◌then◌else◌, le32, get_elem?,
}
use vw_firmware_mac.Rpc.Client.{invalid_operation}
use vw_firmware_mac.Rpc.Request.{RpcArg, arg_length, arg_bytes, payload_bytes}
use vw_firmware_mac.Rpc.Server.RoundTrip.{item_of}
use vw_firmware_mac.Gles.Command.{
  Command, call, call_string, refuse, answer, scalar_word, scalar_byte, input, output, text, words,
}
use vw_firmware_mac.Gles.Host.{decodes, decode_all, accepts_entry, accepts}
use vw_firmware_mac.Gles.Manifest.{entries}

-- At most 16 arguments, and an operation, a count and modes that `execute` raises nothing for.
unfoldable pub checks : ℕ → List RpcArg → Bool
unfolding accepts accepts_entry decode_all decodes entries payload_bytes arg_bytes arg_length
    scalar_word scalar_byte input output text words le32
checks op args = leb (length args) 16 && accepts op (map item_of args)

-- What becomes of a call: the host is asked, it is refused with an error, or the pending error is
-- returned.
pub data Outcome : Type 0 where
  served : Outcome
  refused : ℕ → Outcome
  returned : ℕ → Outcome

-- The manifest has the operation as unsupported.
unfoldable pub unsupported : ℕ → Bool
unfolding entries
unsupported zero = false
unsupported (suc op) = elim (get_elem? entries op) [ none ↦ false | some e ↦ not e.supported ]

-- Only an operation that the host lacks is refused.
unfoldable pub outcome_of : ℕ → Outcome
unfolding unsupported
outcome_of op = if unsupported op then refused invalid_operation else served

-- The command has this outcome: where the call is served, it is a call of the operation that the host
-- accepts.
abbrev pub IsServed : ℕ → Outcome → Command → Type 0
IsServed op served (call returns op' args) = (op' ≡ op) × (checks op' args ≡ true)
IsServed op served (call_string op' args slot) = (op' ≡ op) × (checks op' args ≡ true)
IsServed op (refused error) (refuse error') = error' ≡ error
IsServed op (returned error) (answer error') = error' ≡ error
IsServed op _ _ = ⊥

pub IsServed-if :
    (b : Bool) (op : ℕ) (o p : Outcome) (c d : Command)
    → IsServed op o c
    → IsServed op p d
    → IsServed op (if b then o else p) (if b then c else d)
IsServed-if true op o p c d hc hd = hc
IsServed-if false op o p c d hc hd = hd
