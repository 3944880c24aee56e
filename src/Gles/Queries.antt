-- ===== src/Gles/Queries.antt =====
-- Queries and synchronisation: entry points of guest/shim/src/libGLESv2_bridge.c.
use vw_firmware_mac.Base.{ℕ, ◌*◌, [], ◌∷◌}
use vw_firmware_mac.Base.{◌==◌, if◌then◌else◌}
use vw_firmware_mac.Gles.Command.{Memory, Command, call, call_string, answer, nothing, byte, word}
use vw_firmware_mac.Gles.Command.{scalar_word, output}
use vw_firmware_mac.Gles.Command.{query_length}

-- glFinish
unfoldable pub gl_finish : Command
gl_finish = call nothing 45 []

-- glFlush
unfoldable pub gl_flush : Command
gl_flush = call nothing 46 []

-- glGetBooleanv
unfoldable pub gl_get_booleanv : ℕ → Memory → Command
gl_get_booleanv pname params =
    call nothing 59 ((scalar_word pname) ∷ (output params (query_length pname)) ∷ [])

-- glGetError: a pending error of the bridge is answered, and cleared, without the host.
unfoldable pub gl_get_error : ℕ → Command
gl_get_error error = if error == 0 then call word 61 [] else answer error

-- glGetFloatv
unfoldable pub gl_get_floatv : ℕ → Memory → Command
gl_get_floatv pname params =
    call nothing 62 ((scalar_word pname) ∷ (output params (query_length pname * 4)) ∷ [])

-- glGetIntegerv
unfoldable pub gl_get_integerv : ℕ → Memory → Command
gl_get_integerv pname params =
    call nothing 64 ((scalar_word pname) ∷ (output params (query_length pname * 4)) ∷ [])

-- glGetString: the slot of `strings` that takes the extra bytes.
unfoldable pub gl_get_string : ℕ → Command
gl_get_string name = call_string 72 (scalar_word name ∷ []) (
    if name == 0x1F00
    then 0
    else if name == 0x1F01
    then 1
    else if name == 0x1F02
    then 2
    else if name == 0x1F03
    then 3
    else 4)

-- glIsEnabled
unfoldable pub gl_is_enabled : ℕ → Command
gl_is_enabled cap = call byte 83 ((scalar_word cap) ∷ [])

-- A call of one of these entry points, with its arguments.
pub data QueryCall : Type 0 where
  finish : QueryCall
  flush : QueryCall
  get_booleanv : ℕ → Memory → QueryCall
  get_error : QueryCall
  get_floatv : ℕ → Memory → QueryCall
  get_integerv : ℕ → Memory → QueryCall
  get_string : ℕ → QueryCall
  is_enabled : ℕ → QueryCall

-- The number of the operation: the place of the entry point in the file.
unfoldable pub query_operation : QueryCall → ℕ
query_operation finish = 45
query_operation flush = 46
query_operation (get_booleanv _ _) = 59
query_operation get_error = 61
query_operation (get_floatv _ _) = 62
query_operation (get_integerv _ _) = 64
query_operation (get_string _) = 72
query_operation (is_enabled _) = 83

unfoldable pub query_command : ℕ → QueryCall → Command
unfolding gl_finish gl_flush gl_get_booleanv gl_get_error gl_get_floatv gl_get_integerv
    gl_get_string gl_is_enabled
query_command e finish = gl_finish
query_command e flush = gl_flush
query_command e (get_booleanv pname params) = gl_get_booleanv pname params
query_command e get_error = gl_get_error e
query_command e (get_floatv pname params) = gl_get_floatv pname params
query_command e (get_integerv pname params) = gl_get_integerv pname params
query_command e (get_string name) = gl_get_string name
query_command e (is_enabled cap) = gl_is_enabled cap
