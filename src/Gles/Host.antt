-- ===== src/Gles/Host.antt =====
-- How `Bridge.execute` of runtime/graphics/gl_server.py checks and decodes the arguments of a call,
-- up to the renderer's own call.
use vw_firmware_mac.Base.{ℕ, zero, suc, List, [], ◌∷◌, none, some, Bool, true, false}
use vw_firmware_mac.Base.{◌==◌, ◌&&◌, ◌||◌, length, get_elem?}
use vw_firmware_mac.Rpc.Server.{Item}
use vw_firmware_mac.Gles.Manifest.{Param, integer, float, boolean, pointer, Entry, entries}

-- One round of the loop over `zip(spec['params'],items)`: whether it raises no exception.
-- `struct.unpack('<f',data)` wants four bytes; `int.from_bytes` takes any number of them.
unfoldable pub decodes : Param → Item → Bool
decodes pointer item = item.mode == 0 || (item.mode == 1 || item.mode == 2)
decodes float item =
    (item.mode == 0 && length item.bytes == 4) || (item.mode == 1 || item.mode == 2)
decodes integer item = item.mode == 0 || (item.mode == 1 || item.mode == 2)
decodes boolean item = item.mode == 0 || (item.mode == 1 || item.mode == 2)

unfoldable pub decode_all : List Param → List Item → Bool
decode_all [] items = true
decode_all (p ∷ params) [] = true
decode_all (p ∷ params) (i ∷ items) = decodes p i && decode_all params items

-- `not spec['supported'] or len(items)!=len(spec['params'])`, and the loop.
unfoldable pub accepts_entry : Entry → List Item → Bool
accepts_entry e items =
    e.supported && (length items == length e.params && decode_all e.params items)

-- `MANIFEST[str(op)]`: its keys are "1" to the number of entries, and another raises `KeyError`.
unfoldable pub accepts : ℕ → List Item → Bool
accepts zero items = true
accepts (suc op) items = elim (get_elem? entries op) [
  | none ↦ false
  | some e ↦ accepts_entry e items
]
