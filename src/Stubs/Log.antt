-- ===== src/Stubs/Log.antt =====
-- What a call of a logging library of guest/shim/src (libEGL_stub.c, libGLESv2_stub.c) does that its
-- caller or a reader of the log can see.
use vw_firmware_mac.Base.{ℕ, List, [], ◌∷◌, Bool}
use vw_firmware_mac.Base.{ltb, ◌==◌, ◌&&◌, ◌^◌, if◌then◌else◌}
use Prim.Native.String.{String}

-- `key=%u`, `%d`, `%g`, `%p`, `%ld` and `%.*s` of a format, with the argument: a number is given by its
-- bits, a pointer by its address, a text by its characters.
pub data Field : Type 0 where
  uint sint real addr long : String → ℕ → Field
  chars : String → List ℕ → Field

-- A call of `stub_log`: the text before the first argument, and the arguments.
pub record Line : Type 0 where
  pub name : String
  pub fields : List Field

unfoldable pub line : String → List Field → Line
line name fields = record { name = name; fields = fields }

-- What is returned: nothing, a number or a pointer, or a static text.
pub data Result : Type 0 where
  nothing : Result
  number : ℕ → Result
  text : String → Result

-- A write through a pointer argument: to an element of the array there, or zeros to `count` bytes. A
-- `GLfloat` is given by its bits.
pub data Write : Type 0 where
  store : (pointer index value : ℕ) → Write
  zeros : (pointer count : ℕ) → Write

pub record Reply : Type 0 where
  pub lines : List Line
  pub result : Result
  pub writes : List Write

unfoldable pub answers : List Line → Result → List Write → Reply
answers lines result writes = record { lines = lines; result = result; writes = writes }

-- `if (p) *p = …;`
unfoldable pub unless_null : ℕ → Write → List Write
unless_null p w = if p == 0 then [] else w ∷ []

-- Whether an int is positive.
unfoldable pub is_positive : ℕ → Bool
is_positive n = ltb 0 n && ltb n (2 ^ 31)

-- `if (bufsize > 0) text[0] = 0;`
unfoldable pub if_room : ℕ → ℕ → List Write
if_room bufsize p = if is_positive bufsize then store p 0 0 ∷ [] else []
