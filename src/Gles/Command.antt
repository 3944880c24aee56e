-- ===== src/Gles/Command.antt =====
-- What an entry point of guest/shim/src/libGLESv2_bridge.c does, and how it builds its `RpcArg`s.
-- Scalars are bit patterns: a `GLfloat` and a `GLint` are the word that their bytes make up.
use vw_firmware_mac.Base.{ℕ, ◌+◌, ◌*◌, ◌%◌, ◌^◌, List, [], ◌∷◌, ◌++◌, Option, none, some}
use vw_firmware_mac.Base.{ltb, ◌==◌, ◌||◌, if◌then◌else◌, length, le32}
use vw_firmware_mac.Rpc.Request.{RpcArg}

-- What a pointer argument points at; `none` is a null pointer.
abbrev pub Memory : Type 0
Memory = Option (List ℕ)

-- The C return type: `void`, a word, or a `GLboolean`, to which the result is cut.
pub data Returns : Type 0 where
  nothing word byte : Returns

-- `call`: `rpc(op,count,args,0,0)`. `call_string`: the same with the extra bytes going to a slot of
-- `strings`. `refuse`: `rpc_error` is set and nothing is sent. `answer`: `rpc_error` is returned and
-- cleared.
pub data Command : Type 0 where
  call : Returns → ℕ → List RpcArg → Command
  call_string : ℕ → List RpcArg → ℕ → Command
  refuse : ℕ → Command
  answer : ℕ → Command

-- The static variables of the bridge.
pub record Bridge : Type 0 where
  pub array_buffer : ℕ
  pub element_buffer : ℕ

-- `{(void *)(&x), sizeof(x), 0}` for a parameter of four bytes, and of one.
unfoldable pub scalar_word : ℕ → RpcArg
unfolding le32
scalar_word x = record { memory = some (le32 x); size = 4; mode = 0 }

unfoldable pub scalar_byte : ℕ → RpcArg
scalar_byte x = record { memory = some ((x % 256) ∷ []); size = 1; mode = 0 }

-- `{(void *)(p), size, 1}` and `{(void *)(p), size, 2}`.
unfoldable pub input : Memory → ℕ → RpcArg
input memory size = record { memory = memory; size = size; mode = 1 }

unfoldable pub output : Memory → ℕ → RpcArg
output memory size = record { memory = memory; size = size; mode = 2 }

-- `{(void *)(name), name ? strlen(name)+1 : 0, 1}`; the characters are given without their NUL.
unfoldable pub text : Memory → RpcArg
unfolding input
text name =
    input (elim name [ none ↦ none | some chars ↦ some (chars ++ 0 ∷ []) ])
      (elim name [ none ↦ 0 | some chars ↦ length chars + 1 ])

-- `n*k*4` on 32-bit numbers, as for `n*sizeof(GLuint)`.
unfoldable pub words : ℕ → ℕ → ℕ
words n k = n * (k * 4) % 2 ^ 32

-- Values of GLES2/gl2.h.
abbrev pub array_target : ℕ
array_target = 0x8892

abbrev pub element_target : ℕ
element_target = 0x8893

abbrev pub unsigned_byte : ℕ
unsigned_byte = 0x1401

abbrev pub out_of_memory : ℕ
out_of_memory = 0x505

-- GL_RGBA, GL_RGB, GL_LUMINANCE_ALPHA, or one channel.
unfoldable pub channels : ℕ → ℕ
channels format =
    if format == 0x1908
    then 4
    else if format == 0x1907
    then 3
    else if format == 0x190A
    then 2
    else 1

-- `pixel_bytes` of guest/shim/src/gl_rpc.h. A negative `int` is a word from 2 ^ 31 on, so the test
-- `w>8192` of the bit pattern covers `w<0`.
unfoldable pub pixel_bytes : ℕ → ℕ → ℕ → ℕ → ℕ
unfolding channels
pixel_bytes w h format kind =
    let bytes = (if kind == unsigned_byte then channels format else 2) in
    if ltb 8192 w || ltb 8192 h then 0 else w * h % 2 ^ 32 * bytes % 2 ^ 32

-- The number of values of a state query: GL_VIEWPORT, GL_SCISSOR_BOX and GL_COLOR_WRITEMASK have
-- four, GL_MAX_VIEWPORT_DIMS, GL_ALIASED_LINE_WIDTH_RANGE and GL_ALIASED_POINT_SIZE_RANGE two.
unfoldable pub query_length : ℕ → ℕ
query_length pname =
    if pname == 0x0BA2 || (pname == 0x0C10 || pname == 0x0C23)
    then 4
    else (if pname == 0x0D3A || (pname == 0x846E || pname == 0x846D) then 2 else 1)
