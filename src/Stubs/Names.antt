-- ===== src/Stubs/Names.antt =====
-- The static variables of guest/shim/src/libGLESv2_stub.c, and what its entry points share.
use vw_firmware_mac.Base.{ℕ, zero, suc, ◌+◌, ◌%◌, ◌^◌, List, [], ◌∷◌, Option, none, some, min}
use vw_firmware_mac.Base.{ltb, ◌==◌, if◌then◌else◌, length, take}
use vw_firmware_mac.Stubs.Log.{uint, sint, chars, Line, line, Write, store}

-- `stub_array_buffer`, and the static `next` of each function that has one. `attribs` and `uniforms`
-- are ints, whose overflow is not modelled.
pub record GlStub : Type 0 where
  pub array_buffer : ℕ
  pub buffers : ℕ
  pub framebuffers : ℕ
  pub renderbuffers : ℕ
  pub textures : ℕ
  pub programs : ℕ
  pub shaders : ℕ
  pub attribs : ℕ
  pub uniforms : ℕ

unfoldable pub gl_start : GlStub
gl_start = record {
  array_buffer = 0;
  buffers = 1;
  framebuffers = 1;
  renderbuffers = 1;
  textures = 1;
  programs = 5000;
  shaders = 1000;
  attribs = 0;
  uniforms = 100;
}

-- The rounds of `for (i = 0; i < n; i++)` for an int.
unfoldable pub rounds : ℕ → ℕ
rounds n = if ltb n (2 ^ 31) then n else 0

-- `names[i] = next++`, for `n` rounds from `i`.
unfoldable pub names : ℕ → ℕ → ℕ → ℕ → List Write
names p zero i next = []
names p (suc n) i next = store p i next ∷ names p n (i + 1) ((next + 1) % 2 ^ 32)

-- The length of a source, from `length[i]`, where there is one that is not negative.
unfoldable pub source_length : List ℕ → Option ℕ → ℕ
source_length source none = length source
source_length source (some n) = if ltb n (2 ^ 31) then n else length source

-- The loop of `glShaderSource` on the texts and the elements of `length`.
unfoldable pub source_lines : ℕ → ℕ → List (List ℕ × Option ℕ) → List Line
source_lines shader i [] = []
source_lines shader i ((source, given) ∷ sources) =
    let l = source_length source given in
    line "  shader"
      (uint "" shader ∷ sint "source" i ∷ sint "bytes" l ∷ chars "" (take (min l 400) source) ∷ [])
    ∷ source_lines shader (i + 1) sources

-- 1 and 8 as floats.
abbrev pub one_bits : ℕ
one_bits = 0x3f800000

abbrev pub eight_bits : ℕ
eight_bits = 0x41000000

-- The value of the first case that fits, or 0.
unfoldable pub value_of : ℕ → List (ℕ × ℕ) → ℕ
value_of k [] = 0
value_of k ((j, v) ∷ more) = if k == j then v else value_of k more
