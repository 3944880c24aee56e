-- ===== src/Stubs/Gles/Effect.antt =====
-- What the calls of guest/shim/src/libGLESv2_stub.c do to its static variables.
use vw_firmware_mac.Base.{
  ℕ, zero, suc, ◌+◌, ◌%◌, ◌^◌, ◌≡◌, refl, List, [], ◌∷◌, ◌==◌, ◌&&◌, ltb, Option, none, some,
  if◌then◌else◌, ◌⊎◌, inl, inr, false,
}
use vw_firmware_mac.Stubs.Log.{nothing, number, text, Write, store, zeros, Reply}
use vw_firmware_mac.Stubs.Names.{GlStub, rounds}
use vw_firmware_mac.Stubs.Gles.{
  GlEntry, textures_entry, uniforms_entry, attributes_entry, framebuffers_entry, buffers_entry,
  shaders_entry, programs_entry, queries_entry, drawing_entry, raster_entry,
}
use vw_firmware_mac.Stubs.Gles.Textures.{TextureEntry, gen_textures}
use vw_firmware_mac.Stubs.Gles.Framebuffers.{FramebufferEntry, gen_framebuffers, gen_renderbuffers}
use vw_firmware_mac.Stubs.Gles.Buffers.{BufferEntry, gen_buffers, bind_buffer}
use vw_firmware_mac.Stubs.Gles.Programs.{ProgramEntry, create_program, get_attrib_location}
use vw_firmware_mac.Stubs.Gles.Shaders.{ShaderEntry, create_shader}
use vw_firmware_mac.Stubs.Gles.Uniforms.{UniformEntry, get_uniform_location}

-- The kinds of names that count up in 32 bits.
pub data Family : Type 0 where
  buffer framebuffer renderbuffer texture program shader : Family

unfoldable pub index : Family → ℕ
index buffer = 0
index framebuffer = 1
index renderbuffer = 2
index texture = 3
index program = 4
index shader = 5

unfoldable pub next_of : Family → GlStub → ℕ
next_of buffer s = s.buffers
next_of framebuffer s = s.framebuffers
next_of renderbuffer s = s.renderbuffers
next_of texture s = s.textures
next_of program s = s.programs
next_of shader s = s.shaders

unfoldable pub advance : Family → ℕ → GlStub → GlStub
advance buffer n s = record s { buffers = (s.buffers + n) % 2 ^ 32 }
advance framebuffer n s = record s { framebuffers = (s.framebuffers + n) % 2 ^ 32 }
advance renderbuffer n s = record s { renderbuffers = (s.renderbuffers + n) % 2 ^ 32 }
advance texture n s = record s { textures = (s.textures + n) % 2 ^ 32 }
advance program n s = record s { programs = (s.programs + n) % 2 ^ 32 }
advance shader n s = record s { shaders = (s.shaders + n) % 2 ^ 32 }

-- What a call does to them: nothing, a binding of the array buffer, `n` names for an array (of one
-- element at 0 where a name is returned), or one location.
pub data Effect : Type 0 where
  keeps next_attrib next_uniform : Effect
  binds : ℕ → Effect
  gives : Family → (pointer count : ℕ) → Effect

unfoldable pub apply : Effect → GlStub → GlStub
apply keeps s = s
apply next_attrib s = record s { attribs = s.attribs + 1 }
apply next_uniform s = record s { uniforms = s.uniforms + 1 }
apply (binds b) s = record s { array_buffer = b }
apply (gives f p n) s = advance f n s

unfoldable pub texture_effect : TextureEntry → Effect
texture_effect (gen_textures n p) = gives texture p (rounds n)
texture_effect _ = keeps

unfoldable pub framebuffer_effect : FramebufferEntry → Effect
framebuffer_effect (gen_framebuffers n p) = gives framebuffer p (rounds n)
framebuffer_effect (gen_renderbuffers n p) = gives renderbuffer p (rounds n)
framebuffer_effect _ = keeps

unfoldable pub buffer_effect : BufferEntry → Effect
buffer_effect (gen_buffers n p) = gives buffer p (rounds n)
buffer_effect (bind_buffer target b) = if target == 0x8892 then binds b else keeps
buffer_effect _ = keeps

unfoldable pub program_effect : ProgramEntry → Effect
program_effect create_program = gives program 0 1
program_effect (get_attrib_location p name) = next_attrib
program_effect _ = keeps

unfoldable pub shader_effect : ShaderEntry → Effect
shader_effect (create_shader kind) = gives shader 0 1
shader_effect _ = keeps

unfoldable pub uniform_effect : UniformEntry → Effect
uniform_effect (get_uniform_location p name) = next_uniform
uniform_effect _ = keeps

-- What a call is meant to do.
unfoldable pub effect : GlEntry → Effect
effect (textures_entry e) = texture_effect e
effect (uniforms_entry e) = uniform_effect e
effect (attributes_entry e) = keeps
effect (framebuffers_entry e) = framebuffer_effect e
effect (buffers_entry e) = buffer_effect e
effect (shaders_entry e) = shader_effect e
effect (programs_entry e) = program_effect e
effect (queries_entry e) = keeps
effect (drawing_entry e) = keeps
effect (raster_entry e) = keeps

-- What one write leaves in element `i` of the array `p`.
unfoldable pub written : ℕ → ℕ → Write → Option ℕ
written p i (store q j v) = if q == p && j == i then some v else none
written p i (zeros q n) = if q == p && ltb i n then some 0 else none

-- What writes leave there: the last one counts.
unfoldable pub left_at : ℕ → ℕ → List Write → Option ℕ
left_at p i [] = none
left_at p i (w ∷ ws) = elim (left_at p i ws) [ none ↦ written p i w | some v ↦ some v ]

-- The `n` elements of the array `p` from `i` on, without those that no write sets.
unfoldable pub elements : ℕ → ℕ → ℕ → List Write → List ℕ
elements p i zero ws = []
elements p i (suc n) ws =
    let rest = elements p (i + 1) n ws in elim (left_at p i ws) [ none ↦ rest | some v ↦ v ∷ rest ]

-- The names that a call hands out: those that it leaves in the array of the caller, or the one it
-- returns.
unfoldable pub given : ℕ → ℕ → Reply → List ℕ
given p n r = elim r.result [
  | nothing ↦ elements p 0 n r.writes
  | number name ↦ name ∷ []
  | text t ↦ []
]

-- Two families are the same, or the numbers of one do not move those of the other.
pub same_or :
    (f g : Family)
    → (f ≡ g)
      ⊎ (((index f == index g) ≡ false)
          × ((n : ℕ) (s : GlStub) → next_of f (advance g n s) ≡ next_of f s))
unfolding index next_of advance
same_or buffer buffer = inl refl
same_or buffer framebuffer = inr (refl, λ n s. refl)
same_or buffer renderbuffer = inr (refl, λ n s. refl)
same_or buffer texture = inr (refl, λ n s. refl)
same_or buffer program = inr (refl, λ n s. refl)
same_or buffer shader = inr (refl, λ n s. refl)
same_or framebuffer buffer = inr (refl, λ n s. refl)
same_or framebuffer framebuffer = inl refl
same_or framebuffer renderbuffer = inr (refl, λ n s. refl)
same_or framebuffer texture = inr (refl, λ n s. refl)
same_or framebuffer program = inr (refl, λ n s. refl)
same_or framebuffer shader = inr (refl, λ n s. refl)
same_or renderbuffer buffer = inr (refl, λ n s. refl)
same_or renderbuffer framebuffer = inr (refl, λ n s. refl)
same_or renderbuffer renderbuffer = inl refl
same_or renderbuffer texture = inr (refl, λ n s. refl)
same_or renderbuffer program = inr (refl, λ n s. refl)
same_or renderbuffer shader = inr (refl, λ n s. refl)
same_or texture buffer = inr (refl, λ n s. refl)
same_or texture framebuffer = inr (refl, λ n s. refl)
same_or texture renderbuffer = inr (refl, λ n s. refl)
same_or texture texture = inl refl
same_or texture program = inr (refl, λ n s. refl)
same_or texture shader = inr (refl, λ n s. refl)
same_or program buffer = inr (refl, λ n s. refl)
same_or program framebuffer = inr (refl, λ n s. refl)
same_or program renderbuffer = inr (refl, λ n s. refl)
same_or program texture = inr (refl, λ n s. refl)
same_or program program = inl refl
same_or program shader = inr (refl, λ n s. refl)
same_or shader buffer = inr (refl, λ n s. refl)
same_or shader framebuffer = inr (refl, λ n s. refl)
same_or shader renderbuffer = inr (refl, λ n s. refl)
same_or shader texture = inr (refl, λ n s. refl)
same_or shader program = inr (refl, λ n s. refl)
same_or shader shader = inl refl

-- `n` numbers from `a`, and those from `a` in 32 bits.
unfoldable pub upto : ℕ → ℕ → List ℕ
upto a zero = []
upto a (suc n) = a ∷ upto (a + 1) n

unfoldable pub numbers : ℕ → ℕ → List ℕ
numbers a zero = []
numbers a (suc n) = a ∷ numbers ((a + 1) % 2 ^ 32) n
