-- ===== src/Stubs/Gles/Binding.antt =====
-- The array buffer that guest/shim/src/libGLESv2_stub.c keeps and logs.
use vw_firmware_mac.Base.{ℕ, ◌≡◌, refl, ap, ◌∙◌, List, [], ◌∷◌, Bool, true, false, some}
use vw_firmware_mac.Base.{All, get_elem?}
use vw_firmware_mac.Stubs.Gles.Attributes.{stub_vertex_attrib_pointer}
use vw_firmware_mac.Stubs.Gles.Buffers.{stub_bind_buffer}
use vw_firmware_mac.Stubs.Log.{line, uint, answers}
use vw_firmware_mac.Stubs.Names.{GlStub}
use vw_firmware_mac.Stubs.Gles.{GlEntry, gl_reply, gl_run}
use vw_firmware_mac.Stubs.Gles.Effect.{
  buffer, framebuffer, renderbuffer, texture, program, shader, advance, Effect, keeps, next_attrib,
  next_uniform, binds, gives, apply, effect,
}
use vw_firmware_mac.Stubs.Gles.Fitting.Calls.{gl_reply-Fits}

-- A call that is no `glBindBuffer` of `GL_ARRAY_BUFFER`.
unfoldable pub is_bind : Effect → Bool
is_bind (binds b) = true
is_bind _ = false

array_buffer-apply :
    (e : Effect) (s : GlStub) → is_bind e ≡ false → (apply e s).array_buffer ≡ s.array_buffer
unfolding apply is_bind advance
array_buffer-apply keeps s h = refl
array_buffer-apply next_attrib s h = refl
array_buffer-apply next_uniform s h = refl
array_buffer-apply (binds b) s h = cc
array_buffer-apply (gives buffer p n) s h = refl
array_buffer-apply (gives framebuffer p n) s h = refl
array_buffer-apply (gives renderbuffer p n) s h = refl
array_buffer-apply (gives texture p n) s h = refl
array_buffer-apply (gives program p n) s h = refl
array_buffer-apply (gives shader p n) s h = refl

array_buffer-run :
    (cs : List GlEntry) (s : GlStub)
    → All (λ c. is_bind (effect c) ≡ false) cs
    → (gl_run cs s).array_buffer ≡ s.array_buffer
unfolding gl_run
array_buffer-run [] s h = refl
array_buffer-run (c ∷ cs) s h =
    array_buffer-run cs (gl_reply c s).1 h.1
    ∙ ap (λ t. t.array_buffer) (gl_reply-Fits c s).state
    ∙ array_buffer-apply (effect c) s h.0

-- After a `glBindBuffer` of `GL_ARRAY_BUFFER` and any calls that are none, `glVertexAttribPointer` logs
-- a second line, with the index of the attribute and that buffer.
pub logs-bound :
    (s : GlStub) (cs : List GlEntry) (b index size kind normalized stride ptr : ℕ)
    → All (λ c. is_bind (effect c) ≡ false) cs
    → get_elem?
        (stub_vertex_attrib_pointer index size kind normalized stride ptr
          (gl_run cs (stub_bind_buffer 0x8892 b s).1)).0.lines
        1
      ≡ some (line "  attrib" (uint "" index ∷ uint "bound array buffer" b ∷ []))
unfolding stub_vertex_attrib_pointer stub_bind_buffer answers
logs-bound s cs b index size kind normalized stride ptr h =
    ap (λ buffer. some (line "  attrib" (uint "" index ∷ uint "bound array buffer" buffer ∷ [])))
      (array_buffer-run cs (stub_bind_buffer 0x8892 b s).1 h)
