-- ===== src/Stubs/Gles/Given.antt =====
-- The names that guest/shim/src/libGLESv2_stub.c gives out.
use vw_firmware_mac.Base.{
  ℕ, zero, suc, ◌+◌, ◌%◌, ◌^◌, ◌<◌, ◌≡◌, refl, sym, ap, ap₂, ◌∙◌, subst, List, [], ◌∷◌, ◌++◌, true,
  inl, inr, ◌==◌, if◌then◌else◌, arith,
}
use vw_firmware_mac.Stubs.Log.{Reply}
use vw_firmware_mac.Stubs.Names.{GlStub}
use vw_firmware_mac.Stubs.Gles.{GlEntry, gl_reply, gl_run}
use vw_firmware_mac.Stubs.Gles.Effect.{
  Family, buffer, framebuffer, renderbuffer, texture, program, shader, index, next_of, advance,
  Effect, keeps, next_attrib, next_uniform, binds, gives, apply, effect, given, same_or, upto,
  numbers,
}
use vw_firmware_mac.Stubs.Gles.Fitting.{Fits}
use vw_firmware_mac.Stubs.Gles.Fitting.Calls.{gl_reply-Fits}

-- The number of names of a family in an effect, and in calls.
unfoldable pub count_of : Family → Effect → ℕ
count_of f (gives g p n) = if index f == index g then n else 0
count_of f _ = 0

unfoldable pub asked : Family → List GlEntry → ℕ
asked f [] = 0
asked f (c ∷ cs) = count_of f (effect c) + asked f cs

-- The names of a family that a call with an effect hands out.
unfoldable pub given_of : Family → Effect → Reply → List ℕ
given_of f (gives g p n) r = if index f == index g then given p n r else []
given_of f _ r = []

-- The names of a family that calls hand out, in order.
unfoldable pub names_of : Family → List GlEntry → GlStub → List ℕ
names_of f [] s = []
names_of f (c ∷ cs) s = given_of f (effect c) (gl_reply c s).0 ++ names_of f cs (gl_reply c s).1

numbers-upto : (a n : ℕ) → a + n < 2 ^ 32 → numbers a n ≡ upto a n
unfolding numbers upto
numbers-upto a zero h = refl
numbers-upto a (suc n) h =
    let next : (a + 1) % 2 ^ 32 ≡ a + 1 = omega arith in
    ap (λ l. a ∷ l) (ap (λ b. numbers b n) next ∙ numbers-upto (a + 1) n (omega arith))

upto-append : (a m n : ℕ) → upto a m ++ upto (a + m) n ≡ upto a (m + n)
unfolding upto
upto-append a zero n =
    let at_a : a + 0 ≡ a = omega arith in let all : n ≡ 0 + n = omega arith in ap₂ upto at_a all
upto-append a (suc m) n =
    let back : a + suc m ≡ a + 1 + m = omega arith in
    let whole : suc (m + n) ≡ suc m + n = omega arith in
    ap (λ l. a ∷ l) (ap (λ b. upto (a + 1) m ++ upto b n) back ∙ upto-append (a + 1) m n)
    ∙ ap (upto a) whole

next_of-advance :
    (f : Family) (n : ℕ) (s : GlStub) → next_of f (advance f n s) ≡ (next_of f s + n) % 2 ^ 32
unfolding next_of advance
next_of-advance buffer n s = refl
next_of-advance framebuffer n s = refl
next_of-advance renderbuffer n s = refl
next_of-advance texture n s = refl
next_of-advance program n s = refl
next_of-advance shader n s = refl

-- The effects that move no counter of a family.
record IsApart (f : Family) (s : GlStub) : Type 0 where
  pub attrib : next_of f (apply next_attrib s) ≡ next_of f s
  pub uniform : next_of f (apply next_uniform s) ≡ next_of f s
  pub bound : (b : ℕ) → next_of f (apply (binds b) s) ≡ next_of f s

apart : (f : Family) (s : GlStub) → IsApart f s
unfolding next_of apply
apart buffer s = record { attrib = refl; uniform = refl; bound = λ b. refl }
apart framebuffer s = record { attrib = refl; uniform = refl; bound = λ b. refl }
apart renderbuffer s = record { attrib = refl; uniform = refl; bound = λ b. refl }
apart texture s = record { attrib = refl; uniform = refl; bound = λ b. refl }
apart program s = record { attrib = refl; uniform = refl; bound = λ b. refl }
apart shader s = record { attrib = refl; uniform = refl; bound = λ b. refl }

-- What one call hands out of a family, and where the family's counter stands then.
record Handed (f : Family) (e : Effect) (s : GlStub) (r : Reply × GlStub) : Type 0 where
  pub names : given_of f e r.0 ≡ upto (next_of f s) (count_of f e)
  pub next : next_of f r.1 ≡ next_of f s + count_of f e

untouched :
    (f : Family) (s : GlStub) (e : Effect) (r : Reply × GlStub)
    → given_of f e r.0 ≡ []
    → count_of f e ≡ 0
    → next_of f r.1 ≡ next_of f s
    → Handed f e s r
unfolding upto
untouched f s e r other none_given same = record {
  names = other ∙ rw none_given refl;
  next = omega (arith, same, none_given);
}

index-same : (f : Family) → (index f == index f) ≡ true
index-same f = ground arith

gives-Handed :
    (f : Family) (p n : ℕ) (s : GlStub) (r : Reply × GlStub)
    → Fits (gives f p n) s r
    → next_of f s + count_of f (gives f p n) < 2 ^ 32
    → Handed f (gives f p n) s r
unfolding given_of count_of apply
gives-Handed f p n s r h lt =
    let all : count_of f (gives f p n) ≡ n = rw (index-same f) refl in
    let room : next_of f s + n < 2 ^ 32 = subst (λ k. next_of f s + k < 2 ^ 32) all lt in
    record {
      names = rw (index-same f) (h.names ∙ numbers-upto (next_of f s) n room);
      next = ap (next_of f) h.state ∙ next_of-advance f n s ∙ omega (arith, all, room);
    }

Fits-Handed :
    (f : Family) (e : Effect) (s : GlStub) (r : Reply × GlStub)
    → Fits e s r
    → next_of f s + count_of f e < 2 ^ 32
    → Handed f e s r
unfolding given_of count_of apply
Fits-Handed f keeps s r h lt = untouched f s keeps r refl refl (ap (next_of f) h.state)
Fits-Handed f next_attrib s r h lt =
    untouched f s next_attrib r refl refl (ap (next_of f) h.state ∙ (apart f s).attrib)
Fits-Handed f next_uniform s r h lt =
    untouched f s next_uniform r refl refl (ap (next_of f) h.state ∙ (apart f s).uniform)
Fits-Handed f (binds b) s r h lt =
    untouched f s (binds b) r refl refl (ap (next_of f) h.state ∙ (apart f s).bound b)
Fits-Handed f (gives g p n) s r h lt = elim (same_or f g) [
  | inl same ↦
      subst (λ k. Handed f (gives k p n) s r) same
        (gives-Handed f p n s r (subst (λ k. Fits (gives k p n) s r) (sym same) h)
          (subst (λ k. next_of f s + count_of f (gives k p n) < 2 ^ 32) (sym same) lt))
  | inr other ↦
      untouched f s (gives g p n) r (rw other.0 refl) (rw other.0 refl)
        (ap (next_of f) h.state ∙ other.1 n s)
]

-- The names of a family that calls hand out, read from the elements of each caller's array in order or
-- returned, are consecutive from the counter of the family, which then stands behind them, for any
-- calls that leave it below 2 ^ 32.
pub names_of-run :
    (f : Family) (cs : List GlEntry) (s : GlStub)
    → next_of f s + asked f cs < 2 ^ 32
    → (names_of f cs s ≡ upto (next_of f s) (asked f cs))
      × (next_of f (gl_run cs s) ≡ next_of f s + asked f cs)
unfolding names_of asked gl_run upto
names_of-run f [] s lt = (refl, omega arith)
names_of-run f (c ∷ cs) s lt =
    let h = Fits-Handed f (effect c) s (gl_reply c s) (gl_reply-Fits c s) (omega arith) in
    let (rest, end) = names_of-run f cs (gl_reply c s).1 (omega (arith, h.next)) in
    (
      ap₂ (λ a b. a ++ b) h.names (rest ∙ ap (λ a. upto a (asked f cs)) h.next)
          ∙ upto-append (next_of f s) (count_of f (effect c)) (asked f cs),
      omega (arith, end, h.next),
    )
