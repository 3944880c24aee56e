-- ===== src/Dsi/Send/Honest.antt =====
-- What the parts of `_send` of guest/dsi/trace.c report of their deliveries.
use vw_firmware_mac.Base.{
  ℕ, ◌+◌, ◌≡◌, refl, ap₂, ◌∙◌, List, [], ◌∷◌, ◌++◌, Option, none, some, Bool, true, false, arith,
}
use vw_firmware_mac.Base.{◌||◌, if◌then◌else◌}
use vw_firmware_mac.Dsi.Bytes.{◌>>=◌, Ends, Ends-bind, Ends-chain, Ends-some, Ends-if}
use vw_firmware_mac.Dsi.Jni.{Jni, Event, record_line, logged, forwarded, empty_store_rx, deliver}
use vw_firmware_mac.Dsi.Power.{
  power_on, power_reply, power_request, power_query, answer_query, answer_attrs, read_attrs,
}
use vw_firmware_mac.Dsi.Store.{empty_store, store_addressed, store_answer, deliver_answer}
use vw_firmware_mac.Dsi.Send.{Process, answer_packet}

-- The line that `deliver` logs once a packet has reached the dispatcher.
unfoldable pub is_answer : Event → Bool
is_answer (logged empty_store_rx n bytes) = true
is_answer _ = false

unfoldable pub answered : List Event → Bool
answered [] = false
answered (e ∷ es) = is_answer e || answered es

unfoldable pub is_forward : Event → ℕ
is_forward forwarded = 1
is_forward _ = 0

-- How often the original library is called.
unfoldable pub forwards : List Event → ℕ
forwards [] = 0
forwards (e ∷ es) = is_forward e + forwards es

pub answered-append : (xs ys : List Event) → answered (xs ++ ys) ≡ (answered xs || answered ys)
unfolding answered
answered-append [] ys = refl
answered-append (x ∷ xs) ys = ground (arith, answered-append xs ys)

pub forwards-append : (xs ys : List Event) → forwards (xs ++ ys) ≡ forwards xs + forwards ys
unfolding forwards
forwards-append [] ys = omega arith
forwards-append (x ∷ xs) ys = omega (arith, forwards-append xs ys)

-- The flag says whether something was delivered, and the original was not called.
abbrev pub Honest : Bool × List Event → Type 0
Honest (b, es) = (answered es ≡ b) × (forwards es ≡ 0)

deliver-Honest : (j : Jni) (out : List ℕ) → Honest (deliver j out)
unfolding deliver answered is_answer forwards is_forward record_line
deliver-Honest j out = (ground arith, ground arith)

append-Honest :
    (a b : Bool) (xs ys : List Event) → Honest (a, xs) → Honest (b, ys) → Honest (a || b, xs ++ ys)
append-Honest a b xs ys (p, q) (r, s) = (
  answered-append xs ys ∙ ap₂ (λ u v. u || v) p r,
  forwards-append xs ys ∙ ap₂ (λ m n. m + n) q s,
)

answer_attrs-Honest : (jni : ℕ → Jni) (i : ℕ) (attrs : List ℕ) → Honest (answer_attrs jni i attrs)
unfolding answer_attrs answered forwards
answer_attrs-Honest jni i [] = (refl, refl)
answer_attrs-Honest jni i (attr ∷ attrs) =
    at_reply (power_reply attr) (answer_attrs-Honest jni (i + 1) attrs)
      (answer_attrs-Honest jni i attrs)
  where
    at_reply :
        (o : Option (List ℕ))
        → Honest (answer_attrs jni (i + 1) attrs)
        → Honest (answer_attrs jni i attrs)
        → Honest (elim o as (λ _. Bool × List Event) [
          | none ↦ answer_attrs jni i attrs
          | some out ↦ (
            (deliver (jni i) out).0 || (answer_attrs jni (i + 1) attrs).0,
            (deliver (jni i) out).1 ++ (answer_attrs jni (i + 1) attrs).1,
          )
        ])
    at_reply none next same = same
    at_reply (some out) next same = append-Honest _ _ _ _ (deliver-Honest (jni i) out) next

pub nothing-Honest : Honest (false, [])
unfolding answered forwards
nothing-Honest = (refl, refl)

power_on-Honest :
    (enabled : Bool) (jni : ℕ → Jni) (size : ℕ) (p : List ℕ)
    → Ends Honest (power_on enabled jni size p)
unfolding power_on answer_query
power_on-Honest enabled jni size p =
    let nothing = Ends-some Honest (false, []) nothing-Honest in
    Ends-if Honest _ _ _ nothing (
      Ends-bind Honest (power_request p) _ λ mine.
        Ends-if Honest mine _ _
          (Ends-bind Honest (power_query size p) _ λ (count, offset). Ends-if Honest _ _ _ nothing (
            Ends-bind Honest (read_attrs count offset p) _
              λ attrs. Ends-some Honest _ (answer_attrs-Honest jni 0 attrs)))
          nothing)

deliver_answer-Honest : (j : Jni) (o : Option (List ℕ)) → Honest (deliver_answer j o)
unfolding deliver_answer
deliver_answer-Honest j none = nothing-Honest
deliver_answer-Honest j (some out) = deliver-Honest j out

empty_store-Honest :
    (enabled : Bool) (j : Jni) (size : ℕ) (p : List ℕ) → Ends Honest (empty_store enabled j size p)
unfolding empty_store
empty_store-Honest enabled j size p =
    let nothing = Ends-some Honest (false, []) nothing-Honest in
    Ends-if Honest _ _ _ nothing (
      Ends-bind Honest (store_addressed p) _ λ mine.
        Ends-if Honest mine _ _
          (Ends-bind Honest (store_answer size p) _
            λ answer. Ends-some Honest _ (deliver_answer-Honest j answer))
          nothing)

-- `empty_store` is asked only where `power_on` has delivered nothing.
or_store-Honest :
    (s : Process) (size : ℕ) (p : List ℕ) (powered : Bool) (done : List Event)
    → Honest (powered, done)
    → Ends Honest (
        if powered then some (true, done) else (do
          (stored, more) ← empty_store s.store_enabled s.store_jni size p
          some (stored, done ++ more)))
or_store-Honest s size p true done h = Ends-some Honest (true, done) h
or_store-Honest s size p false done h =
    Ends-chain Honest (empty_store s.store_enabled s.store_jni size p) _
      (empty_store-Honest s.store_enabled s.store_jni size p)
      λ (stored, more) k.
        Ends-some Honest (stored, done ++ more) (append-Honest false stored done more h k)

pub answer_packet-Honest :
    (s : Process) (size : ℕ) (p : List ℕ) → Ends Honest (answer_packet s size p)
unfolding answer_packet
answer_packet-Honest s size p =
    Ends-chain Honest (power_on s.power_enabled s.power_jni size p) _
      (power_on-Honest s.power_enabled s.power_jni size p)
      λ (powered, done). or_store-Honest s size p powered done
