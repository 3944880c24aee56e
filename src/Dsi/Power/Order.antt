-- ===== src/Dsi/Power/Order.antt =====
-- A request for several attributes, and the answers of `power_on` of guest/dsi/trace.c to it.
use vw_firmware_mac.Base.{
  ℕ, ◌+◌, ◌*◌, ◌%◌, ◌^◌, ◌≤◌, ◌≡◌, refl, sym, ap, ◌∙◌, arith, List, [], ◌∷◌, ◌++◌, Option, none,
  some, Bool, true, append_assoc,
}
use vw_firmware_mac.Base.{
  length, length-append, All, IsU32, le32, word_le32, u32_at, u32_at-append_right, le→ltb_false,
  ◌||◌,
}
use vw_firmware_mac.Dsi.Bytes.{u32_in, u32_in_lem}
use vw_firmware_mac.Dsi.Jni.{
  Jni, Event, deliver, record_line, received, logged, forwarded, thrown, pushed, popped,
  input_wanted,
}
use vw_firmware_mac.Dsi.Power.{
  power_reply, power_query, read_attrs, answer_attrs, power_request, answer_query, power_on,
}

-- The packets that the dispatcher was handed, in order.
unfoldable pub deliveries : List Event → List (List ℕ)
deliveries [] = []
deliveries (received bytes ∷ es) = bytes ∷ deliveries es
deliveries (logged l n bytes ∷ es) = deliveries es
deliveries (pushed ∷ es) = deliveries es
deliveries (popped ∷ es) = deliveries es
deliveries (forwarded ∷ es) = deliveries es
deliveries (thrown ∷ es) = deliveries es
deliveries (input_wanted ∷ es) = deliveries es

-- One answer for each attribute that has one.
unfoldable pub replies : List ℕ → List (List ℕ)
replies [] = []
replies (attr ∷ attrs) = elim (power_reply attr) [
  | none ↦ replies attrs
  | some out ↦ out ∷ replies attrs
]

-- A Java VM in which every call of `deliver` up to `receiveFromApp` succeeds.
pub record Reaches (j : Jni) : Type 0 where
  pub frame : j.frame ≡ true
  pub classes : j.classes ≡ true
  pub methods : j.methods ≡ true
  pub dispatcher : j.dispatcher ≡ true
  pub buffer : j.buffer ≡ true
  pub array : j.array ≡ true
  pub region : j.region ≡ true

pub deliveries-append :
    (xs ys : List Event) → deliveries (xs ++ ys) ≡ deliveries xs ++ deliveries ys
unfolding deliveries
deliveries-append [] ys = refl
deliveries-append (received bytes ∷ xs) ys = ap (λ r. bytes ∷ r) (deliveries-append xs ys)
deliveries-append (logged l n bytes ∷ xs) ys = deliveries-append xs ys
deliveries-append (pushed ∷ xs) ys = deliveries-append xs ys
deliveries-append (popped ∷ xs) ys = deliveries-append xs ys
deliveries-append (forwarded ∷ xs) ys = deliveries-append xs ys
deliveries-append (thrown ∷ xs) ys = deliveries-append xs ys
deliveries-append (input_wanted ∷ xs) ys = deliveries-append xs ys

pub deliveries-deliver :
    (j : Jni) (out : List ℕ) → Reaches j → deliveries (deliver j out).1 ≡ out ∷ []
unfolding deliveries deliver record_line
deliveries-deliver j out h =
    ground (arith, h.frame, h.classes, h.methods, h.dispatcher, h.buffer, h.array, h.region)

deliveries-answer_attrs :
    (jni : ℕ → Jni) (i : ℕ) (attrs : List ℕ)
    → ((k : ℕ) → Reaches (jni k))
    → deliveries (answer_attrs jni i attrs).1 ≡ replies attrs
unfolding answer_attrs replies
deliveries-answer_attrs jni i [] h = unfold deliveries in refl
deliveries-answer_attrs jni i (attr ∷ attrs) h =
    at_reply (power_reply attr) (deliveries-answer_attrs jni i attrs h)
      (deliveries-answer_attrs jni (i + 1) attrs h)
  where
    at_reply :
        (o : Option (List ℕ))
        → deliveries (answer_attrs jni i attrs).1 ≡ replies attrs
        → deliveries (answer_attrs jni (i + 1) attrs).1 ≡ replies attrs
        → deliveries
            (elim o as (λ _. Bool × List Event) [
              | none ↦ answer_attrs jni i attrs
              | some out ↦ (
                (deliver (jni i) out).0 || (answer_attrs jni (i + 1) attrs).0,
                (deliver (jni i) out).1 ++ (answer_attrs jni (i + 1) attrs).1,
              )
            ]).1
          ≡ elim o as (λ _. List (List ℕ)) [ none ↦ replies attrs | some out ↦ out ∷ replies attrs ]
    at_reply none same next = same
    at_reply (some out) same next =
        deliveries-append (deliver (jni i) out).1 (answer_attrs jni (i + 1) attrs).1
        ∙ ap (λ d. d ++ deliveries (answer_attrs jni (i + 1) attrs).1)
            (deliveries-deliver (jni i) out (h i))
        ∙ ap (λ r. out ∷ r) next

-- The words of the attributes.
abbrev pub attrs_bytes : List ℕ → List ℕ
attrs_bytes [] = []
attrs_bytes (attr ∷ attrs) = le32 attr ++ attrs_bytes attrs

length-attrs_bytes : (attrs : List ℕ) → length (attrs_bytes attrs) ≡ 4 * length attrs
unfolding le32
length-attrs_bytes [] = refl
length-attrs_bytes (attr ∷ attrs) = omega (arith, length-attrs_bytes attrs)

pub u32_at-le32 : (a : ℕ) (rest : List ℕ) → IsU32 a → u32_at (le32 a ++ rest) 0 ≡ a
unfolding u32_at le32
u32_at-le32 a rest h = word_le32 a h

pub length-le32 : (a : ℕ) → length (le32 a) ≡ 4
unfolding le32
length-le32 a = refl

read_attrs-append :
    (front attrs : List ℕ) (offset : ℕ)
    → offset ≡ length front
    → All IsU32 attrs
    → read_attrs (length attrs) offset (front ++ attrs_bytes attrs) ≡ some attrs
unfolding read_attrs
read_attrs-append front [] offset e h = refl
read_attrs-append front (attr ∷ attrs) offset e h =
    let rest = le32 attr ++ attrs_bytes attrs in
    let first : u32_in (front ++ rest) offset ≡ some attr =
      u32_in_lem (front ++ rest) offset (
        omega (
          arith,
          length-append front rest,
          length-append (le32 attr) (attrs_bytes attrs),
          length-le32 attr,
        ))
      ∙ ap some (
          u32_at-append_right front rest 0 offset (omega arith)
          ∙ u32_at-le32 attr (attrs_bytes attrs) h.0) in
    let others : read_attrs (length attrs) (offset + 4) (front ++ rest) ≡ some attrs =
      ap (read_attrs (length attrs) (offset + 4))
        (sym (append_assoc front (le32 attr) (attrs_bytes attrs)))
      ∙ read_attrs-append (front ++ le32 attr) attrs (offset + 4)
          (omega (arith, length-append front (le32 attr), length-le32 attr)) h.1 in
    rw first (rw others refl)

-- A registration for attributes: the event 0, the flag 1, their number and the attributes.
abbrev pub registration_head : ℕ → List ℕ
registration_head count = 0 ∷ 0 ∷ 4 ∷ 2 ∷ 0xf4 ∷ 0xf7 ∷ 0x3f ∷ 0xa6 ∷ 0 ∷ 0 ∷ 0 ∷ 0 ∷ 1 ∷ le32 count

abbrev pub registration : List ℕ → List ℕ
registration attrs = registration_head (length attrs) ++ attrs_bytes attrs

module _ (attrs : List ℕ) where
  length-registration : length (registration attrs) ≡ 17 + 4 * length attrs
  unfolding le32
  length-registration = omega (arith, length-attrs_bytes attrs)

  registration-power_request : power_request (registration attrs) ≡ some true
  unfolding power_request u32_at
  registration-power_request =
      rw
        (
          u32_in_lem (registration attrs) 0 (omega (arith, length-registration)),
          u32_in_lem (registration attrs) 4 (omega (arith, length-registration)),
        )
        refl

  registration-power_query :
      length attrs ≤ 16
      → power_query (length (registration attrs)) (registration attrs) ≡ some (length attrs, 17)
  unfolding power_query u32_at le32
  registration-power_query few =
      rw
        (
          u32_in_lem (registration attrs) 8 (omega (arith, length-registration)),
          u32_in_lem (registration attrs) 13 (omega (arith, length-registration)),
          word_le32 (length attrs) (omega arith),
        )
        (ground arith)

  registration-answer_query :
      (jni : ℕ → Jni)
      → length attrs ≤ 16
      → All IsU32 attrs
      → answer_query jni (length (registration attrs)) (registration attrs) (length attrs) 17
        ≡ some (answer_attrs jni 0 attrs)
  unfolding answer_query
  registration-answer_query jni few words =
      let head = registration_head (length attrs) in
      rw
        (
          le→ltb_false 16 (length attrs) few,
          le→ltb_false (length (registration attrs)) ((17 + length attrs * 4) % 2 ^ 32)
              (omega (arith, length-registration)),
          read_attrs-append head attrs 17 (unfold le32 in refl) words,
        )
        refl

-- A registration for at most 16 attributes, with a Java VM in which every call up to `receiveFromApp`
-- succeeds, is answered with the packets for those attributes that have one, in their order.
pub power_on-registration :
    (jni : ℕ → Jni) (attrs : List ℕ)
    → length attrs ≤ 16
    → All IsU32 attrs
    → ((k : ℕ) → Reaches (jni k))
    → (answered : Bool) × (events : List Event) × (power_on true jni
          (length (registration attrs))
          (registration attrs)
        ≡ some (answered, events))
      × (deliveries events ≡ replies attrs)
unfolding power_on
power_on-registration jni attrs few words h =
    let p = registration attrs in
    let (done, events) = answer_attrs jni 0 attrs in
    let e : power_on true jni (length p) p ≡ some (answer_attrs jni 0 attrs) =
      rw
        (
          le→ltb_false (length p) 16 (omega (arith, length-registration attrs)),
          registration-power_request attrs,
          registration-power_query attrs few,
          registration-answer_query attrs jni few words,
        )
        refl in
    (done, events, e, deliveries-answer_attrs jni 0 attrs h)
