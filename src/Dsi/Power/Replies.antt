-- ===== src/Dsi/Power/Replies.antt =====
-- The answers of `power_on` of guest/dsi/trace.c, and its reads of the packet.
use vw_firmware_mac.Base.{sym, word, ◌/◌, ◌%◌, ◌^◌, none, get_elem?}
use vw_firmware_mac.Base.{
  ℕ, zero, suc, ◌+◌, ◌*◌, ◌≤◌, ◌≡◌, refl, ap, ◌⊎◌, inl, inr, Bool-cases, arith,
}
use vw_firmware_mac.Base.{
  List, [], ◌∷◌, Option, some, Bool, true, false, length, IsU32, subst, if◌then◌else◌, ◌==◌, ◌||◌,
  ◌&&◌, not, leb, ltb, u32_at, word_le32,
}
use vw_firmware_mac.Dsi.Bytes.{
  u32_in_lem, Total, Total-bind, Total-if, Total-some, get_elem?-Total, u32_in-Total, Total-chain,
  Ends, Ends-bind, Ends-if, Ends-some, u32_in,
}
use vw_firmware_mac.Dsi.Jni.{Jni}
use vw_firmware_mac.Dsi.Power.{
  power_reply, power_query, read_attrs, answer_attrs, power_request, answer_query, power_on,
}

-- The value of the attributes that have one word for it.
abbrev IsLevel : ℕ → ℕ → Type 0
IsLevel attr value =
    ((attr ≡ 3) × (value ≡ 0))
    ⊎ (((attr ≡ 5) × (value ≡ 0)) ⊎ (((attr ≡ 6) × (value ≡ 1)) ⊎ ((attr ≡ 9) × (value ≡ 2))))

-- The size and the value of an answer: the state 1 with the event 7 for the attributes 1 and 2, a word
-- for 3, 5, 6 and 9, the byte 0 for 7, 8 and 11, each before the word 1 for a valid value.
abbrev pub IsValue : ℕ → List ℕ → Type 0
IsValue attr out =
    (((attr ≡ 1) ⊎ (attr ≡ 2))
      × ((length out ≡ 24) × ((u32_at out 12 ≡ 1) × ((u32_at out 16 ≡ 7) × (u32_at out 20 ≡ 1)))))
    ⊎ ((IsLevel attr (u32_at out 12) × ((length out ≡ 20) × (u32_at out 16 ≡ 1)))
        ⊎ (((attr ≡ 7) ⊎ ((attr ≡ 8) ⊎ (attr ≡ 11)))
            × ((length out ≡ 17) × ((get_elem? out 12 ≡ some 0) × (u32_at out 13 ≡ 1)))))

-- A whole answer about `attr`: addressed like the HMI expects it, with the attribute behind the
-- address, and its value.
pub record IsReply (attr : ℕ) (out : List ℕ) : Type 0 where
  pub service : u32_at out 0 ≡ 0x02040800
  pub interface : u32_at out 4 ≡ 0xa63ff7f4
  pub attribute : u32_at out 8 ≡ attr
  pub value : IsValue attr out

abbrev pub has_value : ℕ → Bool
has_value attr = (leb 1 attr && leb attr 3) || ((leb 5 attr && leb attr 9) || attr == 11)

-- What is answered about `attr`: an answer exactly for the attributes that have a value.
abbrev pub IsAnswer : ℕ → Option (List ℕ) → Type 0
IsAnswer attr o =
    ((out : List ℕ) × (o ≡ some out) × (has_value attr ≡ true) × IsReply attr out)
    ⊎ ((o ≡ none) × (has_value attr ≡ false))

IsAnswer-if :
    (attr : ℕ) (b : Bool) (m k : Option (List ℕ))
    → (b ≡ true → IsAnswer attr m)
    → (b ≡ false → IsAnswer attr k)
    → IsAnswer attr (if b then m else k)
IsAnswer-if attr true m k hm hk = hm refl
IsAnswer-if attr false m k hm hk = hk refl

IsAnswer-some :
    (attr : ℕ) (out : List ℕ)
    → has_value attr ≡ true
    → u32_at out 0 ≡ 0x02040800
    → u32_at out 4 ≡ 0xa63ff7f4
    → u32_at out 8 ≡ attr
    → IsValue attr out
    → IsAnswer attr (some out)
IsAnswer-some attr out h service interface attribute value = inl (
  out,
  refl,
  h,
  record { service = service; interface = interface; attribute = attribute; value = value },
)

-- A small word, as its four bytes are read.
abbrev word_of : ℕ → ℕ
word_of v = word (v % 256) (v / 256 % 256) (v / 65536 % 256) (v / 16777216 % 256)

small-IsLevel :
    (attr : ℕ)
    → (attr == 3 || (attr == 5 || (attr == 6 || attr == 9))) ≡ true
    → IsLevel attr (if attr == 6 then 1 else (if attr == 9 then 2 else 0))
small-IsLevel attr e = ground arith

-- The word written for the attributes 3, 5, 6 and 9.
word_of-IsLevel :
    (attr : ℕ)
    → (attr == 3 || (attr == 5 || (attr == 6 || attr == 9))) ≡ true
    → IsLevel attr (word_of (if attr == 6 then 1 else (if attr == 9 then 2 else 0)))
unfolding u32_at
word_of-IsLevel attr e =
    let v = if attr == 6 then 1 else (if attr == 9 then 2 else 0) in
    subst (IsLevel attr) (sym (word_le32 v (ground arith))) (small-IsLevel attr e)

-- An attribute that is a word has an answer exactly if it is one of 1, 2, 3, 5, 6, 7, 8, 9 and 11.
-- The answer is addressed to the HMI and names the attribute. It is 24 bytes with the state 1, the
-- event 7 and the word 1 for the attributes 1 and 2; 20 bytes with the value 0 for 3 and 5, 1 for 6
-- and 2 for 9, and the word 1; 17 bytes with the byte 0 and the word 1 for 7, 8 and 11.
pub power_reply-IsReply : (attr : ℕ) → IsU32 attr → IsAnswer attr (power_reply attr)
unfolding power_reply u32_at
power_reply-IsReply attr h =
    IsAnswer-if attr (attr == 1 || attr == 2) _ _
      (λ e.
        IsAnswer-some attr _ (ground arith) refl refl (word_le32 attr h)
          (inl (ground arith, (refl, (refl, (refl, refl))))))
      λ e1.
        IsAnswer-if attr (attr == 3 || (attr == 5 || (attr == 6 || attr == 9))) _ _
          (λ e.
            IsAnswer-some attr _ (ground arith) refl refl (word_le32 attr h)
              (inr (inl (word_of-IsLevel attr e, (refl, refl)))))
          λ e2.
            IsAnswer-if attr (attr == 7 || (attr == 8 || attr == 11)) _ _
              (λ e.
                IsAnswer-some attr _ (ground arith) refl refl (word_le32 attr h)
                  (inr (inr (ground arith, (refl, (refl, refl))))))
              λ e3. inr (refl, ground arith)

read_attrs-total :
    (count offset : ℕ) (p : List ℕ)
    → offset + count * 4 ≤ length p
    → (attrs : List ℕ) × (read_attrs count offset p ≡ some attrs) × (length attrs ≡ count)
unfolding read_attrs
read_attrs-total zero offset p h = ([], refl, refl)
read_attrs-total (suc count) offset p h =
    let (attrs, e, n) = read_attrs-total count (offset + 4) p (omega arith) in
    (u32_at p offset ∷ attrs, ground (arith, u32_in_lem p offset, e), ap suc n)

power_query-Total :
    (size : ℕ) (p : List ℕ) → size ≤ length p → 16 ≤ size → Total (power_query size p)
unfolding power_query
power_query-Total size p l h = Total-bind (u32_in-Total p 8 (omega arith)) λ event.
    Total-if (event == 0 && leb 17 size)
      (λ long. Total-bind (get_elem?-Total p 12 (ground arith)) λ notify.
        Total-if (notify == 1)
          (λ one. Total-bind (u32_in-Total p 13 (ground arith)) λ count. Total-some (count, 17))
          (λ other. Total-some (0, 0)))
      (λ short. Total-some (if event == 3839 then (1, 12) else (0, 0)))

-- The attributes begin no later than at byte 17.
power_query-offset : (size : ℕ) (p : List ℕ) → Ends (λ q. q.1 ≤ 17) (power_query size p)
unfolding power_query
power_query-offset size p =
    let P : ℕ × ℕ → Type 0 = λ q. q.1 ≤ 17 in
    Ends-bind P (u32_in p 8) _ λ event.
      Ends-if P (event == 0 && leb 17 size) _ _
        (Ends-bind P (get_elem? p 12) _ λ notify.
          Ends-if P (notify == 1) _ _
            (Ends-bind P (u32_in p 13) _ λ count. Ends-some P (count, 17) (omega arith))
            (Ends-some P (0, 0) (omega arith)))
        (Ends-some P (if event == 3839 then (1, 12) else (0, 0)) (ground arith))

answer_query-Total :
    (jni : ℕ → Jni) (size : ℕ) (p : List ℕ) (count offset : ℕ)
    → size ≤ length p
    → offset ≤ 17
    → Total (answer_query jni size p count offset)
unfolding answer_query
answer_query-Total jni size p count offset l o =
    elim (Bool-cases (ltb 16 count || ltb size ((offset + count * 4) % 2 ^ 32))) [
      | inl big ↦ ((false, []), rw big)
      | inr fits ↦
          let (attrs, e, n) = read_attrs-total count offset p (ground arith) in
          (answer_attrs jni 0 attrs, rw (fits, e))
    ]

power_request-Total : (p : List ℕ) → 16 ≤ length p → Total (power_request p)
unfolding power_request
power_request-Total p h =
    Total-bind (u32_in-Total p 0 (omega arith))
      λ service. Total-bind (u32_in-Total p 4 (omega arith)) λ interface. Total-some _

-- On a packet of any size and content, held whole, `power_on` returns without a read past its end.
pub power_on-Total :
    (enabled : Bool) (jni : ℕ → Jni) (size : ℕ) (p : List ℕ)
    → size ≤ length p
    → Total (power_on enabled jni size p)
unfolding power_on
power_on-Total enabled jni size p l =
    Total-if (not enabled || ltb size 16) (λ off. Total-some (false, []))
      (λ long. Total-bind (power_request-Total p (ground arith)) λ mine.
        Total-if mine
          (λ ours.
            Total-chain (power_query-Total size p l (ground arith))
              λ q e. answer_query-Total jni size p q.0 q.1 l (power_query-offset size p q e))
          (λ other. Total-some (false, [])))
