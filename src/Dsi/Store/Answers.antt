-- ===== src/Dsi/Store/Answers.antt =====
-- The answers of `empty_store` of guest/dsi/trace.c, and its reads of the packet.
use vw_firmware_mac.Base.{
  ℕ, suc, ◌+◌, ◌%◌, ◌≤◌, ◌≡◌, ◌≢◌, refl, sym, ap, ◌∙◌, ◌⊎◌, inl, inr, Bool-cases, arith,
}
use vw_firmware_mac.Base.{
  ◌<◌, none, false, ◌∷◌, List, [], ◌++◌, some, Bool, false, not, length, take, drop, u32_at,
  word_le32, u32_at-append_left, take-append, drop-append, le32, ltb, leb, ◌==◌, ◌&&◌, ◌||◌,
  length-take, length-drop, subst,
}
use vw_firmware_mac.Dsi.Bytes.{
  Total, Total-bind, Total-if, Total-some, get_elem?-Total, u32_in-Total, bytes_in_lem,
  bytes_in-Total, put32,
}
use vw_firmware_mac.Dsi.Jni.{Jni}
use vw_firmware_mac.Dsi.Store.{
  asks_state, echo_head, answer_tail, request_answer, store_answer, store_addressed, empty_store,
  store_header, response_of,
}

asks_state-Total :
    (event size : ℕ) (p : List ℕ) → size ≤ length p → 12 ≤ size → Total (asks_state event size p)
unfolding asks_state
asks_state-Total event size p l h =
    Total-if (event == 0 && size == 21)
      (λ state. Total-bind (get_elem?-Total p 12 (ground arith)) λ notify.
        Total-bind (u32_in-Total p 13 (ground arith))
          λ count. Total-bind (u32_in-Total p 17 (ground arith)) λ attr. Total-some _)
      (λ other.
        Total-if (event == 3839 && leb 16 size)
          (λ long. Total-bind (u32_in-Total p 12 (ground arith)) λ attr. Total-some _)
          (λ short. Total-some _))

request_answer-Total :
    (response size : ℕ) (p : List ℕ) → size ≤ length p → Total (request_answer response size p)
unfolding request_answer echo_head
request_answer-Total response size p l =
    Total-if (leb 1000 response && (leb response 1009 && leb 24 size))
      (λ numbered.
        Total-bind (Total-bind (bytes_in-Total p 12 12 (ground arith)) λ echo. Total-some _)
          λ head. Total-some _)
      (λ other. Total-some _)

store_answer-Total :
    (size : ℕ) (p : List ℕ) → size ≤ length p → 12 ≤ size → Total (store_answer size p)
unfolding store_answer
store_answer-Total size p l h = Total-bind (u32_in-Total p 8 (omega arith)) λ event.
    Total-bind (asks_state-Total event size p l h) λ state.
      Total-if state (λ asked. Total-some _)
        (λ other. request_answer-Total (response_of event) size p l)

-- On a packet of any size and content, held whole, `empty_store` returns without a read past its
-- end.
pub empty_store-Total :
    (enabled : Bool) (j : Jni) (size : ℕ) (p : List ℕ)
    → size ≤ length p
    → Total (empty_store enabled j size p)
unfolding empty_store store_addressed
empty_store-Total enabled j size p l =
    Total-if (not enabled || ltb size 12) (λ off. Total-some (false, []))
      (λ long.
        Total-bind
          (Total-bind (u32_in-Total p 0 (ground arith))
            λ service. Total-bind (u32_in-Total p 4 (ground arith)) λ interface. Total-some _)
          λ mine.
            Total-if mine
              (λ ours.
                Total-bind (store_answer-Total size p l (ground arith)) λ answer. Total-some _)
              (λ other. Total-some (false, [])))

-- What stands behind the 24 bytes of an answer: the status 6 for a write (an even number); for a read
-- the word 0 for the request 1001, the byte 0 for another one, and the status 2.
abbrev pub IsStatus : ℕ → List ℕ → Type 0
IsStatus response tail =
    ((response % 2 ≡ 0) × (tail ≡ le32 6))
    ⊎ (((response ≡ 1001) × (tail ≡ le32 0 ++ le32 2))
        ⊎ ((response % 2 ≡ 1) × ((response ≢ 1001) × (tail ≡ 0 ∷ le32 2))))

-- The answer to request number `response`: its number plus 1000, the 12 bytes of the request that
-- identify it, and the status.
pub record IsStoreAnswer (response : ℕ) (p out : List ℕ) : Type 0 where
  pub service : u32_at out 0 ≡ 0x0203b800
  pub interface : u32_at out 4 ≡ 0x57f18c24
  pub number : u32_at out 8 ≡ response + 1000
  pub echo : take 12 (drop 12 out) ≡ take 12 (drop 12 p)
  pub status : IsStatus response (drop 24 out)

-- The status behind the first 24 bytes.
tail_words : (response : ℕ) → IsStatus response (answer_tail response)
unfolding answer_tail le32
tail_words response = elim (Bool-cases (response % 2 == 0)) [
  | inl even ↦ rw even (inl (ground arith, refl))
  | inr odd ↦ rw odd (elim (Bool-cases (response == 1001)) [
    | inl first ↦ rw first (inr (inl (ground arith, refl)))
    | inr other ↦ rw other (inr (inr (ground arith, (ground arith, refl))))
  ])
]

-- The first 24 bytes of an answer.
abbrev head_of : ℕ → List ℕ → List ℕ
head_of response p = take 12 (put32 store_header 8 (response + 1000)) ++ take 12 (drop 12 p)

module _ (response : ℕ) (p : List ℕ) (small : response ≤ 1009) (long : 24 ≤ length p) where
  length-echo : length (take 12 (drop 12 p)) ≡ 12
  length-echo = omega (arith, length-take 12 (drop 12 p), length-drop 12 p)

  length-head_of : length (head_of response p) ≡ 24
  unfolding put32 store_header
  length-head_of =
      ap (λ n. suc (suc (suc (suc (suc (suc (suc (suc (suc (suc (suc (suc n)))))))))))) length-echo

  head_word :
      (i : ℕ)
      → i + 4 ≤ 24
      → u32_at (head_of response p ++ answer_tail response) i ≡ u32_at (head_of response p) i
  head_word i h =
      u32_at-append_left (head_of response p) (answer_tail response) i
        (omega (arith, length-head_of))

  answer-IsStoreAnswer : IsStoreAnswer response p (head_of response p ++ answer_tail response)
  answer-IsStoreAnswer = record {
    service = head_word 0 (omega arith) ∙ (unfold u32_at put32 store_header in refl);
    interface = head_word 4 (omega arith) ∙ (unfold u32_at put32 store_header in refl);
    number =
        head_word 8 (omega arith)
        ∙ (unfold u32_at put32 store_header in word_le32 (response + 1000) (omega arith));
    echo =
        unfold put32 store_header in
        take-append 12 (take 12 (drop 12 p)) (answer_tail response) (sym length-echo);
    status =
        subst (IsStatus response)
          (sym (drop-append 24 (head_of response p) (answer_tail response) (sym length-head_of)))
          (tail_words response);
  }

-- A numbered request with its 24 bytes is answered, and nothing else is.
pub request_answer-cases :
    (response size : ℕ) (p : List ℕ)
    → size ≤ length p
    → ((1000 ≤ response)
        × ((response ≤ 1009)
            × ((24 ≤ size)
                × ((out : List ℕ) × (request_answer response size p ≡ some (some out))
                    × IsStoreAnswer response p out))))
      ⊎ ((request_answer response size p ≡ some none)
          × ((response < 1000) ⊎ ((1009 < response) ⊎ (size < 24))))
unfolding request_answer echo_head
request_answer-cases response size p l =
    elim (Bool-cases (leb 1000 response && (leb response 1009 && leb 24 size))) [
      | inl numbered ↦
          let long : 24 ≤ length p = ground arith in
          inl (
            ground arith,
            (
              ground arith,
              (
                ground arith,
                (
                  _,
                  rw (numbered, bytes_in_lem p 12 12 long) refl,
                  answer-IsStoreAnswer response p (ground arith) long,
                ),
              ),
            ),
          )
      | inr other ↦ inr (rw other refl, ground arith)
    ]
