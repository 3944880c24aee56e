-- ===== src/Dsi/Store/Requests.antt =====
-- Which packets `empty_store` of guest/dsi/trace.c answers, and with what.
use vw_firmware_mac.Base.{
  ℕ, ◌+◌, ◌*◌, ◌≤◌, ◌<◌, ◌≡◌, refl, ap, ◌⊎◌, inl, inr, Bool-cases, arith, get_elem?, true, none,
  false, Option, List, ◌++◌, length, some, u32_at, le32, leb, le→ltb_false, ◌==◌, ◌&&◌,
}
use vw_firmware_mac.Dsi.Bytes.{get_elem?-Total, put32, u32_in_lem}
use vw_firmware_mac.Dsi.Jni.{Jni}
use vw_firmware_mac.Dsi.Store.{
  asks_state, store_answer, store_header, state_answer, response_of, store_addressed,
  deliver_answer, empty_store,
}
use vw_firmware_mac.Dsi.Store.Answers.{IsStoreAnswer, request_answer-cases}

-- The packets that ask for the state: a registration of 21 bytes for the attribute 1 alone, the event
-- 3839 for the attribute 1, and the event 1016.
abbrev pub AsksState : ℕ → List ℕ → Type 0
AsksState size p =
    ((u32_at p 8 ≡ 0)
      × ((size ≡ 21) × ((get_elem? p 12 ≡ some 1) × ((u32_at p 13 ≡ 1) × (u32_at p 17 ≡ 1)))))
    ⊎ (((u32_at p 8 ≡ 3839) × ((16 ≤ size) × (u32_at p 12 ≡ 1))) ⊎ (u32_at p 8 ≡ 1016))

-- The number of a request: the event, and 1001, 1003, 1005, 1007 and 1009 for 1019 to 1023.
abbrev pub IsNumber : ℕ → ℕ → Type 0
IsNumber event response =
    ((1000 ≤ event) × ((event ≤ 1009) × (response ≡ event)))
    ⊎ ((1019 ≤ event) × ((event ≤ 1023) × (response + 1037 ≡ 2 * event)))

abbrev pub IsNoNumber : ℕ → Type 0
IsNoNumber event = (event < 1000) ⊎ (((1009 < event) × (event < 1019)) ⊎ (1023 < event))

-- The answer about the state: 20 bytes with three words 1 behind the address.
abbrev pub state_bytes : List ℕ
state_bytes = le32 0x0203b800 ++ le32 0x57f18c24 ++ le32 1 ++ le32 1 ++ le32 1

-- `asks_state` decides `AsksState`.
asks_state-cases :
    (size : ℕ) (p : List ℕ)
    → size ≤ length p
    → 12 ≤ size
    → ((asks_state (u32_at p 8) size p ≡ some true) × AsksState size p)
      ⊎ ((asks_state (u32_at p 8) size p ≡ some false) × ¬ (AsksState size p))
unfolding asks_state
asks_state-cases size p l h = elim (Bool-cases (u32_at p 8 == 0 && size == 21)) [
  | inl state ↦
      let (notify, e) = get_elem?-Total p 12 (ground arith) in
      rw (state, e, u32_in_lem p 13 (ground arith), u32_in_lem p 17 (ground arith))
        (elim (Bool-cases (notify == 1 && (u32_at p 13 == 1 && u32_at p 17 == 1))) [
          | inl asked ↦ inl (ap some asked, inl (ground arith))
          | inr other ↦ inr (ap some other, λ a. ground arith)
        ])
  | inr no_state ↦ elim (Bool-cases (u32_at p 8 == 3839 && leb 16 size)) [
    | inl event ↦
        rw (no_state, event, u32_in_lem p 12 (ground arith))
          (elim (Bool-cases (u32_at p 12 == 1)) [
            | inl asked ↦ inl (ap some asked, ground arith)
            | inr other ↦ inr (ap some other, λ a. ground arith)
          ])
    | inr no_event ↦
        rw (no_state, no_event)
          (elim (Bool-cases (u32_at p 8 == 1016)) [
            | inl asked ↦ inl (ap some asked, ground arith)
            | inr other ↦ inr (ap some other, λ a. ground arith)
          ])
  ]
]

-- What `store_answer` does with a packet: the 20 bytes of the state for a packet that asks for it; for
-- a numbered request with its 24 bytes the answer to it; nothing for any other.
abbrev pub IsAnswer : ℕ → List ℕ → Option (List ℕ) → Type 0
IsAnswer size p o =
    (AsksState size p × (o ≡ some state_bytes))
    ⊎ ((¬ (AsksState size p)
          × ((response : ℕ) × (out : List ℕ) × (o ≡ some out)
              × (IsNumber (u32_at p 8) response × ((24 ≤ size) × IsStoreAnswer response p out))))
        ⊎ (¬ (AsksState size p) × ((o ≡ none) × ((size < 24) ⊎ IsNoNumber (u32_at p 8)))))

response_of-IsNumber :
    (event : ℕ)
    → 1000 ≤ response_of event
    → response_of event ≤ 1009
    → IsNumber event (response_of event)
unfolding response_of
response_of-IsNumber event h k = ground arith

response_of-IsNoNumber :
    (event : ℕ) → (response_of event < 1000) ⊎ (1009 < response_of event) → IsNoNumber event
unfolding response_of
response_of-IsNoNumber event h = ground arith

-- `store_answer` reads nothing past the packet's end.
store_answer-IsAnswer :
    (size : ℕ) (p : List ℕ)
    → size ≤ length p
    → 12 ≤ size
    → (o : Option (List ℕ)) × (store_answer size p ≡ some o) × IsAnswer size p o
unfolding store_answer
store_answer-IsAnswer size p l h =
    rw (u32_in_lem p 8 (omega arith)) (elim (asks_state-cases size p l h) [
      | inl (e, asked) ↦
          rw e (_, refl, inl (asked, unfold state_answer put32 store_header le32 in refl))
      | inr (e, other) ↦ rw e (elim (request_answer-cases (response_of (u32_at p 8)) size p l) [
        | inl (from, (to, (long, (out, done, answer)))) ↦ (
          some out,
          done,
          inr (
              inl (
                other,
                (_, out, refl, (response_of-IsNumber (u32_at p 8) from to, (long, answer))),
              )),
        )
        | inr (done, why) ↦ (none, done, inr (inr (other, (refl, no_number why))))
      ])
    ])
  where
    no_number :
        ((response_of (u32_at p 8) < 1000) ⊎ ((1009 < response_of (u32_at p 8)) ⊎ (size < 24)))
        → (size < 24) ⊎ IsNoNumber (u32_at p 8)
    no_number (inl low) = inr (response_of-IsNoNumber (u32_at p 8) (inl low))
    no_number (inr (inl high)) = inr (response_of-IsNoNumber (u32_at p 8) (inr high))
    no_number (inr (inr short)) = inl short

-- Where `MIB_DSI_EMPTY_STORE` is "1", `empty_store` reads nothing past the end of a packet of at least
-- 12 bytes that is held whole and addressed to the store. A packet that asks for the state gets 20
-- bytes with three words 1 behind the address. Of the others, a request with 24 bytes and the number
-- 1000 to 1009, or 1019 to 1023 in place of 1001, 1003, 1005, 1007 and 1009, gets an answer: the
-- address, the number plus 1000, 12 bytes of the request from its byte 12 on, and the status: the word
-- 6 for an even number; for 1001 the words 0 and 2; for the other odd ones the byte 0 and the word 2.
-- Any other packet gets none. The answer is handed to `deliver`.
pub empty_store-IsAnswer :
    (j : Jni) (size : ℕ) (p : List ℕ)
    → size ≤ length p
    → 12 ≤ size
    → u32_at p 0 ≡ 0x0203b000
    → u32_at p 4 ≡ 0x57f18c24
    → (o : Option (List ℕ)) × (empty_store true j size p ≡ some (deliver_answer j o))
      × IsAnswer size p o
unfolding empty_store store_addressed
empty_store-IsAnswer j size p l h service interface =
    let (o, e, answer) = store_answer-IsAnswer size p l h in
    (
      o,
      rw
          (
            le→ltb_false size 12 h,
            u32_in_lem p 0 (omega arith),
            u32_in_lem p 4 (omega arith),
            service,
            interface,
            e,
          )
          refl,
      answer,
    )
