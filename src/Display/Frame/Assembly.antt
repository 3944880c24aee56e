-- ===== src/Display/Frame/Assembly.antt =====
-- Frames that arrive in pieces (`read_frame` of runtime/qemu-display/mib-display.c).
use vw_firmware_mac.Base.{
  ℕ, ◌+◌, ◌-◌, ◌≤◌, ◌<◌, ◌≡◌, refl, sym, ap, ◌∙◌, inl, inr, Bool-cases, arith,
}
use vw_firmware_mac.Base.{
  List, [], ◌∷◌, ◌++◌, true, false, length, take, drop, ltb, ◌==◌, length-append, length-take,
  length-drop, take-append, take_all, ltb→lt, append_assoc, append-nil, subst,
}
use mathlib.Core.Option.{some-injective, none-ne-some}
use vw_firmware_mac.Base.{length-replicate, subst, some, Bool, true, false}
use vw_firmware_mac.Display.Frame.{
  realize, paint, zeroed, Receiver, overlay_at, can_read, is_frame_header, read_header, read_pixels,
  read_frame, frame_bytes,
}

-- The buffers have their sizes, `received` stays below a whole frame, and pixels are only taken
-- behind a good header.
pub record IsValid (s : Receiver) : Type 0 where
  pub header_size : length s.header ≡ 8
  pub pixels_size : length s.pixels ≡ frame_bytes
  pub bound : s.received < frame_bytes + 8
  pub good_header : 8 ≤ s.received → is_frame_header s.header ≡ true
  pub phase : s.spinner_phase < 12

pub length-overlay_at :
    (i : ℕ) (bytes old : List ℕ)
    → i + length bytes ≤ length old
    → length (overlay_at i bytes old) ≡ length old
unfolding overlay_at
length-overlay_at i bytes old h = omega (
  arith,
  length-append (take i old) (bytes ++ drop (i + length bytes) old),
  length-append bytes (drop (i + length bytes) old),
  length-take i old,
  length-drop (i + length bytes) old,
)

-- A piece of at most `can_read` bytes keeps a valid receiver valid: the buffers keep their sizes,
-- `received` stays below a whole frame, and pixels are only taken behind a good header.
pub read_frame-IsValid :
    (s : Receiver) (buf : List ℕ) → IsValid s → length buf ≤ can_read s → IsValid (read_frame s buf)
unfolding read_frame read_header read_pixels can_read
read_frame-IsValid s buf v h = ground (
  arith,
  length-overlay_at s.received buf s.header,
  length-overlay_at (s.received - 8) buf s.pixels,
  v.good_header,
)

-- The receiver never stops asking for bytes.
pub can_read-pos : (s : Receiver) → IsValid s → 0 < can_read s
unfolding can_read
can_read-pos s v = ground (arith, v.bound)

pub take-overlay_at :
    (i : ℕ) (bytes old done : List ℕ)
    → i ≤ length old
    → take i old ≡ done
    → take (i + length bytes) (overlay_at i bytes old) ≡ done ++ bytes
unfolding overlay_at
take-overlay_at i bytes old done h e =
    let r = drop (i + length bytes) old in
    ap (λ l. take (i + length bytes) l) (sym (append_assoc (take i old) bytes r))
    ∙ take-append (i + length bytes) (take i old ++ bytes) r
        (omega (arith, length-append (take i old) bytes, length-take i old))
    ∙ ap (λ l. l ++ bytes) e

-- The pieces of a stream, in the order in which QEMU hands them over.
abbrev pub joined : List (List ℕ) → List ℕ
joined [] = []
joined (c ∷ pieces) = c ++ joined pieces

unfoldable pub feed : Receiver → List (List ℕ) → Receiver
feed s [] = s
feed s (c ∷ pieces) = feed (read_frame s c) pieces

-- QEMU hands over at least a byte, and no more than `can_read` asks for.
abbrev pub Paced : Receiver → List (List ℕ) → Type 0
Paced s [] = Unit
Paced s (c ∷ pieces) = (0 < length c) × (length c ≤ can_read s) × Paced (read_frame s c) pieces

-- The frame is shown: painted last, and the receiver waits for the next header.
pub record Shows (payload : List ℕ) (s : Receiver) : Type 0 where
  pub received : s.received ≡ 0
  pub has_frame : s.has_frame ≡ true
  pub loading : s.loading ≡ false
  pub pixels : s.pixels ≡ payload
  pub painted : (older : List (List ℕ)) × (s.painted ≡ payload ∷ older)

joined-nil :
    (s : Receiver) (pieces : List (List ℕ)) → Paced s pieces → joined pieces ≡ [] → pieces ≡ []
joined-nil s [] h e = refl
joined-nil s ([] ∷ pieces) h e = absurd (omega arith)
joined-nil s ((x ∷ c) ∷ pieces) h e = cc

nothing_left : (l : List ℕ) → length l ≡ 0 → l ≡ []
nothing_left [] h = refl
nothing_left (x ∷ l) h = absurd (omega arith)

-- The receiver has the header and `done` of the pixels.
pub record Body (done : List ℕ) (s : Receiver) : Type 0 where
  pub received : s.received ≡ 8 + length done
  pub pixels_size : length s.pixels ≡ frame_bytes
  pub front : take (length done) s.pixels ≡ done

read_pixels-Body :
    (s : Receiver) (done c : List ℕ)
    → Body done s
    → length done + length c < frame_bytes
    → Body (done ++ c) (read_frame s c)
unfolding read_frame read_pixels
read_pixels-Body s done c b h =
    let n = length done in
    let e8 : ltb s.received 8 ≡ false = ground (arith, b.received) in
    let ew : (s.received + length c == frame_bytes + 8) ≡ false = ground (arith, b.received) in
    let ei : s.received - 8 ≡ n = omega (arith, b.received) in
    rw (e8, ew, ei)
      (record {
        received = omega (arith, b.received, length-append done c);
        pixels_size = length-overlay_at n c s.pixels (omega (arith, b.pixels_size)) ∙ b.pixels_size;
        front =
            ap (λ k. take k (overlay_at n c s.pixels)) (length-append done c)
            ∙ take-overlay_at n c s.pixels done (omega (arith, b.pixels_size)) b.front;
      })

read_pixels-Shows :
    (s : Receiver) (done c : List ℕ)
    → Body done s
    → length done + length c ≡ frame_bytes
    → Shows (done ++ c) (read_frame s c)
unfolding read_frame read_pixels
read_pixels-Shows s done c b h =
    let n = length done in
    let e8 : ltb s.received 8 ≡ false = ground (arith, b.received) in
    let ew : (s.received + length c == frame_bytes + 8) ≡ true = ground (arith, b.received) in
    let ei : s.received - 8 ≡ n = omega (arith, b.received) in
    let whole : overlay_at n c s.pixels ≡ done ++ c =
      sym (take_all (n + length c) _ (omega (arith, b.pixels_size, length-overlay_at n c s.pixels)))
      ∙ take-overlay_at n c s.pixels done (omega (arith, b.pixels_size)) b.front in
    rw (e8, ew, ei)
      (record {
        received = refl;
        has_frame = refl;
        loading = refl;
        pixels = whole;
        painted = (s.painted, ap (λ l. l ∷ s.painted) whole);
      })

-- The pixels arrive in any pieces.
pub feed-Body :
    (pieces : List (List ℕ)) (s : Receiver) (done payload : List ℕ)
    → Body done s
    → Paced s pieces
    → done ++ joined pieces ≡ payload
    → length payload ≡ frame_bytes
    → length done < frame_bytes
    → Shows payload (feed s pieces)
unfolding feed
feed-Body [] s done payload b h e n lt =
    absurd (omega (arith, ap (λ (l : List ℕ). length l) e, length-append done []))
feed-Body (c ∷ pieces) s done payload b (some_bytes, fits, paced) e n lt =
    elim (Bool-cases (ltb (length done + length c) frame_bytes)) [
      | inl more ↦
          feed-Body pieces (read_frame s c) (done ++ c) payload
            (read_pixels-Body s done c b (ground arith)) paced
            (append_assoc done c (joined pieces) ∙ e) n
            (omega (arith, length-append done c, ltb→lt _ _ more))
      | inr full ↦
          let total : length done + (length c + length (joined pieces)) ≡ frame_bytes = omega (
            arith,
            ap (λ (l : List ℕ). length l) e,
            length-append done (c ++ joined pieces),
            length-append c (joined pieces),
          ) in
          let last : joined pieces ≡ [] = nothing_left (joined pieces) (ground arith) in
          let done' = read_pixels-Shows s done c b (ground arith) in
          let end = joined-nil (read_frame s c) pieces paced last in
          subst (λ ps. Shows payload (feed (read_frame s c) ps)) (sym end)
            (subst (λ p. Shows p (read_frame s c))
              (ap (λ r. done ++ r) (sym (append-nil c) ∙ ap (λ r. c ++ r) (sym last)) ∙ e) done')
    ]

length-zeroed : (n : ℕ) → length (zeroed n) ≡ n
unfolding zeroed
length-zeroed n = length-replicate n 0

-- A device starts with a valid receiver.
realize-IsValid : (connected : Bool) (s : Receiver) → realize connected ≡ some s → IsValid s
unfolding realize paint
realize-IsValid false s e = absurd (none-ne-some s e)
realize-IsValid true s e = subst IsValid (some-injective _ s e) (record {
  header_size = refl;
  pixels_size = length-zeroed frame_bytes;
  bound = omega arith;
  good_header = λ h. absurd (omega arith);
  phase = omega arith;
})
