-- ===== src/Display/Frame/Header.antt =====
-- From the header of a frame to its last pixel (`read_frame` of
-- runtime/qemu-display/mib-display.c).
use vw_firmware_mac.Base.{
  ℕ, ◌+◌, ◌-◌, ◌≤◌, ◌<◌, ◌≡◌, refl, sym, ap, ◌∙◌, inl, inr, Bool-cases, arith,
}
use vw_firmware_mac.Base.{
  List, [], ◌∷◌, ◌++◌, true, false, length, take, drop, ltb, ltb→lt, ◌==◌, length-append, take_all,
  append_assoc, append-nil, le32, u32_at, drop_all,
}
use vw_firmware_mac.Display.Frame.{
  Receiver, overlay_at, is_frame_header, read_header, read_frame, frame_bytes, can_read,
}
use vw_firmware_mac.Display.Frame.Assembly.{
  IsValid, length-overlay_at, take-overlay_at, joined, feed, Paced, Shows, Body, feed-Body,
}

-- What `QemuDisplay.send` of runtime/graphics/qemu_display.py puts on the socket.
unfoldable pub frame_message : List ℕ → List ℕ
frame_message rgba = (b'M' ∷ b'I' ∷ b'B' ∷ b'F' ∷ le32 (length rgba)) ++ rgba

abbrev frame_header : List ℕ
frame_header = b'M' ∷ b'I' ∷ b'B' ∷ b'F' ∷ 0 ∷ 112 ∷ 23 ∷ 0 ∷ []

-- The receiver has `done` of the header.
record Head (done : List ℕ) (s : Receiver) : Type 0 where
  received : s.received ≡ length done
  header_size : length s.header ≡ 8
  pixels_size : length s.pixels ≡ frame_bytes
  front : take (length done) s.header ≡ done

module _ (s : Receiver) (done c : List ℕ) (h : Head done s) where
  header_front :
      length done + length c ≤ 8
      → take (length done + length c) (overlay_at (length done) c s.header) ≡ done ++ c
  header_front fits =
      take-overlay_at (length done) c s.header done (omega (arith, h.header_size)) h.front

  header_kept : length done + length c ≤ 8 → length (overlay_at (length done) c s.header) ≡ 8
  header_kept fits =
      length-overlay_at (length done) c s.header (omega (arith, h.header_size)) ∙ h.header_size

  read_header-Head : length done + length c < 8 → Head (done ++ c) (read_frame s c)
  unfolding read_frame read_header
  read_header-Head fits =
      let e8 : ltb (length done) 8 ≡ true = ground arith in
      let more : (length done + length c == 8) ≡ false = ground arith in
      rw (h.received, e8, more)
        (record {
          received = omega (arith, length-append done c);
          header_size = header_kept (omega arith);
          pixels_size = h.pixels_size;
          front =
              ap (λ k. take k (overlay_at (length done) c s.header)) (length-append done c)
              ∙ header_front (omega arith);
        })

  read_header-Body :
      length done + length c ≡ 8
      → 0 < length c
      → is_frame_header (done ++ c) ≡ true
      → Body [] (read_frame s c)
  unfolding read_frame read_header
  read_header-Body full some_bytes good =
      let e8 : ltb (length done) 8 ≡ true = ground arith in
      let last : (length done + length c == 8) ≡ true = ground arith in
      let whole : overlay_at (length done) c s.header ≡ done ++ c =
        sym (take_all (length done + length c) _ (omega (arith, header_kept (omega arith))))
        ∙ header_front (omega arith) in
      rw (h.received, e8, last, whole, good)
        (record { received = omega arith; pixels_size = h.pixels_size; front = refl })

can_read_header : (s : Receiver) → s.received < 8 → can_read s ≡ 8 - s.received
unfolding can_read
can_read_header s h = ground arith

good_header : is_frame_header frame_header ≡ true
unfolding is_frame_header u32_at
good_header = refl

-- Two ways to cut a stream.
append_split :
    (c x rest y : List ℕ)
    → c ++ x ≡ rest ++ y
    → length c ≤ length rest
    → (c ++ drop (length c) rest ≡ rest) × (x ≡ drop (length c) rest ++ y)
append_split [] x rest y e h = (refl, e)
append_split (a ∷ c) x [] y e h = absurd (omega arith)
append_split (a ∷ c) x (b ∷ rest) y e h =
    let (p, q) = append_split c x rest y (cc) (omega arith) in (cc, q)

feed_header :
    (pieces : List (List ℕ)) (s : Receiver) (done rest payload : List ℕ)
    → Head done s
    → Paced s pieces
    → done ++ rest ≡ frame_header
    → length done < 8
    → joined pieces ≡ rest ++ payload
    → length payload ≡ frame_bytes
    → Shows payload (feed s pieces)
unfolding feed
feed_header [] s done rest payload h paced e lt j n =
    absurd (omega (arith, ap (λ (l : List ℕ). length l) j, length-append rest payload))
feed_header (c ∷ pieces) s done rest payload h (some_bytes, fits, paced) e lt j n =
    let sizes : length done + length rest ≡ 8 =
      omega (arith, ap (λ (l : List ℕ). length l) e, length-append done rest) in
    let room : length c ≤ length rest =
      omega (arith, fits, can_read_header s (omega (arith, h.received)), h.received, sizes) in
    let (front, back) = append_split c (joined pieces) rest payload j room in
    let e' : (done ++ c) ++ drop (length c) rest ≡ frame_header =
      append_assoc done c (drop (length c) rest) ∙ ap (λ r. done ++ r) front ∙ e in
    elim (Bool-cases (ltb (length done + length c) 8)) [
      | inl more ↦
          let lt' : length done + length c < 8 = ltb→lt _ _ more in
          feed_header pieces (read_frame s c) (done ++ c) (drop (length c) rest) payload
            (read_header-Head s done c h lt') paced e' (omega (arith, length-append done c, lt'))
            back n
      | inr full ↦
          let all : length done + length c ≡ 8 = ground (arith, sizes, room) in
          let none_left : drop (length c) rest ≡ [] =
            drop_all (length c) rest (omega (arith, all, sizes)) in
          let header : done ++ c ≡ frame_header =
            sym (append-nil (done ++ c)) ∙ ap (λ r. (done ++ c) ++ r) (sym none_left) ∙ e' in
          feed-Body pieces (read_frame s c) [] payload
            (read_header-Body s done c h all some_bytes (ap is_frame_header header ∙ good_header))
            paced (back ∙ ap (λ r. r ++ payload) none_left) n (omega arith)
    ]

-- A valid receiver that waits for a header and is handed the host's message for a frame of the right
-- size, cut into any non-empty pieces of at most `can_read` bytes, has at the last piece painted
-- exactly the frame's pixels, and waits for the next header.
pub feed-frame_message :
    (pieces : List (List ℕ)) (s : Receiver) (rgba : List ℕ)
    → IsValid s
    → s.received ≡ 0
    → Paced s pieces
    → joined pieces ≡ frame_message rgba
    → length rgba ≡ frame_bytes
    → Shows rgba (feed s pieces)
unfolding frame_message le32
feed-frame_message pieces s rgba v start paced e n =
    feed_header pieces s [] frame_header rgba
      (record {
        received = start;
        header_size = v.header_size;
        pixels_size = v.pixels_size;
        front = refl;
      })
      paced refl (omega arith) (e ∙ ap (λ (k : ℕ). (b'M' ∷ b'I' ∷ b'B' ∷ b'F' ∷ le32 k) ++ rgba) n)
      n
