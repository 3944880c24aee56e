-- ===== src/Screen/Probe/Rounds.antt =====
-- The loop of guest/shim/src/display_probe.c, frame by frame.
use vw_firmware_mac.Base.{
  ℕ, zero, suc, ◌+◌, ◌<◌, ◌≡◌, refl, sym, ap, ◌∙◌, subst, List, [], ◌∷◌, ◌++◌, some, true, false,
  arith,
}
use vw_firmware_mac.Base.{length, length-append, take_all}
use vw_firmware_mac.Rpc.Link.Moving.{Moving}
use vw_firmware_mac.Screen.Objects.{Screen}
use vw_firmware_mac.Screen.Calls.{Post, published, screen_post_window}
use vw_firmware_mac.Screen.Transport.{
  Network, Publication, frame_publish, frame_words, be32, is_frame, publish_on, refused,
}
use vw_firmware_mac.Screen.Transport.Publish.{published_bytes}
use vw_firmware_mac.Screen.Transport.Progress.{frame_publish-Moving}
use vw_firmware_mac.Screen.Probe.{Argument, draw, frames, and_then, is_posted}
use vw_firmware_mac.Screen.Probe.Posts.{Canvas, picture, Holds, draw-Drawn, post-picture}

-- The host takes a whole frame.
pub record Reached (net : Network) : Type 0 where
  pub host : net.host ≡ true
  pub socket : net.socket ≡ true
  pub connects : net.connects ≡ true
  pub moving : Moving 1536020 net.answers

-- A frame that arrived, and those from `t`, `n` in number.
unfoldable pub arrived : List ℕ → Post
arrived bytes =
    published (record {
      ok = true;
      opened = true;
      closed = true;
      sent = frame_words 800 480 3200 8 ++ bytes;
    })

unfoldable pub shown : (ℕ → List ℕ) → ℕ → ℕ → List Post
shown f t zero = []
shown f t (suc n) = arrived (f t) ∷ shown f (t + 1) n

published-whole :
    (bytes : List ℕ)
    → length bytes ≡ 1536000
    → published_bytes (some bytes) 800 480 3200 8 ≡ frame_words 800 480 3200 8 ++ bytes
unfolding published_bytes
published-whole bytes e =
    ap (λ l. frame_words 800 480 3200 8 ++ l) (take_all 1536000 bytes (omega (arith, e)))

length-frame_words : length (frame_words 800 480 3200 8) ≡ 20
unfolding frame_words be32
length-frame_words = refl

publish-picture :
    (net : Network) (bytes : List ℕ)
    → length bytes ≡ 1536000
    → Reached net
    → (p : Publication) × (frame_publish net (some bytes) 800 480 3200 8 ≡ some p)
      × (published p ≡ arrived bytes)
unfolding is_frame arrived
publish-picture net bytes e r =
    let whole = published-whole bytes e in
    let long : length (published_bytes (some bytes) 800 480 3200 8) ≡ 1536020 =
      ap length whole
      ∙ omega (arith, length-append (frame_words 800 480 3200 8) bytes, length-frame_words, e) in
    (
      _,
      frame_publish-Moving net bytes 800 480 3200 8 r.host r.socket r.connects refl
          (subst (λ n. Moving n net.answers) (sym long) r.moving),
      ap (λ l. published (record { ok = true; opened = true; closed = true; sent = l })) whole,
    )

refused-post :
    (net : Network) (bytes : List ℕ)
    → net.host ≡ true
    → net.socket ≡ false
    → frame_publish net (some bytes) 800 480 3200 8 ≡ some refused
unfolding frame_publish publish_on is_frame
refused-post net bytes host socket = rw (host, frame_publish) (rw (socket, publish_on) refl)

-- A round of the loop of which the post is known.
round :
    (net : ℕ → Network) (argument : Argument) (t n : ℕ) (s u : Screen) (post : Post)
    → draw argument t 4 s ≡ some u
    → screen_post_window (net t) 3 u ≡ some post
    → frames net argument t (suc n) 3 4 s ≡ and_then post (frames net argument (t + 1) n 3 4 u)
unfolding frames
round net argument t n s u post d e = rw (d, frames) (rw e refl)

and_then-arrived :
    (post : Post) (bytes : List ℕ) (posts : List Post) (status : ℕ)
    → post ≡ arrived bytes
    → and_then post (some (status, posts)) ≡ some (status, arrived bytes ∷ posts)
unfolding and_then is_posted arrived
and_then-arrived post bytes posts status e = rw e refl

-- The pictures of an argument have the size of the buffer.
abbrev Sized : Argument → Type 0
Sized argument = (t : ℕ) → length (picture argument t) ≡ 1536000

module _ (net : ℕ → Network) (argument : Argument) (sized : Sized argument) where
  -- The frames from `t` arrive as long as the host takes them.
  pub frames-arrive :
      (n t : ℕ) (s : Screen)
      → Canvas s
      → Holds argument s
      → ((i : ℕ) → Reached (net i))
      → frames net argument t n 3 4 s ≡ some (0, shown (picture argument) t n)
  unfolding frames shown
  frames-arrive zero t s c h r = refl
  frames-arrive (suc n) t s c h r =
      let d = draw-Drawn argument t s c h in
      let (p, out, same) = publish-picture (net t) (picture argument t) (sized t) (r t) in
      let post =
        post-picture (net t) d.state (picture argument t) p d.canvas d.block (r t).host out in
      round net argument t n s d.state (published p) d.ends post
      ∙ ap (and_then (published p)) (frames-arrive n (t + 1) d.state d.canvas d.holds r)
      ∙ and_then-arrived (published p) (picture argument t) (shown (picture argument) (t + 1) n) 0
          same

  -- They stop at the first that cannot be sent.
  pub frames-stop :
      (k m n t : ℕ) (s : Screen)
      → n ≡ k + suc m
      → Canvas s
      → Holds argument s
      → ((i : ℕ) → i < t + k → Reached (net i))
      → (net (t + k)).host ≡ true
      → (net (t + k)).socket ≡ false
      → frames net argument t n 3 4 s
        ≡ some (2, shown (picture argument) t k ++ (published refused ∷ []))
  unfolding frames shown and_then is_posted refused
  frames-stop k m zero t s e c h r host socket = absurd (omega (arith, e))
  frames-stop zero m (suc n) t s e c h r host socket =
      let d = draw-Drawn argument t s c h in
      let at_t : t + 0 ≡ t = omega arith in
      let out =
        refused-post (net t) (picture argument t) (ap (λ i. (net i).host) (sym at_t) ∙ host)
          (ap (λ i. (net i).socket) (sym at_t) ∙ socket) in
      round net argument t n s d.state (published refused) d.ends (
        post-picture (net t) d.state (picture argument t) refused d.canvas d.block
          (ap (λ i. (net i).host) (sym at_t) ∙ host) out)
  frames-stop (suc k) m (suc n) t s e c h r host socket =
      let d = draw-Drawn argument t s c h in
      let now = r t (omega arith) in
      let at_k : t + suc k ≡ (t + 1) + k = omega arith in
      let (p, out, same) = publish-picture (net t) (picture argument t) (sized t) now in
      let post =
        post-picture (net t) d.state (picture argument t) p d.canvas d.block now.host out in
      round net argument t n s d.state (published p) d.ends post
      ∙ ap (and_then (published p)) (
          frames-stop k m n (t + 1) d.state (omega (arith, e)) d.canvas d.holds
            (λ i lt. r i (omega arith)) (ap (λ i. (net i).host) (sym at_k) ∙ host)
            (ap (λ i. (net i).socket) (sym at_k) ∙ socket))
      ∙ and_then-arrived (published p) (picture argument t) _ 2 same
