-- ===== src/Screen/Transport/Progress.antt =====
-- When `frame_publish` of guest/shim/src/frame_transport.h succeeds.
use vw_firmware_mac.Base.{
  ℕ, zero, suc, ◌+◌, ◌*◌, ◌%◌, ◌^◌, ◌≡◌, refl, ap, arith, List, [], ◌∷◌, some, true, false,
}
use vw_firmware_mac.Base.{◌==◌, length, length-append, take, drop, take-append-drop, length-drop}
use vw_firmware_mac.Rpc.Link.{Answer, moves, interrupted, fails}
use vw_firmware_mac.Rpc.Link.Moving.{Moving, Moving-le}
use vw_firmware_mac.Screen.Transport.{
  frame_send_all, Network, frame_words, is_frame, send_frame, publish_on, frame_publish,
}
use vw_firmware_mac.Screen.Transport.Publish.{published_bytes}

frame_send_all-Moving :
    (answers : List Answer) (bytes : List ℕ) (k m : ℕ)
    → m ≡ length bytes + k
    → Moving m answers
    → (left : List Answer) × (frame_send_all answers bytes ≡ some (true, bytes, left))
      × Moving k left
unfolding frame_send_all
frame_send_all-Moving answers [] k m h w = (answers, refl, Moving-le m k answers (omega arith) w)
frame_send_all-Moving answers (x ∷ xs) k zero h w = absurd (omega arith)
frame_send_all-Moving [] (x ∷ xs) k (suc m) h w = absurd w
frame_send_all-Moving (moves n ∷ more) (x ∷ xs) k (suc m) h w =
    let rest = drop n (x ∷ xs) in
    let (left, e, v) =
      frame_send_all-Moving more rest k (length rest + k) refl
        (Moving-le m (length rest + k) more (omega (arith, length-drop n (x ∷ xs), w.0)) w.1) in
    let positive : (n == 0) ≡ false = ground (arith, w.0) in
    (
      left,
      rw (positive, e) (ap (λ bytes. some (true, bytes, left)) (take-append-drop n (x ∷ xs))),
      v,
    )
frame_send_all-Moving (interrupted ∷ more) (x ∷ xs) k (suc m) h w = absurd w
frame_send_all-Moving (fails ∷ more) (x ∷ xs) k (suc m) h w = absurd w

-- With the host set and reached, a frame that it takes, and a kernel that moves bytes at each of enough
-- calls of `send`, `frame_publish` returns 0 with the header and all pixels sent and the socket closed.
pub frame_publish-Moving :
    (net : Network) (pixels : List ℕ) (w h stride format : ℕ)
    → net.host ≡ true
    → net.socket ≡ true
    → net.connects ≡ true
    → is_frame w h stride format ≡ true
    → Moving (length (published_bytes (some pixels) w h stride format)) net.answers
    → frame_publish net (some pixels) w h stride format
      ≡ some (record {
        ok = true;
        opened = true;
        closed = true;
        sent = published_bytes (some pixels) w h stride format;
      })
unfolding frame_publish publish_on send_frame published_bytes
frame_publish-Moving net pixels w h stride format host socket connects frame move =
    let header = frame_words w h stride format in
    let bytes = take (stride * h % 2 ^ 32) pixels in
    let (left, e, v) =
      frame_send_all-Moving net.answers header (length bytes) _ (length-append header bytes) move in
    let (left', e', v') = frame_send_all-Moving left bytes 0 (length bytes) (omega arith) v in
    rw (host, frame, socket, connects, e, e') refl
