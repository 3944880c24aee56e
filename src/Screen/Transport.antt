-- ===== src/Screen/Transport.antt =====
-- A window's pixels on their way to the host: guest/shim/src/frame_transport.h.
pub mod Publish
pub mod Progress
use vw_firmware_mac.Base.{
  ℕ, zero, suc, ◌+◌, ◌-◌, ◌*◌, ◌/◌, ◌%◌, ◌^◌, List, [], ◌∷◌, ◌++◌, Option, none, some, Bool, true,
  false, not, ℤ, pos, negsuc,
}
use vw_firmware_mac.Base.{ltb, ◌==◌, ◌&&◌, ◌||◌, if◌then◌else◌, length, take, drop}
use vw_firmware_mac.Rpc.Link.{Answer, moves, interrupted, fails}
use vw_firmware_mac.Screen.Property.{Kind, Obj}

-- The loop of `frame_send_all`, by the kernel's answers to `send`: whether it returns 0, what went
-- out, and the answers left. An interrupted call ends it, as any failure does.
unfoldable pub frame_send_all : List Answer → List ℕ → Option (Bool × List ℕ × List Answer)
frame_send_all answers [] = some (true, [], answers)
frame_send_all [] (x ∷ xs) = none
frame_send_all (moves n ∷ more) (x ∷ xs) =
    let rest = frame_send_all more (drop n (x ∷ xs)) in
    if n == 0 then some (false, [], more) else elim rest [
      | none ↦ none
      | some (ok, sent, left) ↦ some (ok, take n (x ∷ xs) ++ sent, left)
    ]
frame_send_all (interrupted ∷ more) (x ∷ xs) = some (false, [], more)
frame_send_all (fails ∷ more) (x ∷ xs) = some (false, [], more)

-- The bytes of `htonl(v)`.
unfoldable pub be32 : ℕ → List ℕ
be32 v = (v / 16777216 % 256) ∷ (v / 65536 % 256) ∷ (v / 256 % 256) ∷ (v % 256) ∷ []

-- Whether `MIB_FRAME_HOST` is set, `socket` returns a descriptor, and `inet_pton` and `connect`
-- succeed; and the answers of `send`.
pub record Network : Type 0 where
  pub host : Bool
  pub socket : Bool
  pub connects : Bool
  pub answers : List Answer

-- How a call ended: whether it returned 0, whether it opened a socket and closed it, and what was sent.
pub record Publication : Type 0 where
  pub ok : Bool
  pub opened : Bool
  pub closed : Bool
  pub sent : List ℕ

-- The five words of the header.
unfoldable pub frame_words : ℕ → ℕ → ℕ → ℕ → List ℕ
unfolding be32
frame_words w h stride format =
    be32 0x4d494246 ++ (be32 w ++ (be32 h ++ (be32 stride ++ be32 format)))

-- The test of the arguments behind the one of the pointers.
unfoldable pub is_frame : ℕ → ℕ → ℕ → ℕ → Bool
is_frame w h stride format =
    not (w == 0)
    && (not (h == 0)
        && (not (ltb 1920 w) && (not (ltb 1080 h) && (stride == w * 4 % 2 ^ 32 && format == 8))))

unfoldable pub refused : Publication
refused = record { ok = false; opened = false; closed = false; sent = [] }

-- The two calls of `frame_send_all`, the second where the first returned 0.
unfoldable pub send_frame : List Answer → List ℕ → List ℕ → Option (Bool × List ℕ)
send_frame answers header pixels = elim (frame_send_all answers header) [
  | none ↦ none
  | some (ok, sent, left) ↦
      if ok
      then (elim (frame_send_all left pixels) [
        | none ↦ none
        | some (ok', sent', left') ↦ some (ok', sent ++ sent')
      ])
      else some (false, sent)
]

-- From the call of `socket` on.
unfoldable pub publish_on : Network → List ℕ → List ℕ → Option Publication
unfolding refused
publish_on net header pixels =
    if not net.socket
    then some refused
    else (if not net.connects
        then some (record { ok = false; opened = true; closed = true; sent = [] })
        else elim (send_frame net.answers header pixels) [
          | none ↦ none
          | some (ok, sent) ↦ some (record { ok = ok; opened = true; closed = true; sent = sent })
        ])

-- `pixels` is what the pointer points at; the call reads `stride*h` bytes of it.
unfoldable pub frame_publish : Network → Option (List ℕ) → ℕ → ℕ → ℕ → ℕ → Option Publication
unfolding refused
frame_publish net none w h stride format = some refused
frame_publish net (some pixels) w h stride format =
    if net.host && is_frame w h stride format
    then publish_on net (frame_words w h stride format) (take (stride * h % 2 ^ 32) pixels)
    else some refused
