-- ===== src/Screen/Probe/Tests.antt =====
-- The diagnostic guest/shim/src/display_probe.c at concrete inputs.
use vw_firmware_mac.Base.{
  ℕ, ◌+◌, ◌*◌, ◌<◌, ◌≡◌, refl, [], ◌∷◌, ◌++◌, none, some, Bool, true, false, arith, if◌then◌else◌,
  subst, ltb, replicate, length, get_or,
}
use vw_firmware_mac.Rpc.Link.{moves}
use vw_firmware_mac.Rpc.Link.Moving.{Moving-replicate}
use vw_firmware_mac.Screen.Calls.{start, published}
use vw_firmware_mac.Screen.Transport.{Network, refused}
use vw_firmware_mac.Screen.Probe.{no_file, frame, probe, color}
use vw_firmware_mac.Screen.Probe.Frames.{rgba, frame-pixel}
use vw_firmware_mac.Screen.Probe.Outcome.{outcome, probe-outcome, probe-stop}
use vw_firmware_mac.Screen.Probe.Rounds.{Reached, shown}

abbrev room : ℕ → Bool
room n = true

-- A host that takes a byte at each `send`.
abbrev slow : Network
slow = record { host = true; socket = true; connects = true; answers = replicate 1536020 (moves 1) }

abbrev no_socket : Network
no_socket = record { host = true; socket = false; connects = true; answers = [] }

slow-Reached : Reached slow
slow-Reached = record {
  host = refl;
  socket = refl;
  connects = refl;
  moving = Moving-replicate 1536020 1 (omega arith);
}

-- The bar in the frame 3, and the last grey.
color_bar : color 3 20 430 ≡ 255 ∷ 32 ∷ 32 ∷ []
unfolding color
color_bar = refl

color_grey : color 3 799 430 ≡ 255 ∷ 255 ∷ 255 ∷ []
unfolding color
color_grey = refl

color_second : color 3 199 350 ≡ 235 ∷ 210 ∷ 30 ∷ []
unfolding color
color_second = refl

frame_3_byte :
    (length (frame 3) ≡ 1536000)
    × (get_or (frame 3) (3200 * 430 + (4 * 20 + 1)) 0 ≡ get_or (rgba 3 20 430) 1 0)
frame_3_byte = frame-pixel 3 430 20 1 (omega arith) (omega arith) (omega arith)

probe-outcome_example : probe room none (λ i. slow) no_file start ≡ some (outcome no_file)
probe-outcome_example = probe-outcome room none (λ i. slow) no_file refl (λ i. slow-Reached)

-- The host takes two frames.
abbrev two : ℕ → Network
two i = if ltb i 2 then slow else no_socket

two-Reached : (i : ℕ) → i < 2 → Reached (two i)
two-Reached i h = subst (λ b. Reached (if b then slow else no_socket)) (ltb_below i h) slow-Reached
  where
    ltb_below : (i : ℕ) → i < 2 → true ≡ ltb i 2
    ltb_below i h = ground arith

probe-stop_example :
    probe room none two no_file start ≡ some (2, shown frame 0 2 ++ (published refused ∷ []))
probe-stop_example = probe-stop room none two 2 refl (omega arith) two-Reached refl refl
