-- ===== src/Screen/Probe/Outcome.antt =====
-- How `main` of guest/shim/src/display_probe.c ends, with the Screen library and the transport below it.
use vw_firmware_mac.Base.{
  ℕ, ◌+◌, ◌<◌, ◌≡◌, refl, ap, ap₂, ◌-◌, ◌∙◌, List, [], ◌∷◌, ◌++◌, Option, none, some, Bool, true,
  false, arith,
}
use vw_firmware_mac.Base.{length, if◌then◌else◌, ◌==◌}
use vw_firmware_mac.Screen.Property.{Size}
use vw_firmware_mac.Screen.Objects.{Screen}
use vw_firmware_mac.Screen.Calls.{start, published}
use vw_firmware_mac.Screen.Transport.{Network, refused}
use vw_firmware_mac.Screen.Probe.{
  Probe, Argument, no_file, file, frame, frames, probe_run, probe, probe_start, Exit, fill,
}
use vw_firmware_mac.Screen.Probe.Frames.{length-frame}
use vw_firmware_mac.Screen.Probe.Posts.{
  Canvas, Started, probe_start-Started, picture, filled, fill-filled, filled-Canvas,
}
use vw_firmware_mac.Screen.Probe.Rounds.{Reached, shown, frames-arrive, frames-stop}

-- What the diagnostic promises: the 120 pictures arrive one after the other, those that it draws or
-- the one from a file, or it stops with 3 or 4 before the first where the file does not fit.
unfoldable pub outcome : Argument → Exit
outcome no_file = (0, shown frame 0 120)
outcome (file none) = (3, [])
outcome (file (some bytes)) =
    if length bytes == 1536000 then (0, shown (λ t. bytes) 0 120) else (4, [])

file-outcome :
    (net : ℕ → Network) (bytes : List ℕ) (s : Screen) (test : Bool)
    → (length bytes == 1536000) ≡ test
    → Canvas s
    → ((i : ℕ) → Reached (net i))
    → (if test then frames net (file (some bytes)) 0 120 3 4 (filled bytes s) else some (4, []))
      ≡ some (if test then (0, shown (λ t. bytes) 0 120) else (4, []))
unfolding picture filled
file-outcome net bytes s false e c r = refl
file-outcome net bytes s true e c r =
    frames-arrive net (file (some bytes)) (λ t. ground arith) 120 0 (filled bytes s)
      (filled-Canvas bytes s c) refl r

-- The frames of a window that was made, whatever its addresses are written as.
run-drawn :
    (net : ℕ → Network) (r : Option Probe) (p : Started r)
    → probe_run net no_file p.probe ≡ frames net no_file 0 120 3 4 p.probe.state
unfolding probe_run
run-drawn net r p =
    ap₂ (λ buf pixels. frames net no_file 0 120 buf pixels p.probe.state) p.buf p.pixels

run-read :
    (net : ℕ → Network) (bytes : List ℕ) (r : Option Probe) (p : Started r)
    → probe_run net (file (some bytes)) p.probe ≡ (
        if length bytes == 1536000
        then frames net (file (some bytes)) 0 120 3 4 (filled bytes p.probe.state)
        else some (4, []))
unfolding probe_run
run-read net bytes r p =
    ap₂
      (λ buf pixels. elim (fill pixels bytes p.probe.state) as (λ _. Option Exit) [
        | none ↦ none
        | some s ↦
            if length bytes == 1536000
            then frames net (file (some bytes)) 0 120 buf pixels s
            else some (4, [])
      ])
      p.buf p.pixels
    ∙ ap
        (λ o. elim o as (λ _. Option Exit) [
          | none ↦ none
          | some s ↦
              if length bytes == 1536000
              then frames net (file (some bytes)) 0 120 3 4 s
              else some (4, [])
        ])
        (fill-filled bytes p.probe.state p.canvas)

run-probe :
    (alloc : ℕ → Bool) (asked : Option Size) (net : ℕ → Network) (argument : Argument)
    (p : Started (probe_start alloc asked start))
    → probe alloc asked net argument start ≡ probe_run net argument p.probe
unfolding probe
run-probe alloc asked net argument p = rw (p.ends, probe) refl

run-outcome :
    (net : ℕ → Network) (argument : Argument) (r : Option Probe) (p : Started r)
    → ((i : ℕ) → Reached (net i))
    → probe_run net argument p.probe ≡ some (outcome argument)
unfolding outcome probe_run picture
run-outcome net no_file r p h =
    run-drawn net r p ∙ frames-arrive net no_file length-frame 120 0 p.probe.state p.canvas tt h
run-outcome net (file none) r p h = refl
run-outcome net (file (some bytes)) r p h =
    run-read net bytes r p
    ∙ file-outcome net bytes p.probe.state (length bytes == 1536000) refl p.canvas h

-- Where there is memory for the buffer and each frame finds a host that takes it, the diagnostic ends
-- as `outcome` says for each argument: without one, with 0 after its 120 drawn frames arrived in their
-- order, each as a header and the pixels; for a file of the right size, with 0 after 120 frames of the
-- file; and with 3 or 4 before the first frame for a file that does not open or has another size.
pub probe-outcome :
    (alloc : ℕ → Bool) (asked : Option Size) (net : ℕ → Network) (argument : Argument)
    → alloc 1536000 ≡ true
    → ((i : ℕ) → Reached (net i))
    → probe alloc asked net argument start ≡ some (outcome argument)
probe-outcome alloc asked net argument room h =
    let p = probe_start-Started alloc asked room in
    run-probe alloc asked net argument p
    ∙ run-outcome net argument (probe_start alloc asked start) p h

-- Where there is memory for the buffer, the host takes the frames before the frame `k`, one of the 120,
-- and the socket for `k` cannot be had, the diagnostic ends with 2 after the frames before `k`.
pub probe-stop :
    (alloc : ℕ → Bool) (asked : Option Size) (net : ℕ → Network) (k : ℕ)
    → alloc 1536000 ≡ true
    → k < 120
    → ((i : ℕ) → i < k → Reached (net i))
    → (net k).host ≡ true
    → (net k).socket ≡ false
    → probe alloc asked net no_file start ≡ some (2, shown frame 0 k ++ (published refused ∷ []))
unfolding picture
probe-stop alloc asked net k room lt h host socket =
    let p = probe_start-Started alloc asked room in
    let at_k : 0 + k ≡ k = omega arith in
    run-probe alloc asked net no_file p
    ∙ run-drawn net (probe_start alloc asked start) p
    ∙ frames-stop net no_file length-frame k (119 - k) 120 0 p.probe.state (omega arith) p.canvas tt
        (λ i li. h i (omega arith)) (ap (λ i. (net i).host) at_k ∙ host)
        (ap (λ i. (net i).socket) at_k ∙ socket)
