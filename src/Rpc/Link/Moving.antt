-- ===== src/Rpc/Link/Moving.antt =====
-- A kernel that goes on moving bytes without an interruption, for the loops that give up at one
-- (guest/shim/src/frame_transport.h, guest/dsi/input.h).
use vw_firmware_mac.Base.{replicate, ℕ, zero, suc, ◌≤◌, ◌<◌, List, [], ◌∷◌, arith}
use vw_firmware_mac.Rpc.Link.{Answer, moves, interrupted, fails}

-- The kernel makes `k` moves of a byte at least before anything else.
abbrev pub Moving : ℕ → List Answer → Type 0
Moving zero answers = Unit
Moving (suc k) [] = ⊥
Moving (suc k) (moves n ∷ more) = (0 < n) × Moving k more
Moving (suc k) (interrupted ∷ more) = ⊥
Moving (suc k) (fails ∷ more) = ⊥

pub Moving-le : (k j : ℕ) (answers : List Answer) → j ≤ k → Moving k answers → Moving j answers
Moving-le k zero answers h w = tt
Moving-le zero (suc j) answers h w = absurd (omega arith)
Moving-le (suc k) (suc j) [] h w = w
Moving-le (suc k) (suc j) (moves n ∷ more) h w = (w.0, Moving-le k j more (omega arith) w.1)
Moving-le (suc k) (suc j) (interrupted ∷ more) h w = w
Moving-le (suc k) (suc j) (fails ∷ more) h w = w

pub Moving-replicate : (k n : ℕ) → 0 < n → Moving k (replicate k (moves n))
Moving-replicate zero n h = tt
Moving-replicate (suc k) n h = (h, Moving-replicate k n h)
