-- ===== src/Screen/Probe.antt =====
-- The diagnostic guest/shim/src/display_probe.c: `main`, on the entry points of the Screen library. The
-- text it prints and the second that it waits after each frame are not modelled.
pub mod Rounds
pub mod Frames
pub mod Posts
pub mod Outcome
mod Tests
use vw_firmware_mac.Base.{
  ℕ, zero, suc, ◌+◌, ◌-◌, ◌*◌, ◌/◌, ◌%◌, List, [], ◌∷◌, ◌++◌, Option, none, some, Bool, true, false,
  not, ℤ, pos, negsuc,
}
use vw_firmware_mac.Base.{ltb, leb, ◌==◌, ◌&&◌, if◌then◌else◌, length, get_or}
use vw_firmware_mac.Screen.Property.{Kind, Obj, Size}
use vw_firmware_mac.Screen.Objects.{
  Screen, write, Pointers, pointers, einval, ensure_buffers, get_pv,
}
use vw_firmware_mac.Screen.Transport.{Network, Publication}
use vw_firmware_mac.Screen.Calls.{
  screen_create, screen_create_drawable, screen_set_drawable_property_iv, Post, posted, published,
  screen_post_window,
}

abbrev pub size : ℕ → ℤ
size i = if i == 0 then pos 800 else pos 480

abbrev pub fmt : ℕ → ℤ
fmt i = pos 8

-- `win`, `buf` and `pixels`, and what the calls before the frames leave behind.
pub record Probe : Type 0 where
  pub state : Screen
  pub win : ℕ
  pub buf : ℕ
  pub pixels : ℕ

-- The first pointer that `get_pv` wrote. Where it wrote none, `main` would use what stood there: `none`.
unfoldable pub first_pointer : Option (Pointers × Screen) → Option (ℕ × Screen)
first_pointer none = none
first_pointer (some (einval, s)) = none
first_pointer (some (pointers [], s)) = none
first_pointer (some (pointers (p ∷ ps), s)) = some (p, s)

-- The window with its two properties: the calls up to `screen_create_window_buffers`.
unfoldable pub probe_window : Screen → Option Screen
probe_window s =
    let made = screen_create Kind.context s in
    let opened = screen_create_drawable Kind.window s.fresh made in
    elim (screen_set_drawable_property_iv made.fresh (pos 5) size opened) [
      | none ↦ none
      | some (ok, sized) ↦ elim (screen_set_drawable_property_iv made.fresh (pos 14) fmt sized) [
        | none ↦ none
        | some (ok', formatted) ↦ some formatted
      ]
    ]

-- The buffer and its pixels.
unfoldable pub probe_buffer : (ℕ → Bool) → Option Size → ℕ → Screen → Option Probe
probe_buffer alloc asked win s = elim (ensure_buffers alloc win (pos 1) s) [
  | none ↦ none
  | some t ↦ elim (first_pointer (get_pv alloc asked win (pos 37) t)) [
    | none ↦ none
    | some (buf, u) ↦ elim (first_pointer (get_pv alloc asked buf (pos 34) u)) [
      | none ↦ none
      | some (pixels, v) ↦ some (record { state = v; win = win; buf = buf; pixels = pixels })
    ]
  ]
]

unfoldable pub probe_start : (ℕ → Bool) → Option Size → Screen → Option Probe
probe_start alloc asked s = elim (probe_window s) [
  | none ↦ none
  | some t ↦ probe_buffer alloc asked (s.fresh + 1) t
]

-- `colors`, a row after the other.
abbrev pub colors : List ℕ
colors =
    235 ∷ 235 ∷ 235 ∷ 235 ∷ 210 ∷ 30 ∷ 30 ∷ 210 ∷ 210 ∷ 30 ∷ 210 ∷ 50 ∷ 210 ∷ 40 ∷ 210 ∷ 220 ∷ 40
    ∷ 40 ∷ 40 ∷ 60 ∷ 220 ∷ 20 ∷ 20 ∷ 20 ∷ []

-- The first three bytes of the pixel at `x`, `y` of the frame `t`; an `unsigned char` has 8 bits.
unfoldable pub color : ℕ → ℕ → ℕ → List ℕ
color t x y =
    let from = t * 6 % 780 in
    let k = x / 100 in
    let grey = x * 255 / 799 % 256 in
    if ltb 425 y && (leb from x && ltb x (from + 20))
    then 255 ∷ 32 ∷ 32 ∷ []
    else (if ltb 350 y
        then grey ∷ grey ∷ grey ∷ []
        else get_or colors (3 * k) 0
          ∷ get_or colors (3 * k + 1) 0
          ∷ get_or colors (3 * k + 2) 0
          ∷ [])

-- The loops on `x` and on `y`, with the number of rounds left.
unfoldable pub row_from : ℕ → ℕ → ℕ → ℕ → List ℕ
row_from t y x zero = []
row_from t y x (suc n) = color t x y ++ (255 ∷ row_from t y (x + 1) n)

unfoldable pub rows_from : ℕ → ℕ → ℕ → List ℕ
rows_from t y zero = []
rows_from t y (suc n) = row_from t y 0 800 ++ rows_from t (y + 1) n

unfoldable pub frame : ℕ → List ℕ
frame t = rows_from t 0 480

-- The argument: none (or more than one), or the name of a file, which may not open.
pub data Argument : Type 0 where
  no_file : Argument
  file : Option (List ℕ) → Argument

unfoldable pub fill : ℕ → List ℕ → Screen → Option Screen
fill pixels bytes s = elim (s.blocks pixels) [
  | none ↦ none
  | some old ↦ some (record s { blocks = write s.blocks pixels (some bytes) })
]

-- What is drawn before the frame `t` is posted.
unfoldable pub draw : Argument → ℕ → ℕ → Screen → Option Screen
draw no_file t pixels s = fill pixels (frame t) s
draw (file contents) t pixels s = some s

unfoldable pub is_posted : Post → Bool
is_posted posted = true
is_posted (published p) = p.ok
is_posted _ = false

-- How `main` ends: its exit status, and what the posts did, the last of which may have failed.
abbrev pub Exit : Type 0
Exit = ℕ × List Post

unfoldable pub and_then : Post → Option Exit → Option Exit
and_then post rest =
    if is_posted post
    then (elim rest [ none ↦ none | some (status, posts) ↦ some (status, post ∷ posts) ])
    else some (2, post ∷ [])

-- The loop, for `n` more frames from `t`. `net t` is the network when the frame `t` is posted.
unfoldable pub frames : (ℕ → Network) → Argument → ℕ → ℕ → ℕ → ℕ → Screen → Option Exit
frames net argument t zero buf pixels s = some (0, [])
frames net argument t (suc n) buf pixels s = elim (draw argument t pixels s) [
  | none ↦ none
  | some u ↦ elim (screen_post_window (net t) buf u) [
    | none ↦ none
    | some post ↦ and_then post (frames net argument (t + 1) n buf pixels u)
  ]
]

-- The argument, then the frames.
unfoldable pub probe_run : (ℕ → Network) → Argument → Probe → Option Exit
probe_run net no_file p = frames net no_file 0 120 p.buf p.pixels p.state
probe_run net (file none) p = some (3, [])
probe_run net (file (some bytes)) p = elim (fill p.pixels bytes p.state) [
  | none ↦ none
  | some s ↦
      if length bytes == 800 * 480 * 4
      then frames net (file (some bytes)) 0 120 p.buf p.pixels s
      else some (4, [])
]

unfoldable pub probe : (ℕ → Bool) → Option Size → (ℕ → Network) → Argument → Screen → Option Exit
probe alloc asked net argument s = elim (probe_start alloc asked s) [
  | none ↦ none
  | some p ↦ probe_run net argument p
]
