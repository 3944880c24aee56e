-- ===== src/Screen/Probe/Posts.antt =====
-- How guest/shim/src/display_probe.c, libscreen_stub.c and frame_transport.h work together.
use vw_firmware_mac.Base.{ℕ, ◌≡◌, refl, ap, List, [], Option, none, some, Bool, true, pos}
use vw_firmware_mac.Base.{if◌then◌else◌, replicate}
use vw_firmware_mac.Screen.Property.{
  Kind, Obj, Size, one_of, vec_len, set_iv, write_cells, write_cell, mark, quadruple,
}
use vw_firmware_mac.Screen.Objects.{
  Screen, write, put, blank, new_obj, set_pair, set_cell, unsigned, buffer_w, buffer_h, pixel_count,
  buffer_of, set_nbuffers, at_most_8, has_none, is_drawable, slots, all_slots, read_at, add_buffer,
  fill_buffers, ensure_from, ensure_buffers, ensure_some, get_buffers, get_pv_of, get_pv,
}
use vw_firmware_mac.Screen.Calls.{
  start, screen_create, screen_create_drawable, with_pv, screen_set_drawable_property_iv,
  set_object_iv, published, post_buffer, is_buffer, screen_post_window,
}
use vw_firmware_mac.Screen.Transport.{Network, Publication, frame_publish}
use vw_firmware_mac.Screen.Objects.Heap.{write-same}
use vw_firmware_mac.Screen.Probe.{
  Probe, probe_start, probe_window, probe_buffer, first_pointer, Argument, no_file, file, fill,
  draw, frame,
}

-- The buffer of 800 by 480 pixels at 3, which has its pixels at 4.
pub record Canvas (s : Screen) : Type 0 where
  pub old : List ℕ
  pub block : s.blocks 4 ≡ some old
  pub b : Obj
  pub cell : s.cells 3 ≡ some b
  pub kind : b.kind ≡ Kind.buffer
  pub address : b.pixels ≡ 4
  pub w : b.iv 20 ≡ pos 800
  pub h : b.iv 21 ≡ pos 480
  pub stride : b.iv 176 ≡ pos 3200
  pub format : b.iv 56 ≡ pos 8

-- The window and its buffer before the first frame.
pub record Started (r : Option Probe) : Type 0 where
  pub probe : Probe
  pub ends : r ≡ some probe
  pub buf : probe.buf ≡ 3
  pub pixels : probe.pixels ≡ 4
  pub canvas : Canvas probe.state

given : (alloc : ℕ → Bool) (asked : Option Size) → Probe
unfolding probe_start probe_window probe_buffer first_pointer start screen_create
    screen_create_drawable with_pv screen_set_drawable_property_iv set_object_iv put blank new_obj
    set_pair set_cell unsigned buffer_w buffer_h pixel_count buffer_of set_nbuffers at_most_8
    has_none is_drawable slots all_slots read_at add_buffer fill_buffers ensure_from ensure_buffers
    ensure_some get_buffers get_pv_of get_pv vec_len one_of set_iv write_cells write_cell mark
    quadruple
given alloc asked = elim (probe_start alloc asked start) [
  | none ↦ record { state = start; win = 0; buf = 0; pixels = 0 }
  | some p ↦ p
]

pub probe_start-Started :
    (alloc : ℕ → Bool) (asked : Option Size)
    → alloc 1536000 ≡ true
    → Started (probe_start alloc asked start)
unfolding given probe_start probe_window probe_buffer first_pointer start screen_create
    screen_create_drawable with_pv screen_set_drawable_property_iv set_object_iv put blank new_obj
    set_pair set_cell unsigned buffer_w buffer_h pixel_count buffer_of set_nbuffers at_most_8
    has_none is_drawable slots all_slots read_at add_buffer fill_buffers ensure_from ensure_buffers
    ensure_some get_buffers get_pv_of get_pv vec_len one_of set_iv write_cells write_cell mark
    quadruple
probe_start-Started alloc asked room = record {
  probe = given alloc asked;
  ends = refl;
  buf = refl;
  pixels = ap (λ r. if r then 4 else 0) room;
  canvas = record {
    old = replicate 1536000 0;
    block =
        ap (λ r. (if r then write start.blocks 4 (some (replicate 1536000 0)) else start.blocks) 4)
          room;
    b = _;
    cell = refl;
    kind = refl;
    address = ap (λ r. if r then 4 else 0) room;
    w = refl;
    h = refl;
    stride = refl;
    format = refl;
  };
}

-- The bytes of the frame `t`.
unfoldable pub picture : Argument → ℕ → List ℕ
picture no_file t = frame t
picture (file none) t = []
picture (file (some bytes)) t = bytes

-- A file was read before the frames.
abbrev pub Holds : Argument → Screen → Type 0
Holds no_file s = Unit
Holds (file contents) s = s.blocks 4 ≡ some (picture (file contents) 0)

pub record Drawn (argument : Argument) (t : ℕ) (r : Option Screen) : Type 0 where
  pub state : Screen
  pub ends : r ≡ some state
  pub canvas : Canvas state
  pub block : state.blocks 4 ≡ some (picture argument t)
  pub holds : Holds argument state

unfoldable pub filled : (bytes : List ℕ) (s : Screen) → Screen
filled bytes s = record s { blocks = write s.blocks 4 (some bytes) }

pub fill-filled : (bytes : List ℕ) (s : Screen) → Canvas s → fill 4 bytes s ≡ some (filled bytes s)
unfolding fill filled
fill-filled bytes s c = rw (c.block, fill) refl

pub filled-Canvas : (bytes : List ℕ) (s : Screen) → Canvas s → Canvas (filled bytes s)
unfolding filled
filled-Canvas bytes s c = record {
  old = bytes;
  block = write-same s.blocks 4 (some bytes);
  b = c.b;
  cell = c.cell;
  kind = c.kind;
  address = c.address;
  w = c.w;
  h = c.h;
  stride = c.stride;
  format = c.format;
}

pub draw-Drawn :
    (argument : Argument) (t : ℕ) (s : Screen)
    → Canvas s
    → Holds argument s
    → Drawn argument t (draw argument t 4 s)
unfolding draw picture filled
draw-Drawn no_file t s c h = record {
  state = filled (frame t) s;
  ends = fill-filled (frame t) s c;
  canvas = filled-Canvas (frame t) s c;
  block = write-same s.blocks 4 (some (frame t));
  holds = tt;
}
draw-Drawn (file none) t s c h = record { state = s; ends = refl; canvas = c; block = h; holds = h }
draw-Drawn (file (some bytes)) t s c h = record {
  state = s;
  ends = refl;
  canvas = c;
  block = h;
  holds = h;
}

-- A post of the buffer is a publication of what it shows.
pub post-picture :
    (net : Network) (s : Screen) (bytes : List ℕ) (p : Publication)
    → Canvas s
    → s.blocks 4 ≡ some bytes
    → net.host ≡ true
    → frame_publish net (some bytes) 800 480 3200 8 ≡ some p
    → screen_post_window net 3 s ≡ some (published p)
unfolding screen_post_window post_buffer unsigned is_buffer
post-picture net s bytes p c e host out =
    rw (host, screen_post_window)
      (rw (c.cell, post_buffer)
        (rw (c.kind, post_buffer) (rw (c.address, e, c.w, c.h, c.stride, c.format, out) refl)))
