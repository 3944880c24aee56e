-- ===== src/Display/Frame.antt =====
-- The frame receiver of runtime/qemu-display/mib-display.c: `can_read`, `read_frame`, `chr_event`,
-- `loading_tick` and `realize`. A call of `paint` is kept as the pixel buffer that it reads; what it
-- draws is in Display/Paint.
pub mod Assembly
pub mod Header
use vw_firmware_mac.Base.{
  ℕ, ◌+◌, ◌-◌, ◌%◌, List, [], ◌∷◌, ◌++◌, Bool, true, false, not, Option, none, some,
}
use vw_firmware_mac.Base.{
  ltb, ◌==◌, ◌&&◌, if◌then◌else◌, length, take, drop, get_or, u32_at, replicate,
}

-- FW*FH*4
abbrev pub frame_bytes : ℕ
frame_bytes = 1536000

-- The fields of `MIBDisplay` that the receiver uses. `loading` is whether `loading_timer` is pending,
-- and `painted` has the pixels of each call of `paint`, the latest first.
pub record Receiver : Type 0 where
  pub header : List ℕ
  pub pixels : List ℕ
  pub received : ℕ
  pub has_frame : Bool
  pub loading : Bool
  pub spinner_phase : ℕ
  pub painted : List (List ℕ)

-- `memcpy(old+i,bytes,size)`
unfoldable pub overlay_at : ℕ → List ℕ → List ℕ → List ℕ
overlay_at i bytes old = take i old ++ (bytes ++ drop (i + length bytes) old)

unfoldable pub can_read : Receiver → ℕ
can_read s = if ltb s.received 8 then 8 - s.received else frame_bytes + 8 - s.received

-- "MIBF" and the length of a frame.
unfoldable pub is_frame_header : List ℕ → Bool
is_frame_header h =
    get_or h 0 0 == b'M'
    && (get_or h 1 0 == b'I'
        && (get_or h 2 0 == b'B' && (get_or h 3 0 == b'F' && u32_at h 4 == frame_bytes)))

unfoldable pub paint : Receiver → Receiver
paint s = record s { painted = s.pixels ∷ s.painted }

-- The branch of `read_frame` for the header.
unfoldable pub read_header : Receiver → List ℕ → Receiver
read_header s buf =
    let header = overlay_at s.received buf s.header in
    let received = s.received + length buf in
    record s {
      header = header;
      received = if received == 8 && not (is_frame_header header) then 0 else received;
    }

-- The branch of `read_frame` for the pixels.
unfoldable pub read_pixels : Receiver → List ℕ → Receiver
unfolding paint
read_pixels s buf =
    let pixels = overlay_at (s.received - 8) buf s.pixels in
    let received = s.received + length buf in
    if received == frame_bytes + 8
    then record s {
      pixels = pixels;
      received = 0;
      has_frame = true;
      loading = false;
      painted = pixels ∷ s.painted;
    }
    else record s { pixels = pixels; received = received }

unfoldable pub read_frame : Receiver → List ℕ → Receiver
read_frame s buf = if ltb s.received 8 then read_header s buf else read_pixels s buf

-- `chr_event` at `CHR_EVENT_CLOSED`.
unfoldable pub chr_closed : Receiver → Receiver
chr_closed s = record s { received = 0 }

-- The timer has fired, so it is pending again only if it is set again.
unfoldable pub loading_tick : Receiver → Receiver
unfolding paint
loading_tick s =
    if s.has_frame
    then record s { loading = false }
    else record (paint s) { spinner_phase = (s.spinner_phase + 1) % 12; loading = true }

-- `g_malloc0(n)`
unfoldable pub zeroed : ℕ → List ℕ
zeroed n = replicate n 0

-- The receiver after `realize`, or none where no character device is connected.
unfoldable pub realize : Bool → Option Receiver
unfolding paint
realize connected =
    let pixels = zeroed frame_bytes in
    if connected
    then some (record {
      header = replicate 8 0;
      pixels = pixels;
      received = 0;
      has_frame = false;
      loading = true;
      spinner_phase = 0;
      painted = pixels ∷ [];
    })
    else none
