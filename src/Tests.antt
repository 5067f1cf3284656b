-- ===== src/Tests.antt =====
-- Data shared by the runs at concrete inputs: a display that accepts everything, a device, a
-- compressor and a small framebuffer.
pub mod Transfer
pub mod Updates
pub mod Devices
pub mod Codecs
pub mod Touches
pub mod Lives
pub mod Overlaps
pub mod Streams
use gud.Base.{
  ℕ, ◌≡◌, refl, ap, sym, arith, Bool, true, false, ◌&&◌, Option, none, some, List, [], ◌∷◌, length,
  replicate, ◌==◌, if◌then◌else◌, Bool-cases, inl, inr,
}
use gud.Kernel.{success}
use gud.Layout.{rgb565}
use gud.Usb.{Usb, GudDevice, Host, moved, status_byte, completed}
use gud.Display.{Display}
use gud.Pipe.{Params, Framebuffer}
use gud.Pipe.Step.{IsLz4}
use gud.Pipe.Liveness.{IsReliable}

abbrev pub answering : Usb Unit
answering = record {
  control_out = λ request body env. (moved (length body), env);
  get_status = λ env. (status_byte 0, env);
  bulk_out = λ payload env. (completed success (length payload), env);
}

pub answering-IsReliable : IsReliable answering
answering-IsReliable = record {
  control_all = λ request body env. refl;
  status_zero = λ env. refl;
  bulk_all = λ payload env. refl;
}

abbrev pub device : GudDevice
device = record {
  protocol_version = 1;
  compression = 1;
  flags = 1;
  max_buffer_size = 64;
  min_width = 1;
  max_width = 2;
  min_height = 1;
  max_height = 2;
  xdisp_max_source_length = 4;
  xdisp_bulk_buffer_size = 4;
  bulk_trace_count = 0;
  bulk_trace_sequence = 0;
  xdisp_frame_sequence = 0;
  xdisp_payload_sequence = 0;
  disconnected = false;
  pm_suspended = false;
}

abbrev pub host : Host Unit
host = record { gud = device; env = tt; log = [] }

abbrev pub blank : Display
blank = record { pixels = replicate 8 9; pending = none }

abbrev pub params : Params
params = record { bulk_trace_limit = 0; probe_payload_length = 0; probe_pre_bulk_pause_ms = 0 }

-- Two pixels by two; the second row is black.
abbrev pub framebuffer : Framebuffer
framebuffer = record {
  width = 2;
  height = 2;
  pixel_format = rgb565;
  pixels = 1 ∷ 2 ∷ 3 ∷ 4 ∷ 0 ∷ 0 ∷ 0 ∷ 0 ∷ [];
}

-- A compressor that packs black rows into one byte.
unfoldable pub is_black : List ℕ → Bool
is_black [] = true
is_black (b ∷ rest) = if b == 0 then is_black rest else false

unfoldable pub compress_black : List ℕ → ℕ → Option (List ℕ)
unfolding is_black
compress_black source capacity = if is_black source then some (0 ∷ []) else none

unfoldable pub unpack_black : List ℕ → ℕ → Option (List ℕ)
unpack_black block size = some (replicate size 0)

is_black-replicate : (bytes : List ℕ) → is_black bytes ≡ true → replicate (length bytes) 0 ≡ bytes
unfolding is_black
is_black-replicate [] e = refl
is_black-replicate (b ∷ rest) e = ground (arith, is_black-replicate rest)

pub black-IsLz4 : IsLz4 compress_black unpack_black
unfolding compress_black unpack_black
black-IsLz4 = record {
  unpacks = λ source capacity block e. ground (arith, is_black-replicate source);
}
