-- ===== src/Display.antt =====
-- The specification of the other end: what a display holds after the transactions of a log.
-- A SET_BUFFER request that was accepted announces a rectangle of whole rows, and the next bulk
-- payload that goes out in full is written there, unpacked if it is compressed. A transaction
-- that failed changes nothing. No source of the repository implements this end; the README and
-- the packed structures say what it must do.
pub mod Effects
use gud.Base.{
  ℕ, ◌+◌, ◌*◌, Bool, ◌&&◌, Option, none, some, List, [], ◌∷◌, ◌++◌, length, take, drop, ◌==◌,
  if◌then◌else◌,
}
use gud.Kernel.{Ret, success, failure}
use gud.Wire.{SetBufferReq, decode_set_buffer, req_set_buffer}
use gud.Usb.{Event, control, bulk}

pub record Display : Type 0 where
  pub pixels : List ℕ
  pub pending : Option SetBufferReq

-- Overwrites the bytes from `offset` on.
abbrev pub splice : ℕ → List ℕ → List ℕ → List ℕ
splice offset chunk pixels = take offset pixels ++ (chunk ++ drop (offset + length chunk) pixels)

module _ (pitch : ℕ) (decompress : List ℕ → ℕ → Option (List ℕ)) where
  abbrev unpack : SetBufferReq → List ℕ → Option (List ℕ)
  unpack r payload =
      if r.compression == 0
      then (if length payload == r.total then some payload else none)
      else (if length payload == r.compressed_length then decompress payload r.total else none)

  abbrev write_rectangle : SetBufferReq → Option (List ℕ) → List ℕ → List ℕ
  write_rectangle r none pixels = pixels
  write_rectangle r (some rows) pixels =
      if r.x == 0 && (r.total == r.height * pitch && length rows == r.total)
      then splice (r.y * pitch) rows pixels
      else pixels

  abbrev write_pending : Option SetBufferReq → List ℕ → List ℕ → List ℕ
  write_pending none payload pixels = pixels
  write_pending (some r) payload pixels = write_rectangle r (unpack r payload) pixels

  abbrev announce : ℕ → List ℕ → Display → Display
  announce request body d =
      if request == req_set_buffer then record d { pending = decode_set_buffer body } else d

  abbrev accept_bulk : List ℕ → ℕ → Display → Display
  accept_bulk payload actual d =
      if actual == length payload
      then record { pixels = write_pending d.pending payload d.pixels; pending = none }
      else d

  abbrev pub receive_event : Event → Display → Display
  receive_event (control request body success) d = announce request body d
  receive_event (control request body (failure e)) d = d
  receive_event (bulk payload success actual) d = accept_bulk payload actual d
  receive_event (bulk payload (failure e) actual) d = d

  -- The log is newest first.
  unfoldable pub receive : List Event → Display → Display
  receive [] d = d
  receive (e ∷ older) d = receive_event e (receive older d)
