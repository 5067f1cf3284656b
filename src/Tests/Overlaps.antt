-- ===== src/Tests/Overlaps.antt =====
-- A worker that sends a frame while another one is queued.
use gud.Base.{ℕ, ◌≡◌, ◌⊎◌, refl, arith, true, List, [], ◌∷◌, inl, inr}
use gud.Kernel.{success}
use gud.Layout.{rgb565, FrameLayout, format_frame_layout, layout}
use gud.Display.{receive}
use gud.Flush.{ScanFb, async_init, take_work}
use gud.Flush.Work.{Call, queue, flush_run}
use gud.Flush.Overlap.{at_offset, Beat, rectangle, queueing, Moment, beats}
use gud.Flush.Overlap.Torn.{IsSound, AllQueued, beats-IsSound}
use gud.Flush.Delivery.{visible}
use gud.Tests.{answering, host, blank, params, compress_black, unpack_black, black-IsLz4}
use gud.Tests.Updates.{scanned, shown}

abbrev second : ScanFb
second = record scanned { id = 8; object = 8 ∷ 8 ∷ 5 ∷ 5 ∷ 5 ∷ 5 ∷ 6 ∷ 6 ∷ 6 ∷ 6 ∷ [] }

-- One of the two frames.
abbrev IsEither : List ℕ → Type 0
IsEither bytes = (bytes ≡ shown) ⊎ (bytes ≡ visible second)

abbrev queued_calls : List Call
queued_calls = queue success true scanned ∷ []

abbrev small : FrameLayout
small = record { bytes_per_line = 4; total = 8 }

small_ok : format_frame_layout 2 2 rgb565 ≡ layout small
unfolding format_frame_layout
small_ok = refl

abbrev mixed : List Beat
mixed = rectangle ∷ queueing success true second ∷ rectangle ∷ rectangle ∷ []

mixed_ok : AllQueued IsEither mixed
unfolding AllQueued
mixed_ok = (inr refl, omega arith, tt)

abbrev start : Moment Unit
start = record {
  async = take_work (flush_run answering compress_black params queued_calls (async_init, host)).0;
  progress = at_offset 0;
  host = host;
}

abbrev stopped : Moment Unit
stopped = beats answering compress_black params scanned small 4 mixed start

beats-IsSound_example :
    IsSound IsEither small
      (receive 4 unpack_black host.log blank).pixels
      stopped.progress
      (receive 4 unpack_black stopped.host.log blank).pixels
unfolding flush_run format_frame_layout gud.Layout.validate_framebuffer_range async_init
    gud.Flush.copy_frame
beats-IsSound_example =
    beats-IsSound compress_black unpack_black black-IsLz4 answering params IsEither queued_calls
      host host scanned small 4 shown mixed blank (omega arith) refl small_ok refl (inl refl)
      mixed_ok
