-- ===== src/Tests/Transfer.antt =====
-- The synchronous transfer at a small framebuffer.
use gud.Base.{◌≡◌, ◌≢◌, refl, arith, Option, none, some, [], ◌∷◌}
use gud.Kernel.{Ret, success}
use gud.Usb.{Usb, Host}
use gud.Display.{receive}
use gud.Pipe.{Stats, Framebuffer, transfer_buffer, no_stats}
use gud.Pipe.Frame.{transfer_buffer-delivers}
use gud.Pipe.Totality.{transfer_buffer-ne-none}
use gud.Pipe.Success.{CanTake, transfer_buffer-succeeds}
use gud.Tests.{
  answering, answering-IsReliable, device, host, blank, params, framebuffer, compress_black,
  unpack_black, black-IsLz4,
}

abbrev stats_of : Option (Ret × Stats × Host Unit) → Stats
stats_of none = no_stats
stats_of (some (ret, stats, h)) = stats

abbrev host_of : Option (Ret × Stats × Host Unit) → Host Unit
host_of none = host
host_of (some (ret, stats, h)) = h

abbrev sent : Option (Ret × Stats × Host Unit)
sent = transfer_buffer answering compress_black params framebuffer host

sent_ok : sent ≡ some (success, stats_of sent, host_of sent)
unfolding transfer_buffer compress_black gud.Layout.format_frame_layout gud.Pipe.transfer_frame
    gud.Pipe.frame_job gud.Pipe.transfer_loop gud.Pipe.send_rectangle gud.Pipe.start_frame
    gud.Pipe.send_planned gud.Pipe.plan_rectangle gud.Pipe.lz4_compress_limited
    gud.Pipe.submit_payload gud.Usb.set_buffer_loop gud.Usb.set_buffer_should_retry gud.Usb.usb_set
    gud.Pipe.begin_payload gud.Wire.encode_set_buffer gud.Wire.le32 gud.Usb.bulk_loop
    gud.Kernel.is_eagain gud.Kernel.is_ebusy gud.Layout.format_bytes_per_pixel
    gud.Pipe.bulk_trace_begin gud.Pipe.choose_payload gud.Pipe.payload_overflows
    gud.Pipe.rectangle_request gud.Pipe.submit_bulk gud.Pipe.transfer_probe gud.Tests.is_black
    gud.Usb.pm_submission_allowed gud.Usb.status_to_errno gud.Usb.usb_bulk_write
sent_ok = refl

transfer_buffer-delivers_example :
    (receive 4 unpack_black (host_of sent).log blank).pixels ≡ 1 ∷ 2 ∷ 3 ∷ 4 ∷ 0 ∷ 0 ∷ 0 ∷ 0 ∷ []
unfolding gud.Layout.format_bytes_per_pixel receive
transfer_buffer-delivers_example =
    transfer_buffer-delivers compress_black unpack_black black-IsLz4 answering params framebuffer
      host blank (stats_of sent) (host_of sent) refl (omega arith) refl refl sent_ok

transfer_buffer-ne-none_example :
    transfer_buffer answering compress_black params framebuffer host ≢ none
transfer_buffer-ne-none_example =
    transfer_buffer-ne-none answering compress_black params framebuffer host

framebuffer-CanTake : CanTake framebuffer device
unfolding gud.Layout.format_bytes_per_pixel
framebuffer-CanTake = record {
  connected = refl;
  awake = refl;
  negotiated = omega arith;
  line_fits = omega arith;
  payload_fits = omega arith;
  source_bounded = omega arith;
}

transfer_buffer-succeeds_example :
    (stats : Stats) × (h' : Host Unit) × (transfer_buffer answering compress_black params
        framebuffer host
      ≡ some (success, stats, h'))
unfolding gud.Layout.format_bytes_per_pixel
transfer_buffer-succeeds_example =
    transfer_buffer-succeeds answering answering-IsReliable compress_black params framebuffer host
      refl (omega arith) (omega arith) (omega arith) (omega arith) refl framebuffer-CanTake
