-- ===== src/Tests/Updates.antt =====
-- The asynchronous flush, the atomic check and the update at a small framebuffer.
use gud.Base.{ℕ, ◌≡◌, ◌⊎◌, refl, arith, true, false, Option, none, some, List, [], ◌∷◌}
use gud.Kernel.{Ret, success, failure, enomem}
use gud.Layout.{rgb565}
use gud.Usb.{Usb, Host, control}
use gud.Wire.{DisplayModeReq, decode_mode, req_set_state_check}
use gud.Display.{receive}
use gud.Framebuffer.{Fb, is_supported, rows_packed}
use gud.Flush.{ScanFb, Async, async_init, queue_damage}
use gud.Flush.Work.{
  Crtc, Call, queue, worker, cancel_all, stop_all, idle, flushed, host_after, flush_work, flush_run,
  pipe_update,
}
use gud.Flush.Coherent.{IsCoherent}
use gud.Flush.Run.{flush_run-async_init-IsCoherent, flush_work-ends}
use gud.Flush.Delivery.{queue_damage-flush_work}
use gud.Flush.Update.{pipe_update-enomem, pipe_update-delivers}
use gud.Check.{CrtcState, pipe_check, has_old, format_changed}
use gud.Check.Guards.{seen, pipe_check-accepts}
use gud.Tests.{answering, host, blank, params, compress_black, unpack_black, black-IsLz4}

-- The frame starts two bytes into its object.
abbrev pub scanned : ScanFb
scanned = record {
  id = 7;
  width = 2;
  height = 2;
  pixel_format = rgb565;
  offset = 2;
  object = 8 ∷ 8 ∷ 1 ∷ 2 ∷ 3 ∷ 4 ∷ 0 ∷ 0 ∷ 0 ∷ 0 ∷ 8 ∷ [];
}

abbrev pub shown : List ℕ
shown = 1 ∷ 2 ∷ 3 ∷ 4 ∷ 0 ∷ 0 ∷ 0 ∷ 0 ∷ []

abbrev calls : List Call
calls =
    queue success true scanned
    ∷ queue success true scanned
    ∷ worker
    ∷ queue success true scanned
    ∷ []

flush_run-async_init-IsCoherent_example :
    IsCoherent (flush_run answering compress_black params calls (async_init, host)).0
flush_run-async_init-IsCoherent_example =
    flush_run-async_init-IsCoherent answering compress_black params calls host

flush_work-ends_example :
    ((flush_work answering compress_black params
        (flush_run answering compress_black params calls (async_init, host)).0
        host).1
      ≡ idle)
    ⊎ ((ret : Ret) × (h' : Host Unit) × ((flush_work answering compress_black params
            (flush_run answering compress_black params calls (async_init, host)).0
            host).1
          ≡ flushed ret h'))
flush_work-ends_example = flush_work-ends answering compress_black params calls host host

abbrev queued : Async
queued = (queue_damage success true scanned async_init).1

abbrev after_worker : Host Unit
after_worker = host_after (flush_work answering compress_black params queued host).1 host

queue_ok : queue_damage success true scanned async_init ≡ (success, queued)
unfolding queue_damage gud.Layout.format_frame_layout gud.Layout.validate_framebuffer_range
    async_init
queue_ok = refl

worker_ok :
    (flush_work answering compress_black params queued host).1 ≡ flushed success after_worker
unfolding flush_work queue_damage gud.Layout.format_frame_layout
    gud.Layout.validate_framebuffer_range async_init gud.Flush.copy_frame gud.Pipe.transfer_buffer
    gud.Pipe.transfer_frame gud.Pipe.frame_job gud.Pipe.transfer_loop gud.Pipe.send_rectangle
    gud.Pipe.start_frame gud.Pipe.send_planned gud.Pipe.plan_rectangle gud.Pipe.lz4_compress_limited
    compress_black gud.Pipe.submit_payload gud.Flush.Work.flush_transfer gud.Flush.Work.frame_of
    gud.Flush.is_pending gud.Flush.map_frame gud.Flush.note_damage gud.Flush.reference
    gud.Flush.release gud.Flush.replace_fb gud.Flush.shadow_frame gud.Flush.take_work
    gud.Flush.unreference gud.Kernel.is_eagain gud.Kernel.is_ebusy gud.Layout.format_bytes_per_pixel
    gud.Pipe.begin_payload gud.Pipe.bulk_trace_begin gud.Pipe.choose_payload
    gud.Pipe.payload_overflows gud.Pipe.rectangle_request gud.Pipe.submit_bulk
    gud.Pipe.transfer_probe gud.Tests.is_black gud.Usb.bulk_loop gud.Usb.pm_submission_allowed
    gud.Usb.set_buffer_loop gud.Usb.set_buffer_should_retry gud.Usb.status_to_errno
    gud.Usb.usb_bulk_write gud.Usb.usb_set gud.Wire.encode_set_buffer gud.Wire.le32 host_after
worker_ok = refl

queue_damage-flush_work_example : (receive 4 unpack_black after_worker.log blank).pixels ≡ shown
unfolding gud.Layout.format_bytes_per_pixel receive
queue_damage-flush_work_example =
    queue_damage-flush_work compress_black unpack_black black-IsLz4 answering params success true
      scanned async_init queued host blank after_worker refl (omega arith) refl queue_ok worker_ok

abbrev pub modeset : Crtc
modeset = record { mode_changed = true; active_changed = true; active = true }

abbrev pub flip : Crtc
flip = record { mode_changed = false; active_changed = false; active = true }

pipe_update-enomem_example :
    pipe_update answering compress_black params true flip success false
      (some scanned)
      async_init
      host
    ≡ some (failure enomem, async_init, host)
unfolding queue_damage gud.Layout.format_frame_layout gud.Layout.validate_framebuffer_range
    async_init
pipe_update-enomem_example =
    pipe_update-enomem compress_black answering params flip success scanned async_init host refl
      refl refl

abbrev updated_host : Option (Ret × Async × Host Unit) → Host Unit
updated_host none = host
updated_host (some (ret, a, h)) = h

abbrev updated : Option (Ret × Async × Host Unit)
updated =
    pipe_update answering compress_black params false modeset success true (some scanned) async_init
      host

updated_ok : updated ≡ some (success, async_init, updated_host updated)
unfolding pipe_update gud.Kernel.is_success gud.Usb.usb_set gud.Flush.Work.transfer_xdisp
    gud.Layout.format_frame_layout gud.Layout.validate_framebuffer_range gud.Pipe.transfer_buffer
    gud.Pipe.transfer_frame gud.Pipe.frame_job gud.Pipe.transfer_loop gud.Pipe.send_rectangle
    gud.Pipe.start_frame gud.Pipe.send_planned gud.Pipe.plan_rectangle gud.Pipe.lz4_compress_limited
    compress_black gud.Pipe.submit_payload gud.Flush.copy_frame gud.Flush.Work.frame_of
    gud.Flush.is_pending gud.Flush.map_frame gud.Flush.note_damage gud.Flush.Work.prepare_update
    queue_damage gud.Flush.reference gud.Flush.release gud.Flush.replace_fb gud.Flush.shadow_frame
    gud.Flush.Work.transfer_if_ok gud.Flush.unreference gud.Flush.Work.update_frame
    gud.Kernel.is_eagain gud.Kernel.is_ebusy gud.Kernel.is_enomem gud.Layout.format_bytes_per_pixel
    gud.Pipe.begin_payload gud.Pipe.bulk_trace_begin gud.Pipe.choose_payload
    gud.Pipe.payload_overflows gud.Pipe.rectangle_request gud.Pipe.submit_bulk
    gud.Pipe.transfer_probe gud.Tests.is_black gud.Usb.bulk_loop gud.Usb.pm_submission_allowed
    gud.Usb.set_buffer_loop gud.Usb.set_buffer_should_retry gud.Usb.status_to_errno
    gud.Usb.usb_bulk_write gud.Wire.encode_set_buffer gud.Wire.le32
updated_ok = refl

pipe_update-delivers_example :
    (receive 4 unpack_black (updated_host updated).log blank).pixels ≡ shown
unfolding gud.Layout.format_bytes_per_pixel receive
pipe_update-delivers_example =
    pipe_update-delivers compress_black unpack_black black-IsLz4 answering params modeset success
      true scanned async_init async_init host blank (updated_host updated) refl (omega arith) refl
      updated_ok

abbrev small_mode : DisplayModeReq
small_mode = record {
  clock = 1;
  hdisplay = 2;
  hsync_start = 2;
  hsync_end = 2;
  htotal = 2;
  vdisplay = 2;
  vsync_start = 2;
  vsync_end = 2;
  vtotal = 2;
  flags = 0;
}

abbrev crtc : CrtcState
crtc = record { mode = small_mode; mode_changed = true; connectors_changed = false }

abbrev checked : Fb
checked = record {
  width = 2;
  height = 2;
  pixel_format = rgb565;
  pitch = 4;
  offset = 0;
  object_size = 4096;
}

pipe_check-accepts_example :
    (host.gud.disconnected ≡ false)
    × (is_supported rgb565 ≡ true)
    × (rows_packed checked ≡ true)
    × (((pipe_check answering none (some checked) crtc host).2 ≡ host)
          × (has_old none ≡ true)
          × (format_changed none checked ≡ false)
          × (crtc.mode_changed ≡ false)
          × (crtc.connectors_changed ≡ false)
        ⊎ ((body : List ℕ) × (code : ℕ) × ((pipe_check answering none
                (some checked)
                crtc
                host).2.log
              ≡ control req_set_state_check body success ∷ [])
            × (decode_mode body ≡ some (seen small_mode, code ∷ 0 ∷ []))
            × (code ≡ 0x40)))
unfolding pipe_check is_supported rows_packed gud.Layout.format_bytes_per_pixel gud.Usb.usb_set
    gud.Wire.encode_state gud.Wire.encode_mode gud.Wire.le32 gud.Wire.le16
pipe_check-accepts_example = pipe_check-accepts answering none checked crtc host refl
