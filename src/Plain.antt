-- ===== src/Plain.antt =====
-- The driver without the full-update variant: the #else branches of gud_pipe_transfer and
-- gud_pipe_update of backport-4.9/gud_pipe.c. What vmap, usb_alloc_coherent and usb_alloc_urb return
-- is an argument.
pub mod Rounds
pub mod Delivery
pub mod Update
use gud.Base.{
  ℕ, zero, suc, ◌+◌, ◌-◌, ◌*◌, ◌/◌, ◌%◌, ◌^◌, min, Bool, true, false, not, Option, none, some, List,
  [], ◌∷◌, length, take, drop, ◌==◌, ltb, if◌then◌else◌,
}
use gud.Kernel.{Ret, success, failure, einval, enodev, enomem}
use gud.Layout.{
  format_frame_layout, FrameLayout, layout, no_layout, u32, validate_framebuffer_range,
}
use gud.Wire.{
  encode_set_buffer, req_set_buffer, req_set_controller_enable, req_set_state_commit,
  req_set_display_enable,
}
use gud.Usb.{Usb, Host, usb_set}
use gud.Pipe.{Job, Rectangle, bulk_trace_begin, rectangle_request, submit_bulk}
use gud.Flush.{ScanFb}

-- GUD_BULK_CHUNK_SIZE.
abbrev pub bulk_chunk_size : ℕ
bulk_chunk_size = 64 * 1024

-- What is fixed before the loop: as many complete rows to a payload as the bounce buffer holds.
unfoldable pub plain_job : ScanFb → FrameLayout → ℕ → Job
plain_job fb l max_buffer_size = record {
  width = fb.width;
  bytes_per_line = l.bytes_per_line;
  total = l.total;
  max_rows = min (u32 (min max_buffer_size bulk_chunk_size / l.bytes_per_line)) fb.height;
  source = take l.total (drop fb.offset fb.object);
}

-- The next rows of the frame, never compressed.
unfoldable pub plain_rectangle : Job → ℕ → Rectangle
plain_rectangle job offset =
    let rows = min job.max_rows (u32 ((job.total - offset) / job.bytes_per_line)) in
    let chunk = rows * job.bytes_per_line in
    record {
      rows = rows;
      source_length = chunk;
      payload = take chunk (drop offset job.source);
      compressed = false;
    }

module _ {Env : Type 0} (usb : Usb Env) (trace_limit : ℕ) where
  -- One round of the loop: one SET_BUFFER request, and its payload.
  unfoldable pub plain_round : Job → ℕ → Host Env → Ret × Host Env
  unfolding plain_rectangle
  plain_round job offset h =
      let r = plain_rectangle job offset in
      let begun = record h { gud = bulk_trace_begin trace_limit h.gud } in
      let (ret, h1) =
        usb_set usb req_set_buffer (encode_set_buffer (rectangle_request job offset r)) begun in
      if h.gud.disconnected
      then (failure enodev, h)
      else elim ret [ failure e ↦ (failure e, h1) | success ↦ submit_bulk usb r.payload h1 ]

  -- `for (offset = 0; offset < length; )`; `none` is only for fuel that runs out.
  unfoldable pub plain_loop : ℕ → Job → ℕ → Host Env → Option (Ret × Host Env)
  plain_loop zero job offset h = none
  plain_loop (suc fuel) job offset h =
      let (ret, h1) = plain_round job offset h in
      let rest = plain_loop fuel job (offset + (plain_rectangle job offset).source_length) h1 in
      if ltb offset job.total
      then elim ret [ failure e ↦ some (failure e, h1) | success ↦ rest ]
      else some (success, h)

  unfoldable pub plain_frame : Bool → ScanFb → FrameLayout → Host Env → Option (Ret × Host Env)
  unfolding plain_loop plain_job
  plain_frame allocated fb l h =
      let job = plain_job fb l h.gud.max_buffer_size in
      if u32 (min h.gud.max_buffer_size bulk_chunk_size / l.bytes_per_line) == 0
      then some (failure einval, h)
      else if not allocated
      then some (failure enomem, h)
      else plain_loop (suc l.total) job 0 h

  -- `allocated` is whether the bounce buffer and the URB are there.
  unfoldable pub plain_transfer : Ret → Bool → ScanFb → Host Env → Option (Ret × Host Env)
  unfolding plain_frame
  plain_transfer vmap allocated fb h =
      elim (format_frame_layout fb.width fb.height fb.pixel_format) [
        | no_layout e ↦ some (failure e, h)
        | layout l ↦ if h.gud.max_buffer_size == 0 then some (failure einval, h) else elim vmap [
          | failure e ↦ some (failure e, h)
          | success ↦ elim (validate_framebuffer_range fb.offset l.total (length fb.object)) [
            | failure e ↦ some (failure e, h)
            | success ↦ plain_frame allocated fb l h
          ]
        ]
      ]

  -- The state is committed on every update, before the controller and the display are enabled.
  unfoldable pub plain_prepare : Bool → Host Env → Ret × Host Env
  plain_prepare active h =
      let (ret1, h1) = usb_set usb req_set_state_commit [] h in
      let (ret2, h2) = usb_set usb req_set_controller_enable (1 ∷ []) h1 in
      let display = if active then 1 else 0 in
      elim ret1 [
        | failure e ↦ (failure e, h1)
        | success ↦ elim ret2 [
          | failure e ↦ (failure e, h2)
          | success ↦ usb_set usb req_set_display_enable (display ∷ []) h2
        ]
      ]

  -- gud_pipe_update with a framebuffer.
  unfoldable pub plain_update : Bool → Ret → Bool → ScanFb → Host Env → Option (Ret × Host Env)
  unfolding plain_prepare plain_transfer
  plain_update active vmap allocated fb h =
      let (ret, h1) = plain_prepare active h in
      let sent = plain_transfer vmap allocated fb h1 in
      elim ret [ failure e ↦ some (failure e, h1) | success ↦ sent ]
