-- ===== src/Pipe.antt =====
-- backport-4.9/gud_pipe.c with GUD_XDISP_FULL_UPDATE: a whole framebuffer is sent as rectangles of
-- complete rows, each announced by SET_BUFFER and followed by one bulk payload, raw or LZ4.
-- Left out are the log messages, the row checksums and the timing records, which change nothing
-- that is sent. `gud->lock` is held throughout a loop, so no other driver call interleaves.
pub mod Failure
pub mod Step
pub mod Delivery
pub mod Frame
pub mod Totality
pub mod Liveness
pub mod Success
use gud.Base.{
  ℕ, zero, suc, ◌+◌, ◌-◌, ◌*◌, ◌/◌, ◌%◌, ◌^◌, min, max, Bool, true, false, ◌||◌, ◌&&◌, not, Option,
  none, some, List, [], ◌∷◌, length, take, drop, replicate, ◌==◌, ltb, leb, bit_and, if◌then◌else◌,
}
use gud.Kernel.{Errno, Ret, success, failure, einval, eoverflow, e2big, enodev, eio, is_success}
use gud.Layout.{
  PixelFormat, format_bytes_per_pixel, format_frame_layout, FrameLayout, layout, no_layout, u32,
  validate_framebuffer_range,
}
use gud.Wire.{SetBufferReq, encode_set_buffer, req_set_buffer, compression_lz4}
use gud.Usb.{
  Usb, GudDevice, Host, usb_set, usb_bulk_write, set_buffer_loop, bulk_loop, busy_retries,
  eagain_retries, pm_submission_allowed,
}

-- The module parameters that the transfers read.
pub record Params : Type 0 where
  pub bulk_trace_limit : ℕ
  pub probe_payload_length : ℕ
  pub probe_pre_bulk_pause_ms : ℕ

-- A framebuffer: its geometry, and the bytes of its object from `offsets[0]` on.
pub record Framebuffer : Type 0 where
  pub width : ℕ
  pub height : ℕ
  pub pixel_format : PixelFormat
  pub pixels : List ℕ

-- One transfer: what is fixed before the loop.
pub record Job : Type 0 where
  pub width : ℕ
  pub bytes_per_line : ℕ
  pub total : ℕ
  pub max_rows : ℕ
  pub source : List ℕ

pub record Rectangle : Type 0 where
  pub rows : ℕ
  pub source_length : ℕ
  pub payload : List ℕ
  pub compressed : Bool

-- The counters of the statistics line.
pub record Stats : Type 0 where
  pub total_payload : ℕ
  pub max_payload : ℕ
  pub rectangles : ℕ
  pub compressed_rects : ℕ
  pub raw_rects : ℕ

abbrev int_limit : ℕ
int_limit = (2 ^ 32 - 1) / 2

-- gud_xdisp_lz4_compress_limited over the block compressor of the vendored LZ4; `none` is 0.
unfoldable pub lz4_compress_limited :
    (List ℕ → ℕ → Option (List ℕ)) → List ℕ → ℕ → ℕ → Option (List ℕ)
lz4_compress_limited lz4 source source_length capacity =
    if source_length == 0 || capacity == 0 || ltb int_limit source_length || ltb int_limit capacity
    then none
    else lz4 source capacity

unfoldable pub bulk_trace_begin : ℕ → GudDevice → GudDevice
bulk_trace_begin limit gud =
    if limit == 0 || leb limit gud.bulk_trace_count then gud else record gud {
      bulk_trace_count = u32 (gud.bulk_trace_count + 1);
      bulk_trace_sequence = (gud.bulk_trace_sequence + 1) % 2 ^ 64;
    }

-- The counters that one payload moves.
unfoldable pub begin_payload : ℕ → GudDevice → GudDevice
unfolding bulk_trace_begin
begin_payload limit gud =
    let traced = bulk_trace_begin limit gud in
    record traced { xdisp_payload_sequence = (traced.xdisp_payload_sequence + 1) % 2 ^ 64 }

-- The compressed block is kept only if it is smaller than the rows.
unfoldable pub choose_payload : List ℕ → ℕ → Option (List ℕ) → List ℕ × Bool
choose_payload chunk source_length none = (chunk, false)
choose_payload chunk source_length (some block) =
    if ltb 0 (length block) && ltb (length block) source_length
    then (block, true)
    else (chunk, false)

unfoldable pub plan_rectangle : (List ℕ → ℕ → Option (List ℕ)) → Job → ℕ → GudDevice → Rectangle
unfolding choose_payload
plan_rectangle lz4 job offset gud =
    let remaining_rows = u32 ((job.total - offset) / job.bytes_per_line) in
    let rows = min remaining_rows job.max_rows in
    let source_length = rows * job.bytes_per_line in
    let chunk = take source_length (drop offset job.source) in
    let (payload, compressed) = choose_payload chunk source_length (
      if bit_and gud.compression compression_lz4 == 0
      then none
      else lz4_compress_limited lz4 chunk source_length source_length) in
    record {
      rows = rows;
      source_length = source_length;
      payload = payload;
      compressed = compressed;
    }

unfoldable pub payload_overflows : Rectangle → GudDevice → Bool
payload_overflows r gud =
    r.rows == 0
    || r.source_length == 0
    || length r.payload == 0
    || ltb gud.xdisp_max_source_length r.source_length
    || ltb gud.xdisp_bulk_buffer_size (length r.payload)

unfoldable pub rectangle_request : Job → ℕ → Rectangle → SetBufferReq
rectangle_request job offset r = record {
  x = 0;
  y = offset / job.bytes_per_line;
  width = job.width;
  height = r.rows;
  total = r.source_length;
  compression = if r.compressed then compression_lz4 else 0;
  compressed_length = if r.compressed then length r.payload else 0;
}

count_rectangle : Rectangle → Stats → Stats
count_rectangle r s = record {
  total_payload = s.total_payload + length r.payload;
  max_payload = max s.max_payload (length r.payload);
  rectangles = s.rectangles + 1;
  compressed_rects = if r.compressed then s.compressed_rects + 1 else s.compressed_rects;
  raw_rects = if r.compressed then s.raw_rects else s.raw_rects + 1;
}

abbrev pub no_stats : Stats
no_stats = record {
  total_payload = 0;
  max_payload = 0;
  rectangles = 0;
  compressed_rects = 0;
  raw_rects = 0;
}

-- What is fixed before the loop: as many complete rows to a payload as the buffers hold.
unfoldable pub frame_job : Framebuffer → FrameLayout → ℕ → Job
frame_job fb l limit = record {
  width = fb.width;
  bytes_per_line = l.bytes_per_line;
  total = l.total;
  max_rows = u32 (min limit l.total / l.bytes_per_line);
  source = fb.pixels;
}

unfoldable pub start_frame : {Env : Type 0} → Host Env → Host Env
start_frame h = record h {
  gud = record (h.gud) { xdisp_frame_sequence = (h.gud.xdisp_frame_sequence + 1) % 2 ^ 64 };
}

module _ {Env : Type 0} (usb : Usb Env) where
  unfoldable pub submit_bulk : List ℕ → Host Env → Ret × Host Env
  submit_bulk payload h =
      let (ret, actual, h') = bulk_loop usb eagain_retries payload 0 h in
      elim ret [
        | failure e ↦ (failure e, h')
        | success ↦ if actual == length payload then (success, h') else (failure eio, h')
      ]

  unfoldable pub submit_payload : SetBufferReq → List ℕ → Host Env → Ret × Host Env
  unfolding submit_bulk
  submit_payload request payload h =
      let (ret, h') = set_buffer_loop usb busy_retries (encode_set_buffer request) h in
      elim ret [ failure e ↦ (failure e, h') | success ↦ submit_bulk payload h' ]

module _ {Env : Type 0} (usb : Usb Env) (lz4 : List ℕ → ℕ → Option (List ℕ)) (params : Params) where
  -- From the overflow check to the counters and the two transfers.
  unfoldable pub send_planned : Job → ℕ → Rectangle → Host Env → Ret × Host Env
  unfolding payload_overflows
  send_planned job offset r h =
      if payload_overflows r h.gud
      then (failure eoverflow, h)
      else submit_payload usb (rectangle_request job offset r) r.payload
          (record h { gud = begin_payload params.bulk_trace_limit h.gud })

  -- One round of the loop.
  unfoldable pub send_rectangle : Job → ℕ → Host Env → Ret × Host Env
  unfolding pm_submission_allowed
  send_rectangle job offset h =
      if h.gud.disconnected then (failure enodev, h) else elim (pm_submission_allowed h.gud) [
        | failure e ↦ (failure e, h)
        | success ↦ send_planned job offset (plan_rectangle lz4 job offset h.gud) h
      ]

  -- `while (offset < length)`; `none` is only for fuel that runs out.
  unfoldable pub transfer_loop : ℕ → Job → ℕ → Stats → Host Env → Option (Ret × Stats × Host Env)
  unfolding count_rectangle
  transfer_loop zero job offset stats h = none
  transfer_loop (suc fuel) job offset stats h = elim (ltb offset job.total) [
    | false ↦ some (success, stats, h)
    | true ↦
        let r = plan_rectangle lz4 job offset h.gud in
        let (ret, h') = send_rectangle job offset h in
        elim ret [
          | failure e ↦ some (failure e, stats, h')
          | success ↦ transfer_loop fuel job (offset + r.source_length) (count_rectangle r stats) h'
        ]
  ]

  -- The test-only single payload of zero bytes.
  unfoldable pub transfer_probe : Framebuffer → Host Env → Ret × Host Env
  transfer_probe fb h =
      let bpp = format_bytes_per_pixel fb.pixel_format in
      let raw_length = params.probe_payload_length in
      let line = fb.width * bpp in
      let height = u32 (raw_length / line) in
      let request : SetBufferReq = record {
        x = 0;
        y = 0;
        width = fb.width;
        height = height;
        total = raw_length;
        compression = 0;
        compressed_length = 0;
      } in
      if bpp == 0 || ltb h.gud.xdisp_bulk_buffer_size raw_length
      then (failure einval, h)
      else if ltb 90000 params.probe_pre_bulk_pause_ms
      then (failure einval, h)
      else if not (raw_length % line == 0)
      then (failure einval, h)
      else if height == 0 || ltb fb.height height
      then (failure einval, h)
      else let (ret, h1) = usb_set usb req_set_buffer (encode_set_buffer request) h in
        elim ret [
          | failure e ↦ (failure e, h1)
          | success ↦
              let (result, actual, h2) = usb_bulk_write usb (replicate raw_length 0) 0 h1 in
              elim result [
                | failure e ↦ (failure e, h2)
                | success ↦ if actual == raw_length then (success, h2) else (failure eio, h2)
              ]
        ]

  -- The fuel of the loop is one more than the length of the frame.
  unfoldable pub transfer_frame :
      Framebuffer → FrameLayout → Host Env → Option (Ret × Stats × Host Env)
  transfer_frame fb l h =
      let job = frame_job fb l h.gud.xdisp_max_source_length in
      if ltb h.gud.xdisp_max_source_length l.bytes_per_line
      then some (failure e2big, no_stats, h)
      else if job.max_rows == 0
      then some (failure einval, no_stats, h)
      else transfer_loop (suc l.total) job 0 no_stats (start_frame h)

  unfoldable pub transfer_buffer : Framebuffer → Host Env → Option (Ret × Stats × Host Env)
  transfer_buffer fb h =
      if not (params.probe_payload_length == 0)
      then (let (ret, h') = transfer_probe fb h in some (ret, no_stats, h'))
      else if h.gud.max_buffer_size == 0
      then some (failure einval, no_stats, h)
      else elim (format_frame_layout fb.width fb.height fb.pixel_format) [
        | no_layout e ↦ some (failure e, no_stats, h)
        | layout l ↦ transfer_frame fb l h
      ]
