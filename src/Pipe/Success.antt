-- ===== src/Pipe/Success.antt =====
-- The whole transfer over a reliable USB core.
use gud.Base.{
  ℕ, zero, suc, ◌+◌, ◌-◌, ◌*◌, ◌/◌, ◌^◌, ◌≤◌, ◌<◌, min, ◌≡◌, sym, ◌∙◌, ap, arith, false, Option,
  some, List, length, inl, inr, Bool-cases, ltb, ltb→lt,
}
use gud.Kernel.{success}
use gud.Layout.{u32, FrameLayout, layout, format_frame_layout, format_bytes_per_pixel}
use gud.Layout.Bounds.{IsLayout, format_frame_layout-IsLayout, format_frame_layout_complete}
use gud.Usb.{Usb, Host, GudDevice}
use gud.Pipe.{
  Params, Job, Stats, Framebuffer, plan_rectangle, send_rectangle, transfer_loop, transfer_frame,
  transfer_buffer, count_rectangle, frame_job, start_frame, no_stats,
}
use gud.Pipe.Step.{IsJob, rows_within}
use gud.Pipe.Frame.{frame_job-IsJob}
use gud.Pipe.Totality.{send_rectangle_progress}
use gud.Pipe.Delivery.{line_step}
use gud.Pipe.Liveness.{IsReliable, IsReady, send_rectangle-succeeds}

module _ {Env : Type 0} (usb : Usb Env) (good : IsReliable usb) (lz4 : List ℕ → ℕ → Option (List ℕ))
    (params : Params) (job : Job) (j : IsJob job) (height : ℕ)
    (whole : job.total ≡ height * job.bytes_per_line) (some_rows : 0 < job.max_rows) where
  next_offset :
      (k : ℕ) (h : Host Env)
      → k * job.bytes_per_line ≤ job.total
      → let r = plan_rectangle lz4 job (k * job.bytes_per_line) h.gud in
        (k * job.bytes_per_line + r.source_length ≡ (k + r.rows) * job.bytes_per_line)
        × (k * job.bytes_per_line + r.source_length ≤ job.total)
  unfolding plan_rectangle
  next_offset k h o =
      let r = plan_rectangle lz4 job (k * job.bytes_per_line) h.gud in
      (
        line_step k r.rows job.bytes_per_line,
        rows_within job.total (k * job.bytes_per_line) job.bytes_per_line job.max_rows j.line_pos o,
      )

  pub transfer_loop-succeeds :
      (fuel k : ℕ) (stats : Stats) (h : Host Env)
      → IsReady job h.gud
      → k * job.bytes_per_line ≤ job.total
      → job.total - k * job.bytes_per_line < fuel
      → (stats' : Stats) × (h' : Host Env) × (transfer_loop usb lz4 params fuel job
            (k * job.bytes_per_line)
            stats
            h
          ≡ some (success, stats', h'))
  unfolding transfer_loop
  transfer_loop-succeeds zero k stats h i o m = absurd (omega arith)
  transfer_loop-succeeds (suc fuel) k stats h i o m =
      let offset : ℕ = k * job.bytes_per_line in
      let r = plan_rectangle lz4 job offset h.gud in
      elim (Bool-cases (ltb offset job.total)) [
        | inr done ↦ (stats, h, ground arith)
        | inl more ↦
            let sent =
              send_rectangle-succeeds usb good lz4 params job j height whole some_rows k h i
                (ltb→lt _ _ more) in
            let progress = send_rectangle_progress usb lz4 params job offset h sent.0 in
            let next = next_offset k h o in
            let (stats', h', run) =
              transfer_loop-succeeds fuel (k + r.rows) (count_rectangle r stats)
                (send_rectangle usb lz4 params job offset h).1 sent.1 (omega (arith, next))
                (omega (arith, next)) in
            (stats', h', ground (arith, next.0))
      ]

-- A device that is plugged in, awake, and whose buffers hold a line of the frame.
pub record CanTake (fb : Framebuffer) (gud : GudDevice) : Type 0 where
  pub connected : gud.disconnected ≡ false
  pub awake : gud.pm_suspended ≡ false
  pub negotiated : 0 < gud.max_buffer_size
  pub line_fits : fb.width * format_bytes_per_pixel fb.pixel_format ≤ gud.xdisp_max_source_length
  pub payload_fits : gud.xdisp_max_source_length ≤ gud.xdisp_bulk_buffer_size
  pub source_bounded : gud.xdisp_max_source_length < 2 ^ 32

line-le-mul : (line height : ℕ) → 0 < height → line ≤ line * height
line-le-mul line height h = grind arith

div_pos : (m line : ℕ) → 0 < line → line ≤ m → 0 < m / line
div_pos m line p h = grind arith

div_mul : (m line : ℕ) → 0 < line → m / line * line ≤ m
div_mul m line p = grind arith

div_le : (m line : ℕ) → 0 < line → m / line ≤ m
div_le m line p = grind arith

div_facts :
    (m line : ℕ) → 0 < line → line ≤ m → (0 < m / line) × (m / line * line ≤ m) × (m / line ≤ m)
div_facts m line p h = (div_pos m line p h, div_mul m line p, div_le m line p)

rows_of_limit :
    (limit total line height : ℕ)
    → 0 < line
    → line ≤ limit
    → total ≡ line * height
    → 0 < height
    → total < 2 ^ 32
    → (0 < u32 (min limit total / line)) × (u32 (min limit total / line) * line ≤ limit)
rows_of_limit limit total line height p a e h t =
    let m : ℕ = min limit total in
    let total_line : line ≤ total = rw e (line-le-mul line height h) in
    let quotient = div_facts m line p (omega arith) in
    let unwrapped : u32 (m / line) ≡ m / line = omega (arith, quotient) in
    rw unwrapped (omega (arith, quotient))

frame_job-IsReady :
    (fb : Framebuffer) (l : FrameLayout) {Env : Type 0} (h : Host Env)
    → IsLayout fb.width fb.height fb.pixel_format l
    → CanTake fb h.gud
    → IsReady (frame_job fb l h.gud.xdisp_max_source_length) (start_frame h).gud
      × (0 < (frame_job fb l h.gud.xdisp_max_source_length).max_rows)
unfolding frame_job start_frame
frame_job-IsReady fb l h i c =
    let rows =
      rows_of_limit h.gud.xdisp_max_source_length l.total l.bytes_per_line fb.height i.line_pos
        (rw i.line_exact c.line_fits) i.total_exact i.height_pos (omega (arith, i.total_fits)) in
    (
      record {
        connected = c.connected;
        awake = c.awake;
        rows_fit = rows.1;
        payload_fits = c.payload_fits;
      },
      rows.0,
    )

module _ {Env : Type 0} (usb : Usb Env) (good : IsReliable usb) (lz4 : List ℕ → ℕ → Option (List ℕ))
    (params : Params) where
  transfer_frame-succeeds :
      (fb : Framebuffer) (l : FrameLayout) (h : Host Env)
      → IsLayout fb.width fb.height fb.pixel_format l
      → fb.width < 2 ^ 32
      → length fb.pixels ≡ l.total
      → CanTake fb h.gud
      → (stats : Stats) × (h' : Host Env) × (transfer_frame usb lz4 params fb l h
          ≡ some (success, stats, h'))
  unfolding transfer_frame frame_job
  transfer_frame-succeeds fb l h i w e c =
      let job = frame_job fb l h.gud.xdisp_max_source_length in
      let (ready, rows) = frame_job-IsReady fb l h i c in
      let start : 0 * l.bytes_per_line ≡ 0 = omega arith in
      let (stats, h', run) =
        transfer_loop-succeeds usb good lz4 params job
          (frame_job-IsJob fb l h.gud.xdisp_max_source_length i w e) fb.height
          (omega (arith, i.total_exact)) rows (suc l.total) 0 no_stats (start_frame h) ready
          (omega arith) (omega arith) in
      let from_zero =
        ap (λ n. transfer_loop usb lz4 params (suc l.total) job n no_stats (start_frame h))
          (sym start)
        ∙ run in
      (stats, h', ground (arith, i.line_exact, c.line_fits))

  -- Over a USB core that accepts every transaction, a transfer returns 0: for a wholly mapped
  -- frame whose width fits 32 bits, with a positive height and line and a length below 2^32, on
  -- a connected, awake device whose buffers hold a line of it, with probing off.
  pub transfer_buffer-succeeds :
      (fb : Framebuffer) (h : Host Env)
      → params.probe_payload_length ≡ 0
      → fb.width < 2 ^ 32
      → 0 < fb.height
      → 0 < fb.width * format_bytes_per_pixel fb.pixel_format
      → fb.width * format_bytes_per_pixel fb.pixel_format * fb.height < 2 ^ 32
      → length fb.pixels ≡ fb.width * format_bytes_per_pixel fb.pixel_format * fb.height
      → CanTake fb h.gud
      → (stats : Stats) × (h' : Host Env) × (transfer_buffer usb lz4 params fb h
          ≡ some (success, stats, h'))
  unfolding transfer_buffer
  transfer_buffer-succeeds fb h no_probe w height_pos line_pos fits e c =
      let line : ℕ = fb.width * format_bytes_per_pixel fb.pixel_format in
      let l : FrameLayout = record { bytes_per_line = line; total = line * fb.height } in
      let found : format_frame_layout fb.width fb.height fb.pixel_format ≡ layout l =
        format_frame_layout_complete fb.width fb.height fb.pixel_format w height_pos line_pos
          (omega arith) in
      let i = format_frame_layout-IsLayout fb.width fb.height fb.pixel_format l w found in
      let (stats, h', run) = transfer_frame-succeeds fb l h i w e c in
      (stats, h', ground (arith, c.negotiated))
