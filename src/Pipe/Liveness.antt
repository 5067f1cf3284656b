-- ===== src/Pipe/Liveness.antt =====
-- With a USB core that moves every byte and a display that accepts every request, the transfer of
-- a frame that fits the negotiated buffers returns 0.
use gud.Base.{
  ℕ, zero, suc, ◌+◌, ◌-◌, ◌*◌, ◌/◌, ◌^◌, ◌≤◌, ◌<◌, min, ◌≡◌, ap, ◌∙◌, arith, false, Option, none,
  some, List, length, bit_and, if◌then◌else◌, ◌==◌, take, drop,
}
use gud.Kernel.{success, is_eagain}
use gud.Layout.{u32}
use gud.Wire.{req_set_buffer, encode_set_buffer, SetBufferReq, compression_lz4}
use gud.Usb.{
  Usb, GudDevice, Host, moved, status_byte, completed, usb_set, usb_bulk_write, set_buffer_loop,
  bulk_loop, busy_retries, eagain_retries, set_buffer_should_retry,
}
use gud.Usb.Retry.{set_buffer_loop-gud, bulk_loop-gud}
use gud.Pipe.{
  Params, Job, Rectangle, plan_rectangle, payload_overflows, begin_payload, lz4_compress_limited,
  submit_bulk, submit_payload, send_planned, send_rectangle, rectangle_request, choose_payload,
}
use gud.Pipe.Step.{IsJob, mul-div, rows_within, length-chunk}

pub record IsReliable {Env : Type 0} (usb : Usb Env) : Type 0 where
  pub control_all :
      (request : ℕ) (body : List ℕ) (env : Env)
      → (usb.control_out request body env).0 ≡ moved (length body)
  pub status_zero : (env : Env) → (usb.get_status env).0 ≡ status_byte 0
  pub bulk_all :
      (payload : List ℕ) (env : Env)
      → (usb.bulk_out payload env).0 ≡ completed success (length payload)

-- The device is there and awake, and its buffers hold the rows that one payload may have.
pub record IsReady (job : Job) (gud : GudDevice) : Type 0 where
  pub connected : gud.disconnected ≡ false
  pub awake : gud.pm_suspended ≡ false
  pub rows_fit : job.max_rows * job.bytes_per_line ≤ gud.xdisp_max_source_length
  pub payload_fits : gud.xdisp_max_source_length ≤ gud.xdisp_bulk_buffer_size

begin_payload-IsReady :
    (job : Job) (limit : ℕ) (gud : GudDevice)
    → IsReady job gud
    → IsReady job (begin_payload limit gud)
unfolding begin_payload
begin_payload-IsReady job limit gud i = ground arith

module _ {Env : Type 0} (usb : Usb Env) (good : IsReliable usb) where
  usb_set-succeeds :
      (request : ℕ) (body : List ℕ) (h : Host Env)
      → h.gud.disconnected ≡ false
      → h.gud.pm_suspended ≡ false
      → (usb_set usb request body h).0 ≡ success
  unfolding usb_set
  usb_set-succeeds request body h c a = ground (
    arith,
    good.control_all request body h.env,
    good.status_zero (usb.control_out request body h.env).1,
  )

  usb_bulk_write-succeeds :
      (payload : List ℕ) (actual : ℕ) (h : Host Env)
      → ((usb_bulk_write usb payload actual h).0 ≡ success)
        × ((usb_bulk_write usb payload actual h).1 ≡ length payload)
  unfolding usb_bulk_write
  usb_bulk_write-succeeds payload actual h = ground (arith, good.bulk_all payload h.env)

  set_buffer_loop-succeeds :
      (left : ℕ) (body : List ℕ) (h : Host Env)
      → h.gud.disconnected ≡ false
      → h.gud.pm_suspended ≡ false
      → (set_buffer_loop usb left body h).0 ≡ success
  unfolding set_buffer_loop set_buffer_should_retry
  set_buffer_loop-succeeds zero body h c a = usb_set-succeeds req_set_buffer body h c a
  set_buffer_loop-succeeds (suc left) body h c a =
      ground (arith, usb_set-succeeds req_set_buffer body h c a)

  bulk_loop-succeeds :
      (left : ℕ) (payload : List ℕ) (actual : ℕ) (h : Host Env)
      → ((bulk_loop usb left payload actual h).0 ≡ success)
        × ((bulk_loop usb left payload actual h).1 ≡ length payload)
  unfolding bulk_loop is_eagain
  bulk_loop-succeeds zero payload actual h = usb_bulk_write-succeeds payload actual h
  bulk_loop-succeeds (suc left) payload actual h =
      ground (arith, usb_bulk_write-succeeds payload actual h)

  submit_payload-succeeds :
      (request : SetBufferReq) (payload : List ℕ) (h : Host Env)
      → h.gud.disconnected ≡ false
      → h.gud.pm_suspended ≡ false
      → ((submit_payload usb request payload h).0 ≡ success)
        × ((submit_payload usb request payload h).1.gud ≡ h.gud)
  unfolding submit_payload submit_bulk
  submit_payload-succeeds request payload h c a =
      let h1 = (set_buffer_loop usb busy_retries (encode_set_buffer request) h).1 in
      ground (
        arith,
        set_buffer_loop-succeeds busy_retries (encode_set_buffer request) h c a,
        set_buffer_loop-gud usb busy_retries (encode_set_buffer request) h,
        bulk_loop-succeeds eagain_retries payload 0 h1,
        bulk_loop-gud usb eagain_retries payload 0 h1,
      )

lt_of_mul : (k rows line : ℕ) → k * line < rows * line → k < rows
lt_of_mul k rows line h = grind arith

rows_left : (k d line : ℕ) → 0 < line → ((k + d) * line - k * line) / line ≡ d
rows_left k d line p =
    let e : (k + d) * line - k * line ≡ d * line = omega arith in rw e (mul-div d line p)

le-mul_line : (d line : ℕ) → 0 < line → d ≤ d * line
le-mul_line d line p = grind arith

-- At least one row is left when the offset is before the end of a frame of whole rows.
row_left :
    (rows k line : ℕ)
    → 0 < line
    → k * line < rows * line
    → rows * line < 2 ^ 32
    → 0 < u32 ((rows * line - k * line) / line)
row_left rows k line p more fits =
    let below : k < rows = lt_of_mul k rows line more in
    let split : rows ≡ k + (rows - k) = omega arith in
    let left : (rows * line - k * line) / line ≡ rows - k =
      ap (λ n. (n * line - k * line) / line) split ∙ rows_left k (rows - k) line p in
    let small : rows ≤ rows * line = le-mul_line rows line p in omega (arith, left)

pos_mul : (a b : ℕ) → 0 < a → 0 < b → 0 < a * b
pos_mul a b p q = grind arith

mul_mono : (a b c : ℕ) → a ≤ b → a * c ≤ b * c
mul_mono a b c h = grind arith

payload_bound :
    (lz4 : List ℕ → ℕ → Option (List ℕ)) (chunk : List ℕ) (n : ℕ) (block : Option (List ℕ))
    → length chunk ≡ n
    → 0 < n
    → (0 < length (choose_payload chunk n block).0) × (length (choose_payload chunk n block).0 ≤ n)
unfolding choose_payload
payload_bound lz4 chunk n none e p = omega arith
payload_bound lz4 chunk n (some b) e p = ground arith

payload_fits :
    (r : Rectangle) (gud : GudDevice)
    → 0 < r.rows
    → 0 < r.source_length
    → 0 < length r.payload
    → r.source_length ≤ gud.xdisp_max_source_length
    → length r.payload ≤ gud.xdisp_bulk_buffer_size
    → payload_overflows r gud ≡ false
unfolding payload_overflows
payload_fits r gud a b c d e = ground arith

module _ {Env : Type 0} (usb : Usb Env) (good : IsReliable usb) (lz4 : List ℕ → ℕ → Option (List ℕ))
    (params : Params) (job : Job) (j : IsJob job) (height : ℕ)
    (whole : job.total ≡ height * job.bytes_per_line) (some_rows : 0 < job.max_rows) where
  plan_fits :
      (k : ℕ) (gud : GudDevice)
      → IsReady job gud
      → k * job.bytes_per_line < job.total
      → payload_overflows (plan_rectangle lz4 job (k * job.bytes_per_line) gud) gud ≡ false
  unfolding plan_rectangle
  plan_fits k gud i more =
      let offset : ℕ = k * job.bytes_per_line in
      let rows : ℕ = min (u32 ((job.total - offset) / job.bytes_per_line)) job.max_rows in
      let left : 0 < u32 ((job.total - offset) / job.bytes_per_line) = rw whole (
        row_left height k job.bytes_per_line j.line_pos (rw whole at more)
          (rw whole at j.total_fits)) in
      let some_left : 0 < rows = omega arith in
      let within =
        rows_within job.total offset job.bytes_per_line job.max_rows j.line_pos (omega arith) in
      let source_pos = pos_mul rows job.bytes_per_line some_left j.line_pos in
      let source_fits = mul_mono rows job.max_rows job.bytes_per_line (omega arith) in
      let n : ℕ = rows * job.bytes_per_line in
      let chunk : List ℕ = take n (drop offset job.source) in
      let block : Option (List ℕ) =
        if bit_and gud.compression compression_lz4 == 0
        then none
        else lz4_compress_limited lz4 chunk n n in
      let bounds =
        payload_bound lz4 chunk n block
          (length-chunk job.source offset n (omega (arith, j.source_whole))) source_pos in
      payload_fits (plan_rectangle lz4 job offset gud) gud some_left source_pos bounds.0
        (omega arith) (omega arith)

  pub send_rectangle-succeeds :
      (k : ℕ) (h : Host Env)
      → IsReady job h.gud
      → k * job.bytes_per_line < job.total
      → let (ret, h') = send_rectangle usb lz4 params job (k * job.bytes_per_line) h in
        (ret ≡ success) × IsReady job h'.gud
  unfolding send_rectangle send_planned
  send_rectangle-succeeds k h i more =
      let offset : ℕ = k * job.bytes_per_line in
      let r = plan_rectangle lz4 job offset h.gud in
      let begun : Host Env = record h { gud = begin_payload params.bulk_trace_limit h.gud } in
      ground (
        arith,
        plan_fits k h.gud i more,
        begin_payload-IsReady job params.bulk_trace_limit h.gud i,
        submit_payload-succeeds usb good (rectangle_request job offset r) r.payload begun,
      )
