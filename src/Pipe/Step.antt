-- ===== src/Pipe/Step.antt =====
-- One rectangle of the loop in gud_pipe.c: what a successful round writes at the display.
use gud.Base.{
  subst, ℕ, ◌+◌, ◌-◌, ◌*◌, ◌/◌, ◌^◌, ◌≤◌, ◌<◌, min, ◌≡◌, refl, arith, true, false, Option, none,
  some, List, length, take, drop, length-take, length-drop, inl, if◌then◌else◌, ◌==◌, ◌⊎◌, bit_and,
}
use gud.Kernel.{success}
use gud.Layout.{u32}
use gud.Wire.{SetBufferReq, encode_set_buffer, compression_lz4, req_set_buffer}
use gud.Wire.RoundTrip.{Fits, decode-encode_set_buffer}
use gud.Usb.{Usb, GudDevice, Host, control, bulk, set_buffer_loop, busy_retries, eagain_retries}
use gud.Display.{Display, receive, receive_event, splice}
use gud.Display.Effects.{receive-set_buffer_loop, receive-bulk_loop}
use gud.Pipe.{
  Params, Job, Rectangle, lz4_compress_limited, choose_payload, plan_rectangle, rectangle_request,
  submit_bulk, submit_payload, send_planned, send_rectangle, begin_payload,
}

-- What the driver relies on of the block compressor: a block unpacks to what was compressed.
pub record IsLz4 (lz4 : List ℕ → ℕ → Option (List ℕ)) (decompress : List ℕ → ℕ → Option (List ℕ))
    : Type 0 where
  pub unpacks :
      (source : List ℕ) (capacity : ℕ) (block : List ℕ)
      → lz4 source capacity ≡ some block
      → decompress block (length source) ≡ some source

-- A job as transfer_frame makes it, over a frame whose mapped bytes are all there.
pub record IsJob (job : Job) : Type 0 where
  pub line_pos : 0 < job.bytes_per_line
  pub total_fits : job.total < 2 ^ 32
  pub width_fits : job.width < 2 ^ 32
  pub source_whole : length job.source ≡ job.total

-- What one rectangle does: the rows are written, and nothing is announced any more.
abbrev pub after_rectangle : ℕ → List ℕ → Display → Display
after_rectangle offset chunk d = record { pixels = splice offset chunk d.pixels; pending = none }

abbrev pub chunk_of : Job → ℕ → ℕ → List ℕ
chunk_of job offset n = take n (drop offset job.source)

module _ (pitch : ℕ) (decompress : List ℕ → ℕ → Option (List ℕ)) {Env : Type 0}
    (usb : Usb Env) where
  pub receive-submit_bulk :
      (payload : List ℕ) (h : Host Env) (d : Display)
      → (submit_bulk usb payload h).0 ≡ success
      → receive pitch decompress (submit_bulk usb payload h).1.log d
        ≡ receive_event pitch decompress
            (bulk payload success (length payload))
            (receive pitch decompress h.log d)
  unfolding submit_bulk
  receive-submit_bulk payload h d e =
      ground (arith, receive-bulk_loop pitch decompress usb eagain_retries payload 0 h d)

  receive-submit_payload :
      (request : SetBufferReq) (payload : List ℕ) (h : Host Env) (d : Display)
      → (submit_payload usb request payload h).0 ≡ success
      → receive pitch decompress (submit_payload usb request payload h).1.log d
        ≡ receive_event pitch decompress (bulk payload success (length payload)) (
            receive_event pitch decompress
              (control req_set_buffer (encode_set_buffer request) success)
              (receive pitch decompress h.log d))
  unfolding submit_payload
  receive-submit_payload request payload h d e =
      let (ret, h') = set_buffer_loop usb busy_retries (encode_set_buffer request) h in
      ground (
        arith,
        receive-set_buffer_loop pitch decompress usb busy_retries (encode_set_buffer request) h d,
        receive-submit_bulk payload h' d,
      )

pub mul-le_of_div : (a b c : ℕ) → 0 < c → a ≤ b / c → a * c ≤ b
mul-le_of_div a b c p h = grind arith

pub rows_within :
    (total offset line limit : ℕ)
    → 0 < line
    → offset ≤ total
    → offset + min (u32 ((total - offset) / line)) limit * line ≤ total
rows_within total offset line limit p o =
    let rows : ℕ = min (u32 ((total - offset) / line)) limit in
    omega (arith, mul-le_of_div rows (total - offset) line p (omega arith))

pub length-chunk :
    (source : List ℕ) (offset n : ℕ)
    → offset + n ≤ length source
    → length (take n (drop offset source)) ≡ n
length-chunk source offset n h =
    omega (arith, length-take n (drop offset source), length-drop offset source)

pub le-mul : (a c : ℕ) → 0 < c → a ≤ a * c
le-mul a c p = grind arith

pub mul-div : (a c : ℕ) → 0 < c → a * c / c ≡ a
mul-div a c p = grind arith

module _ (lz4 : List ℕ → ℕ → Option (List ℕ)) (decompress : List ℕ → ℕ → Option (List ℕ))
    (law : IsLz4 lz4 decompress) where
  -- Whatever was chosen, the display unpacks the rows.
  choose_payload-unpacks :
      (chunk : List ℕ) (block : Option (List ℕ))
      → ((b : List ℕ) → block ≡ some b → decompress b (length chunk) ≡ some chunk)
      → let (payload, compressed) = choose_payload chunk (length chunk) block in
        (compressed ≡ false) × (payload ≡ chunk)
        ⊎ (compressed ≡ true)
          × (length payload < length chunk)
          × (decompress payload (length chunk) ≡ some chunk)
  unfolding choose_payload
  choose_payload-unpacks chunk none h = inl (refl, refl)
  choose_payload-unpacks chunk (some b) h = ground (arith, h b)

  lz4_compress_limited-unpacks :
      (chunk b : List ℕ)
      → lz4_compress_limited lz4 chunk (length chunk) (length chunk) ≡ some b
      → decompress b (length chunk) ≡ some chunk
  unfolding lz4_compress_limited
  lz4_compress_limited-unpacks chunk b e = ground (arith, law.unpacks chunk (length chunk) b)

  -- The plan of a rectangle that starts on a row and ends within the frame.
  pub record IsPlanned (job : Job) (offset : ℕ) (r : Rectangle) : Type 0 where
    pub whole_rows : r.source_length ≡ r.rows * job.bytes_per_line
    pub within : offset + r.source_length ≤ job.total
    pub chunk_length : length (chunk_of job offset r.source_length) ≡ r.source_length
    pub unpacks :
        (r.compressed ≡ false) × (r.payload ≡ chunk_of job offset r.source_length)
        ⊎ (r.compressed ≡ true)
          × (length r.payload < r.source_length)
          × (decompress r.payload r.source_length ≡ some (chunk_of job offset r.source_length))

  -- The block that the rectangle's compression attempt gives.
  abbrev attempt : ℕ → List ℕ → ℕ → Option (List ℕ)
  attempt compression chunk n =
      if bit_and compression compression_lz4 == 0 then none else lz4_compress_limited lz4 chunk n n

  attempt-unpacks :
      (compression : ℕ) (chunk : List ℕ) (b : List ℕ)
      → attempt compression chunk (length chunk) ≡ some b
      → decompress b (length chunk) ≡ some chunk
  attempt-unpacks compression chunk b e = ground (arith, lz4_compress_limited-unpacks chunk b)

  choose_of_length :
      (compression : ℕ) (chunk : List ℕ) (n : ℕ)
      → length chunk ≡ n
      → let (payload, compressed) = choose_payload chunk n (attempt compression chunk n) in
        (compressed ≡ false) × (payload ≡ chunk)
        ⊎ (compressed ≡ true) × (length payload < n) × (decompress payload n ≡ some chunk)
  choose_of_length compression chunk n e =
      subst
        (λ k.
          let (payload, compressed) = choose_payload chunk k (attempt compression chunk k) in
          (compressed ≡ false) × (payload ≡ chunk)
          ⊎ (compressed ≡ true) × (length payload < k) × (decompress payload k ≡ some chunk))
        e
        (choose_payload-unpacks chunk (attempt compression chunk (length chunk))
          (attempt-unpacks compression chunk))

  pub plan_rectangle-IsPlanned :
      (job : Job) (offset : ℕ) (gud : GudDevice)
      → IsJob job
      → offset ≤ job.total
      → IsPlanned job offset (plan_rectangle lz4 job offset gud)
  unfolding plan_rectangle
  plan_rectangle-IsPlanned job offset gud j o =
      let n : ℕ =
        min (u32 ((job.total - offset) / job.bytes_per_line)) job.max_rows * job.bytes_per_line in
      let fits : offset + n ≤ job.total =
        rows_within job.total offset job.bytes_per_line job.max_rows j.line_pos o in
      let whole : length (chunk_of job offset n) ≡ n =
        length-chunk job.source offset n (omega (arith, j.source_whole)) in
      record {
        whole_rows = refl;
        within = fits;
        chunk_length = whole;
        unpacks = choose_of_length gud.compression (chunk_of job offset n) n whole;
      }

  module _ (job : Job) (j : IsJob job) where
    request_Fits :
        (k : ℕ) (r : Rectangle)
        → IsPlanned job (k * job.bytes_per_line) r
        → Fits (rectangle_request job (k * job.bytes_per_line) r)
    unfolding rectangle_request
    request_Fits k r p = ground (
      arith,
      mul-div k job.bytes_per_line j.line_pos,
      le-mul k job.bytes_per_line j.line_pos,
      le-mul r.rows job.bytes_per_line j.line_pos,
    )

    -- An accepted request and its payload, sent in full, write the rows.
    pub receive_request :
        (k : ℕ) (r : Rectangle) (d : Display)
        → IsPlanned job (k * job.bytes_per_line) r
        → receive_event job.bytes_per_line decompress (bulk r.payload success (length r.payload)) (
            receive_event job.bytes_per_line decompress
              (control req_set_buffer
                (encode_set_buffer (rectangle_request job (k * job.bytes_per_line) r))
                success)
              d)
          ≡ after_rectangle
              (k * job.bytes_per_line)
              (chunk_of job (k * job.bytes_per_line) r.source_length)
              d
    unfolding rectangle_request
    receive_request k r d p = ground (
      arith,
      decode-encode_set_buffer (rectangle_request job (k * job.bytes_per_line) r)
          (request_Fits k r p),
      mul-div k job.bytes_per_line j.line_pos,
    )

  module _ {Env : Type 0} (usb : Usb Env) (params : Params) (job : Job) (j : IsJob job) where
    send_planned-writes :
        (k : ℕ) (r : Rectangle) (h : Host Env) (d : Display)
        → IsPlanned job (k * job.bytes_per_line) r
        → (send_planned usb lz4 params job (k * job.bytes_per_line) r h).0 ≡ success
        → receive job.bytes_per_line decompress
            (send_planned usb lz4 params job (k * job.bytes_per_line) r h).1.log
            d
          ≡ after_rectangle
              (k * job.bytes_per_line)
              (chunk_of job (k * job.bytes_per_line) r.source_length)
              (receive job.bytes_per_line decompress h.log d)
    unfolding send_planned
    send_planned-writes k r h d p e =
        let begun : Host Env = record h { gud = begin_payload params.bulk_trace_limit h.gud } in
        let request : SetBufferReq = rectangle_request job (k * job.bytes_per_line) r in
        ground (
          arith,
          receive-submit_payload job.bytes_per_line decompress usb request r.payload begun d,
          receive_request job j k r (receive job.bytes_per_line decompress h.log d) p,
        )

    -- A round that succeeds writes the next rows of the frame, at least one of them.
    pub send_rectangle-writes :
        (k : ℕ) (h : Host Env) (d : Display)
        → k * job.bytes_per_line ≤ job.total
        → (send_rectangle usb lz4 params job (k * job.bytes_per_line) h).0 ≡ success
        → let offset = k * job.bytes_per_line in
          let r = plan_rectangle lz4 job offset h.gud in
          (receive job.bytes_per_line decompress
              (send_rectangle usb lz4 params job offset h).1.log
              d
            ≡ after_rectangle offset
                (chunk_of job offset r.source_length)
                (receive job.bytes_per_line decompress h.log d))
    unfolding send_rectangle
    send_rectangle-writes k h d o e = ground (
      arith,
      send_planned-writes k (plan_rectangle lz4 job (k * job.bytes_per_line) h.gud) h d
          (plan_rectangle-IsPlanned job (k * job.bytes_per_line) h.gud j o),
    )

  pub send_rectangle_progress :
      {Env : Type 0} (usb : Usb Env) (params : Params) (job : Job) (offset : ℕ) (h : Host Env)
      → (send_rectangle usb lz4 params job offset h).0 ≡ success
      → 0 < (plan_rectangle lz4 job offset h.gud).source_length
  unfolding send_rectangle send_planned
  send_rectangle_progress usb params job offset h e = ground arith
