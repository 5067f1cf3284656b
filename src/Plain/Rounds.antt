-- ===== src/Plain/Rounds.antt =====
-- One round of the #else branch of gud_pipe_transfer: what it writes at the display, and that the
-- loop goes on.
use gud.Base.{
  ℕ, ◌+◌, ◌-◌, ◌*◌, ◌/◌, ◌^◌, ◌≤◌, ◌<◌, min, ◌≡◌, refl, ap, ◌∙◌, arith, Option, none, List, inl,
}
use gud.Kernel.{success}
use gud.Layout.{u32}
use gud.Wire.{encode_set_buffer, req_set_buffer}
use gud.Usb.{Usb, Host, usb_set}
use gud.Display.{Display, receive}
use gud.Display.Effects.{receive-usb_set}
use gud.Pipe.{Job, bulk_trace_begin, rectangle_request}
use gud.Pipe.Step.{
  IsLz4, IsJob, IsPlanned, after_rectangle, chunk_of, length-chunk, receive_request,
  receive-submit_bulk, mul-le_of_div, mul-div, le-mul,
}
use gud.Plain.{plain_rectangle, plain_round}

-- No rectangle is compressed, so that any decompressor serves.
abbrev pub no_lz4 : List ℕ → ℕ → Option (List ℕ)
no_lz4 source capacity = none

pub no_lz4-IsLz4 : (decompress : List ℕ → ℕ → Option (List ℕ)) → IsLz4 no_lz4 decompress
no_lz4-IsLz4 decompress = record { unpacks = λ source capacity block e. absurd (ground arith) }

plain_within :
    (total offset line limit : ℕ)
    → 0 < line
    → offset ≤ total
    → offset + min limit (u32 ((total - offset) / line)) * line ≤ total
plain_within total offset line limit p o =
    let rows : ℕ = min limit (u32 ((total - offset) / line)) in
    omega (arith, mul-le_of_div rows (total - offset) line p (omega arith))

pub plain_rectangle-IsPlanned :
    (decompress : List ℕ → ℕ → Option (List ℕ)) (job : Job) (offset : ℕ)
    → IsJob job
    → offset ≤ job.total
    → IsPlanned no_lz4 decompress (no_lz4-IsLz4 decompress) job offset (plain_rectangle job offset)
unfolding plain_rectangle
plain_rectangle-IsPlanned decompress job offset j o =
    let n : ℕ =
      min job.max_rows (u32 ((job.total - offset) / job.bytes_per_line)) * job.bytes_per_line in
    let fits : offset + n ≤ job.total =
      plain_within job.total offset job.bytes_per_line job.max_rows j.line_pos o in
    record {
      whole_rows = refl;
      within = fits;
      chunk_length = length-chunk job.source offset n (omega (arith, j.source_whole));
      unpacks = inl (refl, refl);
    }

mul-cancel_lt : (k n line : ℕ) → k * line < n * line → k < n
mul-cancel_lt k n line h = grind arith

mul-sub : (k m line : ℕ) → (k + m) * line - k * line ≡ m * line
mul-sub k m line = grind arith

rows_left : (k n line : ℕ) → 0 < line → k < n → (n * line - k * line) / line ≡ n - k
rows_left k n line p h =
    let split : n ≡ k + (n - k) = omega arith in
    ap (λ i. (i * line - k * line) / line) split
    ∙ ap (λ i. i / line) (mul-sub k (n - k) line)
    ∙ mul-div (n - k) line p

-- As long as a row is left and the bounce buffer holds one, a round takes at least one row.
pub plain_rectangle_progress :
    (job : Job) (k n : ℕ)
    → IsJob job
    → job.total ≡ n * job.bytes_per_line
    → 0 < job.max_rows
    → k * job.bytes_per_line < job.total
    → 0 < (plain_rectangle job (k * job.bytes_per_line)).rows
unfolding plain_rectangle
plain_rectangle_progress job k n j whole room more =
    let line : ℕ = job.bytes_per_line in
    let before : k < n = mul-cancel_lt k n line (omega arith) in
    let left : (job.total - k * line) / line ≡ n - k =
      ap (λ i. (i - k * line) / line) whole ∙ rows_left k n line j.line_pos before in
    let small : n ≤ n * line = le-mul n line j.line_pos in
    let fits : job.total < 2 ^ 32 = j.total_fits in ground arith

module _ {Env : Type 0} (usb : Usb Env) (trace_limit : ℕ) where
  module _ (decompress : List ℕ → ℕ → Option (List ℕ)) (job : Job) (j : IsJob job) where
    pub plain_round-writes :
        (k : ℕ) (h : Host Env) (d : Display)
        → k * job.bytes_per_line ≤ job.total
        → (plain_round usb trace_limit job (k * job.bytes_per_line) h).0 ≡ success
        → let offset = k * job.bytes_per_line in
          (receive job.bytes_per_line decompress (plain_round usb trace_limit job offset h).1.log d
            ≡ after_rectangle offset
                (chunk_of job offset (plain_rectangle job offset).source_length)
                (receive job.bytes_per_line decompress h.log d))
    unfolding plain_round
    plain_round-writes k h d o e =
        let offset : ℕ = k * job.bytes_per_line in
        let r = plain_rectangle job offset in
        let begun : Host Env = record h { gud = bulk_trace_begin trace_limit h.gud } in
        let body = encode_set_buffer (rectangle_request job offset r) in
        let (ret, h1) = usb_set usb req_set_buffer body begun in
        ground (
          arith,
          receive-usb_set job.bytes_per_line decompress usb req_set_buffer body begun d,
          receive-submit_bulk job.bytes_per_line decompress usb r.payload h1 d,
          receive_request no_lz4 decompress (no_lz4-IsLz4 decompress) job j k r
              (receive job.bytes_per_line decompress h.log d)
              (plain_rectangle-IsPlanned decompress job offset j o),
        )
