-- ===== src/Plain/Delivery.antt =====
-- The loop of the #else branch of gud_pipe_transfer: it ends, and the display then shows the frame.
use gud.Base.{
  ℕ, zero, suc, ◌+◌, ◌-◌, ◌*◌, ◌^◌, ◌≤◌, ◌<◌, ◌≡◌, ◌≢◌, sym, ap, ◌∙◌, subst, arith, Option, none,
  some, List, length, inl, inr, ◌⊎◌, Bool-cases, ltb,
}
use gud.Kernel.{success}
use gud.Layout.{FrameLayout}
use gud.Layout.Bounds.{IsLayout}
use gud.Usb.{Usb, Host}
use gud.Display.{Display, receive, splice}
use gud.Pipe.{Job}
use gud.Pipe.Step.{IsJob, chunk_of, le-mul}
use gud.Pipe.Delivery.{sent_up_to, splice-sent_up_to, sent_up_to_all, line_step}
use gud.Flush.{ScanFb}
use gud.Flush.Coherent.{copied-length}
use gud.Plain.{plain_job, plain_rectangle, plain_round, plain_loop}
use gud.Plain.Rounds.{
  no_lz4, plain_round-writes, plain_rectangle-IsPlanned, plain_rectangle_progress,
}

pub plain_job-IsJob :
    (fb : ScanFb) (l : FrameLayout) (limit : ℕ)
    → IsLayout fb.width fb.height fb.pixel_format l
    → fb.width < 2 ^ 32
    → fb.offset + l.total ≤ length fb.object
    → IsJob (plain_job fb l limit)
unfolding plain_job
plain_job-IsJob fb l limit i w inside =
    let whole = copied-length fb l.total inside in omega (arith, i.total_fits, i.line_pos, whole)

module _ {Env : Type 0} (usb : Usb Env) (trace_limit : ℕ) where
  -- A run of the loop that returns 0 either is at its end or made a successful round.
  plain_loop-cases :
      (fuel : ℕ) (job : Job) (offset : ℕ) (h h' : Host Env)
      → plain_loop usb trace_limit (suc fuel) job offset h ≡ some (success, h')
      → (job.total ≤ offset) × (h ≡ h')
        ⊎ (offset < job.total)
          × ((plain_round usb trace_limit job offset h).0 ≡ success)
          × (plain_loop usb trace_limit fuel job
                (offset + (plain_rectangle job offset).source_length)
                (plain_round usb trace_limit job offset h).1
              ≡ some (success, h'))
  unfolding plain_loop
  plain_loop-cases fuel job offset h h' run = ground arith

  module _ (decompress : List ℕ → ℕ → Option (List ℕ)) (job : Job) (j : IsJob job)
      (before : Display) (old : List ℕ) (old_length : length old ≡ length job.source) where
    abbrev shown : Host Env → List ℕ
    shown h = (receive job.bytes_per_line decompress h.log before).pixels

    pub plain_loop-delivers :
        (fuel k : ℕ) (h h' : Host Env)
        → k * job.bytes_per_line ≤ job.total
        → shown h ≡ sent_up_to (k * job.bytes_per_line) job.source old
        → plain_loop usb trace_limit fuel job (k * job.bytes_per_line) h ≡ some (success, h')
        → shown h' ≡ job.source
    plain_loop-delivers zero k h h' o e run = unfold plain_loop in ground arith
    plain_loop-delivers (suc fuel) k h h' o e run =
        let offset : ℕ = k * job.bytes_per_line in
        let r = plain_rectangle job offset in
        let p = plain_rectangle-IsPlanned decompress job offset j o in
        let next : offset + r.source_length ≡ (k + r.rows) * job.bytes_per_line =
          omega (arith, p.whole_rows, line_step k r.rows job.bytes_per_line) in
        elim (plain_loop-cases fuel job offset h h' run) [
          | inl (done, same) ↦
              ap shown (sym same)
              ∙ e
              ∙ sent_up_to_all offset job.source old (omega (arith, j.source_whole)) old_length
          | inr (more, ok, rest) ↦
              plain_loop-delivers fuel (k + r.rows) (plain_round usb trace_limit job offset h).1 h'
                (omega (arith, p.within, next))
                (ap (λ (d : Display). d.pixels)
                    (plain_round-writes usb trace_limit decompress job j k h before o ok)
                  ∙ ap (splice offset (chunk_of job offset r.source_length)) e
                  ∙ splice-sent_up_to offset r.source_length job.source old
                      (omega (arith, p.within, j.source_whole)) old_length
                  ∙ ap (λ n. sent_up_to n job.source old) next)
                (rw next at rest)
        ]

  pub plain_loop-ne-none :
      (fuel k n : ℕ) (job : Job) (h : Host Env)
      → IsJob job
      → job.total ≡ n * job.bytes_per_line
      → 0 < job.max_rows
      → k * job.bytes_per_line ≤ job.total
      → job.total - k * job.bytes_per_line < fuel
      → plain_loop usb trace_limit fuel job (k * job.bytes_per_line) h ≢ none
  unfolding plain_loop
  plain_loop-ne-none zero k n job h j whole room o m = absurd (omega arith)
  plain_loop-ne-none (suc fuel) k n job h j whole room o m =
      let offset : ℕ = k * job.bytes_per_line in
      let r = plain_rectangle job offset in
      let p = plain_rectangle-IsPlanned no_lz4 job offset j o in
      let next : offset + r.source_length ≡ (k + r.rows) * job.bytes_per_line =
        omega (arith, p.whole_rows, line_step k r.rows job.bytes_per_line) in
      elim (Bool-cases (ltb offset job.total)) [
        | inr done ↦ ground arith
        | inl more ↦
            let some_row : 0 < r.rows =
              plain_rectangle_progress job k n j whole room (ground arith) in
            let wide : r.rows ≤ r.rows * job.bytes_per_line =
              le-mul r.rows job.bytes_per_line j.line_pos in
            let rest : plain_loop usb trace_limit fuel job (offset + r.source_length)
                  (plain_round usb trace_limit job offset h).1
                ≢ none =
              subst
                (λ i.
                  plain_loop usb trace_limit fuel job i (plain_round usb trace_limit job offset h).1
                  ≢ none)
                (sym next)
                (plain_loop-ne-none fuel (k + r.rows) n job
                  (plain_round usb trace_limit job offset h).1 j whole room
                  (omega (arith, p.within, next)) (omega (arith, p.within, p.whole_rows, next))) in
            ground (arith, rest)
      ]
