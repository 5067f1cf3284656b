-- ===== src/Pipe/Delivery.antt =====
-- The loop of gud_pipe_transfer_xdisp_buffer: it ends, and if it returns 0 the display holds the
-- frame.
use gud.Base.{
  ℕ, zero, suc, ◌+◌, ◌*◌, ◌≤◌, ◌<◌, ◌≡◌, sym, ◌∙◌, ap, ap₂, arith, Option, some, List, ◌++◌, length,
  take, drop, length-take, length-drop, take-add, drop-drop, take-append, drop-append, take_all,
  drop_all, append-nil, append_assoc, inl, inr, ◌⊎◌,
}
use gud.Kernel.{success}
use gud.Display.{Display, receive, splice}
use gud.Usb.{Usb, Host}
use gud.Pipe.{Params, Job, Stats, plan_rectangle, send_rectangle, count_rectangle, transfer_loop}
use gud.Pipe.Step.{IsLz4, IsJob, chunk_of, send_rectangle-writes, plan_rectangle-IsPlanned}

-- The first `offset` bytes are the frame's, the others what the display held.
abbrev pub sent_up_to : ℕ → List ℕ → List ℕ → List ℕ
sent_up_to offset frame old = take offset frame ++ drop offset old

-- Writing the next `n` bytes of the frame moves the border by `n`.
pub splice-sent_up_to :
    (offset n : ℕ) (frame old : List ℕ)
    → offset + n ≤ length frame
    → length old ≡ length frame
    → splice offset (take n (drop offset frame)) (sent_up_to offset frame old)
      ≡ sent_up_to (offset + n) frame old
splice-sent_up_to offset n frame old fits same =
    let head_length : offset ≡ length (take offset frame) =
      omega (arith, length-take offset frame) in
    let chunk_length : length (take n (drop offset frame)) ≡ n =
      omega (arith, length-take n (drop offset frame), length-drop offset frame) in
    ap₂ (λ a b. a ++ (take n (drop offset frame) ++ b))
      (take-append (take offset frame) (drop offset old) offset head_length)
      (drop-append (take offset frame) (drop offset old)
          (offset + length (take n (drop offset frame))) n (omega arith)
        ∙ drop-drop offset n old)
    ∙ (sym (append_assoc (take offset frame) (take n (drop offset frame)) (drop (offset + n) old)))
    ∙ ap (λ a. a ++ drop (offset + n) old) (take-add offset n frame)

pub sent_up_to_all :
    (offset : ℕ) (frame old : List ℕ)
    → length frame ≤ offset
    → length old ≡ length frame
    → sent_up_to offset frame old ≡ frame
sent_up_to_all offset frame old h same =
    ap₂ ◌++◌ (take_all offset frame h) (drop_all offset old (omega arith)) ∙ append-nil frame

pub line_step : (k rows line : ℕ) → k * line + rows * line ≡ (k + rows) * line
line_step k rows line = omega arith

-- A run of the loop that returns 0 either is at its end or made a successful round.
transfer_loop-cases :
    {Env : Type 0} (usb : Usb Env) (lz4 : List ℕ → ℕ → Option (List ℕ)) (params : Params) (fuel : ℕ)
    (job : Job) (offset : ℕ) (stats : Stats) (h : Host Env) (stats' : Stats) (h' : Host Env)
    → transfer_loop usb lz4 params (suc fuel) job offset stats h ≡ some (success, stats', h')
    → (job.total ≤ offset) × (h ≡ h')
      ⊎ (offset < job.total)
        × ((send_rectangle usb lz4 params job offset h).0 ≡ success)
        × (transfer_loop usb lz4 params fuel job
              (offset + (plan_rectangle lz4 job offset h.gud).source_length)
              (count_rectangle (plan_rectangle lz4 job offset h.gud) stats)
              (send_rectangle usb lz4 params job offset h).1
            ≡ some (success, stats', h'))
unfolding transfer_loop
transfer_loop-cases usb lz4 params fuel job offset stats h stats' h' run = ground arith

module _ (lz4 : List ℕ → ℕ → Option (List ℕ)) (decompress : List ℕ → ℕ → Option (List ℕ))
    (law : IsLz4 lz4 decompress) {Env : Type 0} (usb : Usb Env) (params : Params) (job : Job)
    (j : IsJob job) (before : Display) (old : List ℕ)
    (old_length : length old ≡ length job.source) where
  abbrev shown : Host Env → List ℕ
  shown h = (receive job.bytes_per_line decompress h.log before).pixels

  -- One successful round moves the border between new and old bytes.
  round_moves :
      (k : ℕ) (h : Host Env)
      → k * job.bytes_per_line ≤ job.total
      → shown h ≡ sent_up_to (k * job.bytes_per_line) job.source old
      → (send_rectangle usb lz4 params job (k * job.bytes_per_line) h).0 ≡ success
      → let r = plan_rectangle lz4 job (k * job.bytes_per_line) h.gud in
        shown (send_rectangle usb lz4 params job (k * job.bytes_per_line) h).1
        ≡ sent_up_to (k * job.bytes_per_line + r.source_length) job.source old
  round_moves k h o e ok =
      let r = plan_rectangle lz4 job (k * job.bytes_per_line) h.gud in
      let p = plan_rectangle-IsPlanned lz4 decompress law job (k * job.bytes_per_line) h.gud j o in
      ap (λ (d : Display). d.pixels)
        (send_rectangle-writes lz4 decompress law usb params job j k h before o ok)
      ∙ ap (splice (k * job.bytes_per_line) (chunk_of job (k * job.bytes_per_line) r.source_length))
          e
      ∙ splice-sent_up_to (k * job.bytes_per_line) r.source_length job.source old
          (omega (arith, p.within, j.source_whole)) old_length

  pub transfer_loop-delivers :
      (fuel k : ℕ) (stats : Stats) (h : Host Env) (stats' : Stats) (h' : Host Env)
      → k * job.bytes_per_line ≤ job.total
      → shown h ≡ sent_up_to (k * job.bytes_per_line) job.source old
      → transfer_loop usb lz4 params fuel job (k * job.bytes_per_line) stats h
        ≡ some (success, stats', h')
      → shown h' ≡ job.source
  transfer_loop-delivers zero k stats h stats' h' o e run = unfold transfer_loop in ground arith
  transfer_loop-delivers (suc fuel) k stats h stats' h' o e run =
      let offset : ℕ = k * job.bytes_per_line in
      let r = plan_rectangle lz4 job offset h.gud in
      let p = plan_rectangle-IsPlanned lz4 decompress law job offset h.gud j o in
      let next : offset + r.source_length ≡ (k + r.rows) * job.bytes_per_line =
        omega (arith, p.whole_rows, line_step k r.rows job.bytes_per_line) in
      elim (transfer_loop-cases usb lz4 params fuel job offset stats h stats' h' run) [
        | inl (done, same) ↦
            ap shown (sym same)
            ∙ e
            ∙ sent_up_to_all offset job.source old (omega (arith, j.source_whole)) old_length
        | inr (more, ok, rest) ↦
            transfer_loop-delivers fuel (k + r.rows) (count_rectangle r stats)
              (send_rectangle usb lz4 params job offset h).1 stats' h'
              (omega (arith, p.within, next))
              (round_moves k h o e ok ∙ ap (λ n. sent_up_to n job.source old) next)
              (rw next at rest)
      ]
