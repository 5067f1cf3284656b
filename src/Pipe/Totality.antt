-- ===== src/Pipe/Totality.antt =====
-- The loop of gud_pipe_transfer_xdisp_buffer always ends: each round that succeeds sends at least
-- one row, and a frame has fewer rows than its length in bytes.
use gud.Base.{ℕ, zero, suc, ◌+◌, ◌-◌, ◌<◌, ◌≡◌, ◌≢◌, arith, Option, none, List}
use gud.Kernel.{success}
use gud.Layout.{FrameLayout}
use gud.Usb.{Usb, Host}
use gud.Pipe.{
  Params, Job, Stats, Framebuffer, count_rectangle, plan_rectangle, send_rectangle, transfer_loop,
  transfer_frame, transfer_buffer, send_planned, no_stats, start_frame, frame_job,
}

module _ {Env : Type 0} (usb : Usb Env) (lz4 : List ℕ → ℕ → Option (List ℕ)) (params : Params) where
  pub send_rectangle_progress :
      (job : Job) (offset : ℕ) (h : Host Env)
      → (send_rectangle usb lz4 params job offset h).0 ≡ success
      → 0 < (plan_rectangle lz4 job offset h.gud).source_length
  unfolding send_rectangle send_planned
  send_rectangle_progress job offset h e = ground arith

  transfer_loop-ne-none :
      (fuel : ℕ) (job : Job) (offset : ℕ) (stats : Stats) (h : Host Env)
      → job.total - offset < fuel
      → transfer_loop usb lz4 params fuel job offset stats h ≢ none
  unfolding transfer_loop
  transfer_loop-ne-none zero job offset stats h m = absurd (omega arith)
  transfer_loop-ne-none (suc fuel) job offset stats h m =
      let r = plan_rectangle lz4 job offset h.gud in
      ground (
        arith,
        send_rectangle_progress job offset h,
        transfer_loop-ne-none fuel job (offset + r.source_length) (count_rectangle r stats)
            (send_rectangle usb lz4 params job offset h).1,
      )

  transfer_frame-ne-none :
      (fb : Framebuffer) (l : FrameLayout) (h : Host Env)
      → transfer_frame usb lz4 params fb l h ≢ none
  unfolding transfer_frame
  transfer_frame-ne-none fb l h = ground (
    arith,
    transfer_loop-ne-none (suc l.total) (frame_job fb l h.gud.xdisp_max_source_length) 0 no_stats
        (start_frame h) (unfold frame_job in omega arith),
  )

  -- A transfer returns a result, whatever the USB core answers: the fuel of its loop is enough.
  pub transfer_buffer-ne-none :
      (fb : Framebuffer) (h : Host Env) → transfer_buffer usb lz4 params fb h ≢ none
  unfolding transfer_buffer
  transfer_buffer-ne-none fb h = grind (arith, transfer_frame-ne-none)
