-- ===== src/Life/Silence.antt =====
-- After gud_disconnect the driver leaves the bus alone, whatever DRM, the workqueue and the PM core
-- still call.
use gud.Base.{
  ℕ, zero, suc, ◌≡◌, refl, ◌∙◌, arith, Bool, true, Option, none, some, List, [], ◌∷◌, take, drop,
  Option-cases, Bool-cases, inl, inr,
}
use gud.Kernel.{Ret, success, failure, enodev}
use gud.Layout.{format_frame_layout, FrameLayout}
use gud.Usb.{Usb, Host, usb_set}
use gud.Framebuffer.{Fb}
use gud.Check.{CrtcState, pipe_check, pipe_disable}
use gud.Pipe.{
  Params, Job, Stats, Framebuffer, send_rectangle, start_frame, transfer_loop, transfer_frame,
  transfer_probe, transfer_buffer, no_stats, frame_job,
}
use gud.Flush.{ScanFb, Async, map_frame}
use gud.Flush.Coherent.{layout-cases}
use gud.Flush.Work.{
  Crtc, flush_step, worker, host_after, flush_work, flush_transfer, frame_of, transfer_xdisp,
  transfer_if_ok, update_frame, prepare_update, pipe_update,
}
use gud.Life.{Gud}
use gud.Life.End.{disconnect_gud, suspend, resume}
use gud.Life.Calls.{
  Call, check, update, disable, run_worker, pm_suspend, pm_resume, after_update, call_step,
  calls_run,
}

abbrev pub IsSilent : {Env : Type 0} → Host Env → Host Env → Type 0
IsSilent h h' = (h'.log ≡ h.log) × (h'.gud.disconnected ≡ true)

module _ {Env : Type 0} (usb : Usb Env) (lz4 : List ℕ → ℕ → Option (List ℕ)) (params : Params) where
  usb_set_gone :
      (request : ℕ) (body : List ℕ) (h : Host Env)
      → h.gud.disconnected ≡ true
      → ((usb_set usb request body h).1 ≡ h) × ((usb_set usb request body h).0 ≡ failure enodev)
  unfolding usb_set
  usb_set_gone request body h gone = ground arith

  transfer_loop_gone :
      (fuel : ℕ) (job : Job) (offset : ℕ) (stats : Stats) (h : Host Env) (ret : Ret) (s : Stats)
      (h' : Host Env)
      → h.gud.disconnected ≡ true
      → transfer_loop usb lz4 params fuel job offset stats h ≡ some (ret, s, h')
      → h' ≡ h
  unfolding transfer_loop send_rectangle
  transfer_loop_gone zero job offset stats h ret s h' gone run = ground arith
  transfer_loop_gone (suc fuel) job offset stats h ret s h' gone run = ground arith

  transfer_frame_gone :
      (fb : Framebuffer) (l : FrameLayout) (h : Host Env) (ret : Ret) (s : Stats) (h' : Host Env)
      → h.gud.disconnected ≡ true
      → transfer_frame usb lz4 params fb l h ≡ some (ret, s, h')
      → IsSilent h h'
  unfolding transfer_frame start_frame
  transfer_frame_gone fb l h ret s h' gone run =
      let job = frame_job fb l h.gud.xdisp_max_source_length in
      let stay = transfer_loop_gone (suc l.total) job 0 no_stats (start_frame h) ret s h' gone in
      ground (arith, stay)

  transfer_probe_gone :
      (fb : Framebuffer) (h : Host Env)
      → h.gud.disconnected ≡ true
      → (transfer_probe usb lz4 params fb h).1 ≡ h
  unfolding transfer_probe usb_set
  transfer_probe_gone fb h gone = ground arith

  transfer_buffer_gone :
      (fb : Framebuffer) (h : Host Env) (ret : Ret) (s : Stats) (h' : Host Env)
      → h.gud.disconnected ≡ true
      → transfer_buffer usb lz4 params fb h ≡ some (ret, s, h')
      → IsSilent h h'
  unfolding transfer_buffer
  transfer_buffer_gone fb h ret s h' gone run =
      elim (layout-cases (format_frame_layout fb.width fb.height fb.pixel_format)) [
        | inl (err, bad) ↦ ground (arith, transfer_probe_gone fb h)
        | inr (l, good) ↦
            ground (arith, transfer_probe_gone fb h, transfer_frame_gone fb l h ret s h')
      ]

  transfer_xdisp_gone :
      (vmap : Ret) (fb : ScanFb) (h : Host Env) (ret : Ret) (h' : Host Env)
      → h.gud.disconnected ≡ true
      → transfer_xdisp usb lz4 params vmap fb h ≡ some (ret, h')
      → IsSilent h h'
  unfolding transfer_xdisp
  transfer_xdisp_gone vmap fb h ret h' gone run =
      let bytes = take (map_frame vmap fb).1 (drop fb.offset fb.object) in
      elim (Option-cases (transfer_buffer usb lz4 params (frame_of fb bytes) h)) [
        | inl out ↦ ground arith
        | inr ((result, stats, after), ends) ↦
            ground (arith, transfer_buffer_gone (frame_of fb bytes) h result stats after gone ends)
      ]

  update_frame_gone :
      (async_flush : Bool) (vmap : Ret) (allocated : Bool) (fb : ScanFb) (a : Async) (given : Ret)
      (h : Host Env) (ret : Ret) (b : Async) (h' : Host Env)
      → h.gud.disconnected ≡ true
      → update_frame usb lz4 params async_flush vmap allocated fb a given h ≡ some (ret, b, h')
      → IsSilent h h'
  unfolding update_frame transfer_if_ok
  update_frame_gone async_flush vmap allocated fb a given h ret b h' gone run =
      elim (Option-cases (transfer_xdisp usb lz4 params vmap fb h)) [
        | inl out ↦ ground arith
        | inr ((result, after), ends) ↦
            ground (arith, transfer_xdisp_gone vmap fb h result after gone ends)
      ]

  pipe_update_gone :
      (async_flush : Bool) (crtc : Crtc) (vmap : Ret) (allocated : Bool) (fb : Option ScanFb)
      (a : Async) (h : Host Env) (ret : Ret) (b : Async) (h' : Host Env)
      → h.gud.disconnected ≡ true
      → pipe_update usb lz4 params async_flush crtc vmap allocated fb a h ≡ some (ret, b, h')
      → IsSilent h h'
  unfolding pipe_update prepare_update
  pipe_update_gone async_flush crtc vmap allocated none a h ret b h' gone run = ground arith
  pipe_update_gone async_flush crtc vmap allocated (some fb) a h ret b h' gone run = ground (
    arith,
    update_frame_gone async_flush vmap allocated fb a (failure enodev) h ret b h' gone,
    update_frame_gone async_flush vmap allocated fb a success h ret b h' gone,
  )

  flush_step_gone :
      (a : Async) (h : Host Env)
      → h.gud.disconnected ≡ true
      → IsSilent h (host_after (flush_step usb lz4 params worker (a, h)).1 h)
  unfolding flush_step flush_work flush_transfer host_after
  flush_step_gone a h gone = elim (Bool-cases a.queued) [
    | inr empty ↦ ground arith
    | inl queued ↦ elim (Option-cases a.async_fb) [
      | inl nothing ↦ ground arith
      | inr (fb, pending) ↦ elim (Option-cases a.shadow_buf) [
        | inl unmapped ↦ ground arith
        | inr (bytes, shadow) ↦
            elim (Option-cases (transfer_buffer usb lz4 params (frame_of fb bytes) h)) [
              | inl out ↦ ground arith
              | inr ((result, stats, after), ends) ↦
                  ground
                    (arith, transfer_buffer_gone (frame_of fb bytes) h result stats after gone ends)
            ]
      ]
    ]
  ]

  pipe_disable_gone :
      (a : Async) (h : Host Env) → h.gud.disconnected ≡ true → IsSilent h (pipe_disable usb a h).1
  unfolding pipe_disable usb_set
  pipe_disable_gone a h gone = ground arith

  pipe_check_gone :
      (old new : Option Fb) (crtc : CrtcState) (h : Host Env)
      → h.gud.disconnected ≡ true
      → IsSilent h (pipe_check usb old new crtc h).2
  unfolding pipe_check
  pipe_check_gone old none crtc h gone = ground arith
  pipe_check_gone old (some fb) crtc h gone = ground arith

  call_step_gone :
      (c : Call) (g : Gud Env)
      → g.host.gud.disconnected ≡ true
      → IsSilent g.host (call_step usb lz4 params c g).host
  unfolding call_step after_update
  call_step_gone (check old new crtc) g gone = pipe_check_gone old new crtc g.host gone
  call_step_gone (update async_flush crtc vmap allocated fb) g gone =
      elim (Option-cases
        (pipe_update usb lz4 params async_flush crtc vmap allocated fb g.async g.host)) [
          | inl out ↦ ground arith
          | inr ((ret, a, h), ends) ↦ ground (
            arith,
            pipe_update_gone async_flush crtc vmap allocated fb g.async g.host ret a h gone ends,
          )
        ]
  call_step_gone disable g gone = pipe_disable_gone g.async g.host gone
  call_step_gone run_worker g gone = flush_step_gone g.async g.host gone
  call_step_gone (pm_suspend busy) g gone = unfold suspend in ground arith
  call_step_gone pm_resume g gone = unfold resume in ground arith

  calls_run_gone :
      (cs : List Call) (g : Gud Env)
      → g.host.gud.disconnected ≡ true
      → IsSilent g.host (calls_run usb lz4 params cs g).host
  unfolding calls_run
  calls_run_gone [] g gone = (refl, gone)
  calls_run_gone (c ∷ cs) g gone =
      let (now, still) = call_step_gone c g gone in
      let (later, ever) = calls_run_gone cs (call_step usb lz4 params c g) still in
      (later ∙ now, ever)

  -- After the disconnect no control request and no bulk payload reaches the bus any more, and
  -- the device stays marked as gone, through every sequence of checks, updates with or without
  -- asynchronous flushing, disables, runs of the worker, suspends and resumes, whatever the USB
  -- core would answer and whatever was pending.
  pub calls_run-disconnect_gud :
      (cs : List Call) (g : Gud Env)
      → ((calls_run usb lz4 params cs (disconnect_gud g)).host.log ≡ g.host.log)
        × ((calls_run usb lz4 params cs (disconnect_gud g)).host.gud.disconnected ≡ true)
  unfolding disconnect_gud
  calls_run-disconnect_gud cs g = calls_run_gone cs (disconnect_gud g) refl
