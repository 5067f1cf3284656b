-- ===== src/Flush/Work.antt =====
-- The worker, the synchronous transfer and the atomic update: gud_flush_work,
-- gud_pipe_transfer_xdisp, gud_pipe_prepare_update and the XDISP branch of gud_pipe_update, of
-- backport-4.9/gud_pipe.c, with the calls that may come in any order.
use gud.Base.{
  ℕ, Bool, ◌||◌, ◌&&◌, not, Option, none, some, List, [], ◌∷◌, take, drop, if◌then◌else◌,
}
use gud.Kernel.{Ret, success, failure, enodev, is_enomem, is_success}
use gud.Wire.{req_set_controller_enable, req_set_state_commit, req_set_display_enable}
use gud.Usb.{Usb, Host, usb_set}
use gud.Pipe.{Params, Framebuffer, transfer_buffer}
use gud.Flush.{ScanFb, Async, release, map_frame, queue_damage, cancel, stop, take_work}

pub record Crtc : Type 0 where
  pub mode_changed : Bool
  pub active_changed : Bool
  pub active : Bool

-- How the worker ends: with nothing to do, with a transfer, reading through a null buffer, or
-- (only in the model) out of fuel.
pub data Flushed {ℓ} (Env : Type ℓ) : Type ℓ where
  idle : Flushed Env
  flushed : Ret → Env → Flushed Env
  null_buffer : Flushed Env
  no_fuel : Flushed Env

unfoldable pub host_after {ℓ} : {Env : Type ℓ} → Flushed Env → Env → Env
host_after (flushed ret h') h = h'
host_after idle h = h
host_after null_buffer h = h
host_after no_fuel h = h

unfoldable pub frame_of : ScanFb → List ℕ → Framebuffer
frame_of fb bytes = record {
  width = fb.width;
  height = fb.height;
  pixel_format = fb.pixel_format;
  pixels = bytes;
}

pub data Call : Type 0 where
  queue : Ret → Bool → ScanFb → Call
  worker : Call
  cancel_all : Call
  stop_all : Call

module _ {Env : Type 0} (usb : Usb Env) where
  unfoldable pub prepare_update : Bool → Host Env → Ret × Host Env
  prepare_update display_enable h =
      let (ret1, h1) = usb_set usb req_set_controller_enable (1 ∷ []) h in
      let (ret2, h2) = usb_set usb req_set_state_commit [] h1 in
      let display = if display_enable then 1 else 0 in
      if h.gud.disconnected then (failure enodev, h) else elim ret1 [
        | failure e ↦ (failure e, h1)
        | success ↦ elim ret2 [
          | failure e ↦ (failure e, h2)
          | success ↦ usb_set usb req_set_display_enable (display ∷ []) h2
        ]
      ]

module _ {Env : Type 0} (usb : Usb Env) (lz4 : List ℕ → ℕ → Option (List ℕ)) (params : Params) where
  unfoldable pub flush_transfer : Option ScanFb → Option (List ℕ) → Host Env → Flushed (Host Env)
  unfolding frame_of
  flush_transfer none shadow h = idle
  flush_transfer (some fb) none h = null_buffer
  flush_transfer (some fb) (some bytes) h =
      elim (transfer_buffer usb lz4 params (frame_of fb bytes) h) [
        | none ↦ no_fuel
        | some (ret, stats, h') ↦ flushed ret h'
      ]

  -- gud_flush_work: what it takes is what it sends, and its reference is dropped at the end.
  unfoldable pub flush_work : Async → Host Env → Async × Flushed (Host Env)
  unfolding take_work release flush_transfer
  flush_work a h =
      let b = take_work a in
      (record b { refs = release a.async_fb a.refs }, flush_transfer a.async_fb a.shadow_buf h)

  -- gud_pipe_transfer_xdisp, which reads the bytes of the layout; `none` is only for fuel.
  unfoldable pub transfer_xdisp : Ret → ScanFb → Host Env → Option (Ret × Host Env)
  unfolding map_frame frame_of
  transfer_xdisp vmap fb h =
      let (ret, total) = map_frame vmap fb in
      elim ret [
        | failure e ↦ some (failure e, h)
        | success ↦
            elim (transfer_buffer usb lz4 params
              (frame_of fb (take total (drop fb.offset fb.object))) h) [
                | none ↦ none
                | some (result, stats, h') ↦ some (result, h')
              ]
      ]

  -- `if (!ret) ret = gud_pipe_transfer(...)`.
  unfoldable pub transfer_if_ok :
      Ret → Ret → ScanFb → Async → Host Env → Option (Ret × Async × Host Env)
  transfer_if_ok (failure e) vmap fb a h = some (failure e, a, h)
  transfer_if_ok success vmap fb a h = elim (transfer_xdisp vmap fb h) [
    | none ↦ none
    | some (result, h') ↦ some (result, a, h')
  ]

  -- After the commit of the mode: every result but -ENOMEM of the queueing ends the update.
  unfoldable pub update_frame :
      Bool → Ret → Bool → ScanFb → Async → Ret → Host Env → Option (Ret × Async × Host Env)
  unfolding transfer_if_ok
  update_frame async_flush vmap allocated fb a ret h =
      let (queued, b) = queue_damage vmap allocated fb a in
      let sync = transfer_if_ok ret vmap fb a h in
      let retry = transfer_if_ok queued vmap fb b h in
      if is_success ret && async_flush
      then if not (is_enomem queued) then some (queued, b, h) else retry
      else sync

  -- gud_pipe_update: the pending vblank event is sent whatever the result is, so its flag is not
  -- part of the answer.
  unfoldable pub pipe_update :
      Bool → Crtc → Ret → Bool → Option ScanFb → Async → Host Env → Option (Ret × Async × Host Env)
  unfolding prepare_update update_frame
  pipe_update async_flush crtc vmap allocated none a h = some (success, a, h)
  pipe_update async_flush crtc vmap allocated (some fb) a h =
      let (prepared, h1) = prepare_update usb crtc.active h in
      if crtc.mode_changed || crtc.active_changed
      then update_frame async_flush vmap allocated fb a prepared h1
      else update_frame async_flush vmap allocated fb a success h

  -- The calls of the other threads, and the workqueue, which runs the work where it is queued. A
  -- run ends where the worker does not return.
  unfoldable pub flush_step : Call → Async × Host Env → Async × Flushed (Host Env)
  unfolding queue_damage cancel stop flush_work
  flush_step (queue vmap allocated fb) (a, h) =
      ((queue_damage vmap allocated fb a).1, flushed success h)
  flush_step cancel_all (a, h) = (cancel a, flushed success h)
  flush_step stop_all (a, h) = (stop a, flushed success h)
  flush_step worker (a, h) = if a.queued then flush_work a h else (a, idle)

  unfoldable pub flush_run : List Call → Async × Host Env → Async × Host Env
  unfolding flush_step host_after
  flush_run [] s = s
  flush_run (call ∷ calls) s =
      let (a, end) = flush_step call s in flush_run calls (a, host_after end s.1)
