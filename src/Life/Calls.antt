-- ===== src/Life/Calls.antt =====
-- What DRM, the workqueue and the PM core call on a device, in any order.
use gud.Base.{ℕ, Bool, Option, none, some, List, [], ◌∷◌}
use gud.Kernel.{Ret}
use gud.Usb.{Usb, Host}
use gud.Framebuffer.{Fb}
use gud.Check.{CrtcState, pipe_check, pipe_disable}
use gud.Pipe.{Params}
use gud.Flush.{ScanFb, Async}
use gud.Flush.Work.{Crtc, flush_step, worker, host_after, pipe_update}
use gud.Life.{Gud}
use gud.Life.End.{suspend, resume}

-- What may still come: an atomic check, an update or a disable of DRM, the worker, and the PM core.
pub data Call : Type 0 where
  check : Option Fb → Option Fb → CrtcState → Call
  update : Bool → Crtc → Ret → Bool → Option ScanFb → Call
  disable : Call
  run_worker : Call
  pm_suspend : Bool → Call
  pm_resume : Call

-- One call after another on the private data.
module _ {Env : Type 0} (usb : Usb Env) (lz4 : List ℕ → ℕ → Option (List ℕ)) (params : Params) where
  unfoldable pub after_update : Gud Env → Option (Ret × Async × Host Env) → Gud Env
  after_update g none = g
  after_update g (some (ret, a, h)) = record g { async = a; host = h }

  unfoldable pub call_step : Call → Gud Env → Gud Env
  unfolding after_update
  call_step (check old new crtc) g = record g { host = (pipe_check usb old new crtc g.host).2 }
  call_step (update async_flush crtc vmap allocated fb) g =
      after_update g (pipe_update usb lz4 params async_flush crtc vmap allocated fb g.async g.host)
  call_step disable g =
      let (a, h) = pipe_disable usb g.async g.host in record g { async = a; host = h }
  call_step run_worker g =
      let (a, end) = flush_step usb lz4 params worker (g.async, g.host) in
      record g { async = a; host = host_after end g.host }
  call_step (pm_suspend busy) g = (suspend busy g).1
  call_step pm_resume g = (resume g).1

  unfoldable pub calls_run : List Call → Gud Env → Gud Env
  unfolding call_step
  calls_run [] g = g
  calls_run (c ∷ cs) g = calls_run cs (call_step c g)
