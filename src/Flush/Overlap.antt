-- ===== src/Flush/Overlap.antt =====
-- gud_flush_work while gud_fb_queue_damage runs on another CPU, of backport-4.9/gud_pipe.c: the
-- worker sends rectangles without damage_lock, and a queueing may overwrite the shadow buffer between
-- any two of them. A rectangle is compressed or copied in one step.
pub mod Shadow
pub mod Torn
use gud.Base.{
  ℕ, ◌+◌, Bool, true, false, not, Option, none, some, List, [], ◌∷◌, length, ltb, if◌then◌else◌,
}
use gud.Kernel.{Ret, success, failure}
use gud.Layout.{FrameLayout}
use gud.Usb.{Usb, Host}
use gud.Pipe.{Params, frame_job, plan_rectangle, send_rectangle}
use gud.Flush.{ScanFb, Async, queue_damage}
use gud.Flush.Work.{frame_of}

-- How far the worker is: at an offset of the frame, at its end, or reading past the shadow buffer.
pub data Progress : Type 0 where
  at_offset : ℕ → Progress
  ended : Ret → Progress
  past_shadow : Progress

pub data Beat : Type 0 where
  rectangle : Beat
  queueing : Ret → Bool → ScanFb → Beat

pub record Moment (Env : Type 0) : Type 0 where
  pub async : Async
  pub progress : Progress
  pub host : Host Env

module _ {Env : Type 0} (usb : Usb Env) (lz4 : List ℕ → ℕ → Option (List ℕ)) (params : Params)
    (fb : ScanFb) (l : FrameLayout) (limit : ℕ) where
  -- One round of the transfer, over what the shadow buffer holds now.
  unfoldable pub read_rectangle : Option (List ℕ) → ℕ → Host Env → Progress × Host Env
  unfolding frame_of
  read_rectangle none offset h = (past_shadow, h)
  read_rectangle (some bytes) offset h =
      let job = frame_job (frame_of fb bytes) l limit in
      let next = offset + (plan_rectangle lz4 job offset h.gud).source_length in
      let (ret, h') = send_rectangle usb lz4 params job offset h in
      if not (ltb offset l.total)
      then (ended success, h)
      else if ltb (length bytes) next
      then (past_shadow, h)
      else elim ret [ failure e ↦ (ended (failure e), h') | success ↦ (at_offset next, h') ]

  unfoldable pub continue : Progress → Moment Env → Moment Env
  unfolding read_rectangle
  continue (ended ret) s = s
  continue past_shadow s = s
  continue (at_offset offset) s =
      let (progress, h) = read_rectangle s.async.shadow_buf offset s.host in
      record s { progress = progress; host = h }

  unfoldable pub beat : Beat → Moment Env → Moment Env
  unfolding continue
  beat rectangle s = continue s.progress s
  beat (queueing vmap allocated other) s = record s {
    async = (queue_damage vmap allocated other s.async).1;
  }

  unfoldable pub beats : List Beat → Moment Env → Moment Env
  unfolding beat
  beats [] s = s
  beats (b ∷ rest) s = beats rest (beat b s)
