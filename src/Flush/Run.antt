-- ===== src/Flush/Run.antt =====
-- Every interleaving of queueing, the worker, cancel and stop, from the state of gud_async_init.
use gud.Base.{
  ℕ, ◌≡◌, arith, Bool, true, false, Option, List, [], ◌∷◌, if◌then◌else◌, Option-cases, inl, inr,
  ◌⊎◌,
}
use gud.Kernel.{Ret}
use gud.Usb.{Usb, Host}
use gud.Pipe.{Params, transfer_buffer}
use gud.Pipe.Totality.{transfer_buffer-ne-none}
use gud.Flush.{Async, async_init, stop}
use gud.Flush.Work.{
  Call, queue, worker, cancel_all, stop_all, Flushed, idle, flushed, flush_transfer, flush_work,
  flush_step, host_after, flush_run, frame_of,
}
use gud.Flush.Coherent.{
  IsCoherent, async_init-IsCoherent, queue_damage-IsCoherent, release_all-IsCoherent,
  flush_work-IsCoherent,
}

either-IsCoherent :
    {Env : Type 0} (b : Bool) (x y : Async × Flushed (Host Env))
    → IsCoherent x.0
    → IsCoherent y.0
    → IsCoherent (if b then x else y).0
either-IsCoherent true x y i j = i
either-IsCoherent false x y i j = j

module _ {Env : Type 0} (usb : Usb Env) (lz4 : List ℕ → ℕ → Option (List ℕ)) (params : Params) where
  flush_step-IsCoherent :
      (call : Call) (a : Async) (h : Host Env)
      → IsCoherent a
      → IsCoherent (flush_step usb lz4 params call (a, h)).0
  unfolding flush_step stop
  flush_step-IsCoherent (queue vmap allocated fb) a h i =
      queue_damage-IsCoherent vmap allocated fb a i
  flush_step-IsCoherent cancel_all a h i = release_all-IsCoherent a a.async_stopping i
  flush_step-IsCoherent stop_all a h i = release_all-IsCoherent a true i
  flush_step-IsCoherent worker a h i =
      either-IsCoherent a.queued (flush_work usb lz4 params a h) (a, idle)
        (flush_work-IsCoherent usb lz4 params a h i) i

  flush_run-IsCoherent :
      (calls : List Call) (a : Async) (h : Host Env)
      → IsCoherent a
      → IsCoherent (flush_run usb lz4 params calls (a, h)).0
  unfolding flush_run
  flush_run-IsCoherent [] a h i = i
  flush_run-IsCoherent (call ∷ calls) a h i =
      flush_run-IsCoherent calls (flush_step usb lz4 params call (a, h)).0
        (host_after (flush_step usb lz4 params call (a, h)).1 h) (flush_step-IsCoherent call a h i)

  -- After any sequence of queueing, worker runs, cancels and stops from the initial state, a
  -- pending frame has a shadow buffer, of the size of its layout, and a queued worker; the
  -- references held are exactly that of the pending frame; and nothing is pending once stopping
  -- is set.
  pub flush_run-async_init-IsCoherent :
      (calls : List Call) (h : Host Env)
      → IsCoherent (flush_run usb lz4 params calls (async_init, h)).0
  flush_run-async_init-IsCoherent calls h =
      flush_run-IsCoherent calls async_init h async_init-IsCoherent

  flush_transfer-ends :
      (a : Async) (h : Host Env)
      → IsCoherent a
      → (flush_transfer usb lz4 params a.async_fb a.shadow_buf h ≡ idle)
        ⊎ ((ret : Ret) × (h' : Host Env) × (flush_transfer usb lz4 params a.async_fb a.shadow_buf h
              ≡ flushed ret h'))
  unfolding flush_transfer
  flush_transfer-ends a h i = elim (Option-cases a.async_fb) [
    | inl empty ↦ inl (ground arith)
    | inr (fb, pending) ↦
        let (bytes, shadow) = i.pending_shadow fb pending in
        elim (Option-cases (transfer_buffer usb lz4 params (frame_of fb bytes) h)) [
          | inl out ↦ absurd (transfer_buffer-ne-none usb lz4 params (frame_of fb bytes) h out)
          | inr ((ret, stats, h'), run) ↦ inr (ret, h', ground arith)
        ]
  ]

  -- In every state that calls can reach from the initial one, the worker ends with nothing to do
  -- or with the result of a transfer: it never reads through a null shadow buffer.
  pub flush_work-ends :
      (calls : List Call) (start h : Host Env)
      → ((flush_work usb lz4 params (flush_run usb lz4 params calls (async_init, start)).0 h).1
          ≡ idle)
        ⊎ ((ret : Ret) × (h' : Host Env) × ((flush_work usb lz4 params
                (flush_run usb lz4 params calls (async_init, start)).0
                h).1
              ≡ flushed ret h'))
  unfolding flush_work
  flush_work-ends calls start h =
      flush_transfer-ends (flush_run usb lz4 params calls (async_init, start)).0 h
        (flush_run-async_init-IsCoherent calls start)
