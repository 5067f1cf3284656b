-- ===== src/Life/Restored.antt =====
-- Plugging in and out leaks nothing, and keeps the monitor consistent.
use gud.Base.{
  ℕ, inl, inr, Option-cases, ◌≡◌, refl, sym, ◌∙◌, ap, subst, arith, Bool, true, false, Option, none,
  some, List, [], ◌∷◌, map,
}
use gud.Kernel.{Ret, success, failure}
use gud.Usb.{Usb}
use gud.Pipe.{Params}
use gud.Device.{buffers_fini}
use gud.Flush.{stop, cancel}
use gud.Reconnect
use gud.Reconnect.{PortStatus, work_call, arm_call, cancel_call}
use gud.Reconnect.Steps.{IsConsistent, step-IsConsistent, run_from-IsConsistent}
use gud.Life.{
  Resource, gud_memory, usb_reference, drm_device, mode_config, code, without, Gud, Interface,
  acquire, give_back, put_usb,
}
use gud.Life.Probe.{Answers, drm_init, pipe_init, probe_endpoint, probe}
use gud.Life.End.{disconnect_gud, disconnect, unload, suspend, resume}
use gud.Life.Calls.{
  Call, check, update, disable, run_worker, pm_suspend, pm_resume, after_update, call_step,
  calls_run,
}
use gud.Life.Ledger.{probe-IsUndone, probed, probe_done}
use gud.Life.Cycles.{Plug, on_private, unplug, polled, after_probe, plug_cycle, plug_cycles}

module _ {Env : Type 0} where
  abbrev drm_of : Option (Gud Env) → Bool
  drm_of none = false
  drm_of (some g) = g.drm

  probe-drm_of :
      (a : Answers) (env : Env) (w : Interface Env)
      → (probe a env w).0 ≡ success
      → drm_of ((probe a env w).1.gud) ≡ true
  unfolding probe probe_endpoint acquire
  probe-drm_of a env w e = ground arith

  -- What a successful probe leaves behind.
  probe_gud :
      (a : Answers) (env : Env) (w : Interface Env)
      → (probe a env w).0 ≡ success
      → (g : Gud Env) × ((probe a env w).1.gud ≡ some g) × (g.drm ≡ true)
  probe_gud a env w e =
      let drm = probe-drm_of a env w e in
      elim (Option-cases ((probe a env w).1.gud)) [
        | inl missing ↦ absurd (ground arith)
        | inr (g, has) ↦ (g, has, sym (ap drm_of has) ∙ drm)
      ]

  probe_monitor :
      (a : Answers) (env : Env) (w : Interface Env)
      → (probe a env w).0 ≡ success
      → (probe a env w).1.monitor ≡ Reconnect.cancel a.hcd a.port w.monitor
  unfolding probe probe_endpoint acquire drm_init pipe_init give_back
  probe_monitor a env w e = ground arith

  disconnect_done :
      (w : Interface Env) (g : Gud Env) (hcd port : ℕ) (rest : List Resource)
      → w.gud ≡ some g
      → g.drm ≡ true
      → w.intfdata ≡ true
      → w.held ≡ probed rest
      → ((disconnect hcd port w).held
          ≡ mode_config ∷ drm_device ∷ usb_reference ∷ gud_memory ∷ rest)
        × ((disconnect hcd port w).misused ≡ w.misused)
        × ((disconnect hcd port w).gud ≡ some (disconnect_gud g))
        × ((disconnect hcd port w).monitor ≡ Reconnect.arm hcd port w.monitor)
  unfolding disconnect give_back without code put_usb
  disconnect_done w g hcd port rest has present known held = ground arith

  unload_done :
      (w : Interface Env) (g : Gud Env) (rest : List Resource)
      → w.gud ≡ some g
      → w.held ≡ mode_config ∷ drm_device ∷ usb_reference ∷ gud_memory ∷ rest
      → ((give_back drm_device (unload w)).held ≡ rest)
        × ((give_back drm_device (unload w)).misused ≡ w.misused)
        × ((give_back drm_device (unload w)).gud ≡ none)
        × ((give_back drm_device (unload w)).monitor ≡ w.monitor)
  unfolding unload give_back without code put_usb stop cancel buffers_fini
  unload_done w g rest has held = ground arith

  -- The ledger and the private data are as before, and the monitor is consistent.
  pub record IsRestored (w w' : Interface Env) : Type 0 where
    pub same_held : w'.held ≡ w.held
    pub same_misused : w'.misused ≡ w.misused
    pub no_gud : w'.gud ≡ none
    pub consistent : IsConsistent w'.monitor

  -- No call on the device takes its DRM device away.
  module _ (usb : Usb Env) (lz4 : List ℕ → ℕ → Option (List ℕ)) (params : Params) where
    call_step-drm : (c : Call) (g : Gud Env) → (call_step usb lz4 params c g).drm ≡ g.drm
    unfolding call_step after_update suspend resume
    call_step-drm (check old new crtc) g = refl
    call_step-drm (update async_flush crtc vmap allocated fb) g = ground arith
    call_step-drm disable g = refl
    call_step-drm run_worker g = refl
    call_step-drm (pm_suspend busy) g = ground arith
    call_step-drm pm_resume g = refl

    calls_run-drm : (cs : List Call) (g : Gud Env) → (calls_run usb lz4 params cs g).drm ≡ g.drm
    unfolding calls_run
    calls_run-drm [] g = refl
    calls_run-drm (c ∷ cs) g = calls_run-drm cs (call_step usb lz4 params c g) ∙ call_step-drm c g

    on_private-some :
        (cs : List Call) (w : Interface Env) (g : Gud Env)
        → w.gud ≡ some g
        → (on_private usb lz4 params cs w).gud ≡ some (calls_run usb lz4 params cs g)
    unfolding on_private
    on_private-some cs w g has = rw has refl

    on_private_kept :
        (cs : List Call) (w : Interface Env)
        → ((on_private usb lz4 params cs w).held ≡ w.held)
          × ((on_private usb lz4 params cs w).misused ≡ w.misused)
          × ((on_private usb lz4 params cs w).intfdata ≡ w.intfdata)
          × ((on_private usb lz4 params cs w).monitor ≡ w.monitor)
    unfolding on_private
    on_private_kept cs w = ground arith

    unplug_done :
        (p : Plug Env) (w : Interface Env) (g : Gud Env) (rest : List Resource)
        → w.gud ≡ some g
        → g.drm ≡ true
        → w.intfdata ≡ true
        → w.held ≡ probed rest
        → ((unplug usb lz4 params p w).held ≡ rest)
          × ((unplug usb lz4 params p w).misused ≡ w.misused)
          × ((unplug usb lz4 params p w).gud ≡ none)
          × ((unplug usb lz4 params p w).monitor
              ≡ Reconnect.arm p.answers.hcd p.answers.port w.monitor)
    unfolding unplug
    unplug_done p w g rest has present known held =
        let used = on_private usb lz4 params p.uses w in
        let g1 = calls_run usb lz4 params p.uses g in
        let (same_held, same_misused, same_known, same_monitor) = on_private_kept p.uses w in
        let gone = disconnect p.answers.hcd p.answers.port used in
        let (gone_held, gone_misused, gone_gud, gone_monitor) =
          disconnect_done used g1 p.answers.hcd p.answers.port rest (on_private-some p.uses w g has)
            (calls_run-drm p.uses g ∙ present) (same_known ∙ known) (same_held ∙ held) in
        let late = on_private usb lz4 params p.late_uses gone in
        let (late_held, late_misused, late_known, late_monitor) =
          on_private_kept p.late_uses gone in
        let (end_held, end_misused, end_gud, end_monitor) =
          unload_done late (calls_run usb lz4 params p.late_uses (disconnect_gud g1)) rest
            (on_private-some p.late_uses gone (disconnect_gud g1) gone_gud)
            (late_held ∙ gone_held) in
        (
          end_held,
          end_misused ∙ late_misused ∙ gone_misused ∙ same_misused,
          end_gud,
          end_monitor
              ∙ late_monitor
              ∙ gone_monitor
              ∙ ap (Reconnect.arm p.answers.hcd p.answers.port) same_monitor,
        )

    arm-IsConsistent :
        (hcd port : ℕ) (m : Reconnect.Monitor)
        → IsConsistent m
        → IsConsistent (Reconnect.arm hcd port (Reconnect.cancel hcd port m))
    arm-IsConsistent hcd port m i =
        unfold Reconnect.step in
        step-IsConsistent (arm_call hcd port) (Reconnect.cancel hcd port m)
          (step-IsConsistent (cancel_call hcd port) m i)

    after_probe-IsRestored :
        (p : Plug Env) (w : Interface Env) (r : Ret)
        → w.gud ≡ none
        → IsConsistent w.monitor
        → (probe p.answers p.env w).0 ≡ r
        → IsRestored w (after_probe usb lz4 params p (r, (probe p.answers p.env w).1))
    unfolding after_probe
    after_probe-IsRestored p w (failure e) empty i failed =
        let (undone, gone) = probe-IsUndone p.answers p.env w e empty failed in
        record {
          same_held = undone.same_held;
          same_misused = undone.same_misused;
          no_gud = gone;
          consistent = subst IsConsistent (sym undone.same_monitor) i;
        }
    after_probe-IsRestored p w success empty i done =
        let a = p.answers in
        let (held, misused, known) = probe_done a p.env w done in
        let (g, has, present) = probe_gud a p.env w done in
        let (end_held, end_misused, gone, monitor) =
          unplug_done p ((probe a p.env w).1) g w.held has present known held in
        record {
          same_held = end_held;
          same_misused = end_misused ∙ misused;
          no_gud = gone;
          consistent =
              subst IsConsistent
                (sym (monitor ∙ ap (Reconnect.arm a.hcd a.port) (probe_monitor a p.env w done)))
                (arm-IsConsistent a.hcd a.port w.monitor i);
        }

    plug_cycle-IsRestored :
        (p : Plug Env) (w : Interface Env)
        → w.gud ≡ none
        → IsConsistent w.monitor
        → IsRestored w (plug_cycle usb lz4 params p w)
    unfolding plug_cycle polled
    plug_cycle-IsRestored p w empty i =
        let r = after_probe-IsRestored p w ((probe p.answers p.env w).0) empty i refl in
        record {
          same_held = r.same_held;
          same_misused = r.same_misused;
          no_gud = r.no_gud;
          consistent = run_from-IsConsistent _ (map (λ s. work_call s) p.polls) r.consistent;
        }

    -- However often the device is plugged in and out, with probes that fail anywhere or succeed,
    -- any calls of DRM, the worker and the PM core before the disconnect and between it and the
    -- unload, and any polls of the port: in the end the ledger is as it was (DRM has dropped its
    -- reference after each unload), nothing was given back twice or freed with a buffer or a
    -- framebuffer in it, no private data are left, and the reconnect monitor is consistent.
    -- There were no private data before, and the monitor was consistent.
    pub plug_cycles-IsRestored :
        (ps : List (Plug Env)) (w : Interface Env)
        → w.gud ≡ none
        → IsConsistent w.monitor
        → IsRestored w (plug_cycles usb lz4 params ps w)
    unfolding plug_cycles
    plug_cycles-IsRestored [] w empty i = record {
      same_held = refl;
      same_misused = refl;
      no_gud = empty;
      consistent = i;
    }
    plug_cycles-IsRestored (p ∷ ps) w empty i =
        let once = plug_cycle-IsRestored p w empty i in
        let later =
          plug_cycles-IsRestored ps (plug_cycle usb lz4 params p w) once.no_gud once.consistent in
        record {
          same_held = later.same_held ∙ once.same_held;
          same_misused = later.same_misused ∙ once.same_misused;
          no_gud = later.no_gud;
          consistent = later.consistent;
        }
