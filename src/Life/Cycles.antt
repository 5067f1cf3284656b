-- ===== src/Life/Cycles.antt =====
-- The device is plugged in and out, over and over: gud_probe, the calls on the device, gud_disconnect,
-- the calls that files still open make, gud_drm_unload, and the polls of the reconnect monitor.
use gud.Base.{ℕ, Option, none, some, List, [], ◌∷◌, map}
use gud.Kernel.{Ret, success, failure}
use gud.Usb.{Usb}
use gud.Pipe.{Params}
use gud.Reconnect
use gud.Reconnect.{PortStatus, work_call}
use gud.Life.{drm_device, Interface, give_back}
use gud.Life.Probe.{Answers, probe}
use gud.Life.End.{disconnect, unload}
use gud.Life.Calls.{Call, calls_run}

-- What happens between one plug and the next. The device hangs on the port that its probe sees.
pub record Plug (Env : Type 0) : Type 0 where
  pub answers : Answers
  pub env : Env
  pub uses : List Call
  pub late_uses : List Call
  pub polls : List PortStatus

module _ {Env : Type 0} (usb : Usb Env) (lz4 : List ℕ → ℕ → Option (List ℕ)) (params : Params) where
  unfoldable pub on_private : List Call → Interface Env → Interface Env
  unfolding calls_run
  on_private cs w = elim (w.gud) [
    | none ↦ w
    | some g ↦ record w { gud = some (calls_run usb lz4 params cs g) }
  ]

  -- DRM drops the reference to its device after the unload.
  unfoldable pub unplug : Plug Env → Interface Env → Interface Env
  unfolding on_private
  unplug p w =
      let gone = disconnect p.answers.hcd p.answers.port (on_private p.uses w) in
      give_back drm_device (unload (on_private p.late_uses gone))

  unfoldable pub polled : List PortStatus → Interface Env → Interface Env
  polled statuses w = record w {
    monitor = Reconnect.run w.monitor (map (λ s. work_call s) statuses);
  }

  unfoldable pub after_probe : Plug Env → Ret × Interface Env → Interface Env
  unfolding unplug
  after_probe p (failure e, w) = w
  after_probe p (success, w) = unplug p w

  unfoldable pub plug_cycle : Plug Env → Interface Env → Interface Env
  unfolding after_probe polled
  plug_cycle p w = polled p.polls (after_probe p (probe p.answers p.env w))

  unfoldable pub plug_cycles : List (Plug Env) → Interface Env → Interface Env
  unfolding plug_cycle
  plug_cycles [] w = w
  plug_cycles (p ∷ ps) w = plug_cycles ps (plug_cycle p w)
