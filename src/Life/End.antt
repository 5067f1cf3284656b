-- ===== src/Life/End.antt =====
-- gud_drm_fini, gud_disconnect, gud_drm_unload, gud_suspend, gud_resume, gud_init and gud_exit of
-- backport-4.9/gud_drv.c.
use gud.Base.{ℕ, Bool, true, false, not, none, some, if◌then◌else◌}
use gud.Kernel.{Ret, success, failure, enodev, ebusy}
use gud.Device.{buffers_fini}
use gud.Flush.{stop}
use gud.Reconnect.{Monitor}
use gud.Life.{drm_device, mode_config, registration, Gud, Interface, give_back, put_usb}

module _ {Env : Type 0} where
  -- gud_drm_fini: an unregistered device is cleaned up here, a registered one by its unload.
  unfoldable pub drm_fini : Bool → Gud Env → Interface Env → Gud Env × Interface Env
  unfolding give_back
  drm_fini registered gud w =
      if not gud.drm
      then (gud, w)
      else if registered
      then (gud, give_back drm_device (give_back registration w))
      else (record gud { drm = false }, give_back drm_device (give_back mode_config w))

  unfoldable pub disconnect_gud : Gud Env → Gud Env
  unfolding stop
  disconnect_gud g = record g {
    host = record (g.host) { gud = record (g.host.gud) { disconnected = true } };
    async = stop g.async;
  }

  -- gud_disconnect: the DRM device, if there is one, is unplugged, and DRM unloads it when its last
  -- file is closed.
  unfoldable pub disconnect : ℕ → ℕ → Interface Env → Interface Env
  unfolding disconnect_gud put_usb gud.Reconnect.arm
  disconnect hcd port w =
      let known = w.intfdata in
      elim (w.gud) [
        | none ↦ record w { intfdata = false }
        | some g ↦
            let stopped : Interface Env = record w {
              gud = some (disconnect_gud g);
              intfdata = false;
              monitor = gud.Reconnect.arm hcd port w.monitor;
            } in
            if not known
            then w
            else if g.drm
            then give_back registration stopped
            else put_usb g.buffers (stop g.async) stopped
      ]

  -- gud_drm_unload, called by DRM.
  unfoldable pub unload : Interface Env → Interface Env
  unfolding put_usb stop
  unload w = elim (w.gud) [
    | none ↦ give_back mode_config w
    | some g ↦
        put_usb (buffers_fini g.buffers g.host.gud).0 (stop g.async) (give_back mode_config w)
  ]

  -- gud_suspend with private data; `busy` is whether the lock is held.
  unfoldable pub suspend : Bool → Gud Env → Ret × Gud Env
  suspend busy g =
      if busy
      then (failure ebusy, g)
      else if g.host.gud.disconnected
      then (failure enodev, g)
      else (
        success,
        record g { host = record (g.host) { gud = record (g.host.gud) { pm_suspended = true } } },
      )

  -- gud_resume, and gud_reset_resume, which only calls it.
  unfoldable pub resume : Gud Env → Ret × Gud Env
  resume g = (
    success,
    record g { host = record (g.host) { gud = record (g.host.gud) { pm_suspended = false } } },
  )

-- gud_init; `registered` is the result of usb_register.
unfoldable pub driver_init : Ret → Ret × Monitor
unfolding gud.Reconnect.init gud.Reconnect.exit
driver_init registered = elim registered [
  | failure e ↦ (failure e, gud.Reconnect.exit gud.Reconnect.init)
  | success ↦ (success, gud.Reconnect.init)
]

-- gud_exit, before usb_deregister disconnects the interfaces.
unfoldable pub driver_exit : Monitor → Monitor
unfolding gud.Reconnect.exit
driver_exit m = gud.Reconnect.exit m
