-- ===== src/Life/Ledger.antt =====
-- What gud_probe, gud_disconnect and gud_drm_unload take is given back.
use gud.Base.{ℕ, ◌≡◌, refl, ◌∙◌, arith, true, false, none, some, List, ◌∷◌, inl, inr, Option-cases}
use gud.Kernel.{Errno, success, failure, Ret-cases}
use gud.Usb.{GudDevice}
use gud.Device.{get_display_descriptor, Buffers, no_buffers, buffers_init, buffers_fini}
use gud.Flush.{Async, async_init, stop, cancel}
use gud.Life.{
  Resource, gud_memory, usb_reference, drm_device, mode_config, registration, code, without, Gud,
  Interface, acquire, give_back, put_usb,
}
use gud.Life.Probe.{Answers, find_bulk_out, zero_device, pipe_init, drm_init, probe_endpoint, probe}
use gud.Life.End.{disconnect_gud, disconnect, unload}

buffers_init-no_buffers :
    (given : Buffers) (workmem_size : ℕ) (gud : GudDevice) (e : Errno)
    → (buffers_init given workmem_size gud).0 ≡ failure e
    → (buffers_init given workmem_size gud).1 ≡ no_buffers
unfolding buffers_init
buffers_init-no_buffers given workmem_size gud e h = ground arith

-- What a successful probe leaves in the ledger.
abbrev pub probed : List Resource → List Resource
probed rest = registration ∷ mode_config ∷ drm_device ∷ usb_reference ∷ gud_memory ∷ rest

module _ {Env : Type 0} where
  -- Whatever a call did, the ledger and the private data are as they were.
  pub record IsUndone (w w' : Interface Env) : Type 0 where
    pub same_held : w'.held ≡ w.held
    pub same_misused : w'.misused ≡ w.misused
    pub same_intfdata : w'.intfdata ≡ w.intfdata
    pub same_monitor : w'.monitor ≡ w.monitor

  pipe_init-IsUndone :
      (a : Answers) (gud : GudDevice) (w : Interface Env) (e : Errno)
      → (pipe_init a gud w).0 ≡ failure e
      → IsUndone w (pipe_init a gud w).1
  unfolding pipe_init acquire give_back without code
  pipe_init-IsUndone a gud w e h = record {
    same_held = ground arith;
    same_misused = ground arith;
    same_intfdata = ground arith;
    same_monitor = ground arith;
  }

  drm_init-IsUndone :
      (a : Answers) (gud : GudDevice) (w : Interface Env) (e : Errno)
      → (drm_init a gud w).0 ≡ failure e
      → IsUndone w (drm_init a gud w).1
  unfolding drm_init pipe_init acquire give_back without code
  drm_init-IsUndone a gud w e h = record {
    same_held = ground arith;
    same_misused = ground arith;
    same_intfdata = ground arith;
    same_monitor = ground arith;
  }

  drm_init_done :
      (a : Answers) (gud : GudDevice) (w : Interface Env)
      → (drm_init a gud w).0 ≡ success
      → ((drm_init a gud w).1.held ≡ registration ∷ mode_config ∷ drm_device ∷ w.held)
        × ((drm_init a gud w).1.misused ≡ w.misused)
  unfolding drm_init pipe_init acquire give_back without code
  drm_init_done a gud w h = (ground arith, ground arith)

  -- The device's memory and the reference are given back, and nothing else.
  put_usb_lem :
      (w : Interface Env) (buffers : Buffers) (async : Async) (rest : List Resource)
      → w.held ≡ usb_reference ∷ gud_memory ∷ rest
      → buffers ≡ no_buffers
      → async.async_fb ≡ none
      → ((put_usb buffers async w).held ≡ rest)
        × ((put_usb buffers async w).misused ≡ w.misused)
        × ((put_usb buffers async w).gud ≡ none)
        × ((put_usb buffers async w).intfdata ≡ w.intfdata)
        × ((put_usb buffers async w).monitor ≡ w.monitor)
  unfolding put_usb give_back without code
  put_usb_lem w buffers async rest h b f = ground arith

  -- A failure after the reference was taken ends with put_usb on a ledger that has it on top.
  probe_endpoint_failure :
      (a : Answers) (env : Env) (endpoint : ℕ) (w : Interface Env) (rest : List Resource)
      (e : Errno)
      → w.held ≡ usb_reference ∷ gud_memory ∷ rest
      → (probe_endpoint a env endpoint w).0 ≡ failure e
      → ((probe_endpoint a env endpoint w).1.held ≡ rest)
        × ((probe_endpoint a env endpoint w).1.misused ≡ w.misused)
        × ((probe_endpoint a env endpoint w).1.gud ≡ none)
        × ((probe_endpoint a env endpoint w).1.intfdata ≡ w.intfdata)
        × ((probe_endpoint a env endpoint w).1.monitor ≡ w.monitor)
  unfolding probe_endpoint async_init buffers_fini
  probe_endpoint_failure a env endpoint w rest e h failed =
      let described = (get_display_descriptor a.descriptor zero_device).1 in
      let sized = (buffers_init a.allocated a.workmem_size described).2 in
      let buffers = (buffers_init a.allocated a.workmem_size described).1 in
      elim (Ret-cases (get_display_descriptor a.descriptor zero_device).0) [
        | inr (err, unread) ↦ ground (arith, put_usb_lem w no_buffers async_init rest h refl refl)
        | inl read ↦ elim (Ret-cases (buffers_init a.allocated a.workmem_size described).0) [
          | inr (err, unallocated) ↦
              let none_held =
                buffers_init-no_buffers a.allocated a.workmem_size described err unallocated in
              ground (arith, put_usb_lem w buffers async_init rest h none_held refl)
          | inl allocated ↦ elim (Ret-cases (drm_init a sized w).0) [
            | inl started ↦ absurd (ground arith)
            | inr (err, unstarted) ↦
                let undone = drm_init-IsUndone a sized w err unstarted in
                let freed =
                  put_usb_lem (drm_init a sized w).1 no_buffers async_init rest
                    (undone.same_held ∙ h) refl refl in
                ground
                  (arith, freed, undone.same_misused, undone.same_intfdata, undone.same_monitor)
          ]
        ]
      ]

  probe_failure :
      (a : Answers) (env : Env) (w : Interface Env) (e : Errno)
      → w.gud ≡ none
      → (probe a env w).0 ≡ failure e
      → ((probe a env w).1.held ≡ w.held)
        × ((probe a env w).1.misused ≡ w.misused)
        × ((probe a env w).1.gud ≡ none)
        × ((probe a env w).1.intfdata ≡ w.intfdata)
        × ((probe a env w).1.monitor ≡ w.monitor)
  unfolding probe acquire async_init
  probe_failure a env w e empty failed =
      let taken = acquire usb_reference (acquire gud_memory w) in
      elim (Option-cases (find_bulk_out a.endpoints)) [
        | inl no_endpoint ↦
            ground (arith, put_usb_lem taken no_buffers async_init w.held refl refl refl)
        | inr (endpoint, found) ↦
            ground (arith, probe_endpoint_failure a env endpoint taken w.held e refl)
      ]

  -- A probe that fails, wherever it fails, gives back every object and reference that it took
  -- and nothing else, frees no structure with a buffer in it, and leaves the interface without
  -- private data as before and the reconnect monitor alone. The interface had none before.
  pub probe-IsUndone :
      (a : Answers) (env : Env) (w : Interface Env) (e : Errno)
      → w.gud ≡ none
      → (probe a env w).0 ≡ failure e
      → IsUndone w (probe a env w).1 × ((probe a env w).1.gud ≡ none)
  probe-IsUndone a env w e empty failed =
      let (held, misused, gone, known, monitor) = probe_failure a env w e empty failed in
      (
        record {
          same_held = held;
          same_misused = misused;
          same_intfdata = known;
          same_monitor = monitor;
        },
        gone,
      )

  pub probe_done :
      (a : Answers) (env : Env) (w : Interface Env)
      → (probe a env w).0 ≡ success
      → ((probe a env w).1.held ≡ probed w.held)
        × ((probe a env w).1.misused ≡ w.misused)
        × ((probe a env w).1.intfdata ≡ true)
  unfolding probe probe_endpoint acquire
  probe_done a env w e =
      let taken = acquire usb_reference (acquire gud_memory w) in
      let described = (get_display_descriptor a.descriptor zero_device).1 in
      let sized = (buffers_init a.allocated a.workmem_size described).2 in
      let done = drm_init_done a sized taken in ground arith

  -- The disconnect and the unload, on a ledger with what a probe takes.
  unload-disconnect :
      (w : Interface Env) (g : Gud Env) (hcd port : ℕ) (rest : List Resource)
      → w.gud ≡ some g
      → g.drm ≡ true
      → w.intfdata ≡ true
      → w.held ≡ probed rest
      → ((unload (disconnect hcd port w)).held ≡ drm_device ∷ rest)
        × ((unload (disconnect hcd port w)).misused ≡ w.misused)
        × ((unload (disconnect hcd port w)).gud ≡ none)
        × ((unload (disconnect hcd port w)).intfdata ≡ false)
  unfolding disconnect unload give_back without code put_usb disconnect_gud stop cancel buffers_fini
  unload-disconnect w g hcd port rest has present known held = ground arith

  -- A successful probe, then any use that keeps the DRM device (`g` is the private data after
  -- it), then the disconnect and DRM's unload give back everything that the probe took, but for
  -- the reference to the DRM device, which DRM drops itself after the unload. Nothing is given
  -- back twice or freed with a buffer or a framebuffer in it, and the private data are gone.
  pub unload-disconnect-probe :
      (a : Answers) (env : Env) (w : Interface Env) (g : Gud Env) (hcd port : ℕ)
      → (probe a env w).0 ≡ success
      → g.drm ≡ true
      → let w' : Interface Env = record ((probe a env w).1) { gud = some g } in
        let end = unload (disconnect hcd port w') in
        ((end.held ≡ drm_device ∷ w.held)
          × (end.misused ≡ w.misused)
          × (end.gud ≡ none)
          × (end.intfdata ≡ false))
  unload-disconnect-probe a env w g hcd port e present =
      let (held, misused, known) = probe_done a env w e in
      let w' : Interface Env = record ((probe a env w).1) { gud = some g } in
      let (end_held, end_misused, gone, end_known) =
        unload-disconnect w' g hcd port w.held refl present known held in
      (end_held, end_misused ∙ misused, gone, end_known)
