-- ===== src/Life.antt =====
-- The life of an interface, backport-4.9/gud_drv.c: gud_probe, gud_drm_init, gud_drm_fini,
-- gud_drm_unload, gud_disconnect, gud_suspend, gud_resume and gud_reset_resume, and gud_pipe_init
-- of gud_pipe.c with gud_connector_init of gud_connector.c. What the kernel's functions return is an
-- argument, and a ledger notes every reference or object that a call of them takes or gives back.
pub mod Probe
pub mod End
pub mod Ledger
pub mod Calls
pub mod Silence
pub mod Cycles
pub mod Restored
use gud.Base.{
  ℕ, ◌+◌, Bool, true, false, ◌||◌, not, Option, none, some, List, [], ◌∷◌, ◌==◌, if◌then◌else◌,
}
use gud.Kernel.{Ret, success, failure, enodev, enomem, ebusy}
use gud.Usb.{GudDevice, Host}
use gud.Device.{
  DescriptorReply, get_display_descriptor, Buffers, no_buffers, buffers_init, buffers_fini,
}
use gud.Flush.{Async, async_init, stop}
use gud.Reconnect.{Monitor}

-- What kzalloc, usb_get_dev, drm_dev_alloc, drm_mode_config_init and drm_dev_register hand out.
-- What is registered in a mode configuration goes with it.
pub data Resource : Type 0 where
  gud_memory usb_reference drm_device mode_config registration : Resource

unfoldable pub code : Resource → ℕ
code gud_memory = 0
code usb_reference = 1
code drm_device = 2
code mode_config = 3
code registration = 4

unfoldable pub without : Resource → List Resource → Option (List Resource)
unfolding code
without r [] = none
without r (x ∷ xs) =
    let rest = without r xs in
    if code x == code r then some xs else elim rest [ none ↦ none | some kept ↦ some (x ∷ kept) ]

-- `struct gud_device`.
pub record Gud (Env : Type 0) : Type 0 where
  pub host : Host Env
  pub bulk_out_endpoint : ℕ
  pub async : Async
  pub buffers : Buffers
  pub drm : Bool

-- The limits of `drm->mode_config`.
pub record ModeConfig : Type 0 where
  pub min_width : ℕ
  pub max_width : ℕ
  pub min_height : ℕ
  pub max_height : ℕ

-- One interface: its private data, the ledger, and whether something was given back that was not
-- held or a structure was freed with a buffer or a pending frame in it.
pub record Interface (Env : Type 0) : Type 0 where
  pub gud : Option (Gud Env)
  pub intfdata : Bool
  pub config : Option ModeConfig
  pub held : List Resource
  pub misused : Bool
  pub monitor : Monitor

abbrev pub buffers_left : Buffers → Bool
buffers_left b = b.workmem || b.scratch || b.bulk || b.urb

abbrev frame_left : Async → Bool
frame_left a = elim (a.async_fb) [ none ↦ false | some fb ↦ true ]

module _ {Env : Type 0} where
  unfoldable pub acquire : Resource → Interface Env → Interface Env
  acquire r w = record w { held = r ∷ w.held }

  unfoldable pub give_back : Resource → Interface Env → Interface Env
  unfolding without
  give_back r w = elim (without r w.held) [
    | none ↦ record w { misused = true }
    | some rest ↦ record w { held = rest }
  ]

  -- `usb_put_dev(gud->usb); kfree(gud);`, with the buffers and the frames that are in it.
  unfoldable pub put_usb : Buffers → Async → Interface Env → Interface Env
  unfolding give_back
  put_usb buffers async w =
      let freed = give_back gud_memory (give_back usb_reference w) in
      record freed {
        gud = none;
        misused = freed.misused || buffers_left buffers || frame_left async;
      }
