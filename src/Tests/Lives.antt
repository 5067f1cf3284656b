-- ===== src/Tests/Lives.antt =====
-- The life of an interface, a buffer object, the driver without full updates and the probe payload
-- at concrete inputs.
use gud.Base.{
  ℕ, ◌≡◌, ◌≢◌, ◌⊎◌, refl, arith, true, false, Option, none, some, List, [], ◌∷◌, length, replicate,
  length-replicate, ◌/◌,
}
use gud.Kernel.{Ret, success, failure, enomem, host_error}
use gud.Wire.{DisplayDescriptorReq, display_magic, protocol_version}
use gud.Layout.{rgb565}
use gud.Usb.{Host}
use gud.Display.{receive}
use gud.Device.{descriptor_bytes, Buffers}
use gud.Flush.{async_init}
use gud.Reconnect.{init}
use gud.Plain.{plain_update}
use gud.Plain.Update.{plain_update-ne-none, plain_update-delivers}
use gud.Life.{Gud, Interface, drm_device}
use gud.Life.Probe.{Answers, probe}
use gud.Life.End.{disconnect_gud, disconnect, unload}
use gud.Life.Calls.{Call, update, disable, run_worker, pm_suspend, pm_resume, calls_run}
use gud.Life.Ledger.{IsUndone, probe-IsUndone, unload-disconnect-probe}
use gud.Reconnect.{attached, detached}
use gud.Reconnect.Steps.{run-IsConsistent}
use gud.Life.Cycles.{Plug, plug_cycles}
use gud.Life.Restored.{IsRestored, plug_cycles-IsRestored}
use gud.Life.Silence.{calls_run-disconnect_gud}
use gud.Gem.{
  GemObject, PagesReply, page_array, past_array, inserted, gem_fault, pages_call, vmap_call,
  offset_call, gem_run, free_object,
}
use gud.Gem.Pages.{IsBacked, IsPager, gem_fault-gem_run}
use gud.ProbePayload.{build_probe_payload, encoded_size}
use gud.ProbePayload.Block.{decode_block}
use gud.ProbePayload.Expand.{zeros}
use gud.ProbePayload.Complete.{build_probe_payload-decode_block}
use gud.Tests.{answering, host, blank, params, compress_black, unpack_black}
use gud.Tests.Devices.{descriptor}
use gud.Tests.Updates.{scanned, shown, modeset, flip}

abbrev plain : Option (Ret × Host Unit)
plain = plain_update answering 0 true success true scanned host

abbrev plain_host : Option (Ret × Host Unit) → Host Unit
plain_host none = host
plain_host (some (ret, h)) = h

plain_update-ne-none_example : plain ≢ none
plain_update-ne-none_example =
    plain_update-ne-none answering 0 true success true scanned host (omega arith)

plain_ok : plain ≡ some (success, plain_host plain)
unfolding plain_update gud.Usb.usb_set gud.Layout.format_frame_layout
    gud.Layout.validate_framebuffer_range gud.Plain.plain_round gud.Pipe.bulk_trace_begin
    gud.Wire.encode_set_buffer gud.Wire.le32 gud.Pipe.submit_bulk gud.Usb.bulk_loop
    gud.Kernel.is_eagain gud.Usb.usb_bulk_write
plain_ok = refl

plain_update-delivers_example : (receive 4 unpack_black (plain_host plain).log blank).pixels ≡ shown
unfolding gud.Layout.format_bytes_per_pixel receive
plain_update-delivers_example =
    plain_update-delivers answering 0 unpack_black true success true scanned host blank
      (plain_host plain) (omega arith) refl plain_ok

abbrev unused : Interface Unit
unused = record {
  gud = none;
  intfdata = false;
  config = none;
  held = [];
  misused = false;
  monitor = init;
}

abbrev answers : Answers
answers = record {
  kzalloc = true;
  endpoints =
      record { is_bulk_out = false; address = 129 }
      ∷ record { is_bulk_out = true; address = 1 }
      ∷ [];
  descriptor = descriptor_bytes descriptor;
  allocated = record { workmem = true; scratch = true; bulk = true; urb = true };
  workmem_size = 16384;
  drm_dev_alloc = success;
  drm_connector_init = success;
  drm_simple_display_pipe_init = success;
  drm_dev_register = success;
  hcd = 3;
  port = 1;
}

-- The device cannot be registered, after everything else succeeded.
abbrev unregistered : Answers
unregistered = record answers { drm_dev_register = failure host_error }

unregistered_fails : (probe unregistered tt unused).0 ≡ failure host_error
unfolding probe gud.Device.get_display_descriptor gud.Wire.decode_descriptor gud.Device.buffers_init
unregistered_fails = refl

probe-IsUndone_example :
    IsUndone unused (probe unregistered tt unused).1 × ((probe unregistered tt unused).1.gud ≡ none)
probe-IsUndone_example = probe-IsUndone unregistered tt unused host_error refl unregistered_fails

-- A device with a frame pending, as a successful probe and some updates leave it.
abbrev used : Gud Unit
used = record {
  host = host;
  bulk_out_endpoint = 1;
  async = record async_init { async_fb = some scanned; queued = true };
  buffers = record { workmem = true; scratch = true; bulk = true; urb = true };
  drm = true;
}

probe_ok : (probe answers tt unused).0 ≡ success
unfolding probe gud.Device.get_display_descriptor gud.Wire.decode_descriptor gud.Device.buffers_init
probe_ok = refl

abbrev in_use : Interface Unit
in_use = record ((probe answers tt unused).1) { gud = some used }

unload-disconnect-probe_example :
    ((unload (disconnect 3 1 in_use)).held ≡ drm_device ∷ [])
    × ((unload (disconnect 3 1 in_use)).misused ≡ false)
    × ((unload (disconnect 3 1 in_use)).gud ≡ none)
    × ((unload (disconnect 3 1 in_use)).intfdata ≡ false)
unload-disconnect-probe_example = unload-disconnect-probe answers tt unused used 3 1 probe_ok refl

abbrev late_calls : List Call
late_calls =
    run_worker
    ∷ update true modeset success true (some scanned)
    ∷ pm_suspend false
    ∷ pm_resume
    ∷ update false flip success true (some scanned)
    ∷ disable
    ∷ []

-- The device is used and pulled out, comes back without its memory, and then once more.
abbrev plugs : List (Plug Unit)
plugs =
    plugged answers
    ∷ plugged (record answers { drm_dev_alloc = failure enomem })
    ∷ plugged answers
    ∷ []
  where
    plugged : Answers → Plug Unit
    plugged a = record {
      answers = a;
      env = tt;
      uses = late_calls;
      late_uses = late_calls;
      polls = detached ∷ attached ∷ [];
    }

plug_cycles-IsRestored_example :
    IsRestored unused (plug_cycles answering compress_black params plugs unused)
unfolding init gud.Reconnect.run
plug_cycles-IsRestored_example =
    plug_cycles-IsRestored answering compress_black params plugs unused refl (run-IsConsistent [])

calls_run-disconnect_gud_example :
    ((calls_run answering compress_black params late_calls (disconnect_gud used)).host.log ≡ [])
    × ((calls_run answering compress_black params late_calls
          (disconnect_gud used)).host.gud.disconnected
        ≡ true)
calls_run-disconnect_gud_example =
    calls_run-disconnect_gud answering compress_black params late_calls used

abbrev pager : ℕ → ℕ → PagesReply
pager time size = page_array (replicate (size / 4096) time)

pager-IsPager : IsPager pager
pager-IsPager = record {
  whole = λ time size pages e. ground (arith, length-replicate (size / 4096) time);
}

abbrev object : GemObject
object = record { imported = false; size = 8192; pages = none; vaddr = none }

object-IsBacked : IsBacked object
object-IsBacked = record {
  pages_whole = λ pages e. absurd (ground arith);
  mapped_pages = λ e. refl;
  import_bare = λ e. refl;
}

gem_fault-gem_run_example :
    (gem_fault inserted 65536 73728
        (gem_run pager 0 (vmap_call (some 5) ∷ pages_call ∷ offset_call success 9 ∷ []) object)
      ≢ past_array)
    × ((object.pages ≡ none)
        ⊎ ((free_object (
              gem_run pager 0
                (vmap_call (some 5) ∷ pages_call ∷ offset_call success 9 ∷ [])
                object)).1
            ≡ object.pages))
gem_fault-gem_run_example =
    gem_fault-gem_run pager pager-IsPager 0
      (vmap_call (some 5) ∷ pages_call ∷ offset_call success 9 ∷ []) object inserted 65536 73728
      object-IsBacked

-- Five rows of two pixels, with four literals and a match of eleven.
build_probe_payload-decode_block_example :
    (bytes : List ℕ) × (build_probe_payload (encoded_size 4 11) 20 ≡ some bytes)
    × (length bytes ≡ encoded_size 4 11)
    × (decode_block 2 bytes [] ≡ some (zeros 20))
unfolding encoded_size
build_probe_payload-decode_block_example =
    build_probe_payload-decode_block 20 4 (omega arith) (omega arith) (omega arith) (omega arith)
      (omega arith)
