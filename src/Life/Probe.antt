-- ===== src/Life/Probe.antt =====
-- gud_probe and gud_drm_init of backport-4.9/gud_drv.c, and gud_pipe_init of gud_pipe.c with
-- gud_connector_init of gud_connector.c, as the full-update variant compiles them.
use gud.Base.{ℕ, Bool, true, false, not, Option, none, some, List, [], ◌∷◌, if◌then◌else◌}
use gud.Kernel.{Ret, success, failure, enodev, enomem}
use gud.Usb.{GudDevice}
use gud.Device.{
  DescriptorReply, get_display_descriptor, Buffers, no_buffers, buffers_init, buffers_fini,
}
use gud.Flush.{async_init}
use gud.Reconnect.{Monitor}
use gud.Life.{
  gud_memory, usb_reference, drm_device, mode_config, registration, Interface, acquire, give_back,
  put_usb,
}

pub record Endpoint : Type 0 where
  pub is_bulk_out : Bool
  pub address : ℕ

-- What the functions that the probe calls return.
pub record Answers : Type 0 where
  pub kzalloc : Bool
  pub endpoints : List Endpoint
  pub descriptor : DescriptorReply
  pub allocated : Buffers
  pub workmem_size : ℕ
  pub drm_dev_alloc : Ret
  pub drm_connector_init : Ret
  pub drm_simple_display_pipe_init : Ret
  pub drm_dev_register : Ret
  pub hcd : ℕ
  pub port : ℕ

-- `kzalloc` of the device.
abbrev pub zero_device : GudDevice
zero_device = record {
  protocol_version = 0;
  compression = 0;
  flags = 0;
  max_buffer_size = 0;
  min_width = 0;
  max_width = 0;
  min_height = 0;
  max_height = 0;
  xdisp_max_source_length = 0;
  xdisp_bulk_buffer_size = 0;
  bulk_trace_count = 0;
  bulk_trace_sequence = 0;
  xdisp_frame_sequence = 0;
  xdisp_payload_sequence = 0;
  disconnected = false;
  pm_suspended = false;
}

-- The first bulk-out endpoint of the interface.
unfoldable pub find_bulk_out : List Endpoint → Option ℕ
find_bulk_out [] = none
find_bulk_out (e ∷ rest) =
    let later = find_bulk_out rest in if e.is_bulk_out then some e.address else later

module _ {Env : Type 0} where
  unfoldable pub pipe_init : Answers → GudDevice → Interface Env → Ret × Interface Env
  unfolding acquire give_back
  pipe_init a gud w =
      let begun = acquire mode_config w in
      let w1 : Interface Env = record begun {
        config = some (record {
          min_width = gud.min_width;
          max_width = gud.max_width;
          min_height = gud.min_height;
          max_height = gud.max_height;
        });
      } in
      elim (a.drm_connector_init) [
        | failure e ↦ (failure e, give_back mode_config w1)
        | success ↦ elim (a.drm_simple_display_pipe_init) [
          | failure e ↦ (failure e, give_back mode_config w1)
          | success ↦ (success, w1)
        ]
      ]

  -- Success sets `gud->drm`; every failure leaves it NULL.
  unfoldable pub drm_init : Answers → GudDevice → Interface Env → Ret × Interface Env
  unfolding pipe_init
  drm_init a gud w =
      let (ret, w1) = pipe_init a gud (acquire drm_device w) in
      elim (a.drm_dev_alloc) [
        | failure e ↦ (failure e, w)
        | success ↦ elim ret [
          | failure e ↦ (failure e, give_back drm_device w1)
          | success ↦ elim (a.drm_dev_register) [
            | failure e ↦ (failure e, give_back drm_device (give_back mode_config w1))
            | success ↦ (success, acquire registration w1)
          ]
        ]
      ]

  -- From the bulk-out endpoint on, with the device allocated and the USB reference taken.
  unfoldable pub probe_endpoint : Answers → Env → ℕ → Interface Env → Ret × Interface Env
  unfolding drm_init put_usb gud.Reconnect.cancel
  probe_endpoint a env endpoint w =
      let (read, described) = get_display_descriptor a.descriptor zero_device in
      let (allocation, buffers, sized) = buffers_init a.allocated a.workmem_size described in
      let (started, w1) = drm_init a sized w in
      elim read [
        | failure e ↦ (failure e, put_usb no_buffers async_init w)
        | success ↦ elim allocation [
          | failure e ↦ (failure e, put_usb buffers async_init w)
          | success ↦ elim started [
            | failure e ↦ (failure e, put_usb (buffers_fini buffers sized).0 async_init w1)
            | success ↦ (
              success,
              record w1 {
                gud = some (record {
                  host = record { gud = sized; env = env; log = [] };
                  bulk_out_endpoint = endpoint;
                  async = async_init;
                  buffers = buffers;
                  drm = true;
                });
                intfdata = true;
                monitor = gud.Reconnect.cancel a.hcd a.port w1.monitor;
              },
            )
          ]
        ]
      ]

  unfoldable pub probe : Answers → Env → Interface Env → Ret × Interface Env
  unfolding probe_endpoint find_bulk_out
  probe a env w =
      let taken = acquire usb_reference (acquire gud_memory w) in
      if not a.kzalloc then (failure enomem, w) else elim (find_bulk_out a.endpoints) [
        | none ↦ (failure enodev, put_usb no_buffers async_init taken)
        | some endpoint ↦ probe_endpoint a env endpoint taken
      ]
