-- ===== src/Tests/Devices.antt =====
-- The protocol, the probe, the framebuffers, the connector and the reconnect monitor at concrete
-- inputs.
use gud.Base.{
  ℕ, ◌≤◌, ◌≡◌, ◌⊎◌, refl, arith, true, false, none, some, List, [], ◌∷◌, ◌++◌, length, replicate,
  length-replicate,
}
use gud.Kernel.{success}
use gud.Layout.{
  rgb565, xrgb8888, format_frame_layout, layout, FrameLayout, validate_framebuffer_range,
}
use gud.Layout.Bounds.{IsLayout, format_frame_layout-IsLayout}
use gud.Wire.{
  SetBufferReq, encode_set_buffer, decode_set_buffer, DisplayModeReq, DisplayDescriptorReq,
  decode_descriptor, display_magic, protocol_version,
}
use gud.Wire.RoundTrip.{Fits, decode-encode_set_buffer, ModeFits}
use gud.Framebuffer.{FbCmd, Fb, created, fb_create}
use gud.Framebuffer.Range.{InObject, fb_create-InObject, fb_create-validate_framebuffer_range}
use gud.Device.{descriptor_bytes, get_display_descriptor, Buffers, no_buffers, buffers_init}
use gud.Device.Limits.{
  HasLimits, get_display_descriptor-HasLimits, IsProvided, buffers_init_all_or_nothing,
}
use gud.Connector.{get_modes}
use gud.Connector.Modes.{answers, described, none_left, one_more, get_modes-encode_modes}
use gud.Reconnect.{
  PortStatus, attached, detached, notify, work, init, arm, arm_call, cancel_call, work_call,
  exit_call, run, stable_needed, max_polls,
}
use gud.Reconnect.Steps.{IsConsistent, run-IsConsistent}
use gud.Reconnect.History.{
  watch, AttachedFor, DetachedBefore, notify_after_stable_return, watch_ends,
}
use gud.Tests.{device}

-- 1280 by 720 in RGB565.
abbrev full : FrameLayout
full = record { bytes_per_line = 2560; total = 1843200 }

full_ok : format_frame_layout 1280 720 rgb565 ≡ layout full
unfolding format_frame_layout
full_ok = refl

format_frame_layout-IsLayout_example : IsLayout 1280 720 rgb565 full
format_frame_layout-IsLayout_example =
    format_frame_layout-IsLayout 1280 720 rgb565 full (omega arith) full_ok

abbrev rectangle : SetBufferReq
rectangle = record {
  x = 0;
  y = 300;
  width = 1280;
  height = 20;
  total = 51200;
  compression = 1;
  compressed_length = 700;
}

rectangle-Fits : Fits rectangle
rectangle-Fits = record {
  x_fits = omega arith;
  y_fits = omega arith;
  width_fits = omega arith;
  height_fits = omega arith;
  total_fits = omega arith;
  compression_fits = omega arith;
  compressed_length_fits = omega arith;
}

decode-encode_set_buffer_example : decode_set_buffer (encode_set_buffer rectangle) ≡ some rectangle
decode-encode_set_buffer_example = decode-encode_set_buffer rectangle rectangle-Fits

-- 1280x720 at 60 Hz, the preferred mode.
abbrev hd_mode : DisplayModeReq
hd_mode = record {
  clock = 74250;
  hdisplay = 1280;
  hsync_start = 1390;
  hsync_end = 1430;
  htotal = 1650;
  vdisplay = 720;
  vsync_start = 725;
  vsync_end = 730;
  vtotal = 750;
  flags = 1029;
}

hd_mode-ModeFits : ModeFits hd_mode
hd_mode-ModeFits = record {
  clock_fits = omega arith;
  hdisplay_fits = omega arith;
  hsync_start_fits = omega arith;
  hsync_end_fits = omega arith;
  htotal_fits = omega arith;
  vdisplay_fits = omega arith;
  vsync_start_fits = omega arith;
  vsync_end_fits = omega arith;
  vtotal_fits = omega arith;
  flags_fits = omega arith;
}

get_modes-encode_modes_example :
    get_modes true false (answers (hd_mode ∷ hd_mode ∷ [])) 1 ≡ (1, described hd_mode ∷ [])
get_modes-encode_modes_example =
    get_modes-encode_modes (hd_mode ∷ hd_mode ∷ []) 1
      (one_more hd_mode-ModeFits (one_more hd_mode-ModeFits none_left))

abbrev command : FbCmd
command = record {
  width = 1280;
  height = 720;
  pixel_format = rgb565;
  handle = 1;
  pitch = 2560;
  offset = 4096;
  modifier = 0;
  other_handles = false;
  other_pitches = false;
  other_offsets = false;
  other_modifiers = false;
}

abbrev accepted : Fb
accepted = record {
  width = 1280;
  height = 720;
  pixel_format = rgb565;
  pitch = 2560;
  offset = 4096;
  object_size = 1847296;
}

accepted_ok : fb_create 0 command (some 1847296) true success ≡ created accepted
unfolding fb_create gud.Layout.format_bytes_per_pixel
accepted_ok = refl

fb_create-InObject_example : InObject accepted
fb_create-InObject_example =
    fb_create-InObject 0 command (some 1847296) true success accepted (omega arith) (omega arith)
      (omega arith) (omega arith) accepted_ok

fb_create-validate_framebuffer_range_example :
    validate_framebuffer_range 4096 1843200 1847296 ≡ success
unfolding gud.Framebuffer.rows_packed gud.Layout.format_bytes_per_pixel
fb_create-validate_framebuffer_range_example =
    fb_create-validate_framebuffer_range 0 command (some 1847296) true success accepted full
      (omega arith) (omega arith) (omega arith) (omega arith) accepted_ok (omega arith) refl full_ok

abbrev pub descriptor : List ℕ
descriptor =
    77 ∷ 97 ∷ 80 ∷ 29 ∷ 1 ∷ 1 ∷ 0 ∷ 0 ∷ 0 ∷ 1 ∷ 64 ∷ 0 ∷ 0 ∷ 0 ∷ 1 ∷ 0 ∷ 0 ∷ 0 ∷ 2 ∷ 0 ∷ 0 ∷ 0 ∷ 1
    ∷ 0 ∷ 0 ∷ 0 ∷ 2 ∷ 0 ∷ 0 ∷ 0 ∷ []

get_display_descriptor-HasLimits_example :
    HasLimits (get_display_descriptor (descriptor_bytes descriptor) device).1
    × ((bytes : List ℕ) × (d : DisplayDescriptorReq) × (descriptor_bytes descriptor
          ≡ descriptor_bytes bytes)
        × (length bytes ≡ 30)
        × (decode_descriptor bytes ≡ some d)
        × (d.magic ≡ display_magic)
        × (d.version ≡ protocol_version))
unfolding get_display_descriptor decode_descriptor
get_display_descriptor-HasLimits_example =
    get_display_descriptor-HasLimits (descriptor_bytes descriptor) device refl

abbrev all_buffers : Buffers
all_buffers = record { workmem = true; scratch = true; bulk = true; urb = true }

buffers_init_all_or_nothing_example :
    let (ret, held, gud') = buffers_init all_buffers 16384 device in
    (ret ≡ success)
      × (held ≡ record { workmem = true; scratch = true; bulk = true; urb = true })
      × IsProvided gud'
    ⊎ (held ≡ no_buffers) × ((ret ≡ success) → ⊥)
buffers_init_all_or_nothing_example =
    buffers_init_all_or_nothing all_buffers 16384 device (omega arith) (omega arith)

run-IsConsistent_example :
    IsConsistent (run init (arm_call 1 2 ∷ work_call detached ∷ cancel_call 1 2 ∷ exit_call ∷ []))
run-IsConsistent_example =
    run-IsConsistent (arm_call 1 2 ∷ work_call detached ∷ cancel_call 1 2 ∷ exit_call ∷ [])

-- A port that lost its device and has had one for fourteen polls.
abbrev returning : List PortStatus
returning = replicate 14 attached ++ (detached ∷ [])

returned : (work attached (watch (arm 1 2 init) returning)).1 ≡ notify 2
unfolding work watch arm init
returned = refl

notify_after_stable_return_example :
    AttachedFor stable_needed (attached ∷ returning)
    × DetachedBefore stable_needed (attached ∷ returning)
    × ◌≡◌ {A = ℕ} 2 2
unfolding init
notify_after_stable_return_example =
    notify_after_stable_return 1 2 init attached returning 2 refl refl returned

abbrev never_back : List PortStatus
never_back = replicate max_polls detached

never_back-length : max_polls ≤ length never_back
never_back-length = omega (arith, length-replicate max_polls detached)

watch_ends_example : (watch (arm 1 2 init) never_back).hcd ≡ none
unfolding init
watch_ends_example = watch_ends 1 2 init never_back refl refl never_back-length
