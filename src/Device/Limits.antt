-- ===== src/Device/Limits.antt =====
-- What a probed device promises to the transfers.
use gud.Base.{
  ℕ, ◌*◌, ◌^◌, ◌≤◌, ◌<◌, ◌≡◌, refl, arith, true, some, List, length, inl, inr, Option-cases, ◌⊎◌,
}
use gud.Kernel.{success}
use gud.Wire.{DisplayDescriptorReq, decode_descriptor, display_magic, protocol_version}
use gud.Usb.{GudDevice}
use gud.Device.{
  DescriptorReply, descriptor_error, descriptor_bytes, get_display_descriptor, accept_descriptor,
  Buffers, no_buffers, buffers_init, max_payload_limit,
}

-- The limits of the display after a descriptor that was accepted.
pub record HasLimits (gud : GudDevice) : Type 0 where
  pub buffer_pos : 0 < gud.max_buffer_size
  pub min_width_pos : 0 < gud.min_width
  pub widths : gud.min_width ≤ gud.max_width
  pub min_height_pos : 0 < gud.min_height
  pub heights : gud.min_height ≤ gud.max_height

accept_descriptor-HasLimits :
    (d : DisplayDescriptorReq) (gud : GudDevice)
    → (accept_descriptor d gud).0 ≡ success
    → HasLimits (accept_descriptor d gud).1
      × (d.magic ≡ display_magic)
      × (d.version ≡ protocol_version)
unfolding accept_descriptor
accept_descriptor-HasLimits d gud e = ground arith

-- A descriptor that is accepted has 30 bytes with the magic number and the version of the
-- protocol, and leaves the device with nonempty, ordered limits.
pub get_display_descriptor-HasLimits :
    (reply : DescriptorReply) (gud : GudDevice)
    → (get_display_descriptor reply gud).0 ≡ success
    → HasLimits (get_display_descriptor reply gud).1
      × ((bytes : List ℕ) × (d : DisplayDescriptorReq) × (reply ≡ descriptor_bytes bytes)
          × (length bytes ≡ 30)
          × (decode_descriptor bytes ≡ some d)
          × (d.magic ≡ display_magic)
          × (d.version ≡ protocol_version))
unfolding get_display_descriptor
get_display_descriptor-HasLimits (descriptor_error err) gud e = ground arith
get_display_descriptor-HasLimits (descriptor_bytes bytes) gud e =
    elim (Option-cases (decode_descriptor bytes)) [
      | inl bad ↦ ground arith
      | inr (d, good) ↦
          let kept = accept_descriptor-HasLimits d gud in
          (
            ground (arith, kept),
            (bytes, d, refl, ground arith, good, ground (arith, kept), ground (arith, kept)),
          )
    ]

-- The buffers after buffers_init: all of them, with room for a line of the widest mode in either
-- format, or none of them.
pub record IsProvided (gud : GudDevice) : Type 0 where
  pub line_fits : gud.max_width * 4 ≤ gud.xdisp_max_source_length
  pub same_size : gud.xdisp_bulk_buffer_size ≡ gud.xdisp_max_source_length
  pub within_descriptor : gud.xdisp_max_source_length ≤ gud.max_buffer_size
  pub within_limit : gud.xdisp_max_source_length ≤ max_payload_limit

-- For limits that fit 32 bits, buffers_init succeeds with all buffers allocated, with room for a
-- line of the widest mode in either format and within the negotiated and absolute limits, or
-- fails and holds none.
pub buffers_init_all_or_nothing :
    (given : Buffers) (workmem_size : ℕ) (gud : GudDevice)
    → gud.max_width < 2 ^ 32
    → gud.max_height < 2 ^ 32
    → let (ret, held, gud') = buffers_init given workmem_size gud in
      (ret ≡ success)
        × (held ≡ record { workmem = true; scratch = true; bulk = true; urb = true })
        × IsProvided gud'
      ⊎ (held ≡ no_buffers) × ((ret ≡ success) → ⊥)
unfolding buffers_init
buffers_init_all_or_nothing given workmem_size gud w h = ground arith
