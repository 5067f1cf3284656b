-- ===== src/Device.antt =====
-- backport-4.9/gud_drv.c, gud_get_display_descriptor, and the payload buffers of gud_pipe.c,
-- gud_xdisp_buffers_init and gud_xdisp_buffers_fini. What the descriptor request returns and which
-- allocations succeed are arguments.
pub mod Limits
use gud.Base.{
  ℕ, ◌+◌, ◌-◌, ◌*◌, ◌%◌, ◌^◌, min, Bool, true, false, ◌||◌, ◌&&◌, not, Option, none, some, List,
  length, ◌==◌, ltb, leb, if◌then◌else◌, bit_and,
}
use gud.Kernel.{
  Errno, Ret, success, failure, einval, eoverflow, e2big, enomem, enodev, eio, eprotonosupport,
}
use gud.Layout.{size_mod}
use gud.Wire.{
  DisplayDescriptorReq, decode_descriptor, display_magic, protocol_version, compression_lz4,
}
use gud.Usb.{GudDevice}

pub data DescriptorReply : Type 0 where
  descriptor_error : Errno → DescriptorReply
  descriptor_bytes : List ℕ → DescriptorReply

abbrev pub descriptor_size : ℕ
descriptor_size = 30

unfoldable pub limits_invalid : GudDevice → Bool
limits_invalid gud =
    gud.max_buffer_size == 0
    || gud.min_width == 0
    || gud.max_width == 0
    || gud.min_height == 0
    || gud.max_height == 0
    || ltb gud.max_width gud.min_width
    || ltb gud.max_height gud.min_height

-- The fields are stored before the limits are checked.
accept_descriptor : DisplayDescriptorReq → GudDevice → Ret × GudDevice
unfolding limits_invalid
accept_descriptor d gud =
    if not (d.magic == display_magic)
    then (failure enodev, gud)
    else if not (d.version == protocol_version)
    then (failure eprotonosupport, gud)
    else let gud' : GudDevice = record gud {
      protocol_version = d.version;
      flags = d.flags;
      compression = bit_and d.compression compression_lz4;
      max_buffer_size = d.max_buffer_size;
      min_width = d.min_width;
      max_width = d.max_width;
      min_height = d.min_height;
      max_height = d.max_height;
    } in
      if limits_invalid gud' then (failure einval, gud') else (success, gud')

unfoldable pub get_display_descriptor : DescriptorReply → GudDevice → Ret × GudDevice
unfolding accept_descriptor
get_display_descriptor (descriptor_error e) gud = (failure e, gud)
get_display_descriptor (descriptor_bytes bytes) gud =
    if length bytes == descriptor_size
    then elim (decode_descriptor bytes) [
      | none ↦ (failure eio, gud)
      | some d ↦ accept_descriptor d gud
    ]
    else (failure eio, gud)

abbrev pub max_payload_limit : ℕ
max_payload_limit = 64 * 1024 * 1024

-- Which of the buffers are allocated: the compressor's memory, its output, the bulk buffer, and
-- the URB.
pub record Buffers : Type 0 where
  pub workmem : Bool
  pub scratch : Bool
  pub bulk : Bool
  pub urb : Bool

abbrev pub no_buffers : Buffers
no_buffers = record { workmem = false; scratch = false; bulk = false; urb = false }

-- The labels err_workmem, err_scratch and err_bulk, over what is held; each goes on to the one
-- before it.
err_workmem : Buffers → GudDevice → Ret × Buffers × GudDevice
err_workmem held gud =
    (failure enomem, record held { workmem = false }, record gud { xdisp_max_source_length = 0 })

err_scratch : Buffers → GudDevice → Ret × Buffers × GudDevice
unfolding err_workmem
err_scratch held gud = err_workmem (record held { scratch = false }) gud

err_bulk : Buffers → GudDevice → Ret × Buffers × GudDevice
unfolding err_scratch
err_bulk held gud = err_scratch (record held { bulk = false }) gud

-- The allocations in their order, over what is held.
allocate : Buffers → ℕ → Buffers → GudDevice → Ret × Buffers × GudDevice
unfolding err_workmem err_scratch err_bulk
allocate given max_source_length held gud =
    let with_workmem : Buffers = record held { workmem = true } in
    let with_scratch : Buffers = record with_workmem { scratch = true } in
    let with_bulk : Buffers = record with_scratch { bulk = true } in
    let with_urb : Buffers = record with_bulk { urb = true } in
    if not given.workmem
    then (failure enomem, held, gud)
    else if not given.scratch
    then err_workmem with_workmem gud
    else if not given.bulk
    then err_scratch with_scratch gud
    else if not given.urb
    then err_bulk with_bulk gud
    else (
      success,
      with_urb,
      record gud {
        xdisp_max_source_length = max_source_length;
        xdisp_bulk_buffer_size = max_source_length;
      },
    )

-- `given` says which allocations succeed, and `workmem_size` is LZ4's.
unfoldable pub buffers_init : Buffers → ℕ → GudDevice → Ret × Buffers × GudDevice
unfolding allocate
buffers_init given workmem_size gud =
    let bytes_per_line = gud.max_width * 4 % size_mod in
    let frame_bytes = gud.max_width * gud.max_height % size_mod * 4 % size_mod in
    let max_source_length = min gud.max_buffer_size frame_bytes in
    if gud.max_buffer_size == 0 || ltb max_payload_limit gud.max_buffer_size
    then (failure einval, no_buffers, gud)
    else if ltb gud.max_buffer_size bytes_per_line
    then (failure e2big, no_buffers, gud)
    else if ltb max_source_length bytes_per_line
    then (failure einval, no_buffers, gud)
    else if workmem_size == 0
    then (failure eoverflow, no_buffers, gud)
    else allocate given max_source_length no_buffers gud

unfoldable pub buffers_fini : Buffers → GudDevice → Buffers × GudDevice
buffers_fini held gud = (
  no_buffers,
  record gud {
    xdisp_max_source_length = 0;
    xdisp_bulk_buffer_size = if held.bulk then 0 else gud.xdisp_bulk_buffer_size;
  },
)
