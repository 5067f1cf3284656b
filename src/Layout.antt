-- ===== src/Layout.antt =====
-- backport-4.9/gud_frame_layout.h: sizes of a frame, and the range of a mapping that it needs.
pub mod Bounds
use gud.Base.{ℕ, ◌-◌, ◌*◌, ◌/◌, ◌%◌, ◌^◌, Bool, ◌||◌, ltb, ◌==◌, if◌then◌else◌}
use gud.Kernel.{Errno, Ret, success, failure, einval, eoverflow}

-- The DRM fourcc codes that the driver tells apart; `other_format` is any other code.
pub data PixelFormat : Type 0 where
  rgb565 xrgb8888 : PixelFormat
  other_format : ℕ → PixelFormat

unfoldable pub format_bytes_per_pixel : PixelFormat → ℕ
format_bytes_per_pixel rgb565 = 2
format_bytes_per_pixel xrgb8888 = 4
format_bytes_per_pixel (other_format n) = 0

-- `size_t` has 64 bits on the target, and arithmetic on it wraps.
abbrev pub size_mod : ℕ
size_mod = 2 ^ 64

abbrev pub size_max : ℕ
size_max = 2 ^ 64 - 1

abbrev pub u32_max : ℕ
u32_max = 2 ^ 32 - 1

abbrev pub u32 : ℕ → ℕ
u32 n = n % 2 ^ 32

pub record FrameLayout : Type 0 where
  pub bytes_per_line : ℕ
  pub total : ℕ

-- The two out-parameters are written on success only.
pub data LayoutResult : Type 0 where
  layout : FrameLayout → LayoutResult
  no_layout : Errno → LayoutResult

line_layout : ℕ → ℕ → LayoutResult
line_layout line_bytes height =
    if line_bytes == 0 || ltb (size_max / line_bytes) height
    then no_layout eoverflow
    else let total = line_bytes * height % size_mod in
      if total == 0 || ltb u32_max total
      then no_layout eoverflow
      else layout (record { bytes_per_line = line_bytes; total = total })

unfoldable pub format_frame_layout : ℕ → ℕ → PixelFormat → LayoutResult
unfolding format_bytes_per_pixel line_layout
format_frame_layout width height format =
    let bpp = format_bytes_per_pixel format in
    if bpp == 0 || width == 0 || height == 0
    then no_layout einval
    else if ltb (size_max / bpp) width
    then no_layout eoverflow
    else line_layout (width * bpp % size_mod) height

unfoldable pub validate_framebuffer_range : ℕ → ℕ → ℕ → Ret
validate_framebuffer_range framebuffer_offset total mapped_size =
    if ltb mapped_size framebuffer_offset || ltb (mapped_size - framebuffer_offset) total
    then failure einval
    else success
