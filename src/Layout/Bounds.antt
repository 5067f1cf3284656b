-- ===== src/Layout/Bounds.antt =====
-- The checks of gud_frame_layout.h decide exactly the frames whose sizes are representable.
use gud.Base.{ℕ, ◌+◌, ◌*◌, ◌^◌, ◌≤◌, ◌<◌, ◌≡◌, ◌↔◌, arith}
use gud.Base.{◌/◌, ◌%◌}
use gud.Kernel.{success}
use gud.Layout.{
  PixelFormat, rgb565, xrgb8888, other_format, format_bytes_per_pixel, format_frame_layout,
  FrameLayout, layout, validate_framebuffer_range, u32_max, size_max, size_mod, line_layout,
}

-- What a successful layout promises.
pub record IsLayout (width height : ℕ) (format : PixelFormat) (l : FrameLayout) : Type 0 where
  pub line_exact : l.bytes_per_line ≡ width * format_bytes_per_pixel format
  pub total_exact : l.total ≡ l.bytes_per_line * height
  pub line_pos : 0 < l.bytes_per_line
  pub height_pos : 0 < height
  pub total_fits : l.total ≤ u32_max

div_bound : (a b c : ℕ) → 0 < b → c ≤ a / b → b * c ≤ a
div_bound a b c p h = grind arith

prod_pos : (a b : ℕ) → 0 < a → 0 < b → 0 < a * b
prod_pos a b p q = grind arith

line_layout-layout :
    (line height : ℕ) (l : FrameLayout)
    → line_layout line height ≡ layout l
    → (l.bytes_per_line ≡ line) × (l.total ≡ line * height) × (0 < line) × (l.total ≤ u32_max)
unfolding line_layout
line_layout-layout line height l h = ground (arith, div_bound size_max line height)

IsLayout-line :
    (width height : ℕ) (format : PixelFormat) (l : FrameLayout)
    → 0 < height
    → width * format_bytes_per_pixel format < size_mod
    → line_layout (width * format_bytes_per_pixel format % size_mod) height ≡ layout l
    → IsLayout width height format l
IsLayout-line width height format l h fits e =
    ground (arith, line_layout-layout (width * format_bytes_per_pixel format % size_mod) height l)

-- A layout that is returned for a width of 32 bits is exact: no multiplication wrapped, no size
-- is 0, and the length of the frame fits 32 bits.
pub format_frame_layout-IsLayout :
    (width height : ℕ) (format : PixelFormat) (l : FrameLayout)
    → width < 2 ^ 32
    → format_frame_layout width height format ≡ layout l
    → IsLayout width height format l
format_frame_layout-IsLayout width height rgb565 l hw e =
    IsLayout-line width height rgb565 l (unfold format_frame_layout in ground arith)
      (unfold format_bytes_per_pixel in omega arith) (unfold format_frame_layout in ground arith)
format_frame_layout-IsLayout width height xrgb8888 l hw e =
    IsLayout-line width height xrgb8888 l (unfold format_frame_layout in ground arith)
      (unfold format_bytes_per_pixel in omega arith) (unfold format_frame_layout in ground arith)
format_frame_layout-IsLayout width height (other_format n) l hw e =
    unfold format_frame_layout in ground arith

le_div : (a b c : ℕ) → 0 < b → b * c ≤ a → c ≤ a / b
le_div a b c p h = grind arith

line_layout_fits :
    (line height : ℕ)
    → 0 < line
    → 0 < height
    → line * height ≤ u32_max
    → line_layout line height ≡ layout (record { bytes_per_line = line; total = line * height })
unfolding line_layout
line_layout_fits line height p q fits =
    ground (arith, prod_pos line height p q, le_div size_max line height p)

-- Every frame with a positive height and line, a width of 32 bits and a length that fits 32 bits
-- has its layout.
pub format_frame_layout_complete :
    (width height : ℕ) (format : PixelFormat)
    → width < 2 ^ 32
    → 0 < height
    → 0 < width * format_bytes_per_pixel format
    → width * format_bytes_per_pixel format * height ≤ u32_max
    → format_frame_layout width height format
      ≡ layout (record {
        bytes_per_line = width * format_bytes_per_pixel format;
        total = width * format_bytes_per_pixel format * height;
      })
unfolding format_frame_layout
format_frame_layout_complete width height rgb565 hw h p fits =
    ground (arith, line_layout_fits (width * 2) height p h fits)
format_frame_layout_complete width height xrgb8888 hw h p fits =
    ground (arith, line_layout_fits (width * 4) height p h fits)
format_frame_layout_complete width height (other_format n) hw h p fits = ground arith

-- The range check accepts exactly the ranges that end inside the mapping.
pub validate_framebuffer_range_iff :
    (offset total mapped : ℕ)
    → (validate_framebuffer_range offset total mapped ≡ success) ↔ (offset + total ≤ mapped)
unfolding validate_framebuffer_range
validate_framebuffer_range_iff offset total mapped = ground arith
