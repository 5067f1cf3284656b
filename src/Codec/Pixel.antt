-- ===== src/Codec/Pixel.antt =====
-- benchmark/tools/fbcodec-bench/src/common.h: the fields of an RGB565 pixel and their 8-bit form.
pub mod Fields
use gud.Base.{ℕ, ◌+◌, ◌*◌, ◌/◌, ◌%◌, ◌^◌, bit_and, bit_or}

abbrev pub u8 : ℕ → ℕ
u8 n = n % 2 ^ 8

abbrev pub u16 : ℕ → ℕ
u16 n = n % 2 ^ 16

infixl 75 ◌<<◌ ◌>>◌
abbrev pub ◌<<◌ : ℕ → ℕ → ℕ
x << k = x * 2 ^ k

abbrev pub ◌>>◌ : ℕ → ℕ → ℕ
x >> k = x / 2 ^ k

pub record Channels : Type 0 where
  pub r : ℕ
  pub g : ℕ
  pub b : ℕ

unfoldable pub rgb565_pixel_count : ℕ → ℕ → ℕ
rgb565_pixel_count width height = width * height

unfoldable pub rgb565_byte_size : ℕ → ℕ → ℕ
unfolding rgb565_pixel_count
rgb565_byte_size width height = rgb565_pixel_count width height * 2

unfoldable pub rgb565_unpack : ℕ → Channels
rgb565_unpack pixel = record {
  r = u8 (bit_and (pixel >> 11) 0x1F);
  g = u8 (bit_and (pixel >> 5) 0x3F);
  b = u8 (bit_and pixel 0x1F);
}

unfoldable pub rgb565_pack : Channels → ℕ
rgb565_pack c =
    u16 (bit_or (bit_or (bit_and c.r 0x1F << 11) (bit_and c.g 0x3F << 5)) (bit_and c.b 0x1F))

unfoldable pub expand5 : ℕ → ℕ
expand5 v = u8 (bit_or (v << 3) (v >> 2))

unfoldable pub expand6 : ℕ → ℕ
expand6 v = u8 (bit_or (v << 2) (v >> 4))

unfoldable pub rgb565_to_rgb888 : ℕ → Channels
unfolding expand5 expand6 rgb565_unpack
rgb565_to_rgb888 pixel =
    let c = rgb565_unpack pixel in record { r = expand5 c.r; g = expand6 c.g; b = expand5 c.b }

unfoldable pub rgb888_to_rgb565 : Channels → ℕ
unfolding rgb565_pack
rgb888_to_rgb565 c =
    rgb565_pack (record { r = u8 (c.r >> 3); g = u8 (c.g >> 2); b = u8 (c.b >> 3) })
