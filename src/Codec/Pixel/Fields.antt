-- ===== src/Codec/Pixel/Fields.antt =====
-- The fields of a pixel as arithmetic, and the conversions that lose nothing.
use gud.Base.{ℕ, ◌+◌, ◌*◌, ◌/◌, ◌%◌, ◌^◌, ◌<◌, ◌≡◌, ap, ◌∙◌, arith, bit_or}
use gud.Base.Bits.{and_mask, or_fields}
use gud.Codec.Pixel.{
  Channels, rgb565_unpack, rgb565_pack, expand5, expand6, rgb565_to_rgb888, rgb888_to_rgb565,
}

abbrev pub IsPixel : ℕ → Type 0
IsPixel p = p < 2 ^ 16

pub record InField (c : Channels) : Type 0 where
  pub r_fits : c.r < 32
  pub g_fits : c.g < 64
  pub b_fits : c.b < 32

pub unpack_sum :
    (p : ℕ)
    → ((rgb565_unpack p).r ≡ p / 2048 % 32)
      × ((rgb565_unpack p).g ≡ p / 32 % 64)
      × ((rgb565_unpack p).b ≡ p % 32)
unfolding rgb565_unpack
unpack_sum p = (
  omega (arith, and_mask 5 (p / 2048)),
  omega (arith, and_mask 6 (p / 32)),
  omega (arith, and_mask 5 p),
)

pub pack_sum : (c : Channels) → rgb565_pack c ≡ c.r % 32 * 2048 + c.g % 64 * 32 + c.b % 32
unfolding rgb565_pack
pack_sum c =
    rw (and_mask 5 c.r, and_mask 6 c.g, and_mask 5 c.b)
      (rw (or_fields 11 (c.r % 32) (c.g % 64 * 32) (omega arith)) (
        ap (λ t. bit_or t (c.b % 32) % 2 ^ 16) (regroup (c.r % 32) (c.g % 64))
        ∙ rw (or_fields 5 (c.r % 32 * 64 + c.g % 64) (c.b % 32) (omega arith)) (omega arith)))
  where
    regroup : (a b : ℕ) → a * 2 ^ 11 + b * 2 ^ 5 ≡ (a * 64 + b) * 2 ^ 5
    regroup a b = omega arith

pub unpack-InField : (p : ℕ) → InField (rgb565_unpack p)
unpack-InField p = omega (arith, unpack_sum p)

pub pack-IsPixel : (c : Channels) → IsPixel (rgb565_pack c)
pack-IsPixel c = omega (arith, pack_sum c)

-- A pixel is its fields, and fields are those of their pixel.
pub pack-unpack : (p : ℕ) → IsPixel p → rgb565_pack (rgb565_unpack p) ≡ p
pack-unpack p h = omega (arith, pack_sum (rgb565_unpack p), unpack_sum p)

pub Channels_ext : (c d : Channels) → c.r ≡ d.r → c.g ≡ d.g → c.b ≡ d.b → c ≡ d
Channels_ext c d er eg eb = ground arith

pub unpack-pack : (c : Channels) → InField c → rgb565_unpack (rgb565_pack c) ≡ c
unpack-pack c h =
    let e = unpack_sum (rgb565_pack c) in
    let s = pack_sum c in
    Channels_ext (rgb565_unpack (rgb565_pack c)) c (omega arith) (omega arith) (omega arith)

pub expand5_sum : (v : ℕ) → v < 32 → expand5 v ≡ v * 8 + v / 4
unfolding expand5
expand5_sum v h = omega (arith, or_fields 3 v (v / 4) (omega arith))

pub expand6_sum : (v : ℕ) → v < 64 → expand6 v ≡ v * 4 + v / 16
unfolding expand6
expand6_sum v h = omega (arith, or_fields 2 v (v / 16) (omega arith))

-- Widening a pixel of 16 bits to 8 bits a channel and narrowing it again gives the pixel back.
rgb888_to_rgb565-rgb565_to_rgb888 : (p : ℕ) → IsPixel p → rgb888_to_rgb565 (rgb565_to_rgb888 p) ≡ p
unfolding rgb888_to_rgb565 rgb565_to_rgb888
rgb888_to_rgb565-rgb565_to_rgb888 p h =
    let c = rgb565_unpack p in
    let i = unpack-InField p in
    let r = expand5_sum c.r i.r_fits in
    let g = expand6_sum c.g i.g_fits in
    let b = expand5_sum c.b i.b_fits in
    ap rgb565_pack (
      Channels_ext
        (record {
          r = expand5 c.r / 2 ^ 3 % 2 ^ 8;
          g = expand6 c.g / 2 ^ 2 % 2 ^ 8;
          b = expand5 c.b / 2 ^ 3 % 2 ^ 8;
        })
        c (omega arith) (omega arith) (omega arith))
    ∙ pack-unpack p h
