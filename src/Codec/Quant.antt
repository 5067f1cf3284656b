-- ===== src/Codec/Quant.antt =====
-- benchmark/tools/fbcodec-bench/src/transforms/quant.c: dropping low bits of each channel, and the
-- packed 12- and 8-bit forms. A buffer of w * h pixels is a list.
pub mod Levels
pub mod Packed
use gud.Base.{
  ℕ, zero, suc, ◌+◌, ◌-◌, ◌*◌, ◌/◌, ◌%◌, ◌^◌, Bool, List, [], ◌∷◌, map, length, ◌==◌, leb,
  if◌then◌else◌, bit_and, bit_or,
}
use gud.Codec.Pixel.{Channels, u8, u16, ◌<<◌, ◌>>◌, rgb565_unpack, rgb565_pack}

-- The top `keep_bits` of a field of `field_bits`; C's `drop <= 0` is `field_bits <= keep_bits`.
unfoldable pub keep_top_bits : ℕ → ℕ → ℕ → ℕ
keep_top_bits value field_bits keep_bits =
    if leb field_bits keep_bits
    then value
    else u8 (bit_and value (u8 (((1 << keep_bits) - 1) << (field_bits - keep_bits))))

unfoldable pub mild_pixel : ℕ → ℕ
unfolding keep_top_bits
mild_pixel pixel =
    let c = rgb565_unpack pixel in
    rgb565_pack
      (record { r = keep_top_bits c.r 5 4; g = keep_top_bits c.g 6 5; b = keep_top_bits c.b 5 4 })

unfoldable pub quant_mild_fwd : List ℕ → List ℕ
unfolding mild_pixel
quant_mild_fwd src = map mild_pixel src

unfoldable pub moderate_pixel : ℕ → ℕ
unfolding keep_top_bits
moderate_pixel pixel =
    let c = rgb565_unpack pixel in
    rgb565_pack
      (record { r = keep_top_bits c.r 5 4; g = keep_top_bits c.g 6 4; b = keep_top_bits c.b 5 4 })

unfoldable pub quant_moderate_fwd : List ℕ → List ℕ
unfolding moderate_pixel
quant_moderate_fwd src = map moderate_pixel src

unfoldable pub quant_identity_inv : List ℕ → List ℕ
quant_identity_inv src = src

unfoldable pub quant_rgb444_packed_bound : ℕ → ℕ → ℕ
quant_rgb444_packed_bound w h = (w * h + 1) / 2 * 3

unfoldable pub rgb444_of : ℕ → ℕ
unfolding keep_top_bits
rgb444_of pixel =
    let c = rgb565_unpack pixel in
    let r = u8 (keep_top_bits c.r 5 4 >> 1) in
    let g = u8 (keep_top_bits c.g 6 4 >> 2) in
    let b = u8 (keep_top_bits c.b 5 4 >> 1) in u16 (bit_or (bit_or (r << 8) (g << 4)) b)

unfoldable pub rgb444_to_rgb565 : ℕ → ℕ
rgb444_to_rgb565 v =
    let r4 = u8 (bit_and (v >> 8) 0xF) in
    let g4 = u8 (bit_and (v >> 4) 0xF) in
    let b4 = u8 (bit_and v 0xF) in
    rgb565_pack (record {
      r = u8 (bit_or (r4 << 1) (r4 >> 3));
      g = u8 (bit_or (g4 << 2) (g4 >> 2));
      b = u8 (bit_or (b4 << 1) (b4 >> 3));
    })

-- The three bytes of two 12-bit values.
unfoldable pub pair_bytes : ℕ → ℕ → List ℕ → List ℕ
pair_bytes p0 p1 rest =
    u8 (p0 >> 4)
    ∷ u8 (bit_or (bit_and p0 0xF << 4) (bit_and (p1 >> 8) 0xF))
    ∷ u8 (bit_and p1 0xFF)
    ∷ rest

-- Pairs of pixels, and a last unpaired one padded with zero.
unfoldable pub quant_rgb444_pack : List ℕ → List ℕ
unfolding rgb444_of pair_bytes
quant_rgb444_pack [] = []
quant_rgb444_pack (a ∷ []) =
    let p0 = rgb444_of a in u8 (p0 >> 4) ∷ u8 (bit_and p0 0xF << 4) ∷ 0 ∷ []
quant_rgb444_pack (a ∷ b ∷ rest) = pair_bytes (rgb444_of a) (rgb444_of b) (quant_rgb444_pack rest)

unfoldable pub first_of_pair : ℕ → ℕ → ℕ
first_of_pair s0 s1 = u16 (bit_or (s0 << 4) (s1 >> 4))

unfoldable pub second_of_pair : ℕ → ℕ → ℕ
second_of_pair s1 s2 = u16 (bit_or (bit_and s1 0xF << 8) s2)

-- `n` pixels from three bytes a pair; bytes that are not there would be read out of range, which
-- the model ends the output at.
unfoldable pub quant_rgb444_unpack : ℕ → List ℕ → List ℕ
unfolding rgb444_to_rgb565 first_of_pair second_of_pair
quant_rgb444_unpack (suc zero) (s0 ∷ s1 ∷ rest) = rgb444_to_rgb565 (first_of_pair s0 s1) ∷ []
quant_rgb444_unpack (suc (suc n)) (s0 ∷ s1 ∷ s2 ∷ rest) =
    rgb444_to_rgb565 (first_of_pair s0 s1)
    ∷ rgb444_to_rgb565 (second_of_pair s1 s2)
    ∷ quant_rgb444_unpack n rest
quant_rgb444_unpack _ _ = []

unfoldable pub quant_rgb332_bound : ℕ → ℕ → ℕ
quant_rgb332_bound w h = w * h

unfoldable pub rgb332_byte : ℕ → ℕ
rgb332_byte pixel =
    let c = rgb565_unpack pixel in
    let r3 = u8 (c.r >> 2) in
    let g3 = u8 (c.g >> 3) in let b2 = u8 (c.b >> 3) in u8 (bit_or (bit_or (r3 << 5) (g3 << 2)) b2)

unfoldable pub quant_rgb332_pack : List ℕ → List ℕ
unfolding rgb332_byte
quant_rgb332_pack src = map rgb332_byte src

unfoldable pub rgb332_pixel : ℕ → ℕ
rgb332_pixel v =
    let r3 = u8 (bit_and (v >> 5) 0x7) in
    let g3 = u8 (bit_and (v >> 2) 0x7) in
    let b2 = u8 (bit_and v 0x3) in
    rgb565_pack (record {
      r = u8 (bit_or (r3 << 2) (r3 >> 1));
      g = u8 (bit_or (g3 << 3) g3);
      b = u8 (bit_or (bit_or (b2 << 3) (b2 << 1)) (b2 >> 1));
    })

unfoldable pub quant_rgb332_unpack : List ℕ → List ℕ
unfolding rgb332_pixel
quant_rgb332_unpack src = map rgb332_pixel src
