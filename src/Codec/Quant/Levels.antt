-- ===== src/Codec/Quant/Levels.antt =====
-- The 16-bit quantizers keep their own results, and move each channel by a bounded amount.
use gud.Base.{
  ℕ, ◌+◌, ◌*◌, ◌/◌, ◌%◌, ◌≤◌, ◌<◌, ◌≡◌, refl, sym, ap, ap₂, ◌∙◌, arith, min, bit_and, List, [], ◌∷◌,
}
use gud.Base.Bits.{and_digit, and_mask}
use gud.Codec.Pixel.{Channels, rgb565_unpack, rgb565_pack}
use gud.Codec.Pixel.Fields.{
  IsPixel, unpack-InField, unpack-pack, pack-unpack, pack-IsPixel, Channels_ext,
}
use gud.Codec.Quant.{keep_top_bits, mild_pixel, moderate_pixel, quant_mild_fwd, quant_moderate_fwd}

-- 30, 62 and 60 are the masks of these levels.
mask_above : (v m : ℕ) → bit_and v (2 * m) ≡ bit_and (v / 2) m * 2
mask_above v m =
    let half : 2 * m / 2 ≡ m = omega arith in
    let low : min (v % 2) (2 * m % 2) ≡ 0 = omega arith in
    and_digit v (2 * m) ∙ ap₂ (λ s t. bit_and (v / 2) s * 2 + t) half low ∙ omega arith

pub keep_5_4 : (v : ℕ) → v < 32 → keep_top_bits v 5 4 ≡ v / 2 * 2
unfolding keep_top_bits
keep_5_4 v h = omega (arith, mask_above v 15, and_mask 4 (v / 2))

pub keep_6_5 : (v : ℕ) → v < 64 → keep_top_bits v 6 5 ≡ v / 2 * 2
unfolding keep_top_bits
keep_6_5 v h = omega (arith, mask_above v 31, and_mask 5 (v / 2))

pub keep_6_4 : (v : ℕ) → v < 64 → keep_top_bits v 6 4 ≡ v / 4 * 4
unfolding keep_top_bits
keep_6_4 v h = omega (arith, mask_above v 30, mask_above (v / 2) 15, and_mask 4 (v / 2 / 2))

pixel_ext : (p q : ℕ) → IsPixel p → IsPixel q → rgb565_unpack p ≡ rgb565_unpack q → p ≡ q
pixel_ext p q hp hq e = sym (pack-unpack p hp) ∙ ap rgb565_pack e ∙ pack-unpack q hq

module _ (p : ℕ) where
  mild_fields :
      let c = rgb565_unpack p in
      rgb565_unpack (mild_pixel p) ≡ record { r = c.r / 2 * 2; g = c.g / 2 * 2; b = c.b / 2 * 2 }
  unfolding mild_pixel
  mild_fields =
      let c = rgb565_unpack p in
      let i = unpack-InField p in
      let kept : Channels = record {
        r = keep_top_bits c.r 5 4;
        g = keep_top_bits c.g 6 5;
        b = keep_top_bits c.b 5 4;
      } in
      let r = keep_5_4 c.r i.r_fits in
      let g = keep_6_5 c.g i.g_fits in
      let b = keep_5_4 c.b i.b_fits in
      unpack-pack kept (omega arith)
      ∙ Channels_ext kept (record { r = c.r / 2 * 2; g = c.g / 2 * 2; b = c.b / 2 * 2 }) r g b

  moderate_fields :
      let c = rgb565_unpack p in
      rgb565_unpack (moderate_pixel p)
      ≡ record { r = c.r / 2 * 2; g = c.g / 4 * 4; b = c.b / 2 * 2 }
  unfolding moderate_pixel
  moderate_fields =
      let c = rgb565_unpack p in
      let i = unpack-InField p in
      let kept : Channels = record {
        r = keep_top_bits c.r 5 4;
        g = keep_top_bits c.g 6 4;
        b = keep_top_bits c.b 5 4;
      } in
      let r = keep_5_4 c.r i.r_fits in
      let g = keep_6_4 c.g i.g_fits in
      let b = keep_5_4 c.b i.b_fits in
      unpack-pack kept (omega arith)
      ∙ Channels_ext kept (record { r = c.r / 2 * 2; g = c.g / 4 * 4; b = c.b / 2 * 2 }) r g b

pub mild-IsPixel : (p : ℕ) → IsPixel (mild_pixel p)
unfolding mild_pixel
mild-IsPixel p = pack-IsPixel _

moderate-IsPixel : (p : ℕ) → IsPixel (moderate_pixel p)
unfolding moderate_pixel
moderate-IsPixel p = pack-IsPixel _

mild_again : (p : ℕ) → mild_pixel (mild_pixel p) ≡ mild_pixel p
mild_again p =
    let once = mild_fields p in
    let c = rgb565_unpack (mild_pixel p) in
    let r = ap (λ (c : Channels). c.r) once in
    let g = ap (λ (c : Channels). c.g) once in
    let b = ap (λ (c : Channels). c.b) once in
    pixel_ext (mild_pixel (mild_pixel p)) (mild_pixel p) (mild-IsPixel (mild_pixel p))
      (mild-IsPixel p)
      (mild_fields (mild_pixel p)
        ∙ Channels_ext (record { r = c.r / 2 * 2; g = c.g / 2 * 2; b = c.b / 2 * 2 }) c
            (omega arith) (omega arith) (omega arith))

moderate_again : (p : ℕ) → moderate_pixel (moderate_pixel p) ≡ moderate_pixel p
moderate_again p =
    let once = moderate_fields p in
    let c = rgb565_unpack (moderate_pixel p) in
    let r = ap (λ (c : Channels). c.r) once in
    let g = ap (λ (c : Channels). c.g) once in
    let b = ap (λ (c : Channels). c.b) once in
    pixel_ext (moderate_pixel (moderate_pixel p)) (moderate_pixel p)
      (moderate-IsPixel (moderate_pixel p)) (moderate-IsPixel p)
      (moderate_fields (moderate_pixel p)
        ∙ Channels_ext (record { r = c.r / 2 * 2; g = c.g / 4 * 4; b = c.b / 2 * 2 }) c
            (omega arith) (omega arith) (omega arith))

-- Quantizing a frame that was quantized changes nothing, at either level.
quant_idempotent :
    (src : List ℕ)
    → (quant_mild_fwd (quant_mild_fwd src) ≡ quant_mild_fwd src)
      × (quant_moderate_fwd (quant_moderate_fwd src) ≡ quant_moderate_fwd src)
unfolding quant_mild_fwd quant_moderate_fwd
quant_idempotent [] = (refl, refl)
quant_idempotent (p ∷ src) =
    let (mild, moderate) = quant_idempotent src in
    (ap₂ ◌∷◌ (mild_again p) mild, ap₂ ◌∷◌ (moderate_again p) moderate)

-- `y` is `x` with at most `d` taken off.
abbrev Below : ℕ → ℕ → ℕ → Type 0
Below d x y = (y ≤ x) × (x ≤ y + d)

abbrev ChannelsBelow : ℕ → Channels → Channels → Type 0
ChannelsBelow d x y = Below 1 x.r y.r × Below d x.g y.g × Below 1 x.b y.b

-- The mild level takes at most 1 off each channel of a pixel, the moderate one at most 3 off
-- green and 1 off the others.
quant_loss :
    (p : ℕ)
    → ChannelsBelow 1 (rgb565_unpack p) (rgb565_unpack (mild_pixel p))
      × ChannelsBelow 3 (rgb565_unpack p) (rgb565_unpack (moderate_pixel p))
quant_loss p =
    let mild = mild_fields p in
    let moderate = moderate_fields p in
    let r = ap (λ (c : Channels). c.r) mild in
    let g = ap (λ (c : Channels). c.g) mild in
    let b = ap (λ (c : Channels). c.b) mild in
    let r' = ap (λ (c : Channels). c.r) moderate in
    let g' = ap (λ (c : Channels). c.g) moderate in
    let b' = ap (λ (c : Channels). c.b) moderate in omega arith
