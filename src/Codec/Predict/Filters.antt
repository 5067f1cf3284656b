-- ===== src/Codec/Predict/Filters.antt =====
-- Each filter gives a pixel back.
use gud.Base.{ℕ, ◌+◌, ◌-◌, ◌*◌, ◌^◌, ◌<◌, ◌≤◌, ◌≡◌, ◌∙◌, ap, ap₂, arith, bit_and, bit_xor}
use gud.Base.Bits.{and_mask, xor_undo, xor-lt}
use gud.Codec.Pixel.{Channels, u8, u16, rgb565_unpack, rgb565_pack}
use gud.Codec.Pixel.Fields.{
  IsPixel, InField, unpack-InField, unpack-pack, pack-unpack, pack-IsPixel, Channels_ext,
}
use gud.Codec.Words.{get_u16le, get_sum}
use gud.Codec.Predict.{
  Filter, low_byte, high_byte, on_bytes, paeth_predict, med_predict, masked_difference, masked_sum,
  med_channel_fwd, med_channel_inv, on_channels, sub_byte, u16_sub, u16_xor, paeth_byte,
  paeth_pixel, med, channel_sub, channel_xor,
}

-- Its values are pixels, and its inverse undoes it.
pub record IsUndone (f : Filter) : Type 0 where
  pub pixel : (a b c x : ℕ) → IsPixel (f.fwd a b c x)
  pub undone :
      (a b c x : ℕ)
      → IsPixel a
      → IsPixel b
      → IsPixel c
      → IsPixel x
      → f.inv a b c (f.fwd a b c x) ≡ x

pub u16_sub-IsUndone : IsUndone u16_sub
unfolding u16_sub
u16_sub-IsUndone = record {
  pixel = λ a b c x. omega arith;
  undone = λ a b c x ha hb hc hx. omega arith;
}

xor_again : (a x : ℕ) → IsPixel a → IsPixel x → u16 (bit_xor x a) ≡ bit_xor x a
xor_again a x ha hx = let small = xor-lt 16 x a hx ha in omega arith

pub u16_xor-IsUndone : IsUndone u16_xor
unfolding u16_xor
u16_xor-IsUndone = record {
  pixel = λ a b c x. omega arith;
  undone = λ a b c x ha hb hc hx.
      ap (λ t. u16 (bit_xor t a)) (xor_again a x ha hx) ∙ ap u16 (xor_undo x a) ∙ omega arith;
}

pub paeth_pixel-IsUndone : IsUndone paeth_pixel
unfolding paeth_pixel
paeth_pixel-IsUndone = record {
  pixel = λ a b c x. omega arith;
  undone = λ a b c x ha hb hc hx. omega arith;
}

-- Functions of bytes that undo each other.
module _ (f g : ℕ → ℕ → ℕ → ℕ → ℕ) (byte : (a b c x : ℕ) → f a b c x < 2 ^ 8)
    (undo : (a b c x : ℕ) → a < 2 ^ 8 → x < 2 ^ 8 → g a b c (f a b c x) ≡ x) where
  on_bytes_sum :
      (a b c x : ℕ)
      → on_bytes f a b c x
        ≡ f (high_byte a) (high_byte b) (high_byte c) (high_byte x) * 256
          + f (low_byte a) (low_byte b) (low_byte c) (low_byte x)
  unfolding on_bytes
  on_bytes_sum a b c x = get_sum _ _ (byte _ _ _ _) (byte _ _ _ _)

  on_bytes_back : (a b c x : ℕ) → IsPixel x → on_bytes g a b c (on_bytes f a b c x) ≡ x
  unfolding on_bytes
  on_bytes_back a b c x hx =
      let r =
        get_u16le (f (low_byte a) (low_byte b) (low_byte c) (low_byte x))
          (f (high_byte a) (high_byte b) (high_byte c) (high_byte x)) in
      let sum = on_bytes_sum a b c x in
      let hi = byte (high_byte a) (high_byte b) (high_byte c) (high_byte x) in
      let lo = byte (low_byte a) (low_byte b) (low_byte c) (low_byte x) in
      let low : low_byte r ≡ f (low_byte a) (low_byte b) (low_byte c) (low_byte x) = omega arith in
      let high : high_byte r ≡ f (high_byte a) (high_byte b) (high_byte c) (high_byte x) =
        omega arith in
      ap₂ get_u16le
        (ap (g (low_byte a) (low_byte b) (low_byte c)) low
          ∙ undo (low_byte a) (low_byte b) (low_byte c) (low_byte x) (omega arith) (omega arith))
        (ap (g (high_byte a) (high_byte b) (high_byte c)) high
          ∙ undo (high_byte a) (high_byte b) (high_byte c) (high_byte x) (omega arith)
              (omega arith))
      ∙ get_sum (low_byte x) (high_byte x) (omega arith) (omega arith)
      ∙ omega arith

  on_bytes-IsUndone : IsUndone (record { fwd = on_bytes f; inv = on_bytes g })
  on_bytes-IsUndone = record {
    pixel = λ a b c x. omega (
      arith,
      on_bytes_sum a b c x,
      byte (high_byte a) (high_byte b) (high_byte c) (high_byte x),
      byte (low_byte a) (low_byte b) (low_byte c) (low_byte x),
    );
    undone = λ a b c x ha hb hc hx. on_bytes_back a b c x hx;
  }

pub sub_byte-IsUndone : IsUndone sub_byte
unfolding sub_byte
sub_byte-IsUndone =
    on_bytes-IsUndone (λ a b c x. u8 (2 ^ 8 + x - a)) (λ a b c x. u8 (x + a))
      (λ a b c x. omega arith) (λ a b c x ha hx. omega arith)

pub paeth_byte-IsUndone : IsUndone paeth_byte
unfolding paeth_byte
paeth_byte-IsUndone =
    on_bytes-IsUndone (λ a b c x. u8 (2 ^ 8 + x - u8 (paeth_predict a b c)))
      (λ a b c x. u8 (x + u8 (paeth_predict a b c))) (λ a b c x. omega arith)
      (λ a b c x ha hx. omega arith)

-- Functions of channels that undo each other, at both widths.
module _ (f g : ℕ → ℕ → ℕ → ℕ → ℕ → ℕ)
    (five : (a b c x : ℕ)
      → a < 32
      → b < 32
      → c < 32
      → x < 32
      → (f 5 a b c x < 32) × (g 5 a b c (f 5 a b c x) ≡ x))
    (six : (a b c x : ℕ)
      → a < 64
      → b < 64
      → c < 64
      → x < 64
      → (f 6 a b c x < 64) × (g 6 a b c (f 6 a b c x) ≡ x)) where
  on_channels_back : (a b c x : ℕ) → IsPixel x → on_channels g a b c (on_channels f a b c x) ≡ x
  unfolding on_channels
  on_channels_back a b c x hx =
      let p = rgb565_unpack a in
      let q = rgb565_unpack b in
      let s = rgb565_unpack c in
      let t = rgb565_unpack x in
      let ip = unpack-InField a in
      let iq = unpack-InField b in
      let is = unpack-InField c in
      let it = unpack-InField x in
      let (r_fits, r) = five p.r q.r s.r t.r ip.r_fits iq.r_fits is.r_fits it.r_fits in
      let (g_fits, g) = six p.g q.g s.g t.g ip.g_fits iq.g_fits is.g_fits it.g_fits in
      let (b_fits, b) = five p.b q.b s.b t.b ip.b_fits iq.b_fits is.b_fits it.b_fits in
      let residual : Channels = record {
        r = f 5 p.r q.r s.r t.r;
        g = f 6 p.g q.g s.g t.g;
        b = f 5 p.b q.b s.b t.b;
      } in
      let fields : InField residual = record {
        r_fits = r_fits;
        g_fits = g_fits;
        b_fits = b_fits;
      } in
      rw (unpack-pack residual fields) (ap rgb565_pack (Channels_ext _ t r g b) ∙ pack-unpack x hx)

  on_channels-IsUndone : IsUndone (record { fwd = on_channels f; inv = on_channels g })
  unfolding on_channels
  on_channels-IsUndone = record {
    pixel = λ a b c x. pack-IsPixel _;
    undone = λ a b c x ha hb hc hx. on_channels_back a b c x hx;
  }

-- A prediction that fits the field is taken off and put back.
masked_5 :
    (x p : ℕ)
    → x < 32
    → p < 32
    → (masked_difference 5 x p < 32) × (masked_sum 5 p (masked_difference 5 x p) ≡ x)
unfolding masked_difference masked_sum
masked_5 x p hx hp =
    let d = and_mask 5 (2 ^ 32 + x - p) in
    let s = and_mask 5 (p + u8 (bit_and (2 ^ 32 + x - p) (2 ^ 5 - 1))) in (omega arith, omega arith)

masked_6 :
    (x p : ℕ)
    → x < 64
    → p < 64
    → (masked_difference 6 x p < 64) × (masked_sum 6 p (masked_difference 6 x p) ≡ x)
unfolding masked_difference masked_sum
masked_6 x p hx hp =
    let d = and_mask 6 (2 ^ 32 + x - p) in
    let s = and_mask 6 (p + u8 (bit_and (2 ^ 32 + x - p) (2 ^ 6 - 1))) in (omega arith, omega arith)

-- The sum does not depend on the order.
masked_sum_comm : (bits p r : ℕ) → masked_sum bits p r ≡ masked_sum bits r p
unfolding masked_sum
masked_sum_comm bits p r = ap (λ t. u8 (bit_and t (2 ^ bits - 1))) (omega arith)

pub channel_sub-IsUndone : IsUndone channel_sub
unfolding channel_sub
channel_sub-IsUndone =
    on_channels-IsUndone (λ bits a b c x. masked_difference bits x a)
      (λ bits a b c x. masked_sum bits x a)
      (λ a b c x ha hb hc hx.
        let (fits, back) = masked_5 x a hx ha in (fits, masked_sum_comm 5 _ a ∙ back))
      (λ a b c x ha hb hc hx.
        let (fits, back) = masked_6 x a hx ha in (fits, masked_sum_comm 6 _ a ∙ back))

-- The predictor stays between its neighbours.
med_predict-lt : (k a b c : ℕ) → a < k → b < k → c < k → med_predict a b c < k
unfolding med_predict
med_predict-lt k a b c ha hb hc = ground arith

pub med-IsUndone : IsUndone med
unfolding med med_channel_fwd med_channel_inv
med-IsUndone =
    on_channels-IsUndone med_channel_fwd med_channel_inv
      (λ a b c x ha hb hc hx. masked_5 x (med_predict a b c) hx (med_predict-lt 32 a b c ha hb hc))
      (λ a b c x ha hb hc hx. masked_6 x (med_predict a b c) hx (med_predict-lt 64 a b c ha hb hc))

xor_channel :
    (k a x : ℕ)
    → 2 ^ k ≤ 2 ^ 8
    → a < 2 ^ k
    → x < 2 ^ k
    → (u8 (bit_xor x a) < 2 ^ k) × (u8 (bit_xor (u8 (bit_xor x a)) a) ≡ x)
xor_channel k a x small ha hx =
    let e = xor-lt k x a hx ha in
    let same : u8 (bit_xor x a) ≡ bit_xor x a = xor_byte (bit_xor x a) (bounded e) in
    (rw same e, ap (λ t. u8 (bit_xor t a)) same ∙ ap u8 (xor_undo x a) ∙ xor_byte x (bounded hx))
  where
    xor_byte : (v : ℕ) → v < 2 ^ 8 → u8 v ≡ v
    xor_byte v h = omega arith

    bounded : {v : ℕ} → v < 2 ^ k → v < 2 ^ 8
    bounded h = omega (arith, small)

pub channel_xor-IsUndone : IsUndone channel_xor
unfolding channel_xor
channel_xor-IsUndone =
    on_channels-IsUndone (λ bits a b c x. u8 (bit_xor x a)) (λ bits a b c x. u8 (bit_xor x a))
      (λ a b c x ha hb hc hx. xor_channel 5 a x (omega arith) ha hx)
      (λ a b c x ha hb hc hx. xor_channel 6 a x (omega arith) ha hx)
