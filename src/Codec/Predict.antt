-- ===== src/Codec/Predict.antt =====
-- benchmark/tools/fbcodec-bench/src/transforms/predict.c: the lossless predictors. All of them but the
-- shuffle go along a row with the pixel to the left (a), the one above (b) and the one above to
-- the left (c), each 0 where there is none. A filter on bytes goes along the bytes of a row, where
-- the byte two places back is the same byte of the pixel to the left: it is written here on both
-- bytes of a pixel.
pub mod Filters
pub mod RoundTrip
use gud.Base.{
  ℕ, zero, suc, ◌+◌, ◌-◌, ◌*◌, ◌/◌, ◌%◌, ◌^◌, ◌&&◌, List, [], ◌∷◌, ◌++◌, map, length, take, drop,
  replicate, ltb, leb, if◌then◌else◌, bit_and, bit_xor,
}
use gud.Codec.Pixel.{Channels, u8, u16, rgb565_unpack, rgb565_pack}
use gud.Codec.Words.{put_u16le, get_u16le}

-- What becomes of a pixel, and how it comes back; the neighbours are a, b and c.
pub record Filter : Type 0 where
  pub fwd : ℕ → ℕ → ℕ → ℕ → ℕ
  pub inv : ℕ → ℕ → ℕ → ℕ → ℕ

abbrev pub low_byte : ℕ → ℕ
low_byte p = p % 2 ^ 8

abbrev pub high_byte : ℕ → ℕ
high_byte p = p / 2 ^ 8 % 2 ^ 8

-- A function of bytes on both bytes of a pixel.
unfoldable pub on_bytes : (ℕ → ℕ → ℕ → ℕ → ℕ) → ℕ → ℕ → ℕ → ℕ → ℕ
unfolding get_u16le
on_bytes f a b c x =
    get_u16le (f (low_byte a) (low_byte b) (low_byte c) (low_byte x))
      (f (high_byte a) (high_byte b) (high_byte c) (high_byte x))

-- The distance of two ints.
abbrev pub distance : ℕ → ℕ → ℕ
distance p q = if ltb q p then p - q else q - p

-- `p` and what it is compared with are 2^16 above the ints of the code, since `p` may be negative.
unfoldable pub paeth_predict : ℕ → ℕ → ℕ → ℕ
paeth_predict a b c =
    let p = 2 ^ 16 + a + b - c in
    let pa = distance p (2 ^ 16 + a) in
    let pb = distance p (2 ^ 16 + b) in
    let pc = distance p (2 ^ 16 + c) in
    if leb pa pb && leb pa pc then a else if leb pb pc then b else c

unfoldable pub med_predict : ℕ → ℕ → ℕ → ℕ
med_predict a b c =
    let lo = if ltb a b then a else b in
    let hi = if ltb b a then a else b in if leb hi c then lo else if leb c lo then hi else a + b - c

-- The masks are of an int, whose negative values are those of 2^32 more.
unfoldable pub masked_difference : ℕ → ℕ → ℕ → ℕ
masked_difference bits x predicted = u8 (bit_and (2 ^ 32 + x - predicted) (2 ^ bits - 1))

unfoldable pub masked_sum : ℕ → ℕ → ℕ → ℕ
masked_sum bits predicted residual = u8 (bit_and (predicted + residual) (2 ^ bits - 1))

unfoldable pub med_channel_fwd : ℕ → ℕ → ℕ → ℕ → ℕ → ℕ
unfolding masked_difference med_predict
med_channel_fwd bits a b c x = masked_difference bits x (med_predict a b c)

unfoldable pub med_channel_inv : ℕ → ℕ → ℕ → ℕ → ℕ → ℕ
unfolding masked_sum med_predict
med_channel_inv bits a b c residual = masked_sum bits (med_predict a b c) residual

-- A function of the width and of a channel on the three channels.
unfoldable pub on_channels : (ℕ → ℕ → ℕ → ℕ → ℕ → ℕ) → ℕ → ℕ → ℕ → ℕ → ℕ
on_channels f a b c x =
    let ca = rgb565_unpack a in
    let cb = rgb565_unpack b in
    let cc_ = rgb565_unpack c in
    let cx = rgb565_unpack x in
    rgb565_pack (record {
      r = f 5 ca.r cb.r cc_.r cx.r;
      g = f 6 ca.g cb.g cc_.g cx.g;
      b = f 5 ca.b cb.b cc_.b cx.b;
    })

unfoldable pub sub_byte : Filter
unfolding on_bytes
sub_byte = record {
  fwd = on_bytes (λ a b c x. u8 (2 ^ 8 + x - a));
  inv = on_bytes (λ a b c x. u8 (x + a));
}

unfoldable pub u16_sub : Filter
u16_sub = record { fwd = λ a b c x. u16 (2 ^ 16 + x - a); inv = λ a b c x. u16 (x + a) }

unfoldable pub u16_xor : Filter
u16_xor = record { fwd = λ a b c x. u16 (bit_xor x a); inv = λ a b c x. u16 (bit_xor x a) }

unfoldable pub paeth_byte : Filter
unfolding on_bytes paeth_predict
paeth_byte = record {
  fwd = on_bytes (λ a b c x. u8 (2 ^ 8 + x - u8 (paeth_predict a b c)));
  inv = on_bytes (λ a b c x. u8 (x + u8 (paeth_predict a b c)));
}

unfoldable pub paeth_pixel : Filter
unfolding paeth_predict
paeth_pixel = record {
  fwd = λ a b c x. u16 (2 ^ 16 + x - u16 (paeth_predict a b c));
  inv = λ a b c x. u16 (x + u16 (paeth_predict a b c));
}

unfoldable pub med : Filter
unfolding on_channels med_channel_fwd med_channel_inv
med = record { fwd = on_channels med_channel_fwd; inv = on_channels med_channel_inv }

unfoldable pub channel_sub : Filter
unfolding on_channels masked_difference masked_sum
channel_sub = record {
  fwd = on_channels (λ bits a b c x. masked_difference bits x a);
  inv = on_channels (λ bits a b c x. masked_sum bits x a);
}

unfoldable pub channel_xor : Filter
unfolding on_channels
channel_xor = record {
  fwd = on_channels (λ bits a b c x. u8 (bit_xor x a));
  inv = on_channels (λ bits a b c x. u8 (bit_xor x a));
}

-- Along a row, with the row above.
unfoldable pub fwd_row : Filter → ℕ → ℕ → List ℕ → List ℕ → List ℕ
unfolding put_u16le
fwd_row f a c (b ∷ prow) (x ∷ srow) = put_u16le (f.fwd a b c x) (fwd_row f x b prow srow)
fwd_row f a c _ _ = []

unfoldable pub inv_row : Filter → ℕ → ℕ → List ℕ → List ℕ → List ℕ
unfolding get_u16le
inv_row f a c (b ∷ prow) (p0 ∷ p1 ∷ srow) =
    let x = f.inv a b c (get_u16le p0 p1) in x ∷ inv_row f x b prow srow
inv_row f a c _ _ = []

-- `h` rows of `w` pixels; there is a row of zeros above the first.
unfoldable pub fwd_rows : Filter → ℕ → ℕ → List ℕ → List ℕ → List ℕ
unfolding fwd_row
fwd_rows f w zero prow src = []
fwd_rows f w (suc h) prow src =
    let row = take w src in fwd_row f 0 0 prow row ++ fwd_rows f w h row (drop w src)

unfoldable pub inv_rows : Filter → ℕ → ℕ → List ℕ → List ℕ → List ℕ
unfolding inv_row
inv_rows f w zero prow src = []
inv_rows f w (suc h) prow src =
    let row = inv_row f 0 0 prow (take (w * 2) src) in row ++ inv_rows f w h row (drop (w * 2) src)

unfoldable pub interleave : List ℕ → List ℕ → List ℕ
unfolding get_u16le
interleave (l ∷ lo) (u ∷ hi) = get_u16le l u ∷ interleave lo hi
interleave _ _ = []

-- The low bytes of all pixels, then the high ones.
unfoldable pub shuffle_fwd : ℕ → ℕ → List ℕ → List ℕ
shuffle_fwd w h src =
    let pixels = take (w * h) src in map (λ p. low_byte p) pixels ++ map (λ p. high_byte p) pixels

unfoldable pub shuffle_inv : ℕ → ℕ → List ℕ → List ℕ
unfolding interleave
shuffle_inv w h src = interleave (take (w * h) src) (take (w * h) (drop (w * h) src))

-- The registry.
pub data Transform : Type 0 where
  by_filter : Filter → Transform
  by_shuffle : Transform

unfoldable pub transforms : List Transform
unfolding sub_byte u16_sub u16_xor paeth_byte paeth_pixel med channel_sub channel_xor
transforms =
    by_filter sub_byte
    ∷ by_filter u16_sub
    ∷ by_filter u16_xor
    ∷ by_filter paeth_byte
    ∷ by_filter paeth_pixel
    ∷ by_filter med
    ∷ by_filter channel_sub
    ∷ by_filter channel_xor
    ∷ by_shuffle
    ∷ []

unfoldable pub transform_fwd : Transform → ℕ → ℕ → List ℕ → List ℕ
unfolding fwd_rows shuffle_fwd
transform_fwd (by_filter f) w h src = fwd_rows f w h (replicate w 0) src
transform_fwd by_shuffle w h src = shuffle_fwd w h src

unfoldable pub transform_inv : Transform → ℕ → ℕ → List ℕ → List ℕ
unfolding inv_rows shuffle_inv
transform_inv (by_filter f) w h src = inv_rows f w h (replicate w 0) src
transform_inv by_shuffle w h src = shuffle_inv w h src
