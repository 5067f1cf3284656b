-- ===== src/Codec/Quant/Packed.antt =====
-- The packed forms: what is unpacked packs to the same bytes, and the sizes are the stated bounds.
use gud.Base.{
  ℕ, ◌+◌, ◌*◌, ◌/◌, ◌%◌, ◌^◌, ◌<◌, ◌≡◌, refl, ap, ap₂, ◌∙◌, arith, bit_and, bit_or, List, [], ◌∷◌,
  map, length, length-map,
}
use gud.Base.Bits.{and_mask, or_fields}
use gud.Codec.Pixel.{Channels, u8, rgb565_unpack}
use gud.Codec.Pixel.Fields.{unpack-InField, unpack-pack}
use gud.Codec.Quant.{
  rgb444_of, rgb444_to_rgb565, pair_bytes, quant_rgb444_pack, first_of_pair, second_of_pair,
  quant_rgb444_unpack, quant_rgb444_packed_bound, quant_rgb332_bound, rgb332_byte, rgb332_pixel,
  quant_rgb332_pack, quant_rgb332_unpack,
}
use gud.Codec.Quant.Levels.{keep_5_4, keep_6_4}

three_fields :
    (a b c : ℕ) → b < 16 → c < 16 → bit_or (bit_or (a * 2 ^ 8) (b * 2 ^ 4)) c ≡ a * 256 + b * 16 + c
three_fields a b c hb hc =
    let regroup : a * 2 ^ 8 + b * 2 ^ 4 ≡ (a * 16 + b) * 2 ^ 4 = omega arith in
    ap (λ t. bit_or t c) (or_fields 8 a (b * 2 ^ 4) (omega arith) ∙ regroup)
    ∙ or_fields 4 (a * 16 + b) c hc
    ∙ omega arith

rgb444_sum :
    (p : ℕ) → let c = rgb565_unpack p in rgb444_of p ≡ c.r / 2 * 256 + c.g / 4 * 16 + c.b / 2
unfolding rgb444_of
rgb444_sum p =
    let c = rgb565_unpack p in
    let i = unpack-InField p in
    let r : c.r / 2 * 2 / 2 ^ 1 % 2 ^ 8 ≡ c.r / 2 = omega arith in
    let g : c.g / 4 * 4 / 2 ^ 2 % 2 ^ 8 ≡ c.g / 4 = omega arith in
    let b : c.b / 2 * 2 / 2 ^ 1 % 2 ^ 8 ≡ c.b / 2 = omega arith in
    rw (keep_5_4 c.r i.r_fits, keep_6_4 c.g i.g_fits, keep_5_4 c.b i.b_fits)
      (omega (
        arith,
        ap₂ (λ s t. bit_or (bit_or (s * 2 ^ 8) (t * 2 ^ 4)) (c.b / 2 * 2 / 2 ^ 1 % 2 ^ 8)) r g,
        ap (λ s. bit_or (bit_or (c.r / 2 * 2 ^ 8) (c.g / 4 * 2 ^ 4)) s) b,
        three_fields (c.r / 2) (c.g / 4) (c.b / 2),
      ))

-- The low bits are filled with the high ones.
doubled : (x : ℕ) → x < 16 → u8 (bit_or (u8 x * 2 ^ 1) (u8 x / 2 ^ 3)) ≡ x * 2 + x / 8
doubled x h = let e : u8 x ≡ x = omega arith in rw e (omega (arith, or_fields 1 x (x / 2 ^ 3)))

quadrupled : (x : ℕ) → x < 16 → u8 (bit_or (u8 x * 2 ^ 2) (u8 x / 2 ^ 2)) ≡ x * 4 + x / 4
quadrupled x h = let e : u8 x ≡ x = omega arith in rw e (omega (arith, or_fields 2 x (x / 2 ^ 2)))

rgb565_sum :
    (v : ℕ)
    → v < 4096
    → rgb565_unpack (rgb444_to_rgb565 v) ≡ record {
      r = v / 256 * 2 + v / 256 / 8;
      g = v / 16 % 16 * 4 + v / 16 % 16 / 4;
      b = v % 16 * 2 + v % 16 / 8;
    }
unfolding rgb444_to_rgb565
rgb565_sum v h =
    let top : v / 2 ^ 8 % 2 ^ 4 ≡ v / 256 = omega arith in
    rw
      (
        and_mask 4 (v / 2 ^ 8),
        and_mask 4 (v / 2 ^ 4),
        and_mask 4 v,
        top,
        doubled (v / 256) (omega arith),
        quadrupled (v / 2 ^ 4 % 2 ^ 4) (omega arith),
        doubled (v % 2 ^ 4) (omega arith),
      )
      (unpack-pack
        (record {
          r = v / 256 * 2 + v / 256 / 8;
          g = v / 16 % 16 * 4 + v / 16 % 16 / 4;
          b = v % 16 * 2 + v % 16 / 8;
        })
        (omega arith))

rgb444_of-lt : (p : ℕ) → rgb444_of p < 4096
rgb444_of-lt p = omega (arith, rgb444_sum p, unpack-InField p)

-- A 12-bit value survives the trip through a pixel.
rgb444_of-rgb444_to_rgb565 : (v : ℕ) → v < 4096 → rgb444_of (rgb444_to_rgb565 v) ≡ v
rgb444_of-rgb444_to_rgb565 v h =
    let e = rgb565_sum v h in
    let r = ap (λ (c : Channels). c.r) e in
    let g = ap (λ (c : Channels). c.g) e in
    let b = ap (λ (c : Channels). c.b) e in omega (arith, rgb444_sum (rgb444_to_rgb565 v))

first_of_bytes :
    (p0 p1 : ℕ)
    → p0 < 4096
    → p1 < 4096
    → first_of_pair
        (u8 (p0 / 2 ^ 4))
        (u8 (bit_or (bit_and p0 0xF * 2 ^ 4) (bit_and (p1 / 2 ^ 8) 0xF)))
      ≡ p0
unfolding first_of_pair
first_of_bytes p0 p1 h0 h1 =
    let low : p1 / 2 ^ 8 % 2 ^ 4 < 2 ^ 4 = omega arith in
    let byte : u8 (bit_or (p0 % 2 ^ 4 * 2 ^ 4) (p1 / 2 ^ 8 % 2 ^ 4)) ≡ p0 % 16 * 16 + p1 / 256 =
      omega (arith, or_fields 4 (p0 % 2 ^ 4) (p1 / 2 ^ 8 % 2 ^ 4) low) in
    let high : u8 (p0 / 2 ^ 4) ≡ p0 / 16 = omega arith in
    let top : (p0 % 16 * 16 + p1 / 256) / 2 ^ 4 ≡ p0 % 16 = omega arith in
    rw (and_mask 4 p0, and_mask 4 (p1 / 2 ^ 8), byte, high, top)
      (omega (arith, or_fields 4 (p0 / 16) (p0 % 16) (omega arith)))

second_of_bytes :
    (p0 p1 : ℕ)
    → p0 < 4096
    → p1 < 4096
    → second_of_pair
        (u8 (bit_or (bit_and p0 0xF * 2 ^ 4) (bit_and (p1 / 2 ^ 8) 0xF)))
        (u8 (bit_and p1 0xFF))
      ≡ p1
unfolding second_of_pair
second_of_bytes p0 p1 h0 h1 =
    let low : p1 / 2 ^ 8 % 2 ^ 4 < 2 ^ 4 = omega arith in
    let byte : u8 (bit_or (p0 % 2 ^ 4 * 2 ^ 4) (p1 / 2 ^ 8 % 2 ^ 4)) ≡ p0 % 16 * 16 + p1 / 256 =
      omega (arith, or_fields 4 (p0 % 2 ^ 4) (p1 / 2 ^ 8 % 2 ^ 4) low) in
    let tail : u8 (p1 % 2 ^ 8) ≡ p1 % 256 = omega arith in
    let top : (p0 % 16 * 16 + p1 / 256) % 2 ^ 4 ≡ p1 / 256 = omega arith in
    rw
      (
        and_mask 4 p0,
        and_mask 4 (p1 / 2 ^ 8),
        and_mask 8 p1,
        byte,
        tail,
        and_mask 4 (p0 % 16 * 16 + p1 / 256),
        top,
      )
      (omega (arith, or_fields 8 (p1 / 256) (p1 % 256) (omega arith)))

last_of_byte :
    (p0 : ℕ) → p0 < 4096 → first_of_pair (u8 (p0 / 2 ^ 4)) (u8 (bit_and p0 0xF * 2 ^ 4)) ≡ p0
unfolding first_of_pair
last_of_byte p0 h0 =
    let high : u8 (p0 / 2 ^ 4) ≡ p0 / 16 = omega arith in
    let top : u8 (p0 % 2 ^ 4 * 2 ^ 4) / 2 ^ 4 ≡ p0 % 16 = omega arith in
    rw (and_mask 4 p0, high, top) (omega (arith, or_fields 4 (p0 / 16) (p0 % 16) (omega arith)))

-- Unpacking a packed frame gives each pixel its 12-bit value, for even and odd pixel counts.
unpack-pack_rgb444 :
    (src : List ℕ)
    → quant_rgb444_unpack (length src) (quant_rgb444_pack src)
      ≡ map (λ p. rgb444_to_rgb565 (rgb444_of p)) src
unfolding quant_rgb444_unpack quant_rgb444_pack pair_bytes
unpack-pack_rgb444 [] = refl
unpack-pack_rgb444 (a ∷ []) =
    ap (λ v. rgb444_to_rgb565 v ∷ []) (last_of_byte (rgb444_of a) (rgb444_of-lt a))
unpack-pack_rgb444 (a ∷ b ∷ rest) =
    ap₂ (λ v vs. rgb444_to_rgb565 v ∷ vs)
      (first_of_bytes (rgb444_of a) (rgb444_of b) (rgb444_of-lt a) (rgb444_of-lt b))
      (ap₂ (λ v vs. rgb444_to_rgb565 v ∷ vs)
        (second_of_bytes (rgb444_of a) (rgb444_of b) (rgb444_of-lt a) (rgb444_of-lt b))
        (unpack-pack_rgb444 rest))

rgb444_stable : (p : ℕ) → rgb444_of (rgb444_to_rgb565 (rgb444_of p)) ≡ rgb444_of p
rgb444_stable p = rgb444_of-rgb444_to_rgb565 (rgb444_of p) (rgb444_of-lt p)

pack_of_map :
    (src : List ℕ)
    → quant_rgb444_pack (map (λ p. rgb444_to_rgb565 (rgb444_of p)) src) ≡ quant_rgb444_pack src
unfolding quant_rgb444_pack
pack_of_map [] = refl
pack_of_map (a ∷ []) = rw (rgb444_stable a)
pack_of_map (a ∷ b ∷ rest) = rw (rgb444_stable a, rgb444_stable b, pack_of_map rest)

-- A frame that went through the 12-bit form packs to the same bytes again: the loss happens
-- once.
rgb444_loses_once :
    (src : List ℕ)
    → quant_rgb444_pack (quant_rgb444_unpack (length src) (quant_rgb444_pack src))
      ≡ quant_rgb444_pack src
rgb444_loses_once src = ap quant_rgb444_pack (unpack-pack_rgb444 src) ∙ pack_of_map src

length-rgb444_pack : (src : List ℕ) → length (quant_rgb444_pack src) ≡ (length src + 1) / 2 * 3
unfolding quant_rgb444_pack pair_bytes
length-rgb444_pack [] = refl
length-rgb444_pack (a ∷ []) = refl
length-rgb444_pack (a ∷ b ∷ rest) = omega (arith, length-rgb444_pack rest)

rgb332_fields :
    (v : ℕ)
    → v < 256
    → rgb565_unpack (rgb332_pixel v) ≡ record {
      r = v / 32 * 4 + v / 32 / 2;
      g = v / 4 % 8 * 8 + v / 4 % 8;
      b = v % 4 * 8 + v % 4 * 2 + v % 4 / 2;
    }
unfolding rgb332_pixel
rgb332_fields v h =
    let r3 : u8 (v / 2 ^ 5 % 2 ^ 3) ≡ v / 32 = omega arith in
    let g3 : u8 (v / 2 ^ 2 % 2 ^ 3) ≡ v / 4 % 8 = omega arith in
    let b2 : u8 (v % 2 ^ 2) ≡ v % 4 = omega arith in
    let r : u8 (bit_or (v / 32 * 2 ^ 2) (v / 32 / 2 ^ 1)) ≡ v / 32 * 4 + v / 32 / 2 =
      omega (arith, or_fields 2 (v / 32) (v / 32 / 2) (omega arith)) in
    let g : u8 (bit_or (v / 4 % 8 * 2 ^ 3) (v / 4 % 8)) ≡ v / 4 % 8 * 8 + v / 4 % 8 =
      omega (arith, or_fields 3 (v / 4 % 8) (v / 4 % 8) (omega arith)) in
    let b_high : bit_or (v % 4 * 2 ^ 3) (v % 4 * 2 ^ 1) ≡ (v % 4 * 5) * 2 ^ 1 =
      omega (arith, or_fields 3 (v % 4) (v % 4 * 2 ^ 1) (omega arith)) in
    let b : u8 (bit_or ((v % 4 * 5) * 2 ^ 1) (v % 4 / 2 ^ 1)) ≡ v % 4 * 8 + v % 4 * 2 + v % 4 / 2 =
      omega (arith, or_fields 1 (v % 4 * 5) (v % 4 / 2 ^ 1) (omega arith)) in
    rw (and_mask 3 (v / 2 ^ 5), and_mask 3 (v / 2 ^ 2), and_mask 2 v, r3, g3, b2, r, g, b_high, b)
      (unpack-pack
        (record {
          r = v / 32 * 4 + v / 32 / 2;
          g = v / 4 % 8 * 8 + v / 4 % 8;
          b = v % 4 * 8 + v % 4 * 2 + v % 4 / 2;
        })
        (omega arith))

rgb332_byte_sum :
    (p : ℕ) → let c = rgb565_unpack p in rgb332_byte p ≡ c.r / 4 * 32 + c.g / 8 * 4 + c.b / 8
unfolding rgb332_byte
rgb332_byte_sum p =
    let c = rgb565_unpack p in
    let i = unpack-InField p in
    let r : u8 (c.r / 2 ^ 2) ≡ c.r / 4 = omega arith in
    let g : u8 (c.g / 2 ^ 3) ≡ c.g / 8 = omega arith in
    let b : u8 (c.b / 2 ^ 3) ≡ c.b / 8 = omega arith in
    let high : bit_or (c.r / 4 * 2 ^ 5) (c.g / 8 * 2 ^ 2) ≡ (c.r / 4 * 8 + c.g / 8) * 2 ^ 2 =
      omega (arith, or_fields 5 (c.r / 4) (c.g / 8 * 2 ^ 2) (omega arith)) in
    rw (r, g, b, high) (omega (arith, or_fields 2 (c.r / 4 * 8 + c.g / 8) (c.b / 8) (omega arith)))

rgb332_byte-pixel : (v : ℕ) → v < 256 → rgb332_byte (rgb332_pixel v) ≡ v
rgb332_byte-pixel v h =
    let e = rgb332_fields v h in
    let r = ap (λ (c : Channels). c.r) e in
    let g = ap (λ (c : Channels). c.g) e in
    let b = ap (λ (c : Channels). c.b) e in omega (arith, rgb332_byte_sum (rgb332_pixel v))

abbrev pub AreBytes : List ℕ → Type 0
AreBytes [] = Unit
AreBytes (v ∷ vs) = (v < 256) × AreBytes vs

-- Every frame of bytes unpacks to pixels that pack to it again.
rgb332_pack-unpack :
    (bytes : List ℕ) → AreBytes bytes → quant_rgb332_pack (quant_rgb332_unpack bytes) ≡ bytes
unfolding quant_rgb332_pack quant_rgb332_unpack
rgb332_pack-unpack [] h = refl
rgb332_pack-unpack (v ∷ vs) h = ap₂ ◌∷◌ (rgb332_byte-pixel v h.0) (rgb332_pack-unpack vs h.1)

-- For a frame of width times height pixels, the packers fill exactly the buffers that the bound
-- functions announce.
packed_sizes :
    (w h : ℕ) (src : List ℕ)
    → length src ≡ w * h
    → (length (quant_rgb444_pack src) ≡ quant_rgb444_packed_bound w h)
      × (length (quant_rgb332_pack src) ≡ quant_rgb332_bound w h)
unfolding quant_rgb444_packed_bound quant_rgb332_bound quant_rgb332_pack
packed_sizes w h src e = (rw (length-rgb444_pack src, e) refl, length-map src rgb332_byte ∙ e)
