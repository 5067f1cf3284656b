-- ===== src/Codec/Words.antt =====
-- Pixels of 16 bits as bytes: put_u16le and get_u16le of
-- benchmark/tools/fbcodec-bench/src/transforms/predict.c. An array of pixels that the code reads as
-- bytes, or fills as bytes, has each pixel's low byte first, as on the machines it runs on.
use gud.Base.{
  ℕ, ◌+◌, ◌*◌, ◌/◌, ◌%◌, ◌^◌, ◌<◌, ◌≡◌, refl, ap, ap₂, ◌∙◌, arith, bit_and, bit_or, List, [], ◌∷◌,
  length,
}
use gud.Base.Bits.{and_mask, or_fields, or_comm}
use gud.Codec.Pixel.{u8, u16, ◌<<◌, ◌>>◌}
use gud.Codec.Pixel.Fields.{IsPixel}

unfoldable pub put_u16le : ℕ → List ℕ → List ℕ
put_u16le v rest = u8 (bit_and v 0xFF) ∷ u8 (bit_and (v >> 8) 0xFF) ∷ rest

unfoldable pub get_u16le : ℕ → ℕ → ℕ
get_u16le p0 p1 = u16 (bit_or (u16 p0) (p1 << 8))

-- The memory of an array of pixels, and the pixels of a memory.
unfoldable pub bytes_of : List ℕ → List ℕ
unfolding put_u16le
bytes_of [] = []
bytes_of (p ∷ ps) = put_u16le p (bytes_of ps)

unfoldable pub pixels_of : List ℕ → List ℕ
unfolding get_u16le
pixels_of (p0 ∷ p1 ∷ rest) = get_u16le p0 p1 ∷ pixels_of rest
pixels_of _ = []

pub put_sum : (v : ℕ) (rest : List ℕ) → put_u16le v rest ≡ v % 256 ∷ v / 256 % 256 ∷ rest
unfolding put_u16le
put_sum v rest =
    ap₂ (λ a b. a ∷ b ∷ rest) (omega (arith, and_mask 8 v)) (omega (arith, and_mask 8 (v / 256)))

pub get_sum : (a b : ℕ) → a < 256 → b < 256 → get_u16le a b ≡ b * 256 + a
unfolding get_u16le
get_sum a b ha hb =
    let e : u16 a ≡ a = omega arith in
    rw (e, or_comm a (b * 2 ^ 8)) (omega (arith, or_fields 8 b a ha))

-- All of them fit 16 bits.
abbrev pub ArePixels : List ℕ → Type 0
ArePixels [] = Unit
ArePixels (p ∷ ps) = IsPixel p × ArePixels ps

pub get-put : (p : ℕ) → IsPixel p → get_u16le (p % 256) (p / 256 % 256) ≡ p
get-put p h = get_sum (p % 256) (p / 256 % 256) (omega arith) (omega arith) ∙ omega arith

pub pixels_of_put :
    (p : ℕ) (rest : List ℕ) → IsPixel p → pixels_of (put_u16le p rest) ≡ p ∷ pixels_of rest
unfolding pixels_of
pixels_of_put p rest h = ap pixels_of (put_sum p rest) ∙ ap (λ q. q ∷ pixels_of rest) (get-put p h)

pub pixels_of-bytes_of : (ps : List ℕ) → ArePixels ps → pixels_of (bytes_of ps) ≡ ps
unfolding bytes_of pixels_of
pixels_of-bytes_of [] h = refl
pixels_of-bytes_of (p ∷ ps) h =
    pixels_of_put p (bytes_of ps) h.0 ∙ ap (λ qs. p ∷ qs) (pixels_of-bytes_of ps h.1)

pub length-bytes_of : (ps : List ℕ) → length (bytes_of ps) ≡ length ps * 2
unfolding bytes_of put_u16le
length-bytes_of [] = refl
length-bytes_of (p ∷ ps) = omega (arith, length-bytes_of ps)
