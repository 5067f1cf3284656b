-- ===== src/Tests/Codecs.antt =====
-- The benchmark's codecs at concrete inputs.
use gud.Base.{ℕ, ◌*◌, ◌≡◌, refl, arith, List, [], ◌∷◌, length}
use gud.Codec.Rle.{done, rle_bound, rle_encode, rle_decode}
use gud.Codec.Rle.RoundTrip.{rle_decode-rle_encode}
use gud.Codec.Rle.Bound.{WrittenWithin, rle_encode_fits}

abbrev mixed : List ℕ
mixed = 5 ∷ 5 ∷ 5 ∷ 1 ∷ 2 ∷ []

abbrev mixed_code : List ℕ
mixed_code = 254 ∷ 5 ∷ 1 ∷ 1 ∷ 2 ∷ []

mixed_ok : rle_encode mixed 8 ≡ done mixed_code
unfolding rle_encode
mixed_ok = refl

rle_decode-rle_encode_example : rle_decode mixed_code 5 ≡ done mixed
rle_decode-rle_encode_example = rle_decode-rle_encode mixed mixed_code 8 5 mixed_ok (omega arith)

rle_encode_fits_example : WrittenWithin (2 * length mixed) (rle_encode mixed 100)
unfolding rle_bound
rle_encode_fits_example = rle_encode_fits mixed 100 (omega arith)
