-- ===== src/Codec/Lz4.antt =====
-- benchmark/tools/fbcodec-bench/src/lz4_util.c over the vendored LZ4, whose functions are an
-- argument. They take and return the 32 bits of an int.
use gud.Base.{
  ℕ, ◌≤◌, ◌<◌, ◌%◌, ◌^◌, ◌≡◌, ◌≢◌, refl, sym, ◌∙◌, ap, subst, ltb, ◌&&◌, if◌then◌else◌, Option,
  none, some, List, [], ◌∷◌, length, arith, ap₂,
}
use mathlib.Core.Option.{some-injective}

-- LZ4_compressBound, which is 0 or less for an input that is too large; LZ4_compress_default of a
-- source, its size and a capacity, with the bytes that it wrote, no byte where it returned 0 or
-- less; LZ4_decompress_safe of a block, its size and a capacity, where `none` is a negative
-- result.
pub record Lz4 : Type 0 where
  pub compress_bound : ℕ → ℕ
  pub compress_default : List ℕ → ℕ → ℕ → List ℕ
  pub decompress_safe : List ℕ → ℕ → ℕ → Option (List ℕ)

-- The bits that the conversion `(int)` of a size_t keeps; from 2 ^ 31 on they are a negative int.
abbrev pub as_int : ℕ → ℕ
as_int n = n % 2 ^ 32

unfoldable pub written : List ℕ → Option (List ℕ)
written [] = none
written (b ∷ bs) = some (b ∷ bs)

unfoldable pub lz4u_compress_bound : Lz4 → ℕ → ℕ
lz4u_compress_bound lz input_size =
    let bound = lz.compress_bound (as_int input_size) in
    if ltb 0 bound && ltb bound (2 ^ 31) then bound else 0

-- `none` is (size_t)-1.
unfoldable pub lz4u_compress : Lz4 → List ℕ → ℕ → Option (List ℕ)
unfolding written
lz4u_compress lz [] dst_cap = some []
lz4u_compress lz (s ∷ src) dst_cap =
    written (lz.compress_default (s ∷ src) (as_int (length (s ∷ src))) (as_int dst_cap))

unfoldable pub lz4u_decompress : Lz4 → List ℕ → ℕ → Option (List ℕ)
lz4u_decompress lz [] dst_cap = some []
lz4u_decompress lz (s ∷ src) dst_cap =
    lz.decompress_safe (s ∷ src) (as_int (length (s ∷ src))) (as_int dst_cap)

-- LZ4's documented behaviour, for sizes that are not negative as an int: a block unpacks to its
-- source, and a buffer of LZ4_compressBound bytes is enough for it. What is written is counted by
-- an int.
pub record IsLossless (lz : Lz4) : Type 0 where
  pub unpacks :
      (src : List ℕ) (dst_cap : ℕ) (b : ℕ) (bs : List ℕ)
      → length src < 2 ^ 31
      → lz.compress_default src (length src) dst_cap ≡ b ∷ bs
      → lz.decompress_safe (b ∷ bs) (length (b ∷ bs)) (length src) ≡ some src
  pub packs_int :
      (src : List ℕ) (dst_cap : ℕ)
      → length src < 2 ^ 31
      → length (lz.compress_default src (length src) dst_cap) < 2 ^ 31
  pub unpacks_int :
      (block : List ℕ) (size dst_cap : ℕ) (out : List ℕ)
      → lz.decompress_safe block size dst_cap ≡ some out
      → length out < 2 ^ 31
  pub fits :
      (src : List ℕ) (dst_cap : ℕ)
      → length src < 2 ^ 31
      → 0 < lz.compress_bound (length src)
      → lz.compress_bound (length src) ≤ dst_cap
      → dst_cap < 2 ^ 31
      → lz.compress_default src (length src) dst_cap ≢ []

module _ (lz : Lz4) (lossless : IsLossless lz) where
  pub lz4u_decompress-lz4u_compress :
      (src block : List ℕ) (dst_cap : ℕ)
      → length src < 2 ^ 31
      → lz4u_compress lz src dst_cap ≡ some block
      → lz4u_decompress lz block (length src) ≡ some src
  unfolding lz4u_compress lz4u_decompress
  lz4u_decompress-lz4u_compress [] block dst_cap small e = ground arith
  lz4u_decompress-lz4u_compress (s ∷ src) block dst_cap small e =
      let same : as_int (length (s ∷ src)) ≡ length (s ∷ src) = omega arith in
      packed (lz.compress_default (s ∷ src) (length (s ∷ src)) (as_int dst_cap)) refl
        (ap (λ k. written (lz.compress_default (s ∷ src) k (as_int dst_cap))) (sym same) ∙ e)
    where
      packed :
          (out : List ℕ)
          → lz.compress_default (s ∷ src) (length (s ∷ src)) (as_int dst_cap) ≡ out
          → written out ≡ some block
          → lz4u_decompress lz block (length (s ∷ src)) ≡ some (s ∷ src)
      packed [] same e = ground arith
      packed (b ∷ bs) same e =
          let counted : length (b ∷ bs) < 2 ^ 31 =
            subst (λ out. length out < 2 ^ 31) same
              (lossless.packs_int (s ∷ src) (as_int dst_cap) small) in
          let size : as_int (length (b ∷ bs)) ≡ length (b ∷ bs) = omega arith in
          let cap : as_int (length (s ∷ src)) ≡ length (s ∷ src) = omega arith in
          let back = lossless.unpacks (s ∷ src) (as_int dst_cap) b bs small same in
          subst (λ out. lz4u_decompress lz out (length (s ∷ src)) ≡ some (s ∷ src))
            (some-injective (b ∷ bs) block e)
            (ap₂ (λ n k. lz.decompress_safe (b ∷ bs) n k) size cap ∙ back)

  -- What unpacks is counted by an int.
  pub lz4u_decompress-lt :
      (block out : List ℕ) (dst_cap : ℕ)
      → lz4u_decompress lz block dst_cap ≡ some out
      → length out < 2 ^ 31
  unfolding lz4u_decompress
  lz4u_decompress-lt [] out dst_cap e =
      subst (λ bs. length bs < 2 ^ 31) (some-injective [] out e) (omega arith)
  lz4u_decompress-lt (s ∷ src) out dst_cap e =
      lossless.unpacks_int (s ∷ src) (as_int (length (s ∷ src))) (as_int dst_cap) out e

  pub lz4u_compress-ne-none :
      (src : List ℕ) (dst_cap : ℕ)
      → length src < 2 ^ 31
      → 0 < lz4u_compress_bound lz (length src)
      → lz4u_compress_bound lz (length src) ≤ dst_cap
      → dst_cap < 2 ^ 31
      → lz4u_compress lz src dst_cap ≢ none
  unfolding lz4u_compress lz4u_compress_bound
  lz4u_compress-ne-none [] dst_cap small some_bound h cap = ground arith
  lz4u_compress-ne-none (s ∷ src) dst_cap small some_bound h cap =
      let size : as_int (length (s ∷ src)) ≡ length (s ∷ src) = omega arith in
      let same : as_int dst_cap ≡ dst_cap = omega arith in
      let bound = ap lz.compress_bound size in
      subst (λ n. written (lz.compress_default (s ∷ src) n (as_int dst_cap)) ≢ none) (sym size)
        (subst (λ k. written (lz.compress_default (s ∷ src) (length (s ∷ src)) k) ≢ none) (sym same)
          (packed (lz.compress_default (s ∷ src) (length (s ∷ src)) dst_cap) (
            lossless.fits (s ∷ src) dst_cap small (ground (arith, bound)) (ground (arith, bound))
              cap)))
    where
      packed : (out : List ℕ) → out ≢ [] → written out ≢ none
      packed [] full = absurd (full refl)
      packed (b ∷ bs) full = ground arith
