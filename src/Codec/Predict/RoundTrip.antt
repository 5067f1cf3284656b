-- ===== src/Codec/Predict/RoundTrip.antt =====
-- Every transform of the registry gives a frame back.
use gud.Base.{
  ℕ, zero, suc, ◌*◌, ◌≡◌, refl, sym, ◌∙◌, ap, ap₂, arith, List, [], ◌∷◌, ◌++◌, map, length, take,
  drop, replicate, length-replicate, length-take, length-drop, length-map, take-append, drop-append,
  take_all, take-append-drop, get_elem?, some, subst,
}
use mathlib.Core.Option.{some-injective}
use gud.Codec.Pixel.Fields.{IsPixel}
use gud.Codec.Words.{put_u16le, get_u16le, get-put, put_sum, ArePixels}
use gud.Codec.Policy.Deltas.{IsFrame}
use gud.Codec.Predict.{
  Filter, low_byte, high_byte, fwd_row, inv_row, fwd_rows, inv_rows, interleave, shuffle_fwd,
  shuffle_inv, Transform, by_filter, by_shuffle, transforms, transform_fwd, transform_inv, sub_byte,
  u16_sub, u16_xor, paeth_byte, paeth_pixel, med, channel_sub, channel_xor,
}
use gud.Codec.Predict.Filters.{
  IsUndone, sub_byte-IsUndone, u16_sub-IsUndone, u16_xor-IsUndone, paeth_byte-IsUndone,
  paeth_pixel-IsUndone, med-IsUndone, channel_sub-IsUndone, channel_xor-IsUndone,
}

take-ArePixels : (n : ℕ) (ps : List ℕ) → ArePixels ps → ArePixels (take n ps)
take-ArePixels zero ps h = tt
take-ArePixels (suc n) [] h = tt
take-ArePixels (suc n) (p ∷ ps) h = (h.0, take-ArePixels n ps h.1)

drop-ArePixels : (n : ℕ) (ps : List ℕ) → ArePixels ps → ArePixels (drop n ps)
drop-ArePixels zero ps h = h
drop-ArePixels (suc n) [] h = tt
drop-ArePixels (suc n) (p ∷ ps) h = drop-ArePixels n ps h.1

module _ (f : Filter) (u : IsUndone f) where
  length-fwd_row :
      (a c : ℕ) (prow srow : List ℕ)
      → length prow ≡ length srow
      → length (fwd_row f a c prow srow) ≡ length srow * 2
  unfolding fwd_row put_u16le
  length-fwd_row a c [] [] e = refl
  length-fwd_row a c [] (x ∷ srow) e = absurd (omega arith)
  length-fwd_row a c (b ∷ prow) [] e = absurd (omega arith)
  length-fwd_row a c (b ∷ prow) (x ∷ srow) e =
      omega (arith, length-fwd_row x b prow srow (omega arith))

  inv_put :
      (a b c r : ℕ) (prow rest : List ℕ)
      → IsPixel r
      → inv_row f a c (b ∷ prow) (put_u16le r rest)
        ≡ f.inv a b c r ∷ inv_row f (f.inv a b c r) b prow rest
  unfolding inv_row
  inv_put a b c r prow rest h =
      ap (inv_row f a c (b ∷ prow)) (put_sum r rest)
      ∙ ap (λ q. f.inv a b c q ∷ inv_row f (f.inv a b c q) b prow rest) (get-put r h)

  inv_row-fwd_row :
      (a c : ℕ) (prow srow : List ℕ)
      → IsPixel a
      → IsPixel c
      → ArePixels prow
      → ArePixels srow
      → length prow ≡ length srow
      → inv_row f a c prow (fwd_row f a c prow srow) ≡ srow
  unfolding fwd_row
  inv_row-fwd_row a c [] [] ha hc hp hs e = unfold inv_row in refl
  inv_row-fwd_row a c [] (x ∷ srow) ha hc hp hs e = absurd (omega arith)
  inv_row-fwd_row a c (b ∷ prow) [] ha hc hp hs e = absurd (omega arith)
  inv_row-fwd_row a c (b ∷ prow) (x ∷ srow) ha hc hp hs e =
      let rest = fwd_row f x b prow srow in
      let same = u.undone a b c x ha hp.0 hc hs.0 in
      inv_put a b c (f.fwd a b c x) prow rest (u.pixel a b c x)
      ∙ ap (λ y. y ∷ inv_row f y b prow rest) same
      ∙ ap (λ ys. x ∷ ys) (inv_row-fwd_row x b prow srow hs.0 hp.0 hp.1 hs.1 (omega arith))

  inv_rows-fwd_rows :
      (w h : ℕ) (prow src : List ℕ)
      → IsFrame w prow
      → IsFrame (h * w) src
      → inv_rows f w h prow (fwd_rows f w h prow src) ≡ src
  unfolding inv_rows fwd_rows
  inv_rows-fwd_rows w zero prow [] p s = refl
  inv_rows-fwd_rows w zero prow (x ∷ src) p s = absurd (omega arith)
  inv_rows-fwd_rows w (suc h) prow src p s =
      let row = take w src in
      let whole : length row ≡ w = omega (arith, length-take w src) in
      let pixels = take-ArePixels w src s.1 in
      let coded = fwd_row f 0 0 prow row in
      let later = fwd_rows f w h row (drop w src) in
      let sized : length coded ≡ w * 2 =
        length-fwd_row 0 0 prow row (p.0 ∙ sym whole) ∙ ap (λ k. k * 2) whole in
      let first : inv_row f 0 0 prow (take (w * 2) (coded ++ later)) ≡ row =
        ap (inv_row f 0 0 prow) (take-append coded later (w * 2) (sym sized))
        ∙ inv_row-fwd_row 0 0 prow row (omega arith) (omega arith) p.1 pixels (p.0 ∙ sym whole) in
      let behind : drop (w * 2) (coded ++ later) ≡ later =
        drop-append coded later (w * 2) 0 (omega arith) in
      ap (λ r. r ++ inv_rows f w h r (drop (w * 2) (coded ++ later))) first
      ∙ ap (λ ds. row ++ inv_rows f w h row ds) behind
      ∙ ap (λ ps. row ++ ps)
          (inv_rows-fwd_rows w h row (drop w src) (whole, pixels)
            (omega (arith, length-drop w src), drop-ArePixels w src s.1))
      ∙ take-append-drop w src

low_high : (p : ℕ) → IsPixel p → get_u16le (low_byte p) (high_byte p) ≡ p
low_high p h = get-put p h

interleave-bytes :
    (ps : List ℕ)
    → ArePixels ps
    → interleave (map (λ p. low_byte p) ps) (map (λ p. high_byte p) ps) ≡ ps
unfolding interleave
interleave-bytes [] h = refl
interleave-bytes (p ∷ ps) h = ap₂ ◌∷◌ (low_high p h.0) (interleave-bytes ps h.1)

shuffle_inv-shuffle_fwd :
    (w h : ℕ) (src : List ℕ) → IsFrame (w * h) src → shuffle_inv w h (shuffle_fwd w h src) ≡ src
unfolding shuffle_inv shuffle_fwd
shuffle_inv-shuffle_fwd w h src s =
    let lo = map (λ p. low_byte p) src in
    let hi = map (λ p. high_byte p) src in
    let n_lo : w * h ≡ length lo = sym (length-map src (λ p. low_byte p) ∙ s.0) in
    let n_hi : length hi ≡ w * h = length-map src (λ p. high_byte p) ∙ s.0 in
    rw (take_all (w * h) src (omega arith)) (
      ap₂ interleave (take-append lo hi (w * h) n_lo) (
        ap (take (w * h)) (drop-append lo hi (w * h) 0 (omega arith))
        ∙ take_all (w * h) hi (omega arith))
      ∙ interleave-bytes src s.1)

zeros-ArePixels : (n : ℕ) → ArePixels (replicate n 0)
zeros-ArePixels zero = tt
zeros-ArePixels (suc n) = (omega arith, zeros-ArePixels n)

-- A transform that undoes itself on every frame.
abbrev pub IsLossless : Transform → Type 0
IsLossless t =
    (w h : ℕ) (src : List ℕ)
    → IsFrame (w * h) src
    → transform_inv t w h (transform_fwd t w h src) ≡ src

filter-IsLossless : (f : Filter) → IsUndone f → IsLossless (by_filter f)
unfolding transform_fwd transform_inv
filter-IsLossless f u w h src s =
    inv_rows-fwd_rows f u w h (replicate w 0) src (length-replicate w 0, zeros-ArePixels w)
      (omega arith, s.1)

shuffle-IsLossless : IsLossless by_shuffle
unfolding transform_fwd transform_inv
shuffle-IsLossless w h src s = shuffle_inv-shuffle_fwd w h src s

abbrev AllLossless : List Transform → Type 0
AllLossless [] = Unit
AllLossless (t ∷ ts) = IsLossless t × AllLossless ts

AllLossless-picks :
    (ts : List Transform) (i : ℕ) (t : Transform)
    → AllLossless ts
    → get_elem? ts i ≡ some t
    → IsLossless t
AllLossless-picks [] i t all e = cc
AllLossless-picks (s ∷ ts) zero t all e = subst IsLossless (some-injective s t e) all.0
AllLossless-picks (s ∷ ts) (suc i) t all e = AllLossless-picks ts i t all.1 e

transforms-AllLossless : AllLossless transforms
unfolding transforms
transforms-AllLossless = (
  filter-IsLossless sub_byte sub_byte-IsUndone,
  (
    filter-IsLossless u16_sub u16_sub-IsUndone,
    (
      filter-IsLossless u16_xor u16_xor-IsUndone,
      (
        filter-IsLossless paeth_byte paeth_byte-IsUndone,
        (
          filter-IsLossless paeth_pixel paeth_pixel-IsUndone,
          (
            filter-IsLossless med med-IsUndone,
            (
              filter-IsLossless channel_sub channel_sub-IsUndone,
              (filter-IsLossless channel_xor channel_xor-IsUndone, (shuffle-IsLossless, tt)),
            ),
          ),
        ),
      ),
    ),
  ),
)

-- Each of the nine transforms of the registry gives every frame of width times height pixels of
-- 16 bits back from the bytes that it made of it.
pub transforms_lossless :
    (i : ℕ) (t : Transform) (w h : ℕ) (src : List ℕ)
    → get_elem? transforms i ≡ some t
    → IsFrame (w * h) src
    → transform_inv t w h (transform_fwd t w h src) ≡ src
transforms_lossless i t w h src e s =
    AllLossless-picks transforms i t transforms-AllLossless e w h src s
