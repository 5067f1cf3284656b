-- ===== src/Codec/Policy/Deltas.antt =====
-- The difference of two frames, and the frame that it gives back.
use gud.Base.{
  ℕ, zero, suc, ◌≡◌, refl, ◌∙◌, ap, ap₂, arith, List, [], ◌∷◌, ◌++◌, length, take_all, drop_all,
  append-nil, bit_xor,
}
use gud.Base.Bits.{xor_undo, xor-lt}
use gud.Codec.Pixel.{u16}
use gud.Codec.Words.{ArePixels}
use gud.Codec.Policy.{xor_pixels, copy_pixels}

pub length-xor_pixels :
    (n : ℕ) (a b : List ℕ) → length a ≡ n → length b ≡ n → length (xor_pixels n a b) ≡ n
unfolding xor_pixels
length-xor_pixels zero a b ha hb = refl
length-xor_pixels (suc n) [] b ha hb = absurd (omega arith)
length-xor_pixels (suc n) (x ∷ a) [] ha hb = absurd (omega arith)
length-xor_pixels (suc n) (x ∷ a) (y ∷ b) ha hb =
    ap suc (length-xor_pixels n a b (omega arith) (omega arith))

pub xor_pixels-ArePixels : (n : ℕ) (a b : List ℕ) → ArePixels (xor_pixels n a b)
unfolding xor_pixels
xor_pixels-ArePixels zero a b = tt
xor_pixels-ArePixels (suc n) [] b = tt
xor_pixels-ArePixels (suc n) (x ∷ a) [] = tt
xor_pixels-ArePixels (suc n) (x ∷ a) (y ∷ b) = (omega arith, xor_pixels-ArePixels n a b)

-- A frame of `n` pixels.
abbrev pub IsFrame : ℕ → List ℕ → Type 0
IsFrame n ps = (length ps ≡ n) × ArePixels ps

pub xor_pixels_undo :
    (n : ℕ) (a b : List ℕ) → IsFrame n a → IsFrame n b → xor_pixels n (xor_pixels n a b) b ≡ a
unfolding xor_pixels
xor_pixels_undo zero [] b ha hb = refl
xor_pixels_undo zero (x ∷ a) b ha hb = absurd (omega arith)
xor_pixels_undo (suc n) [] b ha hb = absurd (omega arith)
xor_pixels_undo (suc n) (x ∷ a) [] ha hb = absurd (omega arith)
xor_pixels_undo (suc n) (x ∷ a) (y ∷ b) ((la, (px, pa))) ((lb, (py, pb))) =
    let small = xor-lt 16 x y px py in
    let same : u16 (bit_xor x y) ≡ bit_xor x y = omega arith in
    let back : u16 x ≡ x = omega arith in
    ap₂ ◌∷◌ (ap (λ t. u16 (bit_xor t y)) same ∙ ap u16 (xor_undo x y) ∙ back)
      (xor_pixels_undo n a b (omega arith, pa) (omega arith, pb))

pub copy_whole :
    (n : ℕ) (src dst : List ℕ) → length src ≡ n → length dst ≡ n → copy_pixels n src dst ≡ src
unfolding copy_pixels
copy_whole n src dst hs hd =
    ap₂ ◌++◌ (take_all n src (omega arith)) (drop_all n dst (omega arith)) ∙ append-nil src
