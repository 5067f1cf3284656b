-- ===== src/Codec/Temporal/Lockstep.antt =====
-- An encoder and a decoder of one mode hold the same reference, frame after frame.
use gud.Base.{
  ℕ, zero, suc, ◌*◌, ◌^◌, ◌<◌, ◌≡◌, refl, sym, ◌∙◌, ap, ap₂, subst, arith, Bool, true, false, some,
  List, [], ◌∷◌, ◌++◌, length, length-map, take, take_all, drop_all, append-nil, ◌==◌, bit_xor, map,
}
use gud.Base.Bits.{xor_undo, xor-lt}
use gud.Codec.Pixel.{u16}
use gud.Codec.Pixel.Fields.{IsPixel}
use gud.Codec.Quant.{quant_mild_fwd, mild_pixel}
use gud.Codec.Quant.Levels.{mild-IsPixel}
use gud.Codec.Words.{ArePixels, bytes_of, pixels_of-bytes_of, length-bytes_of}
use gud.Codec.Lz4.{Lz4, IsLossless, lz4u_compress, lz4u_decompress, lz4u_decompress-lz4u_compress}
use gud.Codec.Policy.Deltas.{IsFrame}
use gud.Codec.Temporal.{
  Mode, mode_xor, mode_sub, mode_quant_xor, TemporalCtx, is_keyframe_due, zip_pixels, subtract,
  add_back, xor_16, target_of, delta_op, undo_op, advance, payload_of, header_byte, rebuild,
  decoded,
}

delta_op-IsPixel : (mode : Mode) (a b : ℕ) → IsPixel (delta_op mode a b)
unfolding delta_op subtract xor_16
delta_op-IsPixel mode_xor a b = omega arith
delta_op-IsPixel mode_sub a b = omega arith
delta_op-IsPixel mode_quant_xor a b = omega arith

xor_back : (a b : ℕ) → IsPixel a → IsPixel b → xor_16 (xor_16 a b) b ≡ a
unfolding xor_16
xor_back a b ha hb =
    let small = xor-lt 16 a b ha hb in
    let same : u16 (bit_xor a b) ≡ bit_xor a b = omega arith in
    let back : u16 a ≡ a = omega arith in
    ap (λ t. u16 (bit_xor t b)) same ∙ ap u16 (xor_undo a b) ∙ back

undo_op-delta_op :
    (mode : Mode) (a b : ℕ) → IsPixel a → IsPixel b → undo_op mode (delta_op mode a b) b ≡ a
unfolding undo_op delta_op subtract add_back
undo_op-delta_op mode_xor a b ha hb = xor_back a b ha hb
undo_op-delta_op mode_sub a b ha hb = omega arith
undo_op-delta_op mode_quant_xor a b ha hb = xor_back a b ha hb

zip_undo :
    (mode : Mode) (n : ℕ) (a b : List ℕ)
    → IsFrame n a
    → IsFrame n b
    → zip_pixels (undo_op mode) n (zip_pixels (delta_op mode) n a b) b ≡ a
unfolding zip_pixels
zip_undo mode zero [] b ha hb = refl
zip_undo mode zero (x ∷ a) b ha hb = absurd (omega arith)
zip_undo mode (suc n) [] b ha hb = absurd (omega arith)
zip_undo mode (suc n) (x ∷ a) [] ha hb = absurd (omega arith)
zip_undo mode (suc n) (x ∷ a) (y ∷ b) ((la, (px, pa))) ((lb, (py, pb))) =
    ap₂ ◌∷◌ (undo_op-delta_op mode x y px py)
      (zip_undo mode n a b (omega arith, pa) (omega arith, pb))

zip-IsFrame :
    (mode : Mode) (n : ℕ) (a b : List ℕ)
    → length a ≡ n
    → length b ≡ n
    → IsFrame n (zip_pixels (delta_op mode) n a b)
unfolding zip_pixels
zip-IsFrame mode zero a b ha hb = (refl, tt)
zip-IsFrame mode (suc n) [] b ha hb = absurd (omega arith)
zip-IsFrame mode (suc n) (x ∷ a) [] ha hb = absurd (omega arith)
zip-IsFrame mode (suc n) (x ∷ a) (y ∷ b) ha hb =
    let rest = zip-IsFrame mode n a b (omega arith) (omega arith) in
    (ap suc rest.0, (delta_op-IsPixel mode x y, rest.1))

mild-ArePixels : (ps : List ℕ) → ArePixels (map mild_pixel ps)
mild-ArePixels [] = tt
mild-ArePixels (p ∷ ps) = (mild-IsPixel p, mild-ArePixels ps)

-- A target is a frame again.
pub target_of-IsFrame :
    (mode : Mode) (n : ℕ) (src : List ℕ) → IsFrame n src → IsFrame n (target_of mode n src)
unfolding target_of quant_mild_fwd
target_of-IsFrame mode_xor n src f = subst (IsFrame n) (sym (take_all n src (omega arith))) f
target_of-IsFrame mode_sub n src f = subst (IsFrame n) (sym (take_all n src (omega arith))) f
target_of-IsFrame mode_quant_xor n src f =
    let same = take_all n src (omega arith) in
    (length-map (take n src) mild_pixel ∙ ap length same ∙ f.0, mild-ArePixels (take n src))

-- Both contexts are for frames of w * h pixels; the decoder has the encoder's reference, once
-- there is one.
pub record InLockstep (n : ℕ) (enc dec : TemporalCtx) : Type 0 where
  pub same_mode : dec.mode ≡ enc.mode
  pub encoder_sized : length enc.reference ≡ n
  pub decoder_sized : length dec.reference ≡ n
  pub agree : enc.have_reference ≡ true → dec.reference ≡ enc.reference
  pub pixels : enc.have_reference ≡ true → ArePixels enc.reference

rebuild_key :
    (mode : Mode) (n : ℕ) (target reference other : List ℕ)
    → rebuild (header_byte true) mode n (payload_of true mode n target reference) other ≡ target
unfolding rebuild payload_of header_byte
rebuild_key mode n target reference other = refl

rebuild-payload_of :
    (keyframe : Bool) (mode : Mode) (n : ℕ) (target reference : List ℕ)
    → IsFrame n target
    → (keyframe ≡ false → IsFrame n reference)
    → rebuild (header_byte keyframe) mode n (payload_of keyframe mode n target reference) reference
      ≡ target
unfolding rebuild payload_of header_byte
rebuild-payload_of true mode n target reference f g = refl
rebuild-payload_of false mode n target reference f g = zip_undo mode n target reference f (g refl)

pub payload_of-IsFrame :
    (keyframe : Bool) (mode : Mode) (n : ℕ) (target reference : List ℕ)
    → IsFrame n target
    → length reference ≡ n
    → IsFrame n (payload_of keyframe mode n target reference)
unfolding payload_of
payload_of-IsFrame true mode n target reference f g = f
payload_of-IsFrame false mode n target reference f g = zip-IsFrame mode n target reference f.0 g

not_due : (ctx : TemporalCtx) → is_keyframe_due ctx ≡ false → ctx.have_reference ≡ true
unfolding is_keyframe_due
not_due ctx e = ground arith

advance_whole :
    (ctx : TemporalCtx) (frame : List ℕ) (n : ℕ)
    → length ctx.reference ≡ n
    → (advance ctx frame n).reference ≡ frame
unfolding advance
advance_whole ctx frame n e =
    ap (λ ps. frame ++ ps) (drop_all n ctx.reference (omega arith)) ∙ append-nil frame

module _ (lz : Lz4) (lossless : IsLossless lz) (n : ℕ) (enc dec : TemporalCtx)
    (step : InLockstep n enc dec) (target : List ℕ) (f : IsFrame n target) where
  abbrev sent : List ℕ
  sent = payload_of (is_keyframe_due enc) enc.mode n target enc.reference

  rebuilt : rebuild (header_byte (is_keyframe_due enc)) dec.mode n sent dec.reference ≡ target
  rebuilt = rw step.same_mode (by_flag (is_keyframe_due enc) refl)
    where
      by_flag :
          (k : Bool)
          → is_keyframe_due enc ≡ k
          → rebuild
              (header_byte k)
              enc.mode
              n
              (payload_of k enc.mode n target enc.reference)
              dec.reference
            ≡ target
      by_flag true e = rebuild_key enc.mode n target enc.reference dec.reference
      by_flag false e =
          let has = not_due enc e in
          rw (step.agree has) (
            rebuild-payload_of false enc.mode n target enc.reference f
              (λ _. (step.encoder_sized, step.pixels has)))

  -- The decoder rebuilds the target from a block of the payload.
  pub decoded-block :
      (block : List ℕ) (dst_cap : ℕ)
      → n * 2 < 2 ^ 31
      → lz4u_compress lz (bytes_of sent) dst_cap ≡ some block
      → decoded dec n (header_byte (is_keyframe_due enc)) (lz4u_decompress lz block (n * 2))
        ≡ (advance dec target n, some target)
  unfolding decoded
  decoded-block block dst_cap small e =
      let whole =
        payload_of-IsFrame (is_keyframe_due enc) enc.mode n target enc.reference f
          step.encoder_sized in
      let sized : length (bytes_of sent) ≡ n * 2 = length-bytes_of sent ∙ ap (λ k. k * 2) whole.0 in
      let test : (length (bytes_of sent) == n * 2) ≡ true = ground arith in
      let back : lz4u_decompress lz block (n * 2) ≡ some (bytes_of sent) =
        ap (λ k. lz4u_decompress lz block k) (sym sized)
        ∙ lz4u_decompress-lz4u_compress lz lossless (bytes_of sent) block dst_cap (omega arith) e in
      simp (back, test, pixels_of-bytes_of sent whole.1, rebuilt)

  pub advance-InLockstep : InLockstep n (advance enc target n) (advance dec target n)
  unfolding advance
  advance-InLockstep =
      let e = advance_whole enc target n step.encoder_sized in
      let d = advance_whole dec target n step.decoder_sized in
      record {
        same_mode = step.same_mode;
        encoder_sized = ap length e ∙ f.0;
        decoder_sized = ap length d ∙ f.0;
        agree = λ _. d ∙ sym e;
        pixels = λ _. subst ArePixels (sym e) f.1;
      }
