-- ===== src/Codec/Policy/Room.antt =====
-- With a destination of tpolicy_bound bytes the encoder has what it copies.
use gud.Base.{
  ℕ, ◌*◌, ◌^◌, ◌<◌, ◌≤◌, ◌≡◌, sym, ◌∙◌, ap, arith, false, none, List, length, take, subst, ◌≢◌,
  take_all,
}
use gud.Codec.Pixel.{rgb565_byte_size}
use gud.Codec.Words.{bytes_of, length-bytes_of}
use gud.Codec.Lz4.{IsLossless, lz4u_compress, lz4u_compress_bound, lz4u_compress-ne-none}
use gud.Codec.Policy.{
  Mode, fixed_interval, adaptive, FrameRecord, Encoder, Memory, overrun, encode, xor_pixels, finish,
  finish_or_fail, overrun_or_finish, encode_keyframe, encode_delta, encode_adaptive, encode_next,
  blank_record, policy_bound, prefers_delta,
}
use gud.Codec.Policy.Deltas.{IsFrame, length-xor_pixels}
use gud.Codec.Policy.Stream.{Scene}
use gud.Codec.Policy.Carry.{count}

-- The bytes of a frame are counted by an int, LZ4 has a bound for them, and the destination has
-- tpolicy_bound bytes, itself counted by an int.
pub record HasRoom (x : Scene) (dst_cap : ℕ) : Type 0 where
  pub frame_is_small : rgb565_byte_size x.width x.height < 2 ^ 31
  pub has_bound : 0 < policy_bound x.lz x.width x.height
  pub enough : policy_bound x.lz x.width x.height ≤ dst_cap
  pub cap_is_small : dst_cap < 2 ^ 31

module _ (x : Scene) (lossless : IsLossless x.lz)
    (frames : (seq : ℕ) → IsFrame (count x) (x.film seq)) where
  pub bytes_fit :
      (dst_cap : ℕ) (ps : List ℕ)
      → HasRoom x dst_cap
      → length ps ≡ count x
      → lz4u_compress x.lz (bytes_of ps) dst_cap ≢ none
  unfolding policy_bound rgb565_byte_size
  bytes_fit dst_cap ps room sized =
      let e : length (bytes_of ps) ≡ count x * 2 = length-bytes_of ps ∙ ap (λ k. k * 2) sized in
      lz4u_compress-ne-none x.lz lossless (bytes_of ps) dst_cap
        (subst (λ k. k < 2 ^ 31) (sym e) room.frame_is_small)
        (subst (λ k. 0 < lz4u_compress_bound x.lz k) (sym e) room.has_bound)
        (subst (λ k. lz4u_compress_bound x.lz k ≤ dst_cap) (sym e) room.enough) room.cap_is_small

  pub taken : (seq : ℕ) → length (take (count x) (x.film seq)) ≡ count x
  taken seq =
      ap length (take_all (count x) (x.film seq) (let e = (frames seq).0 in omega arith))
      ∙ (frames seq).0

  module _ (memory : Memory) (seq dst_cap : ℕ) where
    encode_keyframe-ne-overrun :
        (enc : Encoder) (rec : FrameRecord)
        → encode_keyframe x.lz memory (x.film seq) (count x) dst_cap enc rec ≢ overrun
    unfolding encode_keyframe finish_or_fail finish
    encode_keyframe-ne-overrun enc rec = ground arith

    encode_delta-ne-overrun :
        (enc : Encoder) (rec : FrameRecord)
        → encode_delta x.lz memory (x.film seq) (count x) dst_cap enc rec ≢ overrun
    unfolding encode_delta finish_or_fail finish
    encode_delta-ne-overrun enc rec = ground arith

    encode_adaptive-ne-overrun :
        (enc : Encoder) (rec : FrameRecord)
        → HasRoom x dst_cap
        → length enc.reference ≡ count x
        → encode_adaptive x.lz memory (x.film seq) (count x) dst_cap enc rec ≢ overrun
    unfolding encode_adaptive prefers_delta overrun_or_finish finish
    encode_adaptive-ne-overrun enc rec room sized =
        let ps = take (count x) (x.film seq) in
        let qs = xor_pixels (count x) (x.film seq) enc.reference in
        let resized = length-xor_pixels (count x) (x.film seq) enc.reference (frames seq).0 sized in
        ground (arith, bytes_fit dst_cap ps room (taken seq), bytes_fit dst_cap qs room resized)

    pub encode-ne-overrun :
        (enc : Encoder) (mode : Mode) (interval : ℕ)
        → HasRoom x dst_cap
        → length enc.reference ≡ count x
        → encode x.lz memory enc (x.film seq) x.width x.height mode interval seq dst_cap ≢ overrun
    unfolding encode encode_next
    encode-ne-overrun enc adaptive interval room sized =
        let rec = blank_record seq in
        let forced = record enc { force_keyframe_next = false } in
        ground (
          arith,
          encode_keyframe-ne-overrun forced rec,
          encode_keyframe-ne-overrun enc rec,
          encode_adaptive-ne-overrun enc rec room sized,
        )
    encode-ne-overrun enc fixed_interval interval room sized =
        let rec = blank_record seq in
        let forced = record enc { force_keyframe_next = false } in
        ground (
          arith,
          encode_keyframe-ne-overrun forced rec,
          encode_keyframe-ne-overrun enc rec,
          encode_delta-ne-overrun enc rec,
        )
