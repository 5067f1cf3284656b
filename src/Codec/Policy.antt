-- ===== src/Codec/Policy.antt =====
-- benchmark/tools/fbcodec-bench/src/transforms/temporal_policy.c: frames as keyframes or as deltas
-- against the frame before, each with a sequence number, and the decoder that refuses a delta whose
-- base it does not hold. The times that the records keep are left out. A source, a destination and
-- a reference are the pixels of a frame.
pub mod Stream
pub mod Deltas
pub mod Carry
pub mod Unpack
pub mod Trust
pub mod Room
pub mod Recovery
use gud.Base.{
  ℕ, zero, suc, ◌+◌, ◌-◌, ◌*◌, ◌%◌, ◌^◌, Bool, true, false, ◌&&◌, not, Option, none, some, List, [],
  ◌∷◌, ◌++◌, length, take, drop, replicate, ◌==◌, ltb, if◌then◌else◌, bit_xor,
}
use gud.Codec.Pixel.{u16, rgb565_pixel_count, rgb565_byte_size}
use gud.Codec.Words.{bytes_of, pixels_of}
use gud.Codec.Lz4.{Lz4, lz4u_compress, lz4u_decompress, lz4u_compress_bound}

abbrev pub no_seq : ℕ
no_seq = 0xFFFFFFFF

pub data FrameType : Type 0 where
  keyframe delta : FrameType

pub data Mode : Type 0 where
  fixed_interval adaptive : Mode

pub data DecodeStatus : Type 0 where
  ok err_reference_mismatch err_corrupt err_need_keyframe : DecodeStatus

-- A candidate's size is `none` for (size_t)-1.
pub record FrameRecord : Type 0 where
  pub sequence_number : ℕ
  pub frame_type : FrameType
  pub base_sequence_number : ℕ
  pub compressed_size : ℕ
  pub normal_candidate_bytes : Option ℕ
  pub delta_candidate_bytes : Option ℕ

pub record Encoder : Type 0 where
  pub width : ℕ
  pub height : ℕ
  pub reference : List ℕ
  pub last_sequence : ℕ
  pub force_keyframe_next : Bool

pub record Decoder : Type 0 where
  pub width : ℕ
  pub height : ℕ
  pub reference : List ℕ
  pub last_sequence : ℕ

-- The Booleans tell which allocations succeed.
unfoldable pub encoder_create : Bool → Bool → ℕ → ℕ → Option Encoder
encoder_create has_enc has_reference width height =
    if has_enc && has_reference
    then some (record {
      width = width;
      height = height;
      reference = replicate (rgb565_pixel_count width height) 0;
      last_sequence = no_seq;
      force_keyframe_next = false;
    })
    else none

unfoldable pub encoder_force_keyframe : Encoder → Encoder
encoder_force_keyframe enc = record enc { force_keyframe_next = true }

unfoldable pub decoder_create : Bool → Bool → ℕ → ℕ → Option Decoder
decoder_create has_dec has_reference width height =
    if has_dec && has_reference
    then some (record {
      width = width;
      height = height;
      reference = replicate (rgb565_pixel_count width height) 0;
      last_sequence = no_seq;
    })
    else none

unfoldable pub decoder_reset : Decoder → Decoder
decoder_reset dec = record dec {
  last_sequence = no_seq;
  reference = replicate (rgb565_pixel_count dec.width dec.height) 0;
}

unfoldable pub policy_bound : Lz4 → ℕ → ℕ → ℕ
policy_bound lz width height = lz4u_compress_bound lz (rgb565_byte_size width height)

-- The loop over `n` pixels of two frames.
unfoldable pub xor_pixels : ℕ → List ℕ → List ℕ → List ℕ
xor_pixels (suc n) (a ∷ ps) (b ∷ qs) = u16 (bit_xor a b) ∷ xor_pixels n ps qs
xor_pixels _ _ _ = []

-- memcpy of `n` pixels.
unfoldable pub copy_pixels : ℕ → List ℕ → List ℕ → List ℕ
copy_pixels n src dst = take n src ++ drop n dst

-- Which of its allocations tpolicy_encode gets.
pub record Memory : Type 0 where
  pub normal_buf : Bool
  pub delta_buf : Bool
  pub delta : Bool

-- A payload was written, -1 was returned, or memcpy was called with a size of (size_t)-1.
pub data Encoded : Type 0 where
  payload : Encoder → FrameRecord → List ℕ → Encoded
  failed : Encoder → Encoded
  overrun : Encoded

unfoldable pub size_of : Option (List ℕ) → Option ℕ
size_of none = none
size_of (some block) = some (length block)

-- The condition of the adaptive mode, negated.
unfoldable pub prefers_delta : Option (List ℕ) → Option (List ℕ) → Bool
prefers_delta normal none = false
prefers_delta none (some d) = true
prefers_delta (some n) (some d) = ltb (length d) (length n)

-- The end of tpolicy_encode: the reference becomes the source.
unfoldable pub finish : Encoder → List ℕ → ℕ → FrameRecord → List ℕ → Encoded
unfolding copy_pixels
finish enc src n rec block =
    payload
      (record enc {
        reference = copy_pixels n src enc.reference;
        last_sequence = rec.sequence_number;
      })
      (record rec { compressed_size = length block }) block

unfoldable pub finish_or_fail : Encoder → List ℕ → ℕ → FrameRecord → Option (List ℕ) → Encoded
unfolding finish
finish_or_fail enc src n rec none = failed enc
finish_or_fail enc src n rec (some block) = finish enc src n rec block

unfoldable pub overrun_or_finish : Encoder → List ℕ → ℕ → FrameRecord → Option (List ℕ) → Encoded
unfolding finish
overrun_or_finish enc src n rec none = overrun
overrun_or_finish enc src n rec (some block) = finish enc src n rec block

module _ (lz : Lz4) (memory : Memory) (src : List ℕ) (n dst_cap : ℕ) where
  -- The payload is compressed straight into the destination.
  unfoldable pub encode_keyframe : Encoder → FrameRecord → Encoded
  unfolding finish_or_fail
  encode_keyframe enc rec =
      finish_or_fail enc src n (record rec { frame_type = keyframe; base_sequence_number = no_seq })
        (lz4u_compress lz (bytes_of (take n src)) dst_cap)

  unfoldable pub encode_delta : Encoder → FrameRecord → Encoded
  unfolding finish_or_fail xor_pixels
  encode_delta enc rec =
      if memory.delta
      then finish_or_fail enc src n
          (record rec { frame_type = delta; base_sequence_number = enc.last_sequence })
          (lz4u_compress lz (bytes_of (xor_pixels n src enc.reference)) dst_cap)
      else failed enc

  -- Both candidates, of which the smaller is copied to the destination.
  unfoldable pub encode_adaptive : Encoder → FrameRecord → Encoded
  unfolding overrun_or_finish xor_pixels size_of prefers_delta
  encode_adaptive enc rec =
      let normal = lz4u_compress lz (bytes_of (take n src)) dst_cap in
      let changed = lz4u_compress lz (bytes_of (xor_pixels n src enc.reference)) dst_cap in
      let sized = record rec {
        normal_candidate_bytes = size_of normal;
        delta_candidate_bytes = size_of changed;
      } in
      if memory.normal_buf && memory.delta_buf && memory.delta
      then if prefers_delta normal changed
        then overrun_or_finish enc src n
            (record sized { frame_type = delta; base_sequence_number = enc.last_sequence }) changed
        else overrun_or_finish enc src n
            (record sized { frame_type = keyframe; base_sequence_number = no_seq }) normal
      else failed enc

  -- With a reference and without a request for a keyframe.
  unfoldable pub encode_next : Mode → ℕ → Encoder → FrameRecord → Encoded
  unfolding encode_keyframe encode_delta encode_adaptive
  encode_next adaptive keyframe_interval enc rec = encode_adaptive enc rec
  encode_next fixed_interval keyframe_interval enc rec =
      if not (keyframe_interval == 0) && rec.sequence_number % keyframe_interval == 0
      then encode_keyframe enc rec
      else encode_delta enc rec

-- memset of the record, and its sequence number.
abbrev pub blank_record : ℕ → FrameRecord
blank_record sequence_number = record {
  sequence_number = sequence_number;
  frame_type = keyframe;
  base_sequence_number = 0;
  compressed_size = 0;
  normal_candidate_bytes = some 0;
  delta_candidate_bytes = some 0;
}

unfoldable pub encode : Lz4 → Memory → Encoder → List ℕ → ℕ → ℕ → Mode → ℕ → ℕ → ℕ → Encoded
unfolding encode_keyframe encode_next
encode lz memory enc src w h mode keyframe_interval sequence_number dst_cap =
    let n = rgb565_pixel_count w h in
    let rec = blank_record sequence_number in
    if enc.force_keyframe_next
    then encode_keyframe lz memory src n dst_cap (record enc { force_keyframe_next = false }) rec
    else if enc.last_sequence == no_seq
    then encode_keyframe lz memory src n dst_cap enc rec
    else encode_next lz memory src n dst_cap mode keyframe_interval enc rec

unfoldable pub reconstruct : FrameType → ℕ → List ℕ → List ℕ → List ℕ
unfolding xor_pixels
reconstruct keyframe n pixels reference = pixels
reconstruct delta n pixels reference = xor_pixels n pixels reference

-- What was decompressed, as the pixels of `dst`; `dst` is `none` where what it holds depends on how
-- far the decompressor came.
unfoldable pub accept :
    Decoder → FrameType → ℕ → ℕ → Option (List ℕ) → DecodeStatus × Decoder × Option (List ℕ)
unfolding reconstruct copy_pixels
accept dec frame_type sequence_number n none = (err_corrupt, dec, none)
accept dec frame_type sequence_number n (some out) =
    let dst = reconstruct frame_type n (pixels_of out) dec.reference in
    if length out == n * 2
    then (
      ok,
      record dec { reference = copy_pixels n dst dec.reference; last_sequence = sequence_number },
      some dst,
    )
    else (err_corrupt, dec, none)

unfoldable pub decode_payload :
    Lz4 → Decoder → FrameType → ℕ → List ℕ → ℕ → DecodeStatus × Decoder × Option (List ℕ)
unfolding accept
decode_payload lz dec frame_type sequence_number src n =
    accept dec frame_type sequence_number n (lz4u_decompress lz src (n * 2))

unfoldable pub decode :
    Lz4 → Decoder → FrameType → ℕ → ℕ → List ℕ → ℕ → ℕ → DecodeStatus × Decoder × Option (List ℕ)
unfolding decode_payload
decode lz dec keyframe sequence_number base_sequence_number src w h =
    decode_payload lz dec keyframe sequence_number src (rgb565_pixel_count w h)
decode lz dec delta sequence_number base_sequence_number src w h =
    if dec.last_sequence == no_seq
    then (err_need_keyframe, dec, none)
    else if dec.last_sequence == base_sequence_number
    then decode_payload lz dec delta sequence_number src (rgb565_pixel_count w h)
    else (err_reference_mismatch, dec, none)
