-- ===== src/Tests/Streams.antt =====
-- The keyframe protocol, the temporal codec, the predictors and the row checksum at concrete
-- inputs, over a block codec that puts a zero before its source.
use gud.Base.{
  ℕ, zero, suc, ◌<◌, ◌&&◌, ltb, ◌+◌, ◌%◌, ◌^◌, ◌≡◌, ◌≢◌, refl, arith, true, false, Option, none,
  some, List, [], ◌∷◌, length, leb, if◌then◌else◌,
}
use gud.Codec.Pixel.{rgb565_pixel_count}
use gud.Codec.Lz4.{Lz4, IsLossless}
use gud.Codec.Policy
use gud.Codec.Policy.{
  Encoder, Decoder, Memory, fixed_interval, adaptive, keyframe, delta, no_seq, FrameRecord,
}
use gud.Codec.Policy.Deltas.{IsFrame}
use gud.Codec.Policy.Stream.{Scene, Event, encodes, forces_keyframe, delivers, garbles, Stream, run}
use gud.Codec.Policy.Carry.{AllTrue, count}
use gud.Codec.Policy.Room.{HasRoom}
use gud.Codec.Policy.Recovery.{fresh, run-AllTrue, run-create-ne-none, run-recovers}
use gud.Checksum.{gud_row_crc32, gud_row_crc32-ne}
use gud.Codec.Predict.{
  transform_fwd, transform_inv, by_filter, med, paeth_byte, transforms, by_shuffle,
}
use gud.Codec.Predict.RoundTrip.{transforms_lossless}
use gud.Codec.Temporal.{mode_sub, TemporalCtx}
use gud.Codec.Temporal.Play
use gud.Codec.Temporal.Play.{play, expected, frames, resets_encoder, play-create-expected}

-- The capacity is not negative as an int.
unfoldable pub zero_first : List ℕ → ℕ → ℕ → List ℕ
zero_first src size cap = if leb (length src + 1) cap && ltb cap (2 ^ 31) then 0 ∷ src else []

unfoldable pub without_zero : List ℕ → ℕ → ℕ → Option (List ℕ)
without_zero (zero ∷ src) size cap =
    if leb (length src) cap && ltb cap (2 ^ 31) then some src else none
without_zero _ size cap = none

abbrev codec : Lz4
codec = record {
  compress_bound = λ size. size + 1;
  compress_default = zero_first;
  decompress_safe = without_zero;
}

without_zero-lt :
    (block : List ℕ) (size cap : ℕ) (out : List ℕ)
    → without_zero block size cap ≡ some out
    → length out < 2 ^ 31
unfolding without_zero
without_zero-lt [] size cap out e = cc
without_zero-lt (zero ∷ src) size cap out e = ground arith
without_zero-lt (suc b ∷ src) size cap out e = cc

codec-IsLossless : IsLossless codec
unfolding zero_first without_zero
codec-IsLossless = record {
  unpacks = λ src cap b bs small e. ground arith;
  packs_int = λ src cap small. ground arith;
  unpacks_int = without_zero-lt;
  fits = λ src cap small has enough int. ground arith;
}

-- Two pixels by one, of which the first is the sequence number.
abbrev scene : Scene
scene = record { lz = codec; width = 2; height = 1; film = λ seq. seq % 2 ^ 16 ∷ 7 ∷ [] }

scene-frames : (seq : ℕ) → IsFrame (count scene) (scene.film seq)
unfolding rgb565_pixel_count
scene-frames seq = (refl, (omega arith, (omega arith, tt)))

abbrev memory : Memory
memory = record { normal_buf = true; delta_buf = true; delta = true }

abbrev blank_enc : Encoder
blank_enc = record {
  width = 2;
  height = 1;
  reference = 0 ∷ 0 ∷ [];
  last_sequence = no_seq;
  force_keyframe_next = false;
}

abbrev blank_dec : Decoder
blank_dec = record { width = 2; height = 1; reference = 0 ∷ 0 ∷ []; last_sequence = no_seq }

abbrev key_record : FrameRecord
key_record = record {
  sequence_number = 5;
  frame_type = keyframe;
  base_sequence_number = no_seq;
  compressed_size = 5;
  normal_candidate_bytes = some 0;
  delta_candidate_bytes = some 0;
}

abbrev delta_record : FrameRecord
delta_record = record {
  sequence_number = 6;
  frame_type = delta;
  base_sequence_number = 5;
  compressed_size = 5;
  normal_candidate_bytes = some 0;
  delta_candidate_bytes = some 0;
}

-- The delta comes too early and once more in time, then garbled.
abbrev history : List Event
history =
    encodes fixed_interval 0 memory 5 5
    ∷ encodes fixed_interval 0 memory 6 5
    ∷ delivers 0
    ∷ delivers 1
    ∷ delivers 0
    ∷ garbles 0 (1 ∷ [])
    ∷ []

abbrev later : Stream
later = record {
  enc = record blank_enc { reference = 6 ∷ 7 ∷ []; last_sequence = 6 };
  dec = record blank_dec { reference = 6 ∷ 7 ∷ []; last_sequence = 6 };
  sent = (delta_record, 0 ∷ 3 ∷ 0 ∷ 0 ∷ 0 ∷ []) ∷ (key_record, 0 ∷ 5 ∷ 0 ∷ 7 ∷ 0 ∷ []) ∷ [];
  shown = (6, 6 ∷ 7 ∷ []) ∷ (5, 5 ∷ 7 ∷ []) ∷ [];
}

history-later : run scene (fresh blank_enc blank_dec) history ≡ some later
unfolding run mathlib.Core.Option.bind Policy.encode gud.Codec.Lz4.lz4u_compress
    gud.Codec.Words.bytes_of rgb565_pixel_count zero_first Policy.decode
    gud.Codec.Lz4.lz4u_decompress without_zero gud.Codec.Words.pixels_of
history-later = refl

run-AllTrue_example : AllTrue scene later.shown
unfolding Policy.encoder_create rgb565_pixel_count Policy.decoder_create
    gud.Codec.Lz4.lz4u_decompress without_zero
run-AllTrue_example =
    run-AllTrue scene codec-IsLossless scene-frames blank_enc blank_dec history later refl refl
      (refl, tt) history-later

roomy : HasRoom scene 5
unfolding Policy.policy_bound gud.Codec.Lz4.lz4u_compress_bound gud.Codec.Pixel.rgb565_byte_size
    rgb565_pixel_count
roomy = record {
  frame_is_small = omega arith;
  has_bound = omega arith;
  enough = omega arith;
  cap_is_small = omega arith;
}

run-create-ne-none_example : run scene (fresh blank_enc blank_dec) history ≢ none
unfolding Policy.encoder_create rgb565_pixel_count Policy.decoder_create
    gud.Codec.Lz4.lz4u_decompress without_zero Policy.policy_bound gud.Codec.Lz4.lz4u_compress_bound
    gud.Codec.Pixel.rgb565_byte_size
run-create-ne-none_example =
    run-create-ne-none scene codec-IsLossless scene-frames blank_enc blank_dec history refl refl
      (refl, tt) (roomy, (roomy, tt))

run-recovers_example :
    (t : Stream) × (run scene later
        (forces_keyframe ∷ encodes adaptive 0 memory 9 5 ∷ delivers 0 ∷ [])
      ≡ some t)
    × (t.shown ≡ (9, 9 ∷ 7 ∷ []) ∷ later.shown)
unfolding Policy.encoder_create rgb565_pixel_count Policy.decoder_create
    gud.Codec.Lz4.lz4u_decompress without_zero Policy.policy_bound gud.Codec.Lz4.lz4u_compress_bound
    gud.Codec.Pixel.rgb565_byte_size
run-recovers_example =
    run-recovers scene codec-IsLossless scene-frames blank_enc blank_dec history later adaptive 0
      memory 9 5 refl refl (refl, tt) history-later roomy

abbrev ctx : TemporalCtx
ctx = record {
  width = 2;
  height = 1;
  mode = mode_sub;
  keyframe_interval = 0;
  frame_index = 0;
  have_reference = false;
  reference = 0 ∷ 0 ∷ [];
}

abbrev clip : List Play.Event
clip =
    frames true (5 ∷ 7 ∷ []) 6
    ∷ frames true (3 ∷ 9 ∷ []) 6
    ∷ resets_encoder
    ∷ frames true (4 ∷ 4 ∷ []) 6
    ∷ []

play-create-expected_example : play codec 2 1 ctx ctx clip ≡ expected codec 2 1 mode_sub clip
unfolding gud.Codec.Temporal.temporal_create rgb565_pixel_count gud.Codec.Temporal.temporal_bound
    gud.Codec.Lz4.lz4u_compress_bound gud.Codec.Pixel.rgb565_byte_size
play-create-expected_example =
    play-create-expected codec 2 1 codec-IsLossless (omega arith) mode_sub 0 0 ctx ctx clip refl
      refl (omega arith)
      (
        (refl, (omega arith, (omega arith, tt))),
        ((refl, (omega arith, (omega arith, tt))), ((refl, (omega arith, (omega arith, tt))), tt)),
      )
      (
        refl,
        omega arith,
        omega arith,
        (refl, omega arith, omega arith, (refl, omega arith, omega arith, tt)),
      )

abbrev picture : List ℕ
picture = 1 ∷ 65535 ∷ 40000 ∷ 300 ∷ []

transforms_lossless_example :
    transform_inv (by_filter med) 2 2 (transform_fwd (by_filter med) 2 2 picture) ≡ picture
unfolding transforms
transforms_lossless_example =
    transforms_lossless 5 (by_filter med) 2 2 picture refl
      (refl, (omega arith, (omega arith, (omega arith, (omega arith, tt)))))

paeth_byte_coded : transform_fwd (by_filter paeth_byte) 2 1 (1 ∷ 259 ∷ []) ≡ 1 ∷ 0 ∷ 2 ∷ 1 ∷ []
unfolding transform_fwd paeth_byte
paeth_byte_coded = refl

shuffled : transform_fwd by_shuffle 2 1 (258 ∷ 772 ∷ []) ≡ 2 ∷ 4 ∷ 1 ∷ 3 ∷ []
unfolding transform_fwd
shuffled = refl

-- The check value of the CRC-32 of "123456789".
check_value : gud_row_crc32 (49 ∷ 50 ∷ 51 ∷ 52 ∷ 53 ∷ 54 ∷ 55 ∷ 56 ∷ 57 ∷ []) ≡ 0xCBF43926
unfolding gud_row_crc32
check_value = refl

gud_row_crc32-ne_example : gud_row_crc32 (49 ∷ 51 ∷ 51 ∷ []) ≢ gud_row_crc32 (49 ∷ 50 ∷ 51 ∷ [])
gud_row_crc32-ne_example =
    gud_row_crc32-ne (49 ∷ []) 51 50 (51 ∷ []) (omega arith, tt) (omega arith) (omega arith)
      (omega arith, tt) (omega arith)
