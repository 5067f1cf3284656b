-- ===== src/Codec/Policy/Stream.antt =====
-- A stream between an encoder and a decoder over a transport that may lose, repeat, reorder and
-- garble what it carries: the calls that the recovery tests of temporal_policy.h make, in any order.
use gud.Base.{ℕ, Option, none, some, List, [], ◌∷◌, get_elem?}
use mathlib.Core.Option.{bind}
use gud.Codec.Lz4.{Lz4}
use gud.Codec.Policy.{
  Mode, DecodeStatus, ok, FrameRecord, Encoder, Decoder, Memory, Encoded, payload, failed, overrun,
  encoder_force_keyframe, decoder_reset, encode, decode,
}

-- A number is the sequence number of the next frame, or counts back from the packet sent last.
pub data Event : Type 0 where
  encodes : Mode → ℕ → Memory → ℕ → ℕ → Event
  forces_keyframe resets_decoder : Event
  delivers : ℕ → Event
  garbles : ℕ → List ℕ → Event

abbrev pub Packet : Type 0
Packet = FrameRecord × List ℕ

-- `shown` has the frames that were decoded, with their sequence numbers, the last first.
pub record Stream : Type 0 where
  pub enc : Encoder
  pub dec : Decoder
  pub sent : List Packet
  pub shown : List (ℕ × List ℕ)

unfoldable pub shows : ℕ → Stream → DecodeStatus × Decoder × Option (List ℕ) → Stream
shows seq s (ok, dec, some dst) = record s { dec = dec; shown = (seq, dst) ∷ s.shown }
shows seq s (_, dec, _) = record s { dec = dec }

-- `none` is the call of memcpy with a size of (size_t)-1.
unfoldable pub sends : Stream → Encoded → Option Stream
sends s (payload enc rec block) = some (record s { enc = enc; sent = (rec, block) ∷ s.sent })
sends s (failed enc) = some (record s { enc = enc })
sends s overrun = none

-- The codec, the size of the frames, and the frame for each sequence number.
pub record Scene : Type 0 where
  pub lz : Lz4
  pub width : ℕ
  pub height : ℕ
  pub film : ℕ → List ℕ

module _ (x : Scene) where
  unfoldable pub arrives : Stream → Option Packet → Stream
  unfolding shows
  arrives s none = s
  arrives s (some (rec, block)) = shows rec.sequence_number s (
      decode x.lz s.dec rec.frame_type rec.sequence_number rec.base_sequence_number block x.width
        x.height)

  unfoldable pub garbled : List ℕ → Option Packet → Option Packet
  garbled block none = none
  garbled block (some (rec, _)) = some (rec, block)

  unfoldable pub step : Stream → Event → Option Stream
  unfolding sends arrives garbled
  step s (encodes mode interval memory seq dst_cap) =
      sends s (encode x.lz memory s.enc (x.film seq) x.width x.height mode interval seq dst_cap)
  step s forces_keyframe = some (record s { enc = encoder_force_keyframe s.enc })
  step s resets_decoder = some (record s { dec = decoder_reset s.dec })
  step s (delivers back) = some (arrives s (get_elem? s.sent back))
  step s (garbles back block) = some (arrives s (garbled block (get_elem? s.sent back)))

  -- The events, unless one before them ended in the call of memcpy.
  unfoldable pub run : Stream → List Event → Option Stream
  unfolding step
  run s [] = some s
  run s (e ∷ es) = bind (step s e) (λ next. run next es)
