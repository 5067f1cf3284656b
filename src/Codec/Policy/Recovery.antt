-- ===== src/Codec/Policy/Recovery.antt =====
-- A stream from its creation on: what it shows, that it recovers, and that the encoder stays in
-- its buffers.
use gud.Base.{
  ℕ, ◌*◌, ◌^◌, ◌<◌, ◌≡◌, refl, sym, ◌∙◌, ap, arith, true, false, none, some, List, [], ◌∷◌, length,
  take, replicate, length-replicate, subst, ◌≢◌, Option-cases, inl, inr, take_all,
}
use mathlib.Core.Option.{some-injective, bind}
use gud.Codec.Pixel.{rgb565_byte_size}
use gud.Codec.Words.{bytes_of, length-bytes_of}
use gud.Codec.Lz4.{IsLossless, lz4u_compress, lz4u_decompress, lz4u_decompress-lz4u_compress}
use gud.Codec.Policy.{
  Mode, FrameRecord, Encoder, Decoder, Memory, Encoded, payload, failed, overrun, encoder_create,
  decoder_create, encoder_force_keyframe, encode, no_seq, finish, finish_or_fail, encode_keyframe,
  blank_record,
}
use gud.Codec.Policy.Deltas.{IsFrame}
use gud.Codec.Policy.Stream.{
  Scene, Event, encodes, forces_keyframe, resets_decoder, delivers, garbles, Stream, sends, arrives,
  step, run, shows,
}
use gud.Codec.Policy.Carry.{Holds, Keeps, AllTrue, IsTrue, count}
use gud.Codec.Policy.Unpack.{decode-keyframe}
use gud.Codec.Policy.Room.{HasRoom, bytes_fit, taken, encode-ne-overrun}
use gud.Codec.Policy.Trust.{AreRefused, run-IsTrue, step-IsTrue, refused_here, refused_later}

-- An encoder and a decoder before the first frame.
abbrev pub fresh : Encoder → Decoder → Stream
fresh enc dec = record { enc = enc; dec = dec; sent = []; shown = [] }

-- Every destination has room for a frame.
abbrev pub AreRoomy : Scene → List Event → Type 0
AreRoomy x [] = Unit
AreRoomy x (encodes mode interval memory seq dst_cap ∷ es) = HasRoom x dst_cap × AreRoomy x es
AreRoomy x (_ ∷ es) = AreRoomy x es

module _ (x : Scene) (lossless : IsLossless x.lz)
    (frames : (seq : ℕ) → IsFrame (count x) (x.film seq)) where
  created :
      (enc : Encoder) (dec : Decoder)
      → encoder_create true true x.width x.height ≡ some enc
      → decoder_create true true x.width x.height ≡ some dec
      → IsTrue x (fresh enc dec)
  unfolding encoder_create decoder_create
  created enc dec ee ed =
      let zeros = length-replicate (count x) 0 in
      let held : Holds x (replicate (count x) 0) no_seq = (zeros, λ based. absurd (based refl)) in
      let blank_dec : Decoder = record {
        width = x.width;
        height = x.height;
        reference = replicate (count x) 0;
        last_sequence = no_seq;
      } in
      let blank_enc : Encoder = record {
        width = x.width;
        height = x.height;
        reference = replicate (count x) 0;
        last_sequence = no_seq;
        force_keyframe_next = false;
      } in
      subst (λ e. IsTrue x (fresh e dec)) (some-injective blank_enc enc ee)
        (subst (λ d. IsTrue x (fresh blank_enc d)) (some-injective blank_dec dec ed)
          (record {
            encoder_holds = held;
            decoder_holds = (held, refl, refl);
            carried = tt;
            shown_true = tt;
          }))

  -- Whatever becomes of the packets between a new encoder and a new decoder (lost, repeated,
  -- reordered, garbled), and whatever keyframes are forced and decoders reset in between, each
  -- frame that the decoder shows under a sequence number is the frame that was encoded under it.
  -- `film` has one frame of the stream's size for each number, LZ4 is lossless, and a garbled
  -- payload is one that the decompressor refuses.
  pub run-AllTrue :
      (enc : Encoder) (dec : Decoder) (es : List Event) (s : Stream)
      → encoder_create true true x.width x.height ≡ some enc
      → decoder_create true true x.width x.height ≡ some dec
      → AreRefused x lossless frames es
      → run x (fresh enc dec) es ≡ some s
      → AllTrue x s.shown
  run-AllTrue enc dec es s ee ed h e =
      (run-IsTrue x lossless frames (fresh enc dec) es s (created enc dec ee ed) h e).shown_true

  sends-ne-none : (s : Stream) (r : Encoded) → r ≢ overrun → sends s r ≢ none
  unfolding sends
  sends-ne-none s (payload enc rec block) safe = λ e. cc
  sends-ne-none s (failed enc) safe = λ e. cc
  sends-ne-none s overrun safe = absurd (safe refl)

  step-ne-none :
      (s : Stream) (e : Event) (es : List Event)
      → IsTrue x s
      → AreRoomy x (e ∷ es)
      → (step x s e ≢ none) × AreRoomy x es
  unfolding step
  step-ne-none s (encodes mode interval memory seq dst_cap) es i room = (
    sends-ne-none s _ (
        encode-ne-overrun x lossless frames memory seq dst_cap s.enc mode interval room.0
          i.encoder_holds.0),
    room.1,
  )
  step-ne-none s forces_keyframe es i room = (λ e. cc, room)
  step-ne-none s resets_decoder es i room = (λ e. cc, room)
  step-ne-none s (delivers back) es i room = (λ e. cc, room)
  step-ne-none s (garbles back block) es i room = (λ e. cc, room)

  run_from-ne-none :
      (s : Stream) (es : List Event)
      → IsTrue x s
      → AreRefused x lossless frames es
      → AreRoomy x es
      → run x s es ≢ none
  unfolding run bind
  run_from-ne-none s [] i h room = λ e. cc
  run_from-ne-none s (e ∷ es) i h room = elim (Option-cases (step x s e)) [
    | inl stuck ↦ absurd ((step-ne-none s e es i room).0 stuck)
    | inr (next, went) ↦ rw went (
        run_from-ne-none next es
          (step-IsTrue x lossless frames s e next i (refused_here x lossless frames e es h) went)
          (refused_later x lossless frames e es h) (step-ne-none s e es i room).1)
  ]

  -- Where a frame and every destination have sizes below 2^31, LZ4 has a bound for a frame, and
  -- every destination has tpolicy_bound bytes, the encoder never copies a candidate that it does
  -- not have: no history ends in the call of memcpy with a size of (size_t)-1. LZ4 fits a source
  -- into LZ4_compressBound bytes, the frames have the stream's size, and garbled payloads are
  -- ones that the decompressor refuses.
  pub run-create-ne-none :
      (enc : Encoder) (dec : Decoder) (es : List Event)
      → encoder_create true true x.width x.height ≡ some enc
      → decoder_create true true x.width x.height ≡ some dec
      → AreRefused x lossless frames es
      → AreRoomy x es
      → run x (fresh enc dec) es ≢ none
  run-create-ne-none enc dec es ee ed h room =
      run_from-ne-none (fresh enc dec) es (created enc dec ee ed) h room

  -- What a forced keyframe of sequence number `seq` says.
  abbrev forced_record : ℕ → List ℕ → FrameRecord
  forced_record seq block = record (blank_record seq) {
    base_sequence_number = no_seq;
    compressed_size = length block;
  }

  block_carries :
      (seq dst_cap : ℕ) (block : List ℕ)
      → count x * 2 < 2 ^ 31
      → lz4u_compress x.lz (bytes_of (take (count x) (x.film seq))) dst_cap ≡ some block
      → lz4u_decompress x.lz block (count x * 2) ≡ some (bytes_of (x.film seq))
  block_carries seq dst_cap block small e =
      let ps = take (count x) (x.film seq) in
      let sized : length (bytes_of ps) ≡ count x * 2 =
        length-bytes_of ps ∙ ap (λ k. k * 2) (taken x lossless frames seq) in
      let whole = take_all (count x) (x.film seq) (let e = (frames seq).0 in omega arith) in
      ap (λ k. lz4u_decompress x.lz block k) (sym sized)
      ∙ lz4u_decompress-lz4u_compress x.lz lossless (bytes_of ps) block dst_cap (omega arith) e
      ∙ ap (λ qs. some (bytes_of qs)) whole

  run-forced :
      (s : Stream) (mode : Mode) (interval : ℕ) (memory : Memory) (seq dst_cap : ℕ) (block : List ℕ)
      → Keeps x s.dec
      → count x * 2 < 2 ^ 31
      → lz4u_compress x.lz (bytes_of (take (count x) (x.film seq))) dst_cap ≡ some block
      → (t : Stream) × (run x s
            (forces_keyframe ∷ encodes mode interval memory seq dst_cap ∷ delivers 0 ∷ [])
          ≡ some t)
        × (t.shown ≡ (seq, x.film seq) ∷ s.shown)
  unfolding run bind step encoder_force_keyframe encode encode_keyframe finish_or_fail finish sends
      arrives shows
  run-forced s mode interval memory seq dst_cap block keeps small e =
      let rec = forced_record seq block in
      rw
        (
          e,
          decode-keyframe x lossless frames s.dec rec block keeps
              (block_carries seq dst_cap block small e),
        )
        (_, refl, refl)

  -- After any such history a forced keyframe resynchronises: a frame that is encoded next and
  -- delivered is shown, in both modes. A frame and its destination have sizes below 2^31, LZ4
  -- has a bound for a frame, and the destination has tpolicy_bound bytes. LZ4 is lossless, the
  -- frames have the stream's size, and garbled payloads are ones that the decompressor refuses.
  pub run-recovers :
      (enc : Encoder) (dec : Decoder) (es : List Event) (s : Stream) (mode : Mode) (interval : ℕ)
      (memory : Memory) (seq dst_cap : ℕ)
      → encoder_create true true x.width x.height ≡ some enc
      → decoder_create true true x.width x.height ≡ some dec
      → AreRefused x lossless frames es
      → run x (fresh enc dec) es ≡ some s
      → HasRoom x dst_cap
      → (t : Stream) × (run x s
            (forces_keyframe ∷ encodes mode interval memory seq dst_cap ∷ delivers 0 ∷ [])
          ≡ some t)
        × (t.shown ≡ (seq, x.film seq) ∷ s.shown)
  unfolding rgb565_byte_size
  run-recovers enc dec es s mode interval memory seq dst_cap ee ed h went room =
      let i = run-IsTrue x lossless frames (fresh enc dec) es s (created enc dec ee ed) h went in
      let ps = take (count x) (x.film seq) in
      elim (Option-cases (lz4u_compress x.lz (bytes_of ps) dst_cap)) [
        | inl no_room ↦
            absurd
              (bytes_fit x lossless frames dst_cap ps room (taken x lossless frames seq) no_room)
        | inr (block, e) ↦
            run-forced s mode interval memory seq dst_cap block i.decoder_holds room.frame_is_small
              e
      ]
