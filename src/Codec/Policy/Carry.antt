-- ===== src/Codec/Policy/Carry.antt =====
-- What an encoder holds between two calls, and what the packets that it sends carry.
use gud.Base.{
  ℕ, ◌*◌, ◌^◌, ◌<◌, ◌≡◌, refl, sym, ◌∙◌, ap, arith, false, Option, none, some, List, [], ◌∷◌,
  length, take, take_all, ◌≢◌, ◌==◌, ◌%◌, not, ◌&&◌, Bool-cases, inl, inr,
}
use gud.Codec.Pixel.{rgb565_pixel_count}
use gud.Codec.Words.{bytes_of, length-bytes_of}
use gud.Codec.Lz4.{IsLossless, lz4u_compress, lz4u_decompress, lz4u_decompress-lz4u_compress}
use gud.Codec.Policy.{
  FrameType, keyframe, delta, Mode, fixed_interval, adaptive, FrameRecord, Encoder, Decoder, Memory,
  Encoded, payload, failed, overrun, encode, no_seq, xor_pixels, finish, finish_or_fail,
  overrun_or_finish, encode_keyframe, encode_delta, encode_adaptive, size_of, prefers_delta,
  blank_record, encode_next,
}
use gud.Codec.Policy.Deltas.{IsFrame, length-xor_pixels, xor_pixels-ArePixels, copy_whole}
use gud.Codec.Policy.Stream.{Scene, Packet, Stream}

module _ (x : Scene) where
  abbrev pub count : ℕ
  count = rgb565_pixel_count x.width x.height

  -- A reference has the frame of its sequence number, if it has one.
  abbrev pub Holds : List ℕ → ℕ → Type 0
  Holds reference last = (length reference ≡ count) × (last ≢ no_seq → reference ≡ x.film last)

  abbrev pub Keeps : Decoder → Type 0
  Keeps dec =
      Holds dec.reference dec.last_sequence × (dec.width ≡ x.width) × (dec.height ≡ x.height)

  -- What the payload of a record unpacks to.
  abbrev pub contents : FrameRecord → FrameType → List ℕ
  contents rec keyframe = x.film rec.sequence_number
  contents rec delta =
      xor_pixels count (x.film rec.sequence_number) (x.film rec.base_sequence_number)

  -- Where its bytes are counted by an int, a packet unpacks to its contents.
  abbrev pub Carries : Packet → Type 0
  Carries (rec, block) =
      count * 2 < 2 ^ 31
      → (lz4u_decompress x.lz block (count * 2) ≡ some (bytes_of (contents rec rec.frame_type)))

  abbrev pub AllCarry : List Packet → Type 0
  AllCarry [] = Unit
  AllCarry (p ∷ ps) = Carries p × AllCarry ps

  -- What was shown under a sequence number is its frame.
  abbrev pub AllTrue : List (ℕ × List ℕ) → Type 0
  AllTrue [] = Unit
  AllTrue ((seq, dst) ∷ rest) = (dst ≡ x.film seq) × AllTrue rest

  pub record IsTrue (s : Stream) : Type 0 where
    pub encoder_holds : Holds s.enc.reference s.enc.last_sequence
    pub decoder_holds : Keeps s.dec
    pub carried : AllCarry s.sent
    pub shown_true : AllTrue s.shown

  abbrev pub Encodes : ℕ → Encoded → Type 0
  Encodes seq (payload enc rec block) = Holds enc.reference enc.last_sequence × Carries (rec, block)
  Encodes seq (failed enc) = Holds enc.reference enc.last_sequence
  Encodes seq overrun = Unit

  module _ (lossless : IsLossless x.lz) (frames : (seq : ℕ) → IsFrame count (x.film seq)) where
    pub contents-IsFrame : (rec : FrameRecord) (t : FrameType) → IsFrame count (contents rec t)
    contents-IsFrame rec keyframe = frames rec.sequence_number
    contents-IsFrame rec delta = (
      length-xor_pixels count (x.film rec.sequence_number) (x.film rec.base_sequence_number)
          (frames rec.sequence_number).0 (frames rec.base_sequence_number).0,
      xor_pixels-ArePixels count (x.film rec.sequence_number) (x.film rec.base_sequence_number),
    )

    -- A block of the contents is a packet that carries them.
    finish-Encodes :
        (enc : Encoder) (rec : FrameRecord) (ps block : List ℕ) (dst_cap : ℕ)
        → Holds enc.reference enc.last_sequence
        → ps ≡ contents rec rec.frame_type
        → lz4u_compress x.lz (bytes_of ps) dst_cap ≡ some block
        → Encodes rec.sequence_number (finish enc (x.film rec.sequence_number) count rec block)
    unfolding finish
    finish-Encodes enc rec ps block dst_cap holds same e =
        let sized : length (bytes_of ps) ≡ count * 2 =
          length-bytes_of ps
          ∙ ap (λ k. k * 2) (ap length same ∙ (contents-IsFrame rec rec.frame_type).0) in
        let frame =
          copy_whole count (x.film rec.sequence_number) enc.reference (frames rec.sequence_number).0
            holds.0 in
        (
          (ap length frame ∙ (frames rec.sequence_number).0, λ _. frame),
          λ small.
              ap (λ k. lz4u_decompress x.lz block k) (sym sized)
              ∙ lz4u_decompress-lz4u_compress x.lz lossless (bytes_of ps) block dst_cap
                  (omega arith) e
              ∙ ap (λ qs. some (bytes_of qs)) same,
        )

    finish_or_fail-Encodes :
        (enc : Encoder) (rec : FrameRecord) (ps : List ℕ) (dst_cap : ℕ) (out : Option (List ℕ))
        → Holds enc.reference enc.last_sequence
        → ps ≡ contents rec rec.frame_type
        → lz4u_compress x.lz (bytes_of ps) dst_cap ≡ out
        → Encodes rec.sequence_number
            (finish_or_fail enc (x.film rec.sequence_number) count rec out)
    unfolding finish_or_fail
    finish_or_fail-Encodes enc rec ps dst_cap none holds same e = holds
    finish_or_fail-Encodes enc rec ps dst_cap (some block) holds same e =
        finish-Encodes enc rec ps block dst_cap holds same e

    overrun_or_finish-Encodes :
        (enc : Encoder) (rec : FrameRecord) (ps : List ℕ) (dst_cap : ℕ) (out : Option (List ℕ))
        → Holds enc.reference enc.last_sequence
        → ps ≡ contents rec rec.frame_type
        → lz4u_compress x.lz (bytes_of ps) dst_cap ≡ out
        → Encodes rec.sequence_number
            (overrun_or_finish enc (x.film rec.sequence_number) count rec out)
    unfolding overrun_or_finish
    overrun_or_finish-Encodes enc rec ps dst_cap none holds same e = tt
    overrun_or_finish-Encodes enc rec ps dst_cap (some block) holds same e =
        finish-Encodes enc rec ps block dst_cap holds same e

    keyframe-Encodes :
        (memory : Memory) (dst_cap : ℕ) (enc : Encoder) (rec : FrameRecord)
        → Holds enc.reference enc.last_sequence
        → Encodes rec.sequence_number
            (encode_keyframe x.lz memory (x.film rec.sequence_number) count dst_cap enc rec)
    unfolding encode_keyframe
    keyframe-Encodes memory dst_cap enc rec holds =
        let ps = take count (x.film rec.sequence_number) in
        finish_or_fail-Encodes enc
          (record rec { frame_type = keyframe; base_sequence_number = no_seq }) ps dst_cap
          (lz4u_compress x.lz (bytes_of ps) dst_cap) holds
          (take_all count (x.film rec.sequence_number)
            (let e = (frames rec.sequence_number).0 in omega arith))
          refl

    delta_of :
        (enc : Encoder) (seq : ℕ)
        → Holds enc.reference enc.last_sequence
        → enc.last_sequence ≢ no_seq
        → xor_pixels count (x.film seq) enc.reference
          ≡ xor_pixels count (x.film seq) (x.film enc.last_sequence)
    delta_of enc seq holds based = ap (xor_pixels count (x.film seq)) (holds.1 based)

    delta-Encodes :
        (memory : Memory) (dst_cap : ℕ) (enc : Encoder) (rec : FrameRecord)
        → Holds enc.reference enc.last_sequence
        → enc.last_sequence ≢ no_seq
        → Encodes rec.sequence_number
            (encode_delta x.lz memory (x.film rec.sequence_number) count dst_cap enc rec)
    unfolding encode_delta
    delta-Encodes memory dst_cap enc rec holds based = elim (Bool-cases memory.delta) [
      | inl got ↦
          let ps = xor_pixels count (x.film rec.sequence_number) enc.reference in
          rw got (
            finish_or_fail-Encodes enc
              (record rec { frame_type = delta; base_sequence_number = enc.last_sequence }) ps
              dst_cap (lz4u_compress x.lz (bytes_of ps) dst_cap) holds
              (delta_of enc rec.sequence_number holds based) refl)
      | inr missing ↦ rw missing holds
    ]

    adaptive-Encodes :
        (memory : Memory) (dst_cap : ℕ) (enc : Encoder) (rec : FrameRecord)
        → Holds enc.reference enc.last_sequence
        → enc.last_sequence ≢ no_seq
        → Encodes rec.sequence_number
            (encode_adaptive x.lz memory (x.film rec.sequence_number) count dst_cap enc rec)
    unfolding encode_adaptive
    adaptive-Encodes memory dst_cap enc rec holds based =
        let ps = take count (x.film rec.sequence_number) in
        let qs = xor_pixels count (x.film rec.sequence_number) enc.reference in
        let normal = lz4u_compress x.lz (bytes_of ps) dst_cap in
        let changed = lz4u_compress x.lz (bytes_of qs) dst_cap in
        let sized : FrameRecord = record rec {
          normal_candidate_bytes = size_of normal;
          delta_candidate_bytes = size_of changed;
        } in
        elim (Bool-cases (memory.normal_buf && memory.delta_buf && memory.delta)) [
          | inl got ↦ elim (Bool-cases (prefers_delta normal changed)) [
            | inl smaller ↦
                rw (got, smaller)
                  (overrun_or_finish-Encodes enc
                    (record sized { frame_type = delta; base_sequence_number = enc.last_sequence })
                    qs dst_cap changed holds (delta_of enc rec.sequence_number holds based) refl)
            | inr larger ↦
                rw (got, larger)
                  (overrun_or_finish-Encodes enc
                    (record sized { frame_type = keyframe; base_sequence_number = no_seq }) ps
                    dst_cap normal holds
                    (take_all count (x.film rec.sequence_number)
                      (let e = (frames rec.sequence_number).0 in omega arith))
                    refl)
          ]
          | inr missing ↦ rw missing holds
        ]

    next-Encodes :
        (memory : Memory) (dst_cap : ℕ) (mode : Mode) (interval : ℕ) (enc : Encoder)
        (rec : FrameRecord)
        → Holds enc.reference enc.last_sequence
        → enc.last_sequence ≢ no_seq
        → Encodes rec.sequence_number (
            encode_next x.lz memory
              (x.film rec.sequence_number)
              count
              dst_cap
              mode
              interval
              enc
              rec)
    unfolding encode_next
    next-Encodes memory dst_cap adaptive interval enc rec holds based =
        adaptive-Encodes memory dst_cap enc rec holds based
    next-Encodes memory dst_cap fixed_interval interval enc rec holds based =
        elim (Bool-cases (not (interval == 0) && rec.sequence_number % interval == 0)) [
          | inl due ↦ rw due (keyframe-Encodes memory dst_cap enc rec holds)
          | inr between ↦ rw between (delta-Encodes memory dst_cap enc rec holds based)
        ]

    pub encode-Encodes :
        (memory : Memory) (enc : Encoder) (mode : Mode) (interval seq dst_cap : ℕ)
        → Holds enc.reference enc.last_sequence
        → Encodes seq
            (encode x.lz memory enc (x.film seq) x.width x.height mode interval seq dst_cap)
    unfolding encode
    encode-Encodes memory enc mode interval seq dst_cap holds =
        let rec = blank_record seq in
        elim (Bool-cases enc.force_keyframe_next) [
          | inl forced ↦ simp forced (
              keyframe-Encodes memory dst_cap (record enc { force_keyframe_next = false }) rec
                holds)
          | inr free ↦ elim (Bool-cases (enc.last_sequence == no_seq)) [
            | inl first ↦ simp (free, first) (keyframe-Encodes memory dst_cap enc rec holds)
            | inr later ↦
                simp (free, later)
                  (next-Encodes memory dst_cap mode interval enc rec holds (ground arith))
          ]
        ]
