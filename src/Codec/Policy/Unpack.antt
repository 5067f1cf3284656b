-- ===== src/Codec/Policy/Unpack.antt =====
-- What a decoder makes of a packet, and of bytes that its decompressor refuses.
use gud.Base.{
  ℕ, ◌*◌, ◌^◌, ◌<◌, ◌≤◌, ltb, false, Option-cases, ◌≡◌, refl, ◌∙◌, ap, arith, true, Option, none,
  some, List, length, ◌≢◌, ◌==◌, Bool-cases, inl, inr,
}
use gud.Codec.Words.{bytes_of, pixels_of-bytes_of, length-bytes_of}
use gud.Codec.Lz4.{IsLossless, lz4u_decompress, lz4u_decompress-lt}
use gud.Codec.Policy.{
  FrameType, keyframe, delta, DecodeStatus, ok, err_corrupt, FrameRecord, Decoder, decode, no_seq,
  xor_pixels, copy_pixels, decode_payload, reconstruct, accept,
}
use gud.Codec.Policy.Deltas.{IsFrame, xor_pixels_undo, copy_whole}
use gud.Codec.Policy.Stream.{Scene}
use gud.Codec.Policy.Carry.{Holds, Keeps, contents, contents-IsFrame, count}

module _ (x : Scene) (lossless : IsLossless x.lz)
    (frames : (seq : ℕ) → IsFrame (count x) (x.film seq)) where
  unpacked :
      (block : List ℕ) (ps : List ℕ)
      → IsFrame (count x) ps
      → lz4u_decompress x.lz block (count x * 2) ≡ some (bytes_of ps)
      → (dec : Decoder) (t : FrameType) (seq : ℕ)
      → decode_payload x.lz dec t seq block (count x) ≡ (
        ok,
        record dec {
          reference =
              copy_pixels (count x) (reconstruct t (count x) ps dec.reference) dec.reference;
          last_sequence = seq;
        },
        some (reconstruct t (count x) ps dec.reference),
      )
  unfolding decode_payload accept
  unpacked block ps frame e dec t seq =
      let whole : length (bytes_of ps) ≡ count x * 2 =
        length-bytes_of ps ∙ ap (λ k. k * 2) frame.0 in
      let test : (length (bytes_of ps) == count x * 2) ≡ true = ground arith in
      simp (e, test, pixels_of-bytes_of ps frame.1)

  -- The decoder after a packet, and what it shows.
  abbrev pub Decodes : ℕ → DecodeStatus × Decoder × Option (List ℕ) → Type 0
  Decodes seq (status, dec, none) = Keeps x dec
  Decodes seq (status, dec, some dst) = Keeps x dec × (dst ≡ x.film seq)

  rebuilt :
      (dec : Decoder) (rec : FrameRecord) (t : FrameType)
      → Keeps x dec
      → (t ≡ delta → (dec.last_sequence ≢ no_seq) × (dec.last_sequence ≡ rec.base_sequence_number))
      → reconstruct t (count x) (contents x rec t) dec.reference ≡ x.film rec.sequence_number
  unfolding reconstruct
  rebuilt dec rec keyframe holds based = refl
  rebuilt dec rec delta holds based =
      let (has, base) = based refl in
      let film_of = ap x.film base in
      ap (λ r. xor_pixels (count x) (contents x rec delta) r) (holds.0.1 has ∙ film_of)
      ∙ xor_pixels_undo (count x) (x.film rec.sequence_number) (x.film rec.base_sequence_number)
          (frames rec.sequence_number) (frames rec.base_sequence_number)

  payload-Decodes :
      (dec : Decoder) (rec : FrameRecord) (t : FrameType) (block : List ℕ)
      → Keeps x dec
      → lz4u_decompress x.lz block (count x * 2) ≡ some (bytes_of (contents x rec t))
      → (t ≡ delta → (dec.last_sequence ≢ no_seq) × (dec.last_sequence ≡ rec.base_sequence_number))
      → decode_payload x.lz dec t rec.sequence_number block (count x) ≡ (
        ok,
        record dec { reference = x.film rec.sequence_number; last_sequence = rec.sequence_number },
        some (x.film rec.sequence_number),
      )
  payload-Decodes dec rec t block holds carries based =
      let seq = rec.sequence_number in
      let frame = rebuilt dec rec t holds based in
      unpacked block (contents x rec t) (contents-IsFrame x lossless frames rec t) carries dec t seq
      ∙ ap
          (λ ps. (
            ok,
            record dec { reference = copy_pixels (count x) ps dec.reference; last_sequence = seq },
            some ps,
          ))
          frame
      ∙ ap (λ ps. (ok, record dec { reference = ps; last_sequence = seq }, some (x.film seq)))
          (copy_whole (count x) (x.film seq) dec.reference (frames seq).0 holds.0.0)

  pub arrived : (seq : ℕ) → Holds x (x.film seq) seq
  arrived seq = ((frames seq).0, λ _. refl)

  pub decode-keyframe :
      (dec : Decoder) (rec : FrameRecord) (block : List ℕ)
      → Keeps x dec
      → lz4u_decompress x.lz block (count x * 2) ≡ some (bytes_of (x.film rec.sequence_number))
      → decode x.lz dec keyframe rec.sequence_number rec.base_sequence_number block x.width x.height
        ≡ (
          ok,
          record dec {
            reference = x.film rec.sequence_number;
            last_sequence = rec.sequence_number;
          },
          some (x.film rec.sequence_number),
        )
  unfolding decode
  decode-keyframe dec rec block holds carries =
      payload-Decodes dec rec keyframe block holds carries (λ e. cc)

  small-Decodes :
      (dec : Decoder) (rec : FrameRecord) (t : FrameType) (block : List ℕ)
      → Keeps x dec
      → lz4u_decompress x.lz block (count x * 2) ≡ some (bytes_of (contents x rec t))
      → Decodes rec.sequence_number
          (decode x.lz dec t rec.sequence_number rec.base_sequence_number block x.width x.height)
  unfolding decode
  small-Decodes dec rec keyframe block holds carries =
      rw (payload-Decodes dec rec keyframe block holds carries (λ e. cc))
        ((arrived rec.sequence_number, holds.1, holds.2), refl)
  small-Decodes dec rec delta block holds carries =
      elim (Bool-cases (dec.last_sequence == no_seq)) [
        | inl fresh ↦ rw fresh holds
        | inr has ↦ elim (Bool-cases (dec.last_sequence == rec.base_sequence_number)) [
          | inl base ↦
              rw
                (
                  has,
                  base,
                  payload-Decodes dec rec delta block holds carries
                      (λ _. (ground arith, ground arith)),
                )
                ((arrived rec.sequence_number, holds.1, holds.2), refl)
          | inr other ↦ rw (has, other) holds
        ]
      ]

  -- Bytes that the decompressor refuses.
  pub garbled-Decodes :
      (dec : Decoder) (t : FrameType) (seq base : ℕ) (block : List ℕ)
      → Keeps x dec
      → lz4u_decompress x.lz block (count x * 2) ≡ none
      → Decodes seq (decode x.lz dec t seq base block x.width x.height)
  unfolding decode decode_payload accept
  garbled-Decodes dec keyframe seq base block holds e = rw e holds
  garbled-Decodes dec delta seq base block holds e =
      elim (Bool-cases (dec.last_sequence == no_seq)) [
        | inl fresh ↦ rw fresh holds
        | inr has ↦ elim (Bool-cases (dec.last_sequence == base)) [
          | inl same ↦ rw (has, same, e) holds
          | inr other ↦ rw (has, other) holds
        ]
      ]

  -- A stream whose frames are too large for an int decodes no packet.
  large_payload :
      (dec : Decoder) (t : FrameType) (seq : ℕ) (block : List ℕ)
      → 2 ^ 31 ≤ count x * 2
      → decode_payload x.lz dec t seq block (count x) ≡ (err_corrupt, dec, none)
  unfolding decode_payload accept
  large_payload dec t seq block large =
      elim (Option-cases (lz4u_decompress x.lz block (count x * 2))) [
        | inl refused ↦ rw refused refl
        | inr (out, e) ↦
            let counted = lz4u_decompress-lt x.lz lossless block out (count x * 2) e in
            let test : (length out == count x * 2) ≡ false = ground arith in rw (e, test) refl
      ]

  large-Decodes :
      (dec : Decoder) (t : FrameType) (seq base : ℕ) (block : List ℕ)
      → Keeps x dec
      → 2 ^ 31 ≤ count x * 2
      → Decodes seq (decode x.lz dec t seq base block x.width x.height)
  unfolding decode
  large-Decodes dec keyframe seq base block holds large =
      rw (large_payload dec keyframe seq block large) holds
  large-Decodes dec delta seq base block holds large =
      elim (Bool-cases (dec.last_sequence == no_seq)) [
        | inl fresh ↦ rw fresh holds
        | inr has ↦ elim (Bool-cases (dec.last_sequence == base)) [
          | inl same ↦ rw (has, same, large_payload dec delta seq block large) holds
          | inr other ↦ rw (has, other) holds
        ]
      ]

  pub decode-Decodes :
      (dec : Decoder) (rec : FrameRecord) (t : FrameType) (block : List ℕ)
      → Keeps x dec
      → (count x * 2 < 2 ^ 31
          → lz4u_decompress x.lz block (count x * 2) ≡ some (bytes_of (contents x rec t)))
      → Decodes rec.sequence_number
          (decode x.lz dec t rec.sequence_number rec.base_sequence_number block x.width x.height)
  decode-Decodes dec rec t block holds carries = elim (Bool-cases (ltb (count x * 2) (2 ^ 31))) [
    | inl small ↦ small-Decodes dec rec t block holds (carries (ground arith))
    | inr large ↦
        large-Decodes dec t rec.sequence_number rec.base_sequence_number block holds (ground arith)
  ]
