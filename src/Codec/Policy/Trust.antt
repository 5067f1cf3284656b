-- ===== src/Codec/Policy/Trust.antt =====
-- What a decoder of a stream shows is what was encoded.
use gud.Base.{
  ℕ, zero, suc, ◌*◌, ◌≡◌, refl, sym, ◌∙◌, ap, ap₂, Option, none, some, List, [], ◌∷◌, get_elem?,
  length-replicate, subst, Option-cases, inl, inr,
}
use mathlib.Core.Option.{some-injective, none-ne-some, bind}
use gud.Codec.Pixel.{rgb565_pixel_count}
use gud.Codec.Lz4.{IsLossless, lz4u_decompress}
use gud.Codec.Policy.{
  DecodeStatus, ok, Decoder, Encoded, payload, failed, overrun, encoder_force_keyframe,
  decoder_reset, err_reference_mismatch, err_corrupt, err_need_keyframe,
}
use gud.Codec.Policy.Deltas.{IsFrame}
use gud.Codec.Policy.Stream.{
  Scene, Event, encodes, forces_keyframe, resets_decoder, delivers, garbles, Packet, Stream, shows,
  sends, arrives, garbled, step, run,
}
use gud.Codec.Policy.Carry.{Keeps, Carries, AllCarry, IsTrue, Encodes, encode-Encodes, count}
use gud.Codec.Policy.Unpack.{Decodes, decode-Decodes, garbled-Decodes}

module _ (x : Scene) (lossless : IsLossless x.lz)
    (frames : (seq : ℕ) → IsFrame (count x) (x.film seq)) where
  kept : (s : Stream) (dec : Decoder) → IsTrue x s → Keeps x dec → IsTrue x (record s { dec = dec })
  kept s dec i holds = record {
    encoder_holds = i.encoder_holds;
    decoder_holds = holds;
    carried = i.carried;
    shown_true = i.shown_true;
  }

  decoder_of :
      (seq : ℕ) (status : DecodeStatus) (dec : Decoder) (dst : Option (List ℕ))
      → Decodes x lossless frames seq (status, dec, dst)
      → Keeps x dec
  decoder_of seq status dec none d = d
  decoder_of seq status dec (some ps) d = d.0

  shows-IsTrue :
      (s : Stream) (seq : ℕ) (r : DecodeStatus × Decoder × Option (List ℕ))
      → IsTrue x s
      → Decodes x lossless frames seq r
      → IsTrue x (shows seq s r)
  unfolding shows
  shows-IsTrue s seq (ok, dec, some dst) i d = record {
    encoder_holds = i.encoder_holds;
    decoder_holds = d.0;
    carried = i.carried;
    shown_true = (d.1, i.shown_true);
  }
  shows-IsTrue s seq (ok, dec, none) i d = kept s dec i d
  shows-IsTrue s seq (err_reference_mismatch, dec, dst) i d =
      kept s dec i (decoder_of seq err_reference_mismatch dec dst d)
  shows-IsTrue s seq (err_corrupt, dec, dst) i d =
      kept s dec i (decoder_of seq err_corrupt dec dst d)
  shows-IsTrue s seq (err_need_keyframe, dec, dst) i d =
      kept s dec i (decoder_of seq err_need_keyframe dec dst d)

  AllCarry-picks :
      (ps : List Packet) (back : ℕ) (p : Packet)
      → AllCarry x ps
      → get_elem? ps back ≡ some p
      → Carries x p
  AllCarry-picks [] back p all e = cc
  AllCarry-picks (q ∷ ps) zero p all e = subst (Carries x) (some-injective q p e) all.0
  AllCarry-picks (q ∷ ps) (suc back) p all e = AllCarry-picks ps back p all.1 e

  -- Garbled payloads are bytes that the decompressor refuses.
  abbrev pub AreRefused : List Event → Type 0
  AreRefused [] = Unit
  AreRefused (garbles back block ∷ es) =
      (lz4u_decompress x.lz block ((count x) * 2) ≡ none) × AreRefused es
  AreRefused (_ ∷ es) = AreRefused es

  sends-IsTrue :
      (s : Stream) (seq : ℕ) (r : Encoded) (t : Stream)
      → IsTrue x s
      → Encodes x seq r
      → sends s r ≡ some t
      → IsTrue x t
  unfolding sends
  sends-IsTrue s seq (payload enc rec block) t i d e =
      subst (IsTrue x) (some-injective _ t e) (record {
        encoder_holds = d.0;
        decoder_holds = i.decoder_holds;
        carried = (d.1, i.carried);
        shown_true = i.shown_true;
      })
  sends-IsTrue s seq (failed enc) t i d e = subst (IsTrue x) (some-injective _ t e) (record {
    encoder_holds = d;
    decoder_holds = i.decoder_holds;
    carried = i.carried;
    shown_true = i.shown_true;
  })
  sends-IsTrue s seq overrun t i d e = cc

  arrives-IsTrue :
      (s : Stream) (back : ℕ) (p : Option Packet)
      → IsTrue x s
      → get_elem? s.sent back ≡ p
      → IsTrue x (arrives x s p)
  unfolding arrives
  arrives-IsTrue s back none i e = i
  arrives-IsTrue s back (some (rec, block)) i e = shows-IsTrue s rec.sequence_number _ i (
      decode-Decodes x lossless frames s.dec rec rec.frame_type block i.decoder_holds
        (AllCarry-picks s.sent back (rec, block) i.carried e))

  garbled-IsTrue :
      (s : Stream) (block : List ℕ) (p : Option Packet)
      → IsTrue x s
      → lz4u_decompress x.lz block ((count x) * 2) ≡ none
      → IsTrue x (arrives x s (garbled x block p))
  unfolding arrives garbled
  garbled-IsTrue s block none i e = i
  garbled-IsTrue s block (some (rec, sent)) i e = shows-IsTrue s rec.sequence_number _ i (
      garbled-Decodes x lossless frames s.dec rec.frame_type rec.sequence_number
        rec.base_sequence_number block i.decoder_holds e)

  reset-Keeps : (dec : Decoder) → Keeps x dec → Keeps x (decoder_reset dec)
  unfolding decoder_reset rgb565_pixel_count
  reset-Keeps dec k = (
    (
      length-replicate (dec.width * dec.height) 0 ∙ ap₂ (λ w h. w * h) k.1 k.2,
      λ based. absurd (based refl),
    ),
    k.1,
    k.2,
  )

  pub step-IsTrue :
      (s : Stream) (e : Event) (t : Stream)
      → IsTrue x s
      → AreRefused (e ∷ [])
      → step x s e ≡ some t
      → IsTrue x t
  unfolding step encoder_force_keyframe
  step-IsTrue s (encodes mode interval memory seq dst_cap) t i h e =
      sends-IsTrue s seq _ t i
        (encode-Encodes x lossless frames memory s.enc mode interval seq dst_cap i.encoder_holds) e
  step-IsTrue s forces_keyframe t i h e = subst (IsTrue x) (some-injective _ t e) (record {
    encoder_holds = i.encoder_holds;
    decoder_holds = i.decoder_holds;
    carried = i.carried;
    shown_true = i.shown_true;
  })
  step-IsTrue s resets_decoder t i h e =
      subst (IsTrue x) (some-injective _ t e)
        (kept s (decoder_reset s.dec) i (reset-Keeps s.dec i.decoder_holds))
  step-IsTrue s (delivers back) t i h e =
      subst (IsTrue x) (some-injective _ t e) (arrives-IsTrue s back (get_elem? s.sent back) i refl)
  step-IsTrue s (garbles back block) t i h e =
      subst (IsTrue x) (some-injective _ t e) (garbled-IsTrue s block (get_elem? s.sent back) i h.0)

  pub refused_here : (e : Event) (es : List Event) → AreRefused (e ∷ es) → AreRefused (e ∷ [])
  refused_here (encodes mode interval memory seq dst_cap) es h = tt
  refused_here forces_keyframe es h = tt
  refused_here resets_decoder es h = tt
  refused_here (delivers back) es h = tt
  refused_here (garbles back block) es h = (h.0, tt)

  pub refused_later : (e : Event) (es : List Event) → AreRefused (e ∷ es) → AreRefused es
  refused_later (encodes mode interval memory seq dst_cap) es h = h
  refused_later forces_keyframe es h = h
  refused_later resets_decoder es h = h
  refused_later (delivers back) es h = h
  refused_later (garbles back block) es h = h.1

  pub run-IsTrue :
      (s : Stream) (es : List Event) (t : Stream)
      → IsTrue x s
      → AreRefused es
      → run x s es ≡ some t
      → IsTrue x t
  unfolding run bind
  run-IsTrue s [] t i h e = subst (IsTrue x) (some-injective s t e) i
  run-IsTrue s (e ∷ es) t i h same = elim (Option-cases (step x s e)) [
    | inl stuck ↦
        absurd (none-ne-some t (sym (ap (λ o. bind o (λ next. run x next es)) stuck) ∙ same))
    | inr (next, went) ↦
        run-IsTrue next es t (step-IsTrue s e next i (refused_here e es h) went)
          (refused_later e es h) (sym (ap (λ o. bind o (λ next. run x next es)) went) ∙ same)
  ]
