-- ===== src/Codec/Temporal/Play.antt =====
-- Frames through an encoder and a decoder, with resets of either in between.
use gud.Base.{
  ℕ, ◌-◌, ◌*◌, ◌^◌, ◌<◌, ◌≤◌, ◌≡◌, refl, sym, ◌∙◌, ap, subst, arith, Bool, true, false, not, ◌&&◌,
  Option, none, some, List, [], ◌∷◌, length, replicate, length-replicate, ltb, Bool-cases, ◌⊎◌,
  Option-cases, inl, inr, ◌≢◌,
}
use mathlib.Core.Option.{some-injective}
use gud.Codec.Pixel.{rgb565_pixel_count, rgb565_byte_size}
use gud.Codec.Words.{bytes_of, length-bytes_of}
use gud.Codec.Lz4.{Lz4, IsLossless, lz4u_compress, lz4u_compress_bound, lz4u_compress-ne-none}
use gud.Codec.Policy.Deltas.{IsFrame}
use gud.Codec.Temporal.{
  Mode, TemporalCtx, temporal_create, temporal_reset, temporal_bound, is_keyframe_due, target_of,
  payload_of, header_byte, encoded, temporal_encode, temporal_decode, advance,
}
use gud.Codec.Temporal.Lockstep.{
  InLockstep, target_of-IsFrame, payload_of-IsFrame, decoded-block, advance-InLockstep,
}

-- A frame has its memory, its pixels and the size of its destination.
pub data Event : Type 0 where
  frames : Bool → List ℕ → ℕ → Event
  resets_encoder resets_decoder : Event

abbrev pub Shown : Type 0
Shown = List (List ℕ × Option (List ℕ))

module _ (lz : Lz4) (w h : ℕ) where
  abbrev n : ℕ
  n = rgb565_pixel_count w h

  -- What the decoder makes of what the encoder returned, beside its source.
  unfoldable pub receives : List ℕ → TemporalCtx → Option (List ℕ) → (TemporalCtx → Shown) → Shown
  receives src dec none rest = rest dec
  receives src dec (some bytes) rest =
      let (next, dst) = temporal_decode lz true dec bytes w h in (src, dst) ∷ rest next

  unfoldable pub play : TemporalCtx → TemporalCtx → List Event → Shown
  unfolding receives
  play enc dec [] = []
  play enc dec (frames allocated src dst_cap ∷ es) =
      let (enc', out) = temporal_encode lz allocated enc src w h dst_cap in
      receives src dec out (λ dec'. play enc' dec' es)
  play enc dec (resets_encoder ∷ es) = play (temporal_reset enc) dec es
  play enc dec (resets_decoder ∷ es) = play enc (temporal_reset dec) es

  abbrev pub AreFrames : List Event → Type 0
  AreFrames [] = Unit
  AreFrames (frames allocated src dst_cap ∷ es) =
      IsFrame (rgb565_pixel_count w h) src × AreFrames es
  AreFrames (_ ∷ es) = AreFrames es

  -- Each frame was decoded to its target.
  abbrev pub AreTargets : Mode → Shown → Type 0
  AreTargets mode [] = Unit
  AreTargets mode ((src, dst) ∷ rest) =
      (dst ≡ some (target_of mode (rgb565_pixel_count w h) src)) × AreTargets mode rest

  -- Every frame has its memory and a destination of temporal_bound bytes, which an int counts.
  abbrev pub AreRoomy : List Event → Type 0
  AreRoomy [] = Unit
  AreRoomy (frames allocated src dst_cap ∷ es) =
      (allocated ≡ true) × (temporal_bound lz w h ≤ dst_cap) × (dst_cap ≤ 2 ^ 31) × AreRoomy es
  AreRoomy (_ ∷ es) = AreRoomy es

  -- The sources, each with its target.
  unfoldable pub expected : Mode → List Event → Shown
  expected mode [] = []
  expected mode (frames allocated src dst_cap ∷ es) =
      (src, some (target_of mode (rgb565_pixel_count w h) src)) ∷ expected mode es
  expected mode (_ ∷ es) = expected mode es

  module _ (lossless : IsLossless lz) (small : rgb565_byte_size w h < 2 ^ 31) where
    reset_encoder-InLockstep :
        (enc dec : TemporalCtx) → InLockstep n enc dec → InLockstep n (temporal_reset enc) dec
    unfolding temporal_reset
    reset_encoder-InLockstep enc dec s = record {
      same_mode = s.same_mode;
      encoder_sized = s.encoder_sized;
      decoder_sized = s.decoder_sized;
      agree = λ e. cc;
      pixels = λ e. cc;
    }

    reset_decoder-InLockstep :
        (enc dec : TemporalCtx) → InLockstep n enc dec → InLockstep n enc (temporal_reset dec)
    unfolding temporal_reset
    reset_decoder-InLockstep enc dec s = record {
      same_mode = s.same_mode;
      encoder_sized = s.encoder_sized;
      decoder_sized = s.decoder_sized;
      agree = s.agree;
      pixels = s.pixels;
    }

    -- Either nothing was written and the encoder is as it was, or the decoder will rebuild the
    -- target.
    encode-cases :
        (allocated : Bool) (enc dec : TemporalCtx) (src : List ℕ) (dst_cap : ℕ)
        → InLockstep n enc dec
        → IsFrame n src
        → let target = target_of enc.mode n src in
          (temporal_encode lz allocated enc src w h dst_cap ≡ (enc, none))
          ⊎ ((bytes : List ℕ) × (temporal_encode lz allocated enc src w h dst_cap
                ≡ (advance enc target n, some bytes))
              × (temporal_decode lz true dec bytes w h ≡ (advance dec target n, some target)))
    unfolding temporal_encode temporal_decode encoded rgb565_byte_size
    encode-cases allocated enc dec src dst_cap s f =
        let target = target_of enc.mode n src in
        let fits = target_of-IsFrame enc.mode n src f in
        let sent = payload_of (is_keyframe_due enc) enc.mode n target enc.reference in
        elim (Bool-cases (allocated && not (ltb dst_cap 1))) [
          | inr refused ↦ inl (rw refused refl)
          | inl begun ↦ elim (Option-cases (lz4u_compress lz (bytes_of sent) (dst_cap - 1))) [
            | inl no_room ↦ inl (rw (begun, no_room) refl)
            | inr (block, e) ↦ inr (
              header_byte (is_keyframe_due enc) ∷ block,
              rw (begun, e) refl,
              decoded-block lz lossless n enc dec s target fits block (dst_cap - 1) small e,
            )
          ]
        ]

    play-AreTargets :
        (enc dec : TemporalCtx) (es : List Event)
        → InLockstep n enc dec
        → AreFrames es
        → AreTargets enc.mode (play enc dec es)
    unfolding play receives temporal_reset advance
    play-AreTargets enc dec [] s f = tt
    play-AreTargets enc dec (frames allocated src dst_cap ∷ es) s f =
        elim (encode-cases allocated enc dec src dst_cap s f.0) [
          | inl nothing ↦ simp nothing (play-AreTargets enc dec es s f.1)
          | inr (bytes, e, d) ↦
              let target = target_of enc.mode n src in
              let fits = target_of-IsFrame enc.mode n src f.0 in
              simp (e, d)
                (
                  refl,
                  play-AreTargets (advance enc target n) (advance dec target n) es
                      (advance-InLockstep lz lossless n enc dec s target fits) f.1,
                )
        ]
    play-AreTargets enc dec (resets_encoder ∷ es) s f =
        play-AreTargets (temporal_reset enc) dec es (reset_encoder-InLockstep enc dec s) f
    play-AreTargets enc dec (resets_decoder ∷ es) s f =
        play-AreTargets enc (temporal_reset dec) es (reset_decoder-InLockstep enc dec s) f

    created :
        (mode : Mode) (i j : ℕ) (enc dec : TemporalCtx)
        → temporal_create true true w h mode i ≡ some enc
        → temporal_create true true w h mode j ≡ some dec
        → InLockstep n enc dec × (enc.mode ≡ mode)
    unfolding temporal_create
    created mode i j enc dec e d =
        let zeros : length (replicate {A = ℕ} n 0) ≡ n = length-replicate n 0 in
        let ctx : ℕ → TemporalCtx = λ interval. record {
          width = w;
          height = h;
          mode = mode;
          keyframe_interval = interval;
          frame_index = 0;
          have_reference = false;
          reference = replicate n 0;
        } in
        subst (λ c. InLockstep n c dec × (c.mode ≡ mode)) (some-injective (ctx i) enc e)
          (subst (λ c. InLockstep n (ctx i) c × (mode ≡ mode)) (some-injective (ctx j) dec d)
            (
              record {
                same_mode = refl;
                encoder_sized = zeros;
                decoder_sized = zeros;
                agree = λ e. cc;
                pixels = λ e. cc;
              },
              refl,
            ))

    pub play-create-AreTargets :
        (mode : Mode) (i j : ℕ) (enc dec : TemporalCtx) (es : List Event)
        → temporal_create true true w h mode i ≡ some enc
        → temporal_create true true w h mode j ≡ some dec
        → AreFrames es
        → AreTargets mode (play enc dec es)
    play-create-AreTargets mode i j enc dec es e d f =
        let (s, same) = created mode i j enc dec e d in
        subst (λ m. AreTargets m (play enc dec es)) same (play-AreTargets enc dec es s f)

    encode-ne-none :
        (enc dec : TemporalCtx) (src : List ℕ) (dst_cap : ℕ)
        → InLockstep n enc dec
        → IsFrame n src
        → 1 < temporal_bound lz w h
        → temporal_bound lz w h ≤ dst_cap
        → dst_cap ≤ 2 ^ 31
        → (temporal_encode lz true enc src w h dst_cap).1 ≢ none
    unfolding temporal_encode encoded temporal_bound rgb565_byte_size
    encode-ne-none enc dec src dst_cap s f has room cap =
        let target = target_of enc.mode n src in
        let fits = target_of-IsFrame enc.mode n src f in
        let sent = payload_of (is_keyframe_due enc) enc.mode n target enc.reference in
        let whole =
          payload_of-IsFrame (is_keyframe_due enc) enc.mode n target enc.reference fits
            s.encoder_sized in
        let sized : length (bytes_of sent) ≡ n * 2 =
          length-bytes_of sent ∙ ap (λ k. k * 2) whole.0 in
        let e = sym sized in
        let sent_fits =
          lz4u_compress-ne-none lz lossless (bytes_of sent) (dst_cap - 1)
            (subst (λ k. k < 2 ^ 31) e small)
            (subst (λ k. 0 < lz4u_compress_bound lz k) e (omega arith))
            (subst (λ k. lz4u_compress_bound lz k ≤ dst_cap - 1) e (omega arith)) (omega arith) in
        ground (arith, sent_fits)

    play-expected :
        (enc dec : TemporalCtx) (es : List Event)
        → InLockstep n enc dec
        → 1 < temporal_bound lz w h
        → AreFrames es
        → AreRoomy es
        → play enc dec es ≡ expected enc.mode es
    unfolding play receives temporal_reset advance expected
    play-expected enc dec [] s b f r = refl
    play-expected enc dec (frames allocated src dst_cap ∷ es) s b f r =
        let room = encode-ne-none enc dec src dst_cap s f.0 b r.1 r.2 in
        elim (encode-cases allocated enc dec src dst_cap s f.0) [
          | inl nothing ↦ absurd (
              room (
                sym (ap (λ a. (temporal_encode lz a enc src w h dst_cap).1) r.0)
                ∙ ap (λ p. p.1) nothing))
          | inr (bytes, e, d) ↦
              let target = target_of enc.mode n src in
              let fits = target_of-IsFrame enc.mode n src f.0 in
              simp (e, d)
                (ap (λ rest. (src, some target) ∷ rest)
                  (play-expected (advance enc target n) (advance dec target n) es
                    (advance-InLockstep lz lossless n enc dec s target fits) b f.1 r.3))
        ]
    play-expected enc dec (resets_encoder ∷ es) s b f r =
        play-expected (temporal_reset enc) dec es (reset_encoder-InLockstep enc dec s) b f r
    play-expected enc dec (resets_decoder ∷ es) s b f r =
        play-expected enc (temporal_reset dec) es (reset_decoder-InLockstep enc dec s) b f r

    -- Through a new encoder and a new decoder of one mode, with any keyframe intervals and with
    -- resets of either in between, every frame comes out as its target: itself, or in the
    -- quantized mode its mild quantization; a decoder that was reset takes deltas as before. The
    -- frames have the contexts' size, below 2^31 bytes, and LZ4 has a bound for them; each has
    -- its memory and a destination of temporal_bound bytes and at most 2^31; and LZ4 is
    -- lossless.
    pub play-create-expected :
        (mode : Mode) (i j : ℕ) (enc dec : TemporalCtx) (es : List Event)
        → temporal_create true true w h mode i ≡ some enc
        → temporal_create true true w h mode j ≡ some dec
        → 1 < temporal_bound lz w h
        → AreFrames es
        → AreRoomy es
        → play enc dec es ≡ expected mode es
    play-create-expected mode i j enc dec es e d b f r =
        let (s, same) = created mode i j enc dec e d in
        play-expected enc dec es s b f r ∙ ap (λ m. expected m es) same
