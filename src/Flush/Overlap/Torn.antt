-- ===== src/Flush/Overlap/Torn.antt =====
-- What an overlapped run of the worker leaves on the display.
use gud.Base.{
  ℕ, ◌+◌, ◌*◌, ◌^◌, ◌≤◌, ◌<◌, ◌≡◌, refl, sym, ap, ◌∙◌, subst, arith, Option, some, List, [], ◌∷◌,
  length, take, drop, ltb, Bool-cases, inl, inr, ◌⊎◌,
}
use gud.Kernel.{Errno, success, failure, Ret-cases}
use gud.Layout.{FrameLayout, format_frame_layout, layout}
use gud.Layout.Bounds.{IsLayout, format_frame_layout-IsLayout}
use gud.Usb.{Usb, Host}
use gud.Display.{Display, receive, splice}
use gud.Pipe.{Params, frame_job, plan_rectangle, send_rectangle}
use gud.Pipe.Step.{IsLz4, chunk_of, send_rectangle-writes, plan_rectangle-IsPlanned}
use gud.Pipe.Failure.{send_rectangle-failed}
use gud.Pipe.Delivery.{line_step}
use gud.Pipe.Frame.{frame_job-IsJob}
use gud.Flush.{ScanFb, async_init, queue_damage, take_work}
use gud.Flush.Work.{frame_of, Call, flush_run}
use gud.Flush.Delivery.{visible}
use gud.Flush.Run.{flush_run-async_init-IsCoherent}
use gud.Flush.Overlap.{
  Progress, at_offset, ended, past_shadow, Beat, rectangle, queueing, Moment, read_rectangle,
  continue, beat, beats,
}
use gud.Flush.Overlap.Shadow.{IsShadow, queue_damage-IsShadow, IsCoherent-IsShadow}

-- Up to `offset` the pixels were written over in order, each piece with the bytes that a frame with
-- the property has at that place.
pub data IsPatched (F : List ℕ → Type 0) (old : List ℕ) : ℕ → List ℕ → Type 0 where
  untouched : IsPatched F old 0 old
  patched :
      (offset n : ℕ) (frame pixels : List ℕ)
      → IsPatched F old offset pixels
      → F frame
      → IsPatched F old (offset + n) (splice offset (take n (drop offset frame)) pixels)

-- At an offset of whole rows the pixels are patched up to it; a worker that ended well has patched
-- the whole frame, one that failed has patched some of its rows and nothing else; and the worker
-- does not read past the shadow buffer.
unfoldable pub IsSound : (List ℕ → Type 0) → FrameLayout → List ℕ → Progress → List ℕ → Type 0
IsSound F l old (at_offset offset) pixels =
    (k : ℕ) × (offset ≡ k * l.bytes_per_line) × (offset ≤ l.total) × IsPatched F old offset pixels
IsSound F l old (ended success) pixels = IsPatched F old l.total pixels
IsSound F l old (ended (failure e)) pixels =
    (offset : ℕ) × (k : ℕ) × (offset ≡ k * l.bytes_per_line)
    × (offset ≤ l.total)
    × IsPatched F old offset pixels
IsSound F l old past_shadow pixels = ⊥

-- The frames that the queueings bring have the property.
unfoldable pub AllQueued : (List ℕ → Type 0) → List Beat → Type 0
AllQueued F [] = Unit
AllQueued F (rectangle ∷ rest) = AllQueued F rest
AllQueued F (queueing vmap allocated fb ∷ rest) =
    F (visible fb) × (fb.width < 2 ^ 32) × AllQueued F rest

module _ (lz4 decompress : List ℕ → ℕ → Option (List ℕ)) (law : IsLz4 lz4 decompress) {Env : Type 0}
    (usb : Usb Env) (params : Params) (fb : ScanFb) (l : FrameLayout) (limit : ℕ) where
  -- A round within the shadow buffer finds the frame sent, fails, or moves on by what it sent.
  read_rectangle-cases :
      (bytes : List ℕ) (offset : ℕ) (h : Host Env)
      → let job = frame_job (frame_of fb bytes) l limit in
        let next = offset + (plan_rectangle lz4 job offset h.gud).source_length in
        let (progress, h') = read_rectangle usb lz4 params fb l limit (some bytes) offset h in
        (next ≤ length bytes
          → ((progress ≡ ended success) × (h' ≡ h) × (l.total ≤ offset))
            ⊎ ((e : Errno) × (progress ≡ ended (failure e))
                × (h' ≡ (send_rectangle usb lz4 params job offset h).1)
                × ((send_rectangle usb lz4 params job offset h).0 ≡ failure e))
            ⊎ (progress ≡ at_offset next)
              × (h' ≡ (send_rectangle usb lz4 params job offset h).1)
              × ((send_rectangle usb lz4 params job offset h).0 ≡ success))
  unfolding read_rectangle
  read_rectangle-cases bytes offset h fits =
      let job = frame_job (frame_of fb bytes) l limit in
      elim (Bool-cases (ltb offset l.total)) [
        | inr done ↦ inl (ground arith, ground arith, ground arith)
        | inl more ↦ elim (Ret-cases (send_rectangle usb lz4 params job offset h).0) [
          | inr (e, bad) ↦ inr (inl (e, ground arith, ground arith, bad))
          | inl fine ↦ inr (inr (ground arith, ground arith, fine))
        ]
      ]

  module _ (F : List ℕ → Type 0) (i : IsLayout fb.width fb.height fb.pixel_format l)
      (w : fb.width < 2 ^ 32) (before : Display) (old : List ℕ) where
    abbrev shown : Host Env → List ℕ
    shown h = (receive l.bytes_per_line decompress h.log before).pixels

    read_rectangle-IsSound :
        (bytes : List ℕ) (k : ℕ) (h : Host Env)
        → length bytes ≡ l.total
        → F bytes
        → k * l.bytes_per_line ≤ l.total
        → IsPatched F old (k * l.bytes_per_line) (shown h)
        → let (progress, h') =
            read_rectangle usb lz4 params fb l limit (some bytes) (k * l.bytes_per_line) h in
          IsSound F l old progress (shown h')
    unfolding frame_of frame_job IsSound
    read_rectangle-IsSound bytes k h size source inside so_far =
        let offset : ℕ = k * l.bytes_per_line in
        let job = frame_job (frame_of fb bytes) l limit in
        let j = frame_job-IsJob (frame_of fb bytes) l limit i w size in
        let r = plan_rectangle lz4 job offset h.gud in
        let p = plan_rectangle-IsPlanned lz4 decompress law job offset h.gud j inside in
        let (progress, h') = read_rectangle usb lz4 params fb l limit (some bytes) offset h in
        elim (read_rectangle-cases bytes offset h (omega (arith, p.within, size))) [
          | inl (stops, same, all) ↦
              let whole : offset ≡ l.total = omega arith in
              subst (λ q. IsSound F l old q (shown h')) (sym stops)
                (subst (λ o. IsPatched F old o (shown h')) whole
                  (subst (IsPatched F old offset) (sym (ap shown same)) so_far))
          | inr (inl (e, stops, same, bad)) ↦
              let kept : shown h' ≡ shown h =
                ap shown same
                ∙ send_rectangle-failed l.bytes_per_line decompress usb lz4 params job offset h
                    before e bad in
              subst (λ q. IsSound F l old q (shown h')) (sym stops)
                (offset, k, refl, inside, subst (IsPatched F old offset) (sym kept) so_far)
          | inr (inr (goes, same, ok)) ↦
              let written : shown h'
                  ≡ splice offset (chunk_of job offset r.source_length) (shown h) =
                ap shown same
                ∙ ap (λ (d : Display). d.pixels)
                    (send_rectangle-writes lz4 decompress law usb params job j k h before inside
                      ok) in
              let next : offset + r.source_length ≡ (k + r.rows) * l.bytes_per_line =
                omega (arith, p.whole_rows, line_step k r.rows l.bytes_per_line) in
              subst (λ q. IsSound F l old q (shown h')) (sym goes)
                (
                  k + r.rows,
                  next,
                  p.within,
                  subst (λ pixels. IsPatched F old (offset + r.source_length) pixels) (sym written)
                      (patched offset r.source_length bytes (shown h) so_far source),
                )
        ]

    continue-IsSound :
        (progress : Progress) (s : Moment Env)
        → IsShadow F l.total s.async
        → IsSound F l old progress (shown s.host)
        → s.progress ≡ progress
        → IsSound F l old
            (continue usb lz4 params fb l limit progress s).progress
            (shown (continue usb lz4 params fb l limit progress s).host)
    unfolding continue IsSound
    continue-IsSound (ended ret) s held sound e =
        subst (λ q. IsSound F l old q (shown s.host)) (sym e) sound
    continue-IsSound past_shadow s held sound e = absurd sound
    continue-IsSound (at_offset offset) s held (k, rows, inside, so_far) e =
        subst
          (λ o.
            let (progress, h') =
              read_rectangle usb lz4 params fb l limit s.async.shadow_buf o s.host in
            IsSound F l old progress (shown h'))
          (sym rows)
          (subst
            (λ b.
              let (progress, h') =
                read_rectangle usb lz4 params fb l limit b (k * l.bytes_per_line) s.host in
              IsSound F l old progress (shown h'))
            (sym held.held)
            (read_rectangle-IsSound held.bytes k s.host held.size held.source
              (subst (λ o. o ≤ l.total) rows inside)
              (subst (λ o. IsPatched F old o (shown s.host)) rows so_far)))

    continue-async :
        (progress : Progress) (s : Moment Env)
        → (continue usb lz4 params fb l limit progress s).async ≡ s.async
    unfolding continue
    continue-async (ended ret) s = refl
    continue-async past_shadow s = refl
    continue-async (at_offset offset) s = refl

    beats_from-IsSound :
        (bs : List Beat) (s : Moment Env)
        → AllQueued F bs
        → IsShadow F l.total s.async
        → IsSound F l old s.progress (shown s.host)
        → IsSound F l old
            (beats usb lz4 params fb l limit bs s).progress
            (shown (beats usb lz4 params fb l limit bs s).host)
    unfolding beats beat AllQueued
    beats_from-IsSound [] s all held sound = sound
    beats_from-IsSound (rectangle ∷ rest) s all held sound =
        beats_from-IsSound rest (continue usb lz4 params fb l limit s.progress s) all
          (subst (λ b. IsShadow F l.total b) (sym (continue-async s.progress s)) held)
          (continue-IsSound s.progress s held sound refl)
    beats_from-IsSound (queueing vmap allocated other ∷ rest) s (source, fits, all) held sound =
        beats_from-IsSound rest (record s { async = (queue_damage vmap allocated other s.async).1 })
          all (queue_damage-IsShadow F l.total vmap allocated other s.async fits source held) sound

module _ (lz4 decompress : List ℕ → ℕ → Option (List ℕ)) (law : IsLz4 lz4 decompress) {Env : Type 0}
    (usb : Usb Env) (params : Params) where
  -- While the worker sends a frame that calls from the initial state left pending, and any
  -- queueings come between its rectangles, it never reads past the shadow buffer, and up to the
  -- rows that it has sent the display was written over in order with pieces of the first frame
  -- or of frames queued since, each at its own place (`F` is any property of all of these
  -- frames). Once it has ended with 0 that holds of the whole frame, and after a failure the
  -- display is as the rectangles before left it. The widths fit 32 bits, the frame has the
  -- layout, and the compressor's blocks unpack to their source.
  pub beats-IsSound :
      (F : List ℕ → Type 0) (calls : List Call) (h0 h : Host Env) (fb : ScanFb) (l : FrameLayout)
      (limit : ℕ) (bytes : List ℕ) (bs : List Beat) (before : Display)
      → fb.width < 2 ^ 32
      → (flush_run usb lz4 params calls (async_init, h0)).0.async_fb ≡ some fb
      → format_frame_layout fb.width fb.height fb.pixel_format ≡ layout l
      → (flush_run usb lz4 params calls (async_init, h0)).0.shadow_buf ≡ some bytes
      → F bytes
      → AllQueued F bs
      → let start : Moment Env = record {
        async = take_work (flush_run usb lz4 params calls (async_init, h0)).0;
        progress = at_offset 0;
        host = h;
      } in
        let end = beats usb lz4 params fb l limit bs start in
        IsSound F l
          (receive l.bytes_per_line decompress h.log before).pixels
          end.progress
          (receive l.bytes_per_line decompress end.host.log before).pixels
  unfolding IsSound
  beats-IsSound F calls h0 h fb l limit bytes bs before w pending good held source all =
      let a = (flush_run usb lz4 params calls (async_init, h0)).0 in
      let c = flush_run-async_init-IsCoherent usb lz4 params calls h0 in
      let i = format_frame_layout-IsLayout fb.width fb.height fb.pixel_format l w good in
      beats_from-IsSound lz4 decompress law usb params fb l limit F i w before
        (receive l.bytes_per_line decompress h.log before).pixels bs
        (record { async = take_work a; progress = at_offset 0; host = h }) all
        (IsCoherent-IsShadow F a fb l bytes c pending good held source)
        (0, omega arith, omega arith, untouched)
