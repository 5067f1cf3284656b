-- ===== src/Pipe/Frame.antt =====
-- gud_pipe_transfer_xdisp_buffer as a whole.
use gud.Base.{
  ℕ, suc, ◌*◌, ◌^◌, ◌<◌, ◌≡◌, refl, sym, ◌⊎◌, inl, inr, ◌∙◌, ap, arith, Option, some, List, length,
}
use gud.Kernel.{Errno, success}
use gud.Layout.{
  FrameLayout, LayoutResult, format_frame_layout, format_bytes_per_pixel, layout, no_layout,
}
use gud.Layout.Bounds.{IsLayout, format_frame_layout-IsLayout}
use gud.Display.{Display, receive}
use gud.Usb.{Usb, Host}
use gud.Pipe.{
  Params, Stats, Framebuffer, transfer_loop, transfer_frame, transfer_buffer, no_stats, start_frame,
  frame_job,
}
use gud.Pipe.Step.{IsLz4, IsJob}
use gud.Pipe.Delivery.{transfer_loop-delivers, sent_up_to}

LayoutResult-cases :
    (r : LayoutResult) → ((l : FrameLayout) × (r ≡ layout l)) ⊎ ((e : Errno) × (r ≡ no_layout e))
LayoutResult-cases (layout l) = inl (l, refl)
LayoutResult-cases (no_layout e) = inr (e, refl)

pub frame_job-IsJob :
    (fb : Framebuffer) (l : FrameLayout) (limit : ℕ)
    → IsLayout fb.width fb.height fb.pixel_format l
    → fb.width < 2 ^ 32
    → length fb.pixels ≡ l.total
    → IsJob (frame_job fb l limit)
unfolding frame_job
frame_job-IsJob fb l limit i w e = omega (arith, i.total_fits, i.line_pos)

module _ (lz4 : List ℕ → ℕ → Option (List ℕ)) (decompress : List ℕ → ℕ → Option (List ℕ))
    (law : IsLz4 lz4 decompress) {Env : Type 0} (usb : Usb Env) (params : Params) where
  transfer_frame-delivers :
      (fb : Framebuffer) (l : FrameLayout) (h : Host Env) (before : Display) (stats : Stats)
      (h' : Host Env)
      → IsLayout fb.width fb.height fb.pixel_format l
      → fb.width < 2 ^ 32
      → length fb.pixels ≡ l.total
      → length (receive l.bytes_per_line decompress h.log before).pixels ≡ l.total
      → transfer_frame usb lz4 params fb l h ≡ some (success, stats, h')
      → (receive l.bytes_per_line decompress h'.log before).pixels ≡ fb.pixels
  unfolding transfer_frame start_frame frame_job
  transfer_frame-delivers fb l h before stats h' i w e s run =
      let job = frame_job fb l h.gud.xdisp_max_source_length in
      let j = frame_job-IsJob fb l h.gud.xdisp_max_source_length i w e in
      let old : List ℕ = (receive l.bytes_per_line decompress h.log before).pixels in
      let start : 0 ≡ 0 * l.bytes_per_line = omega arith in
      transfer_loop-delivers lz4 decompress law usb params job j before old (s ∙ sym e)
        (suc l.total) 0 no_stats (start_frame h) stats h' (omega arith)
        (ap (λ n. sent_up_to n fb.pixels old) start)
        (ap (λ n. transfer_loop usb lz4 params (suc l.total) job n no_stats (start_frame h))
            (sym start)
          ∙ ground arith)

  -- If a transfer returns 0, the display holds the framebuffer byte for byte, however often a
  -- request was rejected as busy or a payload was submitted again, and whichever payloads were
  -- compressed. Probing is off, the width fits 32 bits, the frame is wholly mapped and the
  -- display had as many bytes before; the compressor's blocks unpack to their source.
  pub transfer_buffer-delivers :
      (fb : Framebuffer) (h : Host Env) (before : Display) (stats : Stats) (h' : Host Env)
      → params.probe_payload_length ≡ 0
      → fb.width < 2 ^ 32
      → length fb.pixels ≡ fb.width * format_bytes_per_pixel fb.pixel_format * fb.height
      → length
          (receive
            (fb.width * format_bytes_per_pixel fb.pixel_format)
            decompress
            h.log
            before).pixels
        ≡ length fb.pixels
      → transfer_buffer usb lz4 params fb h ≡ some (success, stats, h')
      → (receive
          (fb.width * format_bytes_per_pixel fb.pixel_format)
          decompress
          h'.log
          before).pixels
        ≡ fb.pixels
  unfolding transfer_buffer
  transfer_buffer-delivers fb h before stats h' no_probe w e s run =
      elim (LayoutResult-cases (format_frame_layout fb.width fb.height fb.pixel_format)) [
        | inl (l, is_layout) ↦
            let i = format_frame_layout-IsLayout fb.width fb.height fb.pixel_format l w is_layout in
            let whole : length fb.pixels ≡ l.total = ground (arith, i.line_exact, i.total_exact) in
            rw (← i.line_exact) (
              transfer_frame-delivers fb l h before stats h' i w whole (rw i.line_exact (s ∙ whole))
                (ground arith))
        | inr (err, refused) ↦ ground arith
      ]
