-- ===== src/Plain/Update.antt =====
-- gud_pipe_update without the full-update variant, as a whole.
use gud.Base.{
  ℕ, suc, ◌+◌, ◌*◌, ◌/◌, ◌^◌, ◌≤◌, ◌<◌, min, ◌≡◌, ◌≢◌, refl, sym, ap, ◌∙◌, subst, arith, Bool,
  Option, none, some, List, [], ◌∷◌, length, take, drop, inl, inr, ◌==◌, if◌then◌else◌, Bool-cases,
}
use gud.Kernel.{Ret, success, Ret-cases}
use gud.Layout.{
  u32, FrameLayout, format_frame_layout, format_bytes_per_pixel, validate_framebuffer_range,
}
use gud.Layout.Bounds.{IsLayout, format_frame_layout-IsLayout, validate_framebuffer_range_iff}
use gud.Wire.{req_set_controller_enable, req_set_state_commit, req_set_display_enable}
use gud.Usb.{Usb, Host, usb_set}
use gud.Display.{Display, receive}
use gud.Display.Effects.{usb_set-pixels}
use gud.Pipe.Delivery.{sent_up_to}
use gud.Flush.{ScanFb}
use gud.Flush.Coherent.{copied-length, layout-cases}
use gud.Flush.Delivery.{visible}
use gud.Plain.{
  bulk_chunk_size, plain_job, plain_loop, plain_frame, plain_transfer, plain_prepare, plain_update,
}
use gud.Plain.Delivery.{plain_job-IsJob, plain_loop-delivers, plain_loop-ne-none}

module _ {Env : Type 0} (usb : Usb Env) (trace_limit : ℕ) where
  -- Committing the state and enabling the controller and the display change no pixel.
  plain_prepare-pixels :
      (pitch : ℕ) (decompress : List ℕ → ℕ → Option (List ℕ)) (active : Bool) (h : Host Env)
      (d : Display)
      → (receive pitch decompress (plain_prepare usb trace_limit active h).1.log d).pixels
        ≡ (receive pitch decompress h.log d).pixels
  unfolding plain_prepare
  plain_prepare-pixels pitch decompress active h d =
      let h1 = (usb_set usb req_set_state_commit [] h).1 in
      let h2 = (usb_set usb req_set_controller_enable (1 ∷ []) h1).1 in
      let display : ℕ = if active then 1 else 0 in
      ground (
        arith,
        usb_set-pixels pitch decompress usb req_set_state_commit [] h d refl,
        usb_set-pixels pitch decompress usb req_set_controller_enable (1 ∷ []) h1 d refl,
        usb_set-pixels pitch decompress usb req_set_display_enable (display ∷ []) h2 d refl,
      )

  plain_frame-ne-none :
      (allocated : Bool) (fb : ScanFb) (l : FrameLayout) (h : Host Env)
      → IsLayout fb.width fb.height fb.pixel_format l
      → fb.width < 2 ^ 32
      → fb.offset + l.total ≤ length fb.object
      → plain_frame usb trace_limit allocated fb l h ≢ none
  unfolding plain_frame
  plain_frame-ne-none allocated fb l h i w inside =
      elim (Bool-cases (u32 (min h.gud.max_buffer_size bulk_chunk_size / l.bytes_per_line) == 0)) [
        | inl small ↦ ground arith
        | inr room ↦
            let job = plain_job fb l h.gud.max_buffer_size in
            let j = plain_job-IsJob fb l h.gud.max_buffer_size i w inside in
            ground (
              arith,
              plain_loop-ne-none usb trace_limit (suc l.total) 0 fb.height job h j
                  (unfold plain_job in omega (arith, i.total_exact))
                  (unfold plain_job in ground (arith, i.height_pos)) (omega arith)
                  (unfold plain_job in omega arith),
            )
      ]

  plain_transfer-ne-none :
      (vmap : Ret) (allocated : Bool) (fb : ScanFb) (h : Host Env)
      → fb.width < 2 ^ 32
      → plain_transfer usb trace_limit vmap allocated fb h ≢ none
  unfolding plain_transfer
  plain_transfer-ne-none vmap allocated fb h w =
      elim (layout-cases (format_frame_layout fb.width fb.height fb.pixel_format)) [
        | inl (err, bad) ↦ ground arith
        | inr (l, good) ↦
            let i = format_frame_layout-IsLayout fb.width fb.height fb.pixel_format l w good in
            elim (Ret-cases (validate_framebuffer_range fb.offset l.total (length fb.object))) [
              | inr (err, outside) ↦ ground arith
              | inl inside ↦ ground (
                arith,
                plain_frame-ne-none allocated fb l h i w (
                    (validate_framebuffer_range_iff fb.offset l.total (length fb.object)).0 inside),
              )
            ]
      ]

  -- Without the full-update variant too, an update returns a result whatever the USB core
  -- answers: the fuel of the loop is enough, for a framebuffer whose width fits 32 bits.
  pub plain_update-ne-none :
      (active : Bool) (vmap : Ret) (allocated : Bool) (fb : ScanFb) (h : Host Env)
      → fb.width < 2 ^ 32
      → plain_update usb trace_limit active vmap allocated fb h ≢ none
  unfolding plain_update
  plain_update-ne-none active vmap allocated fb h w =
      ground (
        arith,
        plain_transfer-ne-none vmap allocated fb (plain_prepare usb trace_limit active h).1 w,
      )

  module _ (decompress : List ℕ → ℕ → Option (List ℕ)) where
    plain_frame-delivers :
        (allocated : Bool) (fb : ScanFb) (l : FrameLayout) (h : Host Env) (before : Display)
        (h' : Host Env)
        → IsLayout fb.width fb.height fb.pixel_format l
        → fb.width < 2 ^ 32
        → fb.offset + l.total ≤ length fb.object
        → length (receive l.bytes_per_line decompress h.log before).pixels ≡ l.total
        → plain_frame usb trace_limit allocated fb l h ≡ some (success, h')
        → (receive l.bytes_per_line decompress h'.log before).pixels
          ≡ take l.total (drop fb.offset fb.object)
    unfolding plain_frame plain_job
    plain_frame-delivers allocated fb l h before h' i w inside s run =
        let job = plain_job fb l h.gud.max_buffer_size in
        let j = plain_job-IsJob fb l h.gud.max_buffer_size i w inside in
        let old : List ℕ = (receive l.bytes_per_line decompress h.log before).pixels in
        let start : 0 ≡ 0 * l.bytes_per_line = omega arith in
        plain_loop-delivers usb trace_limit decompress job j before old
          (s ∙ sym (copied-length fb l.total inside)) (suc l.total) 0 h h' (omega arith)
          (ap (λ n. sent_up_to n job.source old) start)
          (ap (λ n. plain_loop usb trace_limit (suc l.total) job n h) (sym start) ∙ ground arith)

    plain_transfer-delivers :
        (vmap : Ret) (allocated : Bool) (fb : ScanFb) (h : Host Env) (before : Display)
        (h' : Host Env)
        → fb.width < 2 ^ 32
        → length
            (receive
              (fb.width * format_bytes_per_pixel fb.pixel_format)
              decompress
              h.log
              before).pixels
          ≡ fb.width * format_bytes_per_pixel fb.pixel_format * fb.height
        → plain_transfer usb trace_limit vmap allocated fb h ≡ some (success, h')
        → (receive
            (fb.width * format_bytes_per_pixel fb.pixel_format)
            decompress
            h'.log
            before).pixels
          ≡ visible fb
    unfolding plain_transfer
    plain_transfer-delivers vmap allocated fb h before h' w s run =
        elim (layout-cases (format_frame_layout fb.width fb.height fb.pixel_format)) [
          | inl (err, bad) ↦ absurd (ground arith)
          | inr (l, good) ↦
              let i = format_frame_layout-IsLayout fb.width fb.height fb.pixel_format l w good in
              let whole : l.total ≡ fb.width * format_bytes_per_pixel fb.pixel_format * fb.height =
                ground (arith, i.line_exact, i.total_exact) in
              elim (Ret-cases (validate_framebuffer_range fb.offset l.total (length fb.object))) [
                | inr (err, outside) ↦ absurd (ground arith)
                | inl inside ↦
                    subst
                      (λ pitch.
                        (receive pitch decompress h'.log before).pixels
                        ≡ take l.total (drop fb.offset fb.object))
                      i.line_exact
                      (plain_frame-delivers allocated fb l h before h' i w
                        ((validate_framebuffer_range_iff fb.offset l.total (length fb.object)).0
                          inside)
                        (subst
                          (λ pitch. length (receive pitch decompress h.log before).pixels ≡ l.total)
                          (sym i.line_exact) (s ∙ sym whole))
                        (ground arith))
                    ∙ ap (λ n. take n (drop fb.offset fb.object)) whole
              ]
        ]

    -- Without the full-update variant, an update that returns 0 leaves the bytes of the
    -- framebuffer on the display, sent by whole rows without compression. The width fits 32 bits
    -- and the display had as many bytes as the frame.
    pub plain_update-delivers :
        (active : Bool) (vmap : Ret) (allocated : Bool) (fb : ScanFb) (h : Host Env)
        (before : Display) (h' : Host Env)
        → fb.width < 2 ^ 32
        → length
            (receive
              (fb.width * format_bytes_per_pixel fb.pixel_format)
              decompress
              h.log
              before).pixels
          ≡ fb.width * format_bytes_per_pixel fb.pixel_format * fb.height
        → plain_update usb trace_limit active vmap allocated fb h ≡ some (success, h')
        → (receive
            (fb.width * format_bytes_per_pixel fb.pixel_format)
            decompress
            h'.log
            before).pixels
          ≡ visible fb
    unfolding plain_update
    plain_update-delivers active vmap allocated fb h before h' w s run =
        let pitch = fb.width * format_bytes_per_pixel fb.pixel_format in
        let kept =
          ap (λ pixels. length pixels) (plain_prepare-pixels pitch decompress active h before) in
        plain_transfer-delivers vmap allocated fb (plain_prepare usb trace_limit active h).1 before
          h' w (kept ∙ s) (ground arith)
