-- ===== src/Flush/Update.antt =====
-- What the atomic update does: the synchronous path, and a queueing that has no memory.
use gud.Base.{
  ℕ, ◌*◌, ◌^◌, ◌<◌, ◌≡◌, ◌≢◌, refl, sym, ap, ◌∙◌, subst, arith, Bool, true, false, ◌||◌, Option,
  none, some, List, [], ◌∷◌, length, take, drop, Option-cases, Bool-cases, inl, inr, if◌then◌else◌,
}
use gud.Kernel.{Ret-cases, Ret, success, failure, enomem, is_success, is_enomem}
use gud.Layout.{format_bytes_per_pixel}
use gud.Layout.Bounds.{format_frame_layout-IsLayout}
use gud.Usb.{Usb, Host, usb_set}
use gud.Wire.{req_set_controller_enable, req_set_state_commit, req_set_display_enable}
use gud.Display.{Display, receive}
use gud.Display.Effects.{usb_set-pixels}
use gud.Pipe.{Params, transfer_buffer}
use gud.Pipe.Step.{IsLz4}
use gud.Pipe.Frame.{transfer_buffer-delivers}
use gud.Pipe.Totality.{transfer_buffer-ne-none}
use gud.Flush.{ScanFb, Async, map_frame, queue_damage}
use gud.Flush.Work.{
  Crtc, frame_of, transfer_xdisp, prepare_update, transfer_if_ok, update_frame, pipe_update,
}
use gud.Flush.Coherent.{map_frame-success, copied-length, queue_damage-cases}
use gud.Flush.Delivery.{visible}

module _ (pitch : ℕ) (decompress : List ℕ → ℕ → Option (List ℕ)) {Env : Type 0}
    (usb : Usb Env) where
  -- Enabling the controller, committing the state and enabling the display change no pixel.
  prepare_update-pixels :
      (enable : Bool) (h : Host Env) (d : Display)
      → (receive pitch decompress (prepare_update usb enable h).1.log d).pixels
        ≡ (receive pitch decompress h.log d).pixels
  unfolding prepare_update
  prepare_update-pixels enable h d =
      let h1 = (usb_set usb req_set_controller_enable (1 ∷ []) h).1 in
      let h2 = (usb_set usb req_set_state_commit [] h1).1 in
      let display : ℕ = if enable then 1 else 0 in
      ground (
        arith,
        usb_set-pixels pitch decompress usb req_set_controller_enable (1 ∷ []) h d refl,
        usb_set-pixels pitch decompress usb req_set_state_commit [] h1 d refl,
        usb_set-pixels pitch decompress usb req_set_display_enable (display ∷ []) h2 d refl,
      )

module _ (lz4 : List ℕ → ℕ → Option (List ℕ)) {Env : Type 0} (usb : Usb Env) (params : Params) where
  transfer_xdisp-ne-none :
      (vmap : Ret) (fb : ScanFb) (h : Host Env) → transfer_xdisp usb lz4 params vmap fb h ≢ none
  unfolding transfer_xdisp
  transfer_xdisp-ne-none vmap fb h = grind (arith, transfer_buffer-ne-none)

  transfer_if_ok-ne-none :
      (ret vmap : Ret) (fb : ScanFb) (a : Async) (h : Host Env)
      → transfer_if_ok usb lz4 params ret vmap fb a h ≢ none
  unfolding transfer_if_ok
  transfer_if_ok-ne-none (failure e) vmap fb a h = ground arith
  transfer_if_ok-ne-none success vmap fb a h = ground (arith, transfer_xdisp-ne-none vmap fb h)

  update_frame-ne-none :
      (async_flush : Bool) (vmap : Ret) (allocated : Bool) (fb : ScanFb) (a : Async) (ret : Ret)
      (h : Host Env)
      → update_frame usb lz4 params async_flush vmap allocated fb a ret h ≢ none
  unfolding update_frame
  update_frame-ne-none async_flush vmap allocated fb a ret h = ground (
    arith,
    transfer_if_ok-ne-none ret vmap fb a h,
    transfer_if_ok-ne-none (queue_damage vmap allocated fb a).0 vmap fb
        (queue_damage vmap allocated fb a).1 h,
  )

  -- An update returns a result, whatever the parameters, the CRTC and the USB core are.
  pipe_update-ne-none :
      (async_flush : Bool) (crtc : Crtc) (vmap : Ret) (allocated : Bool) (fb : Option ScanFb)
      (a : Async) (h : Host Env)
      → pipe_update usb lz4 params async_flush crtc vmap allocated fb a h ≢ none
  unfolding pipe_update
  pipe_update-ne-none async_flush crtc vmap allocated none a h = ground arith
  pipe_update-ne-none async_flush crtc vmap allocated (some fb) a h = ground (
    arith,
    update_frame-ne-none async_flush vmap allocated fb a (prepare_update usb crtc.active h).0
        (prepare_update usb crtc.active h).1,
    update_frame-ne-none async_flush vmap allocated fb a success h,
  )

  update_frame-enomem :
      (vmap : Ret) (fb : ScanFb) (a : Async) (h : Host Env)
      → (queue_damage vmap false fb a).0 ≡ failure enomem
      → update_frame usb lz4 params true vmap false fb a success h ≡ some (failure enomem, a, h)
  unfolding update_frame transfer_if_ok is_success is_enomem
  update_frame-enomem vmap fb a h refused = elim (queue_damage-cases vmap false fb a) [
    | inl (failed, same) ↦ ground arith
    | inr (l, good, inside, running, done, copied) ↦ absurd (ground arith)
  ]

  -- Where queueing a flip, which changes neither the mode nor the activity, finds no memory for
  -- the shadow buffer, the update ends with -ENOMEM: the frame is neither queued nor
  -- transferred, and no request reaches the display.
  pub pipe_update-enomem :
      (crtc : Crtc) (vmap : Ret) (fb : ScanFb) (a : Async) (h : Host Env)
      → crtc.mode_changed ≡ false
      → crtc.active_changed ≡ false
      → (queue_damage vmap false fb a).0 ≡ failure enomem
      → pipe_update usb lz4 params true crtc vmap false (some fb) a h ≡ some (failure enomem, a, h)
  unfolding pipe_update
  pipe_update-enomem crtc vmap fb a h same_mode same_active refused =
      ground (arith, update_frame-enomem vmap fb a h refused)

module _ (lz4 : List ℕ → ℕ → Option (List ℕ)) (decompress : List ℕ → ℕ → Option (List ℕ))
    (law : IsLz4 lz4 decompress) {Env : Type 0} (usb : Usb Env) (params : Params) where
  transfer_xdisp-delivers :
      (vmap : Ret) (fb : ScanFb) (h : Host Env) (before : Display) (h' : Host Env)
      → params.probe_payload_length ≡ 0
      → fb.width < 2 ^ 32
      → length
          (receive
            (fb.width * format_bytes_per_pixel fb.pixel_format)
            decompress
            h.log
            before).pixels
        ≡ fb.width * format_bytes_per_pixel fb.pixel_format * fb.height
      → transfer_xdisp usb lz4 params vmap fb h ≡ some (success, h')
      → (receive
          (fb.width * format_bytes_per_pixel fb.pixel_format)
          decompress
          h'.log
          before).pixels
        ≡ visible fb
  unfolding transfer_xdisp frame_of
  transfer_xdisp-delivers vmap fb h before h' no_probe w s run =
      elim (Ret-cases (map_frame vmap fb).0) [
        | inr (err, bad) ↦ absurd (ground arith)
        | inl fine ↦
            let (l, good, total, inside) = map_frame-success vmap fb fine in
            let i = format_frame_layout-IsLayout fb.width fb.height fb.pixel_format l w good in
            let whole : (map_frame vmap fb).1
                ≡ fb.width * format_bytes_per_pixel fb.pixel_format * fb.height =
              ground (arith, i.line_exact, i.total_exact) in
            let bytes = take (map_frame vmap fb).1 (drop fb.offset fb.object) in
            let same : bytes ≡ visible fb = ap (λ n. take n (drop fb.offset fb.object)) whole in
            let size : length bytes ≡ (map_frame vmap fb).1 =
              subst (λ n. length (take n (drop fb.offset fb.object)) ≡ n) (sym total)
                (copied-length fb l.total inside) in
            elim (Option-cases (transfer_buffer usb lz4 params (frame_of fb bytes) h)) [
              | inl out ↦ absurd (ground arith)
              | inr ((ret, stats, after), ends) ↦
                  transfer_buffer-delivers lz4 decompress law usb params (frame_of fb bytes) h
                    before stats h' no_probe w (size ∙ whole) (s ∙ sym (size ∙ whole))
                    (ground arith)
                  ∙ same
            ]
      ]

  update_frame-delivers :
      (vmap : Ret) (allocated : Bool) (fb : ScanFb) (a b : Async) (ret : Ret) (h : Host Env)
      (before : Display) (h' : Host Env)
      → params.probe_payload_length ≡ 0
      → fb.width < 2 ^ 32
      → length
          (receive
            (fb.width * format_bytes_per_pixel fb.pixel_format)
            decompress
            h.log
            before).pixels
        ≡ fb.width * format_bytes_per_pixel fb.pixel_format * fb.height
      → update_frame usb lz4 params false vmap allocated fb a ret h ≡ some (success, b, h')
      → (receive
          (fb.width * format_bytes_per_pixel fb.pixel_format)
          decompress
          h'.log
          before).pixels
        ≡ visible fb
  unfolding update_frame transfer_if_ok
  update_frame-delivers vmap allocated fb a b (failure e) h before h' no_probe w s run =
      ground arith
  update_frame-delivers vmap allocated fb a b success h before h' no_probe w s run =
      elim (Option-cases (transfer_xdisp usb lz4 params vmap fb h)) [
        | inl out ↦ absurd (ground arith)
        | inr ((result, after), ends) ↦
            transfer_xdisp-delivers vmap fb h before h' no_probe w s (ground arith)
      ]

  -- With asynchronous flushing off, an update that returns 0 leaves the bytes of the framebuffer
  -- on the display, whether or not it had to commit a mode first. Probing is off, the width fits
  -- 32 bits, the display had as many bytes as the frame, and the compressor's blocks unpack to
  -- their source.
  pub pipe_update-delivers :
      (crtc : Crtc) (vmap : Ret) (allocated : Bool) (fb : ScanFb) (a b : Async) (h : Host Env)
      (before : Display) (h' : Host Env)
      → params.probe_payload_length ≡ 0
      → fb.width < 2 ^ 32
      → length
          (receive
            (fb.width * format_bytes_per_pixel fb.pixel_format)
            decompress
            h.log
            before).pixels
        ≡ fb.width * format_bytes_per_pixel fb.pixel_format * fb.height
      → pipe_update usb lz4 params false crtc vmap allocated (some fb) a h ≡ some (success, b, h')
      → (receive
          (fb.width * format_bytes_per_pixel fb.pixel_format)
          decompress
          h'.log
          before).pixels
        ≡ visible fb
  unfolding pipe_update
  pipe_update-delivers crtc vmap allocated fb a b h before h' no_probe w s run =
      let (ret, h1) = prepare_update usb crtc.active h in
      let pitch = fb.width * format_bytes_per_pixel fb.pixel_format in
      let kept =
        ap (λ pixels. length pixels)
          (prepare_update-pixels pitch decompress usb crtc.active h before) in
      elim (Bool-cases (crtc.mode_changed || crtc.active_changed)) [
        | inl modeset ↦
            update_frame-delivers vmap allocated fb a b ret h1 before h' no_probe w (kept ∙ s)
              (ground arith)
        | inr flip ↦
            update_frame-delivers vmap allocated fb a b success h before h' no_probe w s
              (ground arith)
      ]
