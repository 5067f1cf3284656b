-- ===== src/Flush/Delivery.antt =====
-- A queued or synchronous frame reaches the display as it was at the copy.
use gud.Base.{
  ℕ, ◌*◌, ◌^◌, ◌<◌, ◌≡◌, sym, ap, ◌∙◌, subst, arith, Bool, Option, some, List, length, take, drop,
  Option-cases, inl, inr,
}
use gud.Kernel.{Ret, success}
use gud.Layout.{format_bytes_per_pixel, FrameLayout}
use gud.Layout.Bounds.{IsLayout, format_frame_layout-IsLayout}
use gud.Usb.{Usb, Host}
use gud.Display.{Display, receive}
use gud.Pipe.{Params, transfer_buffer}
use gud.Pipe.Step.{IsLz4}
use gud.Pipe.Frame.{transfer_buffer-delivers}
use gud.Flush.{ScanFb, Async, queue_damage, copy_frame}
use gud.Flush.Work.{flushed, frame_of, flush_transfer, flush_work}
use gud.Flush.Coherent.{copied-length, queue_damage-cases, replace-async_fb}

-- The bytes of the frame in its object.
abbrev pub visible : ScanFb → List ℕ
visible fb =
    take (fb.width * format_bytes_per_pixel fb.pixel_format * fb.height) (drop fb.offset fb.object)

pub copy_frame-visible :
    (fb : ScanFb) (l : FrameLayout) (a : Async)
    → IsLayout fb.width fb.height fb.pixel_format l
    → ((copy_frame fb l.total a).async_fb ≡ some fb)
      × ((copy_frame fb l.total a).shadow_buf ≡ some (visible fb))
unfolding copy_frame
copy_frame-visible fb l a i = (
  replace-async_fb fb a,
  ap (λ n. some (take n (drop fb.offset fb.object))) (ground (arith, i.line_exact, i.total_exact)),
)

queue_damage-visible :
    (vmap : Ret) (allocated : Bool) (fb : ScanFb) (a b : Async)
    → fb.width < 2 ^ 32
    → queue_damage vmap allocated fb a ≡ (success, b)
    → (b.async_fb ≡ some fb)
      × (b.shadow_buf ≡ some (visible fb))
      × (length (visible fb) ≡ fb.width * format_bytes_per_pixel fb.pixel_format * fb.height)
queue_damage-visible vmap allocated fb a b w queued =
    elim (queue_damage-cases vmap allocated fb a) [
      | inl (refused, same) ↦ absurd (refused (ap (λ p. p.0) queued))
      | inr (l, good, inside, running, done, copied) ↦
          let i = format_frame_layout-IsLayout fb.width fb.height fb.pixel_format l w good in
          let whole : l.total ≡ fb.width * format_bytes_per_pixel fb.pixel_format * fb.height =
            ground (arith, i.line_exact, i.total_exact) in
          let is_b : copy_frame fb l.total a ≡ b = sym copied ∙ ap (λ p. p.1) queued in
          let (pending, shadow) =
            subst (λ c. (c.async_fb ≡ some fb) × (c.shadow_buf ≡ some (visible fb))) is_b
              (copy_frame-visible fb l a i) in
          (
            pending,
            shadow,
            subst (λ n. length (take n (drop fb.offset fb.object)) ≡ n) whole
                (copied-length fb l.total inside),
          )
    ]

module _ (lz4 : List ℕ → ℕ → Option (List ℕ)) (decompress : List ℕ → ℕ → Option (List ℕ))
    (law : IsLz4 lz4 decompress) {Env : Type 0} (usb : Usb Env) (params : Params) where
  flush_transfer-delivers :
      (fb : ScanFb) (bytes : List ℕ) (h : Host Env) (before : Display) (h' : Host Env)
      → params.probe_payload_length ≡ 0
      → fb.width < 2 ^ 32
      → length bytes ≡ fb.width * format_bytes_per_pixel fb.pixel_format * fb.height
      → length
          (receive
            (fb.width * format_bytes_per_pixel fb.pixel_format)
            decompress
            h.log
            before).pixels
        ≡ length bytes
      → flush_transfer usb lz4 params (some fb) (some bytes) h ≡ flushed success h'
      → (receive
          (fb.width * format_bytes_per_pixel fb.pixel_format)
          decompress
          h'.log
          before).pixels
        ≡ bytes
  unfolding flush_transfer frame_of
  flush_transfer-delivers fb bytes h before h' no_probe w e s run =
      elim (Option-cases (transfer_buffer usb lz4 params (frame_of fb bytes) h)) [
        | inl out ↦ absurd (ground arith)
        | inr ((ret, stats, after), ends) ↦
            transfer_buffer-delivers lz4 decompress law usb params (frame_of fb bytes) h before
              stats h' no_probe w e s (ground arith)
      ]

  -- If queueing a frame succeeds and the transfer of the worker that runs next returns 0, the
  -- display holds the bytes that the frame had in its object when it was queued, whatever was
  -- pending before. Probing is off, the width fits 32 bits, the display had as many bytes as the
  -- frame, and the compressor's blocks unpack to their source.
  pub queue_damage-flush_work :
      (vmap : Ret) (allocated : Bool) (fb : ScanFb) (a b : Async) (h : Host Env) (before : Display)
      (h' : Host Env)
      → params.probe_payload_length ≡ 0
      → fb.width < 2 ^ 32
      → length
          (receive
            (fb.width * format_bytes_per_pixel fb.pixel_format)
            decompress
            h.log
            before).pixels
        ≡ fb.width * format_bytes_per_pixel fb.pixel_format * fb.height
      → queue_damage vmap allocated fb a ≡ (success, b)
      → (flush_work usb lz4 params b h).1 ≡ flushed success h'
      → (receive
          (fb.width * format_bytes_per_pixel fb.pixel_format)
          decompress
          h'.log
          before).pixels
        ≡ visible fb
  unfolding flush_work
  queue_damage-flush_work vmap allocated fb a b h before h' no_probe w s queued run =
      let (pending, shadow, size) = queue_damage-visible vmap allocated fb a b w queued in
      flush_transfer-delivers fb (visible fb) h before h' no_probe w size (s ∙ sym size)
        (ground arith)
