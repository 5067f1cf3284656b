-- ===== src/Pipe/Failure.antt =====
-- A rectangle that fails on the way, of backport-4.9/gud_pipe.c, and the display.
use gud.Base.{ℕ, ◌==◌, ◌≡◌, refl, ap, ◌∙◌, arith, false, Option, List, length}
use gud.Kernel.{Errno, Ret, success, failure}
use gud.Wire.{SetBufferReq, encode_set_buffer, req_set_buffer}
use gud.Usb.{Usb, Host, control, bulk, set_buffer_loop, bulk_loop, busy_retries, eagain_retries}
use gud.Display.{Display, receive, receive_event}
use gud.Display.Effects.{receive-set_buffer_loop, receive-bulk_loop}
use gud.Pipe.{
  Params, Job, Rectangle, rectangle_request, plan_rectangle, submit_bulk, submit_payload,
  begin_payload, send_planned, send_rectangle,
}

module _ (pitch : ℕ) (decompress : List ℕ → ℕ → Option (List ℕ)) {Env : Type 0}
    (usb : Usb Env) where
  abbrev shown : Host Env → Display → List ℕ
  shown h d = (receive pitch decompress h.log d).pixels

  announced-pixels :
      (body : List ℕ) (ret : Ret) (d : Display)
      → (receive_event pitch decompress (control req_set_buffer body ret) d).pixels ≡ d.pixels
  announced-pixels body success d = refl
  announced-pixels body (failure e) d = refl

  -- A payload that is cut short changes no pixel.
  bulk-pixels :
      (payload : List ℕ) (ret : Ret) (sent : ℕ) (d : Display)
      → (ret ≡ success → (sent == length payload) ≡ false)
      → (receive_event pitch decompress (bulk payload ret sent) d).pixels ≡ d.pixels
  bulk-pixels payload success sent d cut = ground (arith, cut refl)
  bulk-pixels payload (failure e) sent d cut = refl

  submit_bulk-failed :
      (payload : List ℕ) (h : Host Env) (d : Display) (e : Errno)
      → (submit_bulk usb payload h).0 ≡ failure e
      → shown (submit_bulk usb payload h).1 d ≡ shown h d
  unfolding submit_bulk
  submit_bulk-failed payload h d e bad =
      let (ret, sent, h') = bulk_loop usb eagain_retries payload 0 h in
      ground (
        arith,
        ap (λ (s : Display). s.pixels)
            (receive-bulk_loop pitch decompress usb eagain_retries payload 0 h d),
        bulk-pixels payload ret sent (receive pitch decompress h.log d),
      )

  submit_payload-failed :
      (request : SetBufferReq) (payload : List ℕ) (h : Host Env) (d : Display) (e : Errno)
      → (submit_payload usb request payload h).0 ≡ failure e
      → shown (submit_payload usb request payload h).1 d ≡ shown h d
  unfolding submit_payload
  submit_payload-failed request payload h d e bad =
      let body = encode_set_buffer request in
      let (ret, h') = set_buffer_loop usb busy_retries body h in
      let asked =
        ap (λ (s : Display). s.pixels)
          (receive-set_buffer_loop pitch decompress usb busy_retries body h d)
        ∙ announced-pixels body ret (receive pitch decompress h.log d) in
      ground (arith, asked, submit_bulk-failed payload h' d e)

  -- A rectangle that fails changes no pixel.
  pub send_rectangle-failed :
      (lz4 : List ℕ → ℕ → Option (List ℕ)) (params : Params) (job : Job) (offset : ℕ) (h : Host Env)
      (d : Display) (e : Errno)
      → (send_rectangle usb lz4 params job offset h).0 ≡ failure e
      → shown (send_rectangle usb lz4 params job offset h).1 d ≡ shown h d
  unfolding send_rectangle send_planned
  send_rectangle-failed lz4 params job offset h d e bad =
      let r : Rectangle = plan_rectangle lz4 job offset h.gud in
      let begun : Host Env = record h { gud = begin_payload params.bulk_trace_limit h.gud } in
      ground (arith, submit_payload-failed (rectangle_request job offset r) r.payload begun d e)
