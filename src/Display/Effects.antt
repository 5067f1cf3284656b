-- ===== src/Display/Effects.antt =====
-- What the transfers of Usb.antt do to a display: a retried loop acts as its last attempt.
use gud.Base.{ℕ, zero, suc, ◌-◌, ◌==◌, ◌≡◌, refl, ap, ◌∙◌, arith, true, false, List, Option}
use gud.Kernel.{Ret, success, failure, is_eagain}
use gud.Wire.{req_set_buffer}
use gud.Usb.{
  Usb, Host, control, bulk, usb_set, usb_bulk_write, set_buffer_loop, bulk_loop,
  set_buffer_should_retry, busy_retries,
}
use gud.Display.{Display, receive, receive_event}

module _ (pitch : ℕ) (decompress : List ℕ → ℕ → Option (List ℕ)) {Env : Type 0}
    (usb : Usb Env) where
  pub receive-usb_set :
      (request : ℕ) (body : List ℕ) (h : Host Env) (d : Display)
      → receive pitch decompress (usb_set usb request body h).1.log d
        ≡ receive_event pitch decompress
            (control request body (usb_set usb request body h).0)
            (receive pitch decompress h.log d)
  unfolding usb_set receive
  receive-usb_set request body h d = ground arith

  pub receive-usb_bulk_write :
      (payload : List ℕ) (actual : ℕ) (h : Host Env) (d : Display)
      → receive pitch decompress (usb_bulk_write usb payload actual h).2.log d
        ≡ receive_event pitch decompress
            (bulk payload
              (usb_bulk_write usb payload actual h).0
              (usb_bulk_write usb payload actual h).1)
            (receive pitch decompress h.log d)
  unfolding usb_bulk_write receive
  receive-usb_bulk_write payload actual h d = refl

  event_of_busy :
      (ret : Ret) (retries : ℕ) (body : List ℕ) (d : Display)
      → set_buffer_should_retry ret retries ≡ true
      → receive_event pitch decompress (control req_set_buffer body ret) d ≡ d
  unfolding set_buffer_should_retry
  event_of_busy success retries body d h = ground arith
  event_of_busy (failure e) retries body d h = refl

  event_of_eagain :
      (ret : Ret) (sent : ℕ) (payload : List ℕ) (d : Display)
      → is_eagain ret ≡ true
      → receive_event pitch decompress (bulk payload ret sent) d ≡ d
  unfolding is_eagain
  event_of_eagain success sent payload d h = ground arith
  event_of_eagain (failure e) sent payload d h = refl

  pub receive-set_buffer_loop :
      (left : ℕ) (body : List ℕ) (h : Host Env) (d : Display)
      → receive pitch decompress (set_buffer_loop usb left body h).1.log d
        ≡ receive_event pitch decompress
            (control req_set_buffer body (set_buffer_loop usb left body h).0)
            (receive pitch decompress h.log d)
  unfolding set_buffer_loop
  receive-set_buffer_loop zero body h d = receive-usb_set req_set_buffer body h d
  receive-set_buffer_loop (suc left) body h d =
      let (ret, h') = usb_set usb req_set_buffer body h in
      ground (
        arith,
        receive-usb_set req_set_buffer body h d,
        receive-set_buffer_loop left body h' d,
        event_of_busy ret (busy_retries - suc left) body (receive pitch decompress h.log d),
      )

  pub receive-bulk_loop :
      (left : ℕ) (payload : List ℕ) (actual : ℕ) (h : Host Env) (d : Display)
      → let (ret, sent, h') = bulk_loop usb left payload actual h in
        receive pitch decompress h'.log d
        ≡ receive_event pitch decompress (bulk payload ret sent) (receive pitch decompress h.log d)
  unfolding bulk_loop
  receive-bulk_loop zero payload actual h d = receive-usb_bulk_write payload actual h d
  receive-bulk_loop (suc left) payload actual h d =
      let (ret, sent, h') = usb_bulk_write usb payload actual h in
      ground (
        arith,
        receive-usb_bulk_write payload actual h d,
        receive-bulk_loop left payload sent h' d,
        event_of_eagain ret sent payload (receive pitch decompress h.log d),
      )

  control-pixels :
      (request : ℕ) (body : List ℕ) (ret : Ret) (d : Display)
      → (request == req_set_buffer) ≡ false
      → (receive_event pitch decompress (control request body ret) d).pixels ≡ d.pixels
  control-pixels request body success d other = ground arith
  control-pixels request body (failure e) d other = refl

  -- A request other than SET_BUFFER changes no pixel.
  pub usb_set-pixels :
      (request : ℕ) (body : List ℕ) (h : Host Env) (d : Display)
      → (request == req_set_buffer) ≡ false
      → (receive pitch decompress (usb_set usb request body h).1.log d).pixels
        ≡ (receive pitch decompress h.log d).pixels
  usb_set-pixels request body h d other =
      ap (λ e. e.pixels) (receive-usb_set request body h d)
      ∙ control-pixels request body (usb_set usb request body h).0
          (receive pitch decompress h.log d) other
