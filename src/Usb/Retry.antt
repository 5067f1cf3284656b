-- ===== src/Usb/Retry.antt =====
-- What the two retry loops leave behind: the display sees one accepted transaction at most.
use gud.Base.{ℕ, zero, suc, ◌≡◌, arith, List, ◌∷◌}
use gud.Kernel.{success}
use gud.Wire.{req_set_buffer}
use gud.Usb.{Usb, Host, control, usb_set, usb_bulk_write, set_buffer_loop, bulk_loop}

module _ {Env : Type 0} (usb : Usb Env) where
  -- Transfers touch the environment and the log alone.
  pub usb_set-gud :
      (request : ℕ) (body : List ℕ) (h : Host Env) → (usb_set usb request body h).1.gud ≡ h.gud
  unfolding usb_set
  usb_set-gud request body h = ground arith

  pub set_buffer_loop-gud :
      (left : ℕ) (body : List ℕ) (h : Host Env) → (set_buffer_loop usb left body h).1.gud ≡ h.gud
  unfolding set_buffer_loop
  set_buffer_loop-gud zero body h = usb_set-gud req_set_buffer body h
  set_buffer_loop-gud (suc left) body h = ground (
    arith,
    usb_set-gud req_set_buffer body h,
    set_buffer_loop-gud left body (usb_set usb req_set_buffer body h).1,
  )

  pub usb_bulk_write-gud :
      (payload : List ℕ) (actual : ℕ) (h : Host Env)
      → (usb_bulk_write usb payload actual h).2.gud ≡ h.gud
  unfolding usb_bulk_write
  usb_bulk_write-gud payload actual h = ground arith

  pub bulk_loop-gud :
      (left : ℕ) (payload : List ℕ) (actual : ℕ) (h : Host Env)
      → (bulk_loop usb left payload actual h).2.gud ≡ h.gud
  unfolding bulk_loop
  bulk_loop-gud zero payload actual h = usb_bulk_write-gud payload actual h
  bulk_loop-gud (suc left) payload actual h = ground (
    arith,
    usb_bulk_write-gud payload actual h,
    bulk_loop-gud left payload (usb_bulk_write usb payload actual h).1
        (usb_bulk_write usb payload actual h).2,
  )

  -- A request that succeeds is the newest entry of the log.
  pub usb_set-logs :
      (request : ℕ) (body : List ℕ) (h : Host Env)
      → (usb_set usb request body h).0 ≡ success
      → (usb_set usb request body h).1.log ≡ control request body success ∷ h.log
  unfolding usb_set
  usb_set-logs request body h e = ground arith
