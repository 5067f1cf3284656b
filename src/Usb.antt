-- ===== src/Usb.antt =====
-- Control and bulk transfers of backport-4.9/gud_pipe.c over the USB core: gud_usb_set,
-- gud_usb_bulk_write and their two retry loops. The USB core and the display behind it are the
-- parameter `Usb`; every transaction that reaches it is noted in a log, newest first.
pub mod Retry
use gud.Base.{
  ℕ, zero, suc, ◌+◌, ◌-◌, Bool, true, false, ◌||◌, not, List, ◌∷◌, [], length, ◌==◌, ltb, leb,
  if◌then◌else◌, bit_and,
}
use gud.Kernel.{
  Errno, Ret, success, failure, einval, enodev, eio, ebusy, eopnotsupp, eproto, eremoteio,
  etimedout, ehostunreach, is_eagain, is_ebusy,
}
use gud.Wire.{req_set_buffer}

-- What a control transfer returns: the bytes moved, or an error.
pub data Reply : Type 0 where
  moved : ℕ → Reply
  refused : Errno → Reply

-- The answer to GET_STATUS: the bytes that came, with the status byte, or an error.
pub data StatusReply : Type 0 where
  status_byte : ℕ → StatusReply
  short_status : StatusReply
  no_status : Errno → StatusReply

-- The life of one bulk URB: not submitted, killed at the timeout with what had gone out, or
-- completed with its status and length.
pub data BulkReply : Type 0 where
  not_submitted : Errno → BulkReply
  timed_out : ℕ → BulkReply
  completed : Ret → ℕ → BulkReply

-- The USB core and the device behind it, as functions of their state.
pub record Usb (Env : Type 0) : Type 0 where
  pub control_out : ℕ → List ℕ → Env → Reply × Env
  pub get_status : Env → StatusReply × Env
  pub bulk_out : List ℕ → Env → BulkReply × Env

-- `struct gud_device`: the fields that the transfers read or change.
pub record GudDevice : Type 0 where
  pub protocol_version : ℕ
  pub compression : ℕ
  pub flags : ℕ
  pub max_buffer_size : ℕ
  pub min_width : ℕ
  pub max_width : ℕ
  pub min_height : ℕ
  pub max_height : ℕ
  pub xdisp_max_source_length : ℕ
  pub xdisp_bulk_buffer_size : ℕ
  pub bulk_trace_count : ℕ
  pub bulk_trace_sequence : ℕ
  pub xdisp_frame_sequence : ℕ
  pub xdisp_payload_sequence : ℕ
  pub disconnected : Bool
  pub pm_suspended : Bool

-- A transaction with its result: a control request with its data, or a bulk payload with the
-- number of bytes that went out.
pub data Event : Type 0 where
  control : ℕ → List ℕ → Ret → Event
  bulk : List ℕ → Ret → ℕ → Event

pub record Host (Env : Type 0) : Type 0 where
  pub gud : GudDevice
  pub env : Env
  pub log : List Event

-- `pm_suspended` stays false outside the PM-test variant.
unfoldable pub pm_submission_allowed : GudDevice → Ret
pm_submission_allowed gud = if gud.pm_suspended then failure ehostunreach else success

unfoldable pub status_to_errno : ℕ → Ret
status_to_errno status =
    if status == 0x00
    then success
    else if status == 0x01
    then failure ebusy
    else if status == 0x02
    then failure eopnotsupp
    else if status == 0x03
    then failure eproto
    else if status == 0x04
    then failure einval
    else failure eremoteio

abbrev pub busy_retries : ℕ
busy_retries = 100

abbrev pub eagain_retries : ℕ
eagain_retries = 100

unfoldable pub set_buffer_should_retry : Ret → ℕ → Bool
unfolding is_ebusy
set_buffer_should_retry result retries = if is_ebusy result then ltb retries busy_retries else false

status_result : StatusReply → Ret
unfolding status_to_errno
status_result (status_byte b) = status_to_errno b
status_result short_status = failure eio
status_result (no_status e) = failure e

module _ {Env : Type 0} (usb : Usb Env) where
  -- The status request that follows a control transfer, if the display asks for it.
  check_status : ℕ → Env → Ret × Env
  unfolding status_result
  check_status flags env =
      if bit_and flags 1 == 0
      then (success, env)
      else let (reply, env') = usb.get_status env in (status_result reply, env')

  after_control : ℕ → ℕ → Reply → Env → Ret × Env
  unfolding check_status
  after_control flags size (refused e) env = (failure e, env)
  after_control flags size (moved n) env =
      if n == size then check_status flags env else (failure eio, env)

  submit_control : ℕ → List ℕ → Host Env → Ret × Host Env
  unfolding after_control
  submit_control request payload h =
      let (reply, env1) = usb.control_out request payload h.env in
      let (ret, env2) = after_control h.gud.flags (length payload) reply env1 in
      (ret, record h { env = env2; log = control request payload ret ∷ h.log })

  unfoldable pub usb_set : ℕ → List ℕ → Host Env → Ret × Host Env
  unfolding pm_submission_allowed submit_control
  usb_set request payload h =
      if h.gud.disconnected then (failure enodev, h) else elim (pm_submission_allowed h.gud) [
        | failure e ↦ (failure e, h)
        | success ↦ submit_control request payload h
      ]

  -- `actual` keeps its value where the URB was not submitted.
  bulk_result : BulkReply → ℕ → Ret × ℕ
  bulk_result (not_submitted e) actual = (failure e, actual)
  bulk_result (timed_out n) actual = (failure etimedout, n)
  bulk_result (completed status n) actual = (status, n)

  unfoldable pub usb_bulk_write : List ℕ → ℕ → Host Env → Ret × ℕ × Host Env
  unfolding bulk_result
  usb_bulk_write payload actual h =
      let (reply, env') = usb.bulk_out payload h.env in
      let (ret, sent) = bulk_result reply actual in
      (ret, sent, record h { env = env'; log = bulk payload ret sent ∷ h.log })

  -- `for (set_buffer_retries = 0; ; set_buffer_retries++)`, with `left` retries to go.
  unfoldable pub set_buffer_loop : ℕ → List ℕ → Host Env → Ret × Host Env
  set_buffer_loop zero request h = usb_set req_set_buffer request h
  set_buffer_loop (suc left) request h =
      let (ret, h') = usb_set req_set_buffer request h in
      elim (set_buffer_should_retry ret (busy_retries - suc left)) [
        | true ↦ set_buffer_loop left request h'
        | false ↦ (ret, h')
      ]

  -- `for (retries = 0; ; retries++)` round gud_usb_bulk_write.
  unfoldable pub bulk_loop : ℕ → List ℕ → ℕ → Host Env → Ret × ℕ × Host Env
  bulk_loop zero payload actual h = usb_bulk_write payload actual h
  bulk_loop (suc left) payload actual h =
      let (ret, sent, h') = usb_bulk_write payload actual h in
      elim (is_eagain ret) [ true ↦ bulk_loop left payload sent h' | false ↦ (ret, sent, h') ]
