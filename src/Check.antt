-- ===== src/Check.antt =====
-- The checks before an update and the end of a mode: gud_pipe_check, gud_pipe_state_check and
-- gud_pipe_disable of backport-4.9/gud_pipe.c.
pub mod Guards
use gud.Base.{
  ℕ, ◌*◌, ◌%◌, ◌^◌, Bool, true, false, ◌||◌, ◌&&◌, not, Option, none, some, List, [], ◌∷◌, ◌==◌,
  if◌then◌else◌, bit_and,
}
use gud.Kernel.{Ret, success, failure, einval, enodev}
use gud.Layout.{PixelFormat, rgb565, xrgb8888, other_format, format_bytes_per_pixel}
use gud.Wire.{
  DisplayModeReq, mode_flag_user_mask, encode_state, req_set_state_check, req_set_display_enable,
  req_set_controller_enable,
}
use gud.Usb.{Usb, Host, usb_set}
use gud.Framebuffer.{Fb, is_supported, rows_packed}
use gud.Flush.{Async, cancel}

-- `struct drm_crtc_state`: the timing and flags of its mode, and what changed.
pub record CrtcState : Type 0 where
  pub mode : DisplayModeReq
  pub mode_changed : Bool
  pub connectors_changed : Bool

-- gud_mode_to_request: of the flags only those of user space are sent. The conversions to the packed
-- fields are encode_mode's.
unfoldable pub mode_to_request : DisplayModeReq → DisplayModeReq
mode_to_request mode = record mode { flags = bit_and mode.flags mode_flag_user_mask }

unfoldable pub to_protocol_format : PixelFormat → ℕ
to_protocol_format rgb565 = 64
to_protocol_format xrgb8888 = 128
to_protocol_format (other_format n) = 0

unfoldable pub same_format : PixelFormat → PixelFormat → Bool
same_format rgb565 rgb565 = true
same_format xrgb8888 xrgb8888 = true
same_format (other_format n) (other_format m) = n == m
same_format rgb565 xrgb8888 = false
same_format rgb565 (other_format n) = false
same_format xrgb8888 rgb565 = false
same_format xrgb8888 (other_format n) = false
same_format (other_format n) rgb565 = false
same_format (other_format n) xrgb8888 = false

-- `old_fb && plane_state->fb && old_fb->pixel_format != plane_state->fb->pixel_format`.
unfoldable pub format_changed : Option Fb → Fb → Bool
unfolding same_format
format_changed none fb = false
format_changed (some old) fb = not (same_format old.pixel_format fb.pixel_format)

unfoldable pub has_old : Option Fb → Bool
has_old none = false
has_old (some old) = true

module _ {Env : Type 0} (usb : Usb Env) where
  unfoldable pub state_check : Option Fb → CrtcState → Host Env → Ret × Host Env
  unfolding to_protocol_format mode_to_request
  state_check none crtc h = (success, h)
  state_check (some fb) crtc h =
      if format_bytes_per_pixel fb.pixel_format == 0
      then (failure einval, h)
      else usb_set usb req_set_state_check
          (encode_state (mode_to_request crtc.mode) (to_protocol_format fb.pixel_format) 0) h

  -- The state of the CRTC is part of the answer: a new format marks the mode as changed.
  unfoldable pub pipe_check :
      Option Fb → Option Fb → CrtcState → Host Env → Ret × CrtcState × Host Env
  unfolding state_check format_changed has_old
  pipe_check old none crtc h =
      if h.gud.disconnected then (failure enodev, crtc, h) else (success, crtc, h)
  pipe_check old (some fb) crtc h =
      let changed = crtc.mode_changed || format_changed old fb in
      let checked : CrtcState = record crtc { mode_changed = changed } in
      let (ret, h') = state_check (some fb) checked h in
      if h.gud.disconnected
      then (failure enodev, crtc, h)
      else if not (is_supported fb.pixel_format)
      then (failure einval, crtc, h)
      else if not (rows_packed fb)
      then (failure einval, crtc, h)
      else if has_old old && (not changed && not crtc.connectors_changed)
      then (success, checked, h)
      else (ret, checked, h')

  -- gud_pipe_disable: the pending flush is cancelled, then display and controller are switched off.
  unfoldable pub pipe_disable : Async → Host Env → Async × Host Env
  unfolding cancel
  pipe_disable a h =
      let (ret, h1) = usb_set usb req_set_display_enable (0 ∷ []) h in
      let (last, h2) = usb_set usb req_set_controller_enable (0 ∷ []) h1 in
      elim ret [ failure e ↦ (cancel a, h1) | success ↦ (cancel a, h2) ]
