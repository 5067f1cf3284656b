-- ===== src/Check/Guards.antt =====
-- What the atomic check lets through.
use gud.Base.{
  ℕ, ◌<◌, ◌%◌, ◌^◌, refl, ◌∙◌, ap₂, List, [], ◌&&◌, not, bit_and, ◌≡◌, arith, true, false, Option,
  some, ◌⊎◌, inl, inr, ◌||◌, Bool-cases, ◌∷◌,
}
use gud.Kernel.{success}
use gud.Wire.{req_set_state_check, encode_state, decode_mode, DisplayModeReq, mode_flag_user_mask}
use gud.Wire.Fields.{reduced, user_flags, mask_user_flags, decode-encode_mode-reduced}
use gud.Layout.{PixelFormat, rgb565, xrgb8888, other_format}
use gud.Usb.{Usb, Host, control}
use gud.Usb.Retry.{usb_set-logs}
use gud.Framebuffer.{Fb, is_supported, rows_packed}
use gud.Check.{
  CrtcState, mode_to_request, to_protocol_format, format_changed, has_old, state_check, pipe_check,
}

-- The mode that the display sees: each field at its width, with the flags of user space only.
abbrev pub seen : DisplayModeReq → DisplayModeReq
seen m = record (reduced m) { flags = user_flags m.flags }

-- The protocol's number of a format.
abbrev pub IsFormatCode : PixelFormat → ℕ → Type 0
IsFormatCode rgb565 code = code ≡ 0x40
IsFormatCode xrgb8888 code = code ≡ 0x80
IsFormatCode (other_format n) code = ⊥

supported_code : (f : PixelFormat) → is_supported f ≡ true → IsFormatCode f (to_protocol_format f)
unfolding is_supported to_protocol_format
supported_code rgb565 e = refl
supported_code xrgb8888 e = refl
supported_code (other_format n) e = cc

code_is_byte : (f : PixelFormat) → to_protocol_format f < 2 ^ 8
unfolding to_protocol_format
code_is_byte rgb565 = omega arith
code_is_byte xrgb8888 = omega arith
code_is_byte (other_format n) = omega arith

decode_mode-encode_state :
    (m : DisplayModeReq) (code : ℕ)
    → code < 2 ^ 8
    → decode_mode (encode_state (mode_to_request m) code 0) ≡ some (seen m, code ∷ 0 ∷ [])
unfolding encode_state mode_to_request
decode_mode-encode_state m code small =
    let flags : bit_and m.flags mode_flag_user_mask % 2 ^ 32 ≡ user_flags m.flags =
      omega (arith, mask_user_flags m.flags) in
    let byte : code % 2 ^ 8 ≡ code = omega arith in
    decode-encode_mode-reduced (mode_to_request m) _
    ∙ ap₂ (λ f c. some (record (reduced m) { flags = f }, c ∷ 0 ∷ [])) flags byte

module _ {Env : Type 0} (usb : Usb Env) where
  state_check-logs :
      (fb : Fb) (crtc : CrtcState) (h : Host Env)
      → (state_check usb (some fb) crtc h).0 ≡ success
      → (state_check usb (some fb) crtc h).1.log
        ≡ control req_set_state_check
            (encode_state (mode_to_request crtc.mode) (to_protocol_format fb.pixel_format) 0)
            success
          ∷ h.log
  unfolding state_check
  state_check-logs fb crtc h e = ground (
    arith,
    usb_set-logs usb req_set_state_check
        (encode_state (mode_to_request crtc.mode) (to_protocol_format fb.pixel_format) 0) h,
  )

  -- A frame that passes the check is in a supported format with packed rows on a connected
  -- display; either nothing was sent, for a flip that keeps the mode, the connectors and the
  -- format, or the display accepted a request of which the mode reads as the timing of the mode,
  -- each field at its width, with the flags of user space only (the ten low bits and the bits 12
  -- and 13), followed by the protocol's number of the format and the connector 0.
  pub pipe_check-accepts :
      (old : Option Fb) (fb : Fb) (crtc : CrtcState) (h : Host Env)
      → (pipe_check usb old (some fb) crtc h).0 ≡ success
      → (h.gud.disconnected ≡ false)
        × (is_supported fb.pixel_format ≡ true)
        × (rows_packed fb ≡ true)
        × (((pipe_check usb old (some fb) crtc h).2 ≡ h)
              × (has_old old ≡ true)
              × (format_changed old fb ≡ false)
              × (crtc.mode_changed ≡ false)
              × (crtc.connectors_changed ≡ false)
            ⊎ ((body : List ℕ) × (code : ℕ) × ((pipe_check usb old (some fb) crtc h).2.log
                  ≡ control req_set_state_check body success ∷ h.log)
                × (decode_mode body ≡ some (seen crtc.mode, code ∷ 0 ∷ []))
                × IsFormatCode fb.pixel_format code))
  unfolding pipe_check is_supported
  pipe_check-accepts old fb crtc h e =
      let checked = record crtc { mode_changed = crtc.mode_changed || format_changed old fb } in
      let logs = state_check-logs fb checked h in
      let read = decode_mode-encode_state crtc.mode (to_protocol_format fb.pixel_format) in
      elim (Bool-cases h.gud.disconnected) [
        | inl gone ↦ absurd (ground arith)
        | inr connected ↦ elim (Bool-cases (is_supported fb.pixel_format)) [
          | inr unsupported ↦ absurd (ground arith)
          | inl supported ↦ elim (Bool-cases (rows_packed fb)) [
            | inr padded ↦ absurd (ground arith)
            | inl packed ↦ (
              connected,
              supported,
              packed,
              elim (Bool-cases (
                  has_old old
                  && (not (crtc.mode_changed || format_changed old fb)
                      && not crtc.connectors_changed))) [
                        | inl unchanged ↦ inl (ground arith)
                        | inr new ↦ inr (
                          encode_state (mode_to_request crtc.mode)
                              (to_protocol_format fb.pixel_format) 0,
                          to_protocol_format fb.pixel_format,
                          ground (arith, logs),
                          read (code_is_byte fb.pixel_format),
                          supported_code fb.pixel_format supported,
                        )
                      ],
            )
          ]
        ]
      ]
