-- ===== src/Wire/Fields.antt =====
-- What the other end reads of a mode, as arithmetic.
use gud.Base.{ℕ, ◌+◌, ◌*◌, ◌/◌, ◌%◌, ◌^◌, min, ◌≡◌, ◌∙◌, ap₂, arith, some, List, ◌++◌, bit_and}
use gud.Base.Bits.{and_digit, and_mask}
use gud.Wire.{
  le16, le32, DisplayModeReq, encode_mode, decode_mode, mode_flag_user_mask, mode_flag_preferred,
}

-- Each field, reduced to its width.
abbrev pub reduced : DisplayModeReq → DisplayModeReq
reduced m = record {
  clock = m.clock % 2 ^ 32;
  hdisplay = m.hdisplay % 2 ^ 16;
  hsync_start = m.hsync_start % 2 ^ 16;
  hsync_end = m.hsync_end % 2 ^ 16;
  htotal = m.htotal % 2 ^ 16;
  vdisplay = m.vdisplay % 2 ^ 16;
  vsync_start = m.vsync_start % 2 ^ 16;
  vsync_end = m.vsync_end % 2 ^ 16;
  vtotal = m.vtotal % 2 ^ 16;
  flags = m.flags % 2 ^ 32;
}

pub decode-encode_mode-reduced :
    (m : DisplayModeReq) (rest : List ℕ)
    → decode_mode (encode_mode m ++ rest) ≡ some (reduced m, rest)
unfolding decode_mode encode_mode le32 le16
decode-encode_mode-reduced m rest = ground arith

-- The lowest bit of a mask that is known.
and_odd : (a m : ℕ) → bit_and a (2 * m + 1) ≡ bit_and (a / 2) m * 2 + a % 2
and_odd a m =
    let half : (2 * m + 1) / 2 ≡ m = omega arith in
    let low : min (a % 2) ((2 * m + 1) % 2) ≡ a % 2 = omega arith in
    and_digit a (2 * m + 1) ∙ ap₂ (λ s t. bit_and (a / 2) s * 2 + t) half low

and_even : (a m : ℕ) → bit_and a (2 * m) ≡ bit_and (a / 2) m * 2
and_even a m =
    let half : 2 * m / 2 ≡ m = omega arith in
    let low : min (a % 2) (2 * m % 2) ≡ 0 = omega arith in
    and_digit a (2 * m) ∙ ap₂ (λ s t. bit_and (a / 2) s * 2 + t) half low ∙ omega arith

-- The flags of user space are the ten low bits and the bits 12 and 13.
abbrev pub user_flags : ℕ → ℕ
user_flags f = f % 1024 + f / 4096 % 4 * 4096

pub mask_user_flags : (f : ℕ) → bit_and f mode_flag_user_mask ≡ user_flags f
mask_user_flags f = omega (
  arith,
  and_odd f 6655,
  and_odd (f / 2) 3327,
  and_odd (f / 2 / 2) 1663,
  and_odd (f / 2 / 2 / 2) 831,
  and_odd (f / 2 / 2 / 2 / 2) 415,
  and_odd (f / 2 / 2 / 2 / 2 / 2) 207,
  and_odd (f / 2 / 2 / 2 / 2 / 2 / 2) 103,
  and_odd (f / 2 / 2 / 2 / 2 / 2 / 2 / 2) 51,
  and_odd (f / 2 / 2 / 2 / 2 / 2 / 2 / 2 / 2) 25,
  and_odd (f / 2 / 2 / 2 / 2 / 2 / 2 / 2 / 2 / 2) 12,
  and_even (f / 2 / 2 / 2 / 2 / 2 / 2 / 2 / 2 / 2 / 2) 6,
  and_even (f / 2 / 2 / 2 / 2 / 2 / 2 / 2 / 2 / 2 / 2 / 2) 3,
  and_mask 2 (f / 2 / 2 / 2 / 2 / 2 / 2 / 2 / 2 / 2 / 2 / 2 / 2),
)

-- The mode is preferred if bit 10 is set.
pub mask_preferred : (f : ℕ) → bit_and f mode_flag_preferred ≡ f / 1024 % 2 * 1024
mask_preferred f = omega (
  arith,
  and_even f 512,
  and_even (f / 2) 256,
  and_even (f / 2 / 2) 128,
  and_even (f / 2 / 2 / 2) 64,
  and_even (f / 2 / 2 / 2 / 2) 32,
  and_even (f / 2 / 2 / 2 / 2 / 2) 16,
  and_even (f / 2 / 2 / 2 / 2 / 2 / 2) 8,
  and_even (f / 2 / 2 / 2 / 2 / 2 / 2 / 2) 4,
  and_even (f / 2 / 2 / 2 / 2 / 2 / 2 / 2 / 2) 2,
  and_even (f / 2 / 2 / 2 / 2 / 2 / 2 / 2 / 2 / 2) 1,
  and_mask 1 (f / 2 / 2 / 2 / 2 / 2 / 2 / 2 / 2 / 2 / 2),
)
