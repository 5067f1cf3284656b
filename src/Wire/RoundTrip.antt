-- ===== src/Wire/RoundTrip.antt =====
-- What the driver packs is what the other end unpacks.
use gud.Base.{ℕ, ◌^◌, ◌<◌, ◌≡◌, refl, arith, some, List, ◌++◌, length}
use gud.Wire.{
  le16, le32, SetBufferReq, encode_set_buffer, decode_set_buffer, DisplayModeReq, encode_mode,
  decode_mode, encode_state,
}

-- Every field of the request fits its width.
pub record Fits (r : SetBufferReq) : Type 0 where
  pub x_fits : r.x < 2 ^ 32
  pub y_fits : r.y < 2 ^ 32
  pub width_fits : r.width < 2 ^ 32
  pub height_fits : r.height < 2 ^ 32
  pub total_fits : r.total < 2 ^ 32
  pub compression_fits : r.compression < 256
  pub compressed_length_fits : r.compressed_length < 2 ^ 32

-- A SET_BUFFER request whose fields fit their widths is unpacked to itself.
pub decode-encode_set_buffer :
    (r : SetBufferReq) → Fits r → decode_set_buffer (encode_set_buffer r) ≡ some r
unfolding decode_set_buffer encode_set_buffer le32
decode-encode_set_buffer r h = ground arith

pub record ModeFits (m : DisplayModeReq) : Type 0 where
  pub clock_fits : m.clock < 2 ^ 32
  pub hdisplay_fits : m.hdisplay < 2 ^ 16
  pub hsync_start_fits : m.hsync_start < 2 ^ 16
  pub hsync_end_fits : m.hsync_end < 2 ^ 16
  pub htotal_fits : m.htotal < 2 ^ 16
  pub vdisplay_fits : m.vdisplay < 2 ^ 16
  pub vsync_start_fits : m.vsync_start < 2 ^ 16
  pub vsync_end_fits : m.vsync_end < 2 ^ 16
  pub vtotal_fits : m.vtotal < 2 ^ 16
  pub flags_fits : m.flags < 2 ^ 32

-- A mode whose fields fit their widths is unpacked to itself, with the bytes behind it left
-- over.
pub decode-encode_mode :
    (m : DisplayModeReq) (rest : List ℕ)
    → ModeFits m
    → decode_mode (encode_mode m ++ rest) ≡ some (m, rest)
unfolding decode_mode encode_mode le32 le16
decode-encode_mode m rest h = ground arith

pub wire_sizes :
    (r : SetBufferReq) (m : DisplayModeReq) (format connector : ℕ)
    → (length (encode_set_buffer r) ≡ 25)
      × (length (encode_mode m) ≡ 24)
      × (length (encode_state m format connector) ≡ 26)
unfolding encode_set_buffer encode_mode encode_state le32 le16
wire_sizes r m format connector = (refl, refl, refl)
