-- ===== src/Wire.antt =====
-- backport-4.9/gud_protocol.h: the packed little-endian structures of the GUD protocol.
pub mod RoundTrip
pub mod Fields
use gud.Base.{
  ℕ, ◌+◌, ◌*◌, ◌/◌, ◌%◌, ◌^◌, Bool, Option, none, some, List, [], ◌∷◌, ◌++◌, ◌==◌, if◌then◌else◌,
  bit_and,
}

-- Bytes of `__le16` and `__le32` fields: the conversions keep the low bits of a wider value.
unfoldable pub le16 : ℕ → List ℕ
le16 v = (v % 256) ∷ (v / 256 % 256) ∷ []

unfoldable pub le32 : ℕ → List ℕ
le32 v = (v % 256) ∷ (v / 256 % 256) ∷ (v / 65536 % 256) ∷ (v / 16777216 % 256) ∷ []

abbrev pub get_u8 : List ℕ → Option (ℕ × List ℕ)
get_u8 (a ∷ rest) = some (a, rest)
get_u8 _ = none

abbrev pub get_le16 : List ℕ → Option (ℕ × List ℕ)
get_le16 (a ∷ b ∷ rest) = some (a + 256 * b, rest)
get_le16 _ = none

abbrev pub get_le32 : List ℕ → Option (ℕ × List ℕ)
get_le32 (a ∷ b ∷ c ∷ d ∷ rest) = some (a + 256 * b + 65536 * c + 16777216 * d, rest)
get_le32 _ = none

infixl 5 ◌>>=◌
abbrev pub ◌>>=◌ {ℓ κ} : {A : Type ℓ} {B : Type κ} → Option A → (A → Option B) → Option B
none >>= f = none
some a >>= f = f a

abbrev pub req_get_status : ℕ
req_get_status = 0x00

abbrev pub req_get_descriptor : ℕ
req_get_descriptor = 0x01

abbrev pub req_get_connector_modes : ℕ
req_get_connector_modes = 0x55

abbrev pub req_set_buffer : ℕ
req_set_buffer = 0x60

abbrev pub req_set_state_check : ℕ
req_set_state_check = 0x61

abbrev pub req_set_state_commit : ℕ
req_set_state_commit = 0x62

abbrev pub req_set_controller_enable : ℕ
req_set_controller_enable = 0x63

abbrev pub req_set_display_enable : ℕ
req_set_display_enable = 0x64

abbrev pub display_magic : ℕ
display_magic = 0x1d50614d

abbrev pub protocol_version : ℕ
protocol_version = 1

abbrev pub compression_lz4 : ℕ
compression_lz4 = 1

abbrev pub mode_flag_user_mask : ℕ
mode_flag_user_mask = 0x000033ff

abbrev pub mode_flag_preferred : ℕ
mode_flag_preferred = 1024

abbrev pub connector_max_num_modes : ℕ
connector_max_num_modes = 128

pub record SetBufferReq : Type 0 where
  pub x : ℕ
  pub y : ℕ
  pub width : ℕ
  pub height : ℕ
  pub total : ℕ  -- the field `length`
  pub compression : ℕ
  pub compressed_length : ℕ

-- The bytes of the packed structure, in the order of its fields.
unfoldable pub encode_set_buffer : SetBufferReq → List ℕ
encode_set_buffer r =
    le32 r.x
    ++ (le32 r.y
        ++ (le32 r.width
            ++ (le32 r.height
                ++ (le32 r.total ++ ((r.compression % 256) ∷ le32 r.compressed_length)))))

-- What the other end reads from those bytes.
unfoldable pub decode_set_buffer : List ℕ → Option SetBufferReq
decode_set_buffer bytes = do
  (x, s1) ← get_le32 bytes
  (y, s2) ← get_le32 s1
  (width, s3) ← get_le32 s2
  (height, s4) ← get_le32 s3
  (total, s5) ← get_le32 s4
  (compression, s6) ← get_u8 s5
  (compressed_length, s7) ← get_le32 s6
  some (record {
    x = x;
    y = y;
    width = width;
    height = height;
    total = total;
    compression = compression;
    compressed_length = compressed_length;
  })

-- The timing of a display mode with its flags: `struct gud_display_mode_req`.
pub record DisplayModeReq : Type 0 where
  pub clock : ℕ
  pub hdisplay : ℕ
  pub hsync_start : ℕ
  pub hsync_end : ℕ
  pub htotal : ℕ
  pub vdisplay : ℕ
  pub vsync_start : ℕ
  pub vsync_end : ℕ
  pub vtotal : ℕ
  pub flags : ℕ

unfoldable pub encode_mode : DisplayModeReq → List ℕ
encode_mode m =
    le32 m.clock
    ++ (le16 m.hdisplay
        ++ (le16 m.hsync_start
            ++ (le16 m.hsync_end
                ++ (le16 m.htotal
                    ++ (le16 m.vdisplay
                        ++ (le16 m.vsync_start
                            ++ (le16 m.vsync_end ++ (le16 m.vtotal ++ le32 m.flags))))))))

-- One entry of the mode array, and the bytes behind it.
unfoldable pub decode_mode : List ℕ → Option (DisplayModeReq × List ℕ)
decode_mode bytes = do
  (clock, s1) ← get_le32 bytes
  (hdisplay, s2) ← get_le16 s1
  (hsync_start, s3) ← get_le16 s2
  (hsync_end, s4) ← get_le16 s3
  (htotal, s5) ← get_le16 s4
  (vdisplay, s6) ← get_le16 s5
  (vsync_start, s7) ← get_le16 s6
  (vsync_end, s8) ← get_le16 s7
  (vtotal, s9) ← get_le16 s8
  (flags, s10) ← get_le32 s9
  some (
    record {
      clock = clock;
      hdisplay = hdisplay;
      hsync_start = hsync_start;
      hsync_end = hsync_end;
      htotal = htotal;
      vdisplay = vdisplay;
      vsync_start = vsync_start;
      vsync_end = vsync_end;
      vtotal = vtotal;
      flags = flags;
    },
    s10,
  )

-- The body of SET_STATE_CHECK: `struct gud_state_req`.
unfoldable pub encode_state : DisplayModeReq → ℕ → ℕ → List ℕ
encode_state mode format connector = encode_mode mode ++ ((format % 256) ∷ (connector % 256) ∷ [])

-- `struct gud_display_descriptor_req`, 30 bytes.
pub record DisplayDescriptorReq : Type 0 where
  pub magic : ℕ
  pub version : ℕ
  pub flags : ℕ
  pub compression : ℕ
  pub max_buffer_size : ℕ
  pub min_width : ℕ
  pub max_width : ℕ
  pub min_height : ℕ
  pub max_height : ℕ

unfoldable pub decode_descriptor : List ℕ → Option DisplayDescriptorReq
decode_descriptor bytes = do
  (magic, s1) ← get_le32 bytes
  (version, s2) ← get_u8 s1
  (flags, s3) ← get_le32 s2
  (compression, s4) ← get_u8 s3
  (max_buffer_size, s5) ← get_le32 s4
  (min_width, s6) ← get_le32 s5
  (max_width, s7) ← get_le32 s6
  (min_height, s8) ← get_le32 s7
  (max_height, s9) ← get_le32 s8
  some (record {
    magic = magic;
    version = version;
    flags = flags;
    compression = compression;
    max_buffer_size = max_buffer_size;
    min_width = min_width;
    max_width = max_width;
    min_height = min_height;
    max_height = max_height;
  })
