-- ===== src/Codec/Temporal.antt =====
-- benchmark/tools/fbcodec-bench/src/transforms/temporal.c: a frame against the one before, by
-- exclusive or or by subtraction, with a header byte that tells a keyframe. A source, a
-- destination and a reference are the pixels of a frame.
pub mod Lockstep
pub mod Play
use gud.Base.{
  ℕ, zero, suc, ◌+◌, ◌-◌, ◌*◌, ◌%◌, ◌^◌, Bool, true, false, ◌&&◌, not, Option, none, some, List, [],
  ◌∷◌, ◌++◌, length, take, drop, replicate, ◌==◌, ltb, if◌then◌else◌, bit_xor,
}
use gud.Codec.Pixel.{u16, rgb565_pixel_count, rgb565_byte_size}
use gud.Codec.Words.{bytes_of, pixels_of}
use gud.Codec.Quant.{quant_mild_fwd}
use gud.Codec.Lz4.{Lz4, lz4u_compress, lz4u_decompress, lz4u_compress_bound}

pub data Mode : Type 0 where
  mode_xor mode_sub mode_quant_xor : Mode

pub record TemporalCtx : Type 0 where
  pub width : ℕ
  pub height : ℕ
  pub mode : Mode
  pub keyframe_interval : ℕ
  pub frame_index : ℕ
  pub have_reference : Bool
  pub reference : List ℕ

-- The Booleans tell which allocations succeed.
unfoldable pub temporal_create : Bool → Bool → ℕ → ℕ → Mode → ℕ → Option TemporalCtx
temporal_create has_ctx has_reference width height mode keyframe_interval =
    if has_ctx && has_reference
    then some (record {
      width = width;
      height = height;
      mode = mode;
      keyframe_interval = keyframe_interval;
      frame_index = 0;
      have_reference = false;
      reference = replicate (rgb565_pixel_count width height) 0;
    })
    else none

unfoldable pub temporal_reset : TemporalCtx → TemporalCtx
temporal_reset ctx = record ctx { have_reference = false; frame_index = 0 }

unfoldable pub temporal_bound : Lz4 → ℕ → ℕ → ℕ
temporal_bound lz width height = 1 + lz4u_compress_bound lz (rgb565_byte_size width height)

unfoldable pub is_keyframe_due : TemporalCtx → Bool
is_keyframe_due ctx =
    if not ctx.have_reference
    then true
    else if ctx.keyframe_interval == 0
    then false
    else ctx.frame_index % ctx.keyframe_interval == 0

-- A loop over `n` pixels of two frames.
unfoldable pub zip_pixels : (ℕ → ℕ → ℕ) → ℕ → List ℕ → List ℕ → List ℕ
zip_pixels f (suc n) (a ∷ ps) (b ∷ qs) = f a b ∷ zip_pixels f n ps qs
zip_pixels f _ _ _ = []

-- The difference of an int, as a uint16_t.
unfoldable pub subtract : ℕ → ℕ → ℕ
subtract a b = u16 (2 ^ 16 + a - b)

unfoldable pub add_back : ℕ → ℕ → ℕ
add_back a b = u16 (a + b)

unfoldable pub xor_16 : ℕ → ℕ → ℕ
xor_16 a b = u16 (bit_xor a b)

unfoldable pub target_of : Mode → ℕ → List ℕ → List ℕ
unfolding quant_mild_fwd
target_of mode_quant_xor n src = quant_mild_fwd (take n src)
target_of mode_xor n src = take n src
target_of mode_sub n src = take n src

unfoldable pub delta_op : Mode → ℕ → ℕ → ℕ
unfolding subtract xor_16
delta_op mode_sub = subtract
delta_op mode_xor = xor_16
delta_op mode_quant_xor = xor_16

unfoldable pub undo_op : Mode → ℕ → ℕ → ℕ
unfolding add_back xor_16
undo_op mode_sub = add_back
undo_op mode_xor = xor_16
undo_op mode_quant_xor = xor_16

-- The context after a frame; frame_index is a uint32_t.
unfoldable pub advance : TemporalCtx → List ℕ → ℕ → TemporalCtx
advance ctx frame n = record ctx {
  reference = frame ++ drop n ctx.reference;
  have_reference = true;
  frame_index = (ctx.frame_index + 1) % 2 ^ 32;
}

-- What is compressed: the target itself, or its difference from the reference.
unfoldable pub payload_of : Bool → Mode → ℕ → List ℕ → List ℕ → List ℕ
unfolding delta_op zip_pixels
payload_of true mode n target reference = target
payload_of false mode n target reference = zip_pixels (delta_op mode) n target reference

unfoldable pub header_byte : Bool → ℕ
header_byte true = 1
header_byte false = 0

unfoldable pub encoded :
    TemporalCtx → List ℕ → ℕ → Bool → Option (List ℕ) → TemporalCtx × Option (List ℕ)
unfolding advance header_byte
encoded ctx target n keyframe none = (ctx, none)
encoded ctx target n keyframe (some block) =
    (advance ctx target n, some (header_byte keyframe ∷ block))

-- `none` is (size_t)-1; the Boolean tells whether the two buffers were allocated.
unfoldable pub temporal_encode :
    Lz4 → Bool → TemporalCtx → List ℕ → ℕ → ℕ → ℕ → TemporalCtx × Option (List ℕ)
unfolding target_of is_keyframe_due payload_of encoded
temporal_encode lz allocated ctx src w h dst_cap =
    let n = rgb565_pixel_count w h in
    let target = target_of ctx.mode n src in
    let keyframe = is_keyframe_due ctx in
    if allocated && not (ltb dst_cap 1)
    then encoded ctx target n keyframe (
        lz4u_compress lz (bytes_of (payload_of keyframe ctx.mode n target ctx.reference))
          (dst_cap - 1))
    else (ctx, none)

unfoldable pub rebuild : ℕ → Mode → ℕ → List ℕ → List ℕ → List ℕ
unfolding undo_op zip_pixels
rebuild zero mode n payload reference = zip_pixels (undo_op mode) n payload reference
rebuild (suc k) mode n payload reference = payload

unfoldable pub decoded : TemporalCtx → ℕ → ℕ → Option (List ℕ) → TemporalCtx × Option (List ℕ)
unfolding rebuild advance
decoded ctx n keyframe none = (ctx, none)
decoded ctx n keyframe (some out) =
    let dst = rebuild keyframe ctx.mode n (pixels_of out) ctx.reference in
    if length out == n * 2 then (advance ctx dst n, some dst) else (ctx, none)

-- `none` is -1.
unfoldable pub temporal_decode :
    Lz4 → Bool → TemporalCtx → List ℕ → ℕ → ℕ → TemporalCtx × Option (List ℕ)
unfolding decoded
temporal_decode lz false ctx src w h = (ctx, none)
temporal_decode lz true ctx [] w h = (ctx, none)
temporal_decode lz true ctx (keyframe ∷ src) w h =
    let n = rgb565_pixel_count w h in decoded ctx n keyframe (lz4u_decompress lz src (n * 2))
