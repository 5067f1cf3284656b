-- ===== src/Framebuffer.antt =====
-- Framebuffer objects: gud_fb_create of backport-4.9/gud_pipe.c, gud_gem_create and
-- gud_gem_dumb_create of backport-4.9/gud_gem_4_9.c. What DRM's object table, the allocator and
-- drm_framebuffer_init return is an argument.
pub mod Range
use gud.Base.{
  ℕ, ◌+◌, ◌-◌, ◌*◌, ◌/◌, ◌%◌, ◌^◌, Bool, true, false, ◌||◌, ◌&&◌, not, Option, none, some, ◌==◌,
  ltb, leb, if◌then◌else◌,
}
use gud.Kernel.{Errno, Ret, success, failure, einval, enoent, enomem}
use gud.Layout.{
  PixelFormat, rgb565, xrgb8888, other_format, format_bytes_per_pixel, size_mod, size_max, u32_max,
}

-- `struct drm_mode_fb_cmd2`: the first plane, and whether any other plane is given.
pub record FbCmd : Type 0 where
  pub width : ℕ
  pub height : ℕ
  pub pixel_format : PixelFormat
  pub handle : ℕ
  pub pitch : ℕ
  pub offset : ℕ
  pub modifier : ℕ
  pub other_handles : Bool
  pub other_pitches : Bool
  pub other_offsets : Bool
  pub other_modifiers : Bool

-- An accepted framebuffer over an object of `object_size` bytes.
pub record Fb : Type 0 where
  pub width : ℕ
  pub height : ℕ
  pub pixel_format : PixelFormat
  pub pitch : ℕ
  pub offset : ℕ
  pub object_size : ℕ

pub data FbResult : Type 0 where
  created : Fb → FbResult
  rejected : Errno → FbResult

unfoldable pub is_supported : PixelFormat → Bool
is_supported rgb565 = true
is_supported xrgb8888 = true
is_supported (other_format n) = false

-- The checks on the planes, before any arithmetic; `linear` is DRM_FORMAT_MOD_LINEAR.
unfoldable pub planes_invalid : ℕ → FbCmd → Bool
unfolding is_supported
planes_invalid linear cmd =
    cmd.width == 0
    || cmd.height == 0
    || cmd.handle == 0
    || not (is_supported cmd.pixel_format)
    || cmd.other_handles
    || cmd.other_pitches
    || cmd.other_offsets
    || (not (cmd.modifier == 0) && not (cmd.modifier == linear))
    || cmd.other_modifiers

-- The bytes of all rows but the last; the multiplication is checked by dividing again.
unfoldable pub rows_overflow : FbCmd → Bool
rows_overflow cmd =
    ltb 1 cmd.height
    && not (cmd.pitch == 0)
    && not ((cmd.height - 1) * cmd.pitch % size_mod / cmd.pitch == cmd.height - 1)

unfoldable pub rows_bytes : FbCmd → ℕ
rows_bytes cmd = if ltb 1 cmd.height then (cmd.height - 1) * cmd.pitch % size_mod else 0

unfoldable pub exceeds_object : FbCmd → ℕ → ℕ → Bool
unfolding rows_bytes
exceeds_object cmd line_bytes size =
    let min_size = (cmd.offset + rows_bytes cmd) % size_mod in
    ltb min_size cmd.offset
    || ltb ((min_size + line_bytes) % size_mod) min_size
    || ltb size ((min_size + line_bytes) % size_mod)

-- `object` is the size of the object behind the handle, `allocated` whether kzalloc succeeds, and
-- `registered` the result of drm_framebuffer_init.
unfoldable pub fb_create : ℕ → FbCmd → Option ℕ → Bool → Ret → FbResult
unfolding planes_invalid rows_overflow exceeds_object
fb_create linear cmd object allocated registered =
    let line_bytes = cmd.width * format_bytes_per_pixel cmd.pixel_format % size_mod in
    if planes_invalid linear cmd
    then rejected einval
    else if ltb u32_max line_bytes || ltb cmd.pitch line_bytes || rows_overflow cmd
    then rejected einval
    else elim object [
      | none ↦ rejected enoent
      | some size ↦
          if exceeds_object cmd line_bytes size
          then rejected einval
          else if not allocated
          then rejected enomem
          else elim registered [
            | failure e ↦ rejected e
            | success ↦ created (record {
              width = cmd.width;
              height = cmd.height;
              pixel_format = cmd.pixel_format;
              pitch = cmd.pitch;
              offset = cmd.offset;
              object_size = size;
            })
          ]
    ]

-- `ALIGN(size, boundary)` for a power of two.
abbrev align : ℕ → ℕ → ℕ
align size boundary = (size + (boundary - 1)) / boundary * boundary

-- The size that gud_gem_create gives an object, in pages.
unfoldable pub gem_size : ℕ → ℕ → Option ℕ
gem_size page_size size =
    if size == 0 || ltb (size_max - (page_size - 1)) size
    then none
    else some (align size page_size % size_mod)

pub record Dumb : Type 0 where
  pub pitch : ℕ
  pub size : ℕ

-- The geometry of gud_gem_dumb_create; `none` is -EINVAL.
unfoldable pub dumb_create : ℕ → ℕ → ℕ → ℕ → Option Dumb
unfolding gem_size
dumb_create page_size width height bpp =
    let bytes_per_pixel = bpp / 8 in
    let pitch = align (width * bytes_per_pixel % size_mod) 4 in
    if not (bpp == 16) && not (bpp == 32)
    then none
    else if width == 0 || height == 0 || ltb (u32_max / bytes_per_pixel) width
    then none
    else if ltb (size_max / pitch) height
    then none
    else elim (gem_size page_size (pitch * height % size_mod)) [
      | none ↦ none
      | some size ↦ some (record { pitch = pitch; size = size })
    ]

-- The framebuffer test of gud_pipe_check: padded rows are refused. The product is a u32.
unfoldable pub rows_packed : Fb → Bool
rows_packed fb = fb.pitch == fb.width * format_bytes_per_pixel fb.pixel_format % 2 ^ 32
