-- ===== src/Framebuffer/Range.antt =====
-- What fb_create accepts lies inside its object, so a transfer never reads outside the mapping.
use gud.Base.{
  ℕ, zero, suc, subst, ◌≡◌, ◌+◌, ◌-◌, ◌*◌, ◌%◌, ◌^◌, ◌≤◌, ◌<◌, arith, Bool, true, false, Option,
  none, some, inl, inr, Bool-cases,
}
use gud.Kernel.{Ret, success, failure}
use gud.Layout.{
  PixelFormat, rgb565, xrgb8888, other_format, format_bytes_per_pixel, size_mod, FrameLayout,
  layout, format_frame_layout, validate_framebuffer_range,
}
use gud.Layout.Bounds.{format_frame_layout-IsLayout, validate_framebuffer_range_iff}
use gud.Framebuffer.{
  FbCmd, Fb, created, fb_create, rows_packed, rows_bytes, exceeds_object, planes_invalid,
}

-- The last byte of the last row is within the object.
pub record InObject (fb : Fb) : Type 0 where
  pub line_fits : fb.width * format_bytes_per_pixel fb.pixel_format ≤ fb.pitch
  pub last_row :
      fb.offset + (fb.height - 1) * fb.pitch + fb.width * format_bytes_per_pixel fb.pixel_format
      ≤ fb.object_size
  pub height_pos : 0 < fb.height

product_small : (h p : ℕ) → h ≤ 2 ^ 32 - 2 → p ≤ 2 ^ 32 - 1 → h * p ≤ (2 ^ 32 - 2) * (2 ^ 32 - 1)
product_small h p hh hp = grind arith

no_rows : (h p : ℕ) → h ≤ 1 → (h - 1) * p ≡ 0
no_rows h p le = grind arith

rows_bytes_exact :
    (cmd : FbCmd)
    → cmd.height < 2 ^ 32
    → cmd.pitch < 2 ^ 32
    → (rows_bytes cmd ≡ (cmd.height - 1) * cmd.pitch)
      × ((cmd.height - 1) * cmd.pitch ≤ (2 ^ 32 - 2) * (2 ^ 32 - 1))
unfolding rows_bytes
rows_bytes_exact cmd hh hp =
    ground (arith, product_small (cmd.height - 1) cmd.pitch, no_rows cmd.height cmd.pitch)

within_object :
    (cmd : FbCmd) (line_bytes size : ℕ)
    → cmd.height < 2 ^ 32
    → cmd.offset < 2 ^ 32
    → cmd.pitch < 2 ^ 32
    → line_bytes ≤ cmd.pitch
    → exceeds_object cmd line_bytes size ≡ false
    → cmd.offset + (cmd.height - 1) * cmd.pitch + line_bytes ≤ size
unfolding exceeds_object
within_object cmd line_bytes size hh ho hp hl e = ground (arith, rows_bytes_exact cmd hh hp)

abbrev line_of : FbCmd → ℕ
line_of cmd = cmd.width * format_bytes_per_pixel cmd.pixel_format % size_mod

abbrev fb_of : FbCmd → ℕ → Fb
fb_of cmd size = record {
  width = cmd.width;
  height = cmd.height;
  pixel_format = cmd.pixel_format;
  pitch = cmd.pitch;
  offset = cmd.offset;
  object_size = size;
}

line_exact :
    (width : ℕ) (format : PixelFormat)
    → width < 2 ^ 32
    → width * format_bytes_per_pixel format % size_mod ≡ width * format_bytes_per_pixel format
unfolding format_bytes_per_pixel
line_exact width rgb565 h = omega arith
line_exact width xrgb8888 h = omega arith
line_exact width (other_format n) h = omega arith

fb_create-accepts :
    (linear : ℕ) (cmd : FbCmd) (size : ℕ) (allocated : Bool) (fb : Fb)
    → fb_create linear cmd (some size) allocated success ≡ created fb
    → (planes_invalid linear cmd ≡ false)
      × (line_of cmd ≤ cmd.pitch)
      × (exceeds_object cmd (line_of cmd) size ≡ false)
      × (fb_of cmd size ≡ fb)
unfolding fb_create
fb_create-accepts linear cmd size allocated fb e = elim (Bool-cases (planes_invalid linear cmd)) [
  | inl bad ↦ absurd (ground arith)
  | inr ok ↦ elim (Bool-cases (exceeds_object cmd (line_of cmd) size)) [
    | inl bad ↦ ground arith
    | inr fine ↦ ground arith
  ]
]

planes_valid-height :
    (linear : ℕ) (cmd : FbCmd) → planes_invalid linear cmd ≡ false → 0 < cmd.height
unfolding planes_invalid
planes_valid-height linear cmd e = ground arith

fb_of-InObject :
    (linear : ℕ) (cmd : FbCmd) (size : ℕ)
    → cmd.width < 2 ^ 32
    → cmd.height < 2 ^ 32
    → cmd.offset < 2 ^ 32
    → cmd.pitch < 2 ^ 32
    → planes_invalid linear cmd ≡ false
    → line_of cmd ≤ cmd.pitch
    → exceeds_object cmd (line_of cmd) size ≡ false
    → InObject (fb_of cmd size)
fb_of-InObject linear cmd size w h o p valid line fits =
    let exact = line_exact cmd.width cmd.pixel_format w in
    let inside = within_object cmd (line_of cmd) size h o p line fits in
    record {
      line_fits = grind arith;
      last_row = grind arith;
      height_pos = planes_valid-height linear cmd valid;
    }

-- A framebuffer that fb_create accepts, from a command whose width, height, offset and pitch fit
-- 32 bits, lies inside its object: a line fits the pitch, the height is positive, and the last
-- byte of the last row is within the size of the object.
pub fb_create-InObject :
    (linear : ℕ) (cmd : FbCmd) (object : Option ℕ) (allocated : Bool) (registered : Ret) (fb : Fb)
    → cmd.width < 2 ^ 32
    → cmd.height < 2 ^ 32
    → cmd.offset < 2 ^ 32
    → cmd.pitch < 2 ^ 32
    → fb_create linear cmd object allocated registered ≡ created fb
    → InObject fb
unfolding fb_create format_bytes_per_pixel planes_invalid
fb_create-InObject linear cmd none allocated registered fb w h o p e = ground arith
fb_create-InObject linear cmd (some size) allocated (failure err) fb w h o p e = ground arith
fb_create-InObject linear cmd (some size) allocated success fb w h o p e =
    let (valid, line, fits, same) = fb_create-accepts linear cmd size allocated fb e in
    subst (λ made. InObject made) same (fb_of-InObject linear cmd size w h o p valid line fits)

packed_sum : (height pitch : ℕ) → 0 < height → (height - 1) * pitch + pitch ≡ pitch * height
packed_sum zero pitch h = absurd (omega arith)
packed_sum (suc height) pitch h = grind arith

-- For a framebuffer that fb_create accepted, whose rows are packed and whose frame has a layout,
-- the range check before a transfer succeeds, where width, height, offset and pitch fit 32 bits.
pub fb_create-validate_framebuffer_range :
    (linear : ℕ) (cmd : FbCmd) (object : Option ℕ) (allocated : Bool) (registered : Ret) (fb : Fb)
    (l : FrameLayout)
    → cmd.width < 2 ^ 32
    → cmd.height < 2 ^ 32
    → cmd.offset < 2 ^ 32
    → cmd.pitch < 2 ^ 32
    → fb_create linear cmd object allocated registered ≡ created fb
    → fb.width < 2 ^ 32
    → rows_packed fb ≡ true
    → format_frame_layout fb.width fb.height fb.pixel_format ≡ layout l
    → validate_framebuffer_range fb.offset l.total fb.object_size ≡ success
unfolding rows_packed
fb_create-validate_framebuffer_range linear cmd object allocated registered fb l w h o p e fw packed
      lay =
    let inside = fb_create-InObject linear cmd object allocated registered fb w h o p e in
    let exact = format_frame_layout-IsLayout fb.width fb.height fb.pixel_format l fw lay in
    (validate_framebuffer_range_iff fb.offset l.total fb.object_size).1 (
      grind (
        arith,
        packed_sum fb.height fb.pitch inside.height_pos,
        inside.line_fits,
        inside.last_row,
        exact.line_exact,
        exact.total_exact,
      ))
