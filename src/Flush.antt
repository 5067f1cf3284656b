-- ===== src/Flush.antt =====
-- The asynchronous state: gud_async_init, gud_async_cancel, gud_async_stop, gud_fb_queue_damage and
-- what gud_flush_work takes under damage_lock, of backport-4.9/gud_pipe.c. What vmap and vzalloc
-- return is an argument.
pub mod Work
pub mod Coherent
pub mod Run
pub mod Delivery
pub mod Update
pub mod Overlap
use gud.Base.{
  ℕ, ◌+◌, ◌-◌, ◌%◌, ◌^◌, min, max, Bool, true, false, ◌||◌, ◌&&◌, not, Option, none, some, List, [],
  ◌∷◌, length, take, drop, ◌==◌, if◌then◌else◌,
}
use gud.Kernel.{Ret, success, failure, einval, enodev, enomem}
use gud.Layout.{
  PixelFormat, format_frame_layout, FrameLayout, layout, no_layout, validate_framebuffer_range,
}

-- `struct drm_framebuffer` with the bytes that its object has when it is mapped.
pub record ScanFb : Type 0 where
  pub id : ℕ
  pub width : ℕ
  pub height : ℕ
  pub pixel_format : PixelFormat
  pub offset : ℕ
  pub object : List ℕ

pub record Damage : Type 0 where
  pub x1 : ℕ
  pub y1 : ℕ
  pub x2 : ℕ
  pub y2 : ℕ

-- The fields of `struct gud_device` under damage_lock, whether async_work is queued, and the
-- references that this state holds on each framebuffer.
pub record Async : Type 0 where
  pub async_fb : Option ScanFb
  pub shadow_buf : Option (List ℕ)
  pub shadow_buf_size : ℕ
  pub async_damage : Damage
  pub async_submit_sequence : ℕ
  pub async_worker_sequence : ℕ
  pub async_stopping : Bool
  pub queued : Bool
  pub refs : ℕ → ℕ

abbrev pub clear_damage : Damage
clear_damage = record { x1 = 2 ^ 31 - 1; y1 = 2 ^ 31 - 1; x2 = 0; y2 = 0 }

unfoldable pub async_init : Async
async_init = record {
  async_fb = none;
  shadow_buf = none;
  shadow_buf_size = 0;
  async_damage = clear_damage;
  async_submit_sequence = 0;
  async_worker_sequence = 0;
  async_stopping = false;
  queued = false;
  refs = λ id. 0;
}

-- drm_framebuffer_reference and drm_framebuffer_unreference.
unfoldable pub reference : ℕ → (ℕ → ℕ) → ℕ → ℕ
reference id refs other = if other == id then refs other + 1 else refs other

unfoldable pub unreference : ℕ → (ℕ → ℕ) → ℕ → ℕ
unreference id refs other = if other == id then refs other - 1 else refs other

unfoldable pub release : Option ScanFb → (ℕ → ℕ) → ℕ → ℕ
release none refs = refs
release (some fb) refs = unreference fb.id refs

-- Framebuffers are compared by their addresses.
unfoldable pub is_pending : ScanFb → Option ScanFb → Bool
is_pending fb none = false
is_pending fb (some old) = old.id == fb.id

-- The layout of the frame, with the offset checked against the mapping.
unfoldable pub map_frame : Ret → ScanFb → Ret × ℕ
map_frame vmap fb = elim (format_frame_layout fb.width fb.height fb.pixel_format) [
  | no_layout e ↦ (failure e, 0)
  | layout l ↦ elim vmap [
    | failure e ↦ (failure e, 0)
    | success ↦ (validate_framebuffer_range fb.offset l.total (length fb.object), l.total)
  ]
]

-- The new reference goes to `fb`, and the one of the framebuffer it replaces is dropped. The same
-- pointer keeps its reference; it stands for the framebuffer as it is now.
unfoldable pub replace_fb : ScanFb → Async → Async
unfolding reference release is_pending
replace_fb fb a =
    if is_pending fb a.async_fb
    then record a { async_fb = some fb }
    else record a { async_fb = some fb; refs = release a.async_fb (reference fb.id a.refs) }

unfoldable pub note_damage : ScanFb → Damage → Damage
note_damage fb d = record {
  x1 = min d.x1 0;
  y1 = min d.y1 0;
  x2 = max d.x2 fb.width;
  y2 = max d.y2 fb.height;
}

-- From memcpy to queue_work.
unfoldable pub copy_frame : ScanFb → ℕ → Async → Async
unfolding replace_fb note_damage
copy_frame fb total a =
    let b = replace_fb fb a in
    record b {
      shadow_buf = some (take total (drop fb.offset fb.object));
      shadow_buf_size = total;
      async_damage = note_damage fb a.async_damage;
      async_submit_sequence = (a.async_submit_sequence + 1) % 2 ^ 64;
      queued = true;
    }

-- Under damage_lock; `allocated` is whether vzalloc succeeds.
unfoldable pub shadow_frame : Bool → ScanFb → ℕ → Async → Ret × Async
shadow_frame allocated fb total a =
    if a.async_stopping then (failure enodev, a) else elim a.shadow_buf [
      | none ↦ if allocated then (success, copy_frame fb total a) else (failure enomem, a)
      | some bytes ↦
          if a.shadow_buf_size == total
          then (success, copy_frame fb total a)
          else (failure einval, a)
    ]

unfoldable pub queue_damage : Ret → Bool → ScanFb → Async → Ret × Async
unfolding map_frame shadow_frame
queue_damage vmap allocated fb a =
    let (ret, total) = map_frame vmap fb in
    elim ret [ failure e ↦ (failure e, a) | success ↦ shadow_frame allocated fb total a ]

-- gud_async_cancel waits for the worker, which holds no lock while it runs.
unfoldable pub cancel : Async → Async
unfolding release
cancel a = record a {
  async_fb = none;
  shadow_buf = none;
  shadow_buf_size = 0;
  async_damage = clear_damage;
  queued = false;
  refs = release a.async_fb a.refs;
}

unfoldable pub stop : Async → Async
stop a = cancel (record a { async_stopping = true })

-- What the worker takes under damage_lock; its reference is kept until the transfer ends.
unfoldable pub take_work : Async → Async
take_work a = record a {
  async_fb = none;
  async_damage = clear_damage;
  async_worker_sequence = (a.async_worker_sequence + 1) % 2 ^ 64;
  queued = false;
}
