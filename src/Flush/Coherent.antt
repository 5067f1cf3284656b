-- ===== src/Flush/Coherent.antt =====
-- The pending frame and the shadow buffer stay together through every sequence of calls.
use gud.Base.{
  sym, ℕ, ◌+◌, ◌≤◌, ◌≡◌, ◌≢◌, refl, ap, ◌∙◌, subst, arith, Bool, true, false, Option, none, some,
  List, length, take, drop, length-take, length-drop, ◌==◌, if◌then◌else◌, Bool-cases, Option-cases,
  inl, inr, ◌⊎◌,
}
use gud.Kernel.{Errno, Ret, success, failure, Ret-cases}
use gud.Layout.{LayoutResult, format_frame_layout, FrameLayout, layout, no_layout}
use gud.Layout.Bounds.{validate_framebuffer_range_iff}
use gud.Usb.{Usb, Host}
use gud.Pipe.{Params}
use gud.Flush.{
  ScanFb, Async, async_init, reference, unreference, release, is_pending, map_frame, replace_fb,
  copy_frame, shadow_frame, queue_damage, cancel, take_work,
}
use gud.Flush.Work.{flush_work}

-- How many references the pending slot accounts for.
unfoldable pub held : Option ScanFb → ℕ → ℕ
held none id = 0
held (some fb) id = if id == fb.id then 1 else 0

-- A pending frame has a shadow buffer with exactly the bytes of its layout and a queued worker, the
-- recorded size is the size of the buffer, and the only reference held is that of the pending frame.
pub record IsCoherent (a : Async) : Type 0 where
  pub shadow_size : (bytes : List ℕ) → a.shadow_buf ≡ some bytes → length bytes ≡ a.shadow_buf_size
  pub pending_fits :
      (fb : ScanFb)
      → a.async_fb ≡ some fb
      → (l : FrameLayout) × (format_frame_layout fb.width fb.height fb.pixel_format ≡ layout l)
        × (a.shadow_buf_size ≡ l.total)
  pub pending_shadow :
      (fb : ScanFb) → a.async_fb ≡ some fb → (bytes : List ℕ) × (a.shadow_buf ≡ some bytes)
  pub pending_queued : (fb : ScanFb) → a.async_fb ≡ some fb → a.queued ≡ true
  pub balanced : (id : ℕ) → a.refs id ≡ held a.async_fb id
  pub stopped : a.async_stopping ≡ true → a.async_fb ≡ none

pub async_init-IsCoherent : IsCoherent async_init
unfolding async_init held
async_init-IsCoherent = record {
  shadow_size = λ bytes e. ground arith;
  pending_fits = λ fb e. absurd (ground arith);
  pending_shadow = λ fb e. absurd (ground arith);
  pending_queued = λ fb e. ground arith;
  balanced = λ id. refl;
  stopped = λ e. refl;
}

release-balanced :
    (pending : Option ScanFb) (refs : ℕ → ℕ) (id : ℕ)
    → refs id ≡ held pending id
    → release pending refs id ≡ 0
unfolding release unreference held
release-balanced none refs id e = e
release-balanced (some fb) refs id e = ground arith

kept-balanced :
    (fb : ScanFb) (pending : Option ScanFb) (id : ℕ)
    → is_pending fb pending ≡ true
    → held pending id ≡ held (some fb) id
unfolding is_pending held
kept-balanced fb none id same = ground arith
kept-balanced fb (some old) id same = ground arith

swapped-balanced :
    (fb : ScanFb) (pending : Option ScanFb) (refs : ℕ → ℕ) (id : ℕ)
    → is_pending fb pending ≡ false
    → refs id ≡ held pending id
    → release pending (reference fb.id refs) id ≡ held (some fb) id
unfolding is_pending held release reference unreference
swapped-balanced fb none refs id other e = ground arith
swapped-balanced fb (some old) refs id other e = ground arith

replace-balanced :
    (fb : ScanFb) (a : Async) (id : ℕ)
    → a.refs id ≡ held a.async_fb id
    → (replace_fb fb a).refs id ≡ held (some fb) id
unfolding replace_fb
replace-balanced fb a id e =
    ground (arith, kept-balanced fb a.async_fb id, swapped-balanced fb a.async_fb a.refs id)

pub layout-cases :
    (r : LayoutResult) → ((e : Errno) × (r ≡ no_layout e)) ⊎ ((l : FrameLayout) × (r ≡ layout l))
layout-cases (no_layout e) = inl (e, refl)
layout-cases (layout l) = inr (l, refl)

pub map_frame-success :
    (vmap : Ret) (fb : ScanFb)
    → (map_frame vmap fb).0 ≡ success
    → (l : FrameLayout) × (format_frame_layout fb.width fb.height fb.pixel_format ≡ layout l)
      × ((map_frame vmap fb).1 ≡ l.total)
      × (fb.offset + l.total ≤ length fb.object)
unfolding map_frame
map_frame-success (failure err) fb e =
    elim (layout-cases (format_frame_layout fb.width fb.height fb.pixel_format)) [
      | inl (bad_err, bad) ↦ absurd (ground arith)
      | inr (l, good) ↦ absurd (ground arith)
    ]
map_frame-success success fb e =
    elim (layout-cases (format_frame_layout fb.width fb.height fb.pixel_format)) [
      | inl (err, bad) ↦ absurd (ground arith)
      | inr (l, good) ↦ (
        l,
        good,
        ground arith,
        ground (arith, (validate_framebuffer_range_iff fb.offset l.total (length fb.object)).0),
      )
    ]

pub copied-length :
    (fb : ScanFb) (total : ℕ)
    → fb.offset + total ≤ length fb.object
    → length (take total (drop fb.offset fb.object)) ≡ total
copied-length fb total inside =
    ground (arith, length-take total (drop fb.offset fb.object), length-drop fb.offset fb.object)

fb_or : ScanFb → Option ScanFb → ScanFb
fb_or other none = other
fb_or other (some fb) = fb

some_injective : (fb other : ScanFb) → some fb ≡ some other → fb ≡ other
unfolding fb_or
some_injective fb other e = ap (λ pending. fb_or other pending) e

pub replace-async_fb : (fb : ScanFb) (a : Async) → (replace_fb fb a).async_fb ≡ some fb
unfolding replace_fb
replace-async_fb fb a = ground arith

copy_frame-IsCoherent :
    (fb : ScanFb) (l : FrameLayout) (a : Async)
    → IsCoherent a
    → format_frame_layout fb.width fb.height fb.pixel_format ≡ layout l
    → fb.offset + l.total ≤ length fb.object
    → a.async_stopping ≡ false
    → IsCoherent (copy_frame fb l.total a)
unfolding copy_frame replace_fb
copy_frame-IsCoherent fb l a i good inside running = record {
  shadow_size = λ bytes e. ground (arith, copied-length fb l.total inside);
  pending_fits = λ other e. (
    l,
    subst (λ chosen. format_frame_layout chosen.width chosen.height chosen.pixel_format ≡ layout l)
        (some_injective fb other (sym (replace-async_fb fb a) ∙ e)) good,
    ground arith,
  );
  pending_shadow = λ other e. (take l.total (drop fb.offset fb.object), ground arith);
  pending_queued = λ other e. ground arith;
  balanced = λ id.
      replace-balanced fb a id (i.balanced id)
      ∙ ap (λ pending. held pending id) (sym (replace-async_fb fb a));
  stopped = λ e. absurd (ground arith);
}

pub release_all-IsCoherent :
    (a : Async) (stopping : Bool)
    → IsCoherent a
    → IsCoherent (cancel (record a { async_stopping = stopping }))
unfolding cancel held
release_all-IsCoherent a stopping i = record {
  shadow_size = λ bytes e. ground arith;
  pending_fits = λ fb e. absurd (ground arith);
  pending_shadow = λ fb e. absurd (ground arith);
  pending_queued = λ fb e. ground arith;
  balanced = λ id. release-balanced a.async_fb a.refs id (i.balanced id);
  stopped = λ e. refl;
}

shadow_frame-cases :
    (allocated : Bool) (fb : ScanFb) (total : ℕ) (a : Async)
    → (((shadow_frame allocated fb total a).0 ≢ success)
        × ((shadow_frame allocated fb total a).1 ≡ a))
      ⊎ ((a.async_stopping ≡ false)
          × ((shadow_frame allocated fb total a).0 ≡ success)
          × ((shadow_frame allocated fb total a).1 ≡ copy_frame fb total a))
unfolding shadow_frame
shadow_frame-cases allocated fb total a = elim (Bool-cases a.async_stopping) [
  | inl halted ↦ inl (ground arith, ground arith)
  | inr running ↦ elim (Option-cases a.shadow_buf) [
    | inl fresh ↦ elim (Bool-cases allocated) [
      | inl got ↦ inr (running, ground arith, ground arith)
      | inr refused ↦ inl (ground arith, ground arith)
    ]
    | inr (bytes, kept) ↦ elim (Bool-cases (a.shadow_buf_size == total)) [
      | inl same ↦ inr (running, ground arith, ground arith)
      | inr other ↦ inl (ground arith, ground arith)
    ]
  ]
]

pub queue_damage-cases :
    (vmap : Ret) (allocated : Bool) (fb : ScanFb) (a : Async)
    → (((queue_damage vmap allocated fb a).0 ≢ success)
        × ((queue_damage vmap allocated fb a).1 ≡ a))
      ⊎ ((l : FrameLayout) × (format_frame_layout fb.width fb.height fb.pixel_format ≡ layout l)
          × (fb.offset + l.total ≤ length fb.object)
          × (a.async_stopping ≡ false)
          × ((queue_damage vmap allocated fb a).0 ≡ success)
          × ((queue_damage vmap allocated fb a).1 ≡ copy_frame fb l.total a))
unfolding queue_damage
queue_damage-cases vmap allocated fb a = elim (Ret-cases (map_frame vmap fb).0) [
  | inr (err, bad) ↦ inl (ground arith, ground arith)
  | inl fine ↦
      let (l, good, total, inside) = map_frame-success vmap fb fine in
      elim (shadow_frame-cases allocated fb l.total a) [
        | inl (refused, same) ↦ inl (ground arith, ground arith)
        | inr (running, done, copied) ↦ inr (l, good, inside, running, ground arith, ground arith)
      ]
]

pub queue_damage-IsCoherent :
    (vmap : Ret) (allocated : Bool) (fb : ScanFb) (a : Async)
    → IsCoherent a
    → IsCoherent (queue_damage vmap allocated fb a).1
queue_damage-IsCoherent vmap allocated fb a i = elim (queue_damage-cases vmap allocated fb a) [
  | inl (refused, same) ↦ subst (λ b. IsCoherent b) (sym same) i
  | inr (l, good, inside, running, done, copied) ↦
      subst (λ b. IsCoherent b) (sym copied) (copy_frame-IsCoherent fb l a i good inside running)
]

pub flush_work-IsCoherent :
    {Env : Type 0} (usb : Usb Env) (lz4 : List ℕ → ℕ → Option (List ℕ)) (params : Params)
    (a : Async) (h : Host Env)
    → IsCoherent a
    → IsCoherent (flush_work usb lz4 params a h).0
unfolding flush_work take_work held
flush_work-IsCoherent usb lz4 params a h i = record {
  shadow_size = i.shadow_size;
  pending_fits = λ fb e. absurd (ground arith);
  pending_shadow = λ fb e. absurd (ground arith);
  pending_queued = λ fb e. ground arith;
  balanced = λ id. release-balanced a.async_fb a.refs id (i.balanced id);
  stopped = λ e. refl;
}
