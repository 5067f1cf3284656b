-- ===== src/Flush/Overlap/Shadow.antt =====
-- What the shadow buffer holds while the worker reads it and queueings write it.
use gud.Base.{
  ℕ, ◌+◌, ◌*◌, ◌^◌, ◌≤◌, ◌<◌, ◌≡◌, sym, ◌∙◌, subst, arith, Bool, some, List, length, take, drop,
  inl, inr, ◌⊎◌,
}
use gud.Kernel.{Ret, Ret-cases}
use gud.Layout.{FrameLayout, format_frame_layout, layout, format_bytes_per_pixel}
use gud.Layout.Bounds.{IsLayout, format_frame_layout-IsLayout}
use gud.Flush.{ScanFb, Async, queue_damage, shadow_frame, copy_frame, map_frame, take_work}
use gud.Flush.Coherent.{IsCoherent, map_frame-success, copied-length}
use gud.Flush.Delivery.{visible, copy_frame-visible}

-- The shadow buffer holds a frame with the property, as long as the frame that is sent.
pub record IsShadow (F : List ℕ → Type 0) (total : ℕ) (a : Async) : Type 0 where
  pub bytes : List ℕ
  pub held : a.shadow_buf ≡ some bytes
  pub size : length bytes ≡ total
  pub recorded : a.shadow_buf_size ≡ total
  pub source : F bytes

shadow_frame-kept :
    (allocated : Bool) (fb : ScanFb) (total : ℕ) (a : Async) (bytes : List ℕ)
    → a.shadow_buf ≡ some bytes
    → ((shadow_frame allocated fb total a).1 ≡ a)
      ⊎ (a.shadow_buf_size ≡ total)
        × ((shadow_frame allocated fb total a).1 ≡ copy_frame fb total a)
unfolding shadow_frame
shadow_frame-kept allocated fb total a bytes e = ground arith

copy_frame-IsShadow :
    (F : List ℕ → Type 0) (total : ℕ) (fb : ScanFb) (l : FrameLayout) (a : Async)
    → IsLayout fb.width fb.height fb.pixel_format l
    → fb.offset + l.total ≤ length fb.object
    → l.total ≡ total
    → F (visible fb)
    → IsShadow F total (copy_frame fb l.total a)
copy_frame-IsShadow F total fb l a i inside same source =
    let whole : l.total ≡ fb.width * format_bytes_per_pixel fb.pixel_format * fb.height =
      ground (arith, i.line_exact, i.total_exact) in
    record {
      bytes = visible fb;
      held = (copy_frame-visible fb l a i).1;
      size =
          subst (λ n. length (take n (drop fb.offset fb.object)) ≡ n) whole
            (copied-length fb l.total inside)
          ∙ sym whole
          ∙ same;
      recorded = unfold copy_frame in same;
      source = source;
    }

pub queue_damage-IsShadow :
    (F : List ℕ → Type 0) (total : ℕ) (vmap : Ret) (allocated : Bool) (fb : ScanFb) (a : Async)
    → fb.width < 2 ^ 32
    → F (visible fb)
    → IsShadow F total a
    → IsShadow F total (queue_damage vmap allocated fb a).1
unfolding queue_damage
queue_damage-IsShadow F total vmap allocated fb a w source s =
    elim (Ret-cases (map_frame vmap fb).0) [
      | inr (err, bad) ↦
          let same : (queue_damage vmap allocated fb a).1 ≡ a = ground arith in
          subst (λ b. IsShadow F total b) (sym same) s
      | inl fine ↦
          let (l, good, is_total, inside) = map_frame-success vmap fb fine in
          let i = format_frame_layout-IsLayout fb.width fb.height fb.pixel_format l w good in
          elim (shadow_frame-kept allocated fb l.total a s.bytes s.held) [
            | inl refused ↦
                let same : (queue_damage vmap allocated fb a).1 ≡ a = ground arith in
                subst (λ b. IsShadow F total b) (sym same) s
            | inr (fits, copied) ↦
                let new : (queue_damage vmap allocated fb a).1 ≡ copy_frame fb l.total a =
                  ground arith in
                subst (λ b. IsShadow F total b) (sym new)
                  (copy_frame-IsShadow F total fb l a i inside (sym fits ∙ s.recorded) source)
          ]
    ]

-- What the worker finds in a state that calls can reach is a shadow buffer as long as its frame.
pub IsCoherent-IsShadow :
    (F : List ℕ → Type 0) (a : Async) (fb : ScanFb) (l : FrameLayout) (bytes : List ℕ)
    → IsCoherent a
    → a.async_fb ≡ some fb
    → format_frame_layout fb.width fb.height fb.pixel_format ≡ layout l
    → a.shadow_buf ≡ some bytes
    → F bytes
    → IsShadow F l.total (take_work a)
unfolding take_work
IsCoherent-IsShadow F a fb l bytes c pending good held source =
    let (found, found_good, found_size) = c.pending_fits fb pending in
    let same : l.total ≡ found.total = ground arith in
    record {
      bytes = bytes;
      held = held;
      size = c.shadow_size bytes held ∙ found_size ∙ sym same;
      recorded = found_size ∙ sym same;
      source = source;
    }
