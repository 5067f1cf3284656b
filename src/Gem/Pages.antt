-- ===== src/Gem/Pages.antt =====
-- An object's pages are fetched once, and a fault never reads past their array.
use gud.Base.{
  ℕ, ◌+◌, ◌-◌, ◌/◌, ◌≡◌, ◌≢◌, ◌⊎◌, ◌∙◌, sym, arith, true, none, some, List, [], ◌∷◌, length, leb,
  get_elem?-some, Option-cases, Bool-cases, inl, inr,
}
use gud.Gem.{
  page_size, GemObject, PagesReply, page_array, past_array, Insertion, insertion_fault, get_pages,
  gem_vmap, dumb_map_offset, gem_fault, free_object, Call, pages_call, vmap_call, offset_call,
  gem_step, gem_run,
}

-- An array of pages is as long as the object, a mapping stands on pages, and an imported object
-- has neither.
pub record IsBacked (obj : GemObject) : Type 0 where
  pub pages_whole : (pages : List ℕ) → obj.pages ≡ some pages → length pages ≡ obj.size / page_size
  pub mapped_pages : obj.pages ≡ none → obj.vaddr ≡ none
  pub import_bare : obj.imported ≡ true → obj.pages ≡ none

-- drm_gem_get_pages returns one page for each page of the size, or an error.
pub record IsPager (drm_gem_get_pages : ℕ → ℕ → PagesReply) : Type 0 where
  pub whole :
      (time size : ℕ) (pages : List ℕ)
      → drm_gem_get_pages time size ≡ page_array pages
      → length pages ≡ size / page_size

insertion_fault-ne-past_array : (page : ℕ) (i : Insertion) → insertion_fault page i ≢ past_array
unfolding insertion_fault
insertion_fault-ne-past_array page i = ground arith

-- A fault on a backed object never reads past the array.
gem_fault-ne-past_array :
    (i : Insertion) (vm_start address : ℕ) (obj : GemObject)
    → IsBacked obj
    → gem_fault i vm_start address obj ≢ past_array
unfolding gem_fault
gem_fault-ne-past_array i vm_start address obj b e =
    let page_offset : ℕ = (address - vm_start) / page_size in
    elim (Option-cases obj.pages) [
      | inl bare ↦ ground arith
      | inr (pages, backed) ↦ elim (Bool-cases (leb (obj.size / page_size) page_offset)) [
        | inl beyond ↦ ground arith
        | inr inside ↦
            let whole = b.pages_whole pages backed in
            let (page, found) = get_elem?-some pages page_offset (ground arith) in
            ground (arith, insertion_fault-ne-past_array page i)
      ]
    ]

module _ (drm_gem_get_pages : ℕ → ℕ → PagesReply) (law : IsPager drm_gem_get_pages) where
  get_pages-IsBacked :
      (time : ℕ) (obj : GemObject)
      → IsBacked obj
      → IsBacked (get_pages (drm_gem_get_pages time obj.size) obj).1
  unfolding get_pages
  get_pages-IsBacked time obj b = record {
    pages_whole = λ pages e. ground (arith, b.pages_whole pages, law.whole time obj.size pages);
    mapped_pages = λ e. ground (arith, b.mapped_pages);
    import_bare = λ e. ground (arith, b.import_bare);
  }

  gem_step-IsBacked :
      (time : ℕ) (c : Call) (obj : GemObject)
      → IsBacked obj
      → IsBacked (gem_step drm_gem_get_pages time c obj)
  unfolding gem_step gem_vmap dumb_map_offset get_pages
  gem_step-IsBacked time pages_call obj b = get_pages-IsBacked time obj b
  gem_step-IsBacked time (vmap_call mapped) obj b = record {
    pages_whole = λ pages e. ground (arith, b.pages_whole pages, law.whole time obj.size pages);
    mapped_pages = λ e. ground (arith, b.mapped_pages);
    import_bare = λ e. ground (arith, b.import_bare);
  }
  gem_step-IsBacked time (offset_call created address) obj b = record {
    pages_whole = λ pages e. ground (arith, b.pages_whole pages, law.whole time obj.size pages);
    mapped_pages = λ e. ground (arith, b.mapped_pages);
    import_bare = λ e. ground (arith, b.import_bare);
  }

  gem_run-IsBacked :
      (time : ℕ) (cs : List Call) (obj : GemObject)
      → IsBacked obj
      → IsBacked (gem_run drm_gem_get_pages time cs obj)
  unfolding gem_run
  gem_run-IsBacked time [] obj b = b
  gem_run-IsBacked time (c ∷ cs) obj b =
      gem_run-IsBacked (time + 1) cs (gem_step drm_gem_get_pages time c obj)
        (gem_step-IsBacked time c obj b)

  gem_step-pages :
      (time : ℕ) (c : Call) (obj : GemObject) (pages : List ℕ)
      → obj.pages ≡ some pages
      → (gem_step drm_gem_get_pages time c obj).pages ≡ some pages
  unfolding gem_step gem_vmap dumb_map_offset get_pages
  gem_step-pages time pages_call obj pages e = ground arith
  gem_step-pages time (vmap_call mapped) obj pages e = ground arith
  gem_step-pages time (offset_call created address) obj pages e = ground arith

  gem_run-pages :
      (time : ℕ) (cs : List Call) (obj : GemObject) (pages : List ℕ)
      → obj.pages ≡ some pages
      → (gem_run drm_gem_get_pages time cs obj).pages ≡ some pages
  unfolding gem_run
  gem_run-pages time [] obj pages e = e
  gem_run-pages time (c ∷ cs) obj pages e =
      gem_run-pages (time + 1) cs (gem_step drm_gem_get_pages time c obj) pages
        (gem_step-pages time c obj pages e)

  gem_run_kept :
      (time : ℕ) (cs : List Call) (obj : GemObject)
      → (obj.pages ≡ none) ⊎ ((free_object (gem_run drm_gem_get_pages time cs obj)).1 ≡ obj.pages)
  unfolding free_object
  gem_run_kept time cs obj = elim (Option-cases obj.pages) [
    | inl bare ↦ inl bare
    | inr (pages, backed) ↦ inr (gem_run-pages time cs obj pages backed ∙ sym backed)
  ]

  -- Through every sequence of page requests, mappings and offset requests on an object that
  -- starts backed (a new object is), a fault at any address reads no page past the object's
  -- array, and if the object had its pages already, they are the pages that gud_gem_free_object
  -- hands back. DRM's page allocation returns one page for each page of the size, or an error.
  pub gem_fault-gem_run :
      (time : ℕ) (cs : List Call) (obj : GemObject) (i : Insertion) (vm_start address : ℕ)
      → IsBacked obj
      → (gem_fault i vm_start address (gem_run drm_gem_get_pages time cs obj) ≢ past_array)
        × ((obj.pages ≡ none)
            ⊎ ((free_object (gem_run drm_gem_get_pages time cs obj)).1 ≡ obj.pages))
  gem_fault-gem_run time cs obj i vm_start address b = (
    gem_fault-ne-past_array i vm_start address (gem_run drm_gem_get_pages time cs obj)
        (gem_run-IsBacked time cs obj b),
    gem_run_kept time cs obj,
  )
