-- ===== src/Gem.antt =====
-- The pages of a buffer object, backport-4.9/gud_gem_4_9.c: gud_gem_get_pages, gud_gem_vmap,
-- gud_gem_free_object, gud_gem_dumb_map_offset, gud_gem_fault and gud_drm_gem_mmap. DRM's page
-- allocation, vmap, the object table and vm_insert_page are arguments. Pages are numbers.
pub mod Pages
use gud.Base.{
  ℕ, ◌+◌, ◌-◌, ◌/◌, Bool, true, false, ◌||◌, not, Option, none, some, List, [], ◌∷◌, leb, get_elem?,
  if◌then◌else◌,
}
use gud.Kernel.{Errno, Ret, success, failure, enoent, enomem, eopnotsupp, eagain}

abbrev pub page_size : ℕ
page_size = 4096

-- `struct gud_gem_object`.
pub record GemObject : Type 0 where
  pub imported : Bool
  pub size : ℕ
  pub pages : Option (List ℕ)
  pub vaddr : Option ℕ

-- What drm_gem_get_pages returns: an error pointer, or the array.
pub data PagesReply : Type 0 where
  pages_error : Errno → PagesReply
  page_array : List ℕ → PagesReply

-- `VM_FAULT_SIGBUS`, `VM_FAULT_OOM`, `VM_FAULT_NOPAGE` after the insertion of a page, and a read
-- past the end of the page array.
pub data Fault : Type 0 where
  sigbus oom : Fault
  nopage : ℕ → Fault
  past_array : Fault

unfoldable pub get_pages : PagesReply → GemObject → Ret × GemObject
get_pages reply obj = if obj.imported then (failure eopnotsupp, obj) else elim (obj.pages) [
  | some pages ↦ (success, obj)
  | none ↦ elim reply [
    | pages_error e ↦ (failure e, obj)
    | page_array pages ↦ (success, record obj { pages = some pages })
  ]
]

-- `mapped` is what vmap returns; the answer is the address and the size of the mapping.
unfoldable pub gem_vmap : PagesReply → Option ℕ → GemObject → Ret × Option (ℕ × ℕ) × GemObject
unfolding get_pages
gem_vmap reply mapped obj =
    let (ret, obj') = get_pages reply obj in
    if obj.imported then (failure eopnotsupp, none, obj) else elim ret [
      | failure e ↦ (failure e, none, obj')
      | success ↦ elim (obj'.vaddr) [
        | some vaddr ↦ (success, some (vaddr, obj'.size), obj')
        | none ↦ elim mapped [
          | none ↦ (failure enomem, none, obj')
          | some vaddr ↦ (success, some (vaddr, obj'.size), record obj' { vaddr = some vaddr })
        ]
      ]
    ]

-- What gud_gem_free_object hands back: the mapping to vunmap, and the pages to
-- drm_gem_put_pages.
unfoldable pub free_object : GemObject → Option ℕ × Option (List ℕ)
free_object obj = (obj.vaddr, obj.pages)

-- `found` is whether the handle has an object, `created` what drm_gem_create_mmap_offset returns
-- and `address` the offset of its node.
unfoldable pub dumb_map_offset :
    Bool → PagesReply → Ret → ℕ → GemObject → Ret × Option ℕ × GemObject
unfolding get_pages
dumb_map_offset found reply created address obj =
    let (ret, obj') = get_pages reply obj in
    if not found
    then (failure enoent, none, obj)
    else if obj.imported
    then (failure eopnotsupp, none, obj)
    else elim ret [
      | failure e ↦ (failure e, none, obj')
      | success ↦ elim created [
        | failure e ↦ (failure e, none, obj')
        | success ↦ (success, some address, obj')
      ]
    ]

-- What vm_insert_page returns, as the switch tells it apart.
pub data Insertion : Type 0 where
  inserted try_again restart no_memory other_error : Insertion

unfoldable pub insertion_fault : ℕ → Insertion → Fault
insertion_fault page inserted = nopage page
insertion_fault page try_again = nopage page
insertion_fault page restart = nopage page
insertion_fault page no_memory = oom
insertion_fault page other_error = sigbus

-- A fault at `address` of a mapping that starts at `vm_start`, at or below it.
unfoldable pub gem_fault : Insertion → ℕ → ℕ → GemObject → Fault
unfolding insertion_fault
gem_fault insertion vm_start address obj =
    let page_offset = (address - vm_start) / page_size in
    elim (obj.pages) [
      | none ↦ sigbus
      | some pages ↦
          if leb (obj.size / page_size) page_offset
          then sigbus
          else elim (get_elem? pages page_offset) [
            | none ↦ past_array
            | some page ↦ insertion_fault page insertion
          ]
    ]

-- The flags of a mapping that gud_drm_gem_mmap sets: VM_PFNMAP and VM_MIXEDMAP.
pub record VmFlags : Type 0 where
  pub pfnmap : Bool
  pub mixedmap : Bool

unfoldable pub gem_mmap : Ret → VmFlags → Ret × VmFlags
gem_mmap (failure e) flags = (failure e, flags)
gem_mmap success flags = (success, record { pfnmap = false; mixedmap = true })

-- The calls on one object, in any order.
pub data Call : Type 0 where
  pages_call : Call
  vmap_call : Option ℕ → Call
  offset_call : Ret → ℕ → Call

module _ (drm_gem_get_pages : ℕ → ℕ → PagesReply) where
  -- The page allocation is asked for `size` bytes at a time that only it knows.
  unfoldable pub gem_step : ℕ → Call → GemObject → GemObject
  unfolding get_pages gem_vmap dumb_map_offset
  gem_step time pages_call obj = (get_pages (drm_gem_get_pages time obj.size) obj).1
  gem_step time (vmap_call mapped) obj = (gem_vmap (drm_gem_get_pages time obj.size) mapped obj).2
  gem_step time (offset_call created address) obj =
      (dumb_map_offset true (drm_gem_get_pages time obj.size) created address obj).2

  unfoldable pub gem_run : ℕ → List Call → GemObject → GemObject
  unfolding gem_step
  gem_run time [] obj = obj
  gem_run time (c ∷ cs) obj = gem_run (time + 1) cs (gem_step time c obj)
