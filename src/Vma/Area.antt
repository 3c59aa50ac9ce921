-- ===== src/Vma/Area.antt =====
-- mm/vma.c: VMAs are made, backed with pages, resized and destroyed.
use grinch.Prelude.{
  ℕ, zero, suc, ◌-◌, ◌*◌, ◌/◌, ◌%◌, true, false, not, ◌||◌, Option, none, some, List, [], ◌∷◌, map,
  ltb, ◌==◌, if◌then◌else◌,
}
use grinch.Errno.{Result, ok, err, einval, enomem, erange, enosys}
use grinch.Vma.{
  Outcome, done, bug, short, Flags, Vma, Mm, Machine, page_size, sizeof_vma, plus, is_urange,
  mem_flags, uvma_collides,
}

-- A VMA with another size.
abbrev pub resized : ℕ → ℕ → Vma → Vma
resized base size vma = if vma.base == base then record vma { size = size } else vma

module _ {S : Type 0} (m : Machine S) where
  open m use {
    phys_pages_alloc, phys_free_pages, map_range, unmap_range, paging_get_phys,
    flush_tlb_others_asid, kmalloc, kstrdup, kfree, umemset,
  }

  -- `vma_alloc_range`
  unfoldable pub vma_alloc_range : S → ℕ → Vma → ℕ → ℕ → ℕ → S × Result (Unit {0})
  vma_alloc_range s pt vma base size alignment =
      let (s1, pages) = phys_pages_alloc s (size / page_size) alignment in
      if not (base % page_size == 0)
      then (s, err einval)
      else if not (size % page_size == 0)
      then (s, err einval)
      else elim pages [
        | err e ↦ (s1, err e)
        | ok phys ↦
            let (s2, mapped) = map_range s1 pt base phys size (mem_flags vma.flags) in
            elim mapped [
              | ok u ↦ (s2, ok u)
              | err e ↦ ((phys_free_pages s2 phys (size / page_size)).0, err e)
            ]
      ]

  -- `kvma_create`, with the page table of the kernel
  pub kvma_create : S → ℕ → Vma → S × Result (Unit {0})
  unfolding vma_alloc_range
  kvma_create s kernel_root vma = vma_alloc_range s kernel_root vma vma.base vma.size page_size

  -- The loop of `uvma_dealloc_range`.
  unfoldable pub dealloc_steps : ℕ → S → ℕ → ℕ → ℕ → ℕ → Outcome (S × Result (Unit {0}))
  dealloc_steps zero s pt step this stop = short
  dealloc_steps (suc fuel) s pt step this stop =
      let rest = λ (s : S). dealloc_steps fuel s pt step (plus this step) stop in
      if not (ltb this stop) then done (s, ok tt) else elim (paging_get_phys s pt this) [
        | none ↦ rest s
        | some phys ↦
            let (s1, unmapped) = unmap_range s pt this step in
            elim unmapped [
              | err e ↦ done (s1, err einval)
              | ok u ↦
                  let (s2, freed) = phys_free_pages s1 phys (step / page_size) in
                  elim freed [ err e ↦ done (s2, err e) | ok u ↦ rest s2 ]
            ]
      ]

  -- `uvma_dealloc_range`
  unfoldable pub uvma_dealloc_range : ℕ → S → Mm → Vma → ℕ → ℕ → Outcome (S × Result (Unit {0}))
  unfolding dealloc_steps
  uvma_dealloc_range fuel s mm vma base size =
      let step = if vma.flags.lazy then page_size else vma.size in
      elim (dealloc_steps fuel s mm.page_table step base (plus base size)) [
        | short ↦ short
        | bug ↦ bug
        | done (s1, err e) ↦ done (s1, err e)
        | done (s1, ok u) ↦
            let (s2, unmapped) = unmap_range s1 mm.page_table base size in
            elim unmapped [
              | err e ↦ done (s2, err einval)
              | ok u ↦ done (flush_tlb_others_asid s2 mm.asid base size, ok tt)
            ]
      ]

  -- `uvma_destroy`
  unfoldable pub uvma_destroy : ℕ → S → Mm → Vma → Outcome S
  unfolding uvma_dealloc_range
  uvma_destroy fuel s mm vma =
      elim (uvma_dealloc_range fuel (kfree s vma.name) mm vma vma.base vma.size) [
        | short ↦ short
        | bug ↦ bug
        | done (s1, err e) ↦ bug
        | done (s1, ok u) ↦ done s1
      ]

  -- The loop of `uvmas_destroy`.
  unfoldable pub destroy_all : ℕ → S → Mm → List Vma → Outcome (S × Mm)
  unfolding uvma_destroy
  destroy_all fuel s mm [] = done (s, record mm { vmas = [] })
  destroy_all fuel s mm (vma ∷ vmas) =
      let mm' = record mm { vmas = vma ∷ vmas } in
      elim (uvma_destroy fuel s mm' vma) [
        | short ↦ short
        | bug ↦ bug
        | done s1 ↦ destroy_all fuel (kfree s1 (some vma.self)) mm vmas
      ]

  -- `uvmas_destroy`
  unfoldable pub uvmas_destroy : ℕ → S → Mm → Outcome (S × Mm)
  unfolding destroy_all
  uvmas_destroy fuel s mm = destroy_all fuel s mm mm.vmas

  -- `kstrdup` of the name, if there is one
  abbrev pub dup_name : S → Option ℕ → S × Option (Option ℕ)
  dup_name s none = (s, some none)
  dup_name s (some name) =
      let (s1, copy) = kstrdup s name in
      elim copy [ none ↦ (s1, none) | some p ↦ (s1, some (some p)) ]

  -- The end of `uvma_create`, once the VMA is filled in.
  unfoldable pub enter : S → Mm → Vma → S × Mm × Result Vma
  unfolding vma_alloc_range
  enter s mm vma =
      let mm' = record mm { vmas = vma ∷ mm.vmas } in
      let (s1, backed) = vma_alloc_range s mm.page_table vma vma.base vma.size page_size in
      if vma.flags.lazy then (s, mm', ok vma) else elim backed [
        | err e ↦ (kfree s1 (some vma.self), mm, err e)
        | ok u ↦ (umemset s1 mm vma.base 0 vma.size, mm', ok vma)
      ]

  -- The VMA is filled in once its name is copied.
  unfoldable pub fill : S → Mm → ℕ → ℕ → ℕ → Flags → Option (Option ℕ) → S × Mm × Result Vma
  unfolding enter
  fill s mm base size self flags none = (kfree s (some self), mm, err enomem)
  fill s mm base size self flags (some name) = enter s mm (record {
    self = self;
    name = name;
    base = base;
    size = size;
    flags = record flags { user = true };
  })

  -- What follows `kmalloc` in `uvma_create`.
  unfoldable pub place : S → Mm → ℕ → ℕ → Flags → Option ℕ → Option ℕ → S × Mm × Result Vma
  unfolding fill
  place s mm base size flags name none = (s, mm, err enomem)
  place s mm base size flags name (some self) =
      let (s1, copy) = dup_name s name in fill s1 mm base size self flags copy

  unfoldable pub make : S → Mm → ℕ → ℕ → Flags → Option ℕ → S × Mm × Result Vma
  unfolding place
  make s mm base size flags name =
      let (s1, at) = kmalloc s sizeof_vma in place s1 mm base size flags name at

  -- `uvma_create`
  unfoldable pub uvma_create : S → Mm → ℕ → ℕ → Flags → Option ℕ → Outcome (S × Mm × Result Vma)
  unfolding make uvma_collides
  uvma_create s mm base size flags name =
      if not (is_urange base size)
      then done (s, mm, err erange)
      else elim (uvma_collides mm base size) [
        | bug ↦ bug
        | short ↦ short
        | done true ↦ done (s, mm, err einval)
        | done false ↦ done (make s mm base size flags name)
      ]

  -- `uvma_handle_fault`
  unfoldable pub uvma_handle_fault : S → Mm → Vma → ℕ → Outcome (S × Result (Unit {0}))
  unfolding vma_alloc_range
  uvma_handle_fault s mm vma addr =
      let base = addr / page_size * page_size in
      let (s1, backed) = vma_alloc_range s mm.page_table vma base page_size page_size in
      if not vma.flags.lazy then bug else elim backed [
        | err e ↦ done (s1, err e)
        | ok u ↦ done (umemset s1 mm base 0 page_size, ok tt)
      ]

  -- `uvma_resize`
  unfoldable pub uvma_resize : ℕ → S → Mm → Vma → ℕ → Outcome (S × Mm × Result (Unit {0}))
  unfolding uvma_dealloc_range uvma_collides
  uvma_resize fuel s mm vma size =
      let mm' = record mm { vmas = map (resized vma.base size) mm.vmas } in
      if not vma.flags.lazy
      then done (s, mm, err enosys)
      else if not (size % page_size == 0) || size == 0
      then done (s, mm, err einval)
      else if size == vma.size
      then done (s, mm, ok tt)
      else if ltb size vma.size
      then elim (uvma_dealloc_range fuel s mm vma (plus vma.base size) (vma.size - size)) [
        | bug ↦ bug
        | short ↦ short
        | done (s1, err e) ↦ done (s1, mm, err e)
        | done (s1, ok u) ↦ done (s1, mm', ok tt)
      ]
      else elim (uvma_collides mm (plus vma.base vma.size) (size - vma.size)) [
        | bug ↦ bug
        | short ↦ short
        | done true ↦ done (s, mm, err erange)
        | done false ↦ done (s, mm', ok tt)
      ]
