-- ===== src/Gfp/Phys.antt =====
-- The physical side of mm/gfp.c: `phys_pages_alloc`, `phys_mark_used` and `phys_free_pages`.
use grinch.Prelude.{ℕ, ◌+◌, ◌-◌, ◌/◌, ◌%◌, ◌^◌, true, not, List, [], ◌∷◌, ◌==◌, if◌then◌else◌}
use grinch.Errno.{Errno, Result, ok, err, einval, erange}
use grinch.Vma.{page_size, Outcome, done, bug, short}
use grinch.Gfp.{
  MemoryArea, invalid_phys_addr, p_in_area, memory_area_alloc_aligned, behind, below, on_top,
  clear_pages,
}

-- The loop of `_phys_pages_alloc`, with the error of the areas before.
unfoldable pub phys_alloc_from :
    List MemoryArea → ℕ → ℕ → ℕ → Errno → Outcome (List MemoryArea × Result ℕ)
unfolding memory_area_alloc_aligned
phys_alloc_from [] pages alignment hint e = done ([], err e)
phys_alloc_from (area ∷ rest) pages alignment hint e =
    let skip = behind area (phys_alloc_from rest pages alignment hint e) in
    let found = memory_area_alloc_aligned area true (pages % 2 ^ 32) alignment hint in
    if not area.valid
    then done (area ∷ rest, err e)
    else if hint == invalid_phys_addr
    then elim found [
      | done (area', ok off) ↦ done (area' ∷ rest, ok (area.p.base + off))
      | done (area', err e') ↦ behind area' (phys_alloc_from rest pages alignment hint e')
      | bug ↦ bug
      | short ↦ short
    ]
    else if p_in_area area hint (pages % 2 ^ 32)
    then elim found [
      | done (area', ok off) ↦ done (area' ∷ rest, ok (area.p.base + off))
      | done (area', err e') ↦ done (area' ∷ rest, err e')
      | bug ↦ bug
      | short ↦ short
    ]
    else skip

-- `phys_pages_alloc`, by `_phys_pages_alloc`
unfoldable pub phys_pages_alloc : List MemoryArea → ℕ → ℕ → Outcome (List MemoryArea × Result ℕ)
unfolding phys_alloc_from
phys_pages_alloc areas pages alignment =
    phys_alloc_from areas pages alignment invalid_phys_addr einval

-- `phys_mark_used`
pub phys_mark_used : List MemoryArea → ℕ → ℕ → Outcome (List MemoryArea × Result ℕ)
unfolding phys_alloc_from
phys_mark_used areas addr pages = phys_alloc_from areas pages page_size addr einval

-- `phys_free_pages` once the address is found to be that of a page
unfoldable pub phys_free_from :
    List MemoryArea → ℕ → ℕ → Outcome (List MemoryArea × Result (Unit {0}))
unfolding clear_pages
phys_free_from [] phys pages = done ([], err erange)
phys_free_from (area ∷ rest) phys pages =
    let later = below area (phys_free_from rest phys pages) in
    if not area.valid
    then done (area ∷ rest, err erange)
    else if p_in_area area phys pages
    then on_top rest (clear_pages area ((phys - area.p.base) / page_size % 2 ^ 32) pages)
    else later

-- `phys_free_pages`
pub phys_free_pages : List MemoryArea → ℕ → ℕ → Outcome (List MemoryArea × Result (Unit {0}))
unfolding phys_free_from
phys_free_pages areas phys pages =
    if not (phys % page_size == 0)
    then done (areas, err einval)
    else phys_free_from areas phys pages
