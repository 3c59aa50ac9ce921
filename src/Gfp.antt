-- ===== src/Gfp.antt =====
-- mm/mm.c, mm/gfp.c and the page allocation of include/grinch/gfp.h, on a 64-bit machine: the areas
-- of memory, each with a bitmap of its used pages. A bitmap has fewer than 2 ^ 31 bits, where the
-- `int` of `memory_area_alloc_aligned` holds the number of a page. What the code calls of other parts
-- (the page tables, the size of the kernel image) is an argument.
pub mod Find
pub mod Used
pub mod Alloc
pub mod Free
pub mod Address
pub mod Init
pub mod Phys
pub mod Reserve
mod Tests
use grinch.Prelude.{
  ℕ, ◌+◌, ◌-◌, ◌*◌, ◌/◌, ◌%◌, ◌^◌, Bool, true, false, not, ◌&&◌, Option, none, some, List, [], ◌∷◌,
  ltb, leb, ◌==◌, if◌then◌else◌,
}
use grinch.Errno.{Errno, Result, ok, err, einval, enoent, enomem, erange}
use grinch.Vma.{page_size, is_urange, Outcome, done, bug, short}
use grinch.Bitmap.{Words, find_next_zero_area, bitmap_set, bitmap_clear}

-- INVALID_PHYS_ADDR
abbrev pub invalid_phys_addr : ℕ
invalid_phys_addr = 18446744073709551615

-- GRINCH_SIZE
abbrev pub grinch_size : ℕ
grinch_size = 2097152

-- KMM_PAGES
abbrev pub kmm_pages : ℕ
kmm_pages = grinch_size / page_size

-- GRINCH_BASE
abbrev pub grinch_base : ℕ
grinch_base = 18446743798831644672

-- `struct bitmap`
pub record Bitmap : Type 0 where
  pub bits : Words
  pub bit_max : ℕ

-- `p` and `v` of `struct memory_area`: an end is not of the range. The base 0 is `NULL`.
pub record Range : Type 0 where
  pub base : ℕ
  pub end : ℕ

-- `struct memory_area`
pub record MemoryArea : Type 0 where
  pub bitmap : Bitmap
  pub p : Range
  pub v : Range
  pub valid : Bool

-- `from == -1 ? 0 : from`
abbrev pub first_page : Option ℕ → ℕ
first_page none = 0
first_page (some f) = f

-- `from != -1 && start != (unsigned long)from`
abbrev pub misses : Option ℕ → ℕ → Bool
misses none start = false
misses (some f) start = not (start == f)

-- `mm_bitmap_find_and_allocate`, where the number -1 for `from` is `none`
unfoldable pub find_and_allocate : Bitmap → ℕ → Option ℕ → ℕ → Outcome (Bitmap × Result ℕ)
find_and_allocate b pages from alignment =
    if not (alignment % page_size == 0)
    then done (b, err einval)
    else elim (find_next_zero_area (b.bit_max + 1) b.bits b.bit_max (first_page from) pages
        ((alignment / page_size + 2 ^ 32 - 1) % 2 ^ 32)) [
          | none ↦ short
          | some start ↦
              if misses from start
              then done (b, err enomem)
              else if ltb b.bit_max start
              then done (b, err enomem)
              else elim (bitmap_set (pages + 1) b.bits start pages) [
                | none ↦ short
                | some bits' ↦ done (record b { bits = bits' }, ok start)
              ]
        ]

-- `kmm_set_base`
pub kmm_set_base : List MemoryArea → ℕ → List MemoryArea
kmm_set_base [] pbase = []
kmm_set_base (area ∷ rest) pbase =
    record area { p = record { base = pbase; end = pbase + kmm_pages * page_size } } ∷ rest

-- `memory_area_v2p`
abbrev pub memory_area_v2p : MemoryArea → ℕ → ℕ
memory_area_v2p area virt = virt - area.v.base + area.p.base

-- `in_area`
abbrev pub in_area : MemoryArea → ℕ → Bool
in_area area virt = leb area.v.base virt && ltb virt area.v.end

-- `p_in_area`
abbrev pub p_in_area : MemoryArea → ℕ → ℕ → Bool
p_in_area area addr pages =
    if ltb addr area.p.base
    then false
    else if pages == 0
    then ltb addr area.p.end
    else leb ((addr + page_size * pages) % 2 ^ 64) area.p.end

-- `find_area`: the valid areas stand before the others.
unfoldable pub find_area : List MemoryArea → ℕ → Option MemoryArea
find_area [] virt = none
find_area (area ∷ rest) virt =
    let later = find_area rest virt in
    if not area.valid then none else if in_area area virt then some area else later

-- `memory_area_alloc_aligned`, which answers the offset if it is asked for
unfoldable pub memory_area_alloc_aligned :
    MemoryArea → Bool → ℕ → ℕ → ℕ → Outcome (MemoryArea × Result ℕ)
memory_area_alloc_aligned area off pages alignment hint =
    let none_given = hint == invalid_phys_addr in
    if none_given && not off
    then bug
    else elim (find_and_allocate area.bitmap pages
        (if none_given then none else some ((hint + 2 ^ 64 - area.p.base) % 2 ^ 64 / page_size))
        alignment) [
          | done (b, err e) ↦ done (record area { bitmap = b }, err e)
          | done (b, ok start) ↦ done (record area { bitmap = b }, ok (start * page_size))
          | bug ↦ bug
          | short ↦ short
        ]

-- The loops go on behind an area that stays as it is.
abbrev pub behind :
    MemoryArea → Outcome (List MemoryArea × Result ℕ) → Outcome (List MemoryArea × Result ℕ)
behind area (done (rest, r)) = done (area ∷ rest, r)
behind area bug = bug
behind area short = short

-- `!hint || in_area(area, hint)`
abbrev pub hinted : MemoryArea → Option ℕ → Bool
hinted area none = true
hinted area (some h) = in_area area h

-- `phint`
abbrev pub phint : MemoryArea → Option ℕ → ℕ
phint area none = invalid_phys_addr
phint area (some h) = memory_area_v2p area h

-- The loop of `_alloc_pages_aligned`, with the error of the areas before.
unfoldable pub pages_from :
    List MemoryArea → ℕ → ℕ → Option ℕ → Errno → Outcome (List MemoryArea × Result ℕ)
pages_from [] pages alignment hint e = done ([], err e)
pages_from (area ∷ rest) pages alignment hint e =
    let skip = behind area (pages_from rest pages alignment hint e) in
    if not area.valid
    then done (area ∷ rest, err e)
    else if area.v.base == 0
    then skip
    else if not (hinted area hint)
    then skip
    else elim (memory_area_alloc_aligned area true pages alignment (phint area hint)) [
      | done (area', ok off) ↦ done (area' ∷ rest, ok (area.v.base + off))
      | done (area', err e') ↦ behind area' (pages_from rest pages alignment hint e')
      | bug ↦ bug
      | short ↦ short
    ]

-- `_alloc_pages_aligned`, where the hint `NULL` is `none`; `res` is the second part of the answer
unfoldable pub alloc_pages_hint :
    List MemoryArea → ℕ → ℕ → Option ℕ → Outcome (List MemoryArea × Result ℕ)
unfolding pages_from
alloc_pages_hint areas pages alignment hint = pages_from areas pages alignment hint einval

-- `alloc_pages_aligned`, where `none` is `NULL`
unfoldable pub alloc_pages_aligned : List MemoryArea → ℕ → ℕ → Outcome (List MemoryArea × Option ℕ)
unfolding alloc_pages_hint
alloc_pages_aligned areas pages alignment = elim (alloc_pages_hint areas pages alignment none) [
  | done (areas', ok res) ↦ done (areas', some res)
  | done (areas', err e) ↦ done (areas', none)
  | bug ↦ bug
  | short ↦ short
]

-- The bitmap of an area without the pages from a number on.
unfoldable pub clear_pages : MemoryArea → ℕ → ℕ → Outcome MemoryArea
clear_pages area start pages = elim (bitmap_clear (pages + 1) area.bitmap.bits start pages) [
  | none ↦ short
  | some bits' ↦ done (record area { bitmap = record (area.bitmap) { bits = bits' } })
]

-- An area at the head of the others.
abbrev pub on_top :
    List MemoryArea → Outcome MemoryArea → Outcome (List MemoryArea × Result (Unit {0}))
on_top rest (done area) = done (area ∷ rest, ok tt)
on_top rest bug = bug
on_top rest short = short

abbrev pub below :
    MemoryArea
    → Outcome (List MemoryArea × Result (Unit {0}))
    → Outcome (List MemoryArea × Result (Unit {0}))
below area (done (rest, r)) = done (area ∷ rest, r)
below area bug = bug
below area short = short

-- `free_pages` once the address is found to be that of a page; the first part is `find_area`.
unfoldable pub free_from : List MemoryArea → ℕ → ℕ → Outcome (List MemoryArea × Result (Unit {0}))
unfolding clear_pages
free_from [] addr pages = done ([], err enoent)
free_from (area ∷ rest) addr pages =
    let later = below area (free_from rest addr pages) in
    let start = (addr - area.v.base) / page_size % 2 ^ 32 in
    if not area.valid
    then done (area ∷ rest, err enoent)
    else if not (in_area area addr)
    then later
    else if ltb area.bitmap.bit_max ((start + pages) % 2 ^ 32)
    then done (area ∷ rest, err erange)
    else on_top rest (clear_pages area start pages)

-- `free_pages`
unfoldable pub free_pages : List MemoryArea → ℕ → ℕ → Outcome (List MemoryArea × Result (Unit {0}))
unfolding free_from
free_pages areas addr pages =
    if not (addr % page_size == 0) then done (areas, err einval) else free_from areas addr pages

-- `v2p`, with the walk of the kernel's page tables, `paging_get_phys`
unfoldable pub v2p : (ℕ → Option ℕ) → List MemoryArea → ℕ → Outcome ℕ
unfolding find_area
v2p paging_get_phys areas virt = elim (find_area areas virt) [
  | some area ↦ done (memory_area_v2p area virt)
  | none ↦
      if is_urange virt 0
      then bug
      else elim (paging_get_phys virt) [ some phys ↦ done phys | none ↦ bug ]
]

-- `p2v`
unfoldable pub p2v : List MemoryArea → ℕ → Outcome ℕ
p2v [] phys = bug
p2v (area ∷ rest) phys =
    let later = p2v rest phys in
    if not area.valid
    then bug
    else if p_in_area area phys 0 && not (area.v.base == 0)
    then done (area.v.base + (phys - area.p.base))
    else later
