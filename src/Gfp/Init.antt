-- ===== src/Gfp/Init.antt =====
-- The set-up of the areas in mm/gfp.c: `kernel_mem_init` and `create_memory_area`. The sizes of the
-- kernel image and of `struct per_cpu` are arguments; 64 is MAX_CPUS.
use grinch.Prelude.{
  ℕ, zero, suc, ◌+◌, ◌-◌, ◌*◌, ◌/◌, ◌%◌, ◌^◌, Bool, true, false, not, ◌&&◌, Option, none, some,
  List, [], ◌∷◌, ltb, leb, ◌==◌, if◌then◌else◌,
}
use grinch.Errno.{Result, ok, err, enoent, enomem}
use grinch.Vma.{page_size, Outcome, done, bug, short}
use grinch.Vma.Elf.{page_up}
use grinch.Gfp.{
  MemoryArea, grinch_base, grinch_size, kmm_pages, alloc_pages_hint, alloc_pages_aligned,
  memory_area_alloc_aligned,
}

-- A change of the area at an index.
abbrev pub modify : ℕ → (MemoryArea → MemoryArea) → List MemoryArea → List MemoryArea
modify i f [] = []
modify zero f (area ∷ rest) = f area ∷ rest
modify (suc i) f (area ∷ rest) = area ∷ modify i f rest

-- The `valid` of an area.
abbrev pub mark : Bool → MemoryArea → MemoryArea
mark b area = record area { valid = b }

-- The error of a call whose pointer is not of use.
abbrev pub no_value :
    Outcome (List MemoryArea × Result ℕ) → Outcome (List MemoryArea × Result (Unit {0}))
no_value (done (areas, ok res)) = done (areas, ok tt)
no_value (done (areas, err e)) = done (areas, err e)
no_value bug = bug
no_value short = short

-- `kernel_mem_init`
pub kernel_mem_init : ℕ → ℕ → List MemoryArea → Outcome (List MemoryArea × Result (Unit {0}))
kernel_mem_init num_os_pages per_cpu_size areas =
    elim (alloc_pages_hint (modify 0 (mark true) areas) num_os_pages page_size (some grinch_base)) [
      | done (areas', err e) ↦ done (modify 0 (mark false) areas', err e)
      | done (areas', ok res) ↦ no_value (
          alloc_pages_hint areas' (64 * (per_cpu_size / page_size)) page_size
            (some (grinch_base + grinch_size - 64 * per_cpu_size)))
      | bug ↦ bug
      | short ↦ short
    ]

-- `bitmap_size`
abbrev pub bitmap_size : ℕ → ℕ
bitmap_size nbits = (nbits + 63) / 64 * 64 / 8

-- The search of `create_memory_area` for an area that is not in use, from an index on.
pub first_invalid : ℕ → List MemoryArea → Option ℕ
first_invalid i [] = none
first_invalid i (area ∷ rest) =
    let later = first_invalid (i + 1) rest in if not area.valid then some i else later

-- The area with its physical range, before it has a bitmap.
abbrev pub with_range : ℕ → ℕ → MemoryArea → MemoryArea
with_range addrp bit_max area = record area {
  valid = true;
  p = record { base = addrp; end = addrp + bit_max * page_size };
  bitmap = record (area.bitmap) { bit_max = bit_max };
}

-- The area with its zeroed bitmap and its virtual range.
abbrev pub with_bits : ℕ → MemoryArea → MemoryArea
with_bits virt area = record area {
  bitmap = record (area.bitmap) { bits = λ k. 0 };
  v =
      if virt == 0
      then record { base = 0; end = 0 }
      else record { base = virt; end = virt + area.bitmap.bit_max * page_size };
}

-- The end of `create_memory_area`: the pages of the kernel at `pgrinch` are used.
unfoldable pub reserve_kernel : ℕ → ℕ → ℕ → MemoryArea → Outcome (MemoryArea × Result (Unit {0}))
reserve_kernel pgrinch addrp sizep area =
    if leb addrp pgrinch && ltb (pgrinch + grinch_size) (addrp + sizep)
    then elim (memory_area_alloc_aligned area false kmm_pages page_size pgrinch) [
      | done (area', ok off) ↦ done (area', ok tt)
      | done (area', err e) ↦ done (mark false area', err e)
      | bug ↦ bug
      | short ↦ short
    ]
    else done (area, ok tt)

-- `reserve_kernel` of the area at an index.
abbrev pub modify_at :
    ℕ
    → (MemoryArea → Outcome (MemoryArea × Result (Unit {0})))
    → List MemoryArea
    → Outcome (List MemoryArea × Result (Unit {0}))
modify_at i f [] = bug
modify_at zero f (area ∷ rest) = elim (f area) [
  | done (area', r) ↦ done (area' ∷ rest, r)
  | bug ↦ bug
  | short ↦ short
]
modify_at (suc i) f (area ∷ rest) = elim (modify_at i f rest) [
  | done (rest', r) ↦ done (area ∷ rest', r)
  | bug ↦ bug
  | short ↦ short
]

-- KMM_AREA->p.base
abbrev pub kernel_place : List MemoryArea → ℕ
kernel_place [] = 0
kernel_place (area ∷ rest) = area.p.base

-- `create_memory_area`, where `virt` is 0 for `NULL`
pub create_memory_area : List MemoryArea → ℕ → ℕ → ℕ → Outcome (List MemoryArea × Result (Unit {0}))
unfolding reserve_kernel
create_memory_area areas addrp sizep virt =
    let bit_max = sizep / page_size in
    elim (first_invalid 0 areas) [
      | none ↦ done (areas, err enoent)
      | some i ↦
          elim (alloc_pages_aligned (modify i (with_range addrp bit_max) areas)
            (page_up (bitmap_size bit_max) / page_size % 2 ^ 32) page_size) [
              | done (areas', none) ↦ done (modify i (mark false) areas', err enomem)
              | done (areas', some storage) ↦
                  modify_at i (reserve_kernel (kernel_place areas') addrp sizep)
                    (modify i (with_bits virt) areas')
              | bug ↦ bug
              | short ↦ short
            ]
    ]
