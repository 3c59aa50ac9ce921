-- ===== src/Vma.antt =====
-- mm/vma.c, with `is_urange` of kernel/uaccess.c: the virtual memory areas of a process, on a 64-bit
-- machine (include/asm-generic/grinch_layout.h for rv64 and arm64). The page allocator, the page
-- tables, the heap and `umemset` are the operations of the record `Machine`.
pub mod Area
pub mod Range
pub mod Find
pub mod Dealloc
pub mod Destroy
pub mod Apart
pub mod Resize
pub mod Brk
pub mod Break
pub mod Elf
mod Tests
use grinch.Prelude.{
  ℕ, ◌+◌, ◌%◌, ◌^◌, Bool, true, false, ◌&&◌, ◌||◌, Option, none, some, List, [], ◌∷◌, ltb, leb,
  ◌==◌, if◌then◌else◌,
}
use grinch.Errno.{Result}

-- What a call does: it returns, it ends in `BUG()`, or its loop is short of fuel.
pub data Outcome (A : Type 0) : Type 0 where
  done : A → Outcome A
  bug : Outcome A
  short : Outcome A

-- The flags VMA_FLAG_*.
pub record Flags : Type 0 where
  pub lazy : Bool
  pub user : Bool
  pub readable : Bool
  pub writable : Bool
  pub runnable : Bool

-- The flags GRINCH_MEM_* of a mapping.
pub record MemFlags : Type 0 where
  pub mem_r : Bool
  pub mem_w : Bool
  pub mem_u : Bool
  pub mem_x : Bool

-- `struct vma`. Within a process it is known by its base.
pub record Vma : Type 0 where
  pub self : ℕ
  pub name : Option ℕ
  pub base : ℕ
  pub size : ℕ
  pub flags : Flags

-- `struct mm`
pub record Mm : Type 0 where
  pub page_table : ℕ
  pub asid : ℕ
  pub vmas : List Vma

-- What mm/vma.c calls, on a state of the machine.
pub record Machine (S : Type 0) : Type 0 where
  pub phys_pages_alloc : S → ℕ → ℕ → S × Result ℕ
  pub phys_free_pages : S → ℕ → ℕ → S × Result (Unit {0})
  pub map_range : S → ℕ → ℕ → ℕ → ℕ → MemFlags → S × Result (Unit {0})
  pub unmap_range : S → ℕ → ℕ → ℕ → S × Result (Unit {0})
  pub paging_get_phys : S → ℕ → ℕ → Option ℕ
  pub flush_tlb_others_asid : S → ℕ → ℕ → ℕ → S
  pub kmalloc : S → ℕ → S × Option ℕ
  pub kstrdup : S → ℕ → S × Option ℕ
  pub kfree : S → Option ℕ → S
  pub umemset : S → Mm → ℕ → ℕ → ℕ → S
  pub copy_to_user : S → Mm → ℕ → ℕ → ℕ → S × ℕ

abbrev pub page_size : ℕ
page_size = 4096

abbrev pub user_start : ℕ
user_start = 4096

abbrev pub user_end : ℕ
user_end = 274877906944

-- `sizeof(struct vma)`
abbrev pub sizeof_vma : ℕ
sizeof_vma = 48

-- A sum of an address and a size.
abbrev pub plus : ℕ → ℕ → ℕ
plus base size = (base + size) % 2 ^ 64

-- `is_urange`
abbrev pub is_urange : ℕ → ℕ → Bool
is_urange base size = leb user_start base && ltb base user_end && leb (plus base size) user_end

abbrev pub mem_flags : Flags → MemFlags
mem_flags f = record { mem_r = f.readable; mem_w = f.writable; mem_u = f.user; mem_x = f.runnable }

-- The test of `__uvma_at`.
abbrev pub overlaps : ℕ → ℕ → Vma → Bool
overlaps base size vma = ltb vma.base (plus base size) && ltb base (plus vma.base vma.size)

unfoldable pub find_vma : ℕ → ℕ → List Vma → Option Vma
find_vma base size [] = none
find_vma base size (vma ∷ vmas) =
    if overlaps base size vma then some vma else find_vma base size vmas

-- `__uvma_at`
unfoldable pub uvma_at_range : Mm → ℕ → ℕ → Outcome (Option Vma)
uvma_at_range mm base size =
    if ltb (plus base size) base || size == 0 then bug else done (find_vma base size mm.vmas)

-- `uvma_at`
unfoldable pub uvma_at : Mm → ℕ → Outcome (Option Vma)
unfolding uvma_at_range
uvma_at mm base = uvma_at_range mm base 1

abbrev is_some : {A : Type 0} → Option A → Bool
is_some none = false
is_some (some a) = true

-- `uvma_collides`
unfoldable pub uvma_collides : Mm → ℕ → ℕ → Outcome Bool
unfolding uvma_at_range
uvma_collides mm base size = elim (uvma_at_range mm base size) [
  | done found ↦ done (is_some found)
  | bug ↦ bug
  | short ↦ short
]
