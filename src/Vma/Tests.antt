-- ===== src/Vma/Tests.antt =====
-- The memory map of a process with a stack, on a machine that never runs out of memory: its state is
-- the next free address.
use grinch.Prelude.{
  ℕ, ◌+◌, ◌*◌, ◌^◌, ◌<◌, ◌≡◌, refl, ◌↔◌, ◌⊎◌, inl, inr, true, false, none, some, [], ◌∷◌, arith,
}
use grinch.Errno.{Result, ok}
use grinch.Vma.{done, bug, Vma, Mm, Machine, page_size, uvma_at}
use grinch.Vma.Area.{uvma_create, uvma_resize, uvmas_destroy}
use grinch.Vma.Range.{IsDisjoint, Stands, Covers, Made, Answered, uvma_create_lem}
use grinch.Vma.Find.{uvma_at_lem}
use grinch.Vma.Resize.{Resized, uvma_resize_lem}
use grinch.Vma.Destroy.{Failure, uvmas_destroy_lem}
use grinch.Vma.Brk.{Process, heap_flags, brk, pointee}
use grinch.Vma.Break.{Moved, brk_lem}
use grinch.Vma.Elf.{
  Phdr, Image, load_segment, load_segments, page_up, Degenerate, Loaded, load_segment_lem,
  load_segments_lem,
}

abbrev plenty : Machine ℕ
plenty = record {
  phys_pages_alloc = λ s pages alignment. (s + pages * page_size, ok s);
  phys_free_pages = λ s phys pages. (s, ok tt);
  map_range = λ s pt base phys size flags. (s, ok tt);
  unmap_range = λ s pt base size. (s, ok tt);
  paging_get_phys = λ s pt base. some base;
  flush_tlb_others_asid = λ s asid base size. s;
  kmalloc = λ s size. (s + size, some s);
  kstrdup = λ s text. (s + 8, some s);
  kfree = λ s p. s;
  umemset = λ s mm base c size. s;
  copy_to_user = λ s mm dst src n. (s, n);
}

abbrev stack : Vma
stack = record { self = 16; name = none; base = 274876858368; size = 1048576; flags = heap_flags }

abbrev heap : Vma
heap = record { self = 80; name = none; base = 65536; size = 8192; flags = heap_flags }

abbrev mm : Mm
mm = record { page_table = 0; asid = 1; vmas = heap ∷ stack ∷ [] }

mm-IsDisjoint : IsDisjoint mm.vmas
mm-IsDisjoint = (omega arith, (inl (omega arith), tt), (omega arith, tt, tt))

uvma_create_lem_example :
    (s' : ℕ) × (mm' : Mm) × (r : Result Vma) × (uvma_create plenty 1048576 mm 131072 4096 heap_flags
        none
      ≡ done (s', mm', r))
    × IsDisjoint mm'.vmas
    × Made 131072 4096 mm mm' r
    × Answered 131072 4096 heap_flags mm r
uvma_create_lem_example =
    uvma_create_lem plenty 1048576 mm 131072 4096 heap_flags none mm-IsDisjoint (omega arith)
      (omega arith)

uvma_resize_lem_example :
    (s' : ℕ) × (mm' : Mm) × (r : Result (Unit {0})) × (uvma_resize plenty 3 1048576 mm heap 16384
      ≡ done (s', mm', r))
    × IsDisjoint mm'.vmas
    × (Resized 65536 16384 mm mm' r ⊎ ((r ≡ ok tt) × (◌≡◌ {A = ℕ} 16384 8192) × (mm' ≡ mm)))
uvma_resize_lem_example =
    uvma_resize_lem plenty 2 1048576 mm heap stack 16384 mm-IsDisjoint (inl refl) (inr (inl refl))
      (omega arith) (omega arith) (omega arith)

uvma_at_lem_example :
    (uvma_at mm 70000 ≡ done (some heap)) ↔ (Stands heap mm.vmas × Covers 70000 heap)
uvma_at_lem_example = uvma_at_lem mm 70000 heap mm-IsDisjoint (omega arith)

uvmas_destroy_lem_example :
    ((s' : ℕ) × (uvmas_destroy plenty 258 1048576 mm ≡ done (s', record mm { vmas = [] })))
    ⊎ ((uvmas_destroy plenty 258 1048576 mm ≡ bug) × Failure plenty 0 mm.vmas)
uvmas_destroy_lem_example =
    uvmas_destroy_lem plenty 256 1048576 mm mm-IsDisjoint (omega arith, (omega arith, tt))

abbrev process : Process
process = record { locked = false; mm = mm; brk_base = 65536; brk_vma = some 65536 }

brk_lem_example : Moved plenty 0 process 77824 (brk plenty 0 3 1048576 process 77824)
unfolding pointee
brk_lem_example =
    brk_lem plenty 0 2 1048576 process 77824 refl mm-IsDisjoint
      (inr (refl, heap, stack, refl, inr (inl refl), omega arith, omega arith)) (omega arith) refl
      (omega arith)

abbrev image : Image ℕ
image = record { state = 1048576; mm = mm; brk_base = 0 }

abbrev code : ℕ → Phdr
code size = record {
  p_type = 1;
  pf_r = true;
  pf_w = false;
  pf_x = true;
  p_offset = 4096;
  p_vaddr = 131072;
  p_filesz = 100;
  p_memsz = size;
}

load_segment_lem_example :
    (Degenerate (code 0) × (load_segment plenty 0 image (code 0) ≡ bug))
    ⊎ ((0 < page_up 0)
        × (131072 + page_up 0 < 2 ^ 64)
        × Loaded plenty 0 (load_segment plenty 0 image (code 0)))
load_segment_lem_example = load_segment_lem plenty 0 image (code 0) mm-IsDisjoint (omega arith)

load_segments_lem_example : Loaded plenty 0 (load_segments plenty 0 image (code 200 ∷ []))
load_segments_lem_example =
    load_segments_lem plenty 0 image (code 200 ∷ []) mm-IsDisjoint
      (inr (omega arith, omega arith), tt)
