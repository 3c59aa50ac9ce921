-- ===== src/Gfp/Tests.antt =====
-- An area of eight pages.
use grinch.Prelude.{ℕ, ◌*◌, ◌^◌, ◌≡◌, refl, true, Option, none, some, List, [], ◌∷◌, arith}
use grinch.Errno.{Result, ok}
use grinch.Vma.{page_size, done}
use grinch.Bitmap.{find_next_zero_area, find_next_zero_bit, find_next_bit, bitmap_set}
use grinch.Prelude.Maps.{update}
use grinch.Gfp.{
  memory_area_alloc_aligned, find_area, Bitmap, MemoryArea, find_and_allocate, alloc_pages_aligned,
  free_pages, v2p, p2v, grinch_size,
}
use grinch.Gfp.Find.{Answers, find_and_allocate_lem}
use grinch.Gfp.Used.{IsFine, IsValid, AreAlike}
use grinch.Gfp.Alloc.{IsAllocated, alloc_pages_aligned_lem}
use grinch.Gfp.Free.{free_pages-alloc_pages_aligned}
use grinch.Gfp.Address.{v2p-p2v}
use grinch.Gfp.Init.{reserve_kernel}
use grinch.Gfp.Reserve.{Reserved, set_up, reserve_kernel_lem}

-- Pages 0 and 2 are used.
abbrev pages8 : Bitmap
pages8 = record { bits = λ k. 5; bit_max = 8 }

abbrev area : MemoryArea
area = record {
  bitmap = pages8;
  p = record { base = 8192; end = 40960 };
  v = record { base = 65536; end = 98304 };
  valid = true;
}

area-IsFine : IsFine area
area-IsFine = record {
  ok_words = λ k. omega arith;
  small = omega arith;
  unmapped = λ e. absurd (omega (arith, e));
  mapped = λ e. refl;
  even = refl;
}

areas-IsValid : IsValid (area ∷ [])
unfolding find_area
areas-IsValid = (area-IsFine, (λ virt h. refl), tt)

find_and_allocate_lem_example :
    (b' : Bitmap) × (r : Result ℕ) × (find_and_allocate pages8 2 none (page_size * 2 ^ 1)
      ≡ done (b', r))
    × Answers pages8 b' 2 1 none r
find_and_allocate_lem_example =
    find_and_allocate_lem pages8 2 1 none (λ k. omega arith) (omega arith) (omega arith)
      (omega arith)

alloc_pages_aligned_lem_example :
    (areas' : List MemoryArea) × (r : Option ℕ) × (alloc_pages_aligned
        (area ∷ [])
        2
        (page_size * 2 ^ 1)
      ≡ done (areas', r))
    × IsAllocated 2 1 (area ∷ []) areas' r
alloc_pages_aligned_lem_example =
    alloc_pages_aligned_lem 2 1 (omega arith) (omega arith) (area ∷ []) areas-IsValid

-- The area with pages 4 and 5 used, too.
abbrev area_used : MemoryArea
area_used = record area { bitmap = record { bits = update (λ k. 5) 0 53; bit_max = 8 } }

allocated :
    alloc_pages_aligned (area ∷ []) 2 (page_size * 2 ^ 1) ≡ done (area_used ∷ [], some 81920)
unfolding alloc_pages_aligned memory_area_alloc_aligned find_and_allocate find_next_zero_area
    find_next_zero_bit find_next_bit bitmap_set
allocated = refl

free_pages-alloc_pages_aligned_example :
    (areas'' : List MemoryArea) × (free_pages (area_used ∷ []) 81920 2 ≡ done (areas'', ok tt))
    × AreAlike (area ∷ []) areas''
free_pages-alloc_pages_aligned_example =
    free_pages-alloc_pages_aligned 2 1 (omega arith) (omega arith) (area ∷ []) (area_used ∷ [])
      81920 areas-IsValid allocated

p2v_test : p2v (area ∷ []) 12298 ≡ done 69642
unfolding p2v
p2v_test = refl

v2p-p2v_example : v2p (λ x. none) (area ∷ []) 69642 ≡ done 12298
v2p-p2v_example =
    v2p-p2v (λ x. none) (area ∷ []) 12298 69642 areas-IsValid ((λ e. refl), tt) p2v_test

-- A thousand pages, with the kernel at the page 256.
reserve_kernel_lem_example : Reserved 1056768 8192 4096000 (set_up 0 8192 4096000 area)
reserve_kernel_lem_example =
    reserve_kernel_lem 0 8192 4096000 1056768 area (omega arith) (omega arith) refl refl

-- A kernel that ends where the area ends is not marked.
kernel_at_the_end :
    reserve_kernel 8192 8192 grinch_size (set_up 0 8192 grinch_size area)
    ≡ done (set_up 0 8192 grinch_size area, ok tt)
unfolding reserve_kernel
kernel_at_the_end = refl
