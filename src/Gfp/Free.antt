-- ===== src/Gfp/Free.antt =====
-- `free_pages` gives back what `alloc_pages_aligned` took.
use grinch.Prelude.{
  ℕ, ◌+◌, ◌-◌, ◌*◌, ◌/◌, ◌%◌, ◌^◌, ◌≤◌, ◌<◌, ◌≡◌, refl, sym, ap, ap₂, ◌∙◌, ◌≢◌, inl, inr, Bool,
  true, false, not, ◌&&◌, ◌||◌, none, some, List, [], ◌∷◌, arith, ltb, Bool-cases,
}
use grinch.Errno.{ok}
use grinch.Vma.{page_size, done}
use grinch.Bitmap.Set.{holds, within, bitmap_clear_lem}
use grinch.Gfp.{
  MemoryArea, Bitmap, find_area, in_area, clear_pages, free_from, free_pages, below,
  alloc_pages_aligned,
}
use grinch.Gfp.Find.{IsTaken}
use grinch.Gfp.Used.{IsFine, IsValid, IsAlike, AreAlike, IsAlike-refl, AreAlike-refl}
use grinch.Gfp.Alloc.{IsAllocated, IsAllocated-by}

and-not-or : (h w : Bool) → (w ≡ true → h ≡ false) → ((h || w) && not w) ≡ h
and-not-or true true free = cc (free refl)
and-not-or false true free = refl
and-not-or true false free = refl
and-not-or false false free = refl

module _ (pages k : ℕ) (some_pages : 0 < pages) (few : k ≤ 19) where
  -- Pages that were just taken are free again.
  released :
      (area : MemoryArea) (b' : Bitmap) (start : ℕ)
      → IsFine area
      → IsTaken area.bitmap b' pages k none start
      → (area'' : MemoryArea) × (clear_pages (record area { bitmap = b' }) start pages
          ≡ done area'')
        × IsAlike area area''
  unfolding clear_pages
  released area b' start fine taken =
      let (bits', e, clears) =
        bitmap_clear_lem (pages + 1) b'.bits start pages (omega arith)
          (omega (arith, taken.fits, fine.small)) in
      (
        record area { bitmap = record b' { bits = bits' } },
        ground (arith, e),
        record {
          same_p = refl;
          same_v = refl;
          same_valid = refl;
          same_max = taken.same_max;
          same_bits = λ nr.
              clears nr
              ∙ ap (λ h. h && not (within start pages nr)) (taken.used nr)
              ∙ and-not-or (holds area.bitmap.bits nr) (within start pages nr)
                  (λ w. let (low, high) = bounds start nr w in taken.were_free nr low high);
        },
      )
    where
      bounds : (start nr : ℕ) → within start pages nr ≡ true → (start ≤ nr) × (nr < start + pages)
      bounds start nr w = ground (arith, w)

  freed_here :
      (area area'' : MemoryArea) (rest : List MemoryArea) (b' : Bitmap) (start : ℕ)
      → IsFine area
      → area.valid ≡ true
      → area.v.base ≢ 0
      → IsTaken area.bitmap b' pages k none start
      → clear_pages (record area { bitmap = b' }) start pages ≡ done area''
      → free_from (record area { bitmap = b' } ∷ rest) (area.v.base + start * page_size) pages
        ≡ done (area'' ∷ rest, ok tt)
  unfolding free_from
  freed_here area area'' rest b' start fine v z taken e =
      let virt = area.v.base + start * page_size in
      let place : (virt - area.v.base) / page_size % 2 ^ 32 ≡ start =
        omega (arith, taken.fits, fine.small) in
      let at = ap (λ s. clear_pages (record area { bitmap = b' }) s pages) place ∙ e in
      let end = fine.mapped z in
      let inside : in_area (record area { bitmap = b' }) virt ≡ true =
        ground (arith, end, taken.fits, some_pages) in
      let low : ltb b'.bit_max (((virt - area.v.base) / page_size % 2 ^ 32 + pages) % 2 ^ 32)
          ≡ false =
        ground (arith, place, taken.fits, taken.same_max, fine.small) in
      ground (arith, v, inside, low, at)

  passed_over :
      (area : MemoryArea) (rest : List MemoryArea) (virt : ℕ)
      → area.valid ≡ true
      → in_area area virt ≡ false
      → free_from (area ∷ rest) virt pages ≡ below area (free_from rest virt pages)
  unfolding free_from
  passed_over area rest virt v miss = ground (arith, v, miss)

  -- The address of allocated pages, and that it is in the range of an area.
  found_again :
      (areas areas' : List MemoryArea) (virt : ℕ)
      → IsValid areas
      → IsAllocated pages k areas areas' (some virt)
      → (x : MemoryArea) × (find_area areas virt ≡ some x)
  unfolding find_area
  found_again [] areas' virt fine (e, r) = cc r
  found_again (area ∷ rest) areas' virt fine (inl (v, e, r)) = cc r
  found_again (area ∷ rest) areas' virt fine (inr (v, inl (b', start, z, taken, e, r))) =
      let place : virt ≡ area.v.base + start * page_size = ground (arith, r) in
      let end = fine.0.mapped z in
      let inside : in_area area virt ≡ true = ground (arith, end, taken.fits, some_pages, place) in
      (area, ground (arith, v, inside))
  found_again (area ∷ rest) areas' virt fine (inr (v, inr (rest', why, e, allocated))) =
      let (x, found) = found_again rest rest' virt fine.2 allocated in
      elim (Bool-cases (in_area area virt)) [
        | inl hit ↦ (area, ground (arith, v, hit))
        | inr miss ↦ (x, ground (arith, v, miss, found))
      ]

  abbrev Restores : List MemoryArea → List MemoryArea → ℕ → Type 0
  Restores areas areas' virt =
      (areas'' : List MemoryArea) × (free_from areas' virt pages ≡ done (areas'', ok tt))
      × AreAlike areas areas''

  restored :
      (areas areas' : List MemoryArea) (virt : ℕ)
      → IsValid areas
      → IsAllocated pages k areas areas' (some virt)
      → Restores areas areas' virt
  restored [] areas' virt fine (e, r) = cc r
  restored (area ∷ rest) areas' virt fine (inl (v, e, r)) = cc r
  restored (area ∷ rest) areas' virt fine (inr (v, inl (b', start, z, taken, e, r))) =
      let place : virt ≡ area.v.base + start * page_size = ground (arith, r) in
      let (area'', t, alike) = released area b' start fine.0 taken in
      (
        area'' ∷ rest,
        ap₂ (λ x y. free_from x y pages) e place
            ∙ freed_here area area'' rest b' start fine.0 v z taken t,
        (alike, AreAlike-refl rest),
      )
  restored (area ∷ rest) areas' virt fine (inr (v, inr (rest', why, e, allocated))) =
      let (rest'', t, alike) = restored rest rest' virt fine.2 allocated in
      let (x, found) = found_again rest rest' virt fine.2 allocated in
      elim (Bool-cases (in_area area virt)) [
        | inl hit ↦ cc (sym (fine.1 virt hit) ∙ found)
        | inr miss ↦ (
          area ∷ rest'',
          ap (λ x. free_from x virt pages) e
              ∙ passed_over area rest' virt v miss
              ∙ ap (below area) t,
          (IsAlike-refl area, alike),
        )
      ]

  even_address :
      (areas areas' : List MemoryArea) (virt : ℕ)
      → IsValid areas
      → IsAllocated pages k areas areas' (some virt)
      → virt % page_size ≡ 0
  even_address [] areas' virt fine (e, r) = cc r
  even_address (area ∷ rest) areas' virt fine (inl (v, e, r)) = cc r
  even_address (area ∷ rest) areas' virt fine (inr (v, inl (b', start, z, taken, e, r))) =
      let place : virt ≡ area.v.base + start * page_size = ground (arith, r) in
      omega (arith, place, fine.0.even)
  even_address (area ∷ rest) areas' virt fine (inr (v, inr (rest', why, e, allocated))) =
      even_address rest rest' virt fine.2 allocated

  -- If `alloc_pages_aligned` answers an address, `free_pages` of that many pages at the address
  -- succeeds, and each area has the same pages in use as before the allocation.
  pub free_pages-alloc_pages_aligned :
      (areas areas' : List MemoryArea) (virt : ℕ)
      → IsValid areas
      → alloc_pages_aligned areas pages (page_size * 2 ^ k) ≡ done (areas', some virt)
      → (areas'' : List MemoryArea) × (free_pages areas' virt pages ≡ done (areas'', ok tt))
        × AreAlike areas areas''
  unfolding free_pages
  free_pages-alloc_pages_aligned areas areas' virt fine e =
      let allocated' = IsAllocated-by pages k some_pages few areas areas' (some virt) fine e in
      let (areas'', t, alike) = restored areas areas' virt fine allocated' in
      let even = even_address areas areas' virt fine allocated' in
      (areas'', ground (arith, even, t), alike)
