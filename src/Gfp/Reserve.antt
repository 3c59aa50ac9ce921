-- ===== src/Gfp/Reserve.antt =====
-- `create_memory_area` marks the pages of the kernel as used.
use grinch.Prelude.{
  ℕ, ◌+◌, ◌-◌, ◌/◌, ◌%◌, ◌^◌, ◌≤◌, ◌<◌, ◌≡◌, refl, ap, ap₂, ◌∙◌, false, ◌||◌, some, arith, ◌==◌,
  dec_lt, ◌⊎◌, inl, inr,
}
use grinch.Errno.{Result, ok, err}
use grinch.Vma.{page_size, done}
use grinch.Bitmap.Set.{holds, within}
use grinch.Bitmap.Find.{AreWords}
use grinch.Gfp.{
  MemoryArea, Bitmap, grinch_size, kmm_pages, find_and_allocate, memory_area_alloc_aligned,
}
use grinch.Gfp.Find.{Answers, find_and_allocate_lem}
use grinch.Prelude.Digits.{bit-zero}
use grinch.Gfp.Init.{reserve_kernel, with_range, with_bits}

-- An area as `create_memory_area` sets it up before it looks at the kernel.
abbrev pub set_up : ℕ → ℕ → ℕ → MemoryArea → MemoryArea
set_up virt addrp sizep area = with_bits virt (with_range addrp (sizep / page_size) area)

-- All pages of such an area are free.
record IsFresh (area : MemoryArea) (addrp sizep : ℕ) : Type 0 where
  all_free : (nr : ℕ) → holds area.bitmap.bits nr ≡ false
  ok_words : AreWords area.bitmap.bits
  max : area.bitmap.bit_max ≡ sizep / page_size
  base : area.p.base ≡ addrp
  small : sizep < 2 ^ 43
  bound : addrp + sizep < 2 ^ 64

set_up-IsFresh :
    (virt addrp sizep : ℕ) (area : MemoryArea)
    → sizep < 2 ^ 43
    → addrp + sizep < 2 ^ 64
    → IsFresh (set_up virt addrp sizep area) addrp sizep
set_up-IsFresh virt addrp sizep area small bound = record {
  all_free = λ nr. bit-zero (nr % 64);
  ok_words = λ k. omega arith;
  max = refl;
  base = refl;
  small = small;
  bound = bound;
}

module _ (area : MemoryArea) (pgrinch addrp sizep : ℕ) (fresh : IsFresh area addrp sizep)
    (even : addrp % page_size ≡ 0) (even' : pgrinch % page_size ≡ 0) (low : addrp ≤ pgrinch)
    (high : pgrinch + grinch_size < addrp + sizep) where
  abbrev kernel_page : ℕ
  kernel_page = (pgrinch - addrp) / page_size

  at_place :
      (b' : Bitmap)
      → find_and_allocate area.bitmap kmm_pages (some kernel_page) page_size
        ≡ done (b', ok kernel_page)
      → reserve_kernel pgrinch addrp sizep area ≡ done (record area { bitmap = b' }, ok tt)
  unfolding reserve_kernel memory_area_alloc_aligned
  at_place b' e =
      let same : (pgrinch + 2 ^ 64 - area.p.base) % 2 ^ 64 / page_size ≡ kernel_page =
        omega (arith, fresh.base, fresh.bound, low, high) in
      let e' = ap (λ x. find_and_allocate area.bitmap kmm_pages (some x) page_size) same ∙ e in
      let real : (pgrinch == 18446744073709551615) ≡ false = ground (arith, high, fresh.bound) in
      ground (arith, e', low, high, real)

  -- The kernel fits into a fresh area.
  not_full : kernel_page + kmm_pages ≤ area.bitmap.bit_max
  not_full = omega (arith, fresh.max, even, even', low, high)

  answered :
      (b' : Bitmap) (r : Result ℕ)
      → find_and_allocate area.bitmap kmm_pages (some kernel_page) page_size ≡ done (b', r)
      → Answers area.bitmap b' kmm_pages 0 (some kernel_page) r
      → (area' : MemoryArea) × (reserve_kernel pgrinch addrp sizep area ≡ done (area', ok tt))
        × ((nr : ℕ) → holds area'.bitmap.bits nr ≡ within kernel_page kmm_pages nr)
  answered b' (ok start) e taken =
      let same = taken.allowed in
      (
        record area { bitmap = b' },
        at_place b' (e ∙ ap (λ x. done (b', ok x)) same),
        λ nr.
            taken.used nr
            ∙ ap₂ (λ x y. x || y) (fresh.all_free nr) (ap (λ x. within x kmm_pages nr) same),
      )
  answered b' (err e') e (which, same, full) =
      let far = full kernel_page refl (omega arith) (λ i p q. fresh.all_free i) in
      absurd (omega (arith, far, not_full))

  reserved :
      (area' : MemoryArea) × (reserve_kernel pgrinch addrp sizep area ≡ done (area', ok tt))
      × ((nr : ℕ) → holds area'.bitmap.bits nr ≡ within kernel_page kmm_pages nr)
  reserved =
      let (b', r, e, answers) =
        find_and_allocate_lem area.bitmap kmm_pages 0 (some kernel_page) fresh.ok_words
          (omega arith) (omega arith) (omega (arith, fresh.max, fresh.small)) in
      answered b' r e answers

-- Either the kernel lies strictly inside of the physical range, and exactly its pages are used; or it
-- does not, and no page is.
abbrev pub Reserved : ℕ → ℕ → ℕ → MemoryArea → Type 0
Reserved pgrinch addrp sizep area =
    ((addrp ≤ pgrinch)
      × (pgrinch + grinch_size < addrp + sizep)
      × ((area' : MemoryArea) × (reserve_kernel pgrinch addrp sizep area ≡ done (area', ok tt))
          × ((nr : ℕ)
              → holds area'.bitmap.bits nr ≡ within ((pgrinch - addrp) / page_size) kmm_pages nr)))
    ⊎ (((pgrinch < addrp) ⊎ (addrp + sizep ≤ pgrinch + grinch_size))
        × (reserve_kernel pgrinch addrp sizep area ≡ done (area, ok tt))
        × ((nr : ℕ) → holds area.bitmap.bits nr ≡ false))

-- The end of `create_memory_area`, on the area that it has set up for a range of less than 8 TiB,
-- never fails; the range and the kernel begin at multiples of the page size. It marks exactly the
-- pages of the kernel as used if the kernel begins in the range and ends strictly before it ends. In
-- all other cases no page is marked, also if the kernel ends exactly where the range ends.
pub reserve_kernel_lem :
    (virt addrp sizep pgrinch : ℕ) (area : MemoryArea)
    → sizep < 2 ^ 43
    → addrp + sizep < 2 ^ 64
    → addrp % page_size ≡ 0
    → pgrinch % page_size ≡ 0
    → Reserved pgrinch addrp sizep (set_up virt addrp sizep area)
unfolding reserve_kernel
reserve_kernel_lem virt addrp sizep pgrinch area small bound even even' =
    let fresh = set_up-IsFresh virt addrp sizep area small bound in
    elim (dec_lt pgrinch addrp) [
      | yes before ↦ inr (inl before, ground (arith, before), fresh.all_free)
      | no from ↦ elim (dec_lt (pgrinch + grinch_size) (addrp + sizep)) [
        | no behind ↦ inr (inr (omega (arith, behind)), ground (arith, behind), fresh.all_free)
        | yes inside ↦
            let low : addrp ≤ pgrinch = omega (arith, from) in
            inl (
              low,
              inside,
              reserved (set_up virt addrp sizep area) pgrinch addrp sizep fresh even even' low
                  inside,
            )
      ]
    ]
