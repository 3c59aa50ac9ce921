-- ===== src/Gfp/Alloc.antt =====
-- `alloc_pages_aligned` takes free pages of the first area that has an aligned run of them.
use mathlib.Core.Path.{subst}
use grinch.Prelude.{
  sym, ℕ, ◌+◌, ◌*◌, ◌%◌, ◌^◌, ◌≤◌, ◌<◌, ◌≡◌, refl, ap, ap₂, ◌∙◌, ◌≢◌, ◌⊎◌, inl, inr, true, false,
  Option, none, some, List, [], ◌∷◌, arith, ℕ_discrete, Bool-cases,
}
use grinch.Errno.{Errno, Result, ok, err, einval, enomem}
use grinch.Vma.{Outcome, bug, short, page_size, done}
use grinch.Bitmap.Area.{IsArea}
use grinch.Gfp.{
  MemoryArea, Bitmap, find_and_allocate, memory_area_alloc_aligned, pages_from, alloc_pages_hint,
  alloc_pages_aligned, invalid_phys_addr, behind,
}
use grinch.Gfp.Find.{IsTaken, Answers, find_and_allocate_lem}
use grinch.Gfp.Used.{IsValid}

-- No aligned run of free pages is in the bitmap.
abbrev pub IsFull : Bitmap → ℕ → ℕ → Type 0
IsFull b pages k = (j : ℕ) → j % 2 ^ k ≡ 0 → IsArea b.bits pages j → b.bit_max < j + pages

-- What an allocation does to the areas and answers. The valid areas stand before the others.
abbrev pub IsAllocated : ℕ → ℕ → List MemoryArea → List MemoryArea → Option ℕ → Type 0
IsAllocated pages k [] areas' r = (areas' ≡ []) × (r ≡ none)
IsAllocated pages k (area ∷ rest) areas' r =
    ((area.valid ≡ false) × (areas' ≡ area ∷ rest) × (r ≡ none))
    ⊎ ((area.valid ≡ true)
        × (((b' : Bitmap) × (start : ℕ) × (area.v.base ≢ 0)
              × IsTaken area.bitmap b' pages k none start
              × (areas' ≡ record area { bitmap = b' } ∷ rest)
              × (r ≡ some (area.v.base + start * page_size)))
            ⊎ ((rest' : List MemoryArea) × ((area.v.base ≡ 0) ⊎ IsFull area.bitmap pages k)
                × (areas' ≡ area ∷ rest')
                × IsAllocated pages k rest rest' r)))

abbrev pub answer : Result ℕ → Option ℕ
answer (ok res) = some res
answer (err e) = none

module _ (pages k : ℕ) (some_pages : 0 < pages) (few : k ≤ 19) where
  at_place :
      (area : MemoryArea) (b' : Bitmap) (start : ℕ)
      → find_and_allocate area.bitmap pages none (page_size * 2 ^ k) ≡ done (b', ok start)
      → memory_area_alloc_aligned area true pages (page_size * 2 ^ k) invalid_phys_addr
        ≡ done (record area { bitmap = b' }, ok (start * page_size))
  unfolding memory_area_alloc_aligned
  at_place area b' start e = ground (arith, e)

  nowhere :
      (area : MemoryArea)
      → find_and_allocate area.bitmap pages none (page_size * 2 ^ k)
        ≡ done (area.bitmap, err enomem)
      → memory_area_alloc_aligned area true pages (page_size * 2 ^ k) invalid_phys_addr
        ≡ done (area, err enomem)
  unfolding memory_area_alloc_aligned
  nowhere area e = ground (arith, e)

  stops :
      (area : MemoryArea) (rest : List MemoryArea) (e : Errno)
      → area.valid ≡ false
      → pages_from (area ∷ rest) pages (page_size * 2 ^ k) none e ≡ done (area ∷ rest, err e)
  unfolding pages_from
  stops area rest e v = ground (arith, v)

  skips :
      (area : MemoryArea) (rest : List MemoryArea) (e : Errno)
      → area.valid ≡ true
      → area.v.base ≡ 0
      → pages_from (area ∷ rest) pages (page_size * 2 ^ k) none e
        ≡ behind area (pages_from rest pages (page_size * 2 ^ k) none e)
  unfolding pages_from
  skips area rest e v z = ground (arith, v, z)

  takes :
      (area area' : MemoryArea) (rest : List MemoryArea) (e : Errno) (off : ℕ)
      → area.valid ≡ true
      → area.v.base ≢ 0
      → memory_area_alloc_aligned area true pages (page_size * 2 ^ k) invalid_phys_addr
        ≡ done (area', ok off)
      → pages_from (area ∷ rest) pages (page_size * 2 ^ k) none e
        ≡ done (area' ∷ rest, ok (area.v.base + off))
  unfolding pages_from
  takes area area' rest e off v z t = ground (arith, v, z, t)

  goes_on :
      (area : MemoryArea) (rest : List MemoryArea) (e : Errno)
      → area.valid ≡ true
      → area.v.base ≢ 0
      → memory_area_alloc_aligned area true pages (page_size * 2 ^ k) invalid_phys_addr
        ≡ done (area, err enomem)
      → pages_from (area ∷ rest) pages (page_size * 2 ^ k) none e
        ≡ behind area (pages_from rest pages (page_size * 2 ^ k) none enomem)
  unfolding pages_from
  goes_on area rest e v z t = ground (arith, v, z, t)

  abbrev Allocates : List MemoryArea → Errno → Type 0
  Allocates areas e =
      (areas' : List MemoryArea) × (r : Result ℕ) × (pages_from areas pages (page_size * 2 ^ k) none
          e
        ≡ done (areas', r))
      × IsAllocated pages k areas areas' (answer r)

  mapped_area :
      (area : MemoryArea) (rest : List MemoryArea) (e : Errno) (b' : Bitmap) (r : Result ℕ)
      → area.valid ≡ true
      → area.v.base ≢ 0
      → find_and_allocate area.bitmap pages none (page_size * 2 ^ k) ≡ done (b', r)
      → Answers area.bitmap b' pages k none r
      → ((e' : Errno) → Allocates rest e')
      → Allocates (area ∷ rest) e
  mapped_area area rest e b' (ok start) v z t taken later = (
    record area { bitmap = b' } ∷ rest,
    ok (area.v.base + start * page_size),
    takes area (record area { bitmap = b' }) rest e (start * page_size) v z
        (at_place area b' start t),
    inr (v, inl (b', start, z, taken, refl, refl)),
  )
  mapped_area area rest e b' (err e') v z t (which, same, full) later =
      let (rest', r, steps, allocated) = later enomem in
      (
        area ∷ rest',
        r,
        goes_on area rest e v z (nowhere area (t ∙ ap₂ (λ x y. done (x, err y)) same which))
            ∙ ap (behind area) steps,
        inr (v, inr (rest', inr (λ j. full j tt), refl, allocated)),
      )

  pages_from_lem : (areas : List MemoryArea) (e : Errno) → IsValid areas → Allocates areas e
  unfolding pages_from
  pages_from_lem [] e fine = ([], err e, refl, (refl, refl))
  pages_from_lem (area ∷ rest) e (fine, apart, others) =
      let later = λ (e' : Errno). pages_from_lem rest e' others in
      elim (Bool-cases area.valid) [
        | inr v ↦ (area ∷ rest, err e, stops area rest e v, inl (v, refl, refl))
        | inl v ↦ elim (ℕ_discrete area.v.base 0) [
          | yes z ↦
              let (rest', r, steps, allocated) = later e in
              (
                area ∷ rest',
                r,
                skips area rest e v z ∙ ap (behind area) steps,
                inr (v, inr (rest', inl z, refl, allocated)),
              )
          | no z ↦
              let (b', r, t, answers) =
                find_and_allocate_lem area.bitmap pages k none fine.ok_words some_pages few
                  fine.small in
              mapped_area area rest e b' r v z t answers later
        ]
      ]

  -- `alloc_pages_aligned` ends. It takes pages that were free and are aligned within the first area
  -- that has room, marks exactly these as used and answers their address; `NULL` it answers only if
  -- no area with a virtual range has an aligned run of that many free pages.
  pub alloc_pages_aligned_lem :
      (areas : List MemoryArea)
      → IsValid areas
      → (areas' : List MemoryArea) × (r : Option ℕ) × (alloc_pages_aligned areas pages
            (page_size * 2 ^ k)
          ≡ done (areas', r))
        × IsAllocated pages k areas areas' r
  unfolding alloc_pages_aligned alloc_pages_hint
  alloc_pages_aligned_lem areas fine =
      let (areas', r, steps, allocated) = pages_from_lem areas einval fine in
      (areas', answer r, answers areas' r steps, allocated)
    where
      answers :
          (areas' : List MemoryArea) (r : Result ℕ)
          → pages_from areas pages (page_size * 2 ^ k) none einval ≡ done (areas', r)
          → alloc_pages_aligned areas pages (page_size * 2 ^ k) ≡ done (areas', answer r)
      answers areas' (ok res) e = ground (arith, e)
      answers areas' (err e') e = ground (arith, e)

  abbrev Allocation : List MemoryArea → Outcome (List MemoryArea × Option ℕ) → Type 0
  Allocation areas (done (areas', r)) = IsAllocated pages k areas areas' r
  Allocation areas bug = ⊥
  Allocation areas short = ⊥

  -- What a call did to the areas.
  pub IsAllocated-by :
      (areas areas' : List MemoryArea) (r : Option ℕ)
      → IsValid areas
      → alloc_pages_aligned areas pages (page_size * 2 ^ k) ≡ done (areas', r)
      → IsAllocated pages k areas areas' r
  IsAllocated-by areas areas' r fine e =
      let (areas1, r1, e1, allocated) = alloc_pages_aligned_lem areas fine in
      subst (Allocation areas) {x = done (areas1, r1)} {y = done (areas', r)} (sym e1 ∙ e) allocated
