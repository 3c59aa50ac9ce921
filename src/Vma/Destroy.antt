-- ===== src/Vma/Destroy.antt =====
-- `uvmas_destroy` ends, and in BUG() only if a release of pages fails.
use mathlib.Core.Path.{subst}
use grinch.Prelude.{
  ℕ, zero, suc, ◌+◌, ◌*◌, ◌/◌, ◌^◌, ◌≤◌, ◌<◌, ◌≡◌, refl, sym, ◌⊎◌, inl, inr, Bool, some, List, [],
  ◌∷◌, arith, dec_lt, if◌then◌else◌, Bool-cases, Option-cases,
}
use grinch.Errno.{Errno, Result, ok, err, einval}
use grinch.Vma.{Outcome, done, bug, Vma, Mm, Machine, page_size, plus}
use grinch.Vma.Area.{uvma_dealloc_range, dealloc_steps, uvma_destroy, destroy_all, uvmas_destroy}
use grinch.Vma.Range.{Result-cases, Fits, Covers, Stands, IsDisjoint}

-- The pages of each VMA are at most so many.
abbrev pub AtMost : ℕ → List Vma → Type 0
AtMost fuel [] = Unit
AtMost fuel (v ∷ vs) = (v.size ≤ fuel * page_size) × AtMost fuel vs

module _ {S : Type 0} (m : Machine S) where
  -- The page tables refuse to unmap at an address of the VMA, or the page allocator refuses a page
  -- that is mapped there.
  abbrev pub Refused : ℕ → Vma → Type 0
  Refused pt v =
      (s : S) × (this : ℕ) × Covers this v
      × (((size : ℕ) × (e : Errno) × ((m.unmap_range s pt this size).1 ≡ err e))
          ⊎ ((phys pages : ℕ) × (size : ℕ) × (e : Errno) × (m.paging_get_phys s pt this ≡ some phys)
              × ((m.phys_free_pages (m.unmap_range s pt this size).0 phys pages).1 ≡ err e)))

  -- So it goes with one of the VMAs.
  abbrev pub Failure : ℕ → List Vma → Type 0
  Failure pt vs = (v : Vma) × Stands v vs × Refused pt v

  -- A release of pages succeeds, or fails with a reason.
  abbrev Ended : ℕ → Vma → Outcome (S × Result (Unit {0})) → Type 0
  Ended pt v o =
      ((s' : S) × (o ≡ done (s', ok tt)))
      ⊎ ((s' : S) × (k : Errno) × (o ≡ done (s', err k)) × Refused pt v)

  Ended-stop :
      (fuel : ℕ) (s : S) (pt : ℕ) (v : Vma) (step this stop : ℕ)
      → stop ≤ this
      → Ended pt v (dealloc_steps m (suc fuel) s pt step this stop)
  unfolding dealloc_steps
  Ended-stop fuel s pt v step this stop p = inl (s, ground (arith, p))

  Ended-step :
      (fuel : ℕ) (s : S) (pt : ℕ) (v : Vma) (step this stop : ℕ)
      → this < stop
      → Covers this v
      → ((s : S) → Ended pt v (dealloc_steps m fuel s pt step (plus this step) stop))
      → Ended pt v (dealloc_steps m (suc fuel) s pt step this stop)
  unfolding dealloc_steps
  Ended-step fuel s pt v step this stop p inside rest =
      elim (Option-cases (m.paging_get_phys s pt this)) [
        | inl absent ↦ elim (rest s) [
          | inl (s', e) ↦ inl (s', ground (arith, p, absent, e))
          | inr (s', k, e, why) ↦ inr (s', k, ground (arith, p, absent, e), why)
        ]
        | inr (phys, there) ↦
            let s1 = (m.unmap_range s pt this step).0 in
            let s2 = (m.phys_free_pages s1 phys (step / page_size)).0 in
            elim (Result-cases (m.unmap_range s pt this step).1) [
              | inr (k, failed) ↦ inr (
                s1,
                einval,
                ground (arith, p, there, failed),
                (s, this, inside, inl (step, k, failed)),
              )
              | inl (u, gone) ↦
                  elim (Result-cases (m.phys_free_pages s1 phys (step / page_size)).1) [
                    | inr (k, failed) ↦ inr (
                      s2,
                      k,
                      ground (arith, p, there, gone, failed),
                      (s, this, inside, inr (phys, step / page_size, step, k, there, failed)),
                    )
                    | inl (u, freed) ↦ elim (rest s2) [
                      | inl (s', e) ↦ inl (s', ground (arith, p, there, gone, freed, e))
                      | inr (s', k, e, why) ↦
                          inr (s', k, ground (arith, p, there, gone, freed, e), why)
                    ]
                  ]
            ]
      ]

  Ended-lazy :
      (fuel : ℕ) (s : S) (pt : ℕ) (v : Vma) (this : ℕ)
      → v.base ≤ this
      → v.base + v.size + page_size < 2 ^ 64
      → v.base + v.size ≤ this + fuel * page_size
      → Ended pt v (dealloc_steps m (suc fuel) s pt page_size this (v.base + v.size))
  Ended-lazy zero s pt v this low small enough =
      Ended-stop zero s pt v page_size this (v.base + v.size) (omega arith)
  Ended-lazy (suc fuel) s pt v this low small enough = elim (dec_lt this (v.base + v.size)) [
    | no p ↦ Ended-stop (suc fuel) s pt v page_size this (v.base + v.size) (omega (arith, p))
    | yes p ↦
        let there : plus this page_size ≡ this + page_size = omega arith in
        Ended-step (suc fuel) s pt v page_size this (v.base + v.size) p (low, p)
          (λ s1.
            subst (λ a. Ended pt v (dealloc_steps m (suc fuel) s1 pt page_size a (v.base + v.size)))
              (sym there)
              (Ended-lazy fuel s1 pt v (this + page_size) (omega (arith, low)) small (omega arith)))
  ]

  -- A VMA that is no lazy one goes in one round.
  Ended-whole :
      (fuel : ℕ) (s : S) (pt : ℕ) (v : Vma)
      → 0 < v.size
      → v.base + v.size < 2 ^ 64
      → Ended pt v (dealloc_steps m (suc (suc fuel)) s pt v.size v.base (v.base + v.size))
  Ended-whole fuel s pt v some_size small =
      let there : plus v.base v.size ≡ v.base + v.size = omega arith in
      Ended-step (suc fuel) s pt v v.size v.base (v.base + v.size) (omega arith)
        (omega arith, omega arith)
        (λ s1.
          Ended-stop fuel s1 pt v v.size (plus v.base v.size) (v.base + v.size)
            (omega (arith, there)))

  Ended-loop :
      (fuel : ℕ) (s : S) (pt : ℕ) (v : Vma)
      → Fits v
      → v.size ≤ fuel * page_size
      → Ended pt v (
          dealloc_steps m
            (suc (suc fuel))
            s
            pt
            (if v.flags.lazy then page_size else v.size)
            v.base
            (plus v.base v.size))
  Ended-loop fuel s pt v (some_size, low, high) enough =
      let stop : plus v.base v.size ≡ v.base + v.size = omega arith in
      let step = if v.flags.lazy then page_size else v.size in
      subst (λ z. Ended pt v (dealloc_steps m (suc (suc fuel)) s pt step v.base z)) (sym stop)
        (elim (Bool-cases v.flags.lazy) [
          | inl lazy ↦
              subst
                (λ (b : Bool). Ended pt v (
                  dealloc_steps m (suc (suc fuel)) s pt (if b then page_size else v.size) v.base
                    (v.base + v.size)))
                (sym lazy)
                (Ended-lazy (suc fuel) s pt v v.base (omega arith) (omega arith) (omega arith))
          | inr full ↦
              subst
                (λ (b : Bool). Ended pt v (
                  dealloc_steps m (suc (suc fuel)) s pt (if b then page_size else v.size) v.base
                    (v.base + v.size)))
                (sym full) (Ended-whole fuel s pt v some_size (omega arith))
        ])

  -- `uvma_destroy` of a VMA ends, or one of its releases was refused.
  destroyed :
      (fuel : ℕ) (s : S) (mm : Mm) (v : Vma)
      → Fits v
      → v.size ≤ fuel * page_size
      → ((s' : S) × (uvma_destroy m (suc (suc fuel)) s mm v ≡ done s'))
        ⊎ ((uvma_destroy m (suc (suc fuel)) s mm v ≡ bug) × Refused mm.page_table v)
  unfolding uvma_destroy uvma_dealloc_range
  destroyed fuel s mm v fits enough =
      let s0 = m.kfree s v.name in
      elim (Ended-loop fuel s0 mm.page_table v fits enough) [
        | inr (s1, k, e, why) ↦ inr (ground (arith, e), why)
        | inl (s1, e) ↦ elim (Result-cases (m.unmap_range s1 mm.page_table v.base v.size).1) [
          | inr (k, failed) ↦ inr (
            ground (arith, e, failed),
            (s1, v.base, (omega arith, omega (arith, fits.0)), inl (v.size, k, failed)),
          )
          | inl (u, gone) ↦ inl (
            m.flush_tlb_others_asid (m.unmap_range s1 mm.page_table v.base v.size).0 mm.asid v.base
                v.size,
            ground (arith, e, gone),
          )
        ]
      ]

  destroy_every :
      (fuel : ℕ) (s : S) (mm : Mm) (vs : List Vma)
      → IsDisjoint vs
      → AtMost fuel vs
      → ((s' : S) × (destroy_all m (suc (suc fuel)) s mm vs ≡ done (s', record mm { vmas = [] })))
        ⊎ ((destroy_all m (suc (suc fuel)) s mm vs ≡ bug) × Failure mm.page_table vs)
  unfolding destroy_all
  destroy_every fuel s mm [] wf few = inl (s, refl)
  destroy_every fuel s mm (v ∷ vs) (fits, _, wf) (enough, few) =
      elim (destroyed fuel s (record mm { vmas = v ∷ vs }) v fits enough) [
        | inr (e, why) ↦ inr (ground (arith, e), (v, inl refl, why))
        | inl (s1, e) ↦ elim (destroy_every fuel (m.kfree s1 (some v.self)) mm vs wf few) [
          | inl (s', e') ↦ inl (s', ground (arith, e, e'))
          | inr (e', (w, there, why)) ↦ inr (ground (arith, e, e'), (w, inr there, why))
        ]
      ]

  -- `uvmas_destroy` ends, with fuel for two more rounds than the largest VMA has pages. It leaves no
  -- VMA, or it ends in BUG(), which happens only if the page tables refuse to unmap at an address of
  -- one of the VMAs or the page allocator refuses the page that is mapped there.
  pub uvmas_destroy_lem :
      (fuel : ℕ) (s : S) (mm : Mm)
      → IsDisjoint mm.vmas
      → AtMost fuel mm.vmas
      → ((s' : S) × (uvmas_destroy m (suc (suc fuel)) s mm ≡ done (s', record mm { vmas = [] })))
        ⊎ ((uvmas_destroy m (suc (suc fuel)) s mm ≡ bug) × Failure mm.page_table mm.vmas)
  unfolding uvmas_destroy
  uvmas_destroy_lem fuel s mm wf few = destroy_every fuel s mm mm.vmas wf few
