-- ===== src/Vma/Dealloc.antt =====
-- `uvma_dealloc_range` of a lazy VMA ends.
use mathlib.Core.Path.{subst}
use grinch.Prelude.{
  ℕ, zero, suc, ◌+◌, ◌*◌, ◌/◌, ◌^◌, ◌≤◌, ◌<◌, ◌≡◌, sym, ap, ◌∙◌, inl, inr, true, arith, dec_lt,
  Option-cases,
}
use grinch.Errno.{Result, ok, err, einval}
use grinch.Vma.{Outcome, done, Vma, Mm, Machine, page_size, plus}
use grinch.Vma.Area.{uvma_dealloc_range, dealloc_steps}
use grinch.Vma.Range.{Result-cases}

-- A release of pages that ends in a `return`.
abbrev pub Ends : {S : Type 0} → Outcome (S × Result (Unit {0})) → Type 0
Ends {S} o = (s' : S) × (r : Result (Unit {0})) × (o ≡ done (s', r))

module _ {S : Type 0} (m : Machine S) where
  dealloc_stops :
      (fuel : ℕ) (s : S) (pt step this stop : ℕ)
      → stop ≤ this
      → Ends (dealloc_steps m (suc fuel) s pt step this stop)
  unfolding dealloc_steps
  dealloc_stops fuel s pt step this stop p = (s, ok tt, ground (arith, p))

  dealloc_step :
      (fuel : ℕ) (s : S) (pt step this stop : ℕ)
      → this < stop
      → ((s : S) → Ends (dealloc_steps m fuel s pt step (plus this step) stop))
      → Ends (dealloc_steps m (suc fuel) s pt step this stop)
  unfolding dealloc_steps
  dealloc_step fuel s pt step this stop p rest = elim (Option-cases (m.paging_get_phys s pt this)) [
    | inl absent ↦ let (s', r, e) = rest s in (s', r, ground (arith, p, absent, e))
    | inr (phys, there) ↦ elim (Result-cases (m.unmap_range s pt this step).1) [
      | inr (k, failed) ↦
          ((m.unmap_range s pt this step).0, err einval, ground (arith, p, there, failed))
      | inl (u, gone) ↦
          let s1 = (m.unmap_range s pt this step).0 in
          elim (Result-cases (m.phys_free_pages s1 phys (step / page_size)).1) [
            | inr (k, failed) ↦ (
              (m.phys_free_pages s1 phys (step / page_size)).0,
              err k,
              ground (arith, p, there, gone, failed),
            )
            | inl (u, freed) ↦
                let (s', r, e) = rest (m.phys_free_pages s1 phys (step / page_size)).0 in
                (s', r, ground (arith, p, there, gone, freed, e))
          ]
    ]
  ]

  -- The pages of a lazy VMA take a round each.
  dealloc_lazy :
      (fuel : ℕ) (s : S) (pt this stop : ℕ)
      → stop + page_size < 2 ^ 64
      → stop ≤ this + fuel * page_size
      → Ends (dealloc_steps m (suc fuel) s pt page_size this stop)
  dealloc_lazy zero s pt this stop small enough =
      dealloc_stops zero s pt page_size this stop (omega arith)
  dealloc_lazy (suc fuel) s pt this stop small enough = elim (dec_lt this stop) [
    | no p ↦ dealloc_stops (suc fuel) s pt page_size this stop (omega (arith, p))
    | yes p ↦
        let there : plus this page_size ≡ this + page_size = omega arith in
        dealloc_step (suc fuel) s pt page_size this stop p (λ s1.
          subst (λ a. Ends (dealloc_steps m (suc fuel) s1 pt page_size a stop)) (sym there)
            (dealloc_lazy fuel s1 pt (this + page_size) stop small (omega arith)))
  ]

  pub dealloc_range :
      (fuel : ℕ) (s : S) (mm : Mm) (vma : Vma) (base size : ℕ)
      → vma.flags.lazy ≡ true
      → base + size + page_size < 2 ^ 64
      → size ≤ fuel * page_size
      → Ends (uvma_dealloc_range m (suc fuel) s mm vma base size)
  unfolding uvma_dealloc_range
  dealloc_range fuel s mm vma base size lazy small enough =
      let stop : plus base size ≡ base + size = omega arith in
      let (s1, r, e) = dealloc_lazy fuel s mm.page_table base (base + size) small (omega arith) in
      let e' : dealloc_steps m (suc fuel) s mm.page_table page_size base (plus base size)
          ≡ done (s1, r) =
        ap (dealloc_steps m (suc fuel) s mm.page_table page_size base) stop ∙ e in
      elim (Result-cases r) [
        | inr (k, failed) ↦ (s1, err k, ground (arith, lazy, e', failed))
        | inl (u, fine) ↦ elim (Result-cases (m.unmap_range s1 mm.page_table base size).1) [
          | inr (k, failed) ↦ (
            (m.unmap_range s1 mm.page_table base size).0,
            err einval,
            ground (arith, lazy, e', fine, failed),
          )
          | inl (v, gone) ↦ (
            m.flush_tlb_others_asid (m.unmap_range s1 mm.page_table base size).0 mm.asid base size,
            ok tt,
            ground (arith, lazy, e', fine, gone),
          )
        ]
      ]
