-- ===== src/Vma/Break.antt =====
-- `brk` moves the end of the heap.
use mathlib.Core.Path.{subst}
use grinch.Prelude.{
  ℕ, suc, ◌+◌, ◌-◌, ◌*◌, ◌%◌, ◌^◌, ◌≤◌, ◌<◌, ◌≡◌, refl, sym, ap, ◌∙◌, ◌≢◌, ◌⊎◌, inl, inr, true,
  false, none, some, List, [], ◌∷◌, map, arith, dec_lt, ℕ_discrete,
}
use grinch.Errno.{Errno, Result, ok, err, einval}
use grinch.Vma.{Outcome, done, Vma, Mm, Machine, page_size, plus}
use grinch.Vma.Area.{resized}
use grinch.Vma.Range.{IsDisjoint, Stands, uvma_create_lem}
use grinch.Vma.Resize.{uvma_resize_lem}
use grinch.Vma.Brk.{Process, pointee, heap_flags, report_break, first_break, next_break, brk}

pointee-Stands :
    (base : ℕ) (vs : List Vma) (v : Vma) → pointee base vs ≡ some v → Stands v vs × (v.base ≡ base)
unfolding pointee
pointee-Stands base [] v e = absurd (ground (arith, e))
pointee-Stands base (w ∷ ws) v e = elim (ℕ_discrete w.base base) [
  | yes here ↦
      let same : w ≡ v = ground (arith, here, e) in
      (inl (sym same), ap (λ (k : Vma). k.base) (sym same) ∙ here)
  | no there ↦ let (k, at) = pointee-Stands base ws v (ground (arith, there, e)) in (inr k, at)
]

pointee-resized :
    (base size : ℕ) (vs : List Vma) (v : Vma)
    → pointee base vs ≡ some v
    → pointee base (map (resized base size) vs) ≡ some (record v { size = size })
unfolding pointee
pointee-resized base size [] v e = absurd (ground (arith, e))
pointee-resized base size (w ∷ ws) v e = elim (ℕ_discrete w.base base) [
  | yes here ↦ let same : w ≡ v = ground (arith, here, e) in ground (arith, here, same)
  | no there ↦ ground (arith, there, e, pointee-resized base size ws v)
]

pointee-first :
    (base : ℕ) (v : Vma) (vs : List Vma) → v.base ≡ base → pointee base (v ∷ vs) ≡ some v
unfolding pointee
pointee-first base v vs at = ground (arith, at)

module _ {S : Type 0} (m : Machine S) (heap_name : ℕ) where
  -- How `brk` of a new break ends: the lock is free, and either nothing changes or the heap is the
  -- range up to the address, which is answered.
  abbrev pub Moved : Process → ℕ → Outcome (S × Process × Result ℕ) → Type 0
  Moved p addr o =
      (s' : S) × (p' : Process) × (r : Result ℕ) × (o ≡ done (s', p', r))
      × (p'.locked ≡ false)
      × (p'.brk_base ≡ p.brk_base)
      × IsDisjoint p'.mm.vmas
      × (((e : Errno) × (r ≡ err e) × (p'.mm ≡ p.mm) × (p'.brk_vma ≡ p.brk_vma))
          ⊎ ((r ≡ ok addr)
              × (p'.brk_vma ≡ some p.brk_base)
              × (v : Vma) × (pointee p.brk_base p'.mm.vmas ≡ some v)
              × (p.brk_base + v.size ≡ addr)))

  report_heap :
      (s : S) (p : Process) (v : Vma) (addr : ℕ)
      → p.brk_vma ≡ some p.brk_base
      → pointee p.brk_base p.mm.vmas ≡ some v
      → p.brk_base + v.size ≡ addr
      → addr < 2 ^ 64
      → report_break s p ≡ done (s, record p { locked = false }, ok addr)
  unfolding report_break
  report_heap s p v addr at found whole small =
      let sum : plus p.brk_base v.size ≡ addr = omega (arith, whole) in
      ground (arith, at, found, sum)

  report_moves :
      (s : S) (p p1 : Process) (v : Vma) (addr : ℕ) (o : Outcome (S × Process × Result ℕ))
      → IsDisjoint p1.mm.vmas
      → p1.brk_base ≡ p.brk_base
      → o ≡ report_break s p1
      → p1.brk_vma ≡ some p.brk_base
      → pointee p.brk_base p1.mm.vmas ≡ some v
      → p.brk_base + v.size ≡ addr
      → addr < 2 ^ 64
      → Moved p addr o
  report_moves s p p1 v addr o new same goes is_heap found whole small = (
    s,
    record p1 { locked = false },
    ok addr,
    goes
        ∙ report_heap s p1 v addr (is_heap ∙ ap some (sym same))
            (ap (λ b. pointee b p1.mm.vmas) same ∙ found) (ap (λ b. b + v.size) same ∙ whole) small,
    refl,
    same,
    new,
    inr (refl, is_heap, v, found, whole),
  )

  first_break_lem :
      (s : S) (p : Process) (addr : ℕ)
      → IsDisjoint p.mm.vmas
      → p.brk_base < addr
      → addr < 2 ^ 64
      → Moved p addr (first_break m heap_name s p (addr - p.brk_base))
  unfolding first_break
  first_break_lem s p addr wf more small =
      let size = addr - p.brk_base in
      let (s', mm', r, e, new, made, _) =
        uvma_create_lem m s p.mm p.brk_base size heap_flags (some heap_name) wf (omega arith)
          (omega arith) in
      elim made [
        | inl (k, failed, same) ↦ (
          s',
          record p { locked = false; mm = mm' },
          err k,
          ground (arith, e, failed),
          refl,
          refl,
          new,
          inl (k, refl, same, refl),
        )
        | inr (v, fine, same, at, long) ↦
            let p1 : Process = record p { mm = mm'; brk_vma = some v.base } in
            let found : pointee p.brk_base mm'.vmas ≡ some v =
              ap (λ (k : Mm). pointee p.brk_base k.vmas) same
              ∙ pointee-first p.brk_base v p.mm.vmas at in
            let whole : p.brk_base + v.size ≡ addr = omega (arith, long) in
            let goes : first_break m heap_name s p size ≡ report_break s' p1 =
              ground (arith, e, fine) in
            report_moves s' p p1 v addr _ new refl goes (ap some at) found whole small
      ]

  next_break_lem :
      (fuel : ℕ) (s : S) (p : Process) (vma w : Vma) (addr : ℕ)
      → IsDisjoint p.mm.vmas
      → p.brk_vma ≡ some p.brk_base
      → pointee p.brk_base p.mm.vmas ≡ some vma
      → Stands w p.mm.vmas
      → vma.base < w.base
      → vma.size ≤ fuel * page_size
      → p.brk_base < addr
      → addr < 2 ^ 64
      → Moved p addr (next_break m heap_name (suc fuel) s p vma (addr - p.brk_base))
  unfolding next_break
  next_break_lem fuel s p vma w addr wf is_heap found above lower enough more small =
      let size = addr - p.brk_base in
      let (there, at) = pointee-Stands p.brk_base p.mm.vmas vma found in
      let (s', mm', r, e, new, how) =
        uvma_resize_lem m fuel s p.mm vma w size wf there above lower (omega (arith, at)) enough in
      let p1 : Process = record p { mm = mm' } in
      elim how [
        | inl (inl (k, failed, same)) ↦ (
          s',
          record p { locked = false; mm = mm' },
          err k,
          ground (arith, e, failed),
          refl,
          refl,
          new,
          inl (k, refl, same, refl),
        )
        | inl (inr (fine, same)) ↦
            let found' : pointee p.brk_base mm'.vmas ≡ some (record vma { size = size }) =
              ap (λ (k : Mm). pointee p.brk_base k.vmas) same
              ∙ ap (λ b. pointee p.brk_base (map (resized b size) p.mm.vmas)) at
              ∙ pointee-resized p.brk_base size p.mm.vmas vma found in
            report_moves s' p p1 (record vma { size = size }) addr _ new refl
              (ground (arith, e, fine)) is_heap found' (omega arith) small
        | inr (fine, long, same) ↦
            let found' : pointee p.brk_base mm'.vmas ≡ some vma =
              ap (λ (k : Mm). pointee p.brk_base k.vmas) same ∙ found in
            report_moves s' p p1 vma addr _ new refl (ground (arith, e, fine)) is_heap found'
              (omega (arith, long)) small
      ]

  brk_low :
      (fuel : ℕ) (s : S) (p : Process) (addr : ℕ)
      → p.locked ≡ false
      → addr ≢ 0
      → addr % page_size ≡ 0
      → addr ≤ p.brk_base
      → brk m heap_name fuel s p addr ≡ done (s, p, err einval)
  unfolding brk
  brk_low fuel s p addr unlocked some_addr aligned low =
      ground (arith, unlocked, some_addr, aligned, low)

  brk_first :
      (fuel : ℕ) (s : S) (p : Process) (addr : ℕ)
      → p.locked ≡ false
      → addr % page_size ≡ 0
      → p.brk_base < addr
      → p.brk_vma ≡ none
      → brk m heap_name fuel s p addr
        ≡ first_break m heap_name s (record p { locked = true }) (addr - p.brk_base)
  unfolding brk
  brk_first fuel s p addr unlocked aligned more fresh =
      ground (arith, unlocked, aligned, more, fresh)

  brk_next :
      (fuel : ℕ) (s : S) (p : Process) (vma : Vma) (addr : ℕ)
      → p.locked ≡ false
      → addr % page_size ≡ 0
      → p.brk_base < addr
      → p.brk_vma ≡ some p.brk_base
      → pointee p.brk_base p.mm.vmas ≡ some vma
      → brk m heap_name fuel s p addr
        ≡ next_break m heap_name fuel s (record p { locked = true }) vma (addr - p.brk_base)
  unfolding brk
  brk_next fuel s p vma addr unlocked aligned more is_heap found =
      ground (arith, unlocked, aligned, more, is_heap, found)

  -- The heap of the process, if it has one: a VMA at the break's base, with another VMA above it and
  -- fuel for its pages.
  abbrev pub IsHeap : Process → ℕ → Type 0
  IsHeap p fuel =
      (p.brk_vma ≡ none)
      ⊎ ((p.brk_vma ≡ some p.brk_base)
          × (vma : Vma) × (w : Vma) × (pointee p.brk_base p.mm.vmas ≡ some vma)
          × Stands w p.mm.vmas
          × (vma.base < w.base)
          × (vma.size ≤ fuel * page_size))

  -- `brk` of an address that is not 0 and is a multiple of the page size returns with the lock free
  -- and the VMAs disjoint and in the user's half: it fails and leaves the process as it is, or the
  -- heap is then the range from the base to that address, which is the answer.
  pub brk_lem :
      (fuel : ℕ) (s : S) (p : Process) (addr : ℕ)
      → p.locked ≡ false
      → IsDisjoint p.mm.vmas
      → IsHeap p fuel
      → addr ≢ 0
      → addr % page_size ≡ 0
      → addr < 2 ^ 64
      → Moved p addr (brk m heap_name (suc fuel) s p addr)
  brk_lem fuel s p addr unlocked wf heap some_addr aligned small = elim (dec_lt p.brk_base addr) [
    | no low ↦ (
      s,
      p,
      err einval,
      brk_low (suc fuel) s p addr unlocked some_addr aligned (omega (arith, low)),
      unlocked,
      refl,
      wf,
      inl (einval, refl, refl, refl),
    )
    | yes more ↦ elim heap [
      | inl fresh ↦
          subst (Moved p addr) (sym (brk_first (suc fuel) s p addr unlocked aligned more fresh))
            (first_break_lem s (record p { locked = true }) addr wf more small)
      | inr (is_heap, vma, w, found, above, lower, enough) ↦
          subst (Moved p addr)
            (sym (brk_next (suc fuel) s p vma addr unlocked aligned more is_heap found))
            (next_break_lem fuel s (record p { locked = true }) vma w addr wf is_heap found above
              lower enough more small)
    ]
  ]
