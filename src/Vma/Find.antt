-- ===== src/Vma/Find.antt =====
-- `uvma_at` finds the VMA at an address.
use mathlib.Core.Path.{subst}
use grinch.Prelude.{
  ℕ, ◌+◌, ◌^◌, ◌≤◌, ◌<◌, ◌≡◌, sym, ap, ◌∙◌, ◌↔◌, ◌⊎◌, inl, inr, true, false, Option, some, List, [],
  ◌∷◌, arith,
}
use grinch.Vma.{done, Vma, Mm, overlaps, find_vma, uvma_at_range, uvma_at}
use grinch.Vma.Range.{Fits, Beside, IsDisjoint, Covers, Stands, find_vma-some}

pub Stands-Fits : (v : Vma) (vs : List Vma) → IsDisjoint vs → Stands v vs → Fits v
Stands-Fits v [] wf k = elim k [ ]
Stands-Fits v (w ∷ ws) (fits, _, wf) (inl e) = subst Fits (sym e) fits
Stands-Fits v (w ∷ ws) (fits, _, wf) (inr k) = Stands-Fits v ws wf k

pub Beside-Stands :
    (base size : ℕ) (v : Vma) (vs : List Vma)
    → Beside base size vs
    → Stands v vs
    → (base + size ≤ v.base) ⊎ (v.base + v.size ≤ base)
Beside-Stands base size v [] far k = elim k [ ]
Beside-Stands base size v (w ∷ ws) (here, far) (inl e) =
    subst (λ (u : Vma). (base + size ≤ u.base) ⊎ (u.base + u.size ≤ base)) (sym e) here
Beside-Stands base size v (w ∷ ws) (here, far) (inr k) = Beside-Stands base size v ws far k

find_vma-Stands :
    (a : ℕ) (v : Vma) (vs : List Vma)
    → a + 1 < 2 ^ 64
    → IsDisjoint vs
    → Stands v vs
    → Covers a v
    → find_vma a 1 vs ≡ some v
unfolding find_vma
find_vma-Stands a v [] small wf k at = elim k [ ]
find_vma-Stands a v (w ∷ ws) small (fits, far, wf) (inl e) at =
    let here : overlaps a 1 w ≡ true =
      ap (overlaps a 1) (sym e) ∙ covered a v small (subst Fits (sym e) fits) at in
    ground (arith, here, e)
  where
    covered : (a : ℕ) (v : Vma) → a + 1 < 2 ^ 64 → Fits v → Covers a v → overlaps a 1 v ≡ true
    covered a v small fits at = ground (arith, fits, at)
find_vma-Stands a v (w ∷ ws) small (fits, far, wf) (inr k) at =
    let apart = Beside-Stands w.base w.size v ws far k in
    let later = find_vma-Stands a v ws small wf k at in
    let miss : overlaps a 1 w ≡ false = ground (arith, apart, at, fits) in
    ground (arith, miss, later)

find_vma-Covers :
    (a : ℕ) (v : Vma) (vs : List Vma)
    → a + 1 < 2 ^ 64
    → IsDisjoint vs
    → find_vma a 1 vs ≡ some v
    → Stands v vs × Covers a v
find_vma-Covers a v vs small wf e =
    let (there, hit) = find_vma-some a 1 vs v e in
    let fits = Stands-Fits v vs wf there in (there, ground (arith, hit, fits))

done_some : (v w : Option Vma) → done v ≡ done w → v ≡ w
done_some v w e = ground (arith, e)

-- With disjoint VMAs, `uvma_at` of an address, the last one excepted, answers exactly the VMA that
-- covers it.
pub uvma_at_lem :
    (mm : Mm) (a : ℕ) (v : Vma)
    → IsDisjoint mm.vmas
    → a + 1 < 2 ^ 64
    → (uvma_at mm a ≡ done (some v)) ↔ (Stands v mm.vmas × Covers a v)
unfolding uvma_at uvma_at_range
uvma_at_lem mm a v wf small =
    let open_up : uvma_at mm a ≡ done (find_vma a 1 mm.vmas) = ground arith in
    (
      λ e. find_vma-Covers a v mm.vmas small wf (done_some _ _ (sym open_up ∙ e)),
      λ k. open_up ∙ ap done (find_vma-Stands a v mm.vmas small wf k.0 k.1),
    )
