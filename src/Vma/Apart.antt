-- ===== src/Vma/Apart.antt =====
-- A VMA that gets another size stays apart from the others.
use mathlib.Core.Path.{subst}
use grinch.Prelude.{
  ℕ, ◌+◌, ◌≤◌, ◌<◌, ◌≡◌, refl, sym, ap, ◌∙◌, ◌≢◌, ◌⊎◌, inl, inr, List, [], ◌∷◌, map, arith,
  ℕ_discrete,
}
use grinch.Vma.{Vma, user_start, user_end}
use grinch.Vma.Area.{resized}
use grinch.Vma.Range.{Beside, IsDisjoint, Stands}
use grinch.Vma.Find.{Stands-Fits, Beside-Stands}

resized-Beside :
    (base size b n : ℕ) (vs : List Vma)
    → Beside b n vs
    → ((v : Vma) → Stands v vs → v.base ≡ base → (b + n ≤ v.base) ⊎ (v.base + size ≤ b))
    → Beside b n (map (resized base size) vs)
resized-Beside base size b n [] far new = tt
resized-Beside base size b n (v ∷ vs) (here, far) new =
    let rest = resized-Beside base size b n vs far (λ u k. new u (inr k)) in
    elim (ℕ_discrete v.base base) [
      | yes e ↦ (ground (arith, new v (inl refl) e, e), rest)
      | no e ↦ (ground (arith, here, e), rest)
    ]

-- The other VMAs leave the range to the one at `base`.
abbrev pub Room : ℕ → ℕ → List Vma → Type 0
Room base n vs =
    (u : Vma) → Stands u vs → u.base ≢ base → (base + n ≤ u.base) ⊎ (u.base + u.size ≤ base)

other_base :
    (v : Vma) (vs : List Vma) (u : Vma) → IsDisjoint (v ∷ vs) → Stands u vs → u.base ≢ v.base
other_base v vs u (fits, far, wf) k e =
    ground (arith, fits, Stands-Fits u vs wf k, Beside-Stands v.base v.size u vs far k, e)

Room-Beside :
    (base n : ℕ) (vs : List Vma)
    → Room base n vs
    → ((u : Vma) → Stands u vs → u.base ≢ base)
    → Beside base n vs
Room-Beside base n [] room other = tt
Room-Beside base n (v ∷ vs) room other = (
  room v (inl refl) (other v (inl refl)),
  Room-Beside base n vs (λ u k. room u (inr k)) (λ u k. other u (inr k)),
)

Beside-at :
    (base n : ℕ) (v : Vma) (vs : List Vma)
    → v.base ≡ base
    → v.size ≡ n
    → Beside base n vs
    → Beside v.base v.size vs
Beside-at base n v vs at long far =
    subst (λ b. Beside b v.size vs) (sym at) (subst (λ k. Beside base k vs) (sym long) far)

pub resized-IsDisjoint :
    (base n : ℕ) (vs : List Vma)
    → IsDisjoint vs
    → 0 < n
    → user_start ≤ base
    → base + n ≤ user_end
    → Room base n vs
    → IsDisjoint (map (resized base n) vs)
resized-IsDisjoint base n [] wf some_size low high room = tt
resized-IsDisjoint base n (v ∷ vs) (fits, far, wf) some_size low high room =
    let rest = resized-IsDisjoint base n vs wf some_size low high (λ u k. room u (inr k)) in
    elim (ℕ_discrete v.base base) [
      | yes e ↦
          let other : (u : Vma) → Stands u vs → u.base ≢ base =
            λ u k p. other_base v vs u (fits, far, wf) k (p ∙ sym e) in
          let beside =
            resized-Beside base n base n vs (Room-Beside base n vs (λ u k. room u (inr k)) other)
              (λ u k p. absurd (other u k p)) in
          (
            ground (arith, e, fits),
            Beside-at base n (resized base n v) _ (ground (arith, e)) (ground (arith, e)) beside,
            rest,
          )
      | no e ↦
          let beside =
            resized-Beside base n v.base v.size vs far
              (λ u k p. ground (arith, room v (inl refl) e, p)) in
          (
            ground (arith, e, fits),
            Beside-at v.base v.size (resized base n v) _ (ground (arith, e)) (ground (arith, e))
                beside,
            rest,
          )
    ]

pub apart :
    (u v : Vma) (vs : List Vma)
    → IsDisjoint vs
    → Stands u vs
    → Stands v vs
    → u.base ≢ v.base
    → (v.base + v.size ≤ u.base) ⊎ (u.base + u.size ≤ v.base)
apart u v [] wf k l ne = elim k [ ]
apart u v (w ∷ ws) wf (inl e) (inl e') ne = absurd (ne (ap (λ (x : Vma). x.base) (e ∙ sym e')))
apart u v (w ∷ ws) (_, far, wf) (inl e) (inr l) ne =
    let k = Beside-Stands w.base w.size v ws far l in
    subst (λ (x : Vma). (v.base + v.size ≤ x.base) ⊎ (x.base + x.size ≤ v.base)) (sym e)
      (ground (arith, k))
apart u v (w ∷ ws) (_, far, wf) (inr k) (inl e) ne =
    let l = Beside-Stands w.base w.size u ws far k in
    subst (λ (x : Vma). (x.base + x.size ≤ u.base) ⊎ (u.base + u.size ≤ x.base)) (sym e) l
apart u v (w ∷ ws) (_, _, wf) (inr k) (inr l) ne = apart u v ws wf k l ne
