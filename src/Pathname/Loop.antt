-- ===== src/Pathname/Loop.antt =====
-- The loops of `pathname_sanitise_dir`.
use mathlib.Core.Path.{subst}
use grinch.Prelude.{
  ℕ, zero, suc, ◌+◌, ◌≤◌, ◌<◌, ◌≡◌, refl, sym, ap, ◌∙◌, ◌≢◌, inl, inr, false, some, List, [], ◌∷◌,
  arith, ℕ_discrete, ◌==◌, if◌then◌else◌, Bool-cases, length,
}
use grinch.Prelude.Maps.{update, update_self, update_ne}
use grinch.Bytes.{Memory}
use grinch.Pathname.{slash, skip_slashes, sanitise_from}
use grinch.Pathname.Form.{
  Stored, squeeze, ends_in_slash, drop_slashes, squeeze-drop_slashes, drop_one, drop_none,
  squeeze-first,
}

Stored-update :
    (mem : Memory) (x v p : ℕ) (cs : List ℕ)
    → x < p
    → Stored mem p cs
    → Stored (update mem x v) p cs
Stored-update mem x v p [] low e = update_ne mem x p v (omega (arith, low)) ∙ e
Stored-update mem x v p (c ∷ cs) low (e, ne, rest) = (
  update_ne mem x p v (omega (arith, low)) ∙ e,
  ne,
  Stored-update mem x v (p + 1) cs (omega (arith, low)) rest,
)

skip_slashes_lem :
    (fuel : ℕ) (mem : Memory) (p : ℕ) (cs : List ℕ)
    → length cs < fuel
    → Stored mem p cs
    → (p' : ℕ) × (skip_slashes fuel mem p ≡ some p')
      × (p ≤ p')
      × Stored mem p' (drop_slashes cs)
      × (length (drop_slashes cs) ≤ length cs)
unfolding skip_slashes drop_slashes
skip_slashes_lem zero mem p cs enough stored = absurd (omega (arith, enough))
skip_slashes_lem (suc fuel) mem p [] enough e = (p, ground (arith, e), omega arith, e, omega arith)
skip_slashes_lem (suc fuel) mem p (c ∷ cs) enough (e, ne, rest) = elim (ℕ_discrete c slash) [
  | yes is_slash ↦
      let (p', e', low, stored, less) =
        skip_slashes_lem fuel mem (p + 1) cs (omega (arith, enough)) rest in
      let same = drop_one c cs is_slash in
      (
        p',
        ground (arith, e, is_slash, e'),
        omega (arith, low),
        subst (Stored mem p') (sym same) stored,
        omega (arith, less, ap (λ (l : List ℕ). length l) same),
      )
  | no other ↦
      let same = drop_none c cs other in
      (
        p,
        ground (arith, e, other),
        omega arith,
        subst (Stored mem p) (sym same) (e, ne, rest),
        omega (arith, ap (λ (l : List ℕ). length l) same),
      )
]

-- Where the outer loop goes on, and what stands there.
next_lem :
    (fuel : ℕ) (mem : Memory) (p c : ℕ) (cs : List ℕ)
    → length cs < fuel
    → Stored mem p cs
    → (p' : ℕ) × (rest : List ℕ) × ((if c == slash then skip_slashes fuel mem p else some p)
        ≡ some p')
      × (p ≤ p')
      × Stored mem p' rest
      × (length rest ≤ length cs)
      × (squeeze (c == slash) cs ≡ squeeze false rest)
next_lem fuel mem p c cs enough stored = elim (Bool-cases (c == slash)) [
  | inl h ↦
      let (p', e, low, stored', less) = skip_slashes_lem fuel mem p cs enough stored in
      (
        p',
        drop_slashes cs,
        ground (arith, h, e),
        low,
        stored',
        less,
        ap (λ b. squeeze b cs) h ∙ squeeze-drop_slashes cs,
      )
  | inr h ↦ (p, cs, ground (arith, h), omega arith, stored, omega arith, ap (λ b. squeeze b cs) h)
]

-- What the outer loop leaves behind from `dst` on.
abbrev pub Leaves : ℕ → Memory → ℕ → ℕ → List ℕ → Type 0
Leaves fuel mem dst pos out =
    (mem' : Memory) × (sanitise_from fuel mem dst pos
      ≡ some (mem', dst + length out, ends_in_slash out))
    × Stored mem' dst out
    × ((x : ℕ) → x < dst → mem' x ≡ mem x)

last_round :
    (fuel : ℕ) (mem : Memory) (dst pos c pos' : ℕ)
    → (let mem' = update mem dst (mem pos) in
        (mem' pos ≡ c)
        × ((if c == slash then skip_slashes (suc fuel) mem' (pos + 1) else some (pos + 1))
            ≡ some pos')
        × (mem' pos' ≡ 0))
    → sanitise_from (suc fuel) mem dst pos
      ≡ some (update (update mem dst (mem pos)) (dst + 1) 0, dst + 1, c == slash)
unfolding sanitise_from
last_round fuel mem dst pos c pos' (e, next, end) =
    let next' =
      ap
        (λ k.
          if k == slash
          then skip_slashes (suc fuel) (update mem dst (mem pos)) (pos + 1)
          else some (pos + 1))
        e
      ∙ next in
    let must = ap (λ k. k == slash) e in ground (arith, next', end, must)

more_rounds :
    (fuel : ℕ) (mem : Memory) (dst pos c pos' : ℕ)
    → (let mem' = update mem dst (mem pos) in
        (mem' pos ≡ c)
        × ((if c == slash then skip_slashes (suc fuel) mem' (pos + 1) else some (pos + 1))
            ≡ some pos')
        × (mem' pos' ≢ 0))
    → sanitise_from (suc fuel) mem dst pos
      ≡ sanitise_from fuel (update mem dst (mem pos)) (dst + 1) pos'
unfolding sanitise_from
more_rounds fuel mem dst pos c pos' (e, next, on) =
    let next' =
      ap
        (λ k.
          if k == slash
          then skip_slashes (suc fuel) (update mem dst (mem pos)) (pos + 1)
          else some (pos + 1))
        e
      ∙ next in
    ground (arith, next', on)

-- A round of the outer loop, by what stands behind the slashes.
round_lem :
    (fuel : ℕ) (mem : Memory) (dst pos c pos' : ℕ) (cs rest : List ℕ)
    → c ≢ 0
    → (let mem1 = update mem dst (mem pos) in
        ((if c == slash then skip_slashes (suc fuel) mem1 (pos + 1) else some (pos + 1))
          ≡ some pos')
        × (mem1 pos ≡ c)
        × (mem1 dst ≡ c)
        × ((x : ℕ) → x < dst → mem1 x ≡ mem x)
        × Stored mem1 pos' rest)
    → squeeze (c == slash) cs ≡ squeeze false rest
    → ((d : ℕ) (ds : List ℕ)
        → rest ≡ d ∷ ds
        → Leaves fuel (update mem dst (mem pos)) (dst + 1) pos' (d ∷ squeeze (d == slash) ds))
    → Leaves (suc fuel) mem dst pos (c ∷ squeeze (c == slash) cs)
unfolding squeeze ends_in_slash
round_lem fuel mem dst pos c pos' cs [] ne (next, at, here, frame, end) same later =
    let mem1 = update mem dst (mem pos) in
    subst (λ l. Leaves (suc fuel) mem dst pos (c ∷ l)) {x = []} (sym same)
      (
        update mem1 (dst + 1) 0,
        last_round fuel mem dst pos c pos' (at, next, end),
        (update_ne mem1 (dst + 1) dst 0 (omega arith) ∙ here, ne, update_self mem1 (dst + 1) 0),
        λ x p. update_ne mem1 (dst + 1) x 0 (omega (arith, p)) ∙ frame x p,
      )
round_lem fuel mem dst pos c pos' cs (d ∷ ds) ne (next, at, here, frame, (e, ne', _)) same later =
    let out = squeeze (d == slash) ds in
    let (mem2, steps, stored, kept) = later d ds refl in
    subst (λ l. Leaves (suc fuel) mem dst pos (c ∷ l)) {x = d ∷ out}
      (sym (same ∙ squeeze-first d ds))
      (
        mem2,
        more_rounds fuel mem dst pos c pos' (at, next, λ z. ne' (sym e ∙ z))
            ∙ steps
            ∙ ap (λ n. some (mem2, n, ends_in_slash (d ∷ out))) {x = dst + 1 + length (d ∷ out)}
                {y = dst + length (c ∷ d ∷ out)} (omega arith),
        (kept dst (omega arith) ∙ here, ne, stored),
        λ x p. kept x (omega (arith, p)) ∙ frame x p,
      )

-- The outer loop collapses the runs of slashes.
pub sanitise_from_lem :
    (fuel : ℕ) (mem : Memory) (dst pos c : ℕ) (cs : List ℕ)
    → dst ≤ pos
    → length cs < fuel
    → Stored mem pos (c ∷ cs)
    → Leaves fuel mem dst pos (c ∷ squeeze (c == slash) cs)
sanitise_from_lem zero mem dst pos c cs behind enough stored = absurd (omega (arith, enough))
sanitise_from_lem (suc fuel) mem dst pos c cs behind enough (e, ne, stored) =
    let mem1 = update mem dst (mem pos) in
    let here : mem1 dst ≡ c = update_self mem dst (mem pos) ∙ e in
    let at : mem1 pos ≡ c = elim (ℕ_discrete pos dst) [
      | yes same ↦ ap mem1 same ∙ here
      | no other ↦ update_ne mem dst pos (mem pos) other ∙ e
    ] in
    let (pos', rest, next, low, stored', less, same) =
      next_lem (suc fuel) mem1 (pos + 1) c cs enough
        (Stored-update mem dst (mem pos) (pos + 1) cs (omega (arith, behind)) stored) in
    let frame : (x : ℕ) → x < dst → mem1 x ≡ mem x =
      λ x p. update_ne mem dst x (mem pos) (omega (arith, p)) in
    round_lem fuel mem dst pos c pos' cs rest ne (next, at, here, frame, stored') same
      (λ d ds split.
        sanitise_from_lem fuel mem1 (dst + 1) pos' d ds (omega (arith, behind, low))
          (omega (arith, enough, less, ap (λ (l : List ℕ). length l) split))
          (subst (Stored mem1 pos') split stored'))
