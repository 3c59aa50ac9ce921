-- ===== src/Vma/Range.antt =====
-- The VMAs of a process do not overlap.
use mathlib.Core.Path.{subst}
use grinch.Prelude.{
  ℕ, ◌+◌, ◌^◌, ◌≤◌, ◌<◌, ◌≡◌, refl, sym, ap, ◌∙◌, ◌⊎◌, inl, inr, true, false, Option, none, some,
  List, [], ◌∷◌, arith, Bool-cases, Option-cases,
}
use grinch.Errno.{Errno, Result, ok, err, einval, enomem, erange}
use grinch.Vma.{
  done, Flags, Vma, Mm, Machine, page_size, user_start, user_end, is_urange, overlaps, find_vma,
  uvma_at_range, uvma_collides, sizeof_vma,
}
use grinch.Vma.Area.{vma_alloc_range, enter, make, dup_name, uvma_create, fill, place}

pub Result-cases :
    {A : Type 0} (r : Result A) → ((a : A) × (r ≡ ok a)) ⊎ ((e : Errno) × (r ≡ err e))
Result-cases (ok a) = inl (a, refl)
Result-cases (err e) = inr (e, refl)

-- A VMA has a size and lies in the user's half.
abbrev pub Fits : Vma → Type 0
Fits v = (0 < v.size) × (user_start ≤ v.base) × (v.base + v.size ≤ user_end)

-- None of the VMAs meets the range.
abbrev pub Beside : ℕ → ℕ → List Vma → Type 0
Beside base size [] = Unit
Beside base size (v ∷ vs) =
    ((base + size ≤ v.base) ⊎ (v.base + v.size ≤ base)) × Beside base size vs

abbrev pub IsDisjoint : List Vma → Type 0
IsDisjoint [] = Unit
IsDisjoint (v ∷ vs) = Fits v × Beside v.base v.size vs × IsDisjoint vs

-- One of the VMAs covers the address.
abbrev pub Covers : ℕ → Vma → Type 0
Covers a v = (v.base ≤ a) × (a < v.base + v.size)

abbrev pub Stands : Vma → List Vma → Type 0
Stands v [] = ⊥
Stands v (w ∷ ws) = (v ≡ w) ⊎ Stands v ws

pub find_vma-none :
    (base size : ℕ) (vs : List Vma)
    → base + size < 2 ^ 64
    → IsDisjoint vs
    → find_vma base size vs ≡ none
    → Beside base size vs
unfolding find_vma
find_vma-none base size [] small wf e = tt
find_vma-none base size (v ∷ vs) small (fits, _, wf) e = elim (Bool-cases (overlaps base size v)) [
  | inl hit ↦ absurd (ground (arith, hit, e))
  | inr miss ↦ (ground (arith, miss), find_vma-none base size vs small wf (ground (arith, miss, e)))
]

pub find_vma-some :
    (base size : ℕ) (vs : List Vma) (v : Vma)
    → find_vma base size vs ≡ some v
    → Stands v vs × (overlaps base size v ≡ true)
unfolding find_vma
find_vma-some base size [] v e = absurd (ground (arith, e))
find_vma-some base size (w ∷ ws) v e = elim (Bool-cases (overlaps base size w)) [
  | inl hit ↦
      let same : w ≡ v = ground (arith, hit, e) in
      (inl (sym same), ap (overlaps base size) (sym same) ∙ hit)
  | inr miss ↦
      let (there, hit) = find_vma-some base size ws v (ground (arith, miss, e)) in (inr there, hit)
]

-- What `uvma_create` makes of the list, once it has found no VMA in the way.
abbrev pub Made : ℕ → ℕ → Mm → Mm → Result Vma → Type 0
Made base size mm mm' r =
    ((e : Errno) × (r ≡ err e) × (mm' ≡ mm))
    ⊎ ((v : Vma) × (r ≡ ok v)
        × (mm' ≡ record mm { vmas = v ∷ mm.vmas })
        × (v.base ≡ base)
        × (v.size ≡ size))

keeps :
    (mm : Mm) (base size : ℕ) (mm' : Mm) (r : Result Vma)
    → IsDisjoint mm.vmas
    → 0 < size
    → (user_start ≤ base) × (base + size ≤ user_end)
    → Beside base size mm.vmas
    → Made base size mm mm' r
    → IsDisjoint mm'.vmas
keeps mm base size mm' r wf some_size fits beside (inl (e, _, same)) =
    subst (λ (k : Mm). IsDisjoint k.vmas) (sym same) wf
keeps mm base size mm' r wf some_size fits beside (inr (v, _, new, at, long)) =
    subst (λ (k : Mm). IsDisjoint k.vmas) (sym new)
      (
        (omega (arith, long), omega (arith, at, fits.0), omega (arith, at, long, fits.1)),
        subst (λ b. Beside b v.size mm.vmas) (sym at)
            (subst (λ z. Beside base z mm.vmas) (sym long) beside),
        wf,
      )

-- A VMA is made, or there is no memory for it.
abbrev pub OnlyMemory : Result Vma → Type 0
OnlyMemory r = (r ≡ err enomem) ⊎ ((v : Vma) × (r ≡ ok v))

-- The answer, by where the range lies.
abbrev pub Answered : ℕ → ℕ → Flags → Mm → Result Vma → Type 0
Answered base size flags mm r =
    ((is_urange base size ≡ false) × (r ≡ err erange))
    ⊎ ((is_urange base size ≡ true)
        × ((v : Vma) × Stands v mm.vmas × (overlaps base size v ≡ true))
        × (r ≡ err einval))
    ⊎ ((is_urange base size ≡ true) × Beside base size mm.vmas × (flags.lazy ≡ true → OnlyMemory r))

module _ {S : Type 0} (m : Machine S) where
  enter_lem :
      (s : S) (mm : Mm) (vma : Vma)
      → Made vma.base vma.size mm (enter m s mm vma).1 (enter m s mm vma).2
  unfolding enter
  enter_lem s mm vma = elim (Bool-cases vma.flags.lazy) [
    | inl lazy ↦ inr (vma, ground (arith, lazy), ground (arith, lazy), refl, refl)
    | inr full ↦
        elim (Result-cases (vma_alloc_range m s mm.page_table vma vma.base vma.size page_size).1) [
          | inl (u, e) ↦ inr (vma, ground (arith, full, e), ground (arith, full, e), refl, refl)
          | inr (k, e) ↦ inl (k, ground (arith, full, e), ground (arith, full, e))
        ]
  ]

  fill_lem :
      (s : S) (mm : Mm) (base size self : ℕ) (flags : Flags) (name : Option (Option ℕ))
      → Made base size mm
          (fill m s mm base size self flags name).1
          (fill m s mm base size self flags name).2
  unfolding fill
  fill_lem s mm base size self flags none = inl (enomem, refl, refl)
  fill_lem s mm base size self flags (some name) = enter_lem s mm _

  place_lem :
      (s : S) (mm : Mm) (base size : ℕ) (flags : Flags) (name at : Option ℕ)
      → Made base size mm
          (place m s mm base size flags name at).1
          (place m s mm base size flags name at).2
  unfolding place
  place_lem s mm base size flags name none = inl (enomem, refl, refl)
  place_lem s mm base size flags name (some self) =
      fill_lem (dup_name m s name).0 mm base size self flags (dup_name m s name).1

  make_lem :
      (s : S) (mm : Mm) (base size : ℕ) (flags : Flags) (name : Option ℕ)
      → Made base size mm (make m s mm base size flags name).1 (make m s mm base size flags name).2
  unfolding make
  make_lem s mm base size flags name =
      place_lem (m.kmalloc s sizeof_vma).0 mm base size flags name (m.kmalloc s sizeof_vma).1

  create_free :
      (s : S) (mm : Mm) (base size : ℕ) (flags : Flags) (name : Option ℕ)
      → is_urange base size ≡ true
      → 0 < size
      → base + size < 2 ^ 64
      → find_vma base size mm.vmas ≡ none
      → uvma_create m s mm base size flags name ≡ done (make m s mm base size flags name)
  unfolding uvma_create uvma_collides uvma_at_range
  create_free s mm base size flags name range some_size small free = ground (arith, range, free)

  create_taken :
      (s : S) (mm : Mm) (base size : ℕ) (flags : Flags) (name : Option ℕ) (v : Vma)
      → is_urange base size ≡ true
      → 0 < size
      → base + size < 2 ^ 64
      → find_vma base size mm.vmas ≡ some v
      → uvma_create m s mm base size flags name ≡ done (s, mm, err einval)
  unfolding uvma_create uvma_collides uvma_at_range
  create_taken s mm base size flags name v range some_size small taken =
      ground (arith, range, taken)

  -- With a lazy VMA only memory for the VMA and its name can be short.
  enter_lazy :
      (s : S) (mm : Mm) (vma : Vma) → vma.flags.lazy ≡ true → OnlyMemory (enter m s mm vma).2
  unfolding enter
  enter_lazy s mm vma lazy = inr (vma, ground (arith, lazy))

  fill_lazy :
      (s : S) (mm : Mm) (base size self : ℕ) (flags : Flags) (name : Option (Option ℕ))
      → flags.lazy ≡ true
      → OnlyMemory (fill m s mm base size self flags name).2
  unfolding fill
  fill_lazy s mm base size self flags none lazy = inl refl
  fill_lazy s mm base size self flags (some name) lazy = enter_lazy s mm _ lazy

  place_lazy :
      (s : S) (mm : Mm) (base size : ℕ) (flags : Flags) (name at : Option ℕ)
      → flags.lazy ≡ true
      → OnlyMemory (place m s mm base size flags name at).2
  unfolding place
  place_lazy s mm base size flags name none lazy = inl refl
  place_lazy s mm base size flags name (some self) lazy =
      fill_lazy (dup_name m s name).0 mm base size self flags (dup_name m s name).1 lazy

  make_lazy :
      (s : S) (mm : Mm) (base size : ℕ) (flags : Flags) (name : Option ℕ)
      → flags.lazy ≡ true
      → OnlyMemory (make m s mm base size flags name).2
  unfolding make
  make_lazy s mm base size flags name lazy =
      place_lazy (m.kmalloc s sizeof_vma).0 mm base size flags name (m.kmalloc s sizeof_vma).1 lazy

  -- `uvma_create` of a range that has a size and does not wrap around returns, and keeps the VMAs
  -- disjoint and in the user's half: it fails and leaves them as they are, or it puts a VMA for that
  -- range in front of them. There are three cases: the range is not the user's, and the answer is
  -- ERANGE; it is, but overlaps one of the VMAs, and the answer is EINVAL; or it is the user's and lies
  -- beside all of them, and then a lazy VMA is made unless the answer is ENOMEM.
  pub uvma_create_lem :
      (s : S) (mm : Mm) (base size : ℕ) (flags : Flags) (name : Option ℕ)
      → IsDisjoint mm.vmas
      → 0 < size
      → base + size < 2 ^ 64
      → (s' : S) × (mm' : Mm) × (r : Result Vma) × (uvma_create m s mm base size flags name
          ≡ done (s', mm', r))
        × IsDisjoint mm'.vmas
        × Made base size mm mm' r
        × Answered base size flags mm r
  unfolding uvma_create
  uvma_create_lem s mm base size flags name wf some_size small =
      elim (Bool-cases (is_urange base size)) [
        | inr out ↦
            (s, mm, err erange, ground (arith, out), wf, inl (erange, refl, refl), inl (out, refl))
        | inl range ↦ elim (Option-cases (find_vma base size mm.vmas)) [
          | inr (v, taken) ↦ (
            s,
            mm,
            err einval,
            create_taken s mm base size flags name v range some_size small taken,
            wf,
            inl (einval, refl, refl),
            (let (there, hit) = find_vma-some base size mm.vmas v taken in
                inr (inl (range, (v, there, hit), refl))),
          )
          | inl free ↦
              let t = make m s mm base size flags name in
              let beside = find_vma-none base size mm.vmas small wf free in
              let fits : (user_start ≤ base) × (base + size ≤ user_end) = ground (arith, range) in
              (
                t.0,
                t.1,
                t.2,
                create_free s mm base size flags name range some_size small free,
                keeps mm base size t.1 t.2 wf some_size fits beside
                    (make_lem s mm base size flags name),
                make_lem s mm base size flags name,
                inr (inr (range, beside, make_lazy s mm base size flags name)),
              )
        ]
      ]
