-- ===== src/Vma/Resize.antt =====
-- `uvma_resize` keeps the VMAs apart.
use mathlib.Core.Path.{subst}
use grinch.Prelude.{
  ℕ, suc, ◌+◌, ◌-◌, ◌*◌, ◌%◌, ◌^◌, ◌≤◌, ◌<◌, ◌≡◌, refl, sym, ◌⊎◌, inl, inr, true, not, ◌||◌, none,
  some, map, arith, dec_lt, ℕ_discrete, ◌==◌, Bool-cases, Option-cases,
}
use grinch.Errno.{Errno, Result, ok, err, einval, erange, enosys}
use grinch.Vma.{
  done, Vma, Mm, Machine, page_size, user_end, plus, find_vma, uvma_at_range, uvma_collides,
}
use grinch.Vma.Area.{resized, uvma_resize}
use grinch.Vma.Range.{Result-cases, IsDisjoint, Stands, find_vma-none}
use grinch.Vma.Find.{Stands-Fits, Beside-Stands}
use grinch.Vma.Dealloc.{dealloc_range}
use grinch.Vma.Apart.{Room, resized-IsDisjoint, apart}

-- What `uvma_resize` makes of the list.
abbrev pub Resized : ℕ → ℕ → Mm → Mm → Result (Unit {0}) → Type 0
Resized base size mm mm' r =
    ((e : Errno) × (r ≡ err e) × (mm' ≡ mm))
    ⊎ ((r ≡ ok tt) × (mm' ≡ record mm { vmas = map (resized base size) mm.vmas }))

module _ {S : Type 0} (m : Machine S) where
  grow_free :
      (fuel : ℕ) (s : S) (mm : Mm) (vma : Vma) (size : ℕ)
      → vma.flags.lazy ≡ true
      → size % page_size ≡ 0
      → vma.size < size
      → vma.base + size < 2 ^ 64
      → find_vma (vma.base + vma.size) (size - vma.size) mm.vmas ≡ none
      → uvma_resize m fuel s mm vma size
        ≡ done (s, record mm { vmas = map (resized vma.base size) mm.vmas }, ok tt)
  unfolding uvma_resize uvma_collides uvma_at_range
  grow_free fuel s mm vma size lazy aligned more small free =
      let stop : plus vma.base vma.size ≡ vma.base + vma.size = omega arith in
      ground (arith, lazy, aligned, stop, free)

  grow_taken :
      (fuel : ℕ) (s : S) (mm : Mm) (vma : Vma) (size : ℕ) (v : Vma)
      → vma.flags.lazy ≡ true
      → size % page_size ≡ 0
      → vma.size < size
      → vma.base + size < 2 ^ 64
      → find_vma (vma.base + vma.size) (size - vma.size) mm.vmas ≡ some v
      → uvma_resize m fuel s mm vma size ≡ done (s, mm, err erange)
  unfolding uvma_resize uvma_collides uvma_at_range
  grow_taken fuel s mm vma size v lazy aligned more small taken =
      let stop : plus vma.base vma.size ≡ vma.base + vma.size = omega arith in
      ground (arith, lazy, aligned, stop, taken)

  shrink_lem :
      (fuel : ℕ) (s : S) (mm : Mm) (vma : Vma) (size : ℕ)
      → vma.flags.lazy ≡ true
      → size % page_size ≡ 0
      → 0 < size
      → size < vma.size
      → vma.base + vma.size + page_size < 2 ^ 64
      → vma.size ≤ fuel * page_size
      → (s' : S) × (mm' : Mm) × (r : Result (Unit {0})) × (uvma_resize m (suc fuel) s mm vma size
          ≡ done (s', mm', r))
        × Resized vma.base size mm mm' r
  unfolding uvma_resize
  shrink_lem fuel s mm vma size lazy aligned some_size less small enough =
      let from : plus vma.base size ≡ vma.base + size = omega arith in
      let (s', r, e) =
        dealloc_range m fuel s mm vma (plus vma.base size) (vma.size - size) lazy
          (omega (arith, from)) (omega arith) in
      elim (Result-cases r) [
        | inr (k, failed) ↦
            (s', mm, err k, ground (arith, lazy, aligned, e, failed), inl (k, refl, refl))
        | inl (u, fine) ↦ (
          s',
          record mm { vmas = map (resized vma.base size) mm.vmas },
          ok tt,
          ground (arith, lazy, aligned, e, fine),
          inr (refl, refl),
        )
      ]

Resized-IsDisjoint :
    (vma : Vma) (size : ℕ) (mm mm' : Mm) (r : Result (Unit {0}))
    → IsDisjoint (map (resized vma.base size) mm.vmas)
    → IsDisjoint mm.vmas
    → Resized vma.base size mm mm' r
    → IsDisjoint mm'.vmas
Resized-IsDisjoint vma size mm mm' r new old (inl (e, _, same)) =
    subst (λ (k : Mm). IsDisjoint k.vmas) (sym same) old
Resized-IsDisjoint vma size mm mm' r new old (inr (_, same)) =
    subst (λ (k : Mm). IsDisjoint k.vmas) (sym same) new

module _ {S : Type 0} (m : Machine S) (fuel : ℕ) (s : S) (mm : Mm) (vma w : Vma) (size : ℕ)
    (wf : IsDisjoint mm.vmas) (there : Stands vma mm.vmas) (above : Stands w mm.vmas)
    (lower : vma.base < w.base) (small : vma.base + size < 2 ^ 64)
    (enough : vma.size ≤ fuel * page_size) where
  -- How `uvma_resize` ends.
  abbrev Kept : Type 0
  Kept =
      (s' : S) × (mm' : Mm) × (r : Result (Unit {0})) × (uvma_resize m (suc fuel) s mm vma size
        ≡ done (s', mm', r))
      × IsDisjoint mm'.vmas
      × (Resized vma.base size mm mm' r ⊎ ((r ≡ ok tt) × (size ≡ vma.size) × (mm' ≡ mm)))

  shrink_kept : vma.flags.lazy ≡ true → size % page_size ≡ 0 → 0 < size → size < vma.size → Kept
  shrink_kept lazy aligned some_size less =
      let fits = Stands-Fits vma mm.vmas wf there in
      let (s', mm', r, e, new) =
        shrink_lem m fuel s mm vma size lazy aligned some_size less (omega (arith, fits)) enough in
      let room : Room vma.base size mm.vmas =
        λ u k ne. ground (arith, less, apart u vma mm.vmas wf k there ne) in
      let kept =
        resized-IsDisjoint vma.base size mm.vmas wf some_size fits.1 (omega (arith, fits)) room in
      (s', mm', r, e, Resized-IsDisjoint vma size mm mm' r kept wf new, inl new)

  grow_kept : vma.flags.lazy ≡ true → size % page_size ≡ 0 → vma.size < size → Kept
  grow_kept lazy aligned more =
      let fits = Stands-Fits vma mm.vmas wf there in
      let top = Stands-Fits w mm.vmas wf above in
      elim (Option-cases (find_vma (vma.base + vma.size) (size - vma.size) mm.vmas)) [
        | inr (v, taken) ↦ (
          s,
          mm,
          err erange,
          grow_taken m (suc fuel) s mm vma size v lazy aligned more small taken,
          wf,
          inl (inl (erange, refl, refl)),
        )
        | inl free ↦
            let beside =
              find_vma-none (vma.base + vma.size) (size - vma.size) mm.vmas (omega arith) wf free in
            let room : Room vma.base size mm.vmas = λ u k ne. ground (
              arith,
              more,
              apart u vma mm.vmas wf k there ne,
              Beside-Stands (vma.base + vma.size) (size - vma.size) u mm.vmas beside k,
              Stands-Fits u mm.vmas wf k,
            ) in
            let high : vma.base + size ≤ user_end = ground (
              arith,
              more,
              lower,
              top,
              apart w vma mm.vmas wf above there (λ e. omega (arith, e, lower)),
              Beside-Stands (vma.base + vma.size) (size - vma.size) w mm.vmas beside above,
            ) in
            (
              s,
              record mm { vmas = map (resized vma.base size) mm.vmas },
              ok tt,
              grow_free m (suc fuel) s mm vma size lazy aligned more small free,
              resized-IsDisjoint vma.base size mm.vmas wf (omega arith) fits.1 high room,
              inl (inr (refl, refl)),
            )
      ]

  -- `uvma_resize` of a VMA of the process that has another VMA above it, as the heap has the stack,
  -- ends with fuel for its pages, and keeps the VMAs disjoint and in the user's half: it fails and
  -- leaves them as they are, or exactly this VMA has the new size.
  pub uvma_resize_lem :
      (s' : S) × (mm' : Mm) × (r : Result (Unit {0})) × (uvma_resize m (suc fuel) s mm vma size
        ≡ done (s', mm', r))
      × IsDisjoint mm'.vmas
      × (Resized vma.base size mm mm' r ⊎ ((r ≡ ok tt) × (size ≡ vma.size) × (mm' ≡ mm)))
  unfolding uvma_resize
  uvma_resize_lem = elim (Bool-cases vma.flags.lazy) [
    | inr full ↦ (s, mm, err enosys, ground (arith, full), wf, inl (inl (enosys, refl, refl)))
    | inl lazy ↦ elim (Bool-cases (not (size % page_size == 0) || size == 0)) [
      | inl odd ↦ (s, mm, err einval, ground (arith, lazy, odd), wf, inl (inl (einval, refl, refl)))
      | inr even ↦ elim (ℕ_discrete size vma.size) [
        | yes e ↦ (s, mm, ok tt, ground (arith, lazy, even, e), wf, inr (refl, e, refl))
        | no ne ↦ elim (dec_lt size vma.size) [
          | yes less ↦ shrink_kept lazy (ground (arith, even)) (ground (arith, even)) less
          | no more ↦ grow_kept lazy (ground (arith, even)) (omega (arith, ne, more))
        ]
      ]
    ]
  ]
