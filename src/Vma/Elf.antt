-- ===== src/Vma/Elf.antt =====
-- kernel/process.c: the loop of `process_load_elf` over the program headers.
use mathlib.Core.Path.{subst}
use grinch.Prelude.{
  ℕ, ◌+◌, ◌-◌, ◌*◌, ◌/◌, ◌%◌, ◌^◌, ◌≤◌, ◌<◌, ◌≡◌, refl, sym, ◌≢◌, ◌⊎◌, inl, inr, Bool, true, false,
  not, none, some, List, [], ◌∷◌, arith, dec_lt, ℕ_discrete, ltb, ◌==◌, if◌then◌else◌, lt→ltb,
  Option-cases,
}
use grinch.Errno.{Result, ok, err, einval, erange}
use grinch.Vma.{
  Outcome, done, bug, short, Flags, Vma, Mm, Machine, page_size, plus, uvma_collides, uvma_at_range,
  find_vma,
}
use grinch.Vma.Area.{uvma_create}
use grinch.Vma.Range.{Result-cases, IsDisjoint, uvma_create_lem}

-- `Elf_Phdr`, its flags as three bits
pub record Phdr : Type 0 where
  pub p_type : ℕ
  pub pf_r : Bool
  pub pf_w : Bool
  pub pf_x : Bool
  pub p_offset : ℕ
  pub p_vaddr : ℕ
  pub p_filesz : ℕ
  pub p_memsz : ℕ

abbrev pub pt_load : ℕ
pt_load = 1

-- `page_up`
abbrev pub page_up : ℕ → ℕ
page_up diff = (diff + page_size - 1) % 2 ^ 64 / page_size * page_size

abbrev pub segment_flags : Phdr → Flags
segment_flags p = record {
  lazy = false;
  user = true;
  readable = p.pf_r;
  writable = p.pf_w;
  runnable = p.pf_x;
}

-- What the loader changes: the memory map and `brk.base`.
pub record Image (S : Type 0) : Type 0 where
  pub state : S
  pub mm : Mm
  pub brk_base : ℕ

-- The range of a segment is empty or wraps around.
abbrev pub Degenerate : Phdr → Type 0
Degenerate p = (page_up p.p_memsz ≡ 0) ⊎ (2 ^ 64 ≤ p.p_vaddr + page_up p.p_memsz)

-- No header of the list is a segment that ends in BUG().
abbrev pub Sound : List Phdr → Type 0
Sound [] = Unit
Sound (p ∷ ps) =
    ((p.p_type ≢ pt_load) ⊎ ((0 < page_up p.p_memsz) × (p.p_vaddr + page_up p.p_memsz < 2 ^ 64)))
    × Sound ps

module _ {S : Type 0} (m : Machine S) (ehdr : ℕ) where
  -- The copy of a segment to its VMA.
  unfoldable pub fill_segment : Image S → Phdr → ℕ → Image S × Result (Unit {0})
  fill_segment g p vma_size =
      let (s1, copied) = m.copy_to_user g.state g.mm p.p_vaddr (ehdr + p.p_offset) p.p_filesz in
      let stop = plus p.p_vaddr vma_size in
      if not (copied == p.p_filesz) then (record g { state = s1 }, err erange) else (
        record g { state = s1; brk_base = if ltb g.brk_base stop then stop else g.brk_base },
        ok tt,
      )

  -- One round of the loop, for a header of the type PT_LOAD.
  unfoldable pub load_segment : Image S → Phdr → Outcome (Image S × Result (Unit {0}))
  load_segment g p =
      let vma_size = page_up p.p_memsz in
      elim (uvma_collides g.mm p.p_vaddr vma_size) [
        | bug ↦ bug
        | short ↦ short
        | done true ↦ done (g, err einval)
        | done false ↦ elim (uvma_create m g.state g.mm p.p_vaddr vma_size (segment_flags p) none) [
          | bug ↦ bug
          | short ↦ short
          | done (s1, mm, err e) ↦ done (record g { state = s1; mm = mm }, err e)
          | done (s1, mm, ok vma) ↦
              done (fill_segment (record g { state = s1; mm = mm }) p vma_size)
        ]
      ]

  -- The loop.
  unfoldable pub load_segments : Image S → List Phdr → Outcome (Image S × Result (Unit {0}))
  load_segments g [] = done (g, ok tt)
  load_segments g (p ∷ ps) =
      let skip = load_segments g ps in
      if not (p.p_type == pt_load) then skip else elim (load_segment g p) [
        | bug ↦ bug
        | short ↦ short
        | done (g1, err e) ↦ done (g1, err e)
        | done (g1, ok u) ↦ load_segments g1 ps
      ]

  stopped_segment :
      (g : Image S) (p : Phdr) → p.p_vaddr < 2 ^ 64 → Degenerate p → load_segment g p ≡ bug
  unfolding load_segment uvma_collides uvma_at_range
  stopped_segment g p small (inl e) = ground (arith, e)
  stopped_segment g p small (inr wraps) =
      let less : ltb (plus p.p_vaddr (page_up p.p_memsz)) p.p_vaddr ≡ true =
        lt→ltb _ _ (omega arith) in
      ground (arith, less)

  fill_keeps : (g : Image S) (p : Phdr) (vma_size : ℕ) → (fill_segment g p vma_size).0.mm ≡ g.mm
  unfolding fill_segment
  fill_keeps g p vma_size = ground arith

  collides_none :
      (mm : Mm) (base size : ℕ)
      → 0 < size
      → base + size < 2 ^ 64
      → find_vma base size mm.vmas ≡ none
      → uvma_collides mm base size ≡ done false
  unfolding uvma_collides uvma_at_range
  collides_none mm base size some_size small free = ground (arith, free)

  collides_some :
      (mm : Mm) (base size : ℕ) (v : Vma)
      → 0 < size
      → base + size < 2 ^ 64
      → find_vma base size mm.vmas ≡ some v
      → uvma_collides mm base size ≡ done true
  unfolding uvma_collides uvma_at_range
  collides_some mm base size v some_size small taken = ground (arith, taken)

  -- A round that returns with the VMAs disjoint.
  abbrev pub Loaded : Outcome (Image S × Result (Unit {0})) → Type 0
  Loaded o = (g' : Image S) × (r : Result (Unit {0})) × (o ≡ done (g', r)) × IsDisjoint g'.mm.vmas

  sound_done :
      (g : Image S) (p : Phdr)
      → IsDisjoint g.mm.vmas
      → 0 < page_up p.p_memsz
      → p.p_vaddr + page_up p.p_memsz < 2 ^ 64
      → Loaded (load_segment g p)
  unfolding load_segment
  sound_done g p wf some_size small =
      let size = page_up p.p_memsz in
      let (s', mm', r, e, new, _, _) =
        uvma_create_lem m g.state g.mm p.p_vaddr size (segment_flags p) none wf some_size small in
      elim (Option-cases (find_vma p.p_vaddr size g.mm.vmas)) [
        | inr (v, taken) ↦
            let hit = collides_some g.mm p.p_vaddr size v some_size small taken in
            (g, err einval, ground (arith, hit), wf)
        | inl free ↦
            let miss = collides_none g.mm p.p_vaddr size some_size small free in
            elim (Result-cases r) [
              | inr (k, failed) ↦
                  (record g { state = s'; mm = mm' }, err k, ground (arith, miss, e, failed), new)
              | inl (v, fine) ↦
                  let t = fill_segment (record g { state = s'; mm = mm' }) p size in
                  (
                    t.0,
                    t.1,
                    ground (arith, miss, e, fine),
                    subst (λ (k : Mm). IsDisjoint k.vmas)
                        (sym (fill_keeps (record g { state = s'; mm = mm' }) p size)) new,
                  )
            ]
      ]

  -- A segment whose size in memory rounds up to 0, or whose range wraps around, makes the loader end
  -- in BUG(), and these are the only segments that do: with any other the loader returns, and
  -- keeps the VMAs of the process disjoint and in the user's half.
  pub load_segment_lem :
      (g : Image S) (p : Phdr)
      → IsDisjoint g.mm.vmas
      → p.p_vaddr < 2 ^ 64
      → (Degenerate p × (load_segment g p ≡ bug))
        ⊎ ((0 < page_up p.p_memsz)
            × (p.p_vaddr + page_up p.p_memsz < 2 ^ 64)
            × Loaded (load_segment g p))
  load_segment_lem g p wf small = elim (ℕ_discrete (page_up p.p_memsz) 0) [
    | yes e ↦ inl (inl e, stopped_segment g p small (inl e))
    | no some_size ↦ elim (dec_lt (p.p_vaddr + page_up p.p_memsz) (2 ^ 64)) [
      | yes fits ↦
          inr (omega (arith, some_size), fits, sound_done g p wf (omega (arith, some_size)) fits)
      | no wraps ↦
          let far : 2 ^ 64 ≤ p.p_vaddr + page_up p.p_memsz = omega (arith, wraps) in
          inl (inr far, stopped_segment g p small (inr far))
    ]
  ]

  -- The loader's loop returns if no segment is empty or wraps around, and keeps the VMAs disjoint
  -- and in the user's half.
  pub load_segments_lem :
      (g : Image S) (ps : List Phdr) → IsDisjoint g.mm.vmas → Sound ps → Loaded (load_segments g ps)
  unfolding load_segments
  load_segments_lem g [] wf sound = (g, ok tt, refl, wf)
  load_segments_lem g (p ∷ ps) wf (inl other, sound) =
      let (g', r, e, new) = load_segments_lem g ps wf sound in
      (g', r, ground (arith, other, e), new)
  load_segments_lem g (p ∷ ps) wf (inr (some_size, small), sound) =
      let (g1, r, e, new) = sound_done g p wf some_size small in
      let (g', r', e', new') = load_segments_lem g1 ps new sound in
      elim (ℕ_discrete p.p_type pt_load) [
        | no other ↦
            let (g2, r2, e2, new2) = load_segments_lem g ps wf sound in
            (g2, r2, ground (arith, other, e2), new2)
        | yes loads ↦ elim (Result-cases r) [
          | inr (k, failed) ↦ (g1, err k, ground (arith, loads, e, failed), new)
          | inl (u, fine) ↦ (g', r', ground (arith, loads, e, fine, e'), new')
        ]
      ]
