-- ===== src/Gfp/Address.antt =====
-- The physical and the virtual addresses of the areas.
use grinch.Prelude.{
  ℕ, ◌+◌, ◌-◌, ◌≤◌, ◌<◌, ◌≡◌, sym, ◌∙◌, ◌≢◌, inl, inr, true, false, not, ◌&&◌, Option, some, List,
  [], ◌∷◌, arith, ◌==◌, Bool-cases,
}
use grinch.Vma.{done}
use grinch.Gfp.{MemoryArea, find_area, in_area, p_in_area, memory_area_v2p, v2p, p2v}
use grinch.Gfp.Used.{IsValid}

-- The physical range is as large as the virtual one.
abbrev pub IsDirect : List MemoryArea → Type 0
IsDirect [] = Unit
IsDirect (area ∷ rest) =
    (area.v.base ≢ 0 → area.p.end + area.v.base ≡ area.p.base + area.v.end) × IsDirect rest

passed_over :
    (area : MemoryArea) (rest : List MemoryArea) (phys : ℕ)
    → area.valid ≡ true
    → (p_in_area area phys 0 && not (area.v.base == 0)) ≡ false
    → p2v (area ∷ rest) phys ≡ p2v rest phys
unfolding p2v
passed_over area rest phys v h = ground (arith, v, h)

is_at :
    (area : MemoryArea) (rest : List MemoryArea) (phys : ℕ)
    → area.valid ≡ true
    → (p_in_area area phys 0 && not (area.v.base == 0)) ≡ true
    → p2v (area ∷ rest) phys ≡ done (area.v.base + (phys - area.p.base))
unfolding p2v
is_at area rest phys v h = ground (arith, v, h)

unpack :
    (area : MemoryArea) (phys : ℕ)
    → (p_in_area area phys 0 && not (area.v.base == 0)) ≡ true
    → (area.p.base ≤ phys) × (phys < area.p.end) × (area.v.base ≢ 0)
unpack area phys h = ground (arith, h)

found_at :
    (areas : List MemoryArea) (phys virt : ℕ)
    → IsValid areas
    → IsDirect areas
    → p2v areas phys ≡ done virt
    → (area : MemoryArea) × (find_area areas virt ≡ some area) × (memory_area_v2p area virt ≡ phys)
unfolding p2v find_area
found_at [] phys virt fine direct e = cc e
found_at (area ∷ rest) phys virt (fine, apart, others) (large, larges) e =
    elim (Bool-cases area.valid) [
      | inr v ↦ absurd (ground (arith, v, e))
      | inl v ↦ elim (Bool-cases (p_in_area area phys 0 && not (area.v.base == 0))) [
        | inl h ↦
            let (low, high, some_base) = unpack area phys h in
            let same : area.v.base + (phys - area.p.base) ≡ virt =
              ground (arith, is_at area rest phys v h, e) in
            let size = large some_base in
            let inside : in_area area virt ≡ true = ground (arith, same, size, low, high) in
            (area, ground (arith, v, inside), omega (arith, same, low))
        | inr h ↦
            let (x, found, same) =
              found_at rest phys virt others larges (sym (passed_over area rest phys v h) ∙ e) in
            elim (Bool-cases (in_area area virt)) [
              | inl hit ↦ cc (sym (apart virt hit) ∙ found)
              | inr miss ↦ (x, ground (arith, v, miss, found), same)
            ]
      ]
    ]

-- An address that `p2v` answers is one that `v2p` turns back into the physical address.
pub v2p-p2v :
    (paging_get_phys : ℕ → Option ℕ) (areas : List MemoryArea) (phys virt : ℕ)
    → IsValid areas
    → IsDirect areas
    → p2v areas phys ≡ done virt
    → v2p paging_get_phys areas virt ≡ done phys
unfolding v2p
v2p-p2v paging_get_phys areas phys virt fine direct e =
    let (area, found, same) = found_at areas phys virt fine direct e in ground (arith, found, same)
