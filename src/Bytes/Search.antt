-- ===== src/Bytes/Search.antt =====
-- What the routines that search find.
use grinch.Prelude.{
  ℕ, zero, suc, ◌+◌, ◌-◌, ◌≤◌, ◌<◌, ◌≡◌, refl, ap, ◌∙◌, ◌≢◌, ◌⊎◌, inl, inr, none, some, arith,
  ℕ_discrete,
}
use grinch.Bytes.{Memory, memchr, strnlen}

-- `memchr` finds the first occurrence in the range, or there is none.
pub memchr_lem :
    (mem : Memory) (s c n : ℕ)
    → ((i : ℕ) × (memchr mem s c n ≡ some (s + i))
        × (i < n)
        × (mem (s + i) ≡ c)
        × ((j : ℕ) → j < i → mem (s + j) ≢ c))
      ⊎ (memchr mem s c n ≡ none) × ((j : ℕ) → j < n → mem (s + j) ≢ c)
unfolding memchr
memchr_lem mem s c zero = inr (refl, λ j p. absurd (omega arith))
memchr_lem mem s c (suc n) =
    let rest = memchr_lem mem (s + 1) c n in
    elim (ℕ_discrete (mem s) c) [
      | yes e ↦ inl (
        0,
        ground arith,
        omega arith,
        ap mem {x = s + 0} {y = s} (omega arith) ∙ e,
        λ j p. absurd (omega arith),
      )
      | no ne ↦ elim rest [
        | inl (i, found, lt, here, first) ↦ inl (
          i + 1,
          ground arith,
          omega arith,
          ap mem {x = s + (i + 1)} {y = s + 1 + i} (omega arith) ∙ here,
          λ j p. later j (λ k. first (j - 1) (omega (arith, k))) ne,
        )
        | inr (none_left, all) ↦
            inr (ground arith, λ j p. later j (λ k. all (j - 1) (omega (arith, k))) ne)
      ]
    ]
  where
    later : (j : ℕ) → (0 < j → mem (s + 1 + (j - 1)) ≢ c) → mem s ≢ c → mem (s + j) ≢ c
    later j h ne e = elim (ℕ_discrete j 0) [
      | yes z ↦ ne (ap mem {x = s} {y = s + j} (omega (arith, z)) ∙ e)
      | no p ↦
          h (omega (arith, p)) (ap mem {x = s + 1 + (j - 1)} {y = s + j} (omega (arith, p)) ∙ e)
    ]

-- `strnlen` is the number of bytes before the first NUL, at most `n`.
pub strnlen_lem :
    (mem : Memory) (s n : ℕ)
    → (strnlen mem s n ≤ n)
      × ((j : ℕ) → j < strnlen mem s n → mem (s + j) ≢ 0)
      × (strnlen mem s n < n → mem (s + strnlen mem s n) ≡ 0)
unfolding strnlen
strnlen_lem mem s n = elim (memchr_lem mem s 0 n) [
  | inl (i, found, lt, here, first) ↦
      let e : strnlen mem s n ≡ i = ground arith in rw e (omega arith, first, λ p. here)
  | inr (none_left, all) ↦
      let e : strnlen mem s n ≡ n = ground arith in
      rw e (omega arith, all, λ p. absurd (omega arith))
]
