-- ===== src/Uaccess/Fill.antt =====
-- `umemset` is a copy from a buffer that holds one byte throughout.
use grinch.Prelude.{
  ℕ, zero, suc, ◌+◌, ◌-◌, ◌%◌, min, ◌≡◌, refl, sym, ap, ◌∙◌, ◌≢◌, inl, inr, Option, some, arith,
  ℕ_discrete, Option-cases,
}
use grinch.Uaccess.{
  Space, page_bytes_left, user_to_direct_fault, blit, copy_to_from, copy_to_user, set_from, umemset,
}

module _ (fault : Space → ℕ → Option Space) where
  set_step :
      (fuel : ℕ) (sp : Space) (dst c n ret at : ℕ)
      → n ≢ 0
      → (user_to_direct_fault fault sp dst).1 ≡ some at
      → set_from fault (suc fuel) sp dst c n ret ≡ (
          let w = min n (page_bytes_left at) in
          let sp' = (user_to_direct_fault fault sp dst).0 in
          set_from fault fuel
            (record sp' { bytes = blit sp'.bytes at (λ x. c) 0 w })
            (dst + w)
            c
            (n - w)
            (ret + w))
  unfolding set_from
  set_step fuel sp dst c n ret at some_left e = ground (arith, e)

  to_step :
      (fuel : ℕ) (sp : Space) (d : ℕ) (from : ℕ → ℕ) (s n copied at : ℕ)
      → n ≢ 0
      → (user_to_direct_fault fault sp d).1 ≡ some at
      → copy_to_from fault (suc fuel) sp d from s n copied ≡ (
          let w = min (page_bytes_left at) n in
          let sp' = (user_to_direct_fault fault sp d).0 in
          copy_to_from fault fuel
            (record sp' { bytes = blit sp'.bytes at from s w })
            (d + w)
            from
            (s + w)
            (n - w)
            (copied + w))
  unfolding copy_to_from
  to_step fuel sp d from s n copied at some_left e = ground (arith, e)

  blit-constant :
      (mem : ℕ → ℕ) (dst c s t n : ℕ) → blit mem dst (λ x. c) s n ≡ blit mem dst (λ x. c) t n
  unfolding blit
  blit-constant mem dst c s t n = refl

  set_from-copy_to_from :
      (fuel : ℕ) (sp : Space) (dst c s n ret : ℕ)
      → set_from fault fuel sp dst c n ret ≡ copy_to_from fault fuel sp dst (λ x. c) s n ret
  unfolding set_from copy_to_from
  set_from-copy_to_from zero sp dst c s n ret = refl
  set_from-copy_to_from (suc fuel) sp dst c s n ret = elim (ℕ_discrete n 0) [
    | yes nothing ↦ ground (arith, nothing)
    | no some_left ↦ elim (Option-cases (user_to_direct_fault fault sp dst).1) [
      | inl failed ↦ ground (arith, some_left, failed)
      | inr (at, e) ↦
          let sp' = (user_to_direct_fault fault sp dst).0 in
          let w = min n (page_bytes_left at) in
          let same : w ≡ min (page_bytes_left at) n = omega arith in
          set_step fuel sp dst c n ret at some_left e
          ∙ set_from-copy_to_from fuel (record sp' { bytes = blit sp'.bytes at (λ x. c) 0 w })
              (dst + w) c (s + w) (n - w) (ret + w)
          ∙ ap
              (λ b.
                copy_to_from fault fuel (record sp' { bytes = b }) (dst + w) (λ x. c) (s + w)
                  (n - w) (ret + w))
              (blit-constant sp'.bytes at c 0 s w)
          ∙ ap
              (λ k.
                copy_to_from fault fuel (record sp' { bytes = blit sp'.bytes at (λ x. c) s k })
                  (dst + k) (λ x. c) (s + k) (n - k) (ret + k))
              same
          ∙ sym (to_step fuel sp dst (λ x. c) s n ret at some_left e)
    ]
  ]

  -- `umemset` does and answers what `copy_to_user` does from a buffer that holds the byte throughout,
  -- also where a page cannot be reached.
  pub umemset-copy_to_user :
      (fuel : ℕ) (sp : Space) (dst c n : ℕ)
      → umemset fault fuel sp dst c n ≡ copy_to_user fault fuel sp dst (λ x. c % 256) 0 n
  unfolding umemset copy_to_user
  umemset-copy_to_user fuel sp dst c n = set_from-copy_to_from fuel sp dst (c % 256) 0 n 0
