-- ===== src/Refcount/Laws.antt =====
-- What the users of a reference count rely on.
use grinch.Prelude.{
  ℕ, zero, suc, ◌+◌, ◌^◌, ◌≤◌, ◌<◌, ◌≡◌, refl, ap, ap₂, ◌∙◌, Bool, true, false, List, [], ◌∷◌, ◌++◌,
  arith, replicate,
}
use grinch.Refcount.{saturated, inc, inc_not_zero, dec_and_test, add, add_not_zero, sub_and_test}

-- `n` further references are taken.
pub inc_times : ℕ → ℕ → ℕ
inc_times zero old = old
inc_times (suc n) old = inc_times n (inc old).refs

-- `n` references are given back: the count, and the answers of `refcount_dec_and_test` in order.
pub dec_times : ℕ → ℕ → ℕ × List Bool
dec_times zero old = (old, [])
dec_times (suc n) old =
    let (r, last) = dec_and_test old in
    let (rest, answers) = dec_times n r.refs in (rest, last ∷ answers)

refs-inc : (old : ℕ) → 0 < old → old + 1 < 2 ^ 31 → (inc old).refs ≡ old + 1
unfolding inc add
refs-inc old p h = ground arith

inc_times-count : (n old : ℕ) → 0 < old → old + n < 2 ^ 31 → inc_times n old ≡ old + n
unfolding inc_times
inc_times-count zero old p h = omega arith
inc_times-count (suc n) old p h =
    ap (inc_times n) (refs-inc old p (omega arith))
    ∙ inc_times-count n (old + 1) (omega arith) (omega arith)
    ∙ omega arith

dec_held :
    (n : ℕ)
    → suc (suc n) < 2 ^ 31
    → ((dec_and_test (suc (suc n))).0.refs ≡ suc n) × ((dec_and_test (suc (suc n))).1 ≡ false)
unfolding dec_and_test sub_and_test
dec_held n h = (ground arith, ground arith)

dec_times_down :
    (n : ℕ) → suc n < 2 ^ 31 → dec_times (suc n) (suc n) ≡ (0, replicate n false ++ (true ∷ []))
unfolding dec_times dec_and_test sub_and_test
dec_times_down zero h = refl
dec_times_down (suc n) h =
    let (refs, kept) = dec_held n h in
    ap₂ (λ r b. ((dec_times (suc n) r).0, b ∷ (dec_times (suc n) r).1)) refs kept
    ∙ ap (λ k. (k.0, false ∷ k.1)) (dec_times_down n (omega arith))

-- An object that starts with one reference, of which `n` more are taken, and that is given back as
-- often, is said to be unused at the last time and at no time before.
pub inc_times-dec_times :
    (n : ℕ)
    → n + 1 < 2 ^ 31
    → dec_times (n + 1) (inc_times n 1) ≡ (0, replicate n false ++ (true ∷ []))
inc_times-dec_times n h =
    ap (dec_times (n + 1)) (inc_times-count n 1 (omega arith) (omega arith) ∙ omega arith)
    ∙ ap (λ k. dec_times k k) {x = n + 1} {y = suc n} (omega arith)
    ∙ dec_times_down n (omega arith)

-- A count below zero, as a saturated one is, goes to the saturated value whatever is done to it, and
-- is never said to have become zero: the object leaks and is not freed early.
pub negative_saturates :
    (old : ℕ)
    → 2 ^ 31 ≤ old
    → ((inc old).refs ≡ saturated)
      × ((inc_not_zero old).0.refs ≡ saturated)
      × ((dec_and_test old).0.refs ≡ saturated)
      × ((dec_and_test old).1 ≡ false)
unfolding inc inc_not_zero dec_and_test add add_not_zero sub_and_test
negative_saturates old h = (ground arith, ground arith, ground arith, ground arith)
