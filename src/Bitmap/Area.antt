-- ===== src/Bitmap/Area.antt =====
-- `bitmap_find_next_zero_area_off` finds the first aligned area of clear bits.
use native.Mathlib.Nat.{
  div-add-mod', mod-lt, one-le-pow, mul-mod_left, lt_of_mul-lt-mul_right, mul-le-mul_right,
  pow-le-pow_right,
}
use grinch.Prelude.{
  ℕ, zero, suc, ◌+◌, ◌-◌, ◌*◌, ◌/◌, ◌%◌, ◌^◌, ◌≤◌, ◌<◌, ◌≡◌, ap, ◌∙◌, ◌⊎◌, inl, inr, true, false,
  some, map, arith, dec_lt, set,
}
use grinch.Prelude.Digits.{bit_and-complement, bit_and-low}
use grinch.Bitmap.{Words, find_next_bit, find_next_zero_bit, find_next_zero_area, align_mask}
use grinch.Bitmap.Set.{holds}
use grinch.Bitmap.Find.{AreWords, IsNext, find_next_bit_lem, find_next_zero_bit_lem}

-- Bits `j` to `j + nr` are clear.
abbrev pub IsArea : Words → ℕ → ℕ → Type 0
IsArea map nr j = (i : ℕ) → j ≤ i → i < j + nr → holds map i ≡ false

-- Two multiples are apart by the number.
multiples : (p a b : ℕ) → a % p ≡ 0 → b % p ≡ 0 → b < a → b + p ≤ a
multiples p a b ea eb less =
    let wa : a / p * p ≡ a = omega (arith, div-add-mod' a p, ea) in
    let wb : b / p * p ≡ b = omega (arith, div-add-mod' b p, eb) in
    let more = lt_of_mul-lt-mul_right p {m = b / p} {n = a / p} (omega (arith, wa, wb)) in
    let times = mul-le-mul_right {m = b / p + 1} {n = a / p} p (omega (arith, more)) in
    let next : (b / p + 1) * p ≡ b / p * p + p = grind arith in omega (arith, times, next, wa, wb)

-- `__ALIGN_MASK` to a power of two, where it does not wrap around.
align_mask_lem :
    (k x : ℕ)
    → k ≤ 63
    → x + 2 ^ k ≤ 2 ^ 64
    → (align_mask x (2 ^ k - 1) % 2 ^ k ≡ 0)
      × (x ≤ align_mask x (2 ^ k - 1))
      × ((j : ℕ) → x ≤ j → j % 2 ^ k ≡ 0 → align_mask x (2 ^ k - 1) ≤ j)
align_mask_lem k x few small =
    let p = 2 ^ k in
    let pos = one-le-pow k 2 (omega arith) in
    let big = x + (p - 1) in
    let fits : big % 2 ^ 64 ≡ big = omega (arith, small, pos) in
    let bound = pow-le-pow_right {n = 2} (omega arith) {i = k} {j = 63} few in
    let split = bit_and-complement 64 (big % 2 ^ 64) (p - 1) (omega arith) (omega (arith, bound)) in
    let low = bit_and-low k (big % 2 ^ 64) in
    let rest = mod-lt big {m = p} pos in
    let whole = div-add-mod' big p in
    let low' : big % 2 ^ 64 % p ≡ big % p = ap (λ z. z % p) fits in
    let result : align_mask x (p - 1) ≡ big / p * p =
      omega (arith, split, low, low', fits, whole) in
    let even : align_mask x (p - 1) % p ≡ 0 = ap (λ z. z % p) result ∙ mul-mod_left (big / p) p in
    (
      even,
      omega (arith, result, whole, rest),
      λ j from e. elim (dec_lt j (align_mask x (p - 1))) [
        | no q ↦ omega (arith, q)
        | yes q ↦
            let far = multiples p (align_mask x (p - 1)) j even e q in
            absurd (omega (arith, far, result, whole, from, pos))
      ],
    )

-- The first aligned area from `start` on, or a number beyond the size if there is none.
abbrev pub IsFirst : Words → ℕ → ℕ → ℕ → ℕ → ℕ → Type 0
IsFirst map size nr k start r =
    ((size < r) × ((j : ℕ) → start ≤ j → j % 2 ^ k ≡ 0 → IsArea map nr j → size < j + nr))
    ⊎ ((r + nr ≤ size)
        × (start ≤ r)
        × (r % 2 ^ k ≡ 0)
        × IsArea map nr r
        × ((j : ℕ) → start ≤ j → j % 2 ^ k ≡ 0 → IsArea map nr j → r ≤ j))

module _ (map : Words) (size nr k : ℕ) (ok_words : AreWords map) (some_bits : 0 < nr) (few : k ≤ 63)
    (small : size + 2 ^ k ≤ 2 ^ 64) where
  area_beyond :
      (start zero_bit : ℕ)
      → IsNext true map size start zero_bit
      → (j : ℕ) → start ≤ j
      → j % 2 ^ k ≡ 0
      → IsArea map nr j
      → align_mask zero_bit (2 ^ k - 1) ≤ j
  area_beyond start zero_bit (high, clear, _) j from e area =
      let (_, _, least) = align_mask_lem k zero_bit few (omega (arith, high, small)) in
      elim (dec_lt j zero_bit) [
        | no q ↦ least j (omega (arith, q)) e
        | yes q ↦
            let set = clear j from q in
            let free = area j (omega arith) (omega (arith, some_bits)) in
            absurd (ground (arith, set, free))
      ]

  step_full :
      (fuel start zero_bit : ℕ)
      → find_next_zero_bit (size + 1) map size start ≡ some zero_bit
      → size < align_mask zero_bit (2 ^ k - 1) + nr
      → find_next_zero_area (suc fuel) map size start nr (2 ^ k - 1)
        ≡ some (align_mask zero_bit (2 ^ k - 1) + nr)
  unfolding find_next_zero_area
  step_full fuel start zero_bit e p = ground (arith, e, p)

  step_found :
      (fuel start zero_bit i : ℕ)
      → find_next_zero_bit (size + 1) map size start ≡ some zero_bit
      → align_mask zero_bit (2 ^ k - 1) + nr ≤ size
      → find_next_bit
          (align_mask zero_bit (2 ^ k - 1) + nr + 1)
          map
          (align_mask zero_bit (2 ^ k - 1) + nr)
          (align_mask zero_bit (2 ^ k - 1))
        ≡ some i
      → align_mask zero_bit (2 ^ k - 1) + nr ≤ i
      → find_next_zero_area (suc fuel) map size start nr (2 ^ k - 1)
        ≡ some (align_mask zero_bit (2 ^ k - 1))
  unfolding find_next_zero_area
  step_found fuel start zero_bit i e p e' q = ground (arith, e, p, e', q)

  step_again :
      (fuel start zero_bit i : ℕ)
      → find_next_zero_bit (size + 1) map size start ≡ some zero_bit
      → align_mask zero_bit (2 ^ k - 1) + nr ≤ size
      → find_next_bit
          (align_mask zero_bit (2 ^ k - 1) + nr + 1)
          map
          (align_mask zero_bit (2 ^ k - 1) + nr)
          (align_mask zero_bit (2 ^ k - 1))
        ≡ some i
      → i < align_mask zero_bit (2 ^ k - 1) + nr
      → find_next_zero_area (suc fuel) map size start nr (2 ^ k - 1)
        ≡ find_next_zero_area fuel map size (i + 1) nr (2 ^ k - 1)
  unfolding find_next_zero_area
  step_again fuel start zero_bit i e p e' q = ground (arith, e, p, e', q)

  -- No area is before a set bit that the first candidate would hold.
  IsFirst-again :
      (start zero_bit i r : ℕ)
      → IsNext true map size start zero_bit
      → align_mask zero_bit (2 ^ k - 1) ≤ i
      → i < align_mask zero_bit (2 ^ k - 1) + nr
      → start ≤ i
      → holds map i ≡ true
      → IsFirst map size nr k (i + 1) r
      → IsFirst map size nr k start r
  IsFirst-again start zero_bit i r next low high from set first =
      let later : (j : ℕ) → start ≤ j → j % 2 ^ k ≡ 0 → IsArea map nr j → i + 1 ≤ j = λ j a e area.
        let beyond = area_beyond start zero_bit next j a e area in
        elim (dec_lt i j) [
          | yes q ↦ omega (arith, q)
          | no q ↦
              let free = area i (omega (arith, q)) (omega (arith, beyond, high)) in
              absurd (ground (arith, set, free))
        ] in
      elim first [
        | inl (big, none_fits) ↦ inl (big, λ j a e area. none_fits j (later j a e area) e area)
        | inr (fits, a, e, area, least) ↦ inr (
          fits,
          omega (arith, a, from),
          e,
          area,
          λ j b e' area'. least j (later j b e' area') e' area',
        )
      ]

  IsFirst-found :
      (start zero_bit i : ℕ)
      → IsNext true map size start zero_bit
      → start ≤ zero_bit
      → align_mask zero_bit (2 ^ k - 1) + nr ≤ size
      → IsNext false map (align_mask zero_bit (2 ^ k - 1) + nr) (align_mask zero_bit (2 ^ k - 1)) i
      → align_mask zero_bit (2 ^ k - 1) + nr ≤ i
      → IsFirst map size nr k start (align_mask zero_bit (2 ^ k - 1))
  IsFirst-found start zero_bit i next from fits (_, clear, _) end =
      let (even, up, _) = align_mask_lem k zero_bit few (omega (arith, next.0, small)) in
      inr (
        fits,
        omega (arith, from, up),
        even,
        λ j a b. clear j a (omega (arith, b, end)),
        λ j a e area. area_beyond start zero_bit next j a e area,
      )

  next_from :
      (start zero_bit : ℕ)
      → IsNext true map size start zero_bit
      → align_mask zero_bit (2 ^ k - 1) + nr ≤ size
      → start ≤ zero_bit
  next_from start zero_bit (high, _, at) fits =
      let (_, up, _) = align_mask_lem k zero_bit few (omega (arith, high, small)) in
      (at (omega (arith, up, fits, some_bits))).0

  -- `bitmap_find_next_zero_area_off` ends, with fuel for each bit from the start on. If an aligned
  -- area of clear bits from the start on is inside the bitmap, it answers the first such area; if
  -- there is none, the answer is a number beyond the size of the bitmap.
  pub find_next_zero_area_lem :
      (fuel start : ℕ)
      → size - start < fuel
      → (r : ℕ) × (find_next_zero_area fuel map size start nr (2 ^ k - 1) ≡ some r)
        × IsFirst map size nr k start r
  find_next_zero_area_lem zero start enough = absurd (omega arith)
  find_next_zero_area_lem (suc fuel) start enough =
      let (zero_bit, e, next) =
        find_next_zero_bit_lem (size + 1) map size start ok_words (omega arith) in
      let index = align_mask zero_bit (2 ^ k - 1) in
      elim (dec_lt size (index + nr)) [
        | yes p ↦ (
          index + nr,
          step_full fuel start zero_bit e p,
          inl (
            p,
            λ j a e' area.
                let beyond = area_beyond start zero_bit next j a e' area in
                omega (arith, beyond, p),
          ),
        )
        | no p ↦
            let fits : index + nr ≤ size = omega (arith, p) in
            let from = next_from start zero_bit next fits in
            let (_, up, _) = align_mask_lem k zero_bit few (omega (arith, next.0, small)) in
            let (i, e', next') =
              find_next_bit_lem (index + nr + 1) map (index + nr) index ok_words (omega arith) in
            elim (dec_lt i (index + nr)) [
              | no q ↦ (
                index,
                step_found fuel start zero_bit i e fits e' (omega (arith, q)),
                IsFirst-found start zero_bit i next from fits next' (omega (arith, q)),
              )
              | yes q ↦
                  let (low, set) = next'.2 q in
                  let (r, done, first) =
                    find_next_zero_area_lem fuel (i + 1)
                      (omega (arith, enough, low, up, from, q, fits)) in
                  (
                    r,
                    step_again fuel start zero_bit i e fits e' q ∙ done,
                    IsFirst-again start zero_bit i r next low q (omega (arith, low, up, from)) set
                        first,
                  )
            ]
      ]
