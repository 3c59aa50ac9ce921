-- ===== src/Bitmap/Word.antt =====
-- The bits of the masks, and `__ffsl`.
use Prim.Native.Nat.{bit_and}
use grinch.Prelude.{
  Bool-cases, inl, inr, ℕ, zero, suc, ◌+◌, ◌-◌, ◌*◌, ◌/◌, ◌%◌, ◌^◌, ◌≤◌, ◌<◌, ◌≡◌, refl, sym, ap,
  ◌∙◌, ◌≢◌, Bool, true, false, not, arith, dec_lt, ℕ_discrete, ltb, leb, ◌==◌, if◌then◌else◌,
}
use grinch.Prelude.Digits.{bit, bit-complement, bit-zero, bit-shift, bit-shifted, bit_and-low}
use grinch.Bitmap.{all_ones, first_word_mask, last_word_mask, ffs_step, ffsl}
use native.Mathlib.Nat.{div-add-mod'}
use mathlib.Core.Path.{subst}

-- A row of a table passes a test at its first `size` places.
row_passes : (ℕ → Bool) → ℕ → Bool
row_passes test zero = true
row_passes test (suc last) = if test last then row_passes test last else false

row_passes_at :
    (test : ℕ → Bool) (size place : ℕ)
    → place < size
    → row_passes test size ≡ true
    → test place ≡ true
unfolding row_passes
row_passes_at test zero place inside e = absurd (omega (arith, inside))
row_passes_at test (suc last) place inside e = elim (Bool-cases (test last)) [
  | inr fails ↦ absurd (ground (arith, fails, e))
  | inl passes ↦
      let others : row_passes test last ≡ true = ground (arith, passes, e) in
      elim (ℕ_discrete place last) [
        | yes here ↦ ap test here ∙ passes
        | no there ↦ row_passes_at test last place (omega (arith, inside, there)) others
      ]
]

abbrev same_bool : Bool → Bool → Bool
same_bool true b = b
same_bool false b = not b

same_bool-eq : (a b : Bool) → same_bool a b ≡ true → a ≡ b
same_bool-eq true b h = sym h
same_bool-eq false true h = cc h
same_bool-eq false false h = refl

-- Place `i` of the mask that starts at `s` is as it should be.
abbrev mask_at : ℕ → ℕ → Bool
mask_at s i = same_bool (bit (all_ones * 2 ^ s % 2 ^ 64) i) (leb s i)

mask_table : row_passes (λ s. row_passes (mask_at s) 64) 64 ≡ true
unfolding row_passes bit
mask_table = refl

pub bit-first_word_mask :
    (start i : ℕ) → i < 64 → bit (first_word_mask start) i ≡ leb (start % 64) i
unfolding first_word_mask
bit-first_word_mask start i p =
    let s = start % 64 in
    let row = row_passes_at (λ s. row_passes (mask_at s) 64) 64 s (omega arith) mask_table in
    same_bool-eq (bit (all_ones * 2 ^ s % 2 ^ 64) i) (leb s i)
      (row_passes_at (mask_at s) 64 i p row)

pub bit-all_ones : (i : ℕ) → bit all_ones i ≡ ltb i 64
bit-all_ones i = elim (dec_lt i 64) [
  | yes p ↦
      let all : 2 ^ 64 - 1 - 0 ≡ all_ones = refl in
      ap (λ w. bit w i) (sym all)
      ∙ bit-complement 64 0 i (omega arith) p
      ∙ ap not (bit-zero i)
      ∙ ground (arith, p)
  | no p ↦
      let place : i ≡ 64 + (i - 64) = omega (arith, p) in
      ap (bit all_ones) place
      ∙ sym (bit-shift all_ones 64 (i - 64))
      ∙ bit-zero (i - 64)
      ∙ ground (arith, p)
]

pub bit-last_word_mask :
    (nbits i : ℕ)
    → nbits < 2 ^ 32
    → nbits % 64 ≢ 0
    → i < 64
    → bit (last_word_mask nbits) i ≡ ltb i (nbits % 64)
unfolding last_word_mask
bit-last_word_mask nbits i small some_bits p =
    let r = (2 ^ 32 - nbits) % 2 ^ 32 % 64 in
    let left : r ≡ 64 - nbits % 64 = omega (arith, some_bits) in
    bit-shift all_ones r i ∙ bit-all_ones (r + i) ∙ ground (arith, left)

bit-odd : (w : ℕ) → w % 2 ^ 1 ≢ 0 → bit w 0 ≡ true
unfolding bit
bit-odd w odd = ground (arith, odd)

-- How far `__ffsl` has come: the digits below `num` are 0, the others are those of `word`, whose
-- lowest `k` digits are not all 0.
abbrev Stage : ℕ → ℕ → ℕ × ℕ → Type 0
Stage w k (word, num) =
    (word % 2 ^ k ≢ 0)
    × (num + k ≤ 64)
    × ((i : ℕ) → bit w (num + i) ≡ bit word i)
    × ((i : ℕ) → i < num → bit w i ≡ false)

bit-below : (k word i : ℕ) → word % 2 ^ k ≡ 0 → i < k → bit word i ≡ false
bit-below k word i e p =
    let whole : word ≡ word / 2 ^ k * 2 ^ k = omega (arith, e, div-add-mod' word (2 ^ k)) in
    ap (λ w. bit w i) whole ∙ bit-shifted k (word / 2 ^ k) i ∙ ground (arith, p)

ffs_step-Stage :
    (w k word num : ℕ)
    → (word % 2 ^ k ≡ 0 → word / 2 ^ k % 2 ^ k ≢ 0)
    → num + k + k ≤ 64
    → ((i : ℕ) → bit w (num + i) ≡ bit word i)
    → ((i : ℕ) → i < num → bit w i ≡ false)
    → Stage w k (ffs_step k (word, num))
ffs_step-Stage w k word num left room high low = elim (ℕ_discrete (word % 2 ^ k) 0) [
  | yes e ↦
      let test : (bit_and word (2 ^ k - 1) == 0) ≡ true = ground (arith, bit_and-low k word, e) in
      subst (λ (b : Bool). Stage w k (if b then (word / 2 ^ k, num + k) else (word, num)))
        (sym test)
        (
          left e,
          omega arith,
          λ i.
              ap (bit w) {x = num + k + i} {y = num + (k + i)} (omega arith)
              ∙ high (k + i)
              ∙ sym (bit-shift word k i),
          λ i p. elim (dec_lt i num) [
            | yes q ↦ low i q
            | no q ↦
                ap (bit w) {x = i} {y = num + (i - num)} (omega (arith, q))
                ∙ high (i - num)
                ∙ bit-below k word (i - num) e (omega (arith, p, q))
          ],
        )
  | no e ↦
      let test : (bit_and word (2 ^ k - 1) == 0) ≡ false = ground (arith, bit_and-low k word, e) in
      subst (λ (b : Bool). Stage w k (if b then (word / 2 ^ k, num + k) else (word, num)))
        (sym test) (e, omega arith, high, low)
]

-- The lowest bit of a word that is not 0.
pub ffsl_lem :
    (w : ℕ)
    → w ≢ 0
    → w < 2 ^ 64
    → (ffsl w < 64) × (bit w (ffsl w) ≡ true) × ((i : ℕ) → i < ffsl w → bit w i ≡ false)
unfolding ffsl
ffsl_lem w some_bit small =
    let s0 : (ℕ × ℕ) = (w, 0) in
    let s1 = ffs_step 32 s0 in
    let (a1, b1, c1, d1) =
      ffs_step-Stage w 32 w 0 (λ e. omega (arith, e, some_bit, small)) (omega arith)
        (λ i. ap (bit w) {x = 0 + i} {y = i} (omega arith)) (λ i p. absurd (omega (arith, p))) in
    let s2 = ffs_step 16 s1 in
    let (a2, b2, c2, d2) =
      ffs_step-Stage w 16 s1.0 s1.1 (λ e. omega (arith, e, a1)) (omega (arith, b1)) c1 d1 in
    let s3 = ffs_step 8 s2 in
    let (a3, b3, c3, d3) =
      ffs_step-Stage w 8 s2.0 s2.1 (λ e. omega (arith, e, a2)) (omega (arith, b2)) c2 d2 in
    let s4 = ffs_step 4 s3 in
    let (a4, b4, c4, d4) =
      ffs_step-Stage w 4 s3.0 s3.1 (λ e. omega (arith, e, a3)) (omega (arith, b3)) c3 d3 in
    let s5 = ffs_step 2 s4 in
    let (a5, b5, c5, d5) =
      ffs_step-Stage w 2 s4.0 s4.1 (λ e. omega (arith, e, a4)) (omega (arith, b4)) c4 d4 in
    let s6 = ffs_step 1 s5 in
    let (a6, b6, c6, d6) =
      ffs_step-Stage w 1 s5.0 s5.1 (λ e. omega (arith, e, a5)) (omega (arith, b5)) c5 d5 in
    (
      omega (arith, b6),
      ap (bit w) {x = s6.1} {y = s6.1 + 0} (omega arith) ∙ c6 0 ∙ bit-odd s6.0 a6,
      d6,
    )
