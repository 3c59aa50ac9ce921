-- ===== src/Bitmap/Keep.antt =====
-- `bitmap_set` and `bitmap_clear` leave words of 64 bits behind.
use Prim.Native.Nat.{bit_and}
use mathlib.Core.Path.{subst}
use grinch.Prelude.{
  ℕ, zero, suc, ◌+◌, ◌-◌, ◌/◌, ◌%◌, ◌^◌, ◌<◌, ◌≡◌, sym, ap, ◌∙◌, Bool, true, false, Option, none,
  some, arith, ℕ_discrete, leb, ◌==◌, if◌then◌else◌,
}
use grinch.Prelude.Maps.{update, update_self, update_ne}
use grinch.Prelude.Digits.{bit_or-lt}
use grinch.Bitmap.{
  Words, all_ones, complement, first_word_mask, last_word_mask, each_word, set_word, clear_word,
  bitmap_set, bitmap_clear,
}
use grinch.Bitmap.Set.{small_first, small_last, small_both}
use grinch.Bitmap.Find.{AreWords}

abbrev AllWords : Option Words → Type 0
AllWords none = Unit
AllWords (some bitmap) = AreWords bitmap

AreWords-update :
    (bitmap : Words) (p v : ℕ) → AreWords bitmap → v < 2 ^ 64 → AreWords (update bitmap p v)
AreWords-update bitmap p v ok_words small k = elim (ℕ_discrete k p) [
  | yes e ↦ subst (λ w. w < 2 ^ 64) (sym (ap (update bitmap p v) e ∙ update_self bitmap p v)) small
  | no e ↦ subst (λ w. w < 2 ^ 64) (sym (update_ne bitmap p k v e)) (ok_words k)
]

module _ (f : ℕ → ℕ → ℕ)
    (fits : (w mask : ℕ) → w < 2 ^ 64 → mask < 2 ^ 64 → f w mask < 2 ^ 64) where
  each_word-AllWords :
      (fuel : ℕ) (bitmap : Words) (p len bits mask size : ℕ)
      → mask < 2 ^ 64
      → AreWords bitmap
      → AllWords (each_word f fuel bitmap p len bits mask size)
  unfolding each_word
  each_word-AllWords zero bitmap p len bits mask size small ok_words = tt
  each_word-AllWords (suc fuel) bitmap p len bits mask size small ok_words =
      let rest =
        each_word-AllWords fuel (update bitmap p (f (bitmap p) mask)) (p + 1) (len - bits) 64
          all_ones size (omega arith)
          (AreWords-update bitmap p (f (bitmap p) mask) ok_words
            (fits (bitmap p) mask (ok_words p) small)) in
      let masked = bit_and mask (last_word_mask size) in
      let last = AreWords-update bitmap p (f (bitmap p) masked) ok_words (
        fits (bitmap p) masked (ok_words p)
          (small_both mask (last_word_mask size) small (small_last size))) in
      choose (leb bits len) _ _ rest (choose (len == 0) _ _ ok_words last)
    where
      choose :
          (b : Bool) (x y : Option Words) → AllWords x → AllWords y → AllWords (if b then x else y)
      choose true x y p q = p
      choose false x y p q = q

-- The words of a bitmap with more bits set.
pub AreWords-bitmap_set :
    (fuel : ℕ) (bitmap bitmap' : Words) (start nbits : ℕ)
    → AreWords bitmap
    → bitmap_set fuel bitmap start nbits ≡ some bitmap'
    → AreWords bitmap'
unfolding bitmap_set
AreWords-bitmap_set fuel bitmap bitmap' start nbits ok_words e = subst AllWords e (
    each_word-AllWords set_word (λ w mask p q. bit_or-lt 64 w mask p q) fuel bitmap (start / 64)
      nbits (64 - start % 64) (first_word_mask start) (start + nbits) (small_first start) ok_words)

-- The words of a bitmap with more bits clear.
pub AreWords-bitmap_clear :
    (fuel : ℕ) (bitmap bitmap' : Words) (start nbits : ℕ)
    → AreWords bitmap
    → bitmap_clear fuel bitmap start nbits ≡ some bitmap'
    → AreWords bitmap'
unfolding bitmap_clear
AreWords-bitmap_clear fuel bitmap bitmap' start nbits ok_words e = subst AllWords e (
    each_word-AllWords clear_word
      (λ w mask p q. small_both w (complement mask) p (omega (arith, q))) fuel bitmap (start / 64)
      nbits (64 - start % 64) (first_word_mask start) (start + nbits) (small_first start) ok_words)
