-- ===== src/Bitmap/Tests.antt =====
-- Bitmaps of a few bits.
use grinch.Prelude.{ℕ, false, ◌≡◌, refl, some, arith}
use grinch.Bitmap.{find_next_zero_bit, Words, find_next_zero_area, find_next_bit, ffsl}
use grinch.Bitmap.Area.{IsFirst, find_next_zero_area_lem}
use grinch.Bitmap.Find.{IsNext, find_next_bit_lem}

-- Bits 0 and 2 of each word are set.
abbrev words : Words
words k = 5

ffsl_test : ffsl 40 ≡ 3
unfolding ffsl
ffsl_test = refl

find_next_bit_test : find_next_bit 9 words 8 1 ≡ some 2
unfolding find_next_bit
find_next_bit_test = refl

find_next_bit_lem_example :
    (r : ℕ) × (find_next_bit 9 words 8 1 ≡ some r) × IsNext false words 8 1 r
find_next_bit_lem_example = find_next_bit_lem 9 words 8 1 (λ k. omega arith) (omega arith)

find_next_zero_area_test : find_next_zero_area 9 words 8 0 2 1 ≡ some 4
unfolding find_next_zero_area find_next_zero_bit find_next_bit
find_next_zero_area_test = refl

find_next_zero_area_lem_example :
    (r : ℕ) × (find_next_zero_area 9 words 8 0 2 1 ≡ some r) × IsFirst words 8 2 1 0 r
find_next_zero_area_lem_example =
    find_next_zero_area_lem words 8 2 1 (λ k. omega arith) (omega arith) (omega arith) (omega arith)
      9 0 (omega arith)
