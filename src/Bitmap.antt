-- ===== src/Bitmap.antt =====
-- lib/bitmap.c and include/grinch/bitmap.h, with `__ffsl` of common/include/grinch/bitops.h, on a
-- machine with 64-bit words: arrays of bits in words. The array is a function from the index of a
-- word; counts are below 2 ^ 31, where the `int` arithmetic of the code does not overflow. The flag
-- `le` of `_find_next_bit` and its second array are never used.
pub mod Word
pub mod Set
pub mod Find
pub mod Area
pub mod Keep
mod Tests
use Prim.Native.Nat.{bit_and, bit_or, bit_xor}
use grinch.Prelude.{
  ℕ, zero, suc, ◌+◌, ◌-◌, ◌*◌, ◌/◌, ◌%◌, ◌^◌, min, Bool, not, Option, none, some, map, ltb, leb,
  ◌==◌, if◌then◌else◌,
}
use grinch.Prelude.Maps.{update}

abbrev pub Words : Type 0
Words = ℕ → ℕ

-- `~0UL`
abbrev pub all_ones : ℕ
all_ones = 18446744073709551615

-- `~mask`
abbrev pub complement : ℕ → ℕ
complement mask = 2 ^ 64 - 1 - mask

-- BITMAP_FIRST_WORD_MASK
unfoldable pub first_word_mask : ℕ → ℕ
first_word_mask start = all_ones * 2 ^ (start % 64) % 2 ^ 64

-- BITMAP_LAST_WORD_MASK, of an `unsigned int`
unfoldable pub last_word_mask : ℕ → ℕ
last_word_mask nbits = all_ones / 2 ^ ((2 ^ 32 - nbits) % 2 ^ 32 % 64)

-- `test_bit`
unfoldable pub test_bit : ℕ → Words → Bool
test_bit nr addr = not (bit_and (2 ^ (nr % 64)) (addr (nr / 64)) == 0)

-- One step of `__ffsl`: if the lowest digits are 0, they are shifted out.
abbrev pub ffs_step : ℕ → ℕ × ℕ → ℕ × ℕ
ffs_step k (word, num) =
    if bit_and word (2 ^ k - 1) == 0 then (word / 2 ^ k, num + k) else (word, num)

-- `__ffsl`
unfoldable pub ffsl : ℕ → ℕ
ffsl word =
    (ffs_step 1 (ffs_step 2 (ffs_step 4 (ffs_step 8 (ffs_step 16 (ffs_step 32 (word, 0))))))).1

-- The word at an index, as `_find_next_bit` reads it.
abbrev pub fetch_word : Words → ℕ → ℕ → ℕ
fetch_word addr index invert = bit_xor (addr index) invert

-- The loop of `_find_next_bit` over the words.
unfoldable pub find_from : ℕ → Words → ℕ → ℕ → ℕ → ℕ → Option ℕ
find_from zero addr nbits start tmp invert = none
find_from (suc fuel) addr nbits start tmp invert =
    let start' = start + 64 in
    let rest = find_from fuel addr nbits start' (fetch_word addr (start' / 64) invert) invert in
    if not (tmp == 0)
    then some (min (start + ffsl tmp) nbits)
    else if leb nbits start'
    then some nbits
    else rest

-- `_find_next_bit`
unfoldable pub find_next : ℕ → Words → ℕ → ℕ → ℕ → Option ℕ
unfolding find_from first_word_mask ffsl
find_next fuel addr nbits start invert =
    if leb nbits start
    then some nbits
    else find_from fuel addr nbits (start / 64 * 64)
        (bit_and (fetch_word addr (start / 64) invert) (first_word_mask start)) invert

-- `find_next_bit`
unfoldable pub find_next_bit : ℕ → Words → ℕ → ℕ → Option ℕ
unfolding find_next
find_next_bit fuel addr size offset = find_next fuel addr size offset 0

-- `find_next_zero_bit`
unfoldable pub find_next_zero_bit : ℕ → Words → ℕ → ℕ → Option ℕ
unfolding find_next
find_next_zero_bit fuel addr size offset = find_next fuel addr size offset all_ones

-- The loop of `bitmap_set` and `bitmap_clear`, with what is done to a word.
unfoldable pub each_word : (ℕ → ℕ → ℕ) → ℕ → Words → ℕ → ℕ → ℕ → ℕ → ℕ → Option Words
unfolding last_word_mask
each_word f zero map p len bits mask size = none
each_word f (suc fuel) map p len bits mask size =
    let rest =
      each_word f fuel (update map p (f (map p) mask)) (p + 1) (len - bits) 64 all_ones size in
    if leb bits len
    then rest
    else if len == 0
    then some map
    else some (update map p (f (map p) (bit_and mask (last_word_mask size))))

-- `*p |= mask`
abbrev pub set_word : ℕ → ℕ → ℕ
set_word word mask = bit_or word mask

-- `*p &= ~mask`
abbrev pub clear_word : ℕ → ℕ → ℕ
clear_word word mask = bit_and word (complement mask)

-- `bitmap_set`
unfoldable pub bitmap_set : ℕ → Words → ℕ → ℕ → Option Words
unfolding each_word first_word_mask
bitmap_set fuel map start nbits =
    each_word set_word fuel map (start / 64) nbits (64 - start % 64) (first_word_mask start)
      (start + nbits)

-- `bitmap_clear`
unfoldable pub bitmap_clear : ℕ → Words → ℕ → ℕ → Option Words
unfolding each_word first_word_mask
bitmap_clear fuel map start nbits =
    each_word clear_word fuel map (start / 64) nbits (64 - start % 64) (first_word_mask start)
      (start + nbits)

-- `__ALIGN_MASK`, of an `unsigned long`
abbrev pub align_mask : ℕ → ℕ → ℕ
align_mask x mask = bit_and ((x + mask) % 2 ^ 64) (complement mask)

-- `bitmap_find_next_zero_area_off`, with an offset of 0. The searches have fuel for each bit.
unfoldable pub find_next_zero_area : ℕ → Words → ℕ → ℕ → ℕ → ℕ → Option ℕ
find_next_zero_area zero map size start nr mask = none
find_next_zero_area (suc fuel) map size start nr mask =
    elim (find_next_zero_bit (size + 1) map size start) [
      | none ↦ none
      | some zero_bit ↦
          let index = align_mask zero_bit mask in
          let stop = index + nr in
          if ltb size stop then some stop else elim (find_next_bit (stop + 1) map stop index) [
            | none ↦ none
            | some i ↦
                let again = find_next_zero_area fuel map size (i + 1) nr mask in
                if ltb i stop then again else some index
          ]
    ]
