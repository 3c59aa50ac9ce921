-- ===== src/Bitmap/Find.antt =====
-- `_find_next_bit` finds the next bit.
use Prim.Native.Nat.{bit_and}
use grinch.Prelude.{
  ℕ, zero, suc, ◌+◌, ◌-◌, ◌*◌, ◌/◌, ◌%◌, ◌^◌, ◌≤◌, ◌<◌, min, ◌≡◌, refl, sym, ap, ap₂, ◌∙◌, ◌≢◌,
  Bool, true, false, not, ◌&&◌, some, arith, dec_lt, ℕ_discrete, leb, if◌then◌else◌, leb→le, set,
}
use grinch.Prelude.Digits.{bit, bit-zero, bit-bit_and, bit-bit_xor, bit_and-le, bit_xor-lt}
use grinch.Bitmap.{
  Words, all_ones, first_word_mask, ffsl, fetch_word, find_from, find_next, find_next_bit,
  find_next_zero_bit,
}
use grinch.Bitmap.Word.{bit-first_word_mask, bit-all_ones, ffsl_lem}
use grinch.Bitmap.Set.{holds, small_first}

-- Every word has 64 bits.
abbrev pub AreWords : Words → Type 0
AreWords addr = (k : ℕ) → addr k < 2 ^ 64

-- A bit is set, or clear if the words are inverted.
abbrev pub sees : Bool → Words → ℕ → Bool
sees inverted addr nr = if inverted then not (holds addr nr) else holds addr nr

abbrev inversion : Bool → ℕ
inversion inverted = if inverted then all_ones else 0

-- The next bit from `lo` on that is seen, or the size.
abbrev pub IsNext : Bool → Words → ℕ → ℕ → ℕ → Type 0
IsNext inverted addr nbits lo r =
    (r ≤ nbits)
    × ((nr : ℕ) → lo ≤ nr → nr < r → sees inverted addr nr ≡ false)
    × (r < nbits → (lo ≤ r) × (sees inverted addr r ≡ true))

fetch_word-lt :
    (inverted : Bool) (addr : Words) (k : ℕ)
    → AreWords addr
    → fetch_word addr k (inversion inverted) < 2 ^ 64
fetch_word-lt true addr k ok_words = bit_xor-lt 64 (addr k) all_ones (ok_words k) (omega arith)
fetch_word-lt false addr k ok_words = bit_xor-lt 64 (addr k) 0 (ok_words k) (omega arith)

bit-fetch_word :
    (inverted : Bool) (addr : Words) (k i : ℕ)
    → i < 64
    → bit (fetch_word addr k (inversion inverted)) i
      ≡ (if inverted then not (bit (addr k) i) else bit (addr k) i)
bit-fetch_word true addr k i p =
    bit-bit_xor (addr k) all_ones i
    ∙ ap (λ b. if b then not (bit (addr k) i) else bit (addr k) i) {x = bit all_ones i} {y = true}
        (bit-all_ones i ∙ ground (arith, p))
bit-fetch_word false addr k i p =
    bit-bit_xor (addr k) 0 i
    ∙ ap (λ b. if b then not (bit (addr k) i) else bit (addr k) i) (bit-zero i)

-- The bits of a word, by their numbers in the array.
fetch_word-sees :
    (inverted : Bool) (addr : Words) (start i : ℕ)
    → start % 64 ≡ 0
    → i < 64
    → bit (fetch_word addr (start / 64) (inversion inverted)) i ≡ sees inverted addr (start + i)
fetch_word-sees inverted addr start i e p =
    let k : start / 64 ≡ (start + i) / 64 = omega (arith, e) in
    let j : i ≡ (start + i) % 64 = omega (arith, e) in
    bit-fetch_word inverted addr (start / 64) i p
    ∙ ap₂ (λ x y. if inverted then not (bit (addr x) y) else bit (addr x) y) k j

both_true : (a b : Bool) → (a && b) ≡ true → (a ≡ true) × (b ≡ true)
both_true true b h = (refl, h)
both_true false b h = cc h

swap : (a b c : Bool) → b ≡ c → (a && b) ≡ (c && a)
swap true true c e = ap (λ k. k && true) e
swap true false c e = ap (λ k. k && true) e
swap false b true e = refl
swap false b false e = refl

module _ (inverted : Bool) (addr : Words) (nbits lo : ℕ) (ok_words : AreWords addr) where
  find_here :
      (fuel start tmp : ℕ)
      → tmp ≢ 0
      → find_from (suc fuel) addr nbits start tmp (inversion inverted)
        ≡ some (min (start + ffsl tmp) nbits)
  unfolding find_from
  find_here fuel start tmp some_bit = ground (arith, some_bit)

  find_end :
      (fuel start tmp : ℕ)
      → tmp ≡ 0
      → nbits ≤ start + 64
      → find_from (suc fuel) addr nbits start tmp (inversion inverted) ≡ some nbits
  unfolding find_from
  find_end fuel start tmp e p = ground (arith, e, p)

  find_on :
      (fuel start tmp : ℕ)
      → tmp ≡ 0
      → start + 64 < nbits
      → find_from (suc fuel) addr nbits start tmp (inversion inverted)
        ≡ find_from fuel addr nbits
            (start + 64)
            (fetch_word addr ((start + 64) / 64) (inversion inverted))
            (inversion inverted)
  unfolding find_from
  find_on fuel start tmp e p = ground (arith, e, p)

  unseen :
      (start tmp nr : ℕ)
      → ((i : ℕ) → i < 64 → bit tmp i ≡ (leb lo (start + i) && sees inverted addr (start + i)))
      → start ≤ nr
      → nr < start + 64
      → lo ≤ nr
      → bit tmp (nr - start) ≡ false
      → sees inverted addr nr ≡ false
  unseen start tmp nr now p q r e =
      let place : start + (nr - start) ≡ nr = omega (arith, p) in
      let both : (leb lo nr && sees inverted addr nr) ≡ false =
        sym (ap (λ k. leb lo k && sees inverted addr k) place)
        ∙ sym (now (nr - start) (omega (arith, p, q)))
        ∙ e in
      sym (ap (λ b. b && sees inverted addr nr) {x = leb lo nr} {y = true} (ground (arith, r)))
      ∙ both

  IsNext-here :
      (start tmp : ℕ)
      → tmp ≢ 0
      → tmp < 2 ^ 64
      → ((i : ℕ) → i < 64 → bit tmp i ≡ (leb lo (start + i) && sees inverted addr (start + i)))
      → ((nr : ℕ) → lo ≤ nr → nr < start → sees inverted addr nr ≡ false)
      → IsNext inverted addr nbits lo (min (start + ffsl tmp) nbits)
  IsNext-here start tmp some_bit small now before =
      let (j, set, low) = ffsl_lem tmp some_bit small in
      let both : (leb lo (start + ffsl tmp) && sees inverted addr (start + ffsl tmp)) ≡ true =
        sym (now (ffsl tmp) j) ∙ set in
      (
        omega arith,
        λ nr p q. elim (dec_lt nr start) [
          | yes r ↦ before nr p r
          | no r ↦
              unseen start tmp nr now (omega (arith, r)) (omega (arith, q, j)) p
                (low (nr - start) (omega (arith, q, r)))
        ],
        λ q.
            let inside : min (start + ffsl tmp) nbits ≡ start + ffsl tmp = omega (arith, q) in
            let (from, seen) = both_true (leb lo (start + ffsl tmp)) _ both in
            (
              omega (arith, inside, leb→le lo (start + ffsl tmp) from),
              ap (sees inverted addr) inside ∙ seen,
            ),
      )

  before_next :
      (start tmp : ℕ)
      → tmp ≡ 0
      → ((i : ℕ) → i < 64 → bit tmp i ≡ (leb lo (start + i) && sees inverted addr (start + i)))
      → ((nr : ℕ) → lo ≤ nr → nr < start → sees inverted addr nr ≡ false)
      → (nr : ℕ) → lo ≤ nr
      → nr < start + 64
      → sees inverted addr nr ≡ false
  before_next start tmp nothing now before nr p q = elim (dec_lt nr start) [
    | yes r ↦ before nr p r
    | no r ↦
        unseen start tmp nr now (omega (arith, r)) q p
          (ap (λ w. bit w (nr - start)) nothing ∙ bit-zero (nr - start))
  ]

  find_from_lem :
      (fuel start tmp : ℕ)
      → start % 64 ≡ 0
      → lo < start + 64
      → start < nbits
      → tmp < 2 ^ 64
      → nbits < start + fuel
      → ((i : ℕ) → i < 64 → bit tmp i ≡ (leb lo (start + i) && sees inverted addr (start + i)))
      → ((nr : ℕ) → lo ≤ nr → nr < start → sees inverted addr nr ≡ false)
      → (r : ℕ) × (find_from fuel addr nbits start tmp (inversion inverted) ≡ some r)
        × IsNext inverted addr nbits lo r
  find_from_lem zero start tmp e p inside small enough now before = absurd (omega arith)
  find_from_lem (suc fuel) start tmp e p inside small enough now before = elim (ℕ_discrete tmp 0) [
    | no some_bit ↦ (
      min (start + ffsl tmp) nbits,
      find_here fuel start tmp some_bit,
      IsNext-here start tmp some_bit small now before,
    )
    | yes nothing ↦ elim (dec_lt (start + 64) nbits) [
      | no q ↦ (
        nbits,
        find_end fuel start tmp nothing (omega (arith, q)),
        (
          omega arith,
          λ nr a b. before_next start tmp nothing now before nr a (omega (arith, b, q)),
          λ b. absurd (omega (arith, b)),
        ),
      )
      | yes q ↦
          let word = fetch_word addr ((start + 64) / 64) (inversion inverted) in
          let (r, done, next) =
            find_from_lem fuel (start + 64) word (omega (arith, e)) (omega (arith, p)) q
              (fetch_word-lt inverted addr ((start + 64) / 64) ok_words) (omega arith)
              (λ i a.
                fetch_word-sees inverted addr (start + 64) i (omega (arith, e)) a
                ∙ sym (
                    ap (λ b. b && sees inverted addr (start + 64 + i)) {x = leb lo (start + 64 + i)}
                      {y = true} (ground (arith, p))))
              (λ nr a b. before_next start tmp nothing now before nr a b) in
          (r, find_on fuel start tmp nothing q ∙ done, next)
    ]
  ]

  -- The bit that `_find_next_bit` finds.
  find_next_lem :
      (fuel : ℕ)
      → nbits < fuel
      → (r : ℕ) × (find_next fuel addr nbits lo (inversion inverted) ≡ some r)
        × IsNext inverted addr nbits lo r
  unfolding find_next
  find_next_lem fuel enough = elim (dec_lt lo nbits) [
    | no p ↦ (
      nbits,
      ground (arith, p),
      (omega arith, λ nr a b. absurd (omega (arith, a, b, p)), λ b. absurd (omega (arith, b))),
    )
    | yes p ↦
        let start = lo / 64 * 64 in
        let word = fetch_word addr (lo / 64) (inversion inverted) in
        let tmp = bit_and word (first_word_mask lo) in
        let small = fetch_word-lt inverted addr (lo / 64) ok_words in
        let less = bit_and-le 64 word (first_word_mask lo) small (small_first lo) in
        let (r, done, next) =
          find_from_lem fuel start tmp (omega arith) (omega arith) (omega (arith, p))
            (omega (arith, small, less)) (omega (arith, enough))
            (λ i a.
              bit-bit_and word (first_word_mask lo) i
              ∙ ap₂ (λ x y. x && y)
                  (ap (λ k. bit (fetch_word addr k (inversion inverted)) i) {x = lo / 64}
                      {y = start / 64} (omega arith)
                    ∙ fetch_word-sees inverted addr start i (omega arith) a)
                  (bit-first_word_mask lo i a)
              ∙ swap (sees inverted addr (start + i)) (leb (lo % 64) i) (leb lo (start + i))
                  (ground arith))
            (λ nr a b. absurd (omega (arith, a, b))) in
        (r, ground (arith, p, done), next)
  ]

-- `find_next_bit` ends, with fuel for each bit and one round more, and answers the first set bit from
-- the offset on, or the size if there is none.
pub find_next_bit_lem :
    (fuel : ℕ) (addr : Words) (size offset : ℕ)
    → AreWords addr
    → size < fuel
    → (r : ℕ) × (find_next_bit fuel addr size offset ≡ some r) × IsNext false addr size offset r
unfolding find_next_bit
find_next_bit_lem fuel addr size offset ok_words enough =
    find_next_lem false addr size offset ok_words fuel enough

-- `find_next_zero_bit` answers the first clear bit from the offset on, or the size.
pub find_next_zero_bit_lem :
    (fuel : ℕ) (addr : Words) (size offset : ℕ)
    → AreWords addr
    → size < fuel
    → (r : ℕ) × (find_next_zero_bit fuel addr size offset ≡ some r) × IsNext true addr size offset r
unfolding find_next_zero_bit
find_next_zero_bit_lem fuel addr size offset ok_words enough =
    find_next_lem true addr size offset ok_words fuel enough
