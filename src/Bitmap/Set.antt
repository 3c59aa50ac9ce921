-- ===== src/Bitmap/Set.antt =====
-- `bitmap_set` and `bitmap_clear` set and clear the bits of a range.
use Prim.Native.Nat.{bit_and}
use native.Mathlib.Nat.{mod-lt, div-le_self}
use grinch.Prelude.{
  ℕ, zero, suc, ◌+◌, ◌-◌, ◌*◌, ◌/◌, ◌%◌, ◌^◌, ◌≤◌, ◌<◌, ◌≡◌, refl, sym, ap, ap₂, ◌∙◌, ◌≢◌, Bool,
  true, false, not, ◌&&◌, ◌||◌, some, map, arith, dec_lt, ℕ_discrete, ltb, leb, ◌==◌, if◌then◌else◌,
}
use grinch.Prelude.Maps.{update, update_self, update_ne}
use grinch.Prelude.Digits.{bit, bit-bit_and, bit-bit_or, bit-complement, bit_and-complement}
use grinch.Bitmap.{
  Words, all_ones, complement, first_word_mask, last_word_mask, each_word, set_word, clear_word,
  bitmap_set, bitmap_clear,
}
use grinch.Bitmap.Word.{bit-first_word_mask, bit-last_word_mask}

-- A bit of the array.
abbrev pub holds : Words → ℕ → Bool
holds map nr = bit (map (nr / 64)) (nr % 64)

-- The numbers of a range.
abbrev pub within : ℕ → ℕ → ℕ → Bool
within from n nr = leb from nr && ltb nr (from + n)

pub small_first : (start : ℕ) → first_word_mask start < 2 ^ 64
unfolding first_word_mask
small_first start = mod-lt (all_ones * 2 ^ (start % 64)) {m = 2 ^ 64} (omega arith)

pub small_both : (mask m : ℕ) → mask < 2 ^ 64 → m < 2 ^ 64 → bit_and mask m < 2 ^ 64
small_both mask m p q = omega (arith, bit_and-complement 64 mask m p q, p)

pub small_last : (nbits : ℕ) → last_word_mask nbits < 2 ^ 64
unfolding last_word_mask
small_last nbits =
    let less = div-le_self all_ones (2 ^ ((2 ^ 32 - nbits) % 2 ^ 32 % 64)) in omega (arith, less)

first_ones : (a : ℕ) → a % 64 ≡ 0 → first_word_mask a ≡ all_ones
unfolding first_word_mask
first_ones a e = ap (λ s. all_ones * 2 ^ s % 2 ^ 64) e

module _ (f : ℕ → ℕ → ℕ) (g : Bool → Bool → Bool)
    (bits : (w mask i : ℕ) → mask < 2 ^ 64 → i < 64 → bit (f w mask) i ≡ g (bit w i) (bit mask i))
    (idle : (b : Bool) → g b false ≡ b) where
  one_word :
      (map : Words) (p mask nr : ℕ)
      → mask < 2 ^ 64
      → holds (update map p (f (map p) mask)) nr
        ≡ (if nr / 64 == p then g (holds map nr) (bit mask (nr % 64)) else holds map nr)
  one_word map p mask nr small = elim (ℕ_discrete (nr / 64) p) [
    | yes e ↦
        ap (λ k. bit (update map p (f (map p) mask) k) (nr % 64)) e
        ∙ ap (λ w. bit w (nr % 64)) (update_self map p (f (map p) mask))
        ∙ bits (map p) mask (nr % 64) small (omega arith)
        ∙ ap (λ k. g (bit (map k) (nr % 64)) (bit mask (nr % 64))) (sym e)
        ∙ ground (arith, e)
    | no e ↦
        ap (λ w. bit w (nr % 64)) (update_ne map p (nr / 64) (f (map p) mask) e) ∙ ground (arith, e)
  ]

  -- What the loop does to the bits of the range.
  abbrev Ranged : Words → Words → ℕ → ℕ → Type 0
  Ranged map map' a len = (nr : ℕ) → holds map' nr ≡ g (holds map nr) (within a len nr)

  last_word :
      (map : Words) (a len : ℕ)
      → len < 64 - a % 64
      → 0 < len
      → a + len < 2 ^ 32
      → Ranged map
          (update map
            (a / 64)
            (f (map (a / 64)) (bit_and (first_word_mask a) (last_word_mask (a + len)))))
          a
          len
  last_word map a len short some_bits small nr =
      let mask = bit_and (first_word_mask a) (last_word_mask (a + len)) in
      let tail : (a + len) % 64 ≡ a % 64 + len = omega arith in
      let digit : bit mask (nr % 64) ≡ (leb (a % 64) (nr % 64) && ltb (nr % 64) (a % 64 + len)) =
        bit-bit_and (first_word_mask a) (last_word_mask (a + len)) (nr % 64)
        ∙ ap₂ (λ x y. x && y) (bit-first_word_mask a (nr % 64) (omega arith))
            (bit-last_word_mask (a + len) (nr % 64) small (omega (arith, tail)) (omega arith)
              ∙ ap (ltb (nr % 64)) tail) in
      one_word map (a / 64) mask nr (
        small_both (first_word_mask a) (last_word_mask (a + len)) (small_first a)
          (small_last (a + len)))
      ∙ elim (ℕ_discrete (nr / 64) (a / 64)) [
        | yes e ↦
            let same : bit mask (nr % 64) ≡ within a len nr = digit ∙ ground (arith, e, short) in
            ground (arith, e, same)
        | no e ↦
            let out : within a len nr ≡ false = ground (arith, e, short) in
            ground (arith, e, out, idle (holds map nr))
      ]

  first_word :
      (map : Words) (a : ℕ)
      → Ranged map (update map (a / 64) (f (map (a / 64)) (first_word_mask a))) a (64 - a % 64)
  first_word map a nr =
      one_word map (a / 64) (first_word_mask a) nr (small_first a)
      ∙ elim (ℕ_discrete (nr / 64) (a / 64)) [
        | yes e ↦
            let same : bit (first_word_mask a) (nr % 64) ≡ within a (64 - a % 64) nr =
              bit-first_word_mask a (nr % 64) (omega arith) ∙ ground (arith, e) in
            ground (arith, e, same)
        | no e ↦
            let out : within a (64 - a % 64) nr ≡ false = ground (arith, e) in
            ground (arith, e, out, idle (holds map nr))
      ]

  twice : (h r r' : Bool) → (r && r') ≡ false → g (g h r) r' ≡ g h (r || r')
  twice h r false apart = idle (g h r) ∙ ap (g h) (or-none r)
    where
      or-none : (b : Bool) → b ≡ (b || false)
      or-none true = refl
      or-none false = refl
  twice h false true apart = ap (λ b. g b true) (idle h)
  twice h true true apart = cc apart

  stop_here :
      (fuel : ℕ) (map : Words) (a len : ℕ)
      → len ≡ 0
      → each_word f (suc fuel) map (a / 64) len (64 - a % 64) (first_word_mask a) (a + len)
        ≡ some map
  unfolding each_word
  stop_here fuel map a len e = ground (arith, e)

  stop_last :
      (fuel : ℕ) (map : Words) (a len : ℕ)
      → len < 64 - a % 64
      → len ≢ 0
      → each_word f (suc fuel) map (a / 64) len (64 - a % 64) (first_word_mask a) (a + len)
        ≡ some (
            update map
              (a / 64)
              (f (map (a / 64)) (bit_and (first_word_mask a) (last_word_mask (a + len)))))
  unfolding each_word
  stop_last fuel map a len short some_bits = ground (arith, short)

  go_on :
      (fuel : ℕ) (map : Words) (a len : ℕ)
      → 64 - a % 64 ≤ len
      → each_word f (suc fuel) map (a / 64) len (64 - a % 64) (first_word_mask a) (a + len) ≡ (
          let n = 64 - a % 64 in
          each_word f fuel
            (update map (a / 64) (f (map (a / 64)) (first_word_mask a)))
            ((a + n) / 64)
            (len - n)
            (64 - (a + n) % 64)
            (first_word_mask (a + n))
            (a + n + (len - n)))
  unfolding each_word
  go_on fuel map a len long =
      let n = 64 - a % 64 in
      let e1 : a / 64 + 1 ≡ (a + n) / 64 = omega arith in
      let e2 : ◌≡◌ {A = ℕ} 64 (64 - (a + n) % 64) = omega arith in
      let e3 : a + len ≡ a + n + (len - n) = omega arith in
      let e4 : all_ones ≡ first_word_mask (a + n) = sym (first_ones (a + n) (omega arith)) in
      let next = update map (a / 64) (f (map (a / 64)) (first_word_mask a)) in
      ground (arith, long)
      ∙ ap₂ (λ p b. each_word f fuel next p (len - n) b all_ones (a + len)) e1 e2
      ∙ ap₂ (λ k z. each_word f fuel next ((a + n) / 64) (len - n) (64 - (a + n) % 64) k z) e4 e3

  each_word_lem :
      (fuel : ℕ) (map : Words) (a len : ℕ)
      → len < fuel
      → a + len < 2 ^ 32
      → (map' : Words) × (each_word f fuel map
            (a / 64)
            len
            (64 - a % 64)
            (first_word_mask a)
            (a + len)
          ≡ some map')
        × Ranged map map' a len
  each_word_lem zero map a len enough small = absurd (omega arith)
  each_word_lem (suc fuel) map a len enough small = elim (dec_lt len (64 - a % 64)) [
    | yes short ↦ elim (ℕ_discrete len 0) [
      | yes e ↦ (
        map,
        stop_here fuel map a len e,
        λ nr.
            let out : within a len nr ≡ false = ground (arith, e) in
            ground (arith, out, idle (holds map nr)),
      )
      | no some_bits ↦ (
        update map (a / 64)
            (f (map (a / 64)) (bit_and (first_word_mask a) (last_word_mask (a + len)))),
        stop_last fuel map a len short some_bits,
        last_word map a len short (omega (arith, some_bits)) small,
      )
    ]
    | no long ↦
        let n = 64 - a % 64 in
        let map1 = update map (a / 64) (f (map (a / 64)) (first_word_mask a)) in
        let (map', e, there) =
          each_word_lem fuel map1 (a + n) (len - n) (omega (arith, long)) (omega (arith, long)) in
        (
          map',
          go_on fuel map a len (omega (arith, long)) ∙ e,
          λ nr.
              let here = first_word map a nr in
              let rest : within a len nr ≡ (within a n nr || within (a + n) (len - n) nr) =
                ground (arith, long) in
              let apart : (within a n nr && within (a + n) (len - n) nr) ≡ false = ground arith in
              there nr
              ∙ ap (λ b. g b (within (a + n) (len - n) nr)) here
              ∙ twice (holds map nr) (within a n nr) (within (a + n) (len - n) nr) apart
              ∙ ap (g (holds map nr)) (sym rest),
        )
  ]

bit-set_word :
    (w mask i : ℕ) → mask < 2 ^ 64 → i < 64 → bit (set_word w mask) i ≡ (bit w i || bit mask i)
bit-set_word w mask i small p = bit-bit_or w mask i

bit-clear_word :
    (w mask i : ℕ)
    → mask < 2 ^ 64
    → i < 64
    → bit (clear_word w mask) i ≡ (bit w i && not (bit mask i))
bit-clear_word w mask i small p =
    bit-bit_and w (complement mask) i ∙ ap (λ b. bit w i && b) (bit-complement 64 mask i small p)

pub or-false : (b : Bool) → (b || false) ≡ b
or-false true = refl
or-false false = refl

pub and-true : (b : Bool) → (b && not false) ≡ b
and-true true = refl
and-true false = refl

-- `bitmap_set` ends, with fuel for each bit, sets the bits of the range and leaves all others.
pub bitmap_set_lem :
    (fuel : ℕ) (map : Words) (start nbits : ℕ)
    → nbits < fuel
    → start + nbits < 2 ^ 32
    → (map' : Words) × (bitmap_set fuel map start nbits ≡ some map')
      × ((nr : ℕ) → holds map' nr ≡ (holds map nr || within start nbits nr))
unfolding bitmap_set
bitmap_set_lem fuel map start nbits enough small =
    each_word_lem set_word (λ x y. x || y) bit-set_word or-false fuel map start nbits enough small

-- `bitmap_clear` ends, with fuel for each bit, clears the bits of the range and leaves all others.
pub bitmap_clear_lem :
    (fuel : ℕ) (map : Words) (start nbits : ℕ)
    → nbits < fuel
    → start + nbits < 2 ^ 32
    → (map' : Words) × (bitmap_clear fuel map start nbits ≡ some map')
      × ((nr : ℕ) → holds map' nr ≡ (holds map nr && not (within start nbits nr)))
unfolding bitmap_clear
bitmap_clear_lem fuel map start nbits enough small =
    each_word_lem clear_word (λ x y. x && not y) bit-clear_word and-true fuel map start nbits enough
      small
