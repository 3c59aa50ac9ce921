-- ===== src/Gfp/Find.antt =====
-- `mm_bitmap_find_and_allocate` takes the first aligned run of free pages.
use native.Mathlib.Nat.{one-le-pow, pow-le-pow_right}
use grinch.Prelude.{
  ℕ, ◌+◌, ◌-◌, ◌*◌, ◌/◌, ◌%◌, ◌^◌, ◌≤◌, ◌<◌, ◌≡◌, refl, ap, ◌∙◌, ◌⊎◌, inl, inr, true, false, ◌||◌,
  Option, none, some, arith, Bool-cases,
}
use grinch.Errno.{Result, ok, err, enomem}
use grinch.Vma.{page_size, done}
use grinch.Bitmap.{Words, find_next_zero_area, bitmap_set}
use grinch.Bitmap.Set.{holds, within, bitmap_set_lem}
use grinch.Bitmap.Find.{AreWords}
use grinch.Bitmap.Area.{IsArea, find_next_zero_area_lem}
use grinch.Bitmap.Keep.{AreWords-bitmap_set}
use grinch.Gfp.{Bitmap, find_and_allocate, first_page, misses}

-- Where an allocation may start, of the aligned places.
abbrev pub Allowed : Option ℕ → ℕ → Type 0
Allowed none start = Unit
Allowed (some f) start = start ≡ f

-- The pages from `start` on were free, stand at the first place that may be, and are used now.
pub record IsTaken (b b' : Bitmap) (pages k : ℕ) (from : Option ℕ) (start : ℕ) : Type 0 where
  pub fits : start + pages ≤ b.bit_max
  pub allowed : Allowed from start
  pub aligned : start % 2 ^ k ≡ 0
  pub were_free : IsArea b.bits pages start
  pub first : (j : ℕ) → Allowed from j → j % 2 ^ k ≡ 0 → IsArea b.bits pages j → start ≤ j
  pub same_max : b'.bit_max ≡ b.bit_max
  pub used : (nr : ℕ) → holds b'.bits nr ≡ (holds b.bits nr || within start pages nr)
  pub ok_words : AreWords b'.bits

-- What `mm_bitmap_find_and_allocate` answers: a number of pages that are taken, or there is no
-- aligned run of free pages and the bitmap is as it was.
abbrev pub Answers : Bitmap → Bitmap → ℕ → ℕ → Option ℕ → Result ℕ → Type 0
Answers b b' pages k from (ok start) = IsTaken b b' pages k from start
Answers b b' pages k from (err e) =
    (e ≡ enomem)
    × (b' ≡ b)
    × ((j : ℕ) → Allowed from j → j % 2 ^ k ≡ 0 → IsArea b.bits pages j → b.bit_max < j + pages)

from_first : (from : Option ℕ) (j : ℕ) → Allowed from j → first_page from ≤ j
from_first none j a = omega arith
from_first (some f) j a = omega (arith, a)

missed :
    (from : Option ℕ) (start j : ℕ)
    → misses from start ≡ true
    → first_page from ≤ start
    → start ≤ j
    → ¬ Allowed from j
missed none start j h p q a = cc h
missed (some f) start j h p q a = absurd (ground (arith, h, p, q, a))

hits : (from : Option ℕ) (start : ℕ) → misses from start ≡ false → Allowed from start
hits none start h = tt
hits (some f) start h = ground (arith, h)

mask_of :
    (k : ℕ)
    → k ≤ 19
    → (page_size * 2 ^ k % page_size ≡ 0)
      × ((page_size * 2 ^ k / page_size + 2 ^ 32 - 1) % 2 ^ 32 ≡ 2 ^ k - 1)
mask_of k few =
    let pos = one-le-pow k 2 (omega arith) in
    let bound = pow-le-pow_right {n = 2} (omega arith) {i = k} {j = 19} few in
    (omega arith, omega (arith, pos, bound))

module _ (b : Bitmap) (pages k : ℕ) (from : Option ℕ) (few : k ≤ 19) where
  fails :
      (start : ℕ)
      → find_next_zero_area (b.bit_max + 1) b.bits b.bit_max (first_page from) pages (2 ^ k - 1)
        ≡ some start
      → (misses from start ≡ true) ⊎ (b.bit_max < start)
      → find_and_allocate b pages from (page_size * 2 ^ k) ≡ done (b, err enomem)
  unfolding find_and_allocate
  fails start e why =
      let (even, mask) = mask_of k few in
      let found =
        ap (find_next_zero_area (b.bit_max + 1) b.bits b.bit_max (first_page from) pages) mask
        ∙ e in
      elim why [ inl h ↦ ground (arith, even, found, h) | inr h ↦ ground (arith, even, found, h) ]

  takes :
      (start : ℕ) (bits' : Words)
      → find_next_zero_area (b.bit_max + 1) b.bits b.bit_max (first_page from) pages (2 ^ k - 1)
        ≡ some start
      → misses from start ≡ false
      → start ≤ b.bit_max
      → bitmap_set (pages + 1) b.bits start pages ≡ some bits'
      → find_and_allocate b pages from (page_size * 2 ^ k)
        ≡ done (record b { bits = bits' }, ok start)
  unfolding find_and_allocate
  takes start bits' e hit low e' =
      let (even, mask) = mask_of k few in
      let found =
        ap (find_next_zero_area (b.bit_max + 1) b.bits b.bit_max (first_page from) pages) mask
        ∙ e in
      ground (arith, even, found, hit, low, e')

-- `mm_bitmap_find_and_allocate` takes the first aligned run of free pages that it may, marks exactly
-- these pages as used, and fails with -ENOMEM only if there is no such run; then it changes nothing.
-- The alignment is a number of pages that is a power of two.
pub find_and_allocate_lem :
    (b : Bitmap) (pages k : ℕ) (from : Option ℕ)
    → AreWords b.bits
    → 0 < pages
    → k ≤ 19
    → b.bit_max < 2 ^ 31
    → (b' : Bitmap) × (r : Result ℕ) × (find_and_allocate b pages from (page_size * 2 ^ k)
        ≡ done (b', r))
      × Answers b b' pages k from r
find_and_allocate_lem b pages k from ok_words some_pages few small =
    let bound = pow-le-pow_right {n = 2} (omega arith) {i = k} {j = 19} few in
    let (start, e, first) =
      find_next_zero_area_lem b.bits b.bit_max pages k ok_words some_pages (omega (arith, few))
        (omega (arith, small, bound)) (b.bit_max + 1) (first_page from) (omega arith) in
    elim first [
      | inl (big, none_fits) ↦ (
        b,
        err enomem,
        fails b pages k from few start e (inr big),
        (refl, refl, λ j a e' area. none_fits j (from_first from j a) e' area),
      )
      | inr (fits, low, e2, area, least) ↦ elim (Bool-cases (misses from start)) [
        | inl h ↦ (
          b,
          err enomem,
          fails b pages k from few start e (inl h),
          (
            refl,
            refl,
            λ j a e' area'.
                absurd (missed from start j h low (least j (from_first from j a) e' area') a),
          ),
        )
        | inr h ↦
            let (bits', e', marks) =
              bitmap_set_lem (pages + 1) b.bits start pages (omega arith)
                (omega (arith, fits, small)) in
            (
              record b { bits = bits' },
              ok start,
              takes b pages k from few start bits' e h (omega (arith, fits)) e',
              record {
                fits = fits;
                allowed = hits from start h;
                aligned = e2;
                were_free = area;
                first = λ j a e'' area'. least j (from_first from j a) e'' area';
                same_max = refl;
                used = marks;
                ok_words = AreWords-bitmap_set (pages + 1) b.bits bits' start pages ok_words e';
              },
            )
      ]
    ]
