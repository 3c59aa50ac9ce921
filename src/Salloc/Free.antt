-- ===== src/Salloc/Free.antt =====
-- What `salloc_free` does to a heap that is a row of blocks.
use mathlib.Core.Path.{subst}
use grinch.Prelude.{
  ℕ, ◌+◌, ◌^◌, ◌<◌, ◌≡◌, refl, sym, ap, ◌∙◌, ◌≢◌, inl, inr, Bool, true, false, not, ◌&&◌, Option,
  none, some, List, [], ◌∷◌, ◌++◌, arith, if◌then◌else◌, Bool-cases,
}
use grinch.Errno.{ok}
use grinch.Salloc.{Heap, header_size, free}
use grinch.Salloc.Row.{Block, is_nil, header, behind, Row, total, end_of}
use grinch.Salloc.Merge.{freed, merged, join, Merged, is_nil-join}
use grinch.Salloc.Release.{put_back, free_first, free_alone, free_between}
use grinch.Salloc.Alloc.{Holds}

-- The last block of the heap is freed behind a free block.
abbrev pub last_behind_free : List Block → List Block → Bool
last_behind_free [] ys = false
last_behind_free (x ∷ []) ys = not x.used && is_nil ys
last_behind_free (x ∷ x' ∷ xs) ys = last_behind_free (x' ∷ xs) ys

is_nil-put_back :
    (x : Block) (xs : List Block) (y : Block) (ys : List Block)
    → is_nil (put_back (x ∷ xs) y ys) ≡ false
is_nil-put_back x [] y ys = elim (Bool-cases x.used) [
  | inl u ↦ ground (arith, u)
  | inr u ↦ ground (arith, u, is_nil-join (merged x y) ys)
]
is_nil-put_back x (x' ∷ xs) y ys = refl

free_next :
    (h : Heap) (prev : Option ℕ) (a : ℕ) (x y : Block) (ys : List Block)
    → y.used ≡ true
    → total (x ∷ y ∷ ys) < 2 ^ 64
    → (not x.used && is_nil ys) ≡ false
    → Row h prev a (x ∷ y ∷ ys)
    → Merged h (free h (behind a x + header_size)) prev a (put_back (x ∷ []) y ys)
free_next h prev a x y ys used small kept row = elim (Bool-cases x.used) [
  | inl u ↦
      subst
        (λ (k : Bool).
          Merged h (free h (behind a x + header_size)) prev a
            (if k then x ∷ join (freed y) ys else join (merged x y) ys))
        (sym u) (free_alone h prev a x y ys u used (omega arith) row)
  | inr u ↦
      subst
        (λ (k : Bool).
          Merged h (free h (behind a x + header_size)) prev a
            (if k then x ∷ join (freed y) ys else join (merged x y) ys))
        (sym u) (both_free ys small kept row u)
]
  where
    both_free :
        (ys : List Block)
        → total (x ∷ y ∷ ys) < 2 ^ 64
        → (not x.used && is_nil ys) ≡ false
        → Row h prev a (x ∷ y ∷ ys)
        → x.used ≡ false
        → Merged h (free h (behind a x + header_size)) prev a (join (merged x y) ys)
    both_free [] small kept row u = absurd (ground (arith, u))
    both_free (c ∷ cs) small kept row u = free_between h prev a x y c cs u used small row

free_behind :
    (h : Heap) (prev : Option ℕ) (a : ℕ) (x : Block) (xs : List Block) (y : Block) (ys : List Block)
    → y.used ≡ true
    → total ((x ∷ xs) ++ (y ∷ ys)) < 2 ^ 64
    → last_behind_free (x ∷ xs) ys ≡ false
    → Row h prev a ((x ∷ xs) ++ (y ∷ ys))
    → Merged h (free h (end_of a (x ∷ xs) + header_size)) prev a (put_back (x ∷ xs) y ys)
free_behind h prev a x [] y ys used small kept row = free_next h prev a x y ys used small kept row
free_behind h prev a x (x' ∷ xs) y ys used small kept (here, row) =
    let (r, done, new, frame) =
      free_behind h (some a) (behind a x) x' xs y ys used (omega arith) kept row in
    (
      r,
      done,
      (frame a (omega arith) ∙ here ∙ ap (header prev x) (sym (is_nil-put_back x' xs y ys)), new),
      λ z p. frame z (omega arith),
    )

total-join : (b : Block) (ys : List Block) → total (join b ys) ≡ total (b ∷ ys)
total-join b [] = refl
total-join b (c ∷ cs) = ground arith

total-put_back :
    (xs : List Block) (y : Block) (ys : List Block)
    → total (put_back xs y ys) ≡ total (xs ++ (y ∷ ys))
total-put_back [] y ys = total-join (freed y) ys
total-put_back (x ∷ []) y ys = elim (Bool-cases x.used) [
  | inl u ↦ ground (arith, u, total-join (freed y) ys)
  | inr u ↦ ground (arith, u, total-join (merged x y) ys)
]
total-put_back (x ∷ x' ∷ xs) y ys = omega (arith, total-put_back (x' ∷ xs) y ys)

Holds-join :
    (q s a : ℕ) (b : Block) (ys : List Block) → Holds q s (behind a b) ys → Holds q s a (join b ys)
Holds-join q s a b [] k = elim k [ ]
Holds-join q s a b (c ∷ cs) (inl (u, p, e)) =
    subst (λ (k : Bool). Holds q s a (if k then b ∷ c ∷ cs else merged b c ∷ cs)) (sym u)
      (inr (inl (u, p, e)))
Holds-join q s a b (c ∷ cs) (inr k) =
    let same : ◌≡◌ {A = ℕ} (behind (behind a b) c) (behind a (merged b c)) = omega arith in
    elim (Bool-cases c.used) [
      | inl u ↦
          subst (λ (k : Bool). Holds q s a (if k then b ∷ c ∷ cs else merged b c ∷ cs)) (sym u)
            (inr (inr k))
      | inr u ↦
          subst (λ (k : Bool). Holds q s a (if k then b ∷ c ∷ cs else merged b c ∷ cs)) (sym u)
            (inr (subst (λ z. Holds q s z cs) same k))
    ]

-- The other blocks in use stay.
Holds-put_back :
    (q s a : ℕ) (xs : List Block) (y : Block) (ys : List Block)
    → q ≢ end_of a xs + header_size
    → Holds q s a (xs ++ (y ∷ ys))
    → Holds q s a (put_back xs y ys)
Holds-put_back q s a [] y ys ne (inl (u, p, e)) = absurd (omega (arith, p, ne))
Holds-put_back q s a [] y ys ne (inr k) = Holds-join q s a (freed y) ys k
Holds-put_back q s a (x ∷ x' ∷ xs) y ys ne (inl k) = inl k
Holds-put_back q s a (x ∷ x' ∷ xs) y ys ne (inr k) =
    inr (Holds-put_back q s (behind a x) (x' ∷ xs) y ys ne k)
Holds-put_back q s a (x ∷ []) y ys ne (inl (u, p, e)) =
    subst (λ (k : Bool). Holds q s a (if k then x ∷ join (freed y) ys else join (merged x y) ys))
      (sym u) (inl (u, p, e))
Holds-put_back q s a (x ∷ []) y ys ne (inr (inl (u, p, e))) = absurd (omega (arith, p, ne))
Holds-put_back q s a (x ∷ []) y ys ne (inr (inr k)) =
    let same : ◌≡◌ {A = ℕ} (behind (behind a x) y) (behind a (merged x y)) = omega arith in
    elim (Bool-cases x.used) [
      | inl u ↦
          subst
            (λ (k : Bool). Holds q s a (if k then x ∷ join (freed y) ys else join (merged x y) ys))
            (sym u) (inr (Holds-join q s (behind a x) (freed y) ys k))
      | inr u ↦
          subst
            (λ (k : Bool). Holds q s a (if k then x ∷ join (freed y) ys else join (merged x y) ys))
            (sym u) (Holds-join q s a (merged x y) ys (subst (λ z. Holds q s z ys) same k))
    ]

-- `salloc_free` of a block in use on a heap that is a row of blocks succeeds and leaves a row that
-- takes as many bytes: the block is free and merged with the free blocks beside it, and every other
-- block in use stays. The case that the block is the last of the heap and stands behind a free block
-- is left out.
pub free_lem :
    (h : Heap) (base : ℕ) (xs : List Block) (y : Block) (ys : List Block)
    → Row h none base (xs ++ (y ∷ ys))
    → y.used ≡ true
    → total (xs ++ (y ∷ ys)) < 2 ^ 64
    → last_behind_free xs ys ≡ false
    → (r : Heap) × (free h (end_of base xs + header_size) ≡ (r, ok tt))
      × Row r none base (put_back xs y ys)
      × (total (put_back xs y ys) ≡ total (xs ++ (y ∷ ys)))
      × ((q s : ℕ)
          → q ≢ end_of base xs + header_size
          → Holds q s base (xs ++ (y ∷ ys))
          → Holds q s base (put_back xs y ys))
free_lem h base [] y ys row used small kept =
    let (r, done, new, _) = free_first h base y ys used small row in
    (r, done, new, total-put_back [] y ys, λ q s. Holds-put_back q s base [] y ys)
free_lem h base (x ∷ xs) y ys row used small kept =
    let (r, done, new, _) = free_behind h none base x xs y ys used small kept row in
    (r, done, new, total-put_back (x ∷ xs) y ys, λ q s. Holds-put_back q s base (x ∷ xs) y ys)
