-- ===== src/Salloc/Release.antt =====
-- `salloc_free` on a row of blocks.
use mathlib.Core.Path.{subst}
use grinch.Prelude.{
  ℕ, ◌+◌, ◌-◌, ◌%◌, ◌^◌, ◌<◌, ◌≡◌, refl, sym, ap, ap₂, ◌∙◌, ◌≢◌, Bool, true, false, Option, none,
  some, List, [], ◌∷◌, arith, if◌then◌else◌,
}
use grinch.Prelude.Maps.{update, update_ne, update_self}
use grinch.Salloc.{
  Memchunk, Heap, header_size, check_chunk, merge_after, relink, merge_before, release, free, wiped,
}
use grinch.Salloc.Row.{Block, is_nil, header, behind, Row, total, Row-frame}
use grinch.Salloc.Merge.{
  freed, merged, join, update-below, is_nil-join, following, Merged, merge_after-Row,
}

-- The block behind the blocks `xs` is freed, and merged with the free blocks beside it.
abbrev pub put_back : List Block → Block → List Block → List Block
put_back [] y ys = join (freed y) ys
put_back (x ∷ []) y ys = if x.used then x ∷ join (freed y) ys else join (merged x y) ys
put_back (x ∷ x' ∷ xs) y ys = x ∷ put_back (x' ∷ xs) y ys

-- A block that is marked free.
pub freed-Row :
    (h : Heap) (prev : Option ℕ) (a : ℕ) (y : Block) (ys : List Block)
    → Row h prev a (y ∷ ys)
    → Row (update h a (record (h a) { used = false })) prev a (freed y ∷ ys)
unfolding update
freed-Row h prev a y ys row =
    (ground (arith, row.0), Row-frame (some a) (behind a y) ys (λ x p. ground arith) row.1)

pub free-release :
    (h : Heap) (prev : Option ℕ) (a : ℕ) (y : Block) (last : Bool)
    → y.used ≡ true
    → h a ≡ header prev y last
    → free h (a + header_size) ≡ release (update h a (record (h a) { used = false })) a
unfolding free
free-release h prev a y last used e =
    let back : a + header_size - header_size ≡ a = omega arith in rw back (ground (arith, e))

-- The chunk behind a block that is marked free is whole.
release_alone :
    (h : Heap) (a : ℕ) (y : Block) (ys : List Block)
    → Row h none a (y ∷ ys)
    → release h a ≡ merge_after h a (following a y ys)
unfolding release
release_alone h a y [] row = ground (arith, row.0)
release_alone h a y (z ∷ zs) row = ground (arith, row.0, row.1.0)

pub release_later :
    (h : Heap) (p a : ℕ) (y : Block) (ys : List Block)
    → check_chunk (h p) ≡ true
    → Row h (some p) a (y ∷ ys)
    → release h a ≡ merge_before h p a (following a y ys)
unfolding release
release_later h p a y [] whole row = ground (arith, row.0, whole)
release_later h p a y (z ∷ zs) whole row = ground (arith, row.0, row.1.0, whole)

pub free_first :
    (h : Heap) (a : ℕ) (y : Block) (ys : List Block)
    → y.used ≡ true
    → total (y ∷ ys) < 2 ^ 64
    → Row h none a (y ∷ ys)
    → Merged h (free h (a + header_size)) none a (join (freed y) ys)
free_first h a y ys used small row =
    let h' = update h a (record (h a) { used = false }) in
    let row' = freed-Row h none a y ys row in
    let (r, done, new, frame) = merge_after-Row h' none a (freed y) ys refl small row' in
    (
      r,
      free-release h none a y (is_nil ys) used row.0 ∙ release_alone h' a (freed y) ys row' ∙ done,
      new,
      λ x p. frame x p ∙ update-below h a x _ p,
    )

merge_before-used :
    (h : Heap) (p m : ℕ) (after : Option ℕ)
    → (h p).used ≡ true
    → merge_before h p m after ≡ merge_after h m after
unfolding merge_before
merge_before-used h p m after used = ground (arith, used)

-- The block before is in use.
pub free_alone :
    (h : Heap) (prev : Option ℕ) (a : ℕ) (x y : Block) (ys : List Block)
    → x.used ≡ true
    → y.used ≡ true
    → total (y ∷ ys) < 2 ^ 64
    → Row h prev a (x ∷ y ∷ ys)
    → Merged h (free h (behind a x + header_size)) prev a (x ∷ join (freed y) ys)
free_alone h prev a x y ys before used small (here, row) =
    let m = behind a x in
    let h' = update h m (record (h m) { used = false }) in
    let row' = freed-Row h (some a) m y ys row in
    let (r, done, new, frame) = merge_after-Row h' (some a) m (freed y) ys refl small row' in
    let same : h' a ≡ header prev x false = update-below h m a _ (omega arith) ∙ here in
    (
      r,
      free-release h (some a) m y (is_nil ys) used row.0
          ∙ release_later h' a m (freed y) ys (ap check_chunk same) row'
          ∙ merge_before-used h' a m (following m y ys) (ap (λ k. k.used) same ∙ before)
          ∙ done,
      (frame a (omega arith) ∙ same ∙ ap (header prev x) (sym (is_nil-join (freed y) ys)), new),
      λ z p. frame z (omega arith) ∙ update-below h m z _ (omega arith),
    )

-- The heap once the free block before, at `a`, has taken the block at `m` in; `n` is behind it.
abbrev taken_in : Heap → ℕ → ℕ → ℕ → Heap
taken_in h a m n =
    let grown = record (h a) { size = ((h a).size + (header_size + (h m).size)) % 2 ^ 64 } in
    let g = update h a grown in update (update g n (record (g n) { before = some a })) m wiped

taken_in-far : (h : Heap) (a m n z : ℕ) → z ≢ a → z ≢ m → z ≢ n → taken_in h a m n z ≡ h z
taken_in-far h a m n z p q r =
    let grown = record (h a) { size = ((h a).size + (header_size + (h m).size)) % 2 ^ 64 } in
    let g = update h a grown in
    update_ne _ m z wiped q ∙ update_ne g n z _ r ∙ update_ne h a z grown p

taken_in-first :
    (h : Heap) (a m n : ℕ)
    → a ≢ m
    → a ≢ n
    → taken_in h a m n a
      ≡ record (h a) { size = ((h a).size + (header_size + (h m).size)) % 2 ^ 64 }
taken_in-first h a m n p q =
    let grown = record (h a) { size = ((h a).size + (header_size + (h m).size)) % 2 ^ 64 } in
    let g = update h a grown in
    update_ne _ m a wiped p ∙ update_ne g n a _ q ∙ update_self h a grown

taken_in-next :
    (h : Heap) (a m n : ℕ) → n ≢ a → n ≢ m → taken_in h a m n n ≡ record (h n) { before = some a }
taken_in-next h a m n p q =
    let grown = record (h a) { size = ((h a).size + (header_size + (h m).size)) % 2 ^ 64 } in
    let g = update h a grown in
    update_ne _ m n wiped q
    ∙ update_self g n (record (g n) { before = some a })
    ∙ ap (λ (k : Memchunk). record k { before = some a }) (update_ne h a n grown p)

merge_before-free :
    (h : Heap) (a m n : ℕ)
    → (h a).used ≡ false
    → merge_before h a m (some n) ≡ merge_after (taken_in h a m n) a (some n)
unfolding merge_before relink
merge_before-free h a m n unused = ground (arith, unused)

taken_in-Row :
    (h : Heap) (prev : Option ℕ) (a : ℕ) (x y c : Block) (cs : List Block)
    → x.used ≡ false
    → x.size + header_size + y.size < 2 ^ 64
    → Row h prev a (x ∷ y ∷ c ∷ cs)
    → Row (taken_in h a (behind a x) (behind (behind a x) y)) prev a (merged x y ∷ c ∷ cs)
taken_in-Row h prev a x y c cs unused small (here, (mid, (next, row))) =
    let m = behind a x in
    let n = behind m y in
    let h' = taken_in h a m n in
    let same : n ≡ behind a (merged x y) = omega arith in
    let whole : ◌≡◌ {A = ℕ} ((x.size + (header_size + y.size)) % 2 ^ 64) (merged x y).size =
      omega arith in
    (
      taken_in-first h a m n (λ e. omega (arith, e)) (λ e. omega (arith, e))
          ∙ ap₂ (λ (j k : Memchunk). record j { size = (j.size + (header_size + k.size)) % 2 ^ 64 })
              here mid
          ∙ ap₂ (λ (s : ℕ) (u : Bool). header prev (record { size = s; used = u }) false) whole
              unused,
      subst (λ k. Row h' (some a) k (c ∷ cs)) same
          (
            taken_in-next h a m n (λ e. omega (arith, e)) (λ e. omega (arith, e))
                ∙ ap (λ (k : Memchunk). record k { before = some a }) next,
            Row-frame (some n) (behind n c) cs
                (λ z p.
                  taken_in-far h a m n z (λ e. omega (arith, e)) (λ e. omega (arith, e))
                    (λ e. omega (arith, e)))
                row,
          ),
    )

-- The block before is free as well, and more blocks follow.
pub free_between :
    (h : Heap) (prev : Option ℕ) (a : ℕ) (x y c : Block) (cs : List Block)
    → x.used ≡ false
    → y.used ≡ true
    → total (x ∷ y ∷ c ∷ cs) < 2 ^ 64
    → Row h prev a (x ∷ y ∷ c ∷ cs)
    → Merged h (free h (behind a x + header_size)) prev a (join (merged x y) (c ∷ cs))
free_between h prev a x y c cs before used small (here, row) =
    let m = behind a x in
    let n = behind m y in
    let h' = update h m (record (h m) { used = false }) in
    let row' = freed-Row h (some a) m y (c ∷ cs) row in
    let same : h' a ≡ header prev x false = update-below h m a _ (omega arith) ∙ here in
    let one = taken_in-Row h' prev a x (freed y) c cs before (omega arith) (same, row') in
    let (r, done, new, frame) =
      merge_after-Row (taken_in h' a m n) prev a (merged x y) (c ∷ cs) refl (omega arith) one in
    let place : ◌≡◌ {A = ℕ} n (behind a (merged x y)) = omega arith in
    (
      r,
      free-release h (some a) m y false used row.0
          ∙ release_later h' a m (freed y) (c ∷ cs) (ap check_chunk same) row'
          ∙ merge_before-free h' a m n (ap (λ (k : Memchunk). k.used) same ∙ before)
          ∙ ap (λ z. merge_after (taken_in h' a m n) a (some z)) place
          ∙ done,
      new,
      λ z p.
          frame z p
          ∙ taken_in-far h' a m n z (λ e. omega (arith, e)) (λ e. omega (arith, e))
              (λ e. omega (arith, e))
          ∙ update-below h m z _ (omega arith),
    )
