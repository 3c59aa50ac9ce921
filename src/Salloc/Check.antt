-- ===== src/Salloc/Check.antt =====
-- `salloc_fsck` on a row of blocks.
use grinch.Prelude.{
  ℕ, zero, suc, ◌+◌, ◌%◌, ◌^◌, ◌<◌, ◌≡◌, ap, ◌∙◌, Bool, true, false, Option, none, some, List, [],
  ◌∷◌, arith, ◌==◌, if◌then◌else◌, length,
}
use grinch.Errno.{Result, ok, err, emsgsize}
use grinch.Salloc.{Heap, header_size, fsck, run_forward, run_backward}
use grinch.Salloc.Row.{Block, header, behind, Row, total}

-- The address of the last block.
abbrev last_of : ℕ → Block → List Block → ℕ
last_of a b [] = a
last_of a b (c ∷ cs) = last_of (behind a b) c cs

pub run_forward_step :
    (fuel : ℕ) (h : Heap) (prev : Option ℕ) (a size : ℕ) (b : Block) (last : Bool)
    → h a ≡ header prev b last
    → size + header_size + b.size < 2 ^ 64
    → run_forward (suc fuel) h a size ≡ (
        if last
        then some (ok (size + header_size + b.size, a))
        else run_forward fuel h (behind a b) (size + header_size + b.size))
unfolding run_forward
run_forward_step fuel h prev a size b last e small =
    let sum : (size + (header_size + b.size)) % 2 ^ 64 ≡ size + header_size + b.size =
      omega arith in
    rw (e, run_forward) (rw sum (ground arith))

run_forward-Row :
    (fuel : ℕ) (h : Heap) (prev : Option ℕ) (a size : ℕ) (b : Block) (bs : List Block)
    → Row h prev a (b ∷ bs)
    → length bs < fuel
    → size + total (b ∷ bs) < 2 ^ 64
    → run_forward fuel h a size ≡ some (ok (size + total (b ∷ bs), last_of a b bs))
run_forward-Row zero h prev a size b bs row enough small = absurd (omega arith)
run_forward-Row (suc fuel) h prev a size b [] row enough small =
    run_forward_step fuel h prev a size b true row.0 (omega arith)
    ∙ ap (λ k. some (ok (k, a))) {x = size + header_size + b.size} {y = size + total (b ∷ [])}
        (omega arith)
run_forward-Row (suc fuel) h prev a size b (c ∷ cs) row enough small =
    run_forward_step fuel h prev a size b false row.0 (omega arith)
    ∙ run_forward-Row fuel h (some a) (behind a b) (size + header_size + b.size) c cs row.1
        (omega arith) (omega arith)
    ∙ ap (λ k. some (ok (k, last_of (behind a b) c cs)))
        {x = size + header_size + b.size + total (c ∷ cs)} {y = size + total (b ∷ c ∷ cs)}
        (omega arith)

-- What the backward run answers before a row whose last `size` bytes it has seen.
abbrev resumed : ℕ → Heap → Option ℕ → ℕ → Option (Result ℕ)
resumed fuel h none size = some (ok size)
resumed fuel h (some p) size = run_backward fuel h p size

run_backward_step :
    (fuel : ℕ) (h : Heap) (prev : Option ℕ) (a size : ℕ) (b : Block) (last : Bool)
    → h a ≡ header prev b last
    → size + header_size + b.size < 2 ^ 64
    → run_backward (suc fuel) h a size ≡ resumed fuel h prev (size + header_size + b.size)
unfolding run_backward
run_backward_step fuel h none a size b last e small =
    let sum : (size + (header_size + b.size)) % 2 ^ 64 ≡ size + header_size + b.size =
      omega arith in
    ground (arith, e, sum)
run_backward_step fuel h (some p) a size b last e small =
    let sum : (size + (header_size + b.size)) % 2 ^ 64 ≡ size + header_size + b.size =
      omega arith in
    ground (arith, e, sum)

run_backward-Row :
    (fuel : ℕ) (h : Heap) (prev : Option ℕ) (a size : ℕ) (b : Block) (bs : List Block)
    → Row h prev a (b ∷ bs)
    → size + total (b ∷ bs) < 2 ^ 64
    → run_backward (length bs + suc fuel) h (last_of a b bs) size
      ≡ resumed fuel h prev (size + total (b ∷ bs))
run_backward-Row fuel h prev a size b [] row small =
    ap (λ k. run_backward k h a size) {x = 0 + suc fuel} {y = suc fuel} (omega arith)
    ∙ run_backward_step fuel h prev a size b true row.0 (omega arith)
    ∙ ap (resumed fuel h prev) {x = size + header_size + b.size} {y = size + total (b ∷ [])}
        (omega arith)
run_backward-Row fuel h prev a size b (c ∷ cs) row small =
    ap (λ k. run_backward k h (last_of a b (c ∷ cs)) size) {x = length (c ∷ cs) + suc fuel}
      {y = length cs + suc (suc fuel)} (omega arith)
    ∙ run_backward-Row (suc fuel) h (some a) (behind a b) size c cs row.1 (omega arith)
    ∙ run_backward_step fuel h prev a (size + total (c ∷ cs)) b false row.0 (omega arith)
    ∙ ap (resumed fuel h prev) {x = size + total (c ∷ cs) + header_size + b.size}
        {y = size + total (b ∷ c ∷ cs)} (omega arith)

-- `salloc_fsck` ends on a row of blocks, with fuel for each of them, and accepts it exactly if it
-- takes the size that the heap is said to have; otherwise it answers EMSGSIZE.
pub fsck-Row :
    (h : Heap) (base size : ℕ) (b : Block) (bs : List Block)
    → Row h none base (b ∷ bs)
    → total (b ∷ bs) < 2 ^ 64
    → fsck (length (b ∷ bs)) h base size
      ≡ (if total (b ∷ bs) == size then some (ok tt) else some (err emsgsize))
unfolding fsck
fsck-Row h base size b bs row small =
    let n = length (b ∷ bs) in
    let there = run_forward-Row n h none base 0 b bs row (omega arith) (omega arith) in
    let back =
      ap (λ k. run_backward k h (last_of base b bs) 0) {x = n} {y = length bs + suc 0} (omega arith)
      ∙ run_backward-Row 0 h none base 0 b bs row (omega arith) in
    ground (arith, there, back)
