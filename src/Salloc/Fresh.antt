-- ===== src/Salloc/Fresh.antt =====
-- The allocator on a heap that `salloc_init` has just made.
use mathlib.Core.Path.{fun_ext}
use grinch.Prelude.{
  ℕ, ◌+◌, ◌-◌, ◌%◌, ◌^◌, ◌≤◌, ◌<◌, ◌≡◌, ap, ◌∙◌, ◌⊎◌, true, false, none, some, arith,
}
use grinch.Prelude.Maps.{update}
use grinch.Errno.{ok, err, enomem}
use grinch.Salloc.{
  Heap, header_size, set_chunk, align4, init, alloc, alloc_from, take_chunk, split, cut, shortage,
  increase, last_chunk, grow, free, fsck, release, merge_after, absorb, run_forward, run_backward,
}

-- One free chunk fills the heap.
abbrev pub fresh : Heap → ℕ → ℕ → Heap
fresh h base size = update h base (set_chunk none (size - header_size) true)

-- `salloc_init` of a block of `size` bytes refuses less than 1024 bytes, and else makes a heap that
-- `salloc_fsck` accepts.
pub init-fsck :
    (h : Heap) (base size : ℕ)
    → size < 2 ^ 64
    → (size < 1024) × (init h base size ≡ (h, err enomem))
      ⊎ (1024 ≤ size)
        × (init h base size ≡ (fresh h base size, ok tt))
        × (fsck 1 (fresh h base size) base size ≡ some (ok tt))
unfolding init fsck run_forward run_backward update
init-fsck h base size small = ground arith

-- The fresh heap after a request of `n` bytes: a used chunk and a free one.
abbrev pub served : Heap → ℕ → ℕ → ℕ → Heap
served h base size n =
    let used = record (set_chunk none n false) { used = true } in
    update
      (update h (base + header_size + n)
        (set_chunk (some base) (size - header_size - n - header_size) true))
      base used

align4-aligned : (n : ℕ) → n % 4 ≡ 0 → n < 2 ^ 32 → align4 n ≡ n
align4-aligned n e h = omega arith

taken : Heap → ℕ → ℕ → ℕ → Heap
unfolding take_chunk
taken h base size n = (take_chunk (fresh h base size) base n).0

taken-served :
    (h : Heap) (base size n x : ℕ)
    → size < 2 ^ 32
    → n + 64 < size
    → taken h base size n x ≡ served h base size n x
unfolding taken take_chunk split cut update
taken-served h base size n x small fits = ground arith

pointer-take_chunk :
    (h : Heap) (base size n : ℕ)
    → (take_chunk (fresh h base size) base n).1 ≡ ok (base + header_size)
unfolding take_chunk split update
pointer-take_chunk h base size n = ground arith

alloc-taken :
    (h : Heap) (base size n : ℕ)
    → size < 2 ^ 32
    → n % 4 ≡ 0
    → n + 64 < size
    → alloc 1 (fresh h base size) base n ≡ some (taken h base size n, ok (base + header_size), none)
unfolding alloc alloc_from taken update
alloc-taken h base size n small aligned fits =
    let a = align4-aligned n aligned (omega arith) in
    let p = pointer-take_chunk h base size n in rw a (ground (arith, p))

fsck-served :
    (h : Heap) (base size n : ℕ)
    → size < 2 ^ 32
    → n + 64 < size
    → fsck 2 (served h base size n) base size ≡ some (ok tt)
unfolding fsck run_forward run_backward update
fsck-served h base size n small fits = ground arith

-- The free chunk behind is merged back.
free-served :
    (h : Heap) (base size n : ℕ)
    → size < 2 ^ 32
    → n + 64 < size
    → ((free (served h base size n) (base + header_size)).1 ≡ ok tt)
      × ((free (served h base size n) (base + header_size)).0 base ≡ fresh h base size base)
unfolding free release merge_after absorb update
free-served h base size n small fits = (ground arith, ground arith)

fsck-whole :
    (q h : Heap) (base size : ℕ)
    → 1024 ≤ size
    → size < 2 ^ 64
    → q base ≡ fresh h base size base
    → fsck 1 q base size ≡ some (ok tt)
unfolding fsck run_forward run_backward update
fsck-whole q h base size big small e = ground arith

-- A request that fits into a fresh heap is served from its start, and the data given back later
-- leave the one free chunk that was there before; `salloc_fsck` accepts the heap in between and
-- afterwards.
pub alloc-free :
    (h : Heap) (base size n : ℕ)
    → size < 2 ^ 32
    → n % 4 ≡ 0
    → 1024 + n ≤ size
    → (r : Heap) × (alloc 1 (fresh h base size) base n ≡ some (r, ok (base + header_size), none))
      × (fsck 2 r base size ≡ some (ok tt))
      × ((free r (base + header_size)).1 ≡ ok tt)
      × ((free r (base + header_size)).0 base ≡ fresh h base size base)
      × (fsck 1 (free r (base + header_size)).0 base size ≡ some (ok tt))
alloc-free h base size n small aligned fits =
    let r = served h base size n in
    let same : taken h base size n ≡ r =
      fun_ext (λ x. taken-served h base size n x small (omega arith)) in
    let (freed, whole) = free-served h base size n small (omega arith) in
    (
      r,
      alloc-taken h base size n small aligned (omega arith)
          ∙ ap (λ k. some (k, ok (base + header_size), none)) same,
      fsck-served h base size n small (omega arith),
      freed,
      whole,
      fsck-whole (free r (base + header_size)).0 h base size (omega arith) (omega arith) whole,
    )

-- The heap that is made larger by what the request lacks.
abbrev pub larger : Heap → ℕ → ℕ → Heap
larger h base n = update h base (set_chunk none n true)

alloc-larger :
    (h : Heap) (base n : ℕ)
    → n < 2 ^ 32
    → n % 4 ≡ 0
    → (r : Heap) × (alloc 1 (larger h base n) base n ≡ some (r, ok (base + header_size), none))
unfolding alloc alloc_from take_chunk update
alloc-larger h base n small aligned =
    let a = align4-aligned n aligned small in
    ((take_chunk (larger h base n) base n).0, rw a (ground arith))

increase-fresh :
    (h : Heap) (base size n : ℕ)
    → 1024 ≤ size
    → n < 2 ^ 32
    → size < n + header_size
    → (q : Heap) × (increase 1 (fresh h base size) base (n - (size - header_size))
        ≡ some (q, ok tt))
      × ((x : ℕ) → q x ≡ larger h base n x)
unfolding increase last_chunk grow update
increase-fresh h base size n big small short =
    (grow (fresh h base size) base (n - (size - header_size)), ground arith, λ x. ground arith)

refused-fresh :
    (h : Heap) (base size n : ℕ)
    → 1024 ≤ size
    → n < 2 ^ 32
    → n % 4 ≡ 0
    → size < n + header_size
    → alloc 1 (fresh h base size) base n
      ≡ some (fresh h base size, err enomem, some (n - (size - header_size)))
unfolding alloc alloc_from shortage update
refused-fresh h base size n big small aligned short =
    let a = align4-aligned n aligned small in rw a (ground arith)

-- A request that does not fit into a fresh heap is refused with ENOMEM and the number of bytes that
-- are missing, and is served once `salloc_increase` has added them.
pub alloc-increase :
    (h : Heap) (base size n : ℕ)
    → 1024 ≤ size
    → n < 2 ^ 32
    → n % 4 ≡ 0
    → size < n + header_size
    → (missing : ℕ) × (q : Heap) × (r : Heap) × (alloc 1 (fresh h base size) base n
        ≡ some (fresh h base size, err enomem, some missing))
      × (increase 1 (fresh h base size) base missing ≡ some (q, ok tt))
      × (alloc 1 q base n ≡ some (r, ok (base + header_size), none))
alloc-increase h base size n big small aligned short =
    let (q, done, at) = increase-fresh h base size n big small short in
    let (r, served_now) = alloc-larger h base n small aligned in
    (
      n - (size - header_size),
      q,
      r,
      refused-fresh h base size n big small aligned short,
      done,
      ap (λ k. alloc 1 k base n) (fun_ext at) ∙ served_now,
    )
