-- ===== src/Salloc.antt =====
-- common/src/salloc.c: the allocator behind the kernel's and the user's heap. A heap is a row of
-- chunks, each with a header in front of its data; a header points back to the one before.
-- Memory is modelled as the headers that stand at its addresses. A walk over the headers takes
-- fuel, and `none` stands for fuel that is short.
pub mod Fresh
pub mod Row
pub mod Place
pub mod Alloc
pub mod Merge
pub mod Release
pub mod Free
pub mod Realloc
pub mod LostMark
pub mod Check
mod Tests
use grinch.Prelude.{
  ℕ, zero, suc, ◌+◌, ◌-◌, ◌*◌, ◌/◌, ◌%◌, ◌^◌, Bool, true, false, not, ◌&&◌, ◌||◌, Option, none,
  some, ltb, ◌==◌, if◌then◌else◌,
}
use grinch.Prelude.Maps.{update}
use grinch.Errno.{◌>>=◌, Result, ok, err, einval, enomem, eagain, emsgsize}

-- `struct memchunk`, its flags as two bits
pub record Memchunk : Type 0 where
  pub canary1 : ℕ
  pub before : Option ℕ
  pub size : ℕ
  pub last : Bool
  pub used : Bool
  pub canary2 : ℕ

abbrev pub Heap : Type 0
Heap = ℕ → Memchunk

-- `sizeof(struct memchunk)`
abbrev pub header_size : ℕ
header_size = 32

abbrev pub canary_front : ℕ
canary_front = 3735928559

abbrev pub canary_back : ℕ
canary_back = 4027314187

-- `check_chunk`
abbrev pub check_chunk : Memchunk → Bool
check_chunk m = m.canary1 == canary_front && m.canary2 == canary_back

-- `set_chunk`
abbrev pub set_chunk : Option ℕ → ℕ → Bool → Memchunk
set_chunk before size last = record {
  canary1 = canary_front;
  before = before;
  size = size;
  last = last;
  used = false;
  canary2 = canary_back;
}

-- a header overwritten by `memset` with zeros
abbrev pub wiped : Memchunk
wiped = record { canary1 = 0; before = none; size = 0; last = false; used = false; canary2 = 0 }

-- `next_chunk`
abbrev pub next_chunk : Heap → ℕ → Option ℕ
next_chunk h this = if (h this).last then none else some (this + header_size + (h this).size)

-- `chunk_data`
abbrev pub chunk_data : ℕ → ℕ
chunk_data m = m + header_size

-- `ALIGN(size, 4)` on a `size_t`
abbrev pub align4 : ℕ → ℕ
align4 size = (size + 3) % 2 ^ 64 / 4 * 4

-- `salloc_init`
pub init : Heap → ℕ → ℕ → Heap × Result (Unit {0})
init h base size =
    if ltb size 1024
    then (h, err enomem)
    else (update h base (set_chunk none (size - header_size) true), ok tt)

-- The second half of a split, behind `size` bytes of the chunk `this`. The remaining size passes
-- through an `unsigned int`.
cut : Heap → ℕ → ℕ → Bool → Heap
cut h this size last =
    let other = chunk_data this + size in
    let remaining = ((h this).size - size - header_size) % 2 ^ 32 in
    let h' = update h other (set_chunk (some this) remaining last) in
    update h' this (record (h' this) { size = size; last = false })

-- The split of `salloc_alloc`, of a chunk that is marked used.
split : Heap → ℕ → ℕ → Heap × Result (Unit {0})
unfolding cut
split h this size = elim (next_chunk h this) [
  | none ↦ (cut h this size true, ok tt)
  | some tmp ↦
      if check_chunk (h tmp)
      then (
        cut (update h tmp (record (h tmp) { before = some (chunk_data this + size) })) this size
            false,
        ok tt,
      )
      else (h, err einval)
]

-- The chunk is taken, and split if it is larger than needed.
pub take_chunk : Heap → ℕ → ℕ → Heap × Result ℕ
unfolding split
take_chunk h this size =
    let h1 = update h this (record (h this) { used = true }) in
    let (h2, r) = split h1 this size in
    if ltb ((size + header_size) % 2 ^ 64) (h this).size
    then (h2, r >>= (λ _. ok (chunk_data this)))
    else (h1, ok (chunk_data this))

-- `*increase` where no chunk fits, at the last chunk
shortage : Memchunk → ℕ → ℕ
shortage m size = if m.used then (header_size + size) % 2 ^ 64 else size - m.size

-- The loop of `salloc_alloc`; the third component is what is written to `*increase`.
alloc_from : ℕ → Heap → ℕ → ℕ → Option (Heap × Result ℕ × Option ℕ)
unfolding take_chunk shortage
alloc_from zero h this size = none
alloc_from (suc fuel) h this size =
    let rest : Option (Heap × Result ℕ × Option ℕ) = elim (next_chunk h this) [
      | none ↦ some (h, err enomem, some (shortage (h this) size))
      | some tmp ↦ alloc_from fuel h tmp size
    ] in
    if not (check_chunk (h this))
    then some (h, err einval, none)
    else if (h this).used || ltb (h this).size size
    then rest
    else let (h', r) = take_chunk h this size in some (h', r, none)

-- `salloc_alloc`
pub alloc : ℕ → Heap → ℕ → ℕ → Option (Heap × Result ℕ × Option ℕ)
unfolding alloc_from
alloc fuel h base size = alloc_from fuel h base (align4 size)

-- The walk of `salloc_increase` to the last chunk.
last_chunk : ℕ → Heap → ℕ → Option (Result ℕ)
last_chunk zero h this = none
last_chunk (suc fuel) h this =
    let rest : Option (Result ℕ) = elim (next_chunk h this) [
      | none ↦ some (ok this)
      | some next ↦ last_chunk fuel h next
    ] in
    if check_chunk (h this) then rest else some (err einval)

-- What `salloc_increase` does at the last chunk.
grow : Heap → ℕ → ℕ → Heap
grow h this increase =
    let m = h this in
    let h1 = update h this (record m { last = false }) in
    let next = set_chunk (some this) ((increase + 2 ^ 64 - header_size) % 2 ^ 64) true in
    if m.used
    then update h1 (this + header_size + m.size) next
    else update h this (record m { size = (m.size + increase) % 2 ^ 64 })

-- `salloc_increase`
pub increase : ℕ → Heap → ℕ → ℕ → Option (Heap × Result (Unit {0}))
unfolding last_chunk grow
increase fuel h base n = elim (last_chunk fuel h base) [
  | none ↦ none
  | some (err e) ↦ some (h, err e)
  | some (ok this) ↦ some (grow h this n, ok tt)
]

-- `m` takes in the free chunk `after`.
absorb : Heap → ℕ → ℕ → Heap
absorb h m after =
    let a = h after in
    let grown = record (h m) {
      size = ((h m).size + (header_size + a.size)) % 2 ^ 64;
      last = a.last;
      used = a.used;
    } in
    update (update h m grown) after wiped

-- The second half of `salloc_free`: a free chunk behind `m` is merged into it.
pub merge_after : Heap → ℕ → Option ℕ → Heap × Result (Unit {0})
unfolding absorb
merge_after h m none = (h, ok tt)
merge_after h m (some after) = if (h after).used then (h, ok tt) else elim (next_chunk h after) [
  | none ↦ (absorb h m after, ok tt)
  | some tmp ↦
      if check_chunk (h tmp)
      then (absorb (update h tmp (record (h tmp) { before = some m })) m after, ok tt)
      else (h, err einval)
]

-- `after->before = before`
relink : Heap → Option ℕ → ℕ → Heap
relink h none before = h
relink h (some after) before = update h after (record (h after) { before = some before })

-- A free chunk before `m` takes `m` in.
pub merge_before : Heap → ℕ → ℕ → Option ℕ → Heap × Result (Unit {0})
unfolding merge_after relink
merge_before h before m after =
    if (h before).used
    then merge_after h m after
    else let grown = record (h before) {
      size = ((h before).size + (header_size + (h m).size)) % 2 ^ 64;
    } in
      let h1 = relink (update h before grown) after before in
      merge_after (update h1 m wiped) before after

-- `salloc_free` of a used chunk, once it is marked free
pub release : Heap → ℕ → Heap × Result (Unit {0})
unfolding merge_before merge_after
release h m =
    let after = next_chunk h m in
    let whole : Bool = elim after [ none ↦ true | some a ↦ check_chunk (h a) ] in
    if not whole then (h, err einval) else elim (h m).before [
      | none ↦ merge_after h m after
      | some before ↦
          if check_chunk (h before) then merge_before h before m after else (h, err einval)
    ]

-- `salloc_free` of the data at `ptr`
pub free : Heap → ℕ → Heap × Result (Unit {0})
unfolding release
free h ptr =
    let m = ptr - header_size in
    if not (check_chunk (h m))
    then (h, err einval)
    else if not (h m).used
    then (h, err eagain)
    else release (update h m (record (h m) { used = false })) m

-- The forward run of `salloc_fsck`: the total size, and the last chunk.
pub run_forward : ℕ → Heap → ℕ → ℕ → Option (Result (ℕ × ℕ))
run_forward zero h this size = none
run_forward (suc fuel) h this size =
    let size' = (size + (header_size + (h this).size)) % 2 ^ 64 in
    let rest = run_forward fuel h (this + header_size + (h this).size) size' in
    if not (check_chunk (h this))
    then some (err einval)
    else if (h this).last
    then some (ok (size', this))
    else rest

-- The backward run.
run_backward : ℕ → Heap → ℕ → ℕ → Option (Result ℕ)
run_backward zero h this size = none
run_backward (suc fuel) h this size =
    let size' = (size + (header_size + (h this).size)) % 2 ^ 64 in
    let rest : Option (Result ℕ) = elim (h this).before [
      | none ↦ some (ok size')
      | some before ↦ run_backward fuel h before size'
    ] in
    if check_chunk (h this) then rest else some (err einval)

-- `salloc_fsck`
pub fsck : ℕ → Heap → ℕ → ℕ → Option (Result (Unit {0}))
unfolding run_forward run_backward
fsck fuel h base total = elim (run_forward fuel h base 0) [
  | none ↦ none
  | some (err e) ↦ some (err e)
  | some (ok (size, last)) ↦
      if size == total
      then elim (run_backward fuel h last 0) [
        | none ↦ none
        | some (err e) ↦ some (err e)
        | some (ok back) ↦ if back == total then some (ok tt) else some (err emsgsize)
      ]
      else some (err emsgsize)
]
