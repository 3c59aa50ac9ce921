-- ===== src/Asid.antt =====
-- mm/asid.c: the address space identifiers, in a bitmap. The heap, the architecture's count of
-- identifiers and its flush of the TLB are arguments.
pub mod Laws
mod Tests
use grinch.Prelude.{ℕ, ◌+◌, Option, none, some, leb, ◌==◌, if◌then◌else◌}
use grinch.Errno.{Result, ok, err, enomem}
use grinch.Vma.{Outcome, done, bug, short}
use grinch.Bitmap.{Words, find_next_zero_area, bitmap_set, bitmap_clear}

-- The static variables of the file.
pub record Asids : Type 0 where
  pub asid_bitmap : Option Words
  pub nr_asids : ℕ

-- `asid_init`, with `arch_nr_asids` and `bitmap_zalloc`
unfoldable pub asid_init : ℕ → (ℕ → Option Words) → Outcome (Asids × Result (Unit {0}))
asid_init nr bitmap_zalloc =
    if leb nr 1
    then done (record { asid_bitmap = none; nr_asids = nr }, ok tt)
    else elim (bitmap_zalloc nr) [
      | none ↦ done (record { asid_bitmap = none; nr_asids = nr }, err enomem)
      | some words ↦ elim (bitmap_set 2 words 0 1) [
        | none ↦ short
        | some words' ↦ done (record { asid_bitmap = some words'; nr_asids = nr }, ok tt)
      ]
    ]

-- `asid_alloc` where there is a bitmap
unfoldable pub alloc_in : Words → ℕ → Outcome (Asids × ℕ)
alloc_in words nr = elim (find_next_zero_area (nr + 1) words nr 0 1 0) [
  | none ↦ short
  | some asid ↦
      if leb nr asid
      then done (record { asid_bitmap = some words; nr_asids = nr }, 0)
      else elim (bitmap_set 2 words asid 1) [
        | none ↦ short
        | some words' ↦ done (record { asid_bitmap = some words'; nr_asids = nr }, asid)
      ]
]

-- `asid_alloc`
unfoldable pub asid_alloc : Asids → Outcome (Asids × ℕ)
unfolding alloc_in
asid_alloc a = elim a.asid_bitmap [ none ↦ done (a, 0) | some words ↦ alloc_in words a.nr_asids ]

-- `asid_free`, on the machine whose TLB is flushed; without a bitmap it uses `NULL`.
unfoldable pub asid_free : {S : Type 0} → (S → ℕ → S) → S → Asids → ℕ → Outcome (S × Asids)
asid_free flush_tlb_asid s a asid = if asid == 0 then done (s, a) else elim a.asid_bitmap [
  | none ↦ bug
  | some words ↦ elim (bitmap_clear 2 words asid 1) [
    | none ↦ short
    | some words' ↦ done (flush_tlb_asid s asid, record a { asid_bitmap = some words' })
  ]
]
