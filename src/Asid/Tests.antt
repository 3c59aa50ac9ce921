-- ===== src/Asid/Tests.antt =====
-- Four identifiers.
use grinch.Prelude.{ℕ, ◌+◌, ◌≡◌, refl, some, arith}
use grinch.Vma.{done}
use grinch.Prelude.Digits.{bit}
use grinch.Bitmap.{Words}
use grinch.Asid.{Asids, asid_alloc, asid_free}
use grinch.Asid.Laws.{IsReserved, Alloc, IsFreed, asid_alloc_lem, asid_free_lem}

-- 0 and 1 are in use.
abbrev words : Words
words k = 3

words-IsReserved : IsReserved words 4
unfolding bit
words-IsReserved = record { ok_words = λ k. omega arith; small = omega arith; zero_used = refl }

asid_alloc_lem_example :
    (a' : Asids) × (asid : ℕ) × (asid_alloc (record { asid_bitmap = some words; nr_asids = 4 })
      ≡ done (a', asid))
    × Alloc words 4 a' asid
asid_alloc_lem_example = asid_alloc_lem words 4 words-IsReserved

asid_free_lem_example :
    (words' : Words) × (asid_free
        (λ s asid. s + asid)
        5
        (record { asid_bitmap = some words; nr_asids = 4 })
        1
      ≡ done (6, record { asid_bitmap = some words'; nr_asids = 4 }))
    × IsFreed words 4 1 words'
asid_free_lem_example =
    asid_free_lem (λ s asid. s + asid) 5 words 4 1 words-IsReserved (λ e. absurd (omega (arith, e)))
      (omega arith)
