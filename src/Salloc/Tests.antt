-- ===== src/Salloc/Tests.antt =====
-- The allocator on a heap of 2048 bytes at the address 4096.
use grinch.Prelude.{
  ℕ, ◌≤◌, ◌≡◌, refl, ◌⊎◌, none, some, arith, ◌+◌, min, ◌≢◌, inl, true, false, Option, List, [], ◌∷◌,
  ◌==◌, if◌then◌else◌,
}
use grinch.Prelude.Maps.{update}
use grinch.Errno.{ok, err, enomem, eagain, einval}
use grinch.Salloc.{Heap, wiped, alloc, free, fsck, next_chunk}
use grinch.Salloc.Fresh.{fresh}
use grinch.Salloc.Row.{Block, Row, header, is_nil, behind}
use grinch.Salloc.Alloc.{Holds, Served, NoRoom, IsFirstFit, alloc_lem}
use grinch.Salloc.Place.{missing}
use grinch.Salloc.Free.{free_lem}
use grinch.Salloc.LostMark.{free_last_lem}
use grinch.Salloc.Realloc.{realloc, realloc_leaks}

abbrev nothing : Heap
nothing a = wiped

free_twice : (free (fresh nothing 4096 2048) 4128).1 ≡ err eagain
unfolding free update
free_twice = refl

-- A heap in which the blocks stand from `a` on.
abbrev laid : Option ℕ → ℕ → List Block → Heap
laid prev a [] x = wiped
laid prev a (b ∷ bs) x =
    if x == a then header prev b (is_nil bs) else laid (some a) (behind a b) bs x

abbrev first : Block
first = record { size = 100; used = true }

abbrev gap : Block
gap = record { size = 200; used = false }

abbrev top : Block
top = record { size = 64; used = true }

abbrev three : Heap
three = laid none 4096 (first ∷ gap ∷ top ∷ [])

three-Row : Row three none 4096 (first ∷ gap ∷ top ∷ [])
three-Row = (refl, (refl, (refl, tt)))

alloc_lem_example :
    ((r : Heap) × (alloc 3 three 4096 50
        ≡ some (r, err enomem, some (missing 52 first (gap ∷ top ∷ []))))
      × Row r none 4096 (first ∷ gap ∷ top ∷ [])
      × NoRoom 52 (first ∷ gap ∷ top ∷ []))
    ⊎ ((r : Heap) × (p : ℕ) × (bs' : List Block) × (alloc 3 three 4096 50 ≡ some (r, ok p, none))
        × Row r none 4096 bs'
        × Served 52 4096 p (first ∷ gap ∷ top ∷ []) bs'
        × IsFirstFit 52 4096 p (first ∷ gap ∷ top ∷ []))
alloc_lem_example =
    alloc_lem 3 three 4096 50 first (gap ∷ top ∷ []) three-Row (omega arith) (omega arith)
      (omega arith)

free_lem_example :
    (r : Heap) × (free three 4128 ≡ (r, ok tt))
    × Row r none 4096 (record { size = 332; used = false } ∷ top ∷ [])
    × (◌≡◌ {A = ℕ} 460 460)
    × ((q s : ℕ)
        → q ≢ 4128
        → Holds q s 4096 (first ∷ gap ∷ top ∷ [])
        → Holds q s 4096 (record { size = 332; used = false } ∷ top ∷ []))
free_lem_example = free_lem three 4096 [] first (gap ∷ top ∷ []) three-Row refl (omega arith) refl

free_last_lem_example :
    (r : Heap) × (free three 4492 ≡ (r, ok tt))
    × (next_chunk r 4228 ≡ some 4556)
    × (fsck 3 r 4096 460 ≡ some (err einval))
free_last_lem_example =
    free_last_lem three 4096 3 460 (first ∷ []) gap top three-Row refl refl (omega arith) refl
      (omega arith)

realloc_leaks_example :
    ((r : Heap) × (lack : ℕ) × (realloc 3 three 4096 (some 4128) 150
        ≡ some (r, err enomem, some lack))
      × Row r none 4096 (first ∷ gap ∷ top ∷ []))
    ⊎ ((r : Heap) × (p : ℕ) × (t : ℕ) × (bs' : List Block) × (realloc 3 three 4096 (some 4128) 150
          ≡ some (r, ok (p, min 100 t), none))
        × Row r none 4096 bs'
        × (150 ≤ t)
        × Holds p t 4096 bs'
        × Holds 4128 100 4096 bs'
        × ((4128 + 100 ≤ p) ⊎ (p + t ≤ 4128)))
realloc_leaks_example =
    realloc_leaks 3 three 4096 4128 100 150 first (gap ∷ top ∷ []) three-Row
      (inl (refl, refl, refl)) (omega arith) (omega arith) (omega arith)
