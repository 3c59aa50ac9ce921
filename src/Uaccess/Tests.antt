-- ===== src/Uaccess/Tests.antt =====
-- A process without pages, whose pages are backed on demand.
use grinch.Prelude.{ℕ, ◌+◌, ◌-◌, ◌%◌, ◌≤◌, ◌<◌, ◌≡◌, ◌⊎◌, none, some, [], arith}
use grinch.Vma.{Mm, done}
use grinch.Uaccess.{Space, copy_to_user, copy_from_user, umemset}
use grinch.Uaccess.Write.{view, IsInjective, copy_to_user_lem}
use grinch.Uaccess.Handler.{IsKept, handler, handler-Backs}
use grinch.Uaccess.Read.{copy_to_user-copy_from_user}
use grinch.Uaccess.Fill.{umemset-copy_to_user}

abbrev empty : Space
empty = record { pages = λ p. none; bytes = λ x. 0 }

empty-IsInjective : IsInjective empty
empty-IsInjective p q frame e f = absurd (ground (arith, e))

empty-IsKept : IsKept empty.pages
empty-IsKept p f e high = absurd (ground (arith, e))

-- The buffer of the kernel that is copied.
abbrev buffer : ℕ → ℕ
buffer x = x % 256

abbrev mm : Mm
mm = record { page_table = 0; asid = 1; vmas = [] }

copy_to_user_lem_example :
    (sp' : Space) × (copy_to_user handler 8000 empty 8190 buffer 100 8000 ≡ some (sp', 8000))
    × IsInjective sp'
    × ((a : ℕ) → 8190 ≤ a → a < 8190 + 8000 → view sp' a ≡ some (buffer (100 + (a - 8190))))
    × ((a v : ℕ) → view empty a ≡ some v → (a < 8190) ⊎ (8190 + 8000 ≤ a) → view sp' a ≡ some v)
copy_to_user_lem_example =
    copy_to_user_lem IsKept handler 8000 empty 8190 buffer 100 8000 (handler-Backs 8190 16190)
      empty-IsKept empty-IsInjective (omega arith)

copy_to_user-copy_from_user_example :
    (sp' : Space) × (to' : ℕ → ℕ) × (copy_to_user handler 8000 empty 8190 buffer 100 8000
      ≡ some (sp', 8000))
    × (copy_from_user 8000 sp' mm (λ x. 7) 0 8190 8000 ≡ done (to', 8000))
    × ((i : ℕ) → i < 8000 → to' (0 + i) ≡ buffer (100 + i))
    × ((x : ℕ) → (x < 0) ⊎ (0 + 8000 ≤ x) → to' x ≡ 7)
copy_to_user-copy_from_user_example =
    copy_to_user-copy_from_user IsKept handler 8000 empty mm 8190 buffer 100 8000 (λ x. 7) 0
      (handler-Backs 8190 16190) empty-IsKept empty-IsInjective (omega arith)

umemset-copy_to_user_example :
    umemset handler 5000 empty 8190 0 5000 ≡ copy_to_user handler 5000 empty 8190 (λ x. 0) 0 5000
umemset-copy_to_user_example = umemset-copy_to_user handler 5000 empty 8190 0 5000
