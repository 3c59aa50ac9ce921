-- ===== src/Tmpfs/Tests.antt =====
-- A file of four bytes, and a directory.
use grinch.Prelude.{
  ℕ, ◌+◌, ◌*◌, ◌/◌, ◌%◌, ◌<◌, ◌≡◌, refl, inl, inr, true, false, Option, none, some, [], ◌∷◌, arith,
  ◌==◌, if◌then◌else◌,
}
use grinch.Errno.{ok}
use grinch.Vma.{page_size, Mm, done}
use grinch.Prelude.Maps.{In}
use grinch.Uaccess.{Space, user_to_direct, user_to_direct_null, direct_at}
use grinch.Uaccess.Write.{AreMapped, AreMapped-Backs, view, IsInjective}
use grinch.Uaccess.Read.{Mapped}
use grinch.Tmpfs.{
  Entry, Handle, s_ifreg, s_ifdir, find_entry, find_create_entry, same_name, tmpfs_write,
  tmpfs_read,
}
use grinch.Tmpfs.Names.{IsCreated, find_create_entry_lem}
use grinch.Tmpfs.Write.{Keeps, IsResolved, tmpfs_write-Keeps}
use grinch.Tmpfs.Store.{tmpfs_read-tmpfs_write}

abbrev file : Entry
file = record { name = 102 ∷ []; mode = s_ifreg; raw = some (λ x. 65 + x); files = []; size = 4 }

abbrev handle : Handle
handle = record { is_kernel = false; position = 2 }

-- Each page is backed by the frame of its number.
abbrev space : Space
space = record { pages = λ p. some p; bytes = λ x. x % 256 }

space-IsInjective : IsInjective space
space-IsInjective p q frame e k = ground (arith, e, k)

abbrev mm : Mm
mm = record { page_table = 0; asid = 1; vmas = [] }

abbrev kmalloc : ℕ → Option (ℕ → ℕ)
kmalloc n = some (λ x. 0)

buffer-Mapped : Mapped space 8190 10
buffer-Mapped i p = (((8190 + i) / page_size * page_size + (8190 + i) % page_size) % 256, refl)

-- No page is backed on demand.
abbrev no_handler : Space → ℕ → Option Space
no_handler sp a = none

tmpfs_read-tmpfs_write_example :
    (h' : Handle) × (file' : Entry) × (sp' : Space) × (tmpfs_write kmalloc 10 handle file space mm
        8190 10
      ≡ done (h', file', ok 10))
    × (tmpfs_read no_handler 10 handle file' space 20000 10 ≡ done (h', sp', ok 10))
    × ((i : ℕ) → i < 10 → view sp' (20000 + i) ≡ view space (8190 + i))
tmpfs_read-tmpfs_write_example =
    tmpfs_read-tmpfs_write (AreMapped 20000 20010) kmalloc no_handler 10 handle file space mm 8190
      10 20000 (λ x. 0) (omega arith) (omega arith) (omega arith) (omega arith) refl refl
      buffer-Mapped refl (AreMapped-Backs no_handler 20000 20010)
      (λ a low high. (a / page_size, refl)) space-IsInjective

space-IsResolved : (a : ℕ) → IsResolved space mm a
unfolding user_to_direct_null user_to_direct
space-IsResolved a = (some (direct_at (a / page_size * page_size + a % page_size)), refl)

tmpfs_write-Keeps_example : Keeps file (tmpfs_write kmalloc 10 handle file space mm 8190 10)
tmpfs_write-Keeps_example =
    tmpfs_write-Keeps kmalloc 10 handle file space mm 8190 10 (omega arith)
      (λ a low high. space-IsResolved a) (omega arith) (omega arith)

-- The directory 0 with one file, 1, of the name `f`.
abbrev entries : ℕ → Entry
entries x =
    if x == 0
    then record { name = []; mode = s_ifdir; raw = none; files = 1 ∷ []; size = 0 }
    else file

nothing_found : find_entry entries (entries 0).files (103 ∷ []) ≡ none
unfolding find_entry same_name
nothing_found = refl

two_fresh : ¬ In 2 (entries 0).files
two_fresh (inl e) = omega (arith, e)
two_fresh (inr e) = e

find_create_entry_lem_example :
    IsCreated entries 0 2
      (103 ∷ [])
      false
      two_fresh
      (omega arith)
      (find_create_entry (some 2) true entries 0 (103 ∷ []) false true)
find_create_entry_lem_example =
    find_create_entry_lem entries 0 2 (103 ∷ []) false two_fresh (omega arith) nothing_found
