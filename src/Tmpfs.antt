-- ===== src/Tmpfs.antt =====
-- fs/tmpfs.c: files in the kernel's heap. An entry is known by its address; of the union `content`,
-- the field `raw` is of a file and the field `files` of a directory. Each function is one step, as
-- the lock of the entry serialises it. The heap is an argument: `kmalloc` answers the block as it
-- finds it, `kzalloc` the address of the new entry and `kstrdup` whether it has room.
pub mod Names
pub mod Write
pub mod Store
mod Tests
use grinch.Prelude.{
  ℕ, ◌+◌, ◌-◌, ◌%◌, ◌^◌, min, Bool, true, false, not, ◌&&◌, Option, none, some, List, [], ◌∷◌, ltb,
  leb, ◌==◌, if◌then◌else◌,
}
use grinch.Prelude.Maps.{update}
use grinch.Errno.{Result, ok, err, enoent, enomem, eexist, ebadf, efbig, enosys, efault}
use grinch.Vma.{Mm, Outcome, done, bug, short}
use grinch.Uaccess.{Space, blit, copy_to_user, copy_from_user}

-- S_IFDIR and S_IFREG
pub data Mode : Type 0 where
  s_ifdir s_ifreg : Mode

abbrev pub is_dir : Mode → Bool
is_dir s_ifdir = true
is_dir s_ifreg = false

-- `struct tmpfs_entry`
pub record Entry : Type 0 where
  pub name : List ℕ
  pub mode : Mode
  pub raw : Option (ℕ → ℕ)
  pub files : List ℕ
  pub size : ℕ

-- `struct file_handle`: the position and the flag of the kernel's own handles
pub record Handle : Type 0 where
  pub is_kernel : Bool
  pub position : ℕ

-- The end of `tmpfs_read`, where the file has content.
unfoldable pub read_raw :
    (Space → ℕ → Option Space)
    → ℕ
    → Handle
    → Entry
    → (ℕ → ℕ)
    → Space
    → ℕ
    → ℕ
    → Outcome (Handle × Space × Result ℕ)
read_raw fault fuel h file raw sp ubuf count =
    if ltb file.size h.position
    then bug
    else elim (copy_to_user fault fuel sp ubuf raw h.position
        (min count (file.size - h.position))) [
          | none ↦ short
          | some (sp', ret) ↦ done (record h { position = h.position + ret }, sp', ok ret)
        ]

-- `tmpfs_read`
unfoldable pub tmpfs_read :
    (Space → ℕ → Option Space)
    → ℕ
    → Handle
    → Entry
    → Space
    → ℕ
    → ℕ
    → Outcome (Handle × Space × Result ℕ)
unfolding read_raw
tmpfs_read fault fuel h file sp ubuf count =
    if leb (2 ^ 63) count
    then done (h, sp, err efbig)
    else if h.is_kernel
    then done (h, sp, err enosys)
    else if is_dir file.mode
    then done (h, sp, err ebadf)
    else elim file.raw [
      | none ↦ done (h, sp, ok 0)
      | some raw ↦ read_raw fault fuel h file raw sp ubuf count
    ]

-- The bytes of a file. `NULL` reads as zeros here, where the code would copy from it; it copies
-- none while the position is within the file, since a file without content has the size 0.
abbrev pub bytes_of : Option (ℕ → ℕ) → ℕ → ℕ
bytes_of none x = 0
bytes_of (some raw) x = raw x

-- `memcpy` of the first `offset` bytes into the new block of `tmpfs_write`
abbrev pub grown : (ℕ → ℕ) → Entry → ℕ → ℕ → Entry
grown block file offset count = record file {
  raw = some (blit block 0 (bytes_of file.raw) 0 offset);
  size = (offset + count) % 2 ^ 32;
}

-- `tmpfs_write` from the call of `copy_from_user` on, on the file with room for the bytes
unfoldable pub write_raw :
    ℕ → Handle → Entry → Space → Mm → ℕ → ℕ → Outcome (Handle × Entry × Result ℕ)
write_raw fuel h file sp mm buf count =
    elim (copy_from_user fuel sp mm (bytes_of file.raw) h.position buf count) [
      | bug ↦ bug
      | short ↦ short
      | done (raw', copied) ↦
          let h' = record h { position = h.position + copied } in
          if count == copied
          then done (h', record file { raw = some raw' }, ok copied)
          else done (
            h',
            record file {
              raw = some (blit raw' (h.position + copied) (λ x. 0) 0 (count - copied));
            },
            err efault,
          )
    ]

-- `tmpfs_write`
unfoldable pub tmpfs_write :
    (ℕ → Option (ℕ → ℕ))
    → ℕ
    → Handle
    → Entry
    → Space
    → Mm
    → ℕ
    → ℕ
    → Outcome (Handle × Entry × Result ℕ)
unfolding write_raw
tmpfs_write kmalloc fuel h file sp mm buf count =
    if count == 0
    then done (h, file, ok 0)
    else if leb (2 ^ 63) count
    then done (h, file, err efbig)
    else if h.is_kernel
    then done (h, file, err enosys)
    else if is_dir file.mode
    then done (h, file, err ebadf)
    else if ltb file.size ((h.position + count) % 2 ^ 64)
    then elim (kmalloc ((h.position + count) % 2 ^ 64)) [
      | none ↦ done (h, file, err enomem)
      | some block ↦ write_raw fuel h (grown block file h.position count) sp mm buf count
    ]
    else write_raw fuel h file sp mm buf count

-- `strcmp` finds no difference.
pub same_name : List ℕ → List ℕ → Bool
same_name [] [] = true
same_name (a ∷ rest) (b ∷ rest') = (a == b) && same_name rest rest'
same_name [] (b ∷ rest) = false
same_name (a ∷ rest) [] = false

-- The loop of `find_create_entry`.
unfoldable pub find_entry : (ℕ → Entry) → List ℕ → List ℕ → Option ℕ
find_entry entries [] path = none
find_entry entries (entry ∷ rest) path =
    let later = find_entry entries rest path in
    if same_name (entries entry).name path then some entry else later

-- The new entry of `find_create_entry`.
abbrev pub new_entry : Bool → List ℕ → Entry
new_entry directory path = record {
  name = path;
  mode = if directory then s_ifdir else s_ifreg;
  raw = none;
  files = [];
  size = 0;
}

-- `find_create_entry`, with the flags TMPFS_DIR and TMPFS_CREATE
unfoldable pub find_create_entry :
    Option ℕ → Bool → (ℕ → Entry) → ℕ → List ℕ → Bool → Bool → (ℕ → Entry) × Result ℕ
unfolding find_entry
find_create_entry kzalloc kstrdup entries dir path directory create =
    elim (find_entry entries (entries dir).files path) [
      | some entry ↦ if directory && create then (entries, err eexist) else (entries, ok entry)
      | none ↦ if not create then (entries, err enoent) else elim kzalloc [
        | none ↦ (entries, err enomem)
        | some entry ↦ if not kstrdup then (entries, err enomem) else (
          update (update entries entry (new_entry directory path)) dir
              (record (entries dir) { files = entry ∷ (entries dir).files }),
          ok entry,
        )
      ]
    ]

-- `tmpfs_create`, `tmpfs_mkdir` and `tmpfs_open`, by `tmpfs_lookup_entry`
unfoldable pub tmpfs_create : Option ℕ → Bool → (ℕ → Entry) → ℕ → List ℕ → (ℕ → Entry) × Result ℕ
unfolding find_create_entry
tmpfs_create kzalloc kstrdup entries dir name =
    find_create_entry kzalloc kstrdup entries dir name false true

unfoldable pub tmpfs_mkdir : Option ℕ → Bool → (ℕ → Entry) → ℕ → List ℕ → (ℕ → Entry) × Result ℕ
unfolding find_create_entry
tmpfs_mkdir kzalloc kstrdup entries dir name =
    find_create_entry kzalloc kstrdup entries dir name true true

unfoldable pub tmpfs_open : (ℕ → Entry) → ℕ → List ℕ → Result ℕ
unfolding find_create_entry
tmpfs_open entries dir name = (find_create_entry none false entries dir name false false).1

-- `tmpfs_new`: the directory at the root
pub tmpfs_new : Entry
tmpfs_new = new_entry true []
