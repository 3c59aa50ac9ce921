-- ===== src/Uaccess.antt =====
-- kernel/uaccess.c: the kernel's access to the memory of a process, page by page. A frame is reached
-- under its physical address; the kernel's buffer is memory of its own.
pub mod Write
pub mod Read
pub mod Fill
pub mod Handler
mod Tests
use grinch.Prelude.{
  ℕ, zero, suc, ◌+◌, ◌-◌, ◌*◌, ◌/◌, ◌%◌, min, ◌&&◌, Option, none, some, ltb, leb, ◌==◌,
  if◌then◌else◌,
}
use grinch.Vma.{page_size, Mm, uvma_at, Outcome, done, bug, short}

-- The memory of a process: which frame backs a page, and the bytes of the frames.
pub record Space : Type 0 where
  pub pages : ℕ → Option ℕ
  pub bytes : ℕ → ℕ

-- `page_voffset`
abbrev pub page_voffset : ℕ → ℕ
page_voffset a = a % page_size

-- `page_bytes_left`
abbrev pub page_bytes_left : ℕ → ℕ
page_bytes_left a = page_size - page_voffset a

-- `user_to_direct`, with `paging_get_phys`. It leaves out `p2v` of the frame and the panic of `p2v`, for a
-- frame outside of all memory areas: the frame's bytes stand under its physical address.
unfoldable pub user_to_direct : Space → ℕ → Option ℕ
user_to_direct sp s = elim (sp.pages (s / page_size)) [
  | none ↦ none
  | some frame ↦ some (frame * page_size + page_voffset s)
]

-- What `memcpy` of `n` bytes at `src` of another memory leaves behind.
unfoldable pub blit : (ℕ → ℕ) → ℕ → (ℕ → ℕ) → ℕ → ℕ → ℕ → ℕ
blit mem dst from src n x = if leb dst x && ltb x (dst + n) then from (src + (x - dst)) else mem x

-- The handler of page faults, `process_handle_fault`: it may back a page.
module _ (fault : Space → ℕ → Option Space) where
  -- `user_to_direct_fault`
  unfoldable pub user_to_direct_fault : Space → ℕ → Space × Option ℕ
  unfolding user_to_direct
  user_to_direct_fault sp s = elim (user_to_direct sp s) [
    | some direct ↦ (sp, some direct)
    | none ↦ elim (fault sp s) [ none ↦ (sp, none) | some sp' ↦ (sp', user_to_direct sp' s) ]
  ]

  -- The loop of `copy_to_user`.
  unfoldable pub copy_to_from : ℕ → Space → ℕ → (ℕ → ℕ) → ℕ → ℕ → ℕ → Option (Space × ℕ)
  copy_to_from zero sp d from s n copied = if n == 0 then some (sp, copied) else none
  copy_to_from (suc fuel) sp d from s n copied =
      let (sp', direct) = user_to_direct_fault sp d in
      if n == 0 then some (sp, copied) else elim direct [
        | none ↦ some (sp', copied)
        | some at ↦
            let written = min (page_bytes_left at) n in
            copy_to_from fuel (record sp' { bytes = blit sp'.bytes at from s written })
              (d + written) from (s + written) (n - written) (copied + written)
      ]

  -- `copy_to_user`
  unfoldable pub copy_to_user : ℕ → Space → ℕ → (ℕ → ℕ) → ℕ → ℕ → Option (Space × ℕ)
  unfolding copy_to_from
  copy_to_user fuel sp d from s n = copy_to_from fuel sp d from s n 0

  -- The loop of `umemset`.
  unfoldable pub set_from : ℕ → Space → ℕ → ℕ → ℕ → ℕ → Option (Space × ℕ)
  set_from zero sp dst c n ret = if n == 0 then some (sp, ret) else none
  set_from (suc fuel) sp dst c n ret =
      let (sp', direct) = user_to_direct_fault sp dst in
      if n == 0 then some (sp, ret) else elim direct [
        | none ↦ some (sp', ret)
        | some at ↦
            let written = min n (page_bytes_left at) in
            set_from fuel (record sp' { bytes = blit sp'.bytes at (λ x. c) 0 written })
              (dst + written) c (n - written) (ret + written)
      ]

  -- `umemset`
  unfoldable pub umemset : ℕ → Space → ℕ → ℕ → ℕ → Option (Space × ℕ)
  unfolding set_from
  umemset fuel sp dst c n = set_from fuel sp dst (c % 256) n 0

-- `user_to_direct_null`: the byte's address, or the page of zeros.
pub data Direct : Type 0 where
  direct_at : ℕ → Direct
  zero_page : ℕ → Direct

unfoldable pub user_to_direct_null : Space → Mm → ℕ → Outcome (Option Direct)
unfolding user_to_direct
user_to_direct_null sp mm s = elim (user_to_direct sp s) [
  | some at ↦ done (some (direct_at at))
  | none ↦ elim (uvma_at mm s) [
    | bug ↦ bug
    | short ↦ short
    | done none ↦ done none
    | done (some vma) ↦ if vma.flags.lazy then done (some (zero_page (page_voffset s))) else bug
  ]
]

abbrev pub offset_of : Direct → ℕ
offset_of (direct_at at) = page_voffset at
offset_of (zero_page offset) = offset

-- The `memcpy` of `copy_from_user`.
abbrev pub fetch : Space → (ℕ → ℕ) → ℕ → Direct → ℕ → ℕ → ℕ
fetch sp to dst (direct_at at) n = blit to dst sp.bytes at n
fetch sp to dst (zero_page offset) n = blit to dst (λ x. 0) 0 n

-- The loop of `copy_from_user`.
unfoldable pub copy_from_from : ℕ → Space → Mm → (ℕ → ℕ) → ℕ → ℕ → ℕ → ℕ → Outcome ((ℕ → ℕ) × ℕ)
unfolding user_to_direct_null
copy_from_from zero sp mm to dst from n sum = if n == 0 then done (to, sum) else short
copy_from_from (suc fuel) sp mm to dst from n sum =
    if n == 0 then done (to, sum) else elim (user_to_direct_null sp mm from) [
      | bug ↦ bug
      | short ↦ short
      | done none ↦ done (to, sum)
      | done (some direct) ↦
          let written = min n (page_size - offset_of direct) in
          copy_from_from fuel sp mm (fetch sp to dst direct written) (dst + written)
            (from + written) (n - written) (sum + written)
    ]

-- `copy_from_user`
unfoldable pub copy_from_user : ℕ → Space → Mm → (ℕ → ℕ) → ℕ → ℕ → ℕ → Outcome ((ℕ → ℕ) × ℕ)
unfolding copy_from_from
copy_from_user fuel sp mm to dst from n = copy_from_from fuel sp mm to dst from n 0
