-- ===== src/Vma/Brk.antt =====
-- kernel/process.c: the system call `brk`, with the lock of the task, and `process_handle_fault`.
use grinch.Prelude.{
  ℕ, ◌-◌, ◌%◌, Bool, true, false, not, Option, none, some, List, [], ◌∷◌, ltb, ◌==◌, if◌then◌else◌,
}
use grinch.Errno.{Result, ok, err, einval, enoent}
use grinch.Vma.{Outcome, done, bug, short, Flags, Vma, Mm, Machine, page_size, plus, uvma_at}
use grinch.Vma.Area.{uvma_create, uvma_resize, uvma_handle_fault}

-- The part of `struct task` that `brk` uses; `brk_vma` is the base of the VMA that `brk.vma` points
-- to.
pub record Process : Type 0 where
  pub locked : Bool
  pub mm : Mm
  pub brk_base : ℕ
  pub brk_vma : Option ℕ

-- The VMA that a pointer stands for.
unfoldable pub pointee : ℕ → List Vma → Option Vma
pointee base [] = none
pointee base (vma ∷ vmas) = if vma.base == base then some vma else pointee base vmas

-- VMA_FLAG_USER | VMA_FLAG_RW | VMA_FLAG_LAZY
abbrev pub heap_flags : Flags
heap_flags = record { lazy = true; user = true; readable = true; writable = true; runnable = false }

-- The report of the break, from `report_out` on: the lock is released.
unfoldable pub report_break : {S : Type 0} → S → Process → Outcome (S × Process × Result ℕ)
unfolding pointee
report_break s p =
    let p' = record p { locked = false } in
    elim p.brk_vma [
      | none ↦ done (s, p', ok (plus p.brk_base 0))
      | some at ↦ elim (pointee at p.mm.vmas) [
        | none ↦ bug
        | some vma ↦ done (s, p', ok (plus p.brk_base vma.size))
      ]
    ]

module _ {S : Type 0} (m : Machine S) (heap_name : ℕ) where
  -- There is no heap yet.
  unfoldable pub first_break : S → Process → ℕ → Outcome (S × Process × Result ℕ)
  first_break s p size = elim (uvma_create m s p.mm p.brk_base size heap_flags (some heap_name)) [
    | bug ↦ bug
    | short ↦ short
    | done (s1, mm, err e) ↦ done (s1, record p { locked = false; mm = mm }, err e)
    | done (s1, mm, ok vma) ↦ report_break s1 (record p { mm = mm; brk_vma = some vma.base })
  ]

  unfoldable pub next_break : ℕ → S → Process → Vma → ℕ → Outcome (S × Process × Result ℕ)
  next_break fuel s p vma size = elim (uvma_resize m fuel s p.mm vma size) [
    | bug ↦ bug
    | short ↦ short
    | done (s1, mm, err e) ↦ done (s1, record p { locked = false; mm = mm }, err e)
    | done (s1, mm, ok u) ↦ report_break s1 (record p { mm = mm })
  ]

  -- The system call `brk`. A lock that is held is waited for without end.
  unfoldable pub brk : ℕ → S → Process → ℕ → Outcome (S × Process × Result ℕ)
  brk fuel s p addr =
      let held = record p { locked = true } in
      let size = addr - p.brk_base in
      if p.locked
      then short
      else if addr == 0
      then report_break s held
      else if not (addr % page_size == 0)
      then done (s, held, err einval)
      else if ltb addr p.brk_base
      then done (s, p, err einval)
      else if size == 0
      then done (s, p, err einval)
      else elim p.brk_vma [
        | none ↦ first_break s held size
        | some at ↦ elim (pointee at p.mm.vmas) [
          | none ↦ bug
          | some vma ↦ next_break fuel s held vma size
        ]
      ]

  -- `process_handle_fault`
  unfoldable pub process_handle_fault : S → Mm → ℕ → Outcome (S × Result (Unit {0}))
  unfolding uvma_at uvma_handle_fault
  process_handle_fault s mm addr = elim (uvma_at mm addr) [
    | bug ↦ bug
    | short ↦ short
    | done none ↦ done (s, err enoent)
    | done (some vma) ↦ uvma_handle_fault m s mm vma addr
  ]
