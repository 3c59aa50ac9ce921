-- ===== src/Sched/Exit/Laws.antt =====
-- The end of a task: the scheduler's invariant, and the parent's view of it.
use mathlib.Core.Path.{subst}
use grinch.Prelude.{ℕ, ◌≡◌, sym, ap, ◌∙◌, ◌≢◌, inl, inr, true, Option, some, arith, Option-cases}
use grinch.Prelude.Maps.{In, not-In-remove}
use grinch.Sched.{Sys, idle, child, WaitPid, runnable, wfe, undef}
use grinch.Errno.{Errno, ok, err}
use grinch.Sched.Inv.{WellFormed}
use grinch.Sched.Wait.{notify_wait, pid_matches, forward}
use grinch.Sched.Wait.Laws.{notify_wait-Sim, notify_wait-total, notify_wait_lem}
use grinch.Sched.Sim.{Sim-WellFormed}
use grinch.Sched.Exit.{tell, let_go, exit_from, task_exit, leave_cpu}
use grinch.Sched.Exit.Left.{
  Left, Left-WellFormed, OnlyHere, dequeued, dequeued-fields, die-some, dying, dying-Dying,
  leave_cpu-Left, dying-parent, leave_cpu-parent,
}

-- The state as the parent sees it at the end of `task_exit`.
abbrev gone : Sys → ℕ → ℕ → ℕ → Sys
gone s cpu t code = leave_cpu (dying s t code) cpu t

-- `task_exit` is the notification of the parent in the state that the exit has reached.
task_exit-tell :
    (s : Sys) (cpu p t code : ℕ)
    → (s.tasks t).parent ≡ some p
    → (s.tasks t).type ≢ undef
    → task_exit s cpu t code ≡ tell (gone s cpu t code) p t
unfolding task_exit exit_from let_go dying dequeued
task_exit-tell s cpu p t code par known =
    let dies = die-some (dequeued s t) t code (λ q. known (sym (dequeued-fields s t).0 ∙ q)) in
    rw (par, task_exit) (rw (dies, exit_from))

tell-ok : (s : Sys) (p t : ℕ) {r : Sys} → notify_wait s p t ≡ some (ok r) → tell s p t ≡ some r
unfolding tell
tell-ok s p t e = ground arith

tell-err : (s : Sys) (p t : ℕ) {e : Errno} → notify_wait s p t ≡ some (err e) → tell s p t ≡ some s
unfolding tell
tell-err s p t h = ground arith

gone-Left :
    (s : Sys) (cpu t code : ℕ) → WellFormed s → OnlyHere s cpu t → Left t code s (gone s cpu t code)
gone-Left s cpu t code v here = leave_cpu-Left cpu t code v here (dying-Dying s t code)

tell-WellFormed : (s : Sys) (p t : ℕ) {r : Sys} → WellFormed s → tell s p t ≡ some r → WellFormed r
unfolding tell
tell-WellFormed s p t {r} v e = elim (Option-cases (notify_wait s p t)) [
  | inl n ↦ absurd (ground arith)
  | inr (ok q, w) ↦ Sim-WellFormed (notify_wait-Sim s p t (w ∙ ground arith)) v
  | inr (err x, w) ↦ subst WellFormed (ground arith) v
]

-- `task_exit` of a task other than init, on its own CPU if it is on any, meets no BUG() and keeps
-- the scheduler's invariant.
pub task_exit-WellFormed :
    (s : Sys) (cpu p t code : ℕ)
    → WellFormed s
    → OnlyHere s cpu t
    → (s.tasks t).parent ≡ some p
    → p ≢ t
    → (s.tasks t).type ≢ undef
    → (r : Sys) × (task_exit s cpu t code ≡ some r) × WellFormed r
task_exit-WellFormed s cpu p t code v here par ne known =
    let left = gone-Left s cpu t code v here in
    let valid = Left-WellFormed t code left v in
    let same = task_exit-tell s cpu p t code par known in
    elim (notify_wait-total (gone s cpu t code) p t ne left.gone_state) [
      | inl (r, e) ↦ (
        r,
        same ∙ tell-ok (gone s cpu t code) p t e,
        Sim-WellFormed (notify_wait-Sim (gone s cpu t code) p t e) valid,
      )
      | inr (x, e) ↦ (gone s cpu t code, same ∙ tell-err (gone s cpu t code) p t e, valid)
    ]

-- Whatever `task_exit` finds in the family of the task, it keeps the scheduler's invariant.
pub task_exit-keeps :
    (s : Sys) (cpu p t code : ℕ) {r : Sys}
    → WellFormed s
    → OnlyHere s cpu t
    → (s.tasks t).parent ≡ some p
    → (s.tasks t).type ≢ undef
    → task_exit s cpu t code ≡ some r
    → WellFormed r
task_exit-keeps s cpu p t code v here par known e =
    tell-WellFormed (gone s cpu t code) p t
      (Left-WellFormed t code (gone-Left s cpu t code v here) v)
      (sym (task_exit-tell s cpu p t code par known) ∙ e)

-- A child that exits while its parent waits for it, or for any child, wakes the parent: it may run
-- again with the pid as its return value and the status word where it asked for it, and the child
-- has left its list.
pub task_exit_wakes :
    (s : Sys) (cpu p t code : ℕ) (pid : WaitPid) (status : Option ℕ)
    → WellFormed s
    → OnlyHere s cpu t
    → (s.tasks t).parent ≡ some p
    → p ≢ t
    → (s.tasks t).type ≢ undef
    → ¬ In t (s.tasks t).children
    → (s.tasks p).state ≡ wfe
    → (s.tasks p).event ≡ child pid status
    → pid_matches pid (s.tasks t).pid ≡ true
    → (r : Sys) × (task_exit s cpu t code ≡ some r)
      × ((r.tasks p).state ≡ runnable)
      × ((r.tasks p).event ≡ idle)
      × ((r.tasks p).retval ≡ (s.tasks t).pid)
      × ((r.tasks p).wstatus ≡ forward status code (s.tasks p).wstatus)
      × (¬ In t (r.tasks p).children)
task_exit_wakes s cpu p t code pid status v here par ne known own asleep waits fits =
    let g = gone s cpu t code in
    let left = gone-Left s cpu t code v here in
    let kin = left.others p ne in
    let (r, e, task) =
      notify_wait_lem g p t pid status ne (kin.event ∙ waits)
        (ap (pid_matches pid) left.last_pid ∙ fits) left.gone_state
        (leave_cpu-parent (dying s t code) cpu t ∙ dying-parent s t code own ∙ par) in
    (
      r,
      task_exit-tell s cpu p t code par known ∙ tell-ok g p t e,
      ground (arith, task, kin),
      ap (λ k. k.event) task,
      ap (λ k. k.retval) task ∙ left.last_pid,
      ground (arith, task, kin, left.last_code),
      λ q. not-In-remove t (g.tasks p).children (subst (In t) (ap (λ k. k.children) task) q),
    )
