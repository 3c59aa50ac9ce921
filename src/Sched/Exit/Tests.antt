-- ===== src/Sched/Exit/Tests.antt =====
-- The exit of a child whose parent waits for it, and `fork`.
use grinch.Prelude.{◌≡◌, refl, true, none, some, ◌∷◌, arith}
use grinch.Prelude.Maps.{In, update}
use grinch.Errno.{ok}
use grinch.Sched.{Sys, any, idle, child, runnable, running, wfe, put_task, enqueue}
use grinch.Sched.Inv.{WellFormed}
use grinch.Sched.Example.{parent_task, child_task, machine, pair}
use grinch.Sched.Exit.{task_exit, fork, forked, fork_from, task_alloc_new, sched_all}
use grinch.Sched.Exit.Left.{OnlyHere}
use grinch.Sched.Exit.Laws.{task_exit_wakes}

-- The parent waits, and the child runs on CPU 0.
abbrev child_runs : Sys
child_runs =
    machine (record parent_task { state = wfe; on_cpu = none; event = child any (some 64) })
      (record child_task { state = running; on_cpu = some 0 }) (update (λ _. none) 0 (some 2))

child_runs-WellFormed : WellFormed child_runs
unfolding update
child_runs-WellFormed = record {
  owner = λ c t p. ground arith;
  owned = λ c t p. ground arith;
  running_owned = λ t p. ground arith;
  listed = λ c t p. ground arith;
  ready = λ t p. ground arith;
}

child_runs-OnlyHere : OnlyHere child_runs 0 2
unfolding update
child_runs-OnlyHere = λ c p. ground arith

task_exit_wakes_example :
    (r : Sys) × (task_exit child_runs 0 2 7 ≡ some r)
    × ((r.tasks 1).state ≡ runnable)
    × ((r.tasks 1).event ≡ idle)
    × ((r.tasks 1).retval ≡ 2)
    × ((r.tasks 1).wstatus ≡ some (64, 1792))
    × (¬ In 2 (r.tasks 1).children)
unfolding update
task_exit_wakes_example =
    task_exit_wakes child_runs 0 1 2 7 any (some 64) child_runs-WellFormed child_runs-OnlyHere refl
      (λ e. omega (arith, e)) (λ e. cc) (λ h. h) refl refl refl

-- The parent forks a second child.
abbrev forks : Sys
forks =
    let s1 = forked pair 1 3 in
    let s2 = put_task s1 3 (record (s1.tasks 3) { state = runnable }) in
    let s3 = put_task s2 1 (record (s2.tasks 1) { children = 3 ∷ (s2.tasks 1).children }) in
    sched_all (enqueue s3 3)

forks_made : fork pair 0 1 3 true true (ok tt) ≡ some (forks, ok 3)
unfolding fork fork_from forked task_alloc_new update
forks_made = refl
