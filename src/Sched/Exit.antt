-- ===== src/Sched/Exit.antt =====
-- kernel/task.c: the birth and the end of a task.
pub mod Family
pub mod Left
pub mod Laws
pub mod Fork
mod Tests
use mathlib.Core.Option
use grinch.Prelude.{
  ℕ, ◌+◌, Bool, true, false, Option, none, some, List, [], ◌∷◌, map, ◌==◌, if◌then◌else◌,
}
use grinch.Prelude.Maps.{update, remove}
use grinch.Errno.{Result, ok, err, enomem, negated}
use grinch.Sched.{
  Task, Sys, idle, init, runnable, exit_dead, undef, process, put_task, release_cpu, enqueue,
}
use grinch.Sched.Wait.{notify_wait, task_put}
use grinch.Sched.Timer.{cancel_timer}

-- The loop that hands the children of `t` to init: each leaves its list and becomes init's first.
pub reparent : Sys → ℕ → List ℕ → Sys
reparent s t [] = s
reparent s t (c ∷ cs) =
    let i = s.init_task in
    let s1 = put_task s t (record (s.tasks t) { children = remove c (s.tasks t).children }) in
    let s2 = put_task s1 c (record (s1.tasks c) { parent = some i }) in
    reparent (put_task s2 i (record (s2.tasks i) { children = c ∷ (s2.tasks i).children })) t cs

-- A task that exits on its own CPU gives that CPU up.
pub leave_cpu : Sys → ℕ → ℕ → Sys
leave_cpu s cpu t = elim (s.current cpu) [
  | none ↦ s
  | some cur ↦
      if cur == t
      then record (put_task s t (release_cpu (s.tasks t))) {
        schedule_flag = update s.schedule_flag cpu true;
        current = update s.current cpu none;
      }
      else s
]

-- `process_destroy` or `vmachine_destroy`, and then the state of the dead task
pub die : Sys → ℕ → ℕ → Option Sys
die s t code =
    let task = s.tasks t in
    elim task.type [
      | undef ↦ none
      | _ ↦ some (put_task s t (record task { state = exit_dead; exit_code = code }))
    ]

-- The parent is told; a refusal, ECHILD, is ignored.
pub tell : Sys → ℕ → ℕ → Option Sys
tell s p t = elim (notify_wait s p t) [ none ↦ none | some (ok r) ↦ some r | some (err e) ↦ some s ]

-- The children go to init, and the CPU is given up.
let_go : Sys → ℕ → ℕ → Sys
unfolding reparent leave_cpu
let_go s cpu t = leave_cpu (reparent s t (s.tasks t).children) cpu t

-- `task_exit` from the switch on the type on
exit_from : Sys → ℕ → ℕ → ℕ → ℕ → Option Sys
unfolding die let_go tell
exit_from s cpu p t code = elim (die s t code) [
  | none ↦ none
  | some s1 ↦ tell (let_go s1 cpu t) p t
]

-- `task_exit` of the task `t`, called on `cpu`; BUG() where init exits
pub task_exit : Sys → ℕ → ℕ → ℕ → Option Sys
unfolding exit_from
task_exit s cpu t code = elim (s.tasks t).parent [
  | none ↦ none
  | some p ↦
      let s1 = cancel_timer s t in
      exit_from (record s1 { task_list = remove t s1.task_list }) cpu p t code
]

-- `task_alloc_new` at the fresh address `t`, with the next pid
pub task_alloc_new : Sys → ℕ → Sys × ℕ
task_alloc_new s t =
    let task : Task = record {
      pid = s.next_pid;
      state = init;
      on_cpu = none;
      parent = none;
      children = [];
      event = idle;
      exit_code = 0;
      type = undef;
      retval = 0;
      wstatus = none;
      timer_pending = false;
    } in
    (record (put_task s t task) { next_pid = s.next_pid + 1 }, s.next_pid)

-- `sched_all`: every CPU is told to schedule.
pub sched_all : Sys → Sys
sched_all s = record s { schedule_flag = λ cpu. true }

-- The child as `fork` prepares it: a process, with a return value of 0.
pub forked : Sys → ℕ → ℕ → Sys
unfolding task_alloc_new
forked s this new =
    let s1 = (task_alloc_new s new).0 in
    put_task s1 new (record (s1.tasks new) { type = process; parent = some this; retval = 0 })

-- The ways out of `fork`, after the attempt to give the child its files, its directory and its
-- memory.
pub fork_from : Sys → ℕ → ℕ → ℕ → Result (Unit {0}) → Option (Sys × Result ℕ)
fork_from s cpu this new (ok _) =
    let s1 = put_task s new (record (s.tasks new) { state = runnable }) in
    let s2 =
      put_task s1 this (record (s1.tasks this) { children = new ∷ (s1.tasks this).children }) in
    some (sched_all (enqueue s2 new), ok (s.tasks new).pid)
fork_from s cpu this new (err e) = elim (task_exit s cpu new (negated e)) [
  | none ↦ none
  | some s1 ↦ Option.map (λ s2. (s2, err e)) (task_put s1 new)
]

-- The system call `fork` of the task `this`. `memory` and `table` say whether a task (at the address
-- `new`) and its page table could be allocated, and `copied` how the duplication of the resources
-- ends.
pub fork : Sys → ℕ → ℕ → ℕ → Bool → Bool → Result (Unit {0}) → Option (Sys × Result ℕ)
unfolding forked fork_from task_alloc_new
fork s cpu this new memory table copied =
    if memory
    then (if table
        then fork_from (forked s this new) cpu this new copied
        else some ((task_alloc_new s new).0, err enomem))
    else some (s, err enomem)
