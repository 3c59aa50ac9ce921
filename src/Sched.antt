-- ===== src/Sched.antt =====
-- kernel/task.c and include/grinch/task.h: tasks, the scheduler, waiting, sleeping and exit.
-- A `struct task *` is a number, and `tasks` of the state is the memory that it points into. The
-- spinlocks make each function one step; `none` as a result stands for BUG() or panic().
use grinch.Prelude.{
  ℕ, Bool, true, false, not, ◌&&◌, ◌||◌, Option, none, some, List, [], ◌∷◌, ◌==◌, if◌then◌else◌,
}
pub mod Inv
pub mod Activate
pub mod Pick
pub mod Schedule
pub mod Sim
pub mod Wait
pub mod Timer
pub mod Exit
pub mod System
pub mod Example
mod Tests
use grinch.Prelude.Maps.{update}

-- `enum task_state`
pub data TaskState : Type 0 where
  init runnable wfe running exit_dead : TaskState

-- `enum task_type`
pub data TaskType : Type 0 where
  undef process vmachine : TaskType

-- The pid argument of wait(): -1, one child, or a process group, which is not supported.
pub data WaitPid : Type 0 where
  any : WaitPid
  exact : ℕ → WaitPid
  group : WaitPid

-- `task->wfe`, the type with its member of the union; the user's status pointer may be NULL
pub data Wfe : Type 0 where
  idle : Wfe
  child : WaitPid → Option ℕ → Wfe
  timer : ℕ → Wfe
  read : Wfe

-- `struct task`. An `int` exit code is its 32-bit pattern. `retval` is the return register, and
-- `wstatus` the last status word copied to the user, with its address.
pub record Task : Type 0 where
  pub pid : ℕ
  pub state : TaskState
  pub on_cpu : Option ℕ  -- `none` is TASK_NO_CPU
  pub parent : Option ℕ
  pub children : List ℕ
  pub event : Wfe
  pub exit_code : ℕ
  pub type : TaskType
  pub retval : ℕ
  pub wstatus : Option (ℕ × ℕ)
  pub timer_pending : Bool

-- The kernel's lists and the per-CPU variables that task.c works on.
pub record Sys : Type 0 where
  pub tasks : ℕ → Task
  pub task_list : List ℕ
  pub timer_list : List ℕ
  pub current : ℕ → Option ℕ
  pub schedule_flag : ℕ → Bool
  pub handle_events : ℕ → Bool
  pub next_pid : ℕ
  pub init_task : ℕ

abbrev pub put_task : Sys → ℕ → Task → Sys
put_task s t v = record s { tasks = update s.tasks t v }

abbrev pub is_running : TaskState → Bool
is_running running = true
is_running _ = false

abbrev pub is_runnable : TaskState → Bool
is_runnable runnable = true
is_runnable _ = false

abbrev pub is_wfe : TaskState → Bool
is_wfe wfe = true
is_wfe _ = false

abbrev pub is_dead : TaskState → Bool
is_dead exit_dead = true
is_dead _ = false

abbrev pub is_owner : Option ℕ → ℕ → Bool
is_owner none cpu = false
is_owner (some c) cpu = c == cpu

-- `task_claimable`
abbrev pub claimable : ℕ → Task → Bool
claimable cpu t = elim t.on_cpu [ none ↦ true | some c ↦ c == cpu ]

-- `task_release_cpu`
abbrev pub release_cpu : Task → Task
release_cpu t = record t { on_cpu = none }

-- `task_enqueue`
pub enqueue : Sys → ℕ → Sys
enqueue s t = record s { task_list = t ∷ s.task_list }

-- The end of `task_activate`, at a task that is not the current one of this CPU.
claim : Sys → ℕ → ℕ → Option Sys
claim s cpu t =
    let task = s.tasks t in
    if is_runnable task.state
    then elim task.type [
      | undef ↦ none
      | _ ↦ some (put_task s t (record task { state = running; on_cpu = some cpu }))
    ]
    else none

-- What `task_activate` does to the task that leaves this CPU.
leave : ℕ → Task → Task
leave cpu old = release_cpu (
    if is_running old.state && is_owner old.on_cpu cpu
    then record old { state = runnable }
    else old)

-- `task_activate` at the current task again
resume : Sys → ℕ → Option Sys
resume s t =
    let task = s.tasks t in
    elim task.state [
      | running ↦ some s
      | runnable ↦ some (put_task s t (record task { state = running }))
      | _ ↦ none
    ]

switch_to : Sys → ℕ → Option ℕ → Option Sys
unfolding claim
switch_to s cpu none = some (record s { current = update s.current cpu none })
switch_to s cpu (some t) = claim (record s { current = update s.current cpu (some t) }) cpu t

-- `task_activate`
pub activate : Sys → ℕ → Option ℕ → Option Sys
unfolding leave resume switch_to
activate s cpu task = elim (s.current cpu) [
  | none ↦ elim task [ none ↦ some s | some t ↦ switch_to s cpu (some t) ]
  | some old ↦
      let s' = put_task s old (leave cpu (s.tasks old)) in
      elim task [
        | none ↦ switch_to s' cpu none
        | some t ↦ if old == t then resume s t else switch_to s' cpu (some t)
      ]
]

abbrev pub eligible : Sys → ℕ → ℕ → Bool
eligible s cpu t = is_runnable (s.tasks t).state && claimable cpu (s.tasks t)

-- The two scans of `schedule`: the first runnable task that this CPU may claim.
pub first_eligible : Sys → ℕ → List ℕ → Option ℕ
first_eligible s cpu [] = none
first_eligible s cpu (t ∷ ts) = if eligible s cpu t then some t else first_eligible s cpu ts

-- `list_for_each_entry_from`: the list from the current task on
pub from : ℕ → List ℕ → List ℕ
from cur [] = []
from cur (t ∷ ts) = if t == cur then t ∷ ts else from cur ts

-- the list up to the current task
pub before : ℕ → List ℕ → List ℕ
before cur [] = []
before cur (t ∷ ts) = if t == cur then [] else t ∷ before cur ts

-- the label `nothing`
abbrev pub keep_running : Sys → ℕ → Option ℕ
keep_running s cur = if is_running (s.tasks cur).state then some cur else none

abbrev pub or_else : Option ℕ → Option ℕ → Option ℕ
or_else none o = o
or_else (some t) o = some t

-- the branch of `schedule` for a list of one task
abbrev pub pick_single : Sys → ℕ → ℕ → Option ℕ
pick_single s cpu t =
    if is_wfe (s.tasks t).state || not (claimable cpu (s.tasks t)) then none else some t

pick_from : Sys → ℕ → ℕ → List ℕ → Option ℕ
pick_from s cpu cur [] = keep_running s cur
pick_from s cpu cur (t ∷ []) = pick_single s cpu t
pick_from s cpu cur ts =
    or_else (first_eligible s cpu (from cur ts))
      (or_else (first_eligible s cpu (before cur ts)) (keep_running s cur))

-- The task that `schedule` chooses.
pub pick : Sys → ℕ → Option ℕ
unfolding pick_from
pick s cpu = elim (s.current cpu) [
  | none ↦ first_eligible s cpu s.task_list
  | some cur ↦ pick_from s cpu cur s.task_list
]

-- `schedule`
pub schedule : Sys → ℕ → Option Sys
schedule s cpu =
    activate (record s { schedule_flag = update s.schedule_flag cpu false }) cpu (pick s cpu)
