-- ===== src/Sched/Timer.antt =====
-- kernel/task.c: sleeping tasks and the queue of timers, sorted by their expiration
-- (`list_add_sorted` of include/grinch/list.h).
pub mod Sorted
pub mod Events
pub mod Handled
mod Tests
use mathlib.Core.Option
use grinch.Prelude.{
  ℕ, Bool, true, false, ◌&&◌, ◌||◌, Option, none, some, List, [], ◌∷◌, map, ltb, leb, if◌then◌else◌,
}
use grinch.Prelude.Maps.{update, remove}
use grinch.Sched.{
  Task, TaskType, Sys, Wfe, idle, timer, runnable, process, vmachine, put_task, is_wfe, is_running,
  is_owner,
}
use grinch.Sched.Wait.{set_wfe}

-- `wfe.timer.expiration`, read where the event is a timer
abbrev pub expiration : Sys → ℕ → ℕ
expiration s t = elim (s.tasks t).event [ timer e ↦ e | _ ↦ 0 ]

abbrev pub is_timer : Wfe → Bool
is_timer (timer e) = true
is_timer _ = false

abbrev pub is_idle : Wfe → Bool
is_idle idle = true
is_idle _ = false

abbrev pub is_vmachine : TaskType → Bool
is_vmachine vmachine = true
is_vmachine _ = false

-- `list_add_sorted` with `timer_comp`: before the first entry that expires later
pub add_sorted : Sys → ℕ → List ℕ → List ℕ
add_sorted s t [] = t ∷ []
add_sorted s t (u ∷ us) =
    if ltb (expiration s t) (expiration s u) then t ∷ u ∷ us else u ∷ add_sorted s t us

-- the state of the task that starts to sleep; VMs remain runnable
asleep : Task → ℕ → Option Task
asleep task ns =
    let task' = record task { event = timer ns } in
    elim task.type [ process ↦ set_wfe task' | _ ↦ some task' ]

-- `task_sleep_until` on this CPU
pub sleep_until : Sys → ℕ → ℕ → ℕ → Option Sys
unfolding asleep
sleep_until s cpu t ns =
    let task = s.tasks t in
    if is_idle task.event || is_vmachine task.type && is_timer task.event
    then Option.map
        (λ task'.
          let s' = put_task s t task' in
          record s' {
            timer_list = add_sorted s' t (remove t s.timer_list);
            handle_events = update s.handle_events cpu true;
          })
        (asleep task ns)
    else none

-- `task_cancel_timer`
unfoldable pub cancel_timer : Sys → ℕ → Sys
cancel_timer s t =
    let task = s.tasks t in
    let s' = record s { timer_list = remove t s.timer_list } in
    if is_timer task.event then put_task s' t (record task { event = idle }) else s'

-- What happens to a task whose timer has expired, and whether the timer is done with. A VM that runs
-- on another CPU is sent an IPI, and that CPU handles the timer.
pub wake : ℕ → Task → Task × Bool
wake cpu task =
    let pending = record task { timer_pending = true } in
    elim task.type [
      | vmachine ↦
          if is_running task.state
          then (if is_owner task.on_cpu cpu
              then (record pending { event = idle }, true)
              else (pending, false))
          else (record pending { state = runnable; event = idle }, true)
      | _ ↦ (record task { state = runnable; event = idle }, true)
    ]

-- The sanity checks at the head of the loop of `task_handle_events`.
abbrev pub sane : Task → Bool
sane task = (is_wfe task.state || is_vmachine task.type) && is_timer task.event

-- One round of the loop for an expired timer.
pub expire : Sys → ℕ → ℕ → Sys
expire s cpu t =
    let (task, done) = wake cpu (s.tasks t) in
    let s' = put_task s t task in
    if done then record s' { timer_list = remove t s.timer_list } else s'

-- The loop of `task_handle_events` over the queue; `now t` is the time read at the entry `t`. The
-- result names the entry that the hardware timer is to be programmed for.
pub handle_loop : Sys → ℕ → (ℕ → ℕ) → List ℕ → Option (Sys × Option ℕ)
handle_loop s cpu now [] = some (s, none)
handle_loop s cpu now (t ∷ ts) =
    let rest = handle_loop (expire s cpu t) cpu now ts in
    if sane (s.tasks t)
    then (if leb (expiration s t) (now t) then rest else some (s, some t))
    else none

-- `task_handle_events`
pub handle_events : Sys → ℕ → (ℕ → ℕ) → Option (Sys × Option ℕ)
unfolding handle_loop
handle_events s cpu now = handle_loop s cpu now s.timer_list
