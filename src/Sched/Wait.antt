-- ===== src/Sched/Wait.antt =====
-- kernel/task.c: `wait`, and what a parent is told of a child that has exited.
pub mod Laws
pub mod AnyChild
mod Tests
use mathlib.Core.Option
use grinch.Prelude.{
  ℕ, ◌*◌, ◌%◌, Bool, true, false, Option, none, some, List, [], ◌∷◌, map, ◌==◌, if◌then◌else◌,
}
use grinch.Prelude.Maps.{update, remove}
use grinch.Errno.{Result, ok, err, einval, enosys, echild}
use grinch.Sched.{
  Task, Sys, WaitPid, any, exact, group, Wfe, idle, child, init, runnable, wfe, exit_dead, put_task,
  is_dead, is_wfe, release_cpu,
}

-- `_task_set_wfe`; BUG() if the task waits already, or has nothing to wait for
unfoldable pub set_wfe : Task → Option Task
set_wfe t =
    if is_wfe t.state
    then none
    else elim t.event [ idle ↦ none | _ ↦ some (record t { state = wfe }) ]

-- `list_del` of `sibling`: the child leaves the list of its parent.
unlink : Sys → ℕ → Option ℕ → Sys
unlink s c none = s
unlink s c (some p) = put_task s p (record (s.tasks p) { children = remove c (s.tasks p).children })

-- `task_put`: the task leaves its parent's list of children, and its memory is free.
pub task_put : Sys → ℕ → Option Sys
unfolding unlink
task_put s c = elim (s.tasks c).state [
  | exit_dead ↦ some (unlink s c (s.tasks c).parent)
  | init ↦ some (unlink s c (s.tasks c).parent)
  | _ ↦ none
]

abbrev pub pid_matches : WaitPid → ℕ → Bool
pid_matches any p = true
pid_matches (exact q) p = q == p
pid_matches group p = false

-- `(exit_code & 0xff) << 8`, which the kernel copies to the user where the pointer is not NULL. It
-- does not look at what `copy_to_user` answers, and what is noted here is the word and the address
-- that the call is given; the memory of the process is not part of a task.
abbrev pub forward : Option ℕ → ℕ → Option (ℕ × ℕ) → Option (ℕ × ℕ)
forward none code old = old
forward (some addr) code old = some (addr, code % 256 * 256)

-- What the parent gets: status word, return value, and its way out of the wait.
abbrev pub told : Task → Option ℕ → ℕ → ℕ → Task
told p status pid code = record p {
  wstatus = forward status code p.wstatus;
  retval = pid;
  state = if is_wfe p.state then runnable else p.state;
}

-- `parent->wfe.type = WFE_NONE`
abbrev pub no_event : Sys → ℕ → Sys
no_event s p = put_task s p (record (s.tasks p) { event = idle })

-- `task_notify_wait` past its guards
notify : Sys → ℕ → ℕ → Option ℕ → Option Sys
notify s p c status =
    if is_dead (s.tasks c).state
    then Option.map (λ s'. no_event s' p)
        (task_put (put_task s p (told (s.tasks p) status (s.tasks c).pid (s.tasks c).exit_code)) c)
    else none

notify_event : Sys → ℕ → ℕ → Wfe → Option (Result Sys)
unfolding notify
notify_event s p c (child pid status) =
    if pid_matches pid (s.tasks c).pid
    then Option.map ok (notify s p c status)
    else some (err echild)
notify_event s p c _ = some (err echild)

-- `task_notify_wait`; the outer `none` is BUG().
pub notify_wait : Sys → ℕ → ℕ → Option (Result Sys)
unfolding notify_event
notify_wait s p c = notify_event s p c (s.tasks p).event

-- The two scans of `wait` over the children.
pub find_dead : Sys → List ℕ → Option ℕ
find_dead s [] = none
find_dead s (c ∷ cs) = if is_dead (s.tasks c).state then some c else find_dead s cs

pub find_pid : Sys → ℕ → List ℕ → Option ℕ
find_pid s pid [] = none
find_pid s pid (c ∷ cs) = if (s.tasks c).pid == pid then some c else find_pid s pid cs

-- The end of `wait`, where there is nothing to collect yet: the task waits, and leaves the CPU.
suspend : Sys → ℕ → ℕ → Option (Result Sys)
suspend s cpu t =
    Option.map
      (λ t'. ok (record (put_task s t (release_cpu t')) {
        schedule_flag = update s.schedule_flag cpu true;
        current = update s.current cpu none;
      }))
      (set_wfe (s.tasks t))

-- `list_empty`
abbrev pub is_nil : List ℕ → Bool
is_nil [] = true
is_nil (x ∷ xs) = false

collect : Sys → ℕ → ℕ → Option (Result Sys)
collect s t c = elim (notify_wait s t c) [ some (ok r) ↦ some (ok r) | _ ↦ none ]

-- With the event of the task set: a dead child is collected, and BUG() if that is refused.
collect_or_suspend : Sys → ℕ → ℕ → Option ℕ → Option (Result Sys)
unfolding collect suspend
collect_or_suspend s cpu t none = suspend s cpu t
collect_or_suspend s cpu t (some c) =
    if is_dead (s.tasks c).state then collect s t c else suspend s cpu t

-- The label `found`: `none` for no child that could be collected now.
found : Sys → ℕ → ℕ → WaitPid → Option ℕ → Option ℕ → Option (Result Sys)
unfolding collect_or_suspend
found s cpu t pid status c = elim (s.tasks t).event [
  | idle ↦
      collect_or_suspend (put_task s t (record (s.tasks t) { event = child pid status })) cpu t c
  | _ ↦ none
]

search_children : Sys → ℕ → ℕ → WaitPid → Option ℕ → Option (Result Sys)
unfolding found
search_children s cpu t group status = some (err enosys)
search_children s cpu t any status =
    if is_nil (s.tasks t).children
    then some (err echild)
    else found s cpu t any status (find_dead s (s.tasks t).children)
search_children s cpu t (exact pid) status = elim (find_pid s pid (s.tasks t).children) [
  | none ↦ some (err echild)
  | some c ↦ found s cpu t (exact pid) status (some c)
]

-- The system call `wait` of the task `t`, which runs on `cpu`; `options` of 0 only.
pub wait : Sys → ℕ → ℕ → WaitPid → Option ℕ → ℕ → Option (Result Sys)
unfolding search_children
wait s cpu t pid status options =
    if options == 0 then search_children s cpu t pid status else some (err einval)
