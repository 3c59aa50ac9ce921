-- ===== src/Sched/Wait/Laws.antt =====
-- What `wait` and the notification of a parent do.
use mathlib.Core.Path.{subst}
use grinch.Prelude.{
  ℕ, ◌≡◌, refl, ◌∙◌, ◌≢◌, ◌⊎◌, inl, inr, true, false, Option, none, some, List, [], ◌∷◌, arith,
  Bool-cases, Option-cases,
}
use grinch.Prelude.Maps.{update, remove}
use grinch.Errno.{Errno, ok, err, echild}
use grinch.Sched.{
  Task, Sys, WaitPid, any, exact, group, Wfe, idle, child, wfe, exit_dead, put_task, is_dead,
  release_cpu,
}
use grinch.Sched.Sim.{TaskSim, Sim, Sim-refl, Sim-trans, put_task-Sim}
use grinch.Sched.Wait.{
  is_nil, unlink, task_put, pid_matches, told, no_event, notify, notify_event, notify_wait,
  find_dead, find_pid, set_wfe, suspend, collect, collect_or_suspend, found, search_children, wait,
}

unlink-Sim : (s : Sys) (c : ℕ) (o : Option ℕ) → Sim s (unlink s c o)
unfolding unlink
unlink-Sim s c none = Sim-refl s
unlink-Sim s c (some p) =
    put_task-Sim s p _ (record { on_cpu = refl; type = refl; state = inl refl })

task_put-unlink :
    (s : Sys) (c : ℕ) {r : Sys} → task_put s c ≡ some r → unlink s c (s.tasks c).parent ≡ r
unfolding task_put
task_put-unlink s c e = ground arith

pub task_put-Sim : (s : Sys) (c : ℕ) {r : Sys} → task_put s c ≡ some r → Sim s r
task_put-Sim s c e = subst (Sim s) (task_put-unlink s c e) (unlink-Sim s c (s.tasks c).parent)

told-TaskSim : (t : Task) (status : Option ℕ) (pid code : ℕ) → TaskSim t (told t status pid code)
told-TaskSim t status pid code = record { on_cpu = refl; type = refl; state = ground arith }

no_event-Sim : (s : Sys) (p : ℕ) → Sim s (no_event s p)
no_event-Sim s p = put_task-Sim s p _ (record { on_cpu = refl; type = refl; state = inl refl })

-- The steps of the notification, where it succeeds.
notify_steps :
    (s : Sys) (p c : ℕ) (status : Option ℕ) {r : Sys}
    → notify s p c status ≡ some r
    → (q : Sys) × (task_put
          (put_task s p (told (s.tasks p) status (s.tasks c).pid (s.tasks c).exit_code))
          c
        ≡ some q)
      × (no_event q p ≡ r)
unfolding notify
notify_steps s p c status {r} e = grind arith

notify-Sim :
    (s : Sys) (p c : ℕ) (status : Option ℕ) {r : Sys} → notify s p c status ≡ some r → Sim s r
notify-Sim s p c status {r} e =
    let t = told (s.tasks p) status (s.tasks c).pid (s.tasks c).exit_code in
    let (q, put, last) = notify_steps s p c status e in
    Sim-trans
      (put_task-Sim s p t (told-TaskSim (s.tasks p) status (s.tasks c).pid (s.tasks c).exit_code))
      (Sim-trans (task_put-Sim (put_task s p t) c put) (subst (Sim q) last (no_event-Sim q p)))

notify_event_notifies :
    (s : Sys) (p c : ℕ) (w : Wfe) {r : Sys}
    → notify_event s p c w ≡ some (ok r)
    → (status : Option ℕ) × (notify s p c status ≡ some r)
unfolding notify_event
notify_event_notifies s p c (child pid status) {r} e = (status, matched)
  where
    matched : notify s p c status ≡ some r
    matched = ground arith
notify_event_notifies s p c _ e = cc

notify_wait_notifies :
    (s : Sys) (p c : ℕ) {r : Sys}
    → notify_wait s p c ≡ some (ok r)
    → (status : Option ℕ) × (notify s p c status ≡ some r)
unfolding notify_wait
notify_wait_notifies s p c e = notify_event_notifies s p c (s.tasks p).event e

-- Whatever the notification finds, it moves no task between CPUs.
pub notify_wait-Sim : (s : Sys) (p c : ℕ) {r : Sys} → notify_wait s p c ≡ some (ok r) → Sim s r
notify_wait-Sim s p c e =
    let (status, n) = notify_wait_notifies s p c e in notify-Sim s p c status n

-- A parent that waits for this child, or for any, is told of the exit: it gets the pid and the
-- status word and may run again, and the child is no longer among its children.
pub notify_wait_lem :
    (s : Sys) (p c : ℕ) (pid : WaitPid) (status : Option ℕ)
    → p ≢ c
    → (s.tasks p).event ≡ child pid status
    → pid_matches pid (s.tasks c).pid ≡ true
    → (s.tasks c).state ≡ exit_dead
    → (s.tasks c).parent ≡ some p
    → (r : Sys) × (notify_wait s p c ≡ some (ok r))
      × (r.tasks p ≡ record (told (s.tasks p) status (s.tasks c).pid (s.tasks c).exit_code) {
        children = remove c (s.tasks p).children;
        event = idle;
      })
unfolding notify_wait notify_event notify task_put update
notify_wait_lem s p c pid status ne waits fits dead parent =
    let s1 = put_task s p (told (s.tasks p) status (s.tasks c).pid (s.tasks c).exit_code) in
    let s2 = put_task s1 p (record (s1.tasks p) { children = remove c (s1.tasks p).children }) in
    (no_event s2 p, ground arith, ground arith)

-- The notification of a child that is dead meets no BUG().
notify_event-total :
    (s : Sys) (p c : ℕ) (w : Wfe)
    → p ≢ c
    → (s.tasks c).state ≡ exit_dead
    → ((r : Sys) × (notify_event s p c w ≡ some (ok r)))
      ⊎ ((e : Errno) × (notify_event s p c w ≡ some (err e)))
unfolding notify_event notify task_put update
notify_event-total s p c (child pid status) ne dead =
    elim (Bool-cases (pid_matches pid (s.tasks c).pid)) [
      | inl fits ↦
          let s1 = put_task s p (told (s.tasks p) status (s.tasks c).pid (s.tasks c).exit_code) in
          inl (no_event (unlink s1 c (s1.tasks c).parent) p, ground arith)
      | inr other ↦ inr (echild, ground arith)
    ]
notify_event-total s p c _ ne dead = inr (echild, refl)

pub notify_wait-total :
    (s : Sys) (p c : ℕ)
    → p ≢ c
    → (s.tasks c).state ≡ exit_dead
    → ((r : Sys) × (notify_wait s p c ≡ some (ok r)))
      ⊎ ((e : Errno) × (notify_wait s p c ≡ some (err e)))
unfolding notify_wait
notify_wait-total s p c ne dead = notify_event-total s p c (s.tasks p).event ne dead

pub find_dead-some :
    (s : Sys) (cs : List ℕ) {c : ℕ}
    → find_dead s cs ≡ some c
    → ((s.tasks c).state ≡ exit_dead) × (is_nil cs ≡ false)
unfolding find_dead
find_dead-some s [] e = cc
find_dead-some s (d ∷ ds) {c} e =
    (ground (arith, λ (h : find_dead s ds ≡ some c). (find_dead-some s ds h).0), refl)

-- `wait` of a task for any child, where `found` is reached with a dead child.
found_dead :
    (s : Sys) (cpu t c : ℕ) (pid : WaitPid) (status : Option ℕ)
    → t ≢ c
    → (s.tasks t).event ≡ idle
    → pid_matches pid (s.tasks c).pid ≡ true
    → (s.tasks c).state ≡ exit_dead
    → (s.tasks c).parent ≡ some t
    → (r : Sys) × (found s cpu t pid status (some c) ≡ some (ok r))
      × (r.tasks t ≡ record (told (s.tasks t) status (s.tasks c).pid (s.tasks c).exit_code) {
        children = remove c (s.tasks t).children;
        event = idle;
      })
unfolding found collect_or_suspend collect update
found_dead s cpu t c pid status ne free fits dead parent =
    let s' = put_task s t (record (s.tasks t) { event = child pid status }) in
    let (r, e, task) =
      notify_wait_lem s' t c pid status ne (ground arith) (ground arith) (ground arith)
        (ground arith) in
    (r, ground arith, ground (arith, task))

-- `wait(-1)` with a dead child collects the first one: the task goes on running with the child's pid
-- as its return value and the child's status word, and the child leaves its list.
pub wait_any_dead :
    (s : Sys) (cpu t c : ℕ) (status : Option ℕ)
    → t ≢ c
    → (s.tasks t).event ≡ idle
    → find_dead s (s.tasks t).children ≡ some c
    → (s.tasks c).parent ≡ some t
    → (r : Sys) × (wait s cpu t any status 0 ≡ some (ok r))
      × (r.tasks t ≡ record (told (s.tasks t) status (s.tasks c).pid (s.tasks c).exit_code) {
        children = remove c (s.tasks t).children;
        event = idle;
      })
unfolding wait search_children
wait_any_dead s cpu t c status ne free dead parent =
    let (gone, more) = find_dead-some s (s.tasks t).children dead in
    let (r, e, task) = found_dead s cpu t c any status ne free refl gone parent in
    (r, ground arith, task)

-- Where the task that calls `wait` ends up, if the call is no error: it has collected a child and
-- goes on, or it waits and has left its CPU.
abbrev pub Outcome : Sys → ℕ → ℕ → Sys → Type 0
Outcome s cpu t r =
    Sim s r
    ⊎ ((q : Sys) × Sim s q
        × ((task : Task) × TaskSim (q.tasks t) task
            × (task.state ≡ wfe)
            × (r ≡ record (put_task q t (release_cpu task)) {
              schedule_flag = update q.schedule_flag cpu true;
              current = update q.current cpu none;
            })))

set_wfe-TaskSim : (t : Task) {u : Task} → set_wfe t ≡ some u → TaskSim t u × (u.state ≡ wfe)
unfolding set_wfe
set_wfe-TaskSim t e = ground arith

suspend-Outcome :
    (s : Sys) (cpu t : ℕ) {r : Sys} → suspend s cpu t ≡ some (ok r) → Outcome s cpu t r
unfolding suspend
suspend-Outcome s cpu t {r} e = elim (Option-cases (set_wfe (s.tasks t))) [
  | inl n ↦ absurd (ground arith)
  | inr (u, w) ↦
      let (sim, state) = set_wfe-TaskSim (s.tasks t) w in
      inr (s, Sim-refl s, (u, sim, state, ground arith))
]

collect-Sim : (s : Sys) (t c : ℕ) {r : Sys} → collect s t c ≡ some (ok r) → Sim s r
unfolding collect
collect-Sim s t c {r} e = elim (Option-cases (notify_wait s t c)) [
  | inl n ↦ absurd (ground arith)
  | inr (ok q, w) ↦ notify_wait-Sim s t c (w ∙ ground arith)
  | inr (err x, w) ↦ absurd (ground arith)
]

collect_or_suspend-Outcome :
    (s : Sys) (cpu t : ℕ) (c : Option ℕ) {r : Sys}
    → collect_or_suspend s cpu t c ≡ some (ok r)
    → Outcome s cpu t r
unfolding collect_or_suspend
collect_or_suspend-Outcome s cpu t none e = suspend-Outcome s cpu t e
collect_or_suspend-Outcome s cpu t (some c) {r} e = elim (Bool-cases (is_dead (s.tasks c).state)) [
  | inl d ↦ inl (collect-Sim s t c (rw d at e))
  | inr d ↦ suspend-Outcome s cpu t (rw d at e)
]

Outcome-after : {s q r : Sys} (cpu t : ℕ) → Sim s q → Outcome q cpu t r → Outcome s cpu t r
Outcome-after cpu t m (inl n) = inl (Sim-trans m n)
Outcome-after cpu t m (inr (q, n, rest)) = inr (q, Sim-trans m n, rest)

found-Outcome :
    (s : Sys) (cpu t : ℕ) (pid : WaitPid) (status : Option ℕ) (c : Option ℕ) {r : Sys}
    → found s cpu t pid status c ≡ some (ok r)
    → Outcome s cpu t r
unfolding found
found-Outcome s cpu t pid status c {r} e =
    let s' = put_task s t (record (s.tasks t) { event = child pid status }) in
    let m =
      put_task-Sim s t (record (s.tasks t) { event = child pid status })
        (record { on_cpu = refl; type = refl; state = inl refl }) in
    Outcome-after cpu t m (collect_or_suspend-Outcome s' cpu t c reached)
  where
    reached :
        collect_or_suspend (put_task s t (record (s.tasks t) { event = child pid status })) cpu t c
        ≡ some (ok r)
    reached = ground arith

-- The outcome of the system call.
pub wait-Outcome :
    (s : Sys) (cpu t : ℕ) (pid : WaitPid) (status : Option ℕ) (options : ℕ) {r : Sys}
    → wait s cpu t pid status options ≡ some (ok r)
    → Outcome s cpu t r
unfolding wait search_children
wait-Outcome s cpu t any status options {r} e =
    found-Outcome s cpu t any status (find_dead s (s.tasks t).children) (ground arith)
wait-Outcome s cpu t (exact pid) status options {r} e =
    elim (Option-cases (find_pid s pid (s.tasks t).children)) [
      | inl n ↦ absurd (ground arith)
      | inr (c, w) ↦ found-Outcome s cpu t (exact pid) status (some c) (ground arith)
    ]
wait-Outcome s cpu t group status options {r} e = absurd (ground arith)
