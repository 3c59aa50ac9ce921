-- ===== src/Sched/System.antt =====
-- The scheduler as a system: any CPUs, any order of system calls, exits, timers and scheduling.
use mathlib.Core.Path.{subst}
use grinch.Sched.{running, undef, Task, Sys, WaitPid, wfe, put_task, release_cpu, schedule}
use grinch.Sched.Schedule.{schedule_lem}
use grinch.Sched.Inv.{one_cpu}
use mathlib.Core.Option.{some_inj}
use grinch.Sched.Wait.Laws.{wait-Outcome}
use grinch.Sched.Timer.Sorted.{sleep_until-Sim}
use grinch.Sched.Timer.Events.{handle_events-Sim}
use grinch.Sched.Exit.Laws.{task_exit-keeps}
use grinch.Sched.Exit.Fork.{fork-WellFormed}
use grinch.Prelude.{
  ℕ, ◌≡◌, sym, ap, ◌∙◌, ◌≢◌, inl, inr, Bool, true, Option, none, some, arith, Option-cases,
}
use grinch.Prelude.Maps.{In, update}
use grinch.Errno.{Result, ok}
use grinch.Sched.Inv.{WellFormed}
use grinch.Sched.Sim.{TaskSim, Sim-WellFormed}
use grinch.Sched.Wait.{wait}
use grinch.Sched.Wait.Laws.{Outcome}
use grinch.Sched.Timer.{sleep_until, handle_events}
use grinch.Sched.Exit.{task_exit, fork}

-- One thing that happens on a CPU. The system calls and the exit are those of the task that runs
-- there; what the rest of the kernel hands to `fork` is any value.
pub data Step : Sys → Sys → Type 0 where
  scheduled : {s r : Sys} (cpu : ℕ) → schedule s cpu ≡ some r → Step s r
  waited :
      {s r : Sys} (cpu t : ℕ) (pid : WaitPid) (status : Option ℕ) (options : ℕ)
      → s.current cpu ≡ some t
      → wait s cpu t pid status options ≡ some (ok r)
      → Step s r
  exited :
      {s r : Sys} (cpu p t code : ℕ)
      → s.current cpu ≡ some t
      → (s.tasks t).parent ≡ some p
      → task_exit s cpu t code ≡ some r
      → Step s r
  slept :
      {s r : Sys} (cpu t ns : ℕ)
      → s.current cpu ≡ some t
      → sleep_until s cpu t ns ≡ some r
      → Step s r
  ticked :
      {s r : Sys} {next : Option ℕ} (cpu : ℕ) (now : ℕ → ℕ)
      → handle_events s cpu now ≡ some (r, next)
      → Step s r
  cloned :
      {s r : Sys} {result : Result ℕ} (cpu this new : ℕ) (memory table : Bool)
      (copied : Result (Unit {0}))
      → s.current cpu ≡ some this
      → ¬ In new s.task_list
      → fork s cpu this new memory table copied ≡ some (r, result)
      → Step s r

-- What the steps lead to from a state.
pub data Reach (s : Sys) : Sys → Type 0 where
  here : Reach s s
  more : {r q : Sys} → Reach s r → Step r q → Reach s q

-- A task that waits gives up its CPU.
suspend-WellFormed :
    {s : Sys} (cpu t : ℕ) (task : Task)
    → WellFormed s
    → s.current cpu ≡ some t
    → TaskSim (s.tasks t) task
    → task.state ≡ wfe
    → WellFormed (record (put_task s t (release_cpu task)) {
      schedule_flag = update s.schedule_flag cpu true;
      current = update s.current cpu none;
    })
unfolding update
suspend-WellFormed {s} cpu t task v cur sim asleep = record {
  owner = λ c u p. ground (arith, v.owner c u, v.owner cpu t cur);
  owned = λ c u p. ground (arith, v.owned c u, v.owner cpu t cur);
  running_owned = λ u p. ground (arith, v.running_owned u);
  listed = λ c u p. ground (arith, v.listed c u);
  ready = λ u p. ground (arith, v.ready u p, sim);
}

Outcome-WellFormed :
    {s r : Sys} (cpu t : ℕ)
    → WellFormed s
    → s.current cpu ≡ some t
    → Outcome s cpu t r
    → WellFormed r
Outcome-WellFormed cpu t v cur (inl sim) = Sim-WellFormed sim v
Outcome-WellFormed cpu t v cur (inr (q, sim, (task, same, asleep, out))) =
    subst WellFormed (sym out) (
      suspend-WellFormed cpu t task (Sim-WellFormed sim v) (ap (λ f. f cpu) sim.current ∙ cur) same
        asleep)

typed_here :
    {s : Sys} (cpu t : ℕ) → WellFormed s → s.current cpu ≡ some t → (s.tasks t).type ≢ undef
typed_here {s} cpu t v p = (v.ready t (v.listed cpu t p)).typed

-- Every step keeps the scheduler's invariant: what runs where is consistent, and what is listed can
-- be run.
pub Step-WellFormed : {s r : Sys} → WellFormed s → Step s r → WellFormed r
Step-WellFormed {s} v (scheduled cpu e) =
    let (q, made, valid, _, _) = schedule_lem s cpu v in
    subst WellFormed (some_inj.0 (sym made ∙ e)) valid
Step-WellFormed {s} v (waited cpu t pid status options cur e) =
    Outcome-WellFormed cpu t v cur (wait-Outcome s cpu t pid status options e)
Step-WellFormed {s} v (exited cpu p t code cur par e) =
    task_exit-keeps s cpu p t code v (λ c q. one_cpu v c cpu t q cur) par (typed_here cpu t v cur) e
Step-WellFormed {s} v (slept cpu t ns cur e) = Sim-WellFormed (sleep_until-Sim s cpu t ns e) v
Step-WellFormed {s} v (ticked cpu now e) = Sim-WellFormed (handle_events-Sim s cpu now e) v
Step-WellFormed v (cloned cpu this new memory table copied cur fresh e) =
    fork-WellFormed cpu this new memory table copied v fresh e

Reach-WellFormed : {s r : Sys} → WellFormed s → Reach s r → WellFormed r
Reach-WellFormed v here = v
Reach-WellFormed v (more run step) = Step-WellFormed (Reach-WellFormed v run) step

-- However waits, forks of a child at an unlisted address, exits and sleeps of the tasks that run,
-- timer events and calls of the scheduler on the CPUs follow each other from a well-formed state, no
-- task is ever the current task of two CPUs, a running task is the current task of a CPU, and the
-- scheduler of any CPU can be called without meeting BUG().
pub Reach-exclusive :
    {s r : Sys}
    → WellFormed s
    → Reach s r
    → ((c d t : ℕ) → r.current c ≡ some t → r.current d ≡ some t → c ≡ d)
      × ((t : ℕ) → (r.tasks t).state ≡ running → (c : ℕ) × (r.current c ≡ some t))
      × ((c : ℕ) → (q : Sys) × (schedule r c ≡ some q))
Reach-exclusive {s} {r} v run =
    let valid = Reach-WellFormed v run in
    (one_cpu valid, runs valid, λ c. let (q, e, _, _, _) = schedule_lem r c valid in (q, e))
  where
    runs : WellFormed r → (t : ℕ) → (r.tasks t).state ≡ running → (c : ℕ) × (r.current c ≡ some t)
    runs valid t p = elim (Option-cases (r.tasks t).on_cpu) [
      | inl n ↦ absurd (valid.running_owned t p n)
      | inr (c, e) ↦ (c, valid.owned c t e)
    ]
