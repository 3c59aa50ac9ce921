-- ===== src/Sched/Exit/Fork.antt =====
-- `fork` keeps the scheduler's invariant.
use mathlib.Core.Path.{subst}
use grinch.Prelude.{ℕ, ◌+◌, ◌≡◌, refl, ap, Bool, true, false, none, some, ◌∷◌, arith}
use grinch.Prelude.Maps.{In, update}
use grinch.Errno.{Result, ok, err, Errno, negated}
use grinch.Sched.{Task, Sys, init, runnable, process, put_task, enqueue}
use grinch.Sched.Inv.{WellFormed}
use mathlib.Core.Option.{some_inj}
use grinch.Sched.Sim.{Sim-WellFormed}
use grinch.Sched.Wait.{task_put}
use grinch.Sched.Wait.Laws.{task_put-Sim}
use grinch.Sched.Exit.{task_alloc_new, task_exit, fork, forked, fork_from, sched_all}
use grinch.Sched.Exit.Left.{OnlyHere}
use grinch.Sched.Exit.Laws.{task_exit-keeps}

-- A task that is in no list and on no CPU may become another one.
fresh-WellFormed :
    {s : Sys} (new : ℕ) (task : Task) (n : ℕ)
    → WellFormed s
    → ¬ In new s.task_list
    → task.on_cpu ≡ none
    → task.state ≡ init
    → WellFormed (record (put_task s new task) { next_pid = n })
unfolding update
fresh-WellFormed {s} new task n v fresh off state = record {
  owner = λ c u p. ground (arith, v.owner c u, v.listed c u p, fresh);
  owned = λ c u p. ground (arith, v.owned c u, off);
  running_owned = λ u p. ground (arith, v.running_owned u, state);
  listed = λ c u p. v.listed c u p;
  ready = λ u p. ground (arith, v.ready u p, fresh);
}

-- The end of a `fork` that succeeds.
born-WellFormed :
    {s : Sys} (this new : ℕ)
    → WellFormed s
    → (s.tasks new).state ≡ init
    → (s.tasks new).type ≡ process
    → ¬ In new s.task_list
    → WellFormed (
        let s1 = put_task s new (record (s.tasks new) { state = runnable }) in
        let s2 =
          put_task s1 this (record (s1.tasks this) { children = new ∷ (s1.tasks this).children }) in
        sched_all (enqueue s2 new))
unfolding update enqueue sched_all
born-WellFormed {s} this new v state kind fresh = record {
  owner = λ c u p. ground (arith, v.owner c u);
  owned = λ c u p. ground (arith, v.owned c u);
  running_owned = λ u p. ground (arith, v.running_owned u);
  listed = λ c u p. ground (arith, v.listed c u p);
  ready = λ u p. ground (arith, v.ready u, p, state, kind);
}

forked-fields :
    (s : Sys) (this new : ℕ)
    → let r = forked s this new in
      ((r.tasks new).state ≡ init)
      × ((r.tasks new).type ≡ process)
      × ((r.tasks new).parent ≡ some this)
      × (r.current ≡ s.current)
      × (r.task_list ≡ s.task_list)
unfolding forked task_alloc_new update
forked-fields s this new = ground arith

forked-WellFormed :
    {s : Sys} (this new : ℕ) → WellFormed s → ¬ In new s.task_list → WellFormed (forked s this new)
unfolding forked task_alloc_new update
forked-WellFormed {s} this new v fresh = record {
  owner = λ c u p. ground (arith, v.owner c u, v.listed c u p, fresh);
  owned = λ c u p. ground (arith, v.owned c u);
  running_owned = λ u p. ground (arith, v.running_owned u);
  listed = λ c u p. v.listed c u p;
  ready = λ u p. ground (arith, v.ready u p, fresh);
}

-- The way out of `fork` that takes the child back.
undone :
    (s : Sys) {r : Sys} {x : Result ℕ} (cpu this new : ℕ) (e : Errno)
    → fork_from s cpu this new (err e) ≡ some (r, x)
    → (q : Sys) × (task_exit s cpu new (negated e) ≡ some q) × (task_put q new ≡ some r)
unfolding fork_from
undone s cpu this new e h = grind arith

fork_from-WellFormed :
    {s r : Sys} {x : Result ℕ} (cpu this new : ℕ) (copied : Result (Unit {0}))
    → WellFormed s
    → ¬ In new s.task_list
    → (s.tasks new).state ≡ init
    → (s.tasks new).type ≡ process
    → (s.tasks new).parent ≡ some this
    → fork_from s cpu this new copied ≡ some (r, x)
    → WellFormed r
unfolding fork_from
fork_from-WellFormed {s} {r} cpu this new (ok _) v fresh state kind par e =
    subst WellFormed (ap (λ k. k.0) (some_inj.0 e)) (born-WellFormed this new v state kind fresh)
fork_from-WellFormed {s} {r} cpu this new (err e) v fresh state kind par h =
    let (q, left, put) = undone s cpu this new e h in
    let here : OnlyHere s cpu new = λ c p. absurd (fresh (v.listed c new p)) in
    Sim-WellFormed (task_put-Sim q new put)
      (task_exit-keeps s cpu this new (negated e) v here par (ground arith) left)

-- `fork` of a child at a fresh address keeps the scheduler's invariant, on each of its ways out.
pub fork-WellFormed :
    {s r : Sys} {x : Result ℕ} (cpu this new : ℕ) (memory table : Bool) (copied : Result (Unit {0}))
    → WellFormed s
    → ¬ In new s.task_list
    → fork s cpu this new memory table copied ≡ some (r, x)
    → WellFormed r
unfolding fork
fork-WellFormed {s} cpu this new true true copied v fresh e =
    let (state, kind, par, _, list) = forked-fields s this new in
    fork_from-WellFormed cpu this new copied (forked-WellFormed this new v fresh)
      (λ q. fresh (subst (In new) list q)) state kind par e
fork-WellFormed {s} cpu this new true false copied v fresh e =
    subst WellFormed (ap (λ k. k.0) (some_inj.0 e))
      (unfold task_alloc_new in fresh-WellFormed new _ (s.next_pid + 1) v fresh refl refl)
fork-WellFormed cpu this new false table copied v fresh e =
    subst WellFormed (ap (λ k. k.0) (some_inj.0 e)) v
