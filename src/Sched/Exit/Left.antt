-- ===== src/Sched/Exit/Left.antt =====
-- What an exit changes for the scheduler: the dying task leaves the list and its CPU.
use mathlib.Core.Path.{subst}
use grinch.Prelude.{ℕ, ◌≡◌, sym, ap, ◌∙◌, ◌≢◌, ◌⊎◌, inl, inr, none, some, arith, Option-cases}
use grinch.Prelude.Maps.{
  In, update, update_self, update_ne, remove, not-In-remove, In-remove, In-remove_ne,
}
use grinch.Sched.{Task, Sys, exit_dead, undef, put_task}
use grinch.Sched.Inv.{WellFormed}
use grinch.Sched.Timer.{cancel_timer}
use grinch.Sched.Exit.{reparent, leave_cpu, die}
use grinch.Sched.Exit.Family.{Kin, reparent-Family, parent-reparent}

-- What an exit changes for the scheduler: the task is dead, off the list and off every CPU.
pub record Left (t code : ℕ) (s r : Sys) : Type 0 where
  pub gone_state : (r.tasks t).state ≡ exit_dead
  pub last_code : (r.tasks t).exit_code ≡ code
  pub gone_cpu : (r.tasks t).on_cpu ≡ none
  pub others : (u : ℕ) → u ≢ t → Kin (s.tasks u) (r.tasks u)
  pub last_pid : (r.tasks t).pid ≡ (s.tasks t).pid
  pub current :
      (c : ℕ)
      → (r.current c ≡ s.current c) × (s.current c ≢ some t)
        ⊎ (r.current c ≡ none) × (s.current c ≡ some t)
  pub task_list : r.task_list ≡ remove t s.task_list

pub Left-WellFormed : {s r : Sys} (t code : ℕ) → Left t code s r → WellFormed s → WellFormed r
Left-WellFormed {s} {r} t code l v = record {
  owner = λ c u p. ground (arith, l.current c, l.others u, v.owner c u);
  owned = λ c u p. ground (arith, l.current c, l.others u, v.owned c u, l.gone_cpu);
  running_owned = λ u p. ground (arith, l.others u, v.running_owned u, l.gone_state);
  listed = λ c u p. subst (In u) (sym l.task_list) (
      In-remove_ne t u s.task_list (ground (arith, l.current c))
        (v.listed c u (ground (arith, l.current c))));
  ready = λ u p.
      let q : In u (remove t s.task_list) = subst (In u) l.task_list p in
      let ne : u ≢ t =
        λ e. not-In-remove t s.task_list (subst (λ x. In x (remove t s.task_list)) e q) in
      ground (arith, l.others u, v.ready u (In-remove t u s.task_list q));
}

-- The state once the timer is cancelled and the task is off the list and dead.
pub record Dying (t code : ℕ) (s r : Sys) : Type 0 where
  state : (r.tasks t).state ≡ exit_dead
  last_code : (r.tasks t).exit_code ≡ code
  same_pid : (r.tasks t).pid ≡ (s.tasks t).pid
  same_cpu : (r.tasks t).on_cpu ≡ (s.tasks t).on_cpu
  others : (u : ℕ) → u ≢ t → Kin (s.tasks u) (r.tasks u)
  current : r.current ≡ s.current
  task_list : r.task_list ≡ remove t s.task_list

unfoldable pub dequeued : Sys → ℕ → Sys
dequeued s t = let s1 = cancel_timer s t in record s1 { task_list = remove t s1.task_list }

pub dequeued-fields :
    (s : Sys) (t : ℕ)
    → let r = dequeued s t in
      ((r.tasks t).type ≡ (s.tasks t).type)
      × ((r.tasks t).pid ≡ (s.tasks t).pid)
      × ((r.tasks t).on_cpu ≡ (s.tasks t).on_cpu)
      × ((r.tasks t).parent ≡ (s.tasks t).parent)
      × ((r.tasks t).children ≡ (s.tasks t).children)
      × (r.current ≡ s.current)
      × (r.task_list ≡ remove t s.task_list)
unfolding dequeued cancel_timer update
dequeued-fields s t = ground arith

dequeued-others : (s : Sys) (t u : ℕ) → u ≢ t → (dequeued s t).tasks u ≡ s.tasks u
unfolding dequeued cancel_timer update
dequeued-others s t u ne = ground arith

abbrev dead_task : Task → ℕ → Task
dead_task task code = record task { state = exit_dead; exit_code = code }

pub die-some :
    (s : Sys) (t code : ℕ)
    → (s.tasks t).type ≢ undef
    → die s t code ≡ some (put_task s t (dead_task (s.tasks t) code))
unfolding die
die-some s t code k = ground arith

-- The state that `task_exit` reaches just before it gives up the CPU.
unfoldable pub dying : Sys → ℕ → ℕ → Sys
dying s t code =
    let s2 = dequeued s t in
    let s3 = put_task s2 t (dead_task (s2.tasks t) code) in reparent s3 t (s3.tasks t).children

pub dying-Dying : (s : Sys) (t code : ℕ) → Dying t code s (dying s t code)
unfolding dying
dying-Dying s t code =
    let s2 = dequeued s t in
    let s3 = put_task s2 t (dead_task (s2.tasks t) code) in
    let cs = (s3.tasks t).children in
    let f = reparent-Family s3 t cs in
    let (_, pid, cpu, parent, children, current, list) = dequeued-fields s t in
    let own : s3.tasks t ≡ dead_task (s2.tasks t) code = update_self s2.tasks t _ in
    record {
      state = (f.tasks t).state ∙ ap (λ k. k.state) own;
      last_code = (f.tasks t).exit_code ∙ ap (λ k. k.exit_code) own;
      same_pid = (f.tasks t).pid ∙ ap (λ k. k.pid) own ∙ pid;
      same_cpu = (f.tasks t).on_cpu ∙ ap (λ k. k.on_cpu) own ∙ cpu;
      others = λ u ne.
          subst (λ k. Kin k ((reparent s3 t cs).tasks u))
            (update_ne s2.tasks t u _ ne ∙ dequeued-others s t u ne) (f.tasks u);
      current = f.current ∙ current;
      task_list = f.task_list ∙ list;
    }

-- The task is on no CPU but perhaps this one.
abbrev pub OnlyHere : Sys → ℕ → ℕ → Type 0
OnlyHere s cpu t = (c : ℕ) → s.current c ≡ some t → c ≡ cpu

pub dying-parent :
    (s : Sys) (t code : ℕ)
    → ¬ In t (s.tasks t).children
    → ((dying s t code).tasks t).parent ≡ (s.tasks t).parent
unfolding dying
dying-parent s t code h =
    let s2 = dequeued s t in
    let s3 = put_task s2 t (dead_task (s2.tasks t) code) in
    let (_, pid, cpu, parent, children, current, list) = dequeued-fields s t in
    let own : s3.tasks t ≡ dead_task (s2.tasks t) code = update_self s2.tasks t _ in
    parent-reparent s3 t (s3.tasks t).children
      (λ q. h (subst (In t) (ap (λ k. k.children) own ∙ children) q))
    ∙ ap (λ k. k.parent) own
    ∙ parent

pub leave_cpu-parent :
    (r : Sys) (cpu t : ℕ) → ((leave_cpu r cpu t).tasks t).parent ≡ (r.tasks t).parent
unfolding leave_cpu update
leave_cpu-parent r cpu t = ground arith

pub leave_cpu-Left :
    {s r : Sys} (cpu t code : ℕ)
    → WellFormed s
    → OnlyHere s cpu t
    → Dying t code s r
    → Left t code s (leave_cpu r cpu t)
unfolding leave_cpu update
leave_cpu-Left {s} {r} cpu t code v here d =
    let same = λ (c : ℕ). ap (λ f. f c) d.current in
    record {
      gone_state = ground (arith, d.state);
      last_code = ground (arith, d.last_code);
      gone_cpu = ground (arith, d.same_cpu, same cpu, on_cpu_here);
      others = λ u ne. ground (arith, d.others u ne);
      last_pid = ground (arith, d.same_pid);
      current = λ c. ground (arith, same c, same cpu, here c);
      task_list = ground (arith, d.task_list);
    }
  where
    on_cpu_here :
        ((s.tasks t).on_cpu ≡ none) ⊎ ((s.tasks t).on_cpu ≡ some cpu) × (s.current cpu ≡ some t)
    on_cpu_here = elim (Option-cases (s.tasks t).on_cpu) [
      | inl e ↦ inl e
      | inr (c, e) ↦
          let cur = v.owned c t e in
          let p = here c cur in inr (e ∙ ap some p, subst (λ k. s.current k ≡ some t) p cur)
    ]
