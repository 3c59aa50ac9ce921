-- ===== src/Sched/Sim.antt =====
-- Steps that leave alone what the scheduler's invariant reads: they wake a task or put it to sleep,
-- and move no task between CPUs or lists.
use mathlib.Core.Path.{subst}
use grinch.Prelude.{ℕ, ◌≡◌, refl, sym, ap, ◌∙◌, ◌⊎◌, inl, arith}
use grinch.Prelude.Maps.{In, update}
use grinch.Sched.{put_task, Task, Sys, runnable, wfe}
use grinch.Sched.Inv.{WellFormed}

-- What may happen to a task under such a step.
pub record TaskSim (t u : Task) : Type 0 where
  pub on_cpu : u.on_cpu ≡ t.on_cpu
  pub type : u.type ≡ t.type
  pub state : (u.state ≡ t.state) ⊎ (u.state ≡ runnable) ⊎ (u.state ≡ wfe)

pub record Sim (s r : Sys) : Type 0 where
  pub tasks : (t : ℕ) → TaskSim (s.tasks t) (r.tasks t)
  pub current : r.current ≡ s.current
  pub task_list : r.task_list ≡ s.task_list

pub TaskSim-refl : (t : Task) → TaskSim t t
TaskSim-refl t = record { on_cpu = refl; type = refl; state = inl refl }

pub Sim-refl : (s : Sys) → Sim s s
Sim-refl s = record { tasks = λ t. TaskSim-refl (s.tasks t); current = refl; task_list = refl }

pub Sim-trans : {s r q : Sys} → Sim s r → Sim r q → Sim s q
Sim-trans {s} {r} {q} a b = record {
  tasks = λ t. ground (arith, a.tasks t, b.tasks t);
  current = b.current ∙ a.current;
  task_list = b.task_list ∙ a.task_list;
}

pub Sim-WellFormed : {s r : Sys} → Sim s r → WellFormed s → WellFormed r
Sim-WellFormed {s} {r} m v = record {
  owner = λ c t p. (m.tasks t).on_cpu ∙ v.owner c t (sym (ap (λ f. f c) m.current) ∙ p);
  owned = λ c t p. ap (λ f. f c) m.current ∙ v.owned c t (sym (m.tasks t).on_cpu ∙ p);
  running_owned = λ t p. ground (arith, m.tasks t, v.running_owned t);
  listed =
      λ c t p. subst (In t) (sym m.task_list) (v.listed c t (sym (ap (λ f. f c) m.current) ∙ p));
  ready = λ t p. ground (arith, m.tasks t, v.ready t (subst (In t) m.task_list p));
}

-- A step that changes one task only.
pub put_task-Sim : (s : Sys) (t : ℕ) (v : Task) → TaskSim (s.tasks t) v → Sim s (put_task s t v)
unfolding update
put_task-Sim s t v m = record {
  tasks = λ u. ground (arith, m, TaskSim-refl (s.tasks u));
  current = refl;
  task_list = refl;
}
