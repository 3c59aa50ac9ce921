-- ===== src/Sched/Inv.antt =====
-- The invariant of the scheduler: which CPU runs which task.
use grinch.Prelude.{ℕ, ◌≡◌, ◌≢◌, ◌⊎◌, none, some}
use grinch.Prelude.Maps.{In}
use grinch.Sched.{Task, Sys, runnable, wfe, running, undef}

-- A task that stands in the scheduler's list can be run some day.
pub record IsReady (t : Task) : Type 0 where
  pub live : (t.state ≡ runnable) ⊎ (t.state ≡ wfe) ⊎ (t.state ≡ running)
  pub typed : t.type ≢ undef

pub record WellFormed (s : Sys) : Type 0 where
  pub owner : (c t : ℕ) → s.current c ≡ some t → (s.tasks t).on_cpu ≡ some c
  pub owned : (c t : ℕ) → (s.tasks t).on_cpu ≡ some c → s.current c ≡ some t
  pub running_owned : (t : ℕ) → (s.tasks t).state ≡ running → (s.tasks t).on_cpu ≢ none
  pub listed : (c t : ℕ) → s.current c ≡ some t → In t s.task_list
  pub ready : (t : ℕ) → In t s.task_list → IsReady (s.tasks t)

-- No task is the current task of two CPUs.
pub one_cpu :
    {s : Sys} → WellFormed s → (c d t : ℕ) → s.current c ≡ some t → s.current d ≡ some t → c ≡ d
one_cpu v c d t p q = cc (v.owner c t p, v.owner d t q)
