-- ===== src/Sched/Example.antt =====
-- A machine with a parent on CPU 0 and a child that may run, for the tests.
use grinch.Prelude.{ℕ, false, Option, none, some, [], ◌∷◌, arith}
use grinch.Prelude.Maps.{update}
use grinch.Sched.{Task, Sys, idle, init, runnable, running, process, undef}
use grinch.Sched.Inv.{WellFormed}

abbrev pub blank : Task
blank = record {
  pid = 0;
  state = init;
  on_cpu = none;
  parent = none;
  children = [];
  event = idle;
  exit_code = 0;
  type = undef;
  retval = 0;
  wstatus = none;
  timer_pending = false;
}

-- The parent runs on CPU 0, the child may run.
abbrev pub parent_task : Task
parent_task = record blank {
  pid = 1;
  state = running;
  on_cpu = some 0;
  children = 2 ∷ [];
  type = process;
}

abbrev pub child_task : Task
child_task = record blank { pid = 2; state = runnable; parent = some 1; type = process }

abbrev pub machine : Task → Task → (ℕ → Option ℕ) → Sys
machine p c current = record {
  tasks = update (update (λ _. blank) 1 p) 2 c;
  task_list = 1 ∷ 2 ∷ [];
  timer_list = [];
  current = current;
  schedule_flag = λ _. false;
  handle_events = λ _. false;
  next_pid = 3;
  init_task = 1;
}

abbrev pub pair : Sys
pair = machine parent_task child_task (update (λ _. none) 0 (some 1))

pub pair-WellFormed : WellFormed pair
unfolding update
pair-WellFormed = record {
  owner = λ c t p. ground arith;
  owned = λ c t p. ground arith;
  running_owned = λ t p. ground arith;
  listed = λ c t p. ground arith;
  ready = λ t p. ground arith;
}
