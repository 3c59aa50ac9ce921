-- ===== src/Sched/Tests.antt =====
-- The scheduler on a machine with one parent and one child.
use grinch.Prelude.{ℕ, ◌≡◌, refl, ◌≢◌, inl, false, none, some, arith}
use grinch.Prelude.Maps.{update}
use grinch.Sched.{
  Sys, running, schedule, pick, eligible, pick_from, activate, first_eligible, from, before,
}
use grinch.Sched.Inv.{WellFormed}
use grinch.Sched.Example.{parent_task, child_task, machine, pair, pair-WellFormed}
use grinch.Sched.Pick.{round_robin}
use grinch.Sched.Schedule.{schedule_lem, schedule_work_conserving}
use grinch.Sched.System.{scheduled, here, more, Step-WellFormed, Reach-exclusive}

-- The next task in the circle is the child, since the parent is running already.
pick-pair : pick pair 0 ≡ some 2
unfolding pick pick_from first_eligible from before update
pick-pair = refl

-- CPU 1 takes the child.
pick_other : pick pair 1 ≡ some 2
unfolding pick first_eligible update
pick_other = refl

schedule_lem_example :
    (s' : Sys) × (schedule pair 1 ≡ some s')
    × WellFormed s'
    × (s'.current 1 ≡ round_robin pair 1)
    × ((c : ℕ) → c ≢ 1 → s'.current c ≡ pair.current c)
schedule_lem_example = schedule_lem pair 1 pair-WellFormed

-- CPU 1 schedules, and the child that it took exits there.
abbrev busy : Sys
busy = (schedule_lem pair 1 pair-WellFormed).0

busy_scheduled : schedule pair 1 ≡ some busy
busy_scheduled = (schedule_lem pair 1 pair-WellFormed).1

Step-WellFormed_example : WellFormed busy
Step-WellFormed_example = Step-WellFormed pair-WellFormed (scheduled 1 busy_scheduled)

Reach-exclusive_example :
    ((c d t : ℕ) → busy.current c ≡ some t → busy.current d ≡ some t → c ≡ d)
    × ((t : ℕ) → (busy.tasks t).state ≡ running → (c : ℕ) × (busy.current c ≡ some t))
    × ((c : ℕ) → (q : Sys) × (schedule busy c ≡ some q))
Reach-exclusive_example = Reach-exclusive pair-WellFormed (more here (scheduled 1 busy_scheduled))

-- CPU 2 finds nothing to do once CPU 1 has the child.
abbrev full : Sys
full =
    machine parent_task (record child_task { state = running; on_cpu = some 1 })
      (update (update (λ _. none) 0 (some 1)) 1 (some 2))

full-WellFormed : WellFormed full
unfolding update
full-WellFormed = record {
  owner = λ c t p. ground arith;
  owned = λ c t p. ground arith;
  running_owned = λ t p. ground arith;
  listed = λ c t p. ground arith;
  ready = λ t p. ground arith;
}

abbrev idle_cpu : Sys
idle_cpu = record full { schedule_flag = update full.schedule_flag 2 false }

full_idles : schedule full 2 ≡ some idle_cpu
unfolding schedule pick first_eligible activate update
full_idles = refl

schedule_work_conserving_example : eligible full 2 1 ≡ false
unfolding update
schedule_work_conserving_example =
    schedule_work_conserving full idle_cpu 2 full-WellFormed full_idles refl 1 (inl refl)
