-- ===== src/Sched/Schedule.antt =====
-- `schedule` on every CPU.
use grinch.Prelude.{ℕ, ◌≡◌, ◌∙◌, ◌≢◌, Bool, false, none, some}
use grinch.Prelude.Maps.{update, In}
use grinch.Sched.{Sys, eligible, pick, schedule}
use grinch.Sched.Inv.{WellFormed}
use grinch.Sched.Activate.{activate_lem}
use grinch.Sched.Pick.{pick-CanRun, pick-none, pick-round_robin, round_robin}

-- The invariant does not read the flags.
flag-WellFormed :
    {s : Sys} (f : ℕ → Bool) → WellFormed s → WellFormed (record s { schedule_flag = f })
flag-WellFormed f v = record {
  owner = v.owner;
  owned = v.owned;
  running_owned = v.running_owned;
  listed = v.listed;
  ready = v.ready;
}

-- On a well-formed state `schedule` meets neither BUG() nor panic(). It keeps the invariant, makes
-- the first eligible task in round-robin order the current task of this CPU, and touches no other
-- CPU's.
pub schedule_lem :
    (s : Sys) (cpu : ℕ)
    → WellFormed s
    → (s' : Sys) × (schedule s cpu ≡ some s')
      × WellFormed s'
      × (s'.current cpu ≡ round_robin s cpu)
      × ((c : ℕ) → c ≢ cpu → s'.current c ≡ s.current c)
unfolding schedule
schedule_lem s cpu v =
    let f = update s.schedule_flag cpu false in
    let (s', e, valid, cur, _, others) =
      activate_lem (record s { schedule_flag = f }) cpu (pick s cpu) (flag-WellFormed f v)
        (pick-CanRun cpu v) in
    (s', e, valid, cur ∙ pick-round_robin cpu v, others)

-- On a well-formed state `schedule` leaves a CPU without a task only if no task of the list was
-- runnable and free for it.
pub schedule_work_conserving :
    (s s' : Sys) (cpu : ℕ)
    → WellFormed s
    → schedule s cpu ≡ some s'
    → s'.current cpu ≡ none
    → (t : ℕ) → In t s.task_list
    → eligible s cpu t ≡ false
schedule_work_conserving s s' cpu v e idle t h =
    let (s2, e2, _, cur, _) = schedule_lem s cpu v in
    pick-none cpu v (cc (pick-round_robin cpu v, cur, e2)) t h
