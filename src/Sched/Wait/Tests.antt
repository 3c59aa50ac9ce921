-- ===== src/Sched/Wait/Tests.antt =====
-- `wait` on a machine with one parent and one child.
use grinch.Prelude.{ℕ, ◌≢◌, inl, inr, ◌≡◌, refl, true, none, some, arith}
use grinch.Prelude.Maps.{update, In}
use grinch.Errno.{ok}
use grinch.Sched.{Sys, any, child, wfe, exit_dead}
use grinch.Sched.Example.{parent_task, child_task, machine, pair}
use grinch.Sched.Wait.{
  wait, search_children, found, collect_or_suspend, suspend, set_wfe, find_dead,
}
use grinch.Sched.Wait.AnyChild.{Waited, wait_any_lem}

-- The parent after a wait for which it has to sleep.
abbrev waiting : Sys
waiting = record pair {
  tasks =
      update (update pair.tasks 1 (record parent_task { event = child any none })) 1
        (record parent_task { event = child any none; state = wfe; on_cpu = none });
  schedule_flag = update pair.schedule_flag 0 true;
  current = update pair.current 0 none;
}

wait_sleeps : wait pair 0 1 any none 0 ≡ some (ok waiting)
unfolding wait search_children found collect_or_suspend suspend set_wfe find_dead update
wait_sleeps = refl

-- The child has exited with the code 7.
abbrev orphaned : Sys
orphaned = machine parent_task (record child_task { state = exit_dead; exit_code = 7 }) pair.current

family_of_parent :
    (c : ℕ) → In c (orphaned.tasks 1).children → (1 ≢ c) × ((orphaned.tasks c).parent ≡ some 1)
unfolding update
family_of_parent c (inl e) = (λ h. omega (arith, e, h), ground (arith, e))
family_of_parent c (inr e) = absurd e

wait_any_lem_example : Waited orphaned 0 1 (some 64)
unfolding update
wait_any_lem_example = wait_any_lem orphaned 0 1 (some 64) refl refl family_of_parent
