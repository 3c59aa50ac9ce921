-- ===== src/Sched/Timer/Tests.antt =====
-- A task that sleeps, and the event of its timer.
use grinch.Prelude.{◌≡◌, refl, inl, true, false, some, [], ◌∷◌, arith}
use grinch.Prelude.Maps.{In, update, remove}
use grinch.Sched.{Sys, idle, timer, runnable, wfe, put_task}
use grinch.Sched.Example.{parent_task, child_task, machine, pair}
use grinch.Sched.Wait.{set_wfe}
use grinch.Sched.Timer.{sleep_until, asleep, add_sorted, handle_events, handle_loop, expire, wake}
use grinch.Sched.Timer.Handled.{handle_events_wakes}

-- The child sleeps until 50.
abbrev one_sleeps : Sys
one_sleeps =
    record (machine parent_task (record child_task { state = wfe; event = timer 50 })
      pair.current) { timer_list = 2 ∷ [] }

-- The parent goes to sleep until 30, before the child.
abbrev both_sleep : Sys
both_sleep = record (put_task one_sleeps 1 (record parent_task { state = wfe; event = timer 30 })) {
  timer_list = 1 ∷ 2 ∷ [];
  handle_events = update (λ _. false) 0 true;
}

parent_sleeps : sleep_until one_sleeps 0 1 30 ≡ some both_sleep
unfolding sleep_until asleep set_wfe add_sorted update remove
parent_sleeps = refl

-- At 40 the parent is woken, and the child sleeps on.
abbrev one_woken : Sys
one_woken = expire both_sleep 0 1

woken_at_40 : handle_events both_sleep 0 (λ _. 40) ≡ some (one_woken, some 2)
unfolding handle_events handle_loop expire wake update
woken_at_40 = refl

handle_events_wakes_example :
    ((one_woken.tasks 1).state ≡ runnable)
    × ((one_woken.tasks 1).event ≡ idle)
    × (¬ In 1 one_woken.timer_list)
handle_events_wakes_example =
    handle_events_wakes both_sleep 0 40 1 (unfold update in ((omega arith, tt), (tt, tt)))
      woken_at_40 (inl refl) (unfold update in omega arith) (unfold update in refl)
