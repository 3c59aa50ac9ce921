-- ===== src/Sched/Wait/AnyChild.antt =====
-- `wait(-1)`, the wait for any child.
use grinch.Prelude.{
  ℕ, ◌≡◌, refl, ◌≢◌, ◌⊎◌, inl, inr, true, Bool-cases, Option, none, some, List, [], ◌∷◌, arith,
  Option-cases,
}
use grinch.Prelude.Maps.{update, remove, In}
use grinch.Errno.{ok, err, echild}
use grinch.Sched.{Sys, any, idle, child, running, wfe, exit_dead, is_dead, release_cpu, put_task}
use grinch.Sched.Wait.{
  told, find_dead, set_wfe, suspend, collect_or_suspend, found, search_children, wait,
}
use grinch.Sched.Wait.Laws.{wait_any_dead, find_dead-some}

find_dead-In : (s : Sys) (cs : List ℕ) {c : ℕ} → find_dead s cs ≡ some c → In c cs
unfolding find_dead
find_dead-In s [] e = absurd (ground arith)
find_dead-In s (d ∷ ds) {c} e = elim (Bool-cases (is_dead (s.tasks d).state)) [
  | inl dead ↦ inl (ground (arith, dead, e))
  | inr alive ↦ inr (find_dead-In s ds (ground (arith, alive, e)))
]

find_dead-none :
    (s : Sys) (cs : List ℕ) (c : ℕ)
    → find_dead s cs ≡ none
    → In c cs
    → (s.tasks c).state ≢ exit_dead
unfolding find_dead
find_dead-none s [] c e there = absurd there
find_dead-none s (d ∷ ds) c e (inl same) = λ dead. ground (arith, same, dead, e)
find_dead-none s (d ∷ ds) c e (inr there) = elim (Bool-cases (is_dead (s.tasks d).state)) [
  | inl dead ↦ absurd (ground (arith, dead, e))
  | inr alive ↦ find_dead-none s ds c (ground (arith, alive, e)) there
]

-- The task has left its CPU, which is to schedule, and waits for a child.
abbrev pub Sleeps : Sys → ℕ → ℕ → Option ℕ → Sys → Type 0
Sleeps s cpu t status r =
    (r.tasks t ≡ record (s.tasks t) { event = child any status; state = wfe; on_cpu = none })
    × (r.current cpu ≡ none)
    × ((c : ℕ) → c ≢ cpu → r.current c ≡ s.current c)
    × (r.schedule_flag cpu ≡ true)

wait_any_alive :
    (s : Sys) (cpu t d : ℕ) (ds : List ℕ) (status : Option ℕ)
    → (s.tasks t).event ≡ idle
    → (s.tasks t).state ≡ running
    → (s.tasks t).children ≡ d ∷ ds
    → find_dead s (s.tasks t).children ≡ none
    → (r : Sys) × (wait s cpu t any status 0 ≡ some (ok r)) × Sleeps s cpu t status r
unfolding wait search_children found collect_or_suspend suspend set_wfe update
wait_any_alive s cpu t d ds status free runs some_child alive =
    let s' = put_task s t (record (s.tasks t) { event = child any status }) in
    let asleep = record (s.tasks t) { event = child any status; state = wfe } in
    (
      record (put_task s' t (release_cpu asleep)) {
        schedule_flag = update s'.schedule_flag cpu true;
        current = update s'.current cpu none;
      },
      ground (arith, free, runs, some_child, alive),
      (ground arith, ground arith, λ c ne. ground (arith, ne), ground arith),
    )

-- The task goes on with what it is told of the dead child, which has left its list.
abbrev pub Collects : Sys → ℕ → Option ℕ → ℕ → Sys → Type 0
Collects s t status c r =
    r.tasks t ≡ record (told (s.tasks t) status (s.tasks c).pid (s.tasks c).exit_code) {
      children = remove c (s.tasks t).children;
      event = idle;
    }

-- The three ends of `wait(-1)`.
abbrev pub Waited : Sys → ℕ → ℕ → Option ℕ → Type 0
Waited s cpu t status =
    (((s.tasks t).children ≡ []) × (wait s cpu t any status 0 ≡ some (err echild)))
    ⊎ (((c : ℕ) × In c (s.tasks t).children
          × ((s.tasks c).state ≡ exit_dead)
          × ((r : Sys) × (wait s cpu t any status 0 ≡ some (ok r)) × Collects s t status c r))
        ⊎ (((c : ℕ) → In c (s.tasks t).children → (s.tasks c).state ≢ exit_dead)
            × ((r : Sys) × (wait s cpu t any status 0 ≡ some (ok r)) × Sleeps s cpu t status r)))

no_children :
    (s : Sys) (cpu t : ℕ) (status : Option ℕ)
    → (s.tasks t).children ≡ []
    → wait s cpu t any status 0 ≡ some (err echild)
unfolding wait search_children
no_children s cpu t status e = ground (arith, e)

-- `wait(-1)` of a running task that waits for nothing, and is the parent of its children and not one
-- of them, never ends in BUG(). It answers ECHILD if the task has no children. If
-- a child is dead, it collects one: the task gets the child's pid as its return value and its status
-- word noted, and the child leaves the list. If there are children and none is dead, the task leaves
-- its CPU, no other CPU loses its task, and it waits for any child.
pub wait_any_lem :
    (s : Sys) (cpu t : ℕ) (status : Option ℕ)
    → (s.tasks t).event ≡ idle
    → (s.tasks t).state ≡ running
    → ((c : ℕ) → In c (s.tasks t).children → (t ≢ c) × ((s.tasks c).parent ≡ some t))
    → Waited s cpu t status
wait_any_lem s cpu t status free runs family = by_children (s.tasks t).children refl
  where
    by_children : (cs : List ℕ) → (s.tasks t).children ≡ cs → Waited s cpu t status
    by_children [] e = inl (e, no_children s cpu t status e)
    by_children (d ∷ ds) e = elim (Option-cases (find_dead s (s.tasks t).children)) [
      | inl alive ↦ inr (
          inr (
            λ c there. find_dead-none s (s.tasks t).children c alive there,
            wait_any_alive s cpu t d ds status free runs e alive,
          ))
      | inr (c, dead) ↦
          let there = find_dead-In s (s.tasks t).children dead in
          let (ne, parent) = family c there in
          inr (
            inl (
              c,
              there,
              (find_dead-some s (s.tasks t).children dead).0,
              wait_any_dead s cpu t c status ne free dead parent,
            ))
    ]
