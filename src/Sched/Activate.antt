-- ===== src/Sched/Activate.antt =====
-- `task_activate` on a well-formed state: it meets no BUG() and no panic(), and keeps the invariant.
use grinch.Prelude.{
  ℕ, ◌≡◌, refl, sym, ap, ◌∙◌, ◌≢◌, ◌⊎◌, inl, inr, true, Option, none, some, arith, ℕ_discrete,
  Option-cases,
}
use grinch.Prelude.Maps.{update, update_twice, update_ne, update_self, In}
use grinch.Sched.{Sys, runnable, running, undef, claimable, put_task, leave, switch_to, activate}
use grinch.Sched.Inv.{WellFormed}

-- The state with this CPU's task taken off.
vacate : Sys → ℕ → ℕ → Sys
vacate s cpu old = record s {
  tasks = update s.tasks old (leave cpu (s.tasks old));
  current = update s.current cpu none;
}

vacate-WellFormed :
    {s : Sys} (cpu old : ℕ)
    → WellFormed s
    → s.current cpu ≡ some old
    → WellFormed (vacate s cpu old)
unfolding vacate leave update
vacate-WellFormed {s} cpu old v cur = record {
  owner = λ c t p. ground (arith, v.owner c t, v.owner cpu old cur);
  owned = λ c t p. ground (arith, v.owned c t, v.owner cpu old cur);
  running_owned = λ t p. ground (arith, v.running_owned t, v.owner cpu old cur);
  listed = λ c t p. ground (arith, v.listed c t);
  ready = λ t p. ground (arith, v.ready t p);
}

-- The state with a task put on this CPU.
occupy : Sys → ℕ → ℕ → Sys
occupy s cpu t =
    put_task (record s { current = update s.current cpu (some t) }) t
      (record (s.tasks t) { state = running; on_cpu = some cpu })

occupy-WellFormed :
    {s : Sys} (cpu t : ℕ)
    → WellFormed s
    → s.current cpu ≡ none
    → (s.tasks t).on_cpu ≡ none
    → In t s.task_list
    → WellFormed (occupy s cpu t)
unfolding occupy update
occupy-WellFormed {s} cpu t v free unowned listed = record {
  owner = λ c u p. ground (arith, v.owner c u);
  owned = λ c u p. ground (arith, v.owned c u);
  running_owned = λ u p. ground (arith, v.running_owned u);
  listed = λ c u p. ground (arith, v.listed c u);
  ready = λ u p. ground (arith, v.ready u p, v.ready t listed);
}

resume-WellFormed :
    {s : Sys} (t : ℕ)
    → WellFormed s
    → (s.tasks t).on_cpu ≢ none
    → WellFormed (put_task s t (record (s.tasks t) { state = running }))
unfolding update
resume-WellFormed {s} t v busy = record {
  owner = λ c u p. ground (arith, v.owner c u);
  owned = λ c u p. ground (arith, v.owned c u);
  running_owned = λ u p. ground (arith, v.running_owned u);
  listed = λ c u p. v.listed c u p;
  ready = λ u p. ground (arith, v.ready u p);
}

-- What `schedule` may hand to `task_activate`.
abbrev pub CanRun : Sys → ℕ → Option ℕ → Type 0
CanRun s cpu none = Unit
CanRun s cpu (some t) =
    In t s.task_list
    × (claimable cpu (s.tasks t) ≡ true)
    × (((s.tasks t).state ≡ runnable) ⊎ (((s.tasks t).state ≡ running) × (s.current cpu ≡ some t)))

-- A task that this CPU may claim and that is not its current task belongs to no CPU.
unowned :
    {s : Sys} (cpu t : ℕ)
    → WellFormed s
    → claimable cpu (s.tasks t) ≡ true
    → s.current cpu ≢ some t
    → (s.tasks t).on_cpu ≡ none
unowned {s} cpu t v free other = ground (arith, v.owned cpu t)

abbrev Activated : Sys → ℕ → Option ℕ → Option Sys → Type 0
Activated s cpu o r =
    (s' : Sys) × (r ≡ some s')
    × WellFormed s'
    × (s'.current cpu ≡ o)
    × (s'.task_list ≡ s.task_list)
    × ((c : ℕ) → c ≢ cpu → s'.current c ≡ s.current c)

-- A runnable task of a known type is put on the CPU.
switch_to-occupy :
    (s : Sys) (cpu t : ℕ)
    → (s.tasks t).state ≡ runnable
    → (s.tasks t).type ≢ undef
    → switch_to s cpu (some t) ≡ some (occupy s cpu t)
unfolding switch_to occupy
switch_to-occupy s cpu t r k = ground arith

current-occupy : (s : Sys) (cpu t : ℕ) → (occupy s cpu t).current cpu ≡ some t
unfolding occupy
current-occupy s cpu t = update_self s.current cpu (some t)

task_list-occupy : (s : Sys) (cpu t : ℕ) → (occupy s cpu t).task_list ≡ s.task_list
unfolding occupy
task_list-occupy s cpu t = refl

current-occupy_ne : (s : Sys) (cpu t c : ℕ) → c ≢ cpu → (occupy s cpu t).current c ≡ s.current c
unfolding occupy
current-occupy_ne s cpu t c ne = update_ne s.current cpu c (some t) ne

activate_idle :
    {s : Sys} (cpu : ℕ) (o : Option ℕ)
    → WellFormed s
    → CanRun s cpu o
    → s.current cpu ≡ none
    → Activated s cpu o (activate s cpu o)
activate_idle {s} cpu none v can e =
    (s, unfold activate in (ground arith), v, e, refl, λ c ne. refl)
activate_idle {s} cpu (some t) v can e =
    let free = unowned cpu t v can.1 (λ p. cc) in
    let fresh : (s.tasks t).state ≡ runnable = ground arith in
    (
      occupy s cpu t,
      unfold activate in (ground (arith, switch_to-occupy s cpu t fresh (v.ready t can.0).typed)),
      occupy-WellFormed cpu t v e free can.0,
      current-occupy s cpu t,
      task_list-occupy s cpu t,
      λ c ne. current-occupy_ne s cpu t c ne,
    )

-- Taking `old` off and putting `t` on, in the order of the code.
handover :
    (s : Sys) (cpu old t : ℕ)
    → old ≢ t
    → occupy (put_task s old (leave cpu (s.tasks old))) cpu t ≡ occupy (vacate s cpu old) cpu t
unfolding occupy vacate
handover s cpu old t ne =
    ap
      (λ f.
        put_task (record s { tasks = update s.tasks old (leave cpu (s.tasks old)); current = f }) t
          (record (update s.tasks old (leave cpu (s.tasks old)) t) {
            state = running;
            on_cpu = some cpu;
          }))
      (sym (update_twice s.current cpu none (some t)))

activate_running :
    (s : Sys) (cpu t : ℕ)
    → s.current cpu ≡ some t
    → (s.tasks t).state ≡ running
    → activate s cpu (some t) ≡ some s
unfolding activate
activate_running s cpu t e r = ground arith

activate_again :
    (s : Sys) (cpu t : ℕ)
    → s.current cpu ≡ some t
    → (s.tasks t).state ≡ runnable
    → activate s cpu (some t) ≡ some (put_task s t (record (s.tasks t) { state = running }))
unfolding activate
activate_again s cpu t e r = ground arith

activate_other :
    (s : Sys) (cpu old t : ℕ)
    → s.current cpu ≡ some old
    → old ≢ t
    → activate s cpu (some t) ≡ switch_to (put_task s old (leave cpu (s.tasks old))) cpu (some t)
unfolding activate
activate_other s cpu old t e ne = ground arith

tasks-vacate_ne : (s : Sys) (cpu old t : ℕ) → old ≢ t → (vacate s cpu old).tasks t ≡ s.tasks t
unfolding vacate update
tasks-vacate_ne s cpu old t ne = ground arith

activate-none :
    (s : Sys) (cpu old : ℕ)
    → s.current cpu ≡ some old
    → activate s cpu none ≡ some (vacate s cpu old)
unfolding activate vacate
activate-none s cpu old e = ground arith

other_task : (s : Sys) {cpu old t : ℕ} → s.current cpu ≡ some old → old ≢ t → s.current cpu ≢ some t
other_task s e ne p = ground arith

fresh_of : {A : Type 0} {P Q : Type 0} → (P ⊎ (Q × A)) → ¬ A → P
fresh_of (inl p) _ = p
fresh_of (inr (_, a)) n = absurd (n a)

activate_busy :
    {s : Sys} (cpu old : ℕ) (o : Option ℕ)
    → WellFormed s
    → CanRun s cpu o
    → s.current cpu ≡ some old
    → Activated s cpu o (activate s cpu o)
unfolding vacate
activate_busy {s} cpu old none v can e = (
  vacate s cpu old,
  activate-none s cpu old e,
  vacate-WellFormed cpu old v e,
  update_self s.current cpu none,
  refl,
  λ c ne. update_ne s.current cpu c none ne,
)
activate_busy {s} cpu old (some t) v can e = elim (ℕ_discrete old t) [
  | yes same ↦
      let cur : s.current cpu ≡ some t = e ∙ ap some same in
      elim can.2 [
        | inl fresh ↦ (
          put_task s t (record (s.tasks t) { state = running }),
          activate_again s cpu t cur fresh,
          resume-WellFormed t v (λ p. cc (v.owner cpu t cur)),
          cur,
          refl,
          λ c ne. refl,
        )
        | inr (run, _) ↦ (s, activate_running s cpu t cur run, v, cur, refl, λ c ne. refl)
      ]
  | no other ↦
      let s' = put_task s old (leave cpu (s.tasks old)) in
      let free = unowned cpu t v can.1 (other_task s e other) in
      let fresh : (s.tasks t).state ≡ runnable = fresh_of can.2 (other_task s e other) in
      let same : (vacate s cpu old).tasks t ≡ s.tasks t = tasks-vacate_ne s cpu old t other in
      (
        occupy (vacate s cpu old) cpu t,
        activate_other s cpu old t e other
            ∙ switch_to-occupy s' cpu t (ap (λ k. k.state) same ∙ fresh)
                (λ k. (v.ready t can.0).typed (sym (ap (λ k. k.type) same) ∙ k))
            ∙ ap some (handover s cpu old t other),
        occupy-WellFormed cpu t (vacate-WellFormed cpu old v e) (update_self s.current cpu none)
            (ap (λ k. k.on_cpu) same ∙ free) can.0,
        current-occupy (vacate s cpu old) cpu t,
        task_list-occupy (vacate s cpu old) cpu t,
        λ c ne. current-occupy_ne (vacate s cpu old) cpu t c ne ∙ update_ne s.current cpu c none ne,
      )
]

-- `task_activate` of what this CPU may run meets neither BUG() nor panic(), keeps the invariant,
-- and makes it the current task of this CPU.
pub activate_lem :
    (s : Sys) (cpu : ℕ) (o : Option ℕ)
    → WellFormed s
    → CanRun s cpu o
    → (s' : Sys) × (activate s cpu o ≡ some s')
      × WellFormed s'
      × (s'.current cpu ≡ o)
      × (s'.task_list ≡ s.task_list)
      × ((c : ℕ) → c ≢ cpu → s'.current c ≡ s.current c)
activate_lem s cpu o v can = elim (Option-cases (s.current cpu)) [
  | inl e ↦ activate_idle cpu o v can e
  | inr (old, e) ↦ activate_busy cpu old o v can e
]
