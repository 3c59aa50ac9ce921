-- ===== src/Sched/Pick.antt =====
-- Which task `schedule` chooses: a round-robin scan that starts at the current task.
use grinch.Prelude.{
  ℕ, ◌≡◌, refl, sym, ap, ◌∙◌, ◌⊎◌, inl, inr, true, false, Option, none, some, List, [], ◌∷◌, ◌++◌,
  arith, Option-cases,
}
use mathlib.Core.Path.{subst}
use grinch.Prelude.Maps.{In}
use grinch.Sched.Inv.{WellFormed}
use grinch.Sched.Activate.{CanRun}
use grinch.Sched.{
  Sys, running, eligible, first_eligible, from, before, keep_running, or_else, pick_single,
  pick_from, pick,
}

pub first_eligible-some :
    (s : Sys) (cpu : ℕ) (ts : List ℕ) {t : ℕ}
    → first_eligible s cpu ts ≡ some t
    → In t ts × (eligible s cpu t ≡ true)
unfolding first_eligible
first_eligible-some s cpu [] e = cc
first_eligible-some s cpu (u ∷ us) {t} e = ground (arith, first_eligible-some s cpu us {t = t})

pub first_eligible-none :
    (s : Sys) (cpu : ℕ) (ts : List ℕ) (t : ℕ)
    → first_eligible s cpu ts ≡ none
    → In t ts
    → eligible s cpu t ≡ false
unfolding first_eligible
first_eligible-none s cpu [] t e h = absurd h
first_eligible-none s cpu (u ∷ us) t e h = ground (arith, first_eligible-none s cpu us t)

first_eligible-append :
    (s : Sys) (cpu : ℕ) (ts us : List ℕ)
    → first_eligible s cpu (ts ++ us) ≡ or_else (first_eligible s cpu ts) (first_eligible s cpu us)
unfolding first_eligible
first_eligible-append s cpu [] us = refl
first_eligible-append s cpu (t ∷ ts) us = ground (arith, first_eligible-append s cpu ts us)

-- The list from the current task on, and then from its start: the order of the scans.
abbrev pub rotation : Option ℕ → List ℕ → List ℕ
rotation none ts = ts
rotation (some cur) ts = from cur ts ++ before cur ts

In-append_left : (t : ℕ) (xs ys : List ℕ) → In t xs → In t (xs ++ ys)
In-append_left t [] ys h = absurd h
In-append_left t (x ∷ xs) ys h = ground (arith, In-append_left t xs ys)

In-append_right : (t : ℕ) (xs ys : List ℕ) → In t ys → In t (xs ++ ys)
In-append_right t [] ys h = h
In-append_right t (x ∷ xs) ys h = inr (In-append_right t xs ys h)

In-append : (t : ℕ) (xs ys : List ℕ) → In t (xs ++ ys) → In t xs ⊎ In t ys
In-append t [] ys h = inr h
In-append t (x ∷ xs) ys h = ground (arith, In-append t xs ys)

from_or_before : (cur t : ℕ) (ts : List ℕ) → In t ts → In t (from cur ts) ⊎ In t (before cur ts)
unfolding from before
from_or_before cur t [] h = absurd h
from_or_before cur t (u ∷ us) h = ground (arith, from_or_before cur t us)

In-from : (cur t : ℕ) (ts : List ℕ) → In t (from cur ts) → In t ts
unfolding from
In-from cur t [] h = h
In-from cur t (u ∷ us) h = ground (arith, In-from cur t us)

In-before : (cur t : ℕ) (ts : List ℕ) → In t (before cur ts) → In t ts
unfolding before
In-before cur t [] h = h
In-before cur t (u ∷ us) h = ground (arith, In-before cur t us)

pub In-rotation : (o : Option ℕ) (t : ℕ) (ts : List ℕ) → In t ts → In t (rotation o ts)
In-rotation none t ts h = h
In-rotation (some cur) t ts h = elim (from_or_before cur t ts h) [
  | inl p ↦ In-append_left t (from cur ts) (before cur ts) p
  | inr q ↦ In-append_right t (from cur ts) (before cur ts) q
]

In-of_rotation : (o : Option ℕ) (t : ℕ) (ts : List ℕ) → In t (rotation o ts) → In t ts
In-of_rotation none t ts h = h
In-of_rotation (some cur) t ts h = elim (In-append t (from cur ts) (before cur ts) h) [
  | inl p ↦ In-from cur t ts p
  | inr q ↦ In-before cur t ts q
]

-- Where no other task is eligible, a running task goes on.
abbrev pub kept : Sys → Option ℕ → Option ℕ
kept s none = none
kept s (some cur) = keep_running s cur

abbrev pub round_robin : Sys → ℕ → Option ℕ
round_robin s cpu =
    or_else (first_eligible s cpu (rotation (s.current cpu) s.task_list)) (kept s (s.current cpu))

or_else-none : (o : Option ℕ) → or_else o none ≡ o
or_else-none none = refl
or_else-none (some t) = refl

or_else_assoc : (a b c : Option ℕ) → or_else a (or_else b c) ≡ or_else (or_else a b) c
or_else_assoc none b c = refl
or_else_assoc (some t) b c = refl

-- The shortcut for a list of one task gives what the two scans would.
single_lem :
    {s : Sys} (cpu cur t : ℕ)
    → WellFormed s
    → s.current cpu ≡ some cur
    → s.task_list ≡ t ∷ []
    → pick_single s cpu t
      ≡ or_else
          (first_eligible s cpu (from cur (t ∷ []) ++ before cur (t ∷ [])))
          (keep_running s cur)
unfolding first_eligible from before
single_lem {s} cpu cur t v e one =
    let listed : In cur (t ∷ []) = subst (In cur) one (v.listed cpu cur e) in
    let here : In t s.task_list = subst (In t) (sym one) (inl refl) in
    ground (arith, v.ready t here, v.owner cpu cur e, v.running_owned t, v.owned cpu t)

pick_from-rotation :
    {s : Sys} (cpu cur : ℕ) (ts : List ℕ)
    → WellFormed s
    → s.current cpu ≡ some cur
    → s.task_list ≡ ts
    → pick_from s cpu cur ts
      ≡ or_else (first_eligible s cpu (from cur ts ++ before cur ts)) (keep_running s cur)
unfolding pick_from
pick_from-rotation {s} cpu cur [] v e l = absurd (subst (In cur) l (v.listed cpu cur e))
pick_from-rotation {s} cpu cur (t ∷ []) v e l = single_lem cpu cur t v e l
pick_from-rotation {s} cpu cur (t ∷ u ∷ us) v e l =
    let ts = t ∷ u ∷ us in
    or_else_assoc (first_eligible s cpu (from cur ts)) (first_eligible s cpu (before cur ts))
      (keep_running s cur)
    ∙ ap (λ o. or_else o (keep_running s cur))
        (sym (first_eligible-append s cpu (from cur ts) (before cur ts)))

-- On a well-formed state `schedule` chooses the first eligible task of the list taken in a circle
-- from the current task on, and else lets a running current task go on.
pub pick-round_robin : {s : Sys} (cpu : ℕ) → WellFormed s → pick s cpu ≡ round_robin s cpu
unfolding pick
pick-round_robin {s} cpu v = elim (Option-cases (s.current cpu)) [
  | inl e ↦ rw (e, pick) (sym (or_else-none (first_eligible s cpu s.task_list)))
  | inr (cur, e) ↦ rw (e, pick) (pick_from-rotation cpu cur s.task_list v e refl)
]

first_case :
    (a b : Option ℕ) {t : ℕ} → or_else a b ≡ some t → (a ≡ some t) ⊎ ((a ≡ none) × (b ≡ some t))
first_case none b e = inr (refl, e)
first_case (some u) b e = inl e

kept_running :
    (s : Sys) (o : Option ℕ) {t : ℕ}
    → kept s o ≡ some t
    → (o ≡ some t) × ((s.tasks t).state ≡ running)
kept_running s none e = cc
kept_running s (some cur) e = ground arith

CanRun-of :
    {s : Sys} (cpu : ℕ) (o : Option ℕ) → WellFormed s → round_robin s cpu ≡ o → CanRun s cpu o
CanRun-of cpu none v e = tt
CanRun-of {s} cpu (some t) v e =
    let ts = rotation (s.current cpu) s.task_list in
    elim (first_case (first_eligible s cpu ts) (kept s (s.current cpu)) e) [
      | inl p ↦
          let (listed, can) = first_eligible-some s cpu ts p in
          (In-of_rotation (s.current cpu) t s.task_list listed, ground arith, inl (ground arith))
      | inr (_, q) ↦
          let (cur, run) = kept_running s (s.current cpu) q in
          (v.listed cpu t cur, ground (arith, v.owner cpu t cur), inr (run, cur))
    ]

-- What `schedule` chooses may be activated.
pub pick-CanRun : {s : Sys} (cpu : ℕ) → WellFormed s → CanRun s cpu (pick s cpu)
pick-CanRun {s} cpu v = CanRun-of cpu (pick s cpu) v (sym (pick-round_robin cpu v))

-- If it chooses nothing, no task of the list may run on this CPU.
pub pick-none :
    {s : Sys} (cpu : ℕ)
    → WellFormed s
    → pick s cpu ≡ none
    → (t : ℕ) → In t s.task_list
    → eligible s cpu t ≡ false
pick-none {s} cpu v e t h =
    first_eligible-none s cpu (rotation (s.current cpu) s.task_list) t
      (none_left (first_eligible s cpu (rotation (s.current cpu) s.task_list))
        (kept s (s.current cpu)) (sym (pick-round_robin cpu v) ∙ e))
      (In-rotation (s.current cpu) t s.task_list h)
  where
    none_left : (a b : Option ℕ) → or_else a b ≡ none → a ≡ none
    none_left none b e = refl
    none_left (some u) b e = e
