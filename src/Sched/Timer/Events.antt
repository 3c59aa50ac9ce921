-- ===== src/Sched/Timer/Events.antt =====
-- What `task_handle_events` does with the queue.
use mathlib.Core.Path.{subst}
use mathlib.Core.Option.{some_inj}
use grinch.Prelude.{
  ℕ, ◌≡◌, refl, sym, ap, ◌∙◌, ◌≢◌, ◌⊎◌, inl, inr, Bool, true, false, Option, none, some, List, [],
  ◌∷◌, arith, leb, if◌then◌else◌, Bool-cases,
}
use grinch.Prelude.Maps.{In, update, update_ne, remove, In-remove}
use grinch.Sched.{Task, Sys}
use grinch.Sched.Sim.{TaskSim, Sim, put_task-Sim, Sim-refl, Sim-trans}
use grinch.Sched.Timer.{expiration, sane, wake, expire, handle_loop, handle_events}

wake-TaskSim : (cpu : ℕ) (t : Task) → TaskSim t (wake cpu t).0
unfolding wake
wake-TaskSim cpu t = ground arith

pub expire-fields :
    (s : Sys) (cpu t : ℕ)
    → let r = expire s cpu t in
      (r.tasks ≡ update s.tasks t (wake cpu (s.tasks t)).0)
      × (r.current ≡ s.current)
      × (r.task_list ≡ s.task_list)
      × (r.timer_list ≡ (if (wake cpu (s.tasks t)).1 then remove t s.timer_list else s.timer_list))
unfolding expire
expire-fields s cpu t = elim (Bool-cases (wake cpu (s.tasks t)).1) [
  | inl e ↦ rw e (refl, refl, refl, refl)
  | inr e ↦ rw e (refl, refl, refl, refl)
]

expire-Sim : (s : Sys) (cpu t : ℕ) → Sim s (expire s cpu t)
expire-Sim s cpu t =
    let (tasks, current, list, _) = expire-fields s cpu t in
    let one = put_task-Sim s t (wake cpu (s.tasks t)).0 (wake-TaskSim cpu (s.tasks t)) in
    record {
      tasks = λ u. subst (λ f. TaskSim (s.tasks u) (f u)) (sym tasks) (one.tasks u);
      current = current;
      task_list = list;
    }

true_ne_false : ◌≢◌ {A = Bool} true false
true_ne_false e = cc

if_if-some {ℓ} :
    {A : Type ℓ} (a b : Bool) (x : Option A) (y : A) {z : A}
    → (if a then (if b then x else some y) else none) ≡ some z
    → (a ≡ true) × (((b ≡ true) × (x ≡ some z)) ⊎ ((b ≡ false) × (y ≡ z)))
if_if-some true true x y e = (refl, inl (refl, e))
if_if-some true false x y e = (refl, inr (refl, cc))
if_if-some false b x y e = cc

-- One round, where the loop goes on or stops.
pub loop_step :
    (s : Sys) (cpu : ℕ) (now : ℕ → ℕ) (t : ℕ) (ts : List ℕ) {r : Sys} {o : Option ℕ}
    → handle_loop s cpu now (t ∷ ts) ≡ some (r, o)
    → (sane (s.tasks t) ≡ true)
      × (((leb (expiration s t) (now t) ≡ true)
            × (handle_loop (expire s cpu t) cpu now ts ≡ some (r, o)))
          ⊎ ((leb (expiration s t) (now t) ≡ false)
              × (◌≡◌ {A = Sys × Option ℕ} (s, some t) (r, o))))
unfolding handle_loop
loop_step s cpu now t ts e =
    if_if-some (sane (s.tasks t)) (leb (expiration s t) (now t))
      (handle_loop (expire s cpu t) cpu now ts) (s, some t) e

handle_loop-Sim :
    (cpu : ℕ) (now : ℕ → ℕ) (ts : List ℕ) (s : Sys) {r : Sys} {o : Option ℕ}
    → handle_loop s cpu now ts ≡ some (r, o)
    → Sim s r
unfolding handle_loop
handle_loop-Sim cpu now [] s {r} {o} e = subst (Sim s) (ap (λ k. k.0) (some_inj.0 e)) (Sim-refl s)
handle_loop-Sim cpu now (t ∷ ts) s {r} {o} e = elim (loop_step s cpu now t ts e).1 [
  | inl (_, rest) ↦
      Sim-trans (expire-Sim s cpu t) (handle_loop-Sim cpu now ts (expire s cpu t) rest)
  | inr (_, same) ↦ subst (Sim s) (ap (λ k. k.0) same) (Sim-refl s)
]

-- `task_handle_events` moves no task between CPUs.
pub handle_events-Sim :
    (s : Sys) (cpu : ℕ) (now : ℕ → ℕ) {r : Sys} {o : Option ℕ}
    → handle_events s cpu now ≡ some (r, o)
    → Sim s r
unfolding handle_events
handle_events-Sim s cpu now e = handle_loop-Sim cpu now s.timer_list s e

-- The rounds leave alone a task that waits for no timer, and put nothing on the queue.
pub loop_frame :
    (cpu : ℕ) (now : ℕ → ℕ) (u : ℕ) (ts : List ℕ) (s : Sys) {r : Sys} {o : Option ℕ}
    → handle_loop s cpu now ts ≡ some (r, o)
    → (sane (s.tasks u) ≡ false → r.tasks u ≡ s.tasks u) × (In u r.timer_list → In u s.timer_list)
unfolding handle_loop
loop_frame cpu now u [] s {r} e =
    let same : s ≡ r = ap (λ k. k.0) (some_inj.0 e) in
    (λ _. ap (λ k. k.tasks u) (sym same), λ h. subst (λ k. In u k.timer_list) (sym same) h)
loop_frame cpu now u (t ∷ ts) s {r} e =
    let (fine, next) = loop_step s cpu now t ts e in
    elim next [
      | inl (_, rest) ↦
          let (tasks, _, _, queue) = expire-fields s cpu t in
          let (frame, less) = loop_frame cpu now u ts (expire s cpu t) rest in
          (
            λ calm.
                let ne : u ≢ t =
                  λ p. true_ne_false (sym (ap (λ k. sane (s.tasks k)) p ∙ fine) ∙ calm) in
                let same : (expire s cpu t).tasks u ≡ s.tasks u =
                  ap (λ f. f u) tasks ∙ update_ne s.tasks t u (wake cpu (s.tasks t)).0 ne in
                frame (ap sane same ∙ calm) ∙ same,
            λ h. kept (wake cpu (s.tasks t)).1 (subst (In u) queue (less h)),
          )
      | inr (_, last) ↦
          let same : s ≡ r = ap (λ k. k.0) last in
          (λ _. ap (λ k. k.tasks u) (sym same), λ h. subst (λ k. In u k.timer_list) (sym same) h)
    ]
  where
    kept : (b : Bool) → In u (if b then remove t s.timer_list else s.timer_list) → In u s.timer_list
    kept true h = In-remove t u s.timer_list h
    kept false h = h
