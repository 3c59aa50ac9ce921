-- ===== src/Sched/Timer/Handled.antt =====
-- No expired sleeper is left behind by `task_handle_events`.
use mathlib.Core.Path.{subst}
use grinch.Prelude.{
  ℕ, ◌≤◌, ◌≡◌, refl, sym, ap, ◌∙◌, ◌≢◌, ◌⊎◌, inl, inr, Bool, true, false, Option, some, List, [],
  ◌∷◌, arith, ℕ_discrete, leb, if◌then◌else◌,
}
use grinch.Prelude.Maps.{In, update_self, update_ne, remove, not-In-remove}
use grinch.Sched.{Task, Sys, Wfe, idle, timer, process, runnable}
use grinch.Sched.Timer.{expiration, sane, wake, expire, handle_loop, handle_events}
use grinch.Sched.Timer.Sorted.{NotBefore, IsSorted}
use grinch.Sched.Timer.Events.{loop_step, loop_frame, expire-fields}

NotBefore-In : (f : ℕ → ℕ) (n u : ℕ) (ts : List ℕ) → NotBefore f n ts → In u ts → n ≤ f u
NotBefore-In f n u [] a h = absurd h
NotBefore-In f n u (t ∷ ts) a (inl e) = subst (λ k. n ≤ f k) (sym e) a.0
NotBefore-In f n u (t ∷ ts) a (inr h) = NotBefore-In f n u ts a.1 h

-- Each entry still expires as `f` says, or is no sleeper any more.
abbrev AsPlanned : (ℕ → ℕ) → Sys → List ℕ → Type 0
AsPlanned f s ts = (x : ℕ) → In x ts → (expiration s x ≡ f x) ⊎ (sane (s.tasks x) ≡ false)

wake-event : (cpu : ℕ) (t : Task) → ((wake cpu t).0.event ≡ t.event) ⊎ (sane (wake cpu t).0 ≡ false)
unfolding wake
wake-event cpu t = ground arith

wake-process :
    (cpu : ℕ) (t : Task)
    → t.type ≡ process
    → ((wake cpu t).0.state ≡ runnable) × ((wake cpu t).0.event ≡ idle) × ((wake cpu t).1 ≡ true)
unfolding wake
wake-process cpu t e = ground arith

tasks-expire_self : (s : Sys) (cpu t : ℕ) → (expire s cpu t).tasks t ≡ (wake cpu (s.tasks t)).0
tasks-expire_self s cpu t =
    ap (λ f. f t) (expire-fields s cpu t).0 ∙ update_self s.tasks t (wake cpu (s.tasks t)).0

tasks-expire_ne : (s : Sys) (cpu t u : ℕ) → u ≢ t → (expire s cpu t).tasks u ≡ s.tasks u
tasks-expire_ne s cpu t u ne =
    ap (λ f. f u) (expire-fields s cpu t).0 ∙ update_ne s.tasks t u (wake cpu (s.tasks t)).0 ne

expiration_of :
    (r s : Sys) (x y : ℕ) → (r.tasks x).event ≡ (s.tasks y).event → expiration r x ≡ expiration s y
expiration_of r s x y e = ap (λ (w : Wfe). elim w [ timer k ↦ k | _ ↦ 0 ]) e

AsPlanned-expire :
    (f : ℕ → ℕ) (s : Sys) (cpu t : ℕ) (ts : List ℕ)
    → expiration s t ≡ f t
    → AsPlanned f s ts
    → AsPlanned f (expire s cpu t) ts
AsPlanned-expire f s cpu t ts now plan x h = elim (ℕ_discrete x t) [
  | yes e ↦
      let same : (expire s cpu t).tasks x ≡ (wake cpu (s.tasks t)).0 =
        ap (λ k. (expire s cpu t).tasks k) e ∙ tasks-expire_self s cpu t in
      elim (wake-event cpu (s.tasks t)) [
        | inl keep ↦ inl (
            expiration_of (expire s cpu t) s x t (ap (λ k. k.event) same ∙ keep)
            ∙ now
            ∙ ap f (sym e))
        | inr calm ↦ inr (ap sane same ∙ calm)
      ]
  | no ne ↦
      let same = tasks-expire_ne s cpu t x ne in
      elim (plan x h) [
        | inl p ↦ inl (expiration_of (expire s cpu t) s x x (ap (λ k. k.event) same) ∙ p)
        | inr q ↦ inr (ap sane same ∙ q)
      ]
]

handled :
    (f : ℕ → ℕ) (cpu n u : ℕ) (ts : List ℕ) (s : Sys) {r : Sys} {o : Option ℕ}
    → IsSorted f ts
    → AsPlanned f s ts
    → handle_loop s cpu (λ _. n) ts ≡ some (r, o)
    → In u ts
    → f u ≤ n
    → (s.tasks u).type ≡ process
    → ((r.tasks u).state ≡ runnable) × ((r.tasks u).event ≡ idle) × (¬ In u r.timer_list)
handled f cpu n u [] s sorted plan e h due kind = absurd h
handled f cpu n u (t ∷ ts) s {r} {o} sorted plan e h due kind =
    let (fine, next) = loop_step s cpu (λ _. n) t ts e in
    let planned = plan_here fine (plan t (inl refl)) in
    elim next [
      | inl (_, rest) ↦ elim (ℕ_discrete u t) [
        | yes same ↦
            let (awake, calm, done) =
              wake-process cpu (s.tasks t) (subst (λ k. (s.tasks k).type ≡ process) same kind) in
            let own = tasks-expire_self s cpu t in
            let (frame, less) = loop_frame cpu (λ _. n) t ts (expire s cpu t) rest in
            let kept =
              frame (idle_calm ((expire s cpu t).tasks t) (ap (λ k. k.event) own ∙ calm)) ∙ own in
            let off : (expire s cpu t).timer_list ≡ remove t s.timer_list =
              (expire-fields s cpu t).3
              ∙ ap (λ (b : Bool). if b then remove t s.timer_list else s.timer_list) done in
            (
              ap (λ k. (r.tasks k).state) same ∙ ap (λ k. k.state) kept ∙ awake,
              ap (λ k. (r.tasks k).event) same ∙ ap (λ k. k.event) kept ∙ calm,
              λ q.
                  not-In-remove t s.timer_list
                    (subst (In t) off (less (subst (λ k. In k r.timer_list) same q))),
            )
        | no ne ↦
            handled f cpu n u ts (expire s cpu t) sorted.1
              (AsPlanned-expire f s cpu t ts planned (λ x q. plan x (inr q))) rest (later h ne) due
              (ap (λ k. k.type) (tasks-expire_ne s cpu t u ne) ∙ kind)
      ]
      | inr (late, _) ↦ absurd (too_late planned late h)
    ]
  where
    plan_here :
        sane (s.tasks t) ≡ true
        → (expiration s t ≡ f t) ⊎ (sane (s.tasks t) ≡ false)
        → expiration s t ≡ f t
    plan_here fine (inl p) = p
    plan_here fine (inr q) = cc

    later : (u ≡ t) ⊎ In u ts → u ≢ t → In u ts
    later (inl p) ne = absurd (ne p)
    later (inr q) ne = q

    idle_calm : (k : Task) → k.event ≡ idle → sane k ≡ false
    idle_calm k p = ground arith

    too_late : expiration s t ≡ f t → leb (expiration s t) n ≡ false → (u ≡ t) ⊎ In u ts → ⊥
    too_late p late (inl q) = ground (arith, ap f q)
    too_late p late (inr q) = ground (arith, NotBefore-In f (f t) u ts sorted.0 q)

-- After `task_handle_events` on a sorted queue, at a time that does not move meanwhile, every process
-- that slept until then or earlier may run again and has left the queue.
pub handle_events_wakes :
    (s : Sys) (cpu n u : ℕ) {r : Sys} {o : Option ℕ}
    → IsSorted (expiration s) s.timer_list
    → handle_events s cpu (λ _. n) ≡ some (r, o)
    → In u s.timer_list
    → expiration s u ≤ n
    → (s.tasks u).type ≡ process
    → ((r.tasks u).state ≡ runnable) × ((r.tasks u).event ≡ idle) × (¬ In u r.timer_list)
unfolding handle_events
handle_events_wakes s cpu n u sorted e h due kind =
    handled (expiration s) cpu n u s.timer_list s sorted (λ x _. inl refl) e h due kind
