-- ===== src/Sched/Timer/Sorted.antt =====
-- The queue of timers stays sorted by expiration.
use mathlib.Core.Path.{subst}
use grinch.Prelude.{
  ℕ, ◌≤◌, ◌≡◌, refl, sym, ap, ◌∙◌, ◌≢◌, inl, inr, true, some, List, [], ◌∷◌, arith, ltb, ltb→lt,
  Bool-cases,
}
use grinch.Prelude.Maps.{In, update, update_self, remove, not-In-remove}
use grinch.Sched.{Task, Sys, timer, put_task}
use grinch.Sched.Sim.{TaskSim, Sim, put_task-Sim}
use grinch.Sched.Wait.{set_wfe}
use grinch.Sched.Timer.{expiration, add_sorted, asleep, sleep_until}

-- No entry expires before `n`.
abbrev pub NotBefore : (ℕ → ℕ) → ℕ → List ℕ → Type 0
NotBefore f n [] = Unit
NotBefore f n (t ∷ ts) = (n ≤ f t) × NotBefore f n ts

abbrev pub IsSorted : (ℕ → ℕ) → List ℕ → Type 0
IsSorted f [] = Unit
IsSorted f (t ∷ ts) = NotBefore f (f t) ts × IsSorted f ts

NotBefore-le : (f : ℕ → ℕ) (m n : ℕ) (ts : List ℕ) → m ≤ n → NotBefore f n ts → NotBefore f m ts
NotBefore-le f m n [] h a = tt
NotBefore-le f m n (t ∷ ts) h a = (omega arith, NotBefore-le f m n ts h a.1)

NotBefore-remove :
    (f : ℕ → ℕ) (n x : ℕ) (ts : List ℕ) → NotBefore f n ts → NotBefore f n (remove x ts)
unfolding remove
NotBefore-remove f n x [] a = tt
NotBefore-remove f n x (t ∷ ts) a = ground (arith, NotBefore-remove f n x ts a.1)

IsSorted-remove : (f : ℕ → ℕ) (x : ℕ) (ts : List ℕ) → IsSorted f ts → IsSorted f (remove x ts)
unfolding remove
IsSorted-remove f x [] a = tt
IsSorted-remove f x (t ∷ ts) a =
    ground (arith, IsSorted-remove f x ts a.1, NotBefore-remove f (f t) x ts a.0)

NotBefore-add_sorted :
    (s : Sys) (n t : ℕ) (ts : List ℕ)
    → n ≤ expiration s t
    → NotBefore (expiration s) n ts
    → NotBefore (expiration s) n (add_sorted s t ts)
unfolding add_sorted
NotBefore-add_sorted s n t [] h a = (h, tt)
NotBefore-add_sorted s n t (u ∷ us) h a =
    elim (Bool-cases (ltb (expiration s t) (expiration s u))) [
      | inl e ↦ rw e (h, a)
      | inr e ↦ rw e (a.0, NotBefore-add_sorted s n t us h a.1)
    ]

-- `list_add_sorted` keeps the order.
IsSorted-add_sorted :
    (s : Sys) (t : ℕ) (ts : List ℕ)
    → IsSorted (expiration s) ts
    → IsSorted (expiration s) (add_sorted s t ts)
unfolding add_sorted
IsSorted-add_sorted s t [] a = (tt, tt)
IsSorted-add_sorted s t (u ∷ us) a = elim (Bool-cases (ltb (expiration s t) (expiration s u))) [
  | inl e ↦
      let lt = ltb→lt (expiration s t) (expiration s u) e in
      rw e (
        (
          omega arith,
          NotBefore-le (expiration s) (expiration s t) (expiration s u) us (omega arith) a.0,
        ),
        a,
      )
  | inr e ↦ rw e (
    NotBefore-add_sorted s (expiration s u) t us (ground arith) a.0,
    IsSorted-add_sorted s t us a.1,
  )
]

In-add_sorted : (s : Sys) (t : ℕ) (ts : List ℕ) → In t (add_sorted s t ts)
unfolding add_sorted
In-add_sorted s t [] = inl refl
In-add_sorted s t (u ∷ us) = elim (Bool-cases (ltb (expiration s t) (expiration s u))) [
  | inl e ↦ rw e (inl refl)
  | inr e ↦ rw e (inr (In-add_sorted s t us))
]

-- Only the entries' own expirations count.
NotBefore-same :
    (f g : ℕ → ℕ) (n : ℕ) (ts : List ℕ)
    → ((t : ℕ) → In t ts → g t ≡ f t)
    → NotBefore f n ts
    → NotBefore g n ts
NotBefore-same f g n [] e a = tt
NotBefore-same f g n (t ∷ ts) e a = (
  subst (λ k. n ≤ k) (sym (e t (inl refl))) a.0,
  NotBefore-same f g n ts (λ u h. e u (inr h)) a.1,
)

IsSorted-same :
    (f g : ℕ → ℕ) (ts : List ℕ) → ((t : ℕ) → In t ts → g t ≡ f t) → IsSorted f ts → IsSorted g ts
IsSorted-same f g [] e a = tt
IsSorted-same f g (t ∷ ts) e a = (
  subst (λ k. NotBefore g k ts) (sym (e t (inl refl)))
      (NotBefore-same f g (f t) ts (λ u h. e u (inr h)) a.0),
  IsSorted-same f g ts (λ u h. e u (inr h)) a.1,
)

-- What `task_sleep_until` makes of the sleeper.
asleep-task :
    (task : Task) (ns : ℕ) {u : Task}
    → asleep task ns ≡ some u
    → (u.event ≡ timer ns) × TaskSim task u
unfolding asleep set_wfe
asleep-task task ns e = ground arith

-- The steps of `task_sleep_until`.
sleep_steps :
    (s : Sys) (cpu t ns : ℕ) {r : Sys}
    → sleep_until s cpu t ns ≡ some r
    → (u : Task) × (asleep (s.tasks t) ns ≡ some u)
      × (r ≡ record (put_task s t u) {
        timer_list = add_sorted (put_task s t u) t (remove t s.timer_list);
        handle_events = update s.handle_events cpu true;
      })
unfolding sleep_until
sleep_steps s cpu t ns e = grind arith

not-In_ne : (t u : ℕ) (ts : List ℕ) → In u (remove t ts) → u ≢ t
not-In_ne t u ts h e = not-In-remove t ts (subst (λ x. In x (remove t ts)) e h)

expiration-put_task_ne :
    (s : Sys) (t u : ℕ) (v : Task) → u ≢ t → expiration (put_task s t v) u ≡ expiration s u
unfolding update
expiration-put_task_ne s t u v ne = ground arith

-- `task_sleep_until` keeps the queue sorted, puts the sleeper in it, and moves no task between CPUs.
pub sleep_until_lem :
    (s : Sys) (cpu t ns : ℕ) {r : Sys}
    → IsSorted (expiration s) s.timer_list
    → sleep_until s cpu t ns ≡ some r
    → IsSorted (expiration r) r.timer_list
      × ((r.tasks t).event ≡ timer ns)
      × In t r.timer_list
      × Sim s r
sleep_until_lem s cpu t ns {r} sorted e =
    let (u, woken, out) = sleep_steps s cpu t ns e in
    let (event, sim) = asleep-task (s.tasks t) ns woken in
    let s1 = put_task s t u in
    let rest =
      IsSorted-same (expiration s) (expiration s1) (remove t s.timer_list)
        (λ x h. expiration-put_task_ne s t x u (not-In_ne t x s.timer_list h))
        (IsSorted-remove (expiration s) t s.timer_list sorted) in
    let ordered = IsSorted-add_sorted s1 t (remove t s.timer_list) rest in
    let moved = put_task-Sim s t u sim in
    (
      subst (λ k. IsSorted (expiration k) k.timer_list) (sym out) ordered,
      ap (λ k. (k.tasks t).event) out ∙ ap (λ k. k.event) (update_self s.tasks t u) ∙ event,
      subst (λ k. In t k.timer_list) (sym out) (In-add_sorted s1 t (remove t s.timer_list)),
      subst (Sim s) (sym out) (record { tasks = moved.tasks; current = refl; task_list = refl }),
    )

-- `task_sleep_until` moves no task between CPUs, sorted or not.
pub sleep_until-Sim : (s : Sys) (cpu t ns : ℕ) {r : Sys} → sleep_until s cpu t ns ≡ some r → Sim s r
sleep_until-Sim s cpu t ns e =
    let (u, woken, out) = sleep_steps s cpu t ns e in
    let moved = put_task-Sim s t u (asleep-task (s.tasks t) ns woken).1 in
    subst (Sim s) (sym out) (record { tasks = moved.tasks; current = refl; task_list = refl })
