-- ===== src/Sched/Exit/Family.antt =====
-- Handing the children to init changes nothing but the family of the tasks.
use grinch.Prelude.{ℕ, ◌≡◌, refl, ◌∙◌, inr, Option, some, List, [], ◌∷◌, arith, ℕ_discrete}
use grinch.Prelude.Maps.{In, update, remove}
use grinch.Sched.{Task, Sys, put_task}
use grinch.Sched.Exit.{reparent}

-- Two views of a task that differ in its family alone.
pub record Kin (t u : Task) : Type 0 where
  pub pid : u.pid ≡ t.pid
  pub state : u.state ≡ t.state
  pub on_cpu : u.on_cpu ≡ t.on_cpu
  pub type : u.type ≡ t.type
  pub event : u.event ≡ t.event
  pub exit_code : u.exit_code ≡ t.exit_code
  pub retval : u.retval ≡ t.retval
  pub wstatus : u.wstatus ≡ t.wstatus

pub Kin-refl : (t : Task) → Kin t t
Kin-refl t = record {
  pid = refl;
  state = refl;
  on_cpu = refl;
  type = refl;
  event = refl;
  exit_code = refl;
  retval = refl;
  wstatus = refl;
}

Kin-trans : {t u w : Task} → Kin t u → Kin u w → Kin t w
Kin-trans a b = ground arith

Kin-children : (t : Task) (cs : List ℕ) → Kin t (record t { children = cs })
Kin-children t cs = record {
  pid = refl;
  state = refl;
  on_cpu = refl;
  type = refl;
  event = refl;
  exit_code = refl;
  retval = refl;
  wstatus = refl;
}

Kin-parent : (t : Task) (o : Option ℕ) → Kin t (record t { parent = o })
Kin-parent t o = record {
  pid = refl;
  state = refl;
  on_cpu = refl;
  type = refl;
  event = refl;
  exit_code = refl;
  retval = refl;
  wstatus = refl;
}

-- A change of one task's family.
put_task-Kin :
    (s : Sys) (t : ℕ) (v : Task)
    → Kin (s.tasks t) v
    → (u : ℕ) → Kin (s.tasks u) ((put_task s t v).tasks u)
unfolding update
put_task-Kin s t v k u = elim (ℕ_discrete t u) [
  | yes e ↦ ground (arith, k)
  | no ne ↦ ground (arith, Kin-refl (s.tasks u))
]

pub record Family (s r : Sys) : Type 0 where
  pub tasks : (u : ℕ) → Kin (s.tasks u) (r.tasks u)
  pub current : r.current ≡ s.current
  pub task_list : r.task_list ≡ s.task_list
  pub timer_list : r.timer_list ≡ s.timer_list

-- Handing the children to init changes parents and lists of children alone.
pub reparent-Family : (s : Sys) (t : ℕ) (cs : List ℕ) → Family s (reparent s t cs)
unfolding reparent
reparent-Family s t [] = record {
  tasks = λ u. Kin-refl (s.tasks u);
  current = refl;
  task_list = refl;
  timer_list = refl;
}
reparent-Family s t (c ∷ cs) =
    let i = s.init_task in
    let s1 = put_task s t (record (s.tasks t) { children = remove c (s.tasks t).children }) in
    let s2 = put_task s1 c (record (s1.tasks c) { parent = some i }) in
    let s3 = put_task s2 i (record (s2.tasks i) { children = c ∷ (s2.tasks i).children }) in
    let rest = reparent-Family s3 t cs in
    record {
      tasks = λ u.
          Kin-trans
            (Kin-trans
              (Kin-trans
                (put_task-Kin s t _ (Kin-children (s.tasks t) (remove c (s.tasks t).children)) u)
                (put_task-Kin s1 c _ (Kin-parent (s1.tasks c) (some i)) u))
              (put_task-Kin s2 i _ (Kin-children (s2.tasks i) (c ∷ (s2.tasks i).children)) u))
            (rest.tasks u);
      current = rest.current;
      task_list = rest.task_list;
      timer_list = rest.timer_list;
    }

pub parent-reparent :
    (s : Sys) (t : ℕ) (cs : List ℕ)
    → ¬ In t cs
    → ((reparent s t cs).tasks t).parent ≡ (s.tasks t).parent
unfolding reparent
parent-reparent s t [] h = refl
parent-reparent s t (c ∷ cs) h =
    let i = s.init_task in
    let s1 = put_task s t (record (s.tasks t) { children = remove c (s.tasks t).children }) in
    let s2 = put_task s1 c (record (s1.tasks c) { parent = some i }) in
    let s3 = put_task s2 i (record (s2.tasks i) { children = c ∷ (s2.tasks i).children }) in
    parent-reparent s3 t cs (λ q. h (inr q)) ∙ unfold update in (ground arith)
