-- ===== src/Ttp.antt =====
-- lib/ttp.c: timed tracepoints. Each CPU has a block of `ttp_maxevents` events, which `ttp_emit`
-- fills while a trace is active; `gcall_ttp` starts, stops, prints and clears the trace.
pub mod Record
pub mod Session
mod Tests
use grinch.Prelude.{
  ℕ, zero, suc, ◌+◌, Bool, true, false, not, Option, none, some, List, [], ◌∷◌, ◌++◌, ◌==◌,
  if◌then◌else◌, get_or, set,
}
use grinch.Prelude.Maps.{update}
use grinch.Errno.{Result, ok, err, ebusy, eagain, enomem, enosys}

-- `struct ttp_event`
pub record TtpEvent : Type 0 where
  pub id : ℕ
  pub abstime : ℕ

-- `struct ttp_storage`
pub record TtpStorage : Type 0 where
  pub print_max : Bool
  pub eventcount : ℕ
  pub events : List TtpEvent

-- The variables of the file, the storage of each CPU and the lines printed by `ttp_dump`.
pub record Ttp : Type 0 where
  pub maxevents : ℕ
  pub trace_active : Bool
  pub stor : ℕ → TtpStorage
  pub printed : List (ℕ × ℕ × ℕ)

abbrev pub no_event : TtpEvent
no_event = record { id = 0; abstime = 0 }

-- `ttp_start`
pub start : Ttp → Ttp × Result (Unit {0})
start s = if s.trace_active then (s, err ebusy) else (record s { trace_active = true }, ok tt)

-- `ttp_stop`
pub stop : Ttp → Ttp × Result (Unit {0})
stop s = if s.trace_active then (record s { trace_active = false }, ok tt) else (s, err ebusy)

-- the `memset` of a whole block of events
pub clear : List TtpEvent → List TtpEvent
clear [] = []
clear (e ∷ es) = no_event ∷ clear es

-- The loop of `ttp_reset` over the available CPUs.
pub reset_cpus : Ttp → List ℕ → Ttp
unfolding clear
reset_cpus s [] = s
reset_cpus s (cpu ∷ cpus) =
    let cleared : TtpStorage = record {
      print_max = false;
      eventcount = 0;
      events = clear (s.stor cpu).events;
    } in
    reset_cpus (record s { stor = update s.stor cpu cleared }) cpus

-- `ttp_reset`
pub reset : Ttp → List ℕ → Ttp × Result (Unit {0})
unfolding reset_cpus
reset s cpus = if s.trace_active then (s, err ebusy) else (reset_cpus s cpus, ok tt)

-- The inner loop of `ttp_dump`: `n` rounds from the event `i` on.
pub dump_events : ℕ → List TtpEvent → ℕ → ℕ → List (ℕ × ℕ × ℕ)
dump_events cpu events i zero = []
dump_events cpu events i (suc n) =
    let ev = get_or events i no_event in (cpu, ev.id, ev.abstime) ∷ dump_events cpu events (i + 1) n

pub dump_cpus : (ℕ → TtpStorage) → List ℕ → List (ℕ × ℕ × ℕ)
unfolding dump_events
dump_cpus stor [] = []
dump_cpus stor (cpu ∷ cpus) =
    dump_events cpu (stor cpu).events 0 (stor cpu).eventcount ++ dump_cpus stor cpus

-- `ttp_dump`
pub dump : Ttp → List ℕ → Ttp × Result (Unit {0})
unfolding dump_cpus
dump s cpus =
    if s.trace_active
    then (s, err ebusy)
    else (record s { printed = s.printed ++ dump_cpus s.stor cpus }, ok tt)

-- `ttp_emit` on `cpu`; `abs` is the time read on entry.
pub emit : Ttp → ℕ → ℕ → ℕ → Ttp × Result (Unit {0})
emit s cpu id abs =
    let st = s.stor cpu in
    if not s.trace_active
    then (s, err eagain)
    else if st.print_max
    then (s, err enomem)
    else if st.eventcount == s.maxevents
    then (record s { stor = update s.stor cpu (record st { print_max = true }) }, err enomem)
    else let event : TtpEvent = record { id = id; abstime = abs } in
      let st' = record st {
        events = set st.events st.eventcount event;
        eventcount = st.eventcount + 1;
      } in
      (record s { stor = update s.stor cpu st' }, ok tt)

-- `gcall_ttp`: the number of the request selects the operation.
pub gcall_ttp : Ttp → List ℕ → ℕ → Ttp × Result (Unit {0})
unfolding start stop dump reset
gcall_ttp s cpus request =
    if request == 0
    then start s
    else if request == 1
    then stop s
    else if request == 2
    then dump s cpus
    else if request == 3
    then reset s cpus
    else (s, err enosys)

-- The loop of `ttp_init` over the online CPUs; `kmalloc cpu` is the block that is allocated for the
-- CPU, with any contents, or `none`.
pub init_cpus : Ttp → (ℕ → Option (List TtpEvent)) → List ℕ → Ttp × Result (Unit {0})
init_cpus s kmalloc [] = (s, ok tt)
init_cpus s kmalloc (cpu ∷ cpus) =
    let st : TtpStorage = record { print_max = false; eventcount = 0; events = [] } in
    elim (kmalloc cpu) [
      | none ↦ (record s { stor = update s.stor cpu st }, err enomem)
      | some block ↦
          init_cpus (record s { stor = update s.stor cpu (record st { events = block }) }) kmalloc
            cpus
    ]

-- `ttp_init`
pub init : Ttp → (ℕ → Option (List TtpEvent)) → List ℕ → Ttp × Result (Unit {0})
unfolding init_cpus
init s kmalloc cpus = if s.maxevents == 0 then (s, ok tt) else init_cpus s kmalloc cpus
