-- ===== src/Ttp/Session.antt =====
-- A whole trace: cleared, started, filled, stopped and printed.
use mathlib.Core.Path.{subst}
use grinch.Prelude.{
  ℕ, zero, suc, ◌+◌, ◌≤◌, ◌<◌, max, ◌≡◌, refl, sym, ap, ap₂, ◌∙◌, ◌⊎◌, inl, inr, true, false, List,
  [], ◌∷◌, ◌++◌, arith, ℕ_discrete, length, get_or, take, drop,
}
use grinch.Prelude.Maps.{update, In, update_self, update_ne}
use grinch.Ttp.{
  TtpEvent, TtpStorage, Ttp, no_event, start, stop, clear, reset_cpus, reset, dump_events,
  dump_cpus, dump, emit, gcall_ttp,
}
use grinch.Ttp.Record.{recorded-emit_all, IsValid, recorded, Call, emit_all, events_of}

-- The requests of a trace session, with the calls of `ttp_emit` in between.
pub session : Ttp → List ℕ → List Call → Ttp
unfolding emit_all
session s cpus cs =
    let running = (gcall_ttp (gcall_ttp s cpus 3).0 cpus 0).0 in
    (gcall_ttp (gcall_ttp (emit_all running cs) cpus 1).0 cpus 2).0

abbrev pub line : ℕ → TtpEvent → ℕ × ℕ × ℕ
line cpu ev = (cpu, ev.id, ev.abstime)

abbrev pub lines : ℕ → List TtpEvent → List (ℕ × ℕ × ℕ)
lines cpu [] = []
lines cpu (ev ∷ evs) = line cpu ev ∷ lines cpu evs

-- The lines that a session is to print.
abbrev pub report : ℕ → List ℕ → List Call → List (ℕ × ℕ × ℕ)
report n [] cs = []
report n (cpu ∷ cpus) cs = lines cpu (take n (events_of cpu cs)) ++ report n cpus cs

length-clear : (es : List TtpEvent) → length (clear es) ≡ length es
unfolding clear
length-clear [] = refl
length-clear (e ∷ es) = ap suc (length-clear es)

uncons :
    (es : List TtpEvent) (i : ℕ)
    → i < length es
    → drop i es ≡ get_or es i no_event ∷ drop (suc i) es
uncons [] i h = absurd (omega arith)
uncons (x ∷ xs) zero h = refl
uncons (x ∷ xs) (suc i) h = uncons xs i (omega arith)

dump_events-lines :
    (cpu : ℕ) (es : List TtpEvent) (i n : ℕ)
    → i + n ≤ length es
    → dump_events cpu es i n ≡ lines cpu (take n (drop i es))
unfolding dump_events
dump_events-lines cpu es i zero h = refl
dump_events-lines cpu es i (suc n) h =
    ap (λ l. line cpu (get_or es i no_event) ∷ l)
      (dump_events-lines cpu es (i + 1) n (omega arith)
        ∙ ap (λ k. lines cpu (take n (drop k es))) {x = i + 1} {y = suc i} (omega arith))
    ∙ ap (λ l. lines cpu (take (suc n) l)) (sym (uncons es i (omega arith)))

-- What is printed of storages that are valid.
dump_cpus-report :
    (n : ℕ) (stor : ℕ → TtpStorage) (cs : List Call) (cpus : List ℕ)
    → ((c : ℕ) → In c cpus → IsValid n (stor c) × (recorded (stor c) ≡ take n (events_of c cs)))
    → dump_cpus stor cpus ≡ report n cpus cs
unfolding dump_cpus
dump_cpus-report n stor cs [] h = refl
dump_cpus-report n stor cs (c ∷ cpus) h =
    let (v, rec) = h c (inl refl) in
    ap₂ (λ a b. a ++ b)
      (dump_events-lines c (stor c).events 0 (stor c).eventcount (omega (arith, v.room, v.filled))
        ∙ ap (lines c) rec)
      (dump_cpus-report n stor cs cpus (λ d q. h d (inr q)))

-- `reset` empties each storage of the list.
reset_cpus-empty :
    (cpus : List ℕ) (s : Ttp) (c : ℕ)
    → length (s.stor c).events ≡ s.maxevents
    → let r = reset_cpus s cpus in
      (length (r.stor c).events ≡ s.maxevents)
      × (r.maxevents ≡ s.maxevents)
      × (r.trace_active ≡ s.trace_active)
      × (r.printed ≡ s.printed)
      × (In c cpus ⊎ ((s.stor c).eventcount ≡ 0) × ((s.stor c).print_max ≡ false)
          → ((r.stor c).eventcount ≡ 0) × ((r.stor c).print_max ≡ false))
unfolding reset_cpus
reset_cpus-empty [] s c h = (h, refl, refl, refl, λ q. ground arith)
reset_cpus-empty (d ∷ cpus) s c h =
    let cleared : TtpStorage = record {
      print_max = false;
      eventcount = 0;
      events = clear (s.stor d).events;
    } in
    let s1 = record s { stor = update s.stor d cleared } in
    elim (ℕ_discrete c d) [
      | yes e ↦
          let own : s1.stor c ≡ cleared = ap s1.stor e ∙ update_self s.stor d cleared in
          let (len, max, act, pr, empty) = reset_cpus-empty cpus s1 c (
            ap (λ k. length k.events) own
            ∙ length-clear (s.stor d).events
            ∙ ap (λ k. length (s.stor k).events) (sym e)
            ∙ h) in
          (
            len,
            max,
            act,
            pr,
            λ _. empty (inr (ap (λ k. k.eventcount) own, ap (λ k. k.print_max) own)),
          )
      | no ne ↦
          let same : s1.stor c ≡ s.stor c = update_ne s.stor d c cleared ne in
          let (len, max, act, pr, empty) =
            reset_cpus-empty cpus s1 c (ap (λ k. length k.events) same ∙ h) in
          (
            len,
            max,
            act,
            pr,
            λ q. elim q [
              | inl (inl p) ↦ absurd (ne p)
              | inl (inr p) ↦ empty (inl p)
              | inr (p, o) ↦
                  empty (inr (ap (λ k. k.eventcount) same ∙ p, ap (λ k. k.print_max) same ∙ o))
            ],
          )
    ]

emit_fields :
    (s : Ttp) (cpu id abs : ℕ)
    → let r = (emit s cpu id abs).0 in
      (r.trace_active ≡ s.trace_active) × (r.maxevents ≡ s.maxevents) × (r.printed ≡ s.printed)
unfolding emit
emit_fields s cpu id abs = ground arith

emit_all_fields :
    (cs : List Call) (s : Ttp)
    → let r = emit_all s cs in
      (r.trace_active ≡ s.trace_active) × (r.maxevents ≡ s.maxevents) × (r.printed ≡ s.printed)
unfolding emit_all
emit_all_fields [] s = (refl, refl, refl)
emit_all_fields ((cpu, id, abs) ∷ cs) s =
    let (a, b, c) = emit_fields s cpu id abs in
    let (p, q, r) = emit_all_fields cs (emit s cpu id abs).0 in (p ∙ a, q ∙ b, r ∙ c)

reset_cpus_fields :
    (cpus : List ℕ) (s : Ttp)
    → let r = reset_cpus s cpus in
      (r.trace_active ≡ s.trace_active) × (r.maxevents ≡ s.maxevents) × (r.printed ≡ s.printed)
unfolding reset_cpus
reset_cpus_fields [] s = (refl, refl, refl)
reset_cpus_fields (d ∷ cpus) s = reset_cpus_fields cpus _

-- The requests on a trace that is not active, and on one that is.
gcall-idle :
    (s : Ttp) (cpus : List ℕ)
    → s.trace_active ≡ false
    → ((gcall_ttp s cpus 3).0 ≡ reset_cpus s cpus)
      × ((gcall_ttp s cpus 0).0 ≡ record s { trace_active = true })
      × ((gcall_ttp s cpus 2).0 ≡ record s { printed = s.printed ++ dump_cpus s.stor cpus })
unfolding gcall_ttp start dump reset
gcall-idle s cpus e = (ground arith, ground arith, ground arith)

gcall-stop :
    (s : Ttp) (cpus : List ℕ)
    → s.trace_active ≡ true
    → (gcall_ttp s cpus 1).0 ≡ record s { trace_active = false }
unfolding gcall_ttp stop
gcall-stop s cpus e = ground arith

-- The state of a session after its last request, in terms of the loops.
abbrev filled : Ttp → List ℕ → List Call → Ttp
filled s cpus cs = emit_all (record (reset_cpus s cpus) { trace_active = true }) cs

session_steps :
    (s : Ttp) (cpus : List ℕ) (cs : List Call)
    → s.trace_active ≡ false
    → (session s cpus cs).printed
      ≡ (filled s cpus cs).printed ++ dump_cpus (filled s cpus cs).stor cpus
unfolding session
session_steps s cpus cs e =
    let s1 = reset_cpus s cpus in
    let s2 = record s1 { trace_active = true } in
    let s3 = emit_all s2 cs in
    let s4 = record s3 { trace_active = false } in
    let reset_done = (gcall-idle s cpus e).0 in
    let started = (gcall-idle s1 cpus ((reset_cpus_fields cpus s).0 ∙ e)).1 in
    let stopped = gcall-stop s3 cpus (emit_all_fields cs s2).0 in
    ap (λ k. (gcall_ttp (gcall_ttp (emit_all (gcall_ttp k cpus 0).0 cs) cpus 1).0 cpus 2).0.printed)
      reset_done
    ∙ ap (λ k. (gcall_ttp (gcall_ttp (emit_all k cs) cpus 1).0 cpus 2).0.printed) started
    ∙ ap (λ k. (gcall_ttp k cpus 2).0.printed) stopped
    ∙ ap (λ k. k.printed) (gcall-idle s4 cpus refl).2

-- A session on CPUs that all have their block of events prints, CPU by CPU, the events emitted on
-- the CPU during the session, in order and with their times, up to the limit of events per CPU.
pub session-report :
    (s : Ttp) (cpus : List ℕ) (cs : List Call)
    → s.trace_active ≡ false
    → ((c : ℕ) → In c cpus → length (s.stor c).events ≡ s.maxevents)
    → (session s cpus cs).printed ≡ s.printed ++ report s.maxevents cpus cs
session-report s cpus cs e blocks =
    let s1 = reset_cpus s cpus in
    let s2 = record s1 { trace_active = true } in
    let (_, max, printed) = reset_cpus_fields cpus s in
    let (_, _, quiet) = emit_all_fields cs s2 in
    session_steps s cpus cs e
    ∙ ap₂ (λ a b. a ++ b) (quiet ∙ printed)
        (dump_cpus-report s.maxevents (emit_all s2 cs).stor cs cpus (λ c h.
          let (len, _, _, _, empty) = reset_cpus-empty cpus s c (blocks c h) in
          let (zero_events, unmarked) = empty (inl h) in
          let v : IsValid s2.maxevents (s2.stor c) = record {
            room = len ∙ sym max;
            filled = omega (arith, zero_events);
            mark = λ p. ground (arith, unmarked);
          } in
          let (rec, valid, _, _) = recorded-emit_all cs s2 c refl v in
          (
            subst (λ n. IsValid n ((emit_all s2 cs).stor c)) max valid,
            rec
                ∙ ap₂ (λ n (k : ℕ). take n (take k (s1.stor c).events ++ events_of c cs)) max
                    zero_events,
          )))
