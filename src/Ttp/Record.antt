-- ===== src/Ttp/Record.antt =====
-- What a trace records, and what is printed of it.
use grinch.Prelude.{
  ℕ, zero, suc, ◌+◌, ◌≤◌, ◌<◌, max, ◌≡◌, refl, sym, ap, ◌∙◌, ◌≢◌, ◌⊎◌, inl, inr, true, false, List,
  [], ◌∷◌, ◌++◌, append-nil, append_assoc, arith, ℕ_discrete, ◌==◌, if◌then◌else◌, length, set,
  take, length-append, length-set, take_all,
}
use mathlib.Core.Path.{subst}
use grinch.Prelude.Maps.{update}
use grinch.Ttp.{TtpEvent, TtpStorage, Ttp, emit}

-- The block has room for all events, and the mark of a full block is right.
pub record IsValid (n : ℕ) (st : TtpStorage) : Type 0 where
  pub room : length st.events ≡ n
  pub filled : st.eventcount ≤ n
  pub mark : st.print_max ≡ true → st.eventcount ≡ n

-- The events that the storage holds.
abbrev pub recorded : TtpStorage → List TtpEvent
recorded st = take st.eventcount st.events

-- One call of `ttp_emit`: the CPU, the id and the time.
abbrev pub Call : Type 0
Call = ℕ × ℕ × ℕ

unfoldable pub emit_all : Ttp → List Call → Ttp
emit_all s [] = s
emit_all s ((cpu, id, abs) ∷ cs) = emit_all (emit s cpu id abs).0 cs

-- The events of one CPU among the calls.
abbrev pub events_of : ℕ → List Call → List TtpEvent
events_of cpu [] = []
events_of cpu ((c, id, abs) ∷ cs) =
    if c == cpu then record { id = id; abstime = abs } ∷ events_of cpu cs else events_of cpu cs

take-suc-set :
    {A : Type 0} (xs : List A) (i : ℕ) (v : A)
    → i < length xs
    → take (suc i) (set xs i v) ≡ take i xs ++ (v ∷ [])
take-suc-set [] i v h = absurd (omega arith)
take-suc-set (x ∷ xs) zero v h = refl
take-suc-set (x ∷ xs) (suc i) v h = ap (λ r. x ∷ r) (take-suc-set xs i v (omega arith))

take-set :
    {A : Type 0} (xs : List A) (i : ℕ) (v : A)
    → i < length xs
    → take (i + 1) (set xs i v) ≡ take i xs ++ (v ∷ [])
take-set xs i v h =
    ap (λ n. take n (set xs i v)) {x = i + 1} {y = suc i} (omega arith) ∙ take-suc-set xs i v h

length-take : {A : Type 0} (n : ℕ) (xs : List A) → n ≤ length xs → length (take n xs) ≡ n
length-take zero xs h = refl
length-take (suc n) [] h = absurd (omega arith)
length-take (suc n) (x ∷ xs) h = ap suc (length-take n xs (omega arith))

take-append : {A : Type 0} (n : ℕ) (xs ys : List A) → n ≤ length xs → take n (xs ++ ys) ≡ take n xs
take-append zero xs ys h = refl
take-append (suc n) [] ys h = absurd (omega arith)
take-append (suc n) (x ∷ xs) ys h = ap (λ r. x ∷ r) (take-append n xs ys (omega arith))

-- `ttp_emit` on a CPU in an active trace, by the storage of the CPU.
emit_stored :
    (s : Ttp) (cpu id abs : ℕ)
    → s.trace_active ≡ true
    → let event : TtpEvent = record { id = id; abstime = abs } in
      let st = s.stor cpu in
      let r = (emit s cpu id abs).0 in
      (r.trace_active ≡ true)
      × (r.maxevents ≡ s.maxevents)
      × ((c : ℕ) → c ≢ cpu → r.stor c ≡ s.stor c)
      × ((st.print_max ≡ true) × (r.stor cpu ≡ st)
          ⊎ (st.print_max ≡ false)
            × (st.eventcount ≡ s.maxevents)
            × (r.stor cpu ≡ record st { print_max = true })
          ⊎ (st.print_max ≡ false)
            × (st.eventcount ≢ s.maxevents)
            × (r.stor cpu ≡ record st {
              events = set st.events st.eventcount event;
              eventcount = st.eventcount + 1;
            }))
unfolding emit update
emit_stored s cpu id abs active = (ground arith, ground arith, λ c ne. ground arith, ground arith)

-- What `emit` leaves of the storage of its CPU.
emit-IsValid :
    (s : Ttp) (cpu id abs : ℕ)
    → s.trace_active ≡ true
    → IsValid s.maxevents (s.stor cpu)
    → IsValid s.maxevents ((emit s cpu id abs).0.stor cpu)
emit-IsValid s cpu id abs active v =
    let event : TtpEvent = record { id = id; abstime = abs } in
    let st = s.stor cpu in
    let (_, _, _, after) = emit_stored s cpu id abs active in
    elim after [
      | inl (_, e) ↦ subst (IsValid s.maxevents) (sym e) v
      | inr (inl (_, full, e)) ↦
          subst (IsValid s.maxevents) (sym e)
            (record { room = v.room; filled = v.filled; mark = λ _. full })
      | inr (inr (off, more, e)) ↦ subst (IsValid s.maxevents) (sym e) (record {
        room = length-set st.events st.eventcount event ∙ v.room;
        filled = ground (arith, v.filled, more);
        mark = λ p. ground (arith, off);
      })
    ]

recorded-emit :
    (s : Ttp) (cpu id abs : ℕ)
    → s.trace_active ≡ true
    → IsValid s.maxevents (s.stor cpu)
    → recorded ((emit s cpu id abs).0.stor cpu)
      ≡ take s.maxevents (recorded (s.stor cpu) ++ (record { id = id; abstime = abs } ∷ []))
recorded-emit s cpu id abs active v =
    let event : TtpEvent = record { id = id; abstime = abs } in
    let st = s.stor cpu in
    let (_, _, _, after) = emit_stored s cpu id abs active in
    let held = length-take st.eventcount st.events (omega (arith, v.filled, v.room)) in
    let full : st.eventcount ≡ s.maxevents
        → recorded st ≡ take s.maxevents (recorded st ++ (event ∷ [])) =
      λ e. sym (
        take-append s.maxevents (recorded st) (event ∷ []) (omega (arith, held, e))
        ∙ take_all s.maxevents (recorded st) (omega (arith, held, e))) in
    elim after [
      | inl (on, e) ↦ ap recorded e ∙ full (v.mark on)
      | inr (inl (_, most, e)) ↦ ap recorded e ∙ full most
      | inr (inr (_, more, e)) ↦
          ap recorded e
          ∙ take-set st.events st.eventcount event (ground (arith, v.filled, v.room, more))
          ∙ sym (
              take_all s.maxevents (recorded st ++ (event ∷ []))
                (ground (arith, held, v.filled, more, length-append (recorded st) (event ∷ []))))
    ]

take-take_append :
    {A : Type 0} (n : ℕ) (xs ys : List A) → take n (take n xs ++ ys) ≡ take n (xs ++ ys)
take-take_append zero xs ys = refl
take-take_append (suc n) [] ys = refl
take-take_append (suc n) (x ∷ xs) ys = ap (λ r. x ∷ r) (take-take_append n xs ys)

-- During an active trace, each CPU's storage holds what it held and then the events emitted on that
-- CPU, in order, as far as there is room.
pub recorded-emit_all :
    (cs : List Call) (s : Ttp) (cpu : ℕ)
    → s.trace_active ≡ true
    → IsValid s.maxevents (s.stor cpu)
    → let r = emit_all s cs in
      (recorded (r.stor cpu) ≡ take s.maxevents (recorded (s.stor cpu) ++ events_of cpu cs))
      × IsValid s.maxevents (r.stor cpu)
      × (r.trace_active ≡ true)
      × (r.maxevents ≡ s.maxevents)
unfolding emit_all
recorded-emit_all [] s cpu active v =
    let st = s.stor cpu in
    let held = length-take st.eventcount st.events (omega (arith, v.filled, v.room)) in
    (
      sym (
          ap (take s.maxevents) (append-nil (recorded st))
          ∙ take_all s.maxevents (recorded st) (omega (arith, held, v.filled))),
      v,
      active,
      refl,
    )
recorded-emit_all ((c, id, abs) ∷ cs) s cpu active v =
    let r = (emit s c id abs).0 in
    let event : TtpEvent = record { id = id; abstime = abs } in
    let (on, same, others, _) = emit_stored s c id abs active in
    elim (ℕ_discrete c cpu) [
      | yes e ↦
          let here : (k : TtpStorage → Type 0)
              → k ((emit s cpu id abs).0.stor cpu)
              → k (r.stor cpu) =
            λ k p. subst (λ j. k ((emit s j id abs).0.stor cpu)) (sym e) p in
          let (rec, valid, act, max) = recorded-emit_all cs r cpu on (
            subst (λ n. IsValid n (r.stor cpu)) (sym same)
              (here (IsValid s.maxevents) (emit-IsValid s cpu id abs active v))) in
          (
            rec
                ∙ ap (λ n. take n (recorded (r.stor cpu) ++ events_of cpu cs)) same
                ∙ ap (λ l. take s.maxevents (l ++ events_of cpu cs))
                    (here
                      (λ st. recorded st ≡ take s.maxevents (recorded (s.stor cpu) ++ (event ∷ [])))
                      (recorded-emit s cpu id abs active v))
                ∙ take-take_append s.maxevents (recorded (s.stor cpu) ++ (event ∷ []))
                    (events_of cpu cs)
                ∙ ap (take s.maxevents) (
                    append_assoc (recorded (s.stor cpu)) (event ∷ []) (events_of cpu cs)
                    ∙ ground arith),
            subst (λ n. IsValid n ((emit_all r cs).stor cpu)) same valid,
            act,
            max ∙ same,
          )
      | no ne ↦
          let kept = others cpu (λ q. ne (sym q)) in
          let (rec, valid, act, max) = recorded-emit_all cs r cpu on (
            subst (λ n. IsValid n (r.stor cpu)) (sym same)
              (subst (IsValid s.maxevents) (sym kept) v)) in
          (
            rec
                ∙ ap (λ n. take n (recorded (r.stor cpu) ++ events_of cpu cs)) same
                ∙ ap (λ st. take s.maxevents (recorded st ++ events_of cpu cs)) kept
                ∙ ground arith,
            subst (λ n. IsValid n ((emit_all r cs).stor cpu)) same valid,
            act,
            max ∙ same,
          )
    ]
