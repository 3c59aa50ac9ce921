-- ===== src/Salloc/Alloc.antt =====
-- `salloc_alloc` on a row of blocks is the first-fit search, and never hands out memory in use.
use mathlib.Core.Path.{subst}
use grinch.Prelude.{
  ℕ, zero, suc, ◌+◌, ◌-◌, ◌^◌, ◌≤◌, ◌<◌, ◌≡◌, refl, sym, ap, ◌∙◌, ◌⊎◌, inl, inr, Bool, true, false,
  ◌||◌, Option, none, some, List, [], ◌∷◌, arith, ltb, ltb→lt, Bool-cases, Option-cases, length,
  take,
}
use grinch.Errno.{ok, err, enomem}
use grinch.Salloc.{Heap, header_size, align4, alloc, alloc_from, take_chunk, shortage}
use grinch.Salloc.Row.{Block, is_nil, header, behind, Row, total}
use grinch.Salloc.Place.{
  carve, first_fit, served_at, missing, answer, pointer-take_chunk, take_chunk-Row,
}

alloc_from_here :
    (fuel : ℕ) (h : Heap) (prev : Option ℕ) (a n : ℕ) (b : Block) (last : Bool)
    → h a ≡ header prev b last
    → (b.used || ltb b.size n) ≡ false
    → alloc_from (suc fuel) h a n ≡ some ((take_chunk h a n).0, (take_chunk h a n).1, none)
unfolding alloc_from
alloc_from_here fuel h prev a n b last e fits = ground (arith, e)

alloc_from_last :
    (fuel : ℕ) (h : Heap) (prev : Option ℕ) (a n : ℕ) (b : Block)
    → h a ≡ header prev b true
    → (b.used || ltb b.size n) ≡ true
    → n < 2 ^ 32
    → alloc_from (suc fuel) h a n ≡ some (h, err enomem, some (missing n b []))
unfolding alloc_from shortage
alloc_from_last fuel h prev a n b e skip small = ground (arith, e)

alloc_from_next :
    (fuel : ℕ) (h : Heap) (prev : Option ℕ) (a n : ℕ) (b : Block)
    → h a ≡ header prev b false
    → (b.used || ltb b.size n) ≡ true
    → alloc_from (suc fuel) h a n ≡ alloc_from fuel h (behind a b) n
unfolding alloc_from
alloc_from_next fuel h prev a n b e skip = ground (arith, e)

served_here :
    (n a : ℕ) (b : Block) (bs : List Block)
    → (b.used || ltb b.size n) ≡ false
    → (served_at n a (b ∷ bs) ≡ some (a + header_size)) × (first_fit n (b ∷ bs) ≡ carve n b bs)
served_here n a b bs e = (ground (arith, e), ground (arith, e))

served_later :
    (n a : ℕ) (b : Block) (bs : List Block)
    → (b.used || ltb b.size n) ≡ true
    → (served_at n a (b ∷ bs) ≡ served_at n (behind a b) bs)
      × (first_fit n (b ∷ bs) ≡ b ∷ first_fit n bs)
served_later n a b bs e = (ground (arith, e), ground (arith, e))

is_nil-first_fit : (n : ℕ) (bs : List Block) → is_nil (first_fit n bs) ≡ is_nil bs
is_nil-first_fit n [] = refl
is_nil-first_fit n (b ∷ bs) = ground arith

-- What `salloc_alloc` does to the row from `a` on.
abbrev Placed : ℕ → Heap → Option ℕ → ℕ → ℕ → Block → List Block → Type 0
Placed fuel h prev a n b bs =
    let reply = answer (served_at n a (b ∷ bs)) (missing n b bs) in
    (r : Heap) × (alloc_from fuel h a n ≡ some (r, reply.0, reply.1))
    × Row r prev a (first_fit n (b ∷ bs))
    × ((x : ℕ) → x < a → r x ≡ h x)

alloc_from_taken :
    (fuel : ℕ) {h : Heap} (prev : Option ℕ) (a n : ℕ) (b : Block) (bs : List Block)
    → Row h prev a (b ∷ bs)
    → (b.used || ltb b.size n) ≡ false
    → total (b ∷ bs) < 2 ^ 32
    → Placed (suc fuel) h prev a n b bs
alloc_from_taken fuel {h} prev a n b bs row take small =
    let (at, list) = served_here n a b bs take in
    let unused : b.used ≡ false = ground (arith, take) in
    let fits : n ≤ b.size = ground (arith, take) in
    let (new, frame) = take_chunk-Row h prev a n b unused fits (omega arith) bs row in
    rw (at, list)
      (
        (take_chunk h a n).0,
        alloc_from_here fuel h prev a n b (is_nil bs) row.0 take
            ∙ ap (λ k. some ((take_chunk h a n).0, k, none))
                (pointer-take_chunk h prev a n b unused fits (omega arith) bs row),
        new,
        frame,
      )

alloc_from-Row :
    (fuel : ℕ) {h : Heap} (prev : Option ℕ) (a n : ℕ) (b : Block) (bs : List Block)
    → Row h prev a (b ∷ bs)
    → length bs < fuel
    → total (b ∷ bs) < 2 ^ 32
    → n < 2 ^ 32
    → Placed fuel h prev a n b bs
alloc_from-Row zero prev a n b bs row enough small req = absurd (omega arith)
alloc_from-Row (suc fuel) {h} prev a n b [] row enough small req =
    elim (Bool-cases (b.used || ltb b.size n)) [
      | inr take ↦ alloc_from_taken fuel prev a n b [] row take small
      | inl skip ↦
          let (at, list) = served_later n a b [] skip in
          rw (at, list) (h, alloc_from_last fuel h prev a n b row.0 skip req, row, λ x p. refl)
    ]
alloc_from-Row (suc fuel) {h} prev a n b (c ∷ cs) row enough small req =
    elim (Bool-cases (b.used || ltb b.size n)) [
      | inr take ↦ alloc_from_taken fuel prev a n b (c ∷ cs) row take small
      | inl skip ↦
          let (at, list) = served_later n a b (c ∷ cs) skip in
          let (r, done, rest, frame) =
            alloc_from-Row fuel (some a) (behind a b) n c cs row.1 (omega arith) (omega arith)
              req in
          rw (at, list)
            (
              r,
              alloc_from_next fuel h prev a n b row.0 skip ∙ done,
              (
                frame a (omega arith)
                    ∙ row.0
                    ∙ ap (header prev b) (sym (is_nil-first_fit n (c ∷ cs))),
                rest,
              ),
              λ x p. frame x (omega arith),
            )
    ]

-- A used block with `s` bytes of data at `q`.
abbrev pub Holds : ℕ → ℕ → ℕ → List Block → Type 0
Holds q s a [] = ⊥
Holds q s a (b ∷ bs) =
    (b.used ≡ true) × (q ≡ a + header_size) × (s ≡ b.size) ⊎ Holds q s (behind a b) bs

Holds-le : (q s a : ℕ) (bs : List Block) → Holds q s a bs → a + header_size ≤ q
Holds-le q s a [] h = elim h [ ]
Holds-le q s a (b ∷ bs) (inl (_, e, _)) = omega (arith, e)
Holds-le q s a (b ∷ bs) (inr h) = omega (arith, Holds-le q s (behind a b) bs h)

served_at-le : (n a p : ℕ) (bs : List Block) → served_at n a bs ≡ some p → a + header_size ≤ p
served_at-le n a p [] e = absurd (ground arith)
served_at-le n a p (b ∷ bs) e = ground (arith, served_at-le n (behind a b) p bs)

-- The request is served at `p` with at least `n` bytes, beside the used blocks, which stay.
abbrev pub Served : ℕ → ℕ → ℕ → List Block → List Block → Type 0
Served n a p bs bs' =
    (t : ℕ) × (n ≤ t)
    × Holds p t a bs'
    × (total bs' ≡ total bs)
    × ((q s : ℕ) → Holds q s a bs → Holds q s a bs' × ((q + s ≤ p) ⊎ (p + t ≤ q)))

carve-Served :
    (n a : ℕ) (b : Block) (bs : List Block)
    → b.used ≡ false
    → n ≤ b.size
    → Served n a (a + header_size) (b ∷ bs) (carve n b bs)
carve-Served n a b bs unused fits = elim (Bool-cases (ltb (n + header_size) b.size)) [
  | inl room ↦
      let lt = ltb→lt (n + header_size) b.size room in
      let far : a + header_size + n + header_size + (b.size - n - header_size) ≡ behind a b =
        omega arith in
      rw room (
        n,
        omega arith,
        inl (refl, refl, refl),
        omega arith,
        λ q s h. elim h [
          | inl (u, x, y) ↦ absurd (ground arith)
          | inr k ↦ (
            inr (inr (subst (λ z. Holds q s z bs) (sym far) k)),
            inr (omega (arith, Holds-le q s (behind a b) bs k)),
          )
        ],
      )
  | inr whole ↦ rw whole (
    b.size,
    fits,
    inl (refl, refl, refl),
    refl,
    λ q s h. elim h [
      | inl (u, x, y) ↦ absurd (ground arith)
      | inr k ↦ (inr k, inr (omega (arith, Holds-le q s (behind a b) bs k)))
    ],
  )
]

-- The search leaves every used block as it is and serves the request beside them.
first_fit-Served :
    (n a p : ℕ) (bs : List Block) → served_at n a bs ≡ some p → Served n a p bs (first_fit n bs)
first_fit-Served n a p [] e = absurd (ground arith)
first_fit-Served n a p (b ∷ bs) e = elim (Bool-cases (b.used || ltb b.size n)) [
  | inl skip ↦
      let (at, list) = served_later n a b bs skip in
      let later = sym at ∙ e in
      let (t, fits, new, same, old) = first_fit-Served n (behind a b) p bs later in
      let far = served_at-le n (behind a b) p bs later in
      rw list (
        t,
        fits,
        inr new,
        omega (arith, same),
        λ q s h. elim h [
          | inl (u, x, y) ↦ (inl (u, x, y), inl (omega (arith, x, y, far)))
          | inr k ↦ (inr (old q s k).0, (old q s k).1)
        ],
      )
  | inr take ↦
      let (at, list) = served_here n a b bs take in
      let here : a + header_size ≡ p = ground (arith, at, e) in
      rw list (
        subst (λ z. Served n a z (b ∷ bs) (carve n b bs)) here
          (carve-Served n a b bs (ground (arith, take)) (ground (arith, take))))
]

first_fit-none : (n a : ℕ) (bs : List Block) → served_at n a bs ≡ none → first_fit n bs ≡ bs
first_fit-none n a [] e = refl
first_fit-none n a (b ∷ bs) e = elim (Bool-cases (b.used || ltb b.size n)) [
  | inl skip ↦
      let (at, list) = served_later n a b bs skip in
      list ∙ ap (λ k. b ∷ k) (first_fit-none n (behind a b) bs (sym at ∙ e))
  | inr take ↦ absurd (ground (arith, (served_here n a b bs take).0, e))
]

-- Every block is in use or too small for the request.
abbrev pub NoRoom : ℕ → List Block → Type 0
NoRoom n [] = Unit
NoRoom n (b ∷ bs) = ((b.used ≡ true) ⊎ (b.size < n)) × NoRoom n bs

-- The data at `p` is that of the first block that is free and large enough.
abbrev pub IsFirstFit : ℕ → ℕ → ℕ → List Block → Type 0
IsFirstFit n a p [] = ⊥
IsFirstFit n a p (b ∷ bs) =
    ((p ≡ a + header_size) × (b.used ≡ false) × (n ≤ b.size))
    ⊎ (((b.used ≡ true) ⊎ (b.size < n)) × IsFirstFit n (behind a b) p bs)

no_room : (n : ℕ) (b : Block) → (b.used || ltb b.size n) ≡ true → (b.used ≡ true) ⊎ (b.size < n)
no_room n b skip = elim (Bool-cases b.used) [
  | inl used ↦ inl used
  | inr unused ↦ inr (ground (arith, skip, unused))
]

served_at-NoRoom : (n a : ℕ) (bs : List Block) → served_at n a bs ≡ none → NoRoom n bs
served_at-NoRoom n a [] e = tt
served_at-NoRoom n a (b ∷ bs) e = elim (Bool-cases (b.used || ltb b.size n)) [
  | inl skip ↦
      let (at, list) = served_later n a b bs skip in
      (no_room n b skip, served_at-NoRoom n (behind a b) bs (sym at ∙ e))
  | inr take ↦ absurd (ground (arith, (served_here n a b bs take).0, e))
]

served_at-IsFirstFit :
    (n a p : ℕ) (bs : List Block) → served_at n a bs ≡ some p → IsFirstFit n a p bs
served_at-IsFirstFit n a p [] e = absurd (ground arith)
served_at-IsFirstFit n a p (b ∷ bs) e = elim (Bool-cases (b.used || ltb b.size n)) [
  | inl skip ↦
      let (at, list) = served_later n a b bs skip in
      inr (no_room n b skip, served_at-IsFirstFit n (behind a b) p bs (sym at ∙ e))
  | inr take ↦
      let at = (served_here n a b bs take).0 in
      inl (ground (arith, at, e), ground (arith, take), ground (arith, take))
]

-- `salloc_alloc` on a heap that is a row of blocks serves the request, rounded up to a multiple of 4,
-- from the first block that is free and large enough: it hands out data of at least that size that
-- lies beside every block in use; those stay in use, and the heap is a row of the same size. It
-- answers ENOMEM only if there is no such block, then leaves the row as it is and tells how many bytes
-- are missing: those that a free last block is short of, or a header and the request behind a used one.
pub alloc_lem :
    (fuel : ℕ) (h : Heap) (base n : ℕ) (b : Block) (bs : List Block)
    → Row h none base (b ∷ bs)
    → length bs < fuel
    → total (b ∷ bs) < 2 ^ 32
    → n + 4 ≤ 2 ^ 32
    → ((r : Heap) × (alloc fuel h base n ≡ some (r, err enomem, some (missing (align4 n) b bs)))
        × Row r none base (b ∷ bs)
        × NoRoom (align4 n) (b ∷ bs))
      ⊎ ((r : Heap) × (p : ℕ) × (bs' : List Block) × (alloc fuel h base n ≡ some (r, ok p, none))
          × Row r none base bs'
          × Served (align4 n) base p (b ∷ bs) bs'
          × IsFirstFit (align4 n) base p (b ∷ bs))
unfolding alloc
alloc_lem fuel h base n b bs row enough small req =
    let m = align4 n in
    let (r, done, new, _) = alloc_from-Row fuel none base m b bs row enough small (omega arith) in
    elim (Option-cases (served_at m base (b ∷ bs))) [
      | inl fails ↦ inl (
        r,
        done ∙ ap (λ k. let reply = answer k (missing m b bs) in some (r, reply.0, reply.1)) fails,
        subst (Row r none base) (first_fit-none m base (b ∷ bs) fails) new,
        served_at-NoRoom m base (b ∷ bs) fails,
      )
      | inr (p, e) ↦ inr (
        r,
        p,
        first_fit m (b ∷ bs),
        done ∙ ap (λ k. let reply = answer k (missing m b bs) in some (r, reply.0, reply.1)) e,
        new,
        first_fit-Served m base p (b ∷ bs) e,
        served_at-IsFirstFit m base p (b ∷ bs) e,
      )
    ]
