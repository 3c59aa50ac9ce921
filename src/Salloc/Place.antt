-- ===== src/Salloc/Place.antt =====
-- The chunk that `salloc_alloc` takes from a row of blocks, and the first-fit search.
use grinch.Prelude.{
  ℕ, ◌+◌, ◌-◌, ◌^◌, ◌≤◌, ◌<◌, ◌≡◌, ◌∙◌, inl, inr, Bool, true, false, ◌||◌, Option, none, some, List,
  [], ◌∷◌, arith, ltb, ◌==◌, if◌then◌else◌, ltb→lt, Bool-cases,
}
use grinch.Prelude.Maps.{update}
use grinch.Errno.{Result, ok, err, enomem}
use grinch.Salloc.{Memchunk, Heap, header_size, next_chunk, take_chunk, split, cut}
use grinch.Salloc.Row.{Block, is_nil, header, behind, Row, Row-frame}

-- The block that serves a request of `n` bytes; what is left over is a block of its own if there is
-- room for its header.
abbrev pub carve : ℕ → Block → List Block → List Block
carve n b bs =
    if ltb (n + header_size) b.size
    then record { size = n; used = true }
      ∷ record { size = b.size - n - header_size; used = false }
      ∷ bs
    else record { size = b.size; used = true } ∷ bs

-- The first free block that is large enough is taken.
abbrev pub first_fit : ℕ → List Block → List Block
first_fit n [] = []
first_fit n (b ∷ bs) =
    let rest = b ∷ first_fit n bs in if b.used || ltb b.size n then rest else carve n b bs

-- The address of the data that the request is served with.
abbrev pub served_at : ℕ → ℕ → List Block → Option ℕ
served_at n a [] = none
served_at n a (b ∷ bs) =
    let rest = served_at n (behind a b) bs in
    if b.used || ltb b.size n then rest else some (a + header_size)

-- The bytes that are missing at the end of the heap.
abbrev pub missing : ℕ → Block → List Block → ℕ
missing n b [] = if b.used then header_size + n else n - b.size
missing n b (c ∷ bs) = missing n c bs

-- What `salloc_alloc` answers.
abbrev pub answer : Option ℕ → ℕ → Result ℕ × Option ℕ
answer none lack = (err enomem, some lack)
answer (some p) lack = (ok p, none)

next_chunk-header :
    (h : Heap) (prev : Option ℕ) (a : ℕ) (b : Block) (bs : List Block)
    → h a ≡ header prev b (is_nil bs)
    → next_chunk h a ≡ (if is_nil bs then none else some (behind a b))
next_chunk-header h prev a b bs e = ground (arith, e)

module _ (h : Heap) (prev : Option ℕ) (a n : ℕ) (b : Block) (unused : b.used ≡ false)
    (fits : n ≤ b.size) (small : b.size < 2 ^ 32) where
  abbrev taken : Bool → Memchunk
  taken last = header prev (record { size = n; used = true }) last

  abbrev left_over : Bool → Memchunk
  left_over last = header (some a) (record { size = b.size - n - header_size; used = false }) last

  take_whole :
      (last : Bool) (x : ℕ)
      → h a ≡ header prev b last
      → b.size ≤ n + header_size
      → (take_chunk h a n).0 x
        ≡ (if x == a then header prev (record { size = b.size; used = true }) last else h x)
  unfolding take_chunk update
  take_whole last x e p = ground (arith, e)

  take_cut_last :
      (x : ℕ)
      → h a ≡ header prev b true
      → n + header_size < b.size
      → (take_chunk h a n).0 x
        ≡ (if x == a then taken false else if x == a + header_size + n then left_over true else h x)
  unfolding take_chunk split cut update
  take_cut_last x e p = ground (arith, e)

  take_cut :
      (c : Block) (last : Bool) (x : ℕ)
      → h a ≡ header prev b false
      → h (behind a b) ≡ header (some a) c last
      → n + header_size < b.size
      → (take_chunk h a n).0 x ≡ (
          if x == a
          then taken false
          else if x == a + header_size + n
          then left_over false
          else if x == behind a b
          then header (some (a + header_size + n)) c last
          else h x)
  unfolding take_chunk split cut update
  take_cut c last x e k p = ground (arith, e, k)

  take_cut_far :
      (c : Block) (last : Bool) (x : ℕ)
      → h a ≡ header prev b false
      → h (behind a b) ≡ header (some a) c last
      → n + header_size < b.size
      → behind a b < x
      → (take_chunk h a n).0 x ≡ h x
  take_cut_far c last x e k p far = take_cut c last x e k p ∙ ground arith

  take_cut_next :
      (c : Block) (last : Bool)
      → h a ≡ header prev b false
      → h (behind a b) ≡ header (some a) c last
      → n + header_size < b.size
      → (take_chunk h a n).0 (behind a b) ≡ header (some (a + header_size + n)) c last
  take_cut_next c last e k p = take_cut c last (behind a b) e k p ∙ ground arith

  pub pointer-take_chunk :
      (bs : List Block) → Row h prev a (b ∷ bs) → (take_chunk h a n).1 ≡ ok (a + header_size)
  unfolding take_chunk split update
  pointer-take_chunk [] row = ground (arith, row)
  pointer-take_chunk (c ∷ cs) row = ground (arith, row.0, row.1.0)

  -- The chunk that is taken, as a row.
  pub take_chunk-Row :
      (bs : List Block)
      → Row h prev a (b ∷ bs)
      → Row (take_chunk h a n).0 prev a (carve n b bs)
        × ((x : ℕ) → x < a → (take_chunk h a n).0 x ≡ h x)
  take_chunk-Row bs row = elim (Bool-cases (ltb (n + header_size) b.size)) [
    | inr whole ↦
        let at = λ (x : ℕ). take_whole (is_nil bs) x row.0 (ground (arith, whole)) in
        rw whole (
          (
            at a ∙ ground arith,
            Row-frame (some a) (behind a b) bs (λ x p. at x ∙ ground arith) row.1,
          ),
          λ x p. at x ∙ ground arith,
        )
    | inl room ↦ rw room (cut_row bs row (ltb→lt (n + header_size) b.size room))
  ]
    where
      cut_row :
          (bs : List Block)
          → Row h prev a (b ∷ bs)
          → n + header_size < b.size
          → Row (take_chunk h a n).0 prev a (
              record { size = n; used = true }
              ∷ record { size = b.size - n - header_size; used = false }
              ∷ bs)
            × ((x : ℕ) → x < a → (take_chunk h a n).0 x ≡ h x)
      cut_row [] row room =
          let at = λ (x : ℕ). take_cut_last x row.0 room in
          (
            (at a ∙ ground arith, (at (a + header_size + n) ∙ ground arith, tt)),
            λ x p. at x ∙ ground arith,
          )
      cut_row (c ∷ cs) row room =
          let at = λ (x : ℕ). take_cut c (is_nil cs) x row.0 row.1.0 room in
          let far : a + header_size + n + header_size + (b.size - n - header_size) ≡ behind a b =
            omega arith in
          (
            (
              at a ∙ ground arith,
              (
                at (a + header_size + n) ∙ ground arith,
                rw far (
                  take_cut_next c (is_nil cs) row.0 row.1.0 room,
                  Row-frame (some (behind a b)) (behind (behind a b) c) cs
                      (λ x p. take_cut_far c (is_nil cs) x row.0 row.1.0 room (omega arith))
                      row.1.1,
                ),
              ),
            ),
            λ x p. at x ∙ ground arith,
          )
