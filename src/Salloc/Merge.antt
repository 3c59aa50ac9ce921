-- ===== src/Salloc/Merge.antt =====
-- `salloc_free` merges a free block with a free block behind it.
use mathlib.Core.Path.{subst}
use grinch.Prelude.{
  ℕ, ◌+◌, ◌%◌, ◌^◌, ◌<◌, ◌≡◌, refl, sym, ◌∙◌, inl, inr, Bool, true, false, Option, none, some, List,
  [], ◌∷◌, arith, ◌==◌, if◌then◌else◌, Bool-cases,
}
use grinch.Prelude.Maps.{update}
use grinch.Errno.{Result, ok}
use grinch.Salloc.{wiped, Memchunk, Heap, header_size, absorb, merge_after}
use grinch.Salloc.Row.{Block, is_nil, header, behind, Row, total, Row-frame}

abbrev pub freed : Block → Block
freed b = record { size = b.size; used = false }

pub update-below : (h : Heap) (a x : ℕ) (k : Memchunk) → x < a → update h a k x ≡ h x
unfolding update
update-below h a x k p = ground arith

-- Two blocks in one.
abbrev pub merged : Block → Block → Block
merged b c = record { size = b.size + header_size + c.size; used = false }

-- A free block takes in a free block behind it.
abbrev pub join : Block → List Block → List Block
join b [] = b ∷ []
join b (c ∷ cs) = if c.used then b ∷ c ∷ cs else merged b c ∷ cs

pub is_nil-join : (b : Block) (ys : List Block) → is_nil (join b ys) ≡ false
is_nil-join b [] = refl
is_nil-join b (c ∷ cs) = ground arith

abbrev pub following : ℕ → Block → List Block → Option ℕ
following a b ys = if is_nil ys then none else some (behind a b)

-- What merging does to the row from `a` on.
abbrev pub Merged : Heap → Heap × Result (Unit {0}) → Option ℕ → ℕ → List Block → Type 0
Merged h reply prev a bs =
    (r : Heap) × (reply ≡ (r, ok tt)) × Row r prev a bs × ((x : ℕ) → x < a → r x ≡ h x)

module _ (h : Heap) (prev : Option ℕ) (a : ℕ) (b c : Block) (free_b : b.used ≡ false)
    (free_c : c.used ≡ false) (small : b.size + header_size + c.size < 2 ^ 64) where
  absorb_at :
      (last last' : Bool) (x : ℕ)
      → h a ≡ header prev b last
      → h (behind a b) ≡ header (some a) c last'
      → absorb h a (behind a b) x ≡ (
          if x == behind a b then wiped else if x == a then header prev (merged b c) last' else h x)
  unfolding absorb update
  absorb_at last last' x e f =
      let sum : (b.size + (header_size + c.size)) % 2 ^ 64 ≡ b.size + header_size + c.size =
        omega arith in
      ground (arith, e, f, sum)

  absorb-Row :
      (last : Bool) (cs : List Block)
      → h a ≡ header prev b last
      → h (behind a b) ≡ header (some a) c (is_nil cs)
      → Row h (some a) (behind (behind a b) c) cs
      → Row (absorb h a (behind a b)) prev a (merged b c ∷ cs)
        × ((x : ℕ) → x < a → absorb h a (behind a b) x ≡ h x)
  absorb-Row last cs e f row =
      let at = λ (x : ℕ). absorb_at last (is_nil cs) x e f in
      let same : behind (behind a b) c ≡ behind a (merged b c) = omega arith in
      (
        (
          at a ∙ ground arith,
          subst (λ z. Row (absorb h a (behind a b)) (some a) z cs) same
              (Row-frame (some a) (behind (behind a b) c) cs (λ x p. at x ∙ ground arith) row),
        ),
        λ x p. at x ∙ ground arith,
      )

-- Only the header in front of the row points to what is before it.
Row-relink :
    (h : Heap) (prev : Option ℕ) (a p : ℕ) (b : Block) (bs : List Block)
    → Row h prev a (b ∷ bs)
    → Row (update h a (record (h a) { before = some p })) (some p) a (b ∷ bs)
unfolding update
Row-relink h prev a p b bs row =
    (ground (arith, row.0), Row-frame (some a) (behind a b) bs (λ x far. ground arith) row.1)

merge_after-kept :
    (h : Heap) (prev : Option ℕ) (a : ℕ) (b c : Block) (cs : List Block)
    → c.used ≡ true
    → Row h prev a (b ∷ c ∷ cs)
    → Merged h (merge_after h a (some (behind a b))) prev a (join b (c ∷ cs))
unfolding merge_after
merge_after-kept h prev a b c cs used row = (
  h,
  ground (arith, row.1.0),
  subst (λ (u : Bool). Row h prev a (if u then b ∷ c ∷ cs else merged b c ∷ cs)) (sym used) row,
  λ x p. refl,
)

merge_after-last :
    (h : Heap) (prev : Option ℕ) (a : ℕ) (b c : Block)
    → b.used ≡ false
    → c.used ≡ false
    → total (b ∷ c ∷ []) < 2 ^ 64
    → Row h prev a (b ∷ c ∷ [])
    → Merged h (merge_after h a (some (behind a b))) prev a (join b (c ∷ []))
unfolding merge_after
merge_after-last h prev a b c free_b free_c small (here, row) =
    let (new, frame) = absorb-Row h prev a b c free_b free_c (omega arith) false [] here row.0 tt in
    (absorb h a (behind a b), ground (arith, row.0), rw free_c new, frame)

merge_after-next :
    (h : Heap) (prev : Option ℕ) (a : ℕ) (b c d : Block) (ds : List Block)
    → b.used ≡ false
    → c.used ≡ false
    → total (b ∷ c ∷ []) < 2 ^ 64
    → Row h prev a (b ∷ c ∷ d ∷ ds)
    → Merged h (merge_after h a (some (behind a b))) prev a (join b (c ∷ d ∷ ds))
unfolding merge_after update
merge_after-next h prev a b c d ds free_b free_c small (here, (next, row)) =
    let tmp = behind (behind a b) c in
    let h' = update h tmp (record (h tmp) { before = some a }) in
    let untouched : (x : ℕ) → x < tmp → h' x ≡ h x = λ x p. update-below h tmp x _ p in
    let relinked = Row-relink h (some (behind a b)) tmp a d ds row in
    let (new, frame) =
      absorb-Row h' prev a b c free_b free_c (omega arith) false (d ∷ ds)
        (untouched a (omega arith) ∙ here) (untouched (behind a b) (omega arith) ∙ next) relinked in
    (
      absorb h' a (behind a b),
      ground (arith, next, row.0),
      rw free_c new,
      λ x p. frame x p ∙ untouched x (omega arith),
    )

pub merge_after-Row :
    (h : Heap) (prev : Option ℕ) (a : ℕ) (b : Block) (ys : List Block)
    → b.used ≡ false
    → total (b ∷ ys) < 2 ^ 64
    → Row h prev a (b ∷ ys)
    → Merged h (merge_after h a (following a b ys)) prev a (join b ys)
unfolding merge_after
merge_after-Row h prev a b [] unused small row = (h, refl, row, λ x p. refl)
merge_after-Row h prev a b (c ∷ cs) unused small row = elim (Bool-cases c.used) [
  | inl used ↦ merge_after-kept h prev a b c cs used row
  | inr free_c ↦ merge_after-free cs row small free_c
]
  where
    merge_after-free :
        (cs : List Block)
        → Row h prev a (b ∷ c ∷ cs)
        → total (b ∷ c ∷ cs) < 2 ^ 64
        → c.used ≡ false
        → Merged h (merge_after h a (following a b (c ∷ cs))) prev a (join b (c ∷ cs))
    merge_after-free [] row small free_c = merge_after-last h prev a b c unused free_c small row
    merge_after-free (d ∷ ds) row small free_c =
        merge_after-next h prev a b c d ds unused free_c (omega arith) row
