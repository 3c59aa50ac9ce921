-- ===== src/Salloc/Row.antt =====
-- The heap as a row of blocks, one behind the other, each header pointing back to the one before.
use grinch.Prelude.{
  ℕ, ◌+◌, ◌≤◌, ◌<◌, ◌≡◌, refl, sym, ap, ◌∙◌, Bool, true, false, Option, some, List, [], ◌∷◌, ◌++◌,
  arith,
}
use grinch.Salloc.{Memchunk, Heap, header_size, canary_front, canary_back, check_chunk}

-- A chunk without its place.
pub record Block : Type 0 where
  pub size : ℕ
  pub used : Bool

abbrev pub is_nil : List Block → Bool
is_nil [] = true
is_nil (b ∷ bs) = false

-- The header of a block.
abbrev pub header : Option ℕ → Block → Bool → Memchunk
header prev b last = record {
  canary1 = canary_front;
  before = prev;
  size = b.size;
  last = last;
  used = b.used;
  canary2 = canary_back;
}

-- The address behind a block.
abbrev pub behind : ℕ → Block → ℕ
behind a b = a + header_size + b.size

-- The headers from `a` on are those of the blocks; the last block is marked.
abbrev pub Row : Heap → Option ℕ → ℕ → List Block → Type 0
Row h prev a [] = Unit
Row h prev a (b ∷ bs) = (h a ≡ header prev b (is_nil bs)) × Row h (some a) (behind a b) bs

-- The bytes that the blocks take, their headers included.
abbrev pub total : List Block → ℕ
total [] = 0
total (b ∷ bs) = header_size + b.size + total bs

-- The address behind a row, and that of its last header.
abbrev pub end_of : ℕ → List Block → ℕ
end_of a [] = a
end_of a (b ∷ bs) = end_of (behind a b) bs

abbrev pub prev_of : Option ℕ → ℕ → List Block → Option ℕ
prev_of prev a [] = prev
prev_of prev a (b ∷ bs) = prev_of (some a) (behind a b) bs

pub end_of-total : (a : ℕ) (bs : List Block) → end_of a bs ≡ a + total bs
end_of-total a [] = omega arith
end_of-total a (b ∷ bs) = omega (arith, end_of-total (behind a b) bs)

pub end_of-le : (a : ℕ) (bs : List Block) → a ≤ end_of a bs
end_of-le a bs = omega (arith, end_of-total a bs)

-- A row depends on the addresses in it alone.
pub Row-frame :
    {h h' : Heap} (prev : Option ℕ) (a : ℕ) (bs : List Block)
    → ((x : ℕ) → a ≤ x → h' x ≡ h x)
    → Row h prev a bs
    → Row h' prev a bs
Row-frame prev a [] same row = tt
Row-frame prev a (b ∷ bs) same (here, row) = (
  same a (omega arith) ∙ here,
  Row-frame (some a) (behind a b) bs (λ x p. same x (omega arith)) row,
)

-- The second part of a row is a row.
pub Row-drop :
    (h : Heap) (prev : Option ℕ) (a : ℕ) (xs ys : List Block)
    → Row h prev a (xs ++ ys)
    → Row h (prev_of prev a xs) (end_of a xs) ys
Row-drop h prev a [] ys row = row
Row-drop h prev a (x ∷ xs) ys row = Row-drop h (some a) (behind a x) xs ys row.1

is_nil-append : (xs ys : List Block) (z : Block) → is_nil (xs ++ (z ∷ ys)) ≡ false
is_nil-append [] ys z = refl
is_nil-append (x ∷ xs) ys z = refl

-- The second part of a row may be replaced.
pub Row-replace :
    {h h' : Heap} (prev : Option ℕ) (a : ℕ) (xs ys zs : List Block) (y z : Block)
    → Row h prev a (xs ++ (y ∷ ys))
    → ((x : ℕ) → x < end_of a xs → h' x ≡ h x)
    → Row h' (prev_of prev a xs) (end_of a xs) (z ∷ zs)
    → Row h' prev a (xs ++ (z ∷ zs))
Row-replace prev a [] ys zs y z row same new = new
Row-replace {h} {h'} prev a (x ∷ xs) ys zs y z (here, row) same new =
    let far = end_of-le (behind a x) xs in
    (
      same a (omega arith)
          ∙ here
          ∙ ap (header prev x) (is_nil-append xs ys y ∙ sym (is_nil-append xs zs z)),
      Row-replace (some a) (behind a x) xs ys zs y z row same new,
    )

pub check-header :
    (prev : Option ℕ) (b : Block) (last : Bool) → check_chunk (header prev b last) ≡ true
check-header prev b last = refl
