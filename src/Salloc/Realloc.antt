-- ===== src/Salloc/Realloc.antt =====
-- common/src/salloc.c: `salloc_realloc` and `salloc_stats`.
use grinch.Prelude.{
  ℕ, zero, suc, ◌+◌, ◌-◌, ◌%◌, ◌^◌, ◌≤◌, ◌<◌, min, ◌≡◌, sym, ap, ap₂, ◌∙◌, ◌⊎◌, inl, inr, true, not,
  Option, none, some, List, [], ◌∷◌, arith, if◌then◌else◌, length,
}
use grinch.Errno.{Result, ok, err, einval, enomem}
use grinch.Salloc.{Memchunk, Heap, header_size, align4, check_chunk, alloc}
use grinch.Salloc.Row.{Block, behind, Row, total}
use grinch.Salloc.Place.{missing}
use grinch.Salloc.Alloc.{Holds, alloc_lem}

-- What `salloc_realloc` does with the answer of `salloc_alloc`. The memory is modelled by its headers
-- alone: no data is copied here, and the answer carries the number of bytes that `memcpy` copies to the
-- new place.
abbrev copied : ℕ → Option (Heap × Result ℕ × Option ℕ) → Option (Heap × Result (ℕ × ℕ) × Option ℕ)
copied m_old none = none
copied m_old (some (h, err e, lack)) = some (h, err e, lack)
copied m_old (some (h, ok new, lack)) =
    some (h, ok (new, min (h m_old).size (h (new - header_size)).size), lack)

-- `salloc_realloc`
pub realloc : ℕ → Heap → ℕ → Option ℕ → ℕ → Option (Heap × Result (ℕ × ℕ) × Option ℕ)
realloc fuel h base none size = elim (alloc fuel h base size) [
  | none ↦ none
  | some (h', err e, lack) ↦ some (h', err e, lack)
  | some (h', ok new, lack) ↦ some (h', ok (new, 0), lack)
]
realloc fuel h base (some old) size =
    let m_old = old - header_size in
    if check_chunk (h m_old)
    then copied m_old (alloc fuel h base size)
    else some (h, err einval, none)

-- What `salloc_stats` counts.
pub record Stats : Type 0 where
  pub free_bytes : ℕ
  pub used_bytes : ℕ
  pub chunks_free : ℕ
  pub chunks_used : ℕ

-- One chunk is counted.
abbrev pub tally : Stats → Memchunk → Stats
tally s m =
    if m.used
    then record s {
      used_bytes = (s.used_bytes + m.size) % 2 ^ 64;
      chunks_used = (s.chunks_used + 1) % 2 ^ 64;
    }
    else record s {
      free_bytes = (s.free_bytes + m.size) % 2 ^ 64;
      chunks_free = (s.chunks_free + 1) % 2 ^ 64;
    }

-- The loop of `salloc_stats`.
stats_from : ℕ → Heap → ℕ → Stats → Option (Result Stats)
stats_from zero h this s = none
stats_from (suc fuel) h this s =
    let s' = tally s (h this) in
    let rest = stats_from fuel h (this + header_size + (h this).size) s' in
    if not (check_chunk (h this))
    then some (err einval)
    else if (h this).last
    then some (ok s')
    else rest

-- `salloc_stats`
pub stats : ℕ → Heap → ℕ → Option (Result Stats)
stats fuel h base =
    stats_from fuel h base
      (record { free_bytes = 0; used_bytes = 0; chunks_free = 0; chunks_used = 0 })

-- A block in use has a whole header with its size.
Holds-header :
    (h : Heap) (prev : Option ℕ) (q s a : ℕ) (bs : List Block)
    → Row h prev a bs
    → Holds q s a bs
    → (check_chunk (h (q - header_size)) ≡ true) × ((h (q - header_size)).size ≡ s)
Holds-header h prev q s a [] row k = elim k [ ]
Holds-header h prev q s a (b ∷ bs) row (inl (u, p, e)) =
    let at : q - header_size ≡ a = omega (arith, p) in
    (
      ap (λ z. check_chunk (h z)) at ∙ ap check_chunk row.0,
      ap (λ z. (h z).size) at ∙ ap (λ (k : Memchunk). k.size) row.0 ∙ sym e,
    )
Holds-header h prev q s a (b ∷ bs) row (inr k) = Holds-header h (some a) q s (behind a b) bs row.1 k

realloc_copies :
    (fuel : ℕ) (h : Heap) (base old n : ℕ)
    → check_chunk (h (old - header_size)) ≡ true
    → realloc fuel h base (some old) n ≡ copied (old - header_size) (alloc fuel h base n)
unfolding realloc
realloc_copies fuel h base old n whole = ground (arith, whole)

-- `salloc_realloc` of a block in use, on a heap that is a row of blocks, either answers ENOMEM and
-- changes nothing, or hands out another block of at least the size asked for, to which it copies the
-- bytes that fit, and the old block is still in use afterwards.
pub realloc_leaks :
    (fuel : ℕ) (h : Heap) (base old s n : ℕ) (b : Block) (bs : List Block)
    → Row h none base (b ∷ bs)
    → Holds old s base (b ∷ bs)
    → length bs < fuel
    → total (b ∷ bs) < 2 ^ 32
    → n + 4 ≤ 2 ^ 32
    → ((r : Heap) × (lack : ℕ) × (realloc fuel h base (some old) n
          ≡ some (r, err enomem, some lack))
        × Row r none base (b ∷ bs))
      ⊎ ((r : Heap) × (p : ℕ) × (t : ℕ) × (bs' : List Block) × (realloc fuel h base (some old) n
            ≡ some (r, ok (p, min s t), none))
          × Row r none base bs'
          × (n ≤ t)
          × Holds p t base bs'
          × Holds old s base bs'
          × ((old + s ≤ p) ⊎ (p + t ≤ old)))
realloc_leaks fuel h base old s n b bs row held enough small req =
    let head =
      realloc_copies fuel h base old n (Holds-header h none old s base (b ∷ bs) row held).0 in
    elim (alloc_lem fuel h base n b bs row enough small req) [
      | inl (r, e, new, _) ↦
          inl (r, missing (align4 n) b bs, head ∙ ap (copied (old - header_size)) e, new)
      | inr (r, p, bs', e, new, (t, fits, given, _, keep), _) ↦
          let (kept, beside) = keep old s held in
          inr (
            r,
            p,
            t,
            bs',
            head
                ∙ ap (copied (old - header_size)) e
                ∙ ap₂ (λ j k. some (r, ok (p, min j k), none))
                    (Holds-header r none old s base bs' new kept).1
                    (Holds-header r none p t base bs' new given).1,
            new,
            omega (arith, fits),
            given,
            kept,
            beside,
          )
    ]
