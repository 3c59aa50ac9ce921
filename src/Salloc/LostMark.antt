-- ===== src/Salloc/LostMark.antt =====
-- `salloc_free` of the last block of the heap behind a free block: `before->flags` does not take
-- over MEMCHUNK_FLAG_LAST.
use grinch.Prelude.{
  ℕ, zero, suc, ◌+◌, ◌%◌, ◌^◌, ◌<◌, ◌≡◌, refl, sym, ap, ap₂, ◌∙◌, ◌≢◌, Bool, true, false, Option,
  none, some, List, [], ◌∷◌, ◌++◌, arith, if◌then◌else◌, length,
}
use grinch.Prelude.Maps.{update, update_ne, update_self}
use grinch.Errno.{ok, err, einval}
use grinch.Salloc.{
  wiped, Memchunk, Heap, header_size, check_chunk, next_chunk, free, fsck, run_forward,
  merge_before, merge_after, relink,
}
use grinch.Salloc.Row.{Block, is_nil, header, behind, Row, total, end_of}
use grinch.Salloc.Merge.{freed, merged, update-below}
use grinch.Salloc.Release.{freed-Row, free-release, release_later}
use grinch.Salloc.Check.{run_forward_step}

merge_before-last :
    (h : Heap) (prev : Option ℕ) (a : ℕ) (x y : Block)
    → x.used ≡ false
    → total (x ∷ y ∷ []) < 2 ^ 64
    → Row h prev a (x ∷ y ∷ [])
    → (r : Heap) × (merge_before h a (behind a x) none ≡ (r, ok tt))
      × (r a ≡ header prev (merged x y) false)
      × ((z : ℕ) → z ≢ a → z ≢ behind a x → r z ≡ h z)
unfolding merge_before merge_after relink
merge_before-last h prev a x y unused small (here, (next, _)) =
    let grown = record (h a) {
      size = ((h a).size + (header_size + (h (behind a x)).size)) % 2 ^ 64;
    } in
    let whole : ◌≡◌ {A = ℕ} ((x.size + (header_size + y.size)) % 2 ^ 64) (merged x y).size =
      omega arith in
    (
      update (update h a grown) (behind a x) wiped,
      ground (arith, here, unused),
      update_ne (update h a grown) (behind a x) a wiped (λ e. omega (arith, e))
          ∙ update_self h a grown
          ∙ ap₂ (λ (j k : Memchunk). record j { size = (j.size + (header_size + k.size)) % 2 ^ 64 })
              here next
          ∙ ap₂ (λ (s : ℕ) (u : Bool). header prev (record { size = s; used = u }) false) whole
              unused,
      λ z p q. update_ne (update h a grown) (behind a x) z wiped q ∙ update_ne h a z grown p,
    )

free_last :
    (h : Heap) (prev : Option ℕ) (a : ℕ) (x y : Block)
    → x.used ≡ false
    → y.used ≡ true
    → total (x ∷ y ∷ []) < 2 ^ 64
    → Row h prev a (x ∷ y ∷ [])
    → (r : Heap) × (free h (behind a x + header_size) ≡ (r, ok tt))
      × (r a ≡ header prev (merged x y) false)
      × ((z : ℕ) → z ≢ a → z ≢ behind a x → r z ≡ h z)
free_last h prev a x y unused used small (here, row) =
    let m = behind a x in
    let h' = update h m (record (h m) { used = false }) in
    let row' = freed-Row h (some a) m y [] row in
    let same : h' a ≡ header prev x false = update-below h m a _ (omega arith) ∙ here in
    let (r, done, at, far) = merge_before-last h' prev a x (freed y) unused small (same, row') in
    (
      r,
      free-release h (some a) m y true used row.0
          ∙ release_later h' a m (freed y) [] (ap check_chunk same) row'
          ∙ done,
      at,
      λ z p q. far z p q ∙ update_ne h m z _ q,
    )

run_forward_broken :
    (fuel : ℕ) (h : Heap) (a size : ℕ)
    → check_chunk (h a) ≡ false
    → run_forward (suc fuel) h a size ≡ some (err einval)
unfolding run_forward
run_forward_broken fuel h a size broken = ground (arith, broken)

is_nil-append : (ws : List Block) (x y : Block) → is_nil (ws ++ (x ∷ y ∷ [])) ≡ false
is_nil-append [] x y = refl
is_nil-append (w ∷ ws) x y = refl

-- The mark is lost wherever the two blocks stand.
free_last_in :
    (h : Heap) (prev : Option ℕ) (a fuel size : ℕ) (ws : List Block) (x y : Block)
    → Row h prev a (ws ++ (x ∷ y ∷ []))
    → x.used ≡ false
    → y.used ≡ true
    → size + total (ws ++ (x ∷ y ∷ [])) < 2 ^ 64
    → check_chunk (h (end_of a (ws ++ (x ∷ y ∷ [])))) ≡ false
    → length ws + 1 < fuel
    → (r : Heap) × (free h (end_of a ws + header_size + x.size + header_size) ≡ (r, ok tt))
      × (next_chunk r (end_of a ws) ≡ some (end_of a (ws ++ (x ∷ y ∷ []))))
      × (run_forward fuel r a size ≡ some (err einval))
      × ((z : ℕ) → z < a → r z ≡ h z)
free_last_in h prev a zero size [] x y row unused used small broken enough = absurd (omega arith)
free_last_in h prev a (suc zero) size [] x y row unused used small broken enough =
    absurd (omega arith)
free_last_in h prev a (suc (suc fuel)) size [] x y row unused used small broken enough =
    let (r, done, at, far) = free_last h prev a x y unused used (omega arith) row in
    let stop : ◌≡◌ {A = ℕ} (behind (behind a x) y) (behind a (merged x y)) = omega arith in
    let behind_it = far (behind (behind a x) y) (λ e. omega (arith, e)) (λ e. omega (arith, e)) in
    (
      r,
      done,
      ap (λ (k : Memchunk). if k.last then none else some (a + header_size + k.size)) at
          ∙ ap some (sym stop),
      run_forward_step (suc fuel) r prev a size (merged x y) false at (omega arith)
          ∙ run_forward_broken fuel r (behind a (merged x y)) _
              (ap (λ z. check_chunk (r z)) (sym stop) ∙ ap check_chunk behind_it ∙ broken),
      λ z p. far z (λ e. omega (arith, e)) (λ e. omega (arith, e)),
    )
free_last_in h prev a zero size (w ∷ ws) x y row unused used small broken enough =
    absurd (omega arith)
free_last_in h prev a (suc fuel) size (w ∷ ws) x y (here, row) unused used small broken enough =
    let (r, done, next, wrong, frame) =
      free_last_in h (some a) (behind a w) fuel (size + header_size + w.size) ws x y row unused used
        (omega arith) broken (omega arith) in
    let same = frame a (omega arith) ∙ here ∙ ap (header prev w) (is_nil-append ws x y) in
    (
      r,
      done,
      next,
      run_forward_step fuel r prev a size w false same (omega arith) ∙ wrong,
      λ z p. frame z (omega arith),
    )

-- A used block that is the last of the heap and stands behind a free block: `salloc_free` of it
-- succeeds, but the block that takes it in is not marked as the last, so the next one is
-- looked for behind the end of the heap. If no header happens to stand there, `salloc_fsck` answers
-- EINVAL on that heap from then on.
pub free_last_lem :
    (h : Heap) (base fuel size : ℕ) (ws : List Block) (x y : Block)
    → Row h none base (ws ++ (x ∷ y ∷ []))
    → x.used ≡ false
    → y.used ≡ true
    → total (ws ++ (x ∷ y ∷ [])) < 2 ^ 64
    → check_chunk (h (end_of base (ws ++ (x ∷ y ∷ [])))) ≡ false
    → length ws + 1 < fuel
    → (r : Heap) × (free h (end_of base ws + header_size + x.size + header_size) ≡ (r, ok tt))
      × (next_chunk r (end_of base ws) ≡ some (end_of base (ws ++ (x ∷ y ∷ []))))
      × (fsck fuel r base size ≡ some (err einval))
unfolding fsck
free_last_lem h base fuel size ws x y row unused used small broken enough =
    let (r, done, next, wrong, _) =
      free_last_in h none base fuel 0 ws x y row unused used (omega arith) broken enough in
    (r, done, next, ground (arith, wrong))
