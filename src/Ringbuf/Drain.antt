-- ===== src/Ringbuf/Drain.antt =====
-- `ringbuf_read` and `ringbuf_consume` as the way to take bytes out in order.
use native.Mathlib.Nat.{mod-lt, mod-eq_of_lt, mod-mod}
use grinch.Prelude.{
  ℕ, zero, suc, ◌+◌, ◌-◌, ◌%◌, ◌≤◌, ◌<◌, min, ◌≡◌, refl, sym, ap, ap₂, ◌∙◌, ◌≢◌, ◌↔◌, none, some,
  List, [], ◌∷◌, ◌++◌, arith, length, get_or, take, drop,
}
use grinch.Ringbuf.{Ringbuf, u32, count, read, consume}
use grinch.Ringbuf.Inv.{IsValid}
use grinch.Ringbuf.Refine.{bytes_from, bytes_from_mod, length-bytes_from, contents, wrap_index}

-- The bytes behind the pointer and the length that `ringbuf_read` hands out.
abbrev pub run_at : Ringbuf → ℕ → ℕ → List ℕ
run_at rb pos sz = take sz (drop pos rb.buf)

drop_uncons {ℓ} :
    {A : Type ℓ} (xs : List A) (i : ℕ) (d : A)
    → i < length xs
    → drop i xs ≡ get_or xs i d ∷ drop (i + 1) xs
drop_uncons [] i d h = absurd (omega arith)
drop_uncons (x ∷ xs) zero d h = refl
drop_uncons (x ∷ xs) (suc i) d h =
    drop_uncons xs i d (omega arith)
    ∙ ap (λ n. get_or xs i d ∷ drop n (x ∷ xs)) {x = suc (i + 1)} {y = suc i + 1} (omega arith)

-- Short of the end of the storage the window is a piece of it.
bytes_from_run :
    (size : ℕ) (buf : List ℕ) (pos n : ℕ)
    → length buf ≡ size
    → pos + n ≤ size
    → bytes_from size buf pos n ≡ take n (drop pos buf)
bytes_from_run size buf pos zero len h = refl
bytes_from_run size buf pos (suc n) len h =
    let inside : pos < size = omega arith in
    ap₂ (λ i l. get_or buf i 0 ∷ l) (mod-eq_of_lt inside)
      (bytes_from_run size buf (pos + 1) n len (omega arith))
    ∙ sym (ap (take (suc n)) (drop_uncons buf pos 0 (omega arith)))

bytes_from-add :
    (size : ℕ) (buf : List ℕ) (h n m : ℕ)
    → bytes_from size buf h (n + m) ≡ bytes_from size buf h n ++ bytes_from size buf (h + n) m
bytes_from-add size buf h zero m = ap₂ (bytes_from size buf) h_eq m_eq
  where
    h_eq : h ≡ h + 0
    h_eq = omega arith

    m_eq : 0 + m ≡ m
    m_eq = omega arith
bytes_from-add size buf h (suc n) m =
    ap (bytes_from size buf h) {x = suc n + m} {y = suc (n + m)} (omega arith)
    ∙ ap (λ l. get_or buf (h % size) 0 ∷ l)
        (bytes_from-add size buf (h + 1) n m
          ∙ ap (λ k. bytes_from size buf (h + 1) n ++ bytes_from size buf k m) (omega arith))

pub count-consume :
    {rb : Ringbuf} (sz : ℕ) → IsValid rb → sz ≤ count rb → count (consume rb sz) ≡ count rb - sz
unfolding count consume
count-consume sz v h = ground arith

head-consume :
    (rb : Ringbuf) (sz : ℕ)
    → ((consume rb sz).head ≡ u32 (rb.head + sz))
      × ((consume rb sz).buf ≡ rb.buf)
      × ((consume rb sz).size ≡ rb.size)
unfolding consume
head-consume rb sz = (refl, refl, refl)

-- `ringbuf_consume` drops bytes from the front.
pub contents-consume :
    {rb : Ringbuf} (sz : ℕ)
    → IsValid rb
    → sz ≤ count rb
    → contents rb ≡ bytes_from rb.size rb.buf rb.head sz ++ contents (consume rb sz)
contents-consume {rb} sz v h =
    ap (bytes_from rb.size rb.buf rb.head) {x = count rb} {y = sz + (count rb - sz)} (omega arith)
    ∙ bytes_from-add rb.size rb.buf rb.head sz (count rb - sz)
    ∙ ap (λ l. bytes_from rb.size rb.buf rb.head sz ++ l) (sym rest)
  where
    rest : contents (consume rb sz) ≡ bytes_from rb.size rb.buf (rb.head + sz) (count rb - sz)
    rest =
        fields
        ∙ bytes_from_mod rb.size rb.buf (u32 (rb.head + sz)) (rb.head + sz) (count rb - sz)
            (wrap_index (rb.head + sz) v)
      where
        fields :
            contents (consume rb sz)
            ≡ bytes_from rb.size rb.buf (u32 (rb.head + sz)) (count rb - sz)
        fields = cc (
          count-consume sz v h,
          (head-consume rb sz).0,
          (head-consume rb sz).1,
          (head-consume rb sz).2,
        )

read-none-count : (rb : Ringbuf) → read rb ≡ none → count rb ≡ 0
unfolding read
read-none-count rb e = ground arith

read-none_empty : (rb : Ringbuf) → count rb ≡ 0 → read rb ≡ none
unfolding read
read-none_empty rb e = ground arith

-- The position and the length that `ringbuf_read` computes.
read_fields :
    (rb : Ringbuf) {pos sz : ℕ}
    → read rb ≡ some (pos, sz)
    → (pos ≡ rb.head % rb.size) × (sz ≡ min (count rb) (rb.size - pos)) × (count rb ≢ 0)
unfolding read
read_fields rb e = ground arith

-- `ringbuf_read` answers NULL exactly on an empty ring.
pub read-none : (rb : Ringbuf) → (read rb ≡ none) ↔ (contents rb ≡ [])
read-none rb = (
  λ e. by_count (count rb) (read-none-count rb e),
  λ e. read-none_empty rb (sym (length-bytes_from rb.size rb.buf rb.head (count rb)) ∙ ap length e),
)
  where
    by_count : (n : ℕ) → n ≡ 0 → bytes_from rb.size rb.buf rb.head n ≡ []
    by_count n e = ap (bytes_from rb.size rb.buf rb.head) e

-- Otherwise it hands out a nonempty run inside the storage, which is the front of the contents;
-- `ringbuf_consume` of its length leaves the rest.
pub read-some :
    {rb : Ringbuf} {pos sz : ℕ}
    → IsValid rb
    → read rb ≡ some (pos, sz)
    → (0 < sz)
      × (sz ≤ count rb)
      × (pos + sz ≤ length rb.buf)
      × (contents rb ≡ run_at rb pos sz ++ contents (consume rb sz))
read-some {rb} {pos} {sz} v e =
    let (p, s, busy) = read_fields rb e in
    let inside : rb.head % rb.size < rb.size = mod-lt rb.head v.positive in
    let fits : sz ≤ count rb = omega arith in
    let room : pos + sz ≤ rb.size = omega arith in
    let start : rb.head % rb.size ≡ pos % rb.size =
      sym (mod-mod rb.head rb.size) ∙ ap (λ i. i % rb.size) (sym p) in
    let front = bytes_from_mod rb.size rb.buf rb.head pos sz start in
    let piece = bytes_from_run rb.size rb.buf pos sz v.storage room in
    (
      omega arith,
      fits,
      omega arith,
      contents-consume sz v fits ∙ ap (λ l. l ++ contents (consume rb sz)) (front ∙ piece),
    )
