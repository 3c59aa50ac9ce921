-- ===== src/Ringbuf/Refine.antt =====
-- The byte ring against a queue of at most `size` bytes that forgets its oldest byte when full.
use native.Mathlib.Nat.{mod-lt, mod-add-mod, mod-eq_of_lt, mod-eq-sub-mod, mod-mod_of_dvd}
use native.Mathlib.Nat.{mul-mod_right, dvd_of_mod-eq-zero}
use grinch.Prelude.{
  ℕ, zero, suc, ◌+◌, ◌-◌, ◌*◌, ◌%◌, ◌^◌, ◌≤◌, ◌<◌, ◌≡◌, refl, sym, ap, ap₂, ◌∙◌, ◌≢◌, List, [], ◌∷◌,
  ◌++◌, append-nil, append_assoc, arith, dec_lt, length, get_or, set, drop, length-append,
  get_or-set_self, get_or-set_ne, length-drop,
}
use grinch.Prelude.Bits.{IsPow2-divides}
use grinch.Ringbuf.{Ringbuf, u32, count, write}
use grinch.Ringbuf.Inv.{IsValid, write-IsValid}

-- Where the counters wrap, the index goes on: the size divides 2 ^ 32.
pub wrap_index : {rb : Ringbuf} (k : ℕ) → IsValid rb → u32 k % rb.size ≡ k % rb.size
wrap_index {rb} k v =
    let (q, whole) = IsPow2-divides 32 v.pow2 (omega arith) in
    mod-mod_of_dvd rb.size k (dvd_of_mod-eq-zero rb.size (rw whole (mul-mod_right rb.size q)))

-- Fewer than `size` steps lead to another index.
index_ne : (size h d : ℕ) → 0 < d → d < size → (h + d) % size ≢ h % size
index_ne size h d p q =
    let r = h % size in
    let in_range : r < size = mod-lt h (omega arith) in
    let shift = mod-add-mod h size d in
    elim (dec_lt (r + d) size) [
      | yes fits ↦ omega (arith, shift, mod-eq_of_lt fits)
      | no wraps ↦ omega (
        arith,
        shift,
        mod-eq-sub-mod {n = r + d} {m = size} (omega arith),
        mod-eq_of_lt {n = r + d - size} {m = size} (omega arith),
      )
    ]

module _ (size : ℕ) where
  -- the `n` bytes from the free-running index `h` on
  abbrev pub bytes_from : List ℕ → ℕ → ℕ → List ℕ
  bytes_from buf h zero = []
  bytes_from buf h (suc n) = get_or buf (h % size) 0 ∷ bytes_from buf (h + 1) n

  pub length-bytes_from : (buf : List ℕ) (h n : ℕ) → length (bytes_from buf h n) ≡ n
  length-bytes_from buf h zero = refl
  length-bytes_from buf h (suc n) = ap suc (length-bytes_from buf (h + 1) n)

  -- Only the place of the first byte counts.
  pub bytes_from_mod :
      (buf : List ℕ) (h k n : ℕ) → h % size ≡ k % size → bytes_from buf h n ≡ bytes_from buf k n
  bytes_from_mod buf h k zero e = refl
  bytes_from_mod buf h k (suc n) e =
      ap₂ ◌∷◌ (ap (λ i. get_or buf i 0) e) (bytes_from_mod buf (h + 1) (k + 1) n step)
    where
      step : (h + 1) % size ≡ (k + 1) % size
      step = sym (mod-add-mod h size 1) ∙ ap (λ r. (r + 1) % size) e ∙ mod-add-mod k size 1

  bytes_from_snoc :
      (buf : List ℕ) (h n : ℕ)
      → bytes_from buf h (suc n) ≡ bytes_from buf h n ++ (get_or buf ((h + n) % size) 0 ∷ [])
  bytes_from_snoc buf h zero = ap (λ k. get_or buf (k % size) 0 ∷ []) (omega arith)
  bytes_from_snoc buf h (suc n) =
      ap (λ l. get_or buf (h % size) 0 ∷ l)
        (bytes_from_snoc buf (h + 1) n
          ∙ ap (λ k. bytes_from buf (h + 1) n ++ (get_or buf (k % size) 0 ∷ [])) (omega arith))

  -- A write past the window leaves the window alone.
  bytes_from-set_past :
      (buf : List ℕ) (c h m k : ℕ)
      → m + k < size
      → bytes_from (set buf ((h + (m + k)) % size) c) h m ≡ bytes_from buf h m
  bytes_from-set_past buf c h zero k lt = refl
  bytes_from-set_past buf c h (suc m) k lt =
      ap₂ ◌∷◌ (get_or-set_ne buf c 0 (index_ne size h (suc m + k) (omega arith) lt)) (
        ap (λ i. bytes_from (set buf (i % size) c) (h + 1) m) {x = h + (suc m + k)}
          {y = h + 1 + (m + k)} (omega arith)
        ∙ bytes_from-set_past buf c (h + 1) m k (omega arith))

  -- A write just past a window that leaves room appends its byte.
  pub bytes_from-set :
      (buf : List ℕ) (c h n : ℕ)
      → length buf ≡ size
      → n < size
      → bytes_from (set buf ((h + n) % size) c) h (suc n) ≡ bytes_from buf h n ++ (c ∷ [])
  bytes_from-set buf c h n len lt =
      bytes_from_snoc (set buf ((h + n) % size) c) h n
      ∙ ap₂ (λ l b. l ++ (b ∷ [])) past
          (get_or-set_self buf ((h + n) % size) c 0 (rw len (mod-lt (h + n) (omega arith))))
    where
      past : bytes_from (set buf ((h + n) % size) c) h n ≡ bytes_from buf h n
      past =
          ap (λ i. bytes_from (set buf ((h + i) % size) c) h n) {x = n} {y = n + 0} (omega arith)
          ∙ bytes_from-set_past buf c h n 0 (omega arith)

-- What the ring holds, oldest byte first.
abbrev pub contents : Ringbuf → List ℕ
contents rb = bytes_from rb.size rb.buf rb.head (count rb)

-- The last `k` of a list: what a ring of `k` bytes keeps of the bytes written to it.
abbrev pub newest : ℕ → List ℕ → List ℕ
newest k xs = drop (length xs - k) xs

counters : {rb : Ringbuf} → IsValid rb → rb.tail ≡ u32 (rb.head + count rb)
unfolding count
counters v = omega arith

-- The place that the next write goes to.
tail_index : {rb : Ringbuf} → IsValid rb → rb.tail % rb.size ≡ (rb.head + count rb) % rb.size
tail_index {rb} v = ap (λ t. t % rb.size) (counters v) ∙ wrap_index (rb.head + count rb) v

size_half : {rb : Ringbuf} → IsValid rb → rb.size ≤ 2 ^ 31
size_half {rb} v =
    let (q, whole) = IsPow2-divides 32 v.pow2 (omega arith) in size_below rb.size q v.small whole
  where
    size_below : (s q : ℕ) → s < 2 ^ 32 → 2 ^ 32 ≡ s * q → s ≤ 2 ^ 31
    size_below s zero h e = omega arith
    size_below s (suc zero) h e = omega arith
    size_below s (suc (suc q)) h e = grind arith

-- The fields after a write that finds room.
write_room_fields :
    {rb : Ringbuf} (c : ℕ)
    → IsValid rb
    → count rb < rb.size
    → (count (write rb c) ≡ suc (count rb)) × ((write rb c).head ≡ rb.head)
unfolding write count
write_room_fields {rb} c v lt = ground (arith, size_half v)

-- The fields after a write that finds none.
write_full_fields :
    {rb : Ringbuf} (c : ℕ)
    → IsValid rb
    → count rb ≡ rb.size
    → (count (write rb c) ≡ rb.size) × ((write rb c).head ≡ u32 (rb.head + 1))
unfolding write count
write_full_fields {rb} c v full = ground (arith, size_half v)

buf-write : (rb : Ringbuf) (c : ℕ) → (write rb c).buf ≡ set rb.buf (rb.tail % rb.size) c
unfolding write
buf-write rb c = ground arith

size-write : (rb : Ringbuf) (c : ℕ) → (write rb c).size ≡ rb.size
unfolding write
size-write rb c = ground arith

-- With room left a write appends.
write_room :
    {rb : Ringbuf} (c : ℕ)
    → IsValid rb
    → count rb < rb.size
    → contents (write rb c) ≡ contents rb ++ (c ∷ [])
write_room {rb} c v lt =
    let (cnt, head) = write_room_fields c v lt in
    cc (
      cnt,
      head,
      buf-write rb c,
      size-write rb c,
      tail_index v,
      bytes_from-set rb.size rb.buf c rb.head (count rb) v.storage lt,
    )

-- Without room it also drops the oldest byte.
write_full :
    {rb : Ringbuf} (c : ℕ)
    → IsValid rb
    → count rb ≡ rb.size
    → contents (write rb c) ≡ drop 1 (contents rb ++ (c ∷ []))
write_full {rb} c v full =
    let k = rb.size - 1 in
    let (cnt, head) = write_full_fields c v full in
    let last : rb.size ≡ suc k = omega arith in
    let buf' = set rb.buf ((rb.head + 1 + k) % rb.size) c in
    let place : rb.head + count rb ≡ rb.head + 1 + k = omega arith in
    let held : count rb ≡ suc k = full ∙ last in
    let kept : bytes_from rb.size rb.buf rb.head (count rb)
        ≡ get_or rb.buf (rb.head % rb.size) 0 ∷ bytes_from rb.size rb.buf (rb.head + 1) k =
      ap (bytes_from rb.size rb.buf rb.head) held in
    let stored : set rb.buf (rb.tail % rb.size) c ≡ buf' =
      ap (λ i. set rb.buf i c) (tail_index v ∙ ap (λ i. i % rb.size) place) in
    let moved =
      bytes_from_mod rb.size buf' (u32 (rb.head + 1)) (rb.head + 1) (suc k)
        (wrap_index (rb.head + 1) v) in
    let added = bytes_from-set rb.size rb.buf c (rb.head + 1) k v.storage (omega arith) in
    let dropped : drop 1 (contents rb ++ (c ∷ []))
        ≡ bytes_from rb.size rb.buf (rb.head + 1) k ++ (c ∷ []) =
      ap (λ l. drop 1 (l ++ (c ∷ []))) kept in
    written cnt head stored last ∙ moved ∙ added ∙ sym dropped
  where
    written :
        {n h : ℕ} {b : List ℕ}
        → count (write rb c) ≡ rb.size
        → (write rb c).head ≡ h
        → set rb.buf (rb.tail % rb.size) c ≡ b
        → rb.size ≡ n
        → contents (write rb c) ≡ bytes_from rb.size b h n
    written p q r s = cc (buf-write rb c, size-write rb c)

-- `ringbuf_write` on a valid ring leaves it holding the newest `size` of the bytes that it held and
-- the one written.
pub contents-write :
    {rb : Ringbuf} (c : ℕ)
    → IsValid rb
    → contents (write rb c) ≡ newest rb.size (contents rb ++ (c ∷ []))
contents-write {rb} c v =
    let len = length-append (contents rb) (c ∷ []) in
    let held = length-bytes_from rb.size rb.buf rb.head (count rb) in
    elim (dec_lt (count rb) rb.size) [
      | yes lt ↦
          write_room c v lt
          ∙ sym (
              ap (λ k. drop k (contents rb ++ (c ∷ [])))
                {x = length (contents rb ++ (c ∷ [])) - rb.size} {y = 0} (omega arith))
      | no full ↦
          write_full c v (omega arith)
          ∙ sym (
              ap (λ k. drop k (contents rb ++ (c ∷ [])))
                {x = length (contents rb ++ (c ∷ [])) - rb.size} {y = 1} (omega arith))
    ]

unfoldable pub write_all : Ringbuf → List ℕ → Ringbuf
write_all rb [] = rb
write_all rb (c ∷ cs) = write_all (write rb c) cs

pub write_all-IsValid :
    (cs : List ℕ) {rb : Ringbuf}
    → IsValid rb
    → IsValid (write_all rb cs) × ((write_all rb cs).size ≡ rb.size)
unfolding write_all
write_all-IsValid [] {rb} v = (v, refl)
write_all-IsValid (c ∷ cs) {rb} v =
    let (valid, same) = write_all-IsValid cs {rb = write rb c} (write-IsValid c v) in
    (valid, same ∙ size-write rb c)

newest_all : (k : ℕ) (xs : List ℕ) → length xs ≤ k → newest k xs ≡ xs
newest_all k xs h = ap (λ n. drop n xs) {x = length xs - k} {y = 0} (omega arith)

drop-drop_append :
    (a : ℕ) (xs ys : List ℕ)
    → a ≤ length xs
    → (b : ℕ) → drop b (drop a xs ++ ys) ≡ drop (a + b) (xs ++ ys)
drop-drop_append zero xs ys h b = ap (λ n. drop n (xs ++ ys)) (omega arith)
drop-drop_append (suc a) [] ys h b = elim h [ ]
drop-drop_append (suc a) (x ∷ xs) ys h b =
    drop-drop_append a xs ys (omega arith) b
    ∙ ap (λ n. drop n (x ∷ xs ++ ys)) {x = suc (a + b)} (omega arith)

-- What has been dropped once is dropped for good.
newest-newest_append : (k : ℕ) (xs ys : List ℕ) → newest k (newest k xs ++ ys) ≡ newest k (xs ++ ys)
newest-newest_append k xs ys =
    let d = length xs - k in
    drop-drop_append d xs ys (omega arith) (length (drop d xs ++ ys) - k)
    ∙ ap (λ n. drop n (xs ++ ys))
        (omega (arith, length-append (drop d xs) ys, length-append xs ys, length-drop d xs))

-- After any writes a valid ring holds the newest `size` bytes of all that was in it and was
-- written, in order.
pub contents-write_all :
    (cs : List ℕ) {rb : Ringbuf}
    → IsValid rb
    → contents (write_all rb cs) ≡ newest rb.size (contents rb ++ cs)
unfolding write_all
contents-write_all [] {rb} v = sym (
    newest_all rb.size (contents rb ++ []) (
      omega (
        arith,
        length-append (contents rb) [],
        length-bytes_from rb.size rb.buf rb.head (count rb),
        v.held,
      ))
    ∙ append-nil (contents rb))
contents-write_all (c ∷ cs) {rb} v =
    contents-write_all cs {rb = write rb c} (write-IsValid c v)
    ∙ ap₂ (λ k l. newest k (l ++ cs)) (size-write rb c) (contents-write c v)
    ∙ newest-newest_append rb.size (contents rb ++ (c ∷ [])) cs
    ∙ ap (newest rb.size) (append_assoc (contents rb) (c ∷ []) cs)
