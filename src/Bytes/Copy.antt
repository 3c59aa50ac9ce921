-- ===== src/Bytes/Copy.antt =====
-- What the routines that write leave in memory.
use grinch.Prelude.{
  ℕ, zero, suc, ◌+◌, ◌-◌, ◌%◌, ◌≤◌, ◌<◌, ◌≡◌, refl, sym, ap, ◌∙◌, ◌≢◌, ◌⊎◌, inl, inr, arith, dec_lt,
  ltb, ◌==◌, if◌then◌else◌, Bool-cases,
}
use grinch.Prelude.Maps.{update, update_self, update_ne}
use grinch.Bytes.{Memory, memset, copy_up, copy_down, memmove, memcpy, strncpy}

-- No address of the `n` bytes from `a` on.
abbrev pub Outside : ℕ → ℕ → ℕ → Type 0
Outside a n x = (x < a) ⊎ (a + n ≤ x)

-- The bytes at `dst` are those that `mem` has at `src`, and the others are those of `mem`.
abbrev pub Copied : Memory → ℕ → ℕ → ℕ → Memory → Type 0
Copied mem dst src n r =
    ((i : ℕ) → i < n → r (dst + i) ≡ mem (src + i)) × ((x : ℕ) → Outside dst n x → r x ≡ mem x)

-- A range is known by its first byte and the rest.
range_cons :
    (r : Memory) (f : ℕ → ℕ) (a n : ℕ)
    → r a ≡ f 0
    → ((i : ℕ) → i < n → r (a + 1 + i) ≡ f (suc i))
    → (i : ℕ) → i < suc n
    → r (a + i) ≡ f i
range_cons r f a n first rest zero p = ap r {x = a + 0} {y = a} (omega arith) ∙ first
range_cons r f a n first rest (suc i) p =
    ap r {x = a + suc i} {y = a + 1 + i} (omega arith) ∙ rest i (omega arith)

copy_up-Copied :
    (mem : Memory) (a b n : ℕ) → (a ≤ b) ⊎ (b + n ≤ a) → Copied mem a b n (copy_up mem a b n)
unfolding copy_up
copy_up-Copied mem a b zero h = (λ i p. absurd (omega arith), λ x p. refl)
copy_up-Copied mem a b (suc n) h =
    let mem1 = update mem a (mem b) in
    let r = copy_up mem1 (a + 1) (b + 1) n in
    let (inside, outside) = copy_up-Copied mem1 (a + 1) (b + 1) n (ground arith) in
    (
      range_cons r (λ i. mem (b + i)) a n
          (outside a (inl (omega arith))
            ∙ update_self mem a (mem b)
            ∙ ap mem {x = b} {y = b + 0} (omega arith))
          (λ i p.
            inside i p
            ∙ update_ne mem a (b + 1 + i) (mem b) (ground arith)
            ∙ ap mem {x = b + 1 + i} {y = b + suc i} (omega arith)),
      λ x p. outside x (ground arith) ∙ update_ne mem a x (mem b) (ground arith),
    )

copy_down-Copied :
    (mem : Memory) (dst src n : ℕ) → src ≤ dst → Copied mem dst src n (copy_down mem dst src n)
unfolding copy_down
copy_down-Copied mem dst src zero h = (λ i p. absurd (omega arith), λ x p. refl)
copy_down-Copied mem dst src (suc n) h =
    let mem1 = update mem (dst + n) (mem (src + n)) in
    let r = copy_down mem1 dst src n in
    let (inside, outside) = copy_down-Copied mem1 dst src n h in
    (
      λ i p. elim (dec_lt i n) [
        | yes lt ↦ inside i lt ∙ update_ne mem (dst + n) (src + i) (mem (src + n)) (omega arith)
        | no ge ↦
            ap r {x = dst + i} {y = dst + n} (omega (arith, ge, p))
            ∙ outside (dst + n) (inr (omega arith))
            ∙ update_self mem (dst + n) (mem (src + n))
            ∙ ap mem {x = src + n} {y = src + i} (omega (arith, ge, p))
      ],
      λ x p. outside x (ground arith) ∙ update_ne mem (dst + n) x (mem (src + n)) (ground arith),
    )

-- `memmove` copies the range, also where source and destination overlap, and nothing else changes.
pub memmove-Copied : (mem : Memory) (dst src n : ℕ) → Copied mem dst src n (memmove mem dst src n)
unfolding memmove
memmove-Copied mem dst src n = elim (Bool-cases (src == dst)) [
  | inl e ↦
      rw (e, memmove) ((λ i p. ap mem {x = dst + i} {y = src + i} (ground arith), λ x p. refl))
  | inr ne ↦ elim (Bool-cases (ltb dst src)) [
    | inl lt ↦ rw (ne, lt, memmove) (copy_up-Copied mem dst src n (inl (ground arith)))
    | inr ge ↦ rw (ne, ge, memmove) (copy_down-Copied mem dst src n (ground arith))
  ]
]

-- `memcpy` of ranges that do not overlap does what `memmove` does.
pub memcpy-memmove :
    (mem : Memory) (dst src n x : ℕ)
    → (dst + n ≤ src) ⊎ (src + n ≤ dst)
    → memcpy mem dst src n x ≡ memmove mem dst src n x
unfolding memcpy
memcpy-memmove mem dst src n x h =
    let (in1, out1) = copy_up-Copied mem dst src n (ground arith) in
    let (in2, out2) = memmove-Copied mem dst src n in
    elim (Outside-cases dst n x) [
      | inl (i, lt, e) ↦
          ap (copy_up mem dst src n) e
          ∙ in1 i lt
          ∙ sym (in2 i lt)
          ∙ ap (memmove mem dst src n) (sym e)
      | inr o ↦ out1 x o ∙ sym (out2 x o)
    ]
  where
    Outside-cases : (a n x : ℕ) → ((i : ℕ) × (i < n) × (x ≡ a + i)) ⊎ Outside a n x
    Outside-cases a n x = elim (dec_lt x a) [
      | yes lt ↦ inr (inl lt)
      | no ge ↦ elim (dec_lt x (a + n)) [
        | yes lt ↦ inl (x - a, omega (arith, ge), omega (arith, ge))
        | no big ↦ inr (inr (omega arith))
      ]
    ]

-- `memset` fills the range with the low byte of its argument, and nothing else changes.
pub memset_lem :
    (mem : Memory) (s c n : ℕ)
    → ((i : ℕ) → i < n → memset mem s c n (s + i) ≡ c % 256)
      × ((x : ℕ) → Outside s n x → memset mem s c n x ≡ mem x)
unfolding memset
memset_lem mem s c zero = (λ i p. absurd (omega arith), λ x p. refl)
memset_lem mem s c (suc n) =
    let r = memset (update mem s (c % 256)) (s + 1) c n in
    let (inside, outside) = memset_lem (update mem s (c % 256)) (s + 1) c n in
    (
      range_cons r (λ i. c % 256) s n (outside s (inl (omega arith)) ∙ update_self mem s (c % 256))
          inside,
      λ x p. outside x (ground arith) ∙ update_ne mem s x (c % 256) (ground arith),
    )

-- The bytes that `strncpy` is to leave: the `len` characters at `src`, and then NULs.
abbrev pub padded : Memory → ℕ → ℕ → ℕ → ℕ
padded mem src len i = if ltb i len then mem (src + i) else 0

-- `strncpy` of a string of `len` characters into `n` bytes apart from it copies it, fills up with
-- NULs, and changes nothing else.
pub strncpy_lem :
    (mem : Memory) (dest src n len : ℕ)
    → (dest + n ≤ src) ⊎ (src + len < dest)
    → ((j : ℕ) → j < len → mem (src + j) ≢ 0)
    → mem (src + len) ≡ 0
    → ((i : ℕ) → i < n → strncpy mem dest src n (dest + i) ≡ padded mem src len i)
      × ((x : ℕ) → Outside dest n x → strncpy mem dest src n x ≡ mem x)
unfolding strncpy
strncpy_lem mem dest src zero len apart text end = (λ i p. absurd (omega arith), λ x p. refl)
strncpy_lem mem dest src (suc n) zero apart text end =
    let mem1 = update mem dest (mem src) in
    let nul : mem src ≡ 0 = ap mem {x = src} {y = src + 0} (omega arith) ∙ end in
    let r = strncpy mem1 (dest + 1) src n in
    let same : strncpy mem dest src (suc n) ≡ r = ground arith in
    let (inside, outside) =
      strncpy_lem mem1 (dest + 1) src n zero (ground arith) (λ j p. absurd (omega arith))
        (update_ne mem dest (src + 0) (mem src) (ground arith) ∙ end) in
    rw same (
      range_cons r (padded mem src zero) dest n
          (outside dest (inl (omega arith)) ∙ update_self mem dest (mem src) ∙ nul ∙ ground arith)
          (λ i p. inside i p ∙ ground arith),
      λ x p. outside x (ground arith) ∙ update_ne mem dest x (mem src) (ground arith),
    )
strncpy_lem mem dest src (suc n) (suc len) apart text end =
    let mem1 = update mem dest (mem src) in
    let char : mem src ≢ 0 =
      λ e. text 0 (omega arith) (ap mem {x = src + 0} {y = src} (omega arith) ∙ e) in
    let r = strncpy mem1 (dest + 1) (src + 1) n in
    let same : strncpy mem dest src (suc n) ≡ r = ground arith in
    let moved : (j : ℕ) → j ≤ len → mem1 (src + 1 + j) ≡ mem (src + suc j) = λ j q.
      update_ne mem dest (src + 1 + j) (mem src) (ground (arith, q))
      ∙ ap mem {x = src + 1 + j} {y = src + suc j} (omega arith) in
    let (inside, outside) =
      strncpy_lem mem1 (dest + 1) (src + 1) n len (ground arith)
        (λ j p e. text (suc j) (omega arith) (sym (moved j (omega arith)) ∙ e))
        (moved len (omega arith) ∙ end) in
    rw same (
      range_cons r (padded mem src (suc len)) dest n
          (outside dest (inl (omega arith))
            ∙ update_self mem dest (mem src)
            ∙ ap mem {x = src} {y = src + 0} (omega arith)
            ∙ ground arith)
          (λ i p. inside i p ∙ ground (arith, moved i)),
      λ x p. outside x (ground arith) ∙ update_ne mem dest x (mem src) (ground arith),
    )
