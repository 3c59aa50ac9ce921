-- ===== src/Asid/Laws.antt =====
-- An identifier is handed out once, and 0 never is.
use grinch.Prelude.{
  ℕ, ◌+◌, ◌%◌, ◌^◌, ◌≤◌, ◌<◌, ◌≡◌, refl, sym, ap, ap₂, ◌∙◌, ◌≢◌, ◌⊎◌, inl, inr, Bool, true, false,
  not, ◌&&◌, ◌||◌, Option, some, arith, ℕ_discrete, Bool-cases,
}
use grinch.Errno.{ok}
use grinch.Vma.{done}
use grinch.Bitmap.{Words, find_next_zero_area, bitmap_set, bitmap_clear}
use grinch.Bitmap.Set.{holds, within, or-false, and-true, bitmap_set_lem, bitmap_clear_lem}
use grinch.Bitmap.Find.{AreWords}
use grinch.Bitmap.Area.{IsArea, find_next_zero_area_lem}
use grinch.Bitmap.Keep.{AreWords-bitmap_set, AreWords-bitmap_clear}
use grinch.Asid.{Asids, asid_init, asid_alloc, asid_free, alloc_in}

-- A bitmap of identifiers: 0 is in use.
pub record IsReserved (words : Words) (nr : ℕ) : Type 0 where
  pub ok_words : AreWords words
  pub small : nr < 2 ^ 31
  pub zero_used : holds words 0 ≡ true

-- `asid` was free and is in use now; all others are as they were.
pub record IsHanded (words : Words) (nr asid : ℕ) (words' : Words) : Type 0 where
  pub low : 0 < asid
  pub high : asid < nr
  pub was_free : holds words asid ≡ false
  pub in_use : holds words' asid ≡ true
  pub others : (i : ℕ) → i ≢ asid → holds words' i ≡ holds words i
  pub reserved : IsReserved words' nr

-- What `asid_alloc` answers: a fresh identifier, or 0 if none is free.
abbrev pub Alloc : Words → ℕ → Asids → ℕ → Type 0
Alloc words nr a' asid =
    ((asid ≡ 0)
      × (a' ≡ record { asid_bitmap = some words; nr_asids = nr })
      × ((i : ℕ) → i < nr → holds words i ≡ true))
    ⊎ ((words' : Words) × (a' ≡ record { asid_bitmap = some words'; nr_asids = nr })
        × IsHanded words nr asid words')

full :
    (words : Words) (nr asid : ℕ)
    → find_next_zero_area (nr + 1) words nr 0 1 0 ≡ some asid
    → nr ≤ asid
    → alloc_in words nr ≡ done (record { asid_bitmap = some words; nr_asids = nr }, 0)
unfolding alloc_in
full words nr asid e p = ground (arith, e, p)

hands :
    (words words' : Words) (nr asid : ℕ)
    → find_next_zero_area (nr + 1) words nr 0 1 0 ≡ some asid
    → asid < nr
    → bitmap_set 2 words asid 1 ≡ some words'
    → alloc_in words nr ≡ done (record { asid_bitmap = some words'; nr_asids = nr }, asid)
unfolding alloc_in
hands words words' nr asid e p e' = ground (arith, e, p, e')

one-IsArea : (words : Words) (i : ℕ) → holds words i ≡ false → IsArea words 1 i
one-IsArea words i clear j p q = ap (holds words) {x = j} {y = i} (omega arith) ∙ clear

no_area_set :
    (words : Words) (nr : ℕ)
    → ((j : ℕ) → 0 ≤ j → j % 1 ≡ 0 → IsArea words 1 j → nr < j + 1)
    → (i : ℕ) → i < nr
    → holds words i ≡ true
no_area_set words nr none_free i p = elim (Bool-cases (holds words i)) [
  | inl e ↦ e
  | inr e ↦
      let far = none_free i (omega arith) (omega arith) (one-IsArea words i e) in
      absurd (omega (arith, far, p))
]

IsHanded-set :
    (words words' : Words) (nr asid : ℕ)
    → IsReserved words nr
    → asid < nr
    → IsArea words 1 asid
    → bitmap_set 2 words asid 1 ≡ some words'
    → ((i : ℕ) → holds words' i ≡ (holds words i || within asid 1 i))
    → IsHanded words nr asid words'
IsHanded-set words words' nr asid reserved p area e marks =
    let clear = area asid (omega arith) (omega arith) in
    let out : (i : ℕ) → i ≢ asid → within asid 1 i ≡ false = λ i ne. ground (arith, ne) in
    let others : (i : ℕ) → i ≢ asid → holds words' i ≡ holds words i =
      λ i ne. marks i ∙ ap (λ w. holds words i || w) (out i ne) ∙ or-false (holds words i) in
    let low : 0 < asid = elim (ℕ_discrete asid 0) [
      | yes z ↦ cc (sym reserved.zero_used ∙ ap (holds words) (sym z) ∙ clear)
      | no z ↦ omega (arith, z)
    ] in
    let hit : within asid 1 asid ≡ true = ground arith in
    record {
      low = low;
      high = p;
      was_free = clear;
      in_use = marks asid ∙ ap₂ (λ x y. x || y) clear hit;
      others = others;
      reserved = record {
        ok_words = AreWords-bitmap_set 2 words words' asid 1 reserved.ok_words e;
        small = reserved.small;
        zero_used = others 0 (omega (arith, low)) ∙ reserved.zero_used;
      };
    }

-- With a bitmap, `asid_alloc` ends. It hands out an identifier other than 0 that was free, marks it
-- and no other as used, and keeps 0 reserved; it answers 0, changing nothing, only if every
-- identifier is in use.
pub asid_alloc_lem :
    (words : Words) (nr : ℕ)
    → IsReserved words nr
    → (a' : Asids) × (asid : ℕ) × (asid_alloc (record { asid_bitmap = some words; nr_asids = nr })
        ≡ done (a', asid))
      × Alloc words nr a' asid
unfolding asid_alloc
asid_alloc_lem words nr reserved =
    let (asid, e, first) =
      find_next_zero_area_lem words nr 1 0 reserved.ok_words (omega arith) (omega arith)
        (omega (arith, reserved.small)) (nr + 1) 0 (omega arith) in
    elim first [
      | inl (big, none_free) ↦ (
        record { asid_bitmap = some words; nr_asids = nr },
        0,
        full words nr asid e (omega (arith, big)),
        inl (refl, refl, no_area_set words nr none_free),
      )
      | inr (fits, low, aligned, area, least) ↦
          let (words', e', marks) =
            bitmap_set_lem 2 words asid 1 (omega arith) (omega (arith, fits, reserved.small)) in
          (
            record { asid_bitmap = some words'; nr_asids = nr },
            asid,
            hands words words' nr asid e (omega (arith, fits)) e',
            inr (
              words',
              refl,
              IsHanded-set words words' nr asid reserved (omega (arith, fits)) area e' marks,
            ),
          )
    ]

-- What `asid_free` leaves behind: `asid` is free, all others are as they were.
pub record IsFreed (words : Words) (nr asid : ℕ) (words' : Words) : Type 0 where
  pub is_free : holds words' asid ≡ false
  pub others : (i : ℕ) → i ≢ asid → holds words' i ≡ holds words i
  pub reserved : IsReserved words' nr

frees :
    {S : Type 0} (flush_tlb_asid : S → ℕ → S) (s : S) (words words' : Words) (nr asid : ℕ)
    → asid ≢ 0
    → bitmap_clear 2 words asid 1 ≡ some words'
    → asid_free flush_tlb_asid s (record { asid_bitmap = some words; nr_asids = nr }) asid
      ≡ done (flush_tlb_asid s asid, record { asid_bitmap = some words'; nr_asids = nr })
unfolding asid_free
frees flush_tlb_asid s words words' nr asid z e = ground (arith, z, e)

-- `asid_free` of an identifier other than 0 ends, flushes it from the TLB, makes it available, and
-- leaves every other identifier as it was, with 0 reserved.
pub asid_free_lem :
    {S : Type 0} (flush_tlb_asid : S → ℕ → S) (s : S) (words : Words) (nr asid : ℕ)
    → IsReserved words nr
    → asid ≢ 0
    → asid < nr
    → (words' : Words) × (asid_free flush_tlb_asid s
          (record { asid_bitmap = some words; nr_asids = nr })
          asid
        ≡ done (flush_tlb_asid s asid, record { asid_bitmap = some words'; nr_asids = nr }))
      × IsFreed words nr asid words'
asid_free_lem flush_tlb_asid s words nr asid reserved z p =
    let (words', e, clears) =
      bitmap_clear_lem 2 words asid 1 (omega arith) (omega (arith, p, reserved.small)) in
    let out : (i : ℕ) → i ≢ asid → within asid 1 i ≡ false = λ i ne. ground (arith, ne) in
    let others : (i : ℕ) → i ≢ asid → holds words' i ≡ holds words i =
      λ i ne. clears i ∙ ap (λ w. holds words i && not w) (out i ne) ∙ and-true (holds words i) in
    (
      words',
      frees flush_tlb_asid s words words' nr asid z e,
      record {
        is_free =
            clears asid
            ∙ ap (λ w. holds words asid && not w) {x = within asid 1 asid} {y = true} (ground arith)
            ∙ and-none (holds words asid);
        others = others;
        reserved = record {
          ok_words = AreWords-bitmap_clear 2 words words' asid 1 reserved.ok_words e;
          small = reserved.small;
          zero_used = others 0 (λ w. z (sym w)) ∙ reserved.zero_used;
        };
      },
    )
  where
    and-none : (b : Bool) → (b && not true) ≡ false
    and-none true = refl
    and-none false = refl

inits :
    (nr : ℕ) (bitmap_zalloc : ℕ → Option Words) (words words' : Words)
    → 1 < nr
    → bitmap_zalloc nr ≡ some words
    → bitmap_set 2 words 0 1 ≡ some words'
    → asid_init nr bitmap_zalloc ≡ done (record { asid_bitmap = some words'; nr_asids = nr }, ok tt)
unfolding asid_init
inits nr bitmap_zalloc words words' p e e' = ground (arith, p, e, e')

-- With more than one identifier and memory for the bitmap, `asid_init` ends with 0 reserved and, as
-- the bitmap was zeroed, every other identifier free.
pub asid_init_lem :
    (nr : ℕ) (bitmap_zalloc : ℕ → Option Words) (words : Words)
    → 1 < nr
    → nr < 2 ^ 31
    → bitmap_zalloc nr ≡ some words
    → AreWords words
    → ((i : ℕ) → holds words i ≡ false)
    → (words' : Words) × (asid_init nr bitmap_zalloc
        ≡ done (record { asid_bitmap = some words'; nr_asids = nr }, ok tt))
      × IsReserved words' nr
      × ((i : ℕ) → i ≢ 0 → holds words' i ≡ false)
asid_init_lem nr bitmap_zalloc words p small e ok_words clear =
    let (words', e', marks) = bitmap_set_lem 2 words 0 1 (omega arith) (omega arith) in
    let hit : within 0 1 0 ≡ true = refl in
    let out : (i : ℕ) → i ≢ 0 → within 0 1 i ≡ false = λ i ne. ground (arith, ne) in
    (
      words',
      inits nr bitmap_zalloc words words' p e e',
      record {
        ok_words = AreWords-bitmap_set 2 words words' 0 1 ok_words e';
        small = small;
        zero_used = marks 0 ∙ ap₂ (λ x y. x || y) (clear 0) hit;
      },
      λ i ne. marks i ∙ ap₂ (λ x y. x || y) (clear i) (out i ne),
    )
