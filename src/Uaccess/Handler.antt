-- ===== src/Uaccess/Handler.antt =====
-- A handler of page faults that keeps a frame for each page, beyond all others.
use grinch.Prelude.{
  ℕ, ◌+◌, ◌*◌, ◌/◌, ◌%◌, ◌≤◌, ◌≡◌, refl, sym, ap, ◌∙◌, ◌≢◌, ◌⊎◌, inl, inr, Bool, false, Option,
  some, arith, ℕ_discrete, ◌==◌, if◌then◌else◌,
}
use grinch.Prelude.Maps.{update, update_self, update_ne}
use grinch.Vma.{page_size}
use grinch.Uaccess.{Space}
use grinch.Uaccess.Write.{view-some, view-none, IsInjective, Backs}

-- The first of the frames that the handler gives out.
abbrev pub pool : ℕ
pool = 262144

-- A frame of the pool backs only its page.
abbrev pub IsKept : (ℕ → Option ℕ) → Type 0
IsKept pages = (p f : ℕ) → pages p ≡ some f → pool ≤ f → f ≡ pool + p

-- The page is backed by its frame, which holds zeros.
abbrev pub backed : Space → ℕ → Space
backed sp page = record {
  pages = update sp.pages page (some (pool + page));
  bytes = λ x. if x / page_size == pool + page then 0 else sp.bytes x;
}

abbrev pub handler : Space → ℕ → Option Space
handler sp a = some (backed sp (a / page_size))

backed-cases :
    (sp : Space) (page p f : ℕ)
    → (backed sp page).pages p ≡ some f
    → ((p ≡ page) × (f ≡ pool + page)) ⊎ ((p ≢ page) × (sp.pages p ≡ some f))
backed-cases sp page p f e = elim (ℕ_discrete p page) [
  | yes here ↦
      let there = update_self sp.pages page (some (pool + page)) in
      let at = ap (update sp.pages page (some (pool + page))) here in
      inl (here, ground (arith, e, there, at))
  | no other ↦ inr (other, sym (update_ne sp.pages page p (some (pool + page)) other) ∙ e)
]

backed-IsKept : (sp : Space) (page : ℕ) → IsKept sp.pages → IsKept (backed sp page).pages
backed-IsKept sp page kept p f e high = elim (backed-cases sp page p f e) [
  | inl (here, frame) ↦ omega (arith, here, frame)
  | inr (_, there) ↦ kept p f there high
]

backed-IsInjective :
    (sp : Space) (page : ℕ) → IsKept sp.pages → IsInjective sp → IsInjective (backed sp page)
backed-IsInjective sp page kept one p q f e k = elim (backed-cases sp page p f e) [
  | inl (here, frame) ↦ elim (backed-cases sp page q f k) [
    | inl (here', _) ↦ here ∙ sym here'
    | inr (other, there) ↦
        let same = kept q f there (omega (arith, frame)) in
        absurd (other (omega (arith, same, frame)))
  ]
  | inr (other, there) ↦ elim (backed-cases sp page q f k) [
    | inl (_, frame) ↦
        let same = kept p f there (omega (arith, frame)) in
        absurd (other (omega (arith, same, frame)))
    | inr (_, there') ↦ one p q f there there'
  ]
]

pub handler-Backs : (lo hi : ℕ) → Backs IsKept handler lo hi
handler-Backs lo hi sp a kept one low high absent =
    let page = a / page_size in
    (
      backed sp page,
      pool + page,
      refl,
      backed-IsKept sp page kept,
      backed-IsInjective sp page kept one,
      update_self sp.pages page (some (pool + page)),
      λ b v e.
          let (f, at) = view-none sp b v e in
          let other : b / page_size ≢ page = λ same. ground (arith, ap sp.pages same, at, absent) in
          let there = update_ne sp.pages page (b / page_size) (some (pool + page)) other ∙ at in
          let x = f * page_size + b % page_size in
          let frame : x / page_size ≡ f = omega arith in
          let apart : f ≢ pool + page =
            λ same. other (omega (arith, kept (b / page_size) f at (omega (arith, same)), same)) in
          let outside : (x / page_size == pool + page) ≡ false = ground (arith, frame, apart) in
          view-some (backed sp page) b f there
          ∙ ap (λ (c : Bool). some (if c then 0 else sp.bytes x)) outside
          ∙ sym (view-some sp b f at)
          ∙ e,
    )
