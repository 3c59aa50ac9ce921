-- ===== src/Uaccess/Write.antt =====
-- `copy_to_user` writes the bytes where the process sees them.
use grinch.Prelude.{
  ℕ, zero, suc, ◌+◌, ◌-◌, ◌*◌, ◌/◌, ◌%◌, ◌≤◌, ◌<◌, min, ◌≡◌, sym, ap, ◌∙◌, ◌≢◌, ◌⊎◌, inl, inr,
  Option, none, some, arith, dec_lt, ℕ_discrete, Option-cases,
}
use grinch.Vma.{page_size}
use grinch.Uaccess.{
  Space, page_voffset, page_bytes_left, user_to_direct, blit, user_to_direct_fault, copy_to_from,
  copy_to_user,
}

-- The byte that the process sees at an address.
abbrev pub view : Space → ℕ → Option ℕ
view sp a = elim (sp.pages (a / page_size)) [
  | none ↦ none
  | some frame ↦ some (sp.bytes (frame * page_size + a % page_size))
]

-- No frame backs two pages.
abbrev pub IsInjective : Space → Type 0
IsInjective sp = (p q frame : ℕ) → sp.pages p ≡ some frame → sp.pages q ≡ some frame → p ≡ q

-- The bytes that are seen in one space are seen in the other.
abbrev pub Sees : Space → Space → Type 0
Sees sp sp' = (a v : ℕ) → view sp a ≡ some v → view sp' a ≡ some v

pub view-some :
    (sp : Space) (a frame : ℕ)
    → sp.pages (a / page_size) ≡ some frame
    → view sp a ≡ some (sp.bytes (frame * page_size + a % page_size))
view-some sp a frame e = ground (arith, e)

pub view-none :
    (sp : Space) (a v : ℕ) → view sp a ≡ some v → (f : ℕ) × (sp.pages (a / page_size) ≡ some f)
view-none sp a v e = elim (Option-cases (sp.pages (a / page_size))) [
  | inl none_there ↦ absurd (ground (arith, e, none_there))
  | inr (f, there) ↦ (f, there)
]

pub blit_in :
    (mem : ℕ → ℕ) (dst : ℕ) (from : ℕ → ℕ) (src n x : ℕ)
    → dst ≤ x
    → x < dst + n
    → blit mem dst from src n x ≡ from (src + (x - dst))
unfolding blit
blit_in mem dst from src n x low high = ground arith

pub blit_out :
    (mem : ℕ → ℕ) (dst : ℕ) (from : ℕ → ℕ) (src n x : ℕ)
    → (x < dst) ⊎ (dst + n ≤ x)
    → blit mem dst from src n x ≡ mem x
unfolding blit
blit_out mem dst from src n x out = ground (arith, out)

module _ (sp : Space) (d frame w : ℕ) (from : ℕ → ℕ) (s : ℕ)
    (there : sp.pages (d / page_size) ≡ some frame) (one_page : d % page_size + w ≤ page_size) where
  abbrev pub written : Space
  written = record sp { bytes = blit sp.bytes (frame * page_size + page_voffset d) from s w }

  written_inside : (a : ℕ) → d ≤ a → a < d + w → view written a ≡ some (from (s + (a - d)))
  written_inside a low high =
      let same : a / page_size ≡ d / page_size = omega arith in
      let at = frame * page_size + a % page_size in
      let dst = frame * page_size + d % page_size in
      let back : at - dst ≡ a - d = omega arith in
      view-some written a frame (ap sp.pages same ∙ there)
      ∙ ap some (blit_in sp.bytes dst from s w at (omega arith) (omega arith))
      ∙ ap (λ k. some (from (s + k))) back

  written_outside :
      (a v : ℕ)
      → IsInjective sp
      → view sp a ≡ some v
      → (a < d) ⊎ (d + w ≤ a)
      → view written a ≡ some v
  written_outside a v one e out =
      let (g, at) = view-none sp a v e in
      let dst = frame * page_size + d % page_size in
      let x = g * page_size + a % page_size in
      let far : (x < dst) ⊎ (dst + w ≤ x) = elim (ℕ_discrete (a / page_size) (d / page_size)) [
        | yes same ↦
            let frames : g ≡ frame = ground (arith, ap sp.pages same, at, there) in
            ground (arith, frames, out, same)
        | no other ↦
            let apart : g ≢ frame =
              λ k. other (one (a / page_size) (d / page_size) frame (at ∙ ap some k) there) in
            elim (dec_lt g frame) [
              | yes less ↦ inl (omega (arith, less))
              | no more ↦ inr (omega (arith, more, apart))
            ]
      ] in
      view-some written a g at
      ∙ ap some (blit_out sp.bytes dst from s w x far)
      ∙ sym (view-some sp a g at)
      ∙ e

-- From a map of pages with a property, the handler of page faults backs the page of any address in the
-- range, takes no byte away and keeps the property. The property says what the handler relies on, as
-- that it has frames left.
abbrev pub Backs : ((ℕ → Option ℕ) → Type 0) → (Space → ℕ → Option Space) → ℕ → ℕ → Type 0
Backs IsReady fault lo hi =
    (sp : Space) (a : ℕ)
    → IsReady sp.pages
    → IsInjective sp
    → lo ≤ a
    → a < hi
    → sp.pages (a / page_size) ≡ none
    → (sp' : Space) × (frame : ℕ) × (fault sp a ≡ some sp')
      × IsReady sp'.pages
      × IsInjective sp'
      × (sp'.pages (a / page_size) ≡ some frame)
      × Sees sp sp'

-- All pages of the range are mapped.
abbrev pub AreMapped : ℕ → ℕ → (ℕ → Option ℕ) → Type 0
AreMapped lo hi pages =
    (a : ℕ) → lo ≤ a → a < hi → (frame : ℕ) × (pages (a / page_size) ≡ some frame)

-- Where all pages are mapped, nothing is asked of the handler.
pub AreMapped-Backs :
    (fault : Space → ℕ → Option Space) (lo hi : ℕ) → Backs (AreMapped lo hi) fault lo hi
AreMapped-Backs fault lo hi sp a mapped one low high absent =
    let (frame, there) = mapped a low high in absurd (ground (arith, there, absent))

module _ (IsReady : (ℕ → Option ℕ) → Type 0) (fault : Space → ℕ → Option Space) (lo hi : ℕ)
    (backs : Backs IsReady fault lo hi) where
  resolve :
      (sp : Space) (d : ℕ)
      → IsReady sp.pages
      → IsInjective sp
      → lo ≤ d
      → d < hi
      → (sp' : Space) × (frame : ℕ) × (user_to_direct_fault fault sp d
          ≡ (sp', some (frame * page_size + page_voffset d)))
        × IsReady sp'.pages
        × IsInjective sp'
        × (sp'.pages (d / page_size) ≡ some frame)
        × Sees sp sp'
  unfolding user_to_direct_fault user_to_direct
  resolve sp d ready one low high = elim (Option-cases (sp.pages (d / page_size))) [
    | inr (frame, there) ↦ (sp, frame, ground (arith, there), ready, one, there, λ a v e. e)
    | inl absent ↦
        let (sp', frame, done_so, ready', one', there, sees) =
          backs sp d ready one low high absent in
        (sp', frame, ground (arith, absent, done_so, there), ready', one', there, sees)
  ]

  -- What the copy leaves behind.
  abbrev Copied : Space → Space → ℕ → (ℕ → ℕ) → ℕ → ℕ → Type 0
  Copied sp sp' d from s n =
      IsInjective sp'
      × ((a : ℕ) → d ≤ a → a < d + n → view sp' a ≡ some (from (s + (a - d))))
      × ((a v : ℕ) → view sp a ≡ some v → (a < d) ⊎ (d + n ≤ a) → view sp' a ≡ some v)

  copy_step :
      (fuel : ℕ) (sp sp' : Space) (d frame : ℕ) (from : ℕ → ℕ) (s n copied : ℕ)
      → 0 < n
      → user_to_direct_fault fault sp d ≡ (sp', some (frame * page_size + page_voffset d))
      → copy_to_from fault (suc fuel) sp d from s n copied ≡ (
          let at = frame * page_size + page_voffset d in
          let w = min (page_bytes_left at) n in
          copy_to_from fault fuel
            (record sp' { bytes = blit sp'.bytes (frame * page_size + page_voffset d) from s w })
            (d + w)
            from
            (s + w)
            (n - w)
            (copied + w))
  unfolding copy_to_from
  copy_step fuel sp sp' d frame from s n copied some_left e = ground (arith, e)

  copy_lem :
      (fuel : ℕ) (sp : Space) (d : ℕ) (from : ℕ → ℕ) (s n copied : ℕ)
      → IsReady sp.pages
      → IsInjective sp
      → lo ≤ d
      → d + n ≤ hi
      → n ≤ fuel
      → (sp' : Space) × (copy_to_from fault fuel sp d from s n copied ≡ some (sp', copied + n))
        × Copied sp sp' d from s n
  unfolding copy_to_from
  copy_lem zero sp d from s n copied ready one low high enough =
      (sp, ground (arith, enough), (one, λ a p q. absurd (omega arith), λ a v e out. e))
  copy_lem (suc fuel) sp d from s n copied ready one low high enough = elim (ℕ_discrete n 0) [
    | yes nothing ↦ (
      sp,
      ground (arith, nothing),
      (one, λ a p q. absurd (omega (arith, nothing)), λ a v e out. e),
    )
    | no some_left ↦
        let (sp1, frame, found, ready1, one1, there, sees) =
          resolve sp d ready one low (omega (arith, some_left)) in
        let w = min (page_bytes_left (frame * page_size + page_voffset d)) n in
        let one_page : d % page_size + w ≤ page_size = omega arith in
        let progress : (0 < w) × (w ≤ n) = omega (arith, some_left) in
        let sp2 = written sp1 d frame w from s there one_page in
        let (sp', done_so, (one', inside, outside)) =
          copy_lem fuel sp2 (d + w) from (s + w) (n - w) (copied + w) ready1 one1 (omega arith)
            (omega (arith, progress)) (omega (arith, progress)) in
        (
          sp',
          copy_step fuel sp sp1 d frame from s n copied (omega (arith, some_left)) found
              ∙ done_so
              ∙ ap (λ k. some (sp', k)) {x = copied + w + (n - w)} {y = copied + n}
                  (omega (arith, progress)),
          (
            one',
            λ a p q. elim (dec_lt a (d + w)) [
              | yes here ↦
                  outside a _ (written_inside sp1 d frame w from s there one_page a p here)
                    (inl here)
              | no later ↦
                  inside a (omega (arith, later)) (omega (arith, q, progress))
                  ∙ ap (λ k. some (from k)) {x = s + w + (a - (d + w))} {y = s + (a - d)}
                      (omega (arith, later, p))
            ],
            λ a v e out.
                outside a v
                  (written_outside sp1 d frame w from s there one_page a v one1 (sees a v e)
                    (ground (arith, out, progress)))
                  (ground (arith, out, progress)),
          ),
        )
  ]

-- `copy_to_user` to a range whose absent pages the handler of page faults backs, as long as a
-- property holds that it keeps, ends with fuel for each byte and copies them all: the process sees the
-- bytes in the range, and what it sees elsewhere stays. No frame backs two pages. If all pages of the
-- range are mapped (`AreMapped`), any handler will do.
pub copy_to_user_lem :
    (IsReady : (ℕ → Option ℕ) → Type 0) (fault : Space → ℕ → Option Space) (fuel : ℕ) (sp : Space)
    (d : ℕ) (from : ℕ → ℕ) (s n : ℕ)
    → Backs IsReady fault d (d + n)
    → IsReady sp.pages
    → IsInjective sp
    → n ≤ fuel
    → (sp' : Space) × (copy_to_user fault fuel sp d from s n ≡ some (sp', n))
      × IsInjective sp'
      × ((a : ℕ) → d ≤ a → a < d + n → view sp' a ≡ some (from (s + (a - d))))
      × ((a v : ℕ) → view sp a ≡ some v → (a < d) ⊎ (d + n ≤ a) → view sp' a ≡ some v)
unfolding copy_to_user
copy_to_user_lem IsReady fault fuel sp d from s n backs ready one enough =
    let (sp', e, (one', inside, outside)) =
      copy_lem IsReady fault d (d + n) backs fuel sp d from s n 0 ready one (omega arith)
        (omega arith) enough in
    (sp', e ∙ ap (λ k. some (sp', k)) {x = 0 + n} {y = n} (omega arith), one', inside, outside)
