-- ===== src/Uaccess/Read.antt =====
-- `copy_from_user` reads what the process sees.
use grinch.Prelude.{
  ℕ, zero, suc, ◌+◌, ◌-◌, ◌*◌, ◌/◌, ◌%◌, ◌≤◌, ◌<◌, min, ◌≡◌, refl, sym, ap, ◌∙◌, ◌⊎◌, inl, Option,
  some, arith, dec_lt, ℕ_discrete,
}
use grinch.Vma.{page_size, Mm, done}
use grinch.Uaccess.{
  Space, direct_at, page_voffset, user_to_direct, user_to_direct_null, blit, copy_from_from,
  copy_from_user, copy_to_user,
}
use grinch.Uaccess.Write.{
  view, IsInjective, Backs, view-some, view-none, blit_in, blit_out, copy_to_user_lem,
}

direct_some :
    (sp : Space) (mm : Mm) (a frame : ℕ)
    → sp.pages (a / page_size) ≡ some frame
    → user_to_direct_null sp mm a ≡ done (some (direct_at (frame * page_size + page_voffset a)))
unfolding user_to_direct_null user_to_direct
direct_some sp mm a frame there = ground (arith, there)

read_step :
    (fuel : ℕ) (sp : Space) (mm : Mm) (to : ℕ → ℕ) (dst from n sum at : ℕ)
    → 0 < n
    → user_to_direct_null sp mm from ≡ done (some (direct_at at))
    → copy_from_from (suc fuel) sp mm to dst from n sum ≡ (
        let w = min n (page_size - page_voffset at) in
        copy_from_from fuel sp mm
          (blit to dst sp.bytes at w)
          (dst + w)
          (from + w)
          (n - w)
          (sum + w))
unfolding copy_from_from
read_step fuel sp mm to dst from n sum at some_left e = ground (arith, e)

-- The process sees a byte at each address of the range.
abbrev pub Mapped : Space → ℕ → ℕ → Type 0
Mapped sp from n = (i : ℕ) → i < n → (v : ℕ) × (view sp (from + i) ≡ some v)

pub read_lem :
    (fuel : ℕ) (sp : Space) (mm : Mm) (to : ℕ → ℕ) (dst from n sum : ℕ)
    → Mapped sp from n
    → n ≤ fuel
    → (to' : ℕ → ℕ) × (copy_from_from fuel sp mm to dst from n sum ≡ done (to', sum + n))
      × ((i : ℕ) → i < n → view sp (from + i) ≡ some (to' (dst + i)))
      × ((x : ℕ) → (x < dst) ⊎ (dst + n ≤ x) → to' x ≡ to x)
unfolding copy_from_from
read_lem zero sp mm to dst from n sum mapped enough =
    (to, ground (arith, enough), λ i p. absurd (omega arith), λ x out. refl)
read_lem (suc fuel) sp mm to dst from n sum mapped enough = elim (ℕ_discrete n 0) [
  | yes nothing ↦
      (to, ground (arith, nothing), λ i p. absurd (omega (arith, nothing)), λ x out. refl)
  | no some_left ↦
      let more : 0 < n = omega (arith, some_left) in
      let (v, seen) = mapped 0 more in
      let start : ◌≡◌ {A = ℕ} (from + 0) from = omega arith in
      let (frame, there) = view-none sp from v (ap (view sp) (sym start) ∙ seen) in
      let at = frame * page_size + page_voffset from in
      let w = min n (page_size - page_voffset at) in
      let progress : (0 < w) × (w ≤ n) × (from % page_size + w ≤ page_size) = omega (arith, more) in
      let rest : Mapped sp (from + w) (n - w) = λ i p.
        let (u, e) = mapped (w + i) (omega (arith, p, progress)) in
        let same : ◌≡◌ {A = ℕ} (from + w + i) (from + (w + i)) = omega arith in
        (u, ap (view sp) same ∙ e) in
      let (to', e, inside, outside) =
        read_lem fuel sp mm (blit to dst sp.bytes at w) (dst + w) (from + w) (n - w) (sum + w) rest
          (omega (arith, progress)) in
      (
        to',
        read_step fuel sp mm to dst from n sum at more (direct_some sp mm from frame there)
            ∙ e
            ∙ ap (λ k. done (to', k)) {x = sum + w + (n - w)} {y = sum + n}
                (omega (arith, progress)),
        λ i p. elim (dec_lt i w) [
          | yes here ↦
              let same : (from + i) / page_size ≡ from / page_size =
                omega (arith, here, progress) in
              let place : ◌≡◌ {A = ℕ} (frame * page_size + (from + i) % page_size)
                  (at + (dst + i - dst)) =
                omega (arith, here, progress) in
              view-some sp (from + i) frame (ap sp.pages same ∙ there)
              ∙ ap (λ k. some (sp.bytes k)) place
              ∙ ap some (
                  sym (
                    outside (dst + i) (inl (omega (arith, here)))
                    ∙ blit_in to dst sp.bytes at w (dst + i) (omega arith) (omega (arith, here))))
          | no later ↦
              let k = i - w in
              let from_there : ◌≡◌ {A = ℕ} (from + i) (from + w + k) = omega (arith, later) in
              let to_there : ◌≡◌ {A = ℕ} (dst + w + k) (dst + i) = omega (arith, later) in
              ap (view sp) from_there
              ∙ inside k (omega (arith, p, later))
              ∙ ap (λ z. some (to' z)) to_there
        ],
        λ x out.
            outside x (ground (arith, out, progress))
            ∙ blit_out to dst sp.bytes at w x (ground (arith, out, progress)),
      )
]

-- What `copy_to_user` writes, `copy_from_user` reads again, if the handler of page faults backs the
-- absent pages of the range as long as a property holds that it keeps, or if all of them are mapped:
-- both copy all the bytes, with fuel for each of them, and the kernel's buffer then holds them, and is
-- as before elsewhere. No frame backs two pages.
pub copy_to_user-copy_from_user :
    (IsReady : (ℕ → Option ℕ) → Type 0) (fault : Space → ℕ → Option Space) (fuel : ℕ) (sp : Space)
    (mm : Mm) (d : ℕ) (from : ℕ → ℕ) (s n : ℕ) (to : ℕ → ℕ) (dst : ℕ)
    → Backs IsReady fault d (d + n)
    → IsReady sp.pages
    → IsInjective sp
    → n ≤ fuel
    → (sp' : Space) × (to' : ℕ → ℕ) × (copy_to_user fault fuel sp d from s n ≡ some (sp', n))
      × (copy_from_user fuel sp' mm to dst d n ≡ done (to', n))
      × ((i : ℕ) → i < n → to' (dst + i) ≡ from (s + i))
      × ((x : ℕ) → (x < dst) ⊎ (dst + n ≤ x) → to' x ≡ to x)
unfolding copy_from_user
copy_to_user-copy_from_user IsReady fault fuel sp mm d from s n to dst backs ready one enough =
    let (sp', e, one', seen, _) =
      copy_to_user_lem IsReady fault fuel sp d from s n backs ready one enough in
    let shown : (i : ℕ) → i < n → view sp' (d + i) ≡ some (from (s + i)) = λ i p.
      let back : ◌≡◌ {A = ℕ} (s + (d + i - d)) (s + i) = omega arith in
      seen (d + i) (omega arith) (omega (arith, p)) ∙ ap (λ k. some (from k)) back in
    let (to', e', inside, outside) =
      read_lem fuel sp' mm to dst d n 0 (λ i p. (from (s + i), shown i p)) enough in
    (
      sp',
      to',
      e,
      e' ∙ ap (λ k. done (to', k)) {x = 0 + n} {y = n} (omega arith),
      λ i p. ground (arith, shown i p, inside i p),
      outside,
    )
