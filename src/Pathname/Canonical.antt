-- ===== src/Pathname/Canonical.antt =====
-- `pathname_sanitise_dir` makes the canonical form of a path.
use mathlib.Core.Path.{subst}
use grinch.Prelude.{
  ℕ, ◌+◌, ◌-◌, ◌<◌, ◌≡◌, sym, ap, ◌∙◌, ◌≢◌, inl, inr, Bool, true, false, some, List, [], ◌∷◌, arith,
  ◌==◌, if◌then◌else◌, Bool-cases, length,
}
use grinch.Prelude.Maps.{update, update_self, update_ne}
use grinch.Errno.{ok}
use grinch.Bytes.{Memory}
use grinch.Pathname.{slash, sanitise_from, finish, pathname_sanitise_dir}
use grinch.Pathname.Form.{
  Stored, squeeze, trim, ends_in_slash, rooted, canonical, squeeze-first, trim-none,
  ends_in_slash-squeeze,
}
use grinch.Pathname.Loop.{sanitise_from_lem}

-- The NUL over a slash at the end.
Stored-trim :
    (mem : Memory) (p c : ℕ) (cs : List ℕ)
    → Stored mem p (c ∷ cs)
    → ends_in_slash (c ∷ cs) ≡ true
    → Stored (update mem (p + length cs) 0) p (trim (c ∷ cs))
unfolding trim ends_in_slash
Stored-trim mem p c [] (e, ne, end) h =
    subst (Stored (update mem (p + 0) 0) p) {x = []} (sym (trim_slash c h))
      (ap (update mem (p + 0) 0) {x = p} {y = p + 0} (omega arith) ∙ update_self mem (p + 0) 0)
  where
    trim_slash : (c : ℕ) → (c == slash) ≡ true → trim (c ∷ []) ≡ []
    trim_slash c h = ground (arith, h)
Stored-trim mem p c (d ∷ ds) (e, ne, rest) h =
    let there : p + 1 + length ds ≡ p + length (d ∷ ds) = omega arith in
    (
      update_ne mem (p + length (d ∷ ds)) p 0 (omega arith) ∙ e,
      ne,
      subst (λ k. Stored (update mem k 0) (p + 1) (trim (d ∷ ds))) there
          (Stored-trim mem (p + 1) d ds rest h),
    )

Stored-rooted :
    (mem : Memory) (p : ℕ) (cs : List ℕ)
    → Stored mem p cs
    → Stored (if mem p == 0 then update (update mem p slash) (p + 1) 0 else mem) p (rooted cs)
Stored-rooted mem p [] e =
    subst
      (λ (b : Bool).
        Stored (if b then update (update mem p slash) (p + 1) 0 else mem) p (slash ∷ []))
      {x = true} (sym (ground (arith, e)))
      (
        update_ne (update mem p slash) (p + 1) p 0 (omega arith) ∙ update_self mem p slash,
        (λ z. absurd (omega (arith, z))),
        update_self (update mem p slash) (p + 1) 0,
      )
Stored-rooted mem p (c ∷ cs) (e, ne, rest) =
    subst
      (λ (b : Bool). Stored (if b then update (update mem p slash) (p + 1) 0 else mem) p (c ∷ cs))
      {x = false} (sym (ground (arith, e, ne))) (e, ne, rest)

Stored-finish :
    (mem : Memory) (p c : ℕ) (cs : List ℕ)
    → Stored mem p (c ∷ cs)
    → Stored
        (finish mem p (p + length (c ∷ cs)) (ends_in_slash (c ∷ cs)))
        p
        (rooted (trim (c ∷ cs)))
unfolding finish
Stored-finish mem p c cs stored = elim (Bool-cases (ends_in_slash (c ∷ cs))) [
  | inl h ↦
      let back : p + length cs ≡ p + length (c ∷ cs) - 1 = omega arith in
      let cut : Stored (update mem (p + length (c ∷ cs) - 1) 0) p (trim (c ∷ cs)) =
        subst (λ k. Stored (update mem k 0) p (trim (c ∷ cs))) back
          (Stored-trim mem p c cs stored h) in
      subst (λ b. Stored (finish mem p (p + length (c ∷ cs)) b) p (rooted (trim (c ∷ cs)))) (sym h)
        (Stored-rooted (update mem (p + length (c ∷ cs) - 1) 0) p (trim (c ∷ cs)) cut)
  | inr h ↦
      subst (λ b. Stored (finish mem p (p + length (c ∷ cs)) b) p (rooted (trim (c ∷ cs)))) (sym h)
        (Stored-rooted mem p (trim (c ∷ cs)) (subst (Stored mem p) (sym (trim-none c cs h)) stored))
]

answers :
    (fuel : ℕ) (mem mem' : Memory) (p dst : ℕ) (must_dir : Bool)
    → mem p ≢ 0
    → sanitise_from fuel mem p p ≡ some (mem', dst, must_dir)
    → pathname_sanitise_dir fuel mem p ≡ some (finish mem' p dst must_dir, ok must_dir)
unfolding pathname_sanitise_dir
answers fuel mem mem' p dst must_dir ne e = ground (arith, ne, e)

-- `pathname_sanitise_dir` of a path that is not empty ends, with fuel for each character. It leaves
-- the canonical form of the path in its place: each run of slashes is one slash, and one at the end
-- is gone unless it is the root. It answers whether the path ended in a slash.
pub pathname_sanitise_dir_lem :
    (fuel : ℕ) (mem : Memory) (pathname c : ℕ) (cs : List ℕ)
    → length cs < fuel
    → Stored mem pathname (c ∷ cs)
    → (mem' : Memory) × (pathname_sanitise_dir fuel mem pathname
        ≡ some (mem', ok (ends_in_slash (c ∷ cs))))
      × Stored mem' pathname (canonical (c ∷ cs))
unfolding canonical
pathname_sanitise_dir_lem fuel mem pathname c cs enough stored =
    let out = squeeze (c == slash) cs in
    let (mem1, steps, stored1, _) =
      sanitise_from_lem fuel mem pathname pathname c cs (omega arith) enough stored in
    let dst = pathname + length (c ∷ out) in
    let must = ends_in_slash-squeeze c cs in
    let first : mem pathname ≢ 0 = λ z. stored.1 (sym stored.0 ∙ z) in
    (
      finish mem1 pathname dst (ends_in_slash (c ∷ out)),
      answers fuel mem mem1 pathname dst (ends_in_slash (c ∷ out)) first steps
          ∙ ap (λ b. some (finish mem1 pathname dst (ends_in_slash (c ∷ out)), ok b)) must,
      subst
          (λ l.
            Stored (finish mem1 pathname dst (ends_in_slash (c ∷ out))) pathname (rooted (trim l)))
          (sym (squeeze-first c cs)) (Stored-finish mem1 pathname c out stored1),
    )
