-- ===== src/Strings/Laws.antt =====
-- What the routines on strings find.
use grinch.Prelude.{
  ℕ, zero, suc, ◌+◌, ◌%◌, ◌<◌, ◌≡◌, refl, sym, ap, ◌∙◌, ◌≢◌, ◌↔◌, ◌⊎◌, none, some, arith,
  ℕ_discrete,
}
use grinch.Bytes.{Memory}
use grinch.Strings.{
  difference, strlen_from, strlen, strchrnul_from, strchr_from, strchrnul, strchr, strcmp,
}

-- A string of `len` characters stands at `s`.
pub record IsString (mem : Memory) (s len : ℕ) : Type 0 where
  pub text : (j : ℕ) → j < len → mem (s + j) ≢ 0
  pub end : mem (s + len) ≡ 0

-- Bytes are less than 256.
abbrev pub AreBytes : Memory → Type 0
AreBytes mem = (a : ℕ) → mem a < 256

IsString-tail : (mem : Memory) (s len : ℕ) → IsString mem s (suc len) → IsString mem (s + 1) len
IsString-tail mem s len v = record {
  text = λ j p e.
      v.text (suc j) (omega arith) (ap mem {x = s + suc j} {y = s + 1 + j} (omega arith) ∙ e);
  end = ap mem {x = s + 1 + len} {y = s + suc len} (omega arith) ∙ v.end;
}

first_char : (mem : Memory) (s len : ℕ) → IsString mem s (suc len) → mem s ≢ 0
first_char mem s len v e = v.text 0 (omega arith) (ap mem {x = s + 0} {y = s} (omega arith) ∙ e)

first_nul : (mem : Memory) (s : ℕ) → IsString mem s 0 → mem s ≡ 0
first_nul mem s v = ap mem {x = s} {y = s + 0} (omega arith) ∙ v.end

strlen_from-IsString :
    (mem : Memory) (fuel s len : ℕ)
    → IsString mem s len
    → len < fuel
    → strlen_from fuel mem s ≡ some len
unfolding strlen_from
strlen_from-IsString mem zero s len v h = absurd (omega arith)
strlen_from-IsString mem (suc fuel) s zero v h = let e = first_nul mem s v in ground (arith, e)
strlen_from-IsString mem (suc fuel) s (suc len) v h =
    let e = first_char mem s len v in
    let rest =
      strlen_from-IsString mem fuel (s + 1) len (IsString-tail mem s len v) (omega arith) in
    ground (arith, e, rest)

-- `strlen` counts the characters of a string, with more fuel than it has.
pub strlen-IsString :
    (mem : Memory) (fuel s len : ℕ)
    → 0 < s
    → IsString mem s len
    → len < fuel
    → strlen fuel mem s ≡ some len
unfolding strlen
strlen-IsString mem fuel s len p v h =
    let e = strlen_from-IsString mem fuel s len v h in ground (arith, e)

difference_ne : (a b : ℕ) → a < 256 → b < 256 → a ≢ b → difference a b ≢ 0
difference_ne a b p q ne e = omega (arith, ne)

-- The two strings have the same length and the same characters.
abbrev pub AreEqual : Memory → ℕ → ℕ → ℕ → ℕ → Type 0
AreEqual mem s1 s2 m n = (m ≡ n) × ((j : ℕ) → j < m → mem (s1 + j) ≡ mem (s2 + j))

AreEqual-cons :
    (mem : Memory) (s1 s2 m n : ℕ)
    → mem s1 ≡ mem s2
    → AreEqual mem (s1 + 1) (s2 + 1) m n
    → AreEqual mem s1 s2 (suc m) (suc n)
AreEqual-cons mem s1 s2 m n e (same, all) = (ap suc same, λ j p. at j p)
  where
    at : (j : ℕ) → j < suc m → mem (s1 + j) ≡ mem (s2 + j)
    at zero p =
        ap mem {x = s1 + 0} {y = s1} (omega arith) ∙ e ∙ ap mem {x = s2} {y = s2 + 0} (omega arith)
    at (suc j) p =
        ap mem {x = s1 + suc j} {y = s1 + 1 + j} (omega arith)
        ∙ all j (omega arith)
        ∙ ap mem {x = s2 + 1 + j} {y = s2 + suc j} (omega arith)

AreEqual-tail :
    (mem : Memory) (s1 s2 m n : ℕ)
    → AreEqual mem s1 s2 (suc m) (suc n)
    → (mem s1 ≡ mem s2) × AreEqual mem (s1 + 1) (s2 + 1) m n
AreEqual-tail mem s1 s2 m n (same, all) = (
  ap mem {x = s1} {y = s1 + 0} (omega arith)
      ∙ all 0 (omega arith)
      ∙ ap mem {x = s2 + 0} {y = s2} (omega arith),
  (
    omega (arith, same),
    λ j p.
        ap mem {x = s1 + 1 + j} {y = s1 + suc j} (omega arith)
        ∙ all (suc j) (omega arith)
        ∙ ap mem {x = s2 + suc j} {y = s2 + 1 + j} (omega arith),
  ),
)

-- The answer at two characters that differ.
strcmp_ne :
    (mem : Memory) (fuel s1 s2 : ℕ)
    → AreBytes mem
    → mem s1 ≢ mem s2
    → (strcmp (suc fuel) mem s1 s2 ≡ some (difference (mem s1) (mem s2)))
      × (difference (mem s1) (mem s2) ≢ 0)
unfolding strcmp
strcmp_ne mem fuel s1 s2 bytes ne =
    (ground (arith, ne), difference_ne (mem s1) (mem s2) (bytes s1) (bytes s2) ne)

-- `strcmp` of two strings answers, with enough fuel, and answers 0 exactly if they have the same
-- length and the same characters.
pub strcmp_lem :
    (mem : Memory) (fuel s1 s2 m n : ℕ)
    → AreBytes mem
    → IsString mem s1 m
    → IsString mem s2 n
    → m < fuel
    → (r : ℕ) × (strcmp fuel mem s1 s2 ≡ some r) × ((r ≡ 0) ↔ AreEqual mem s1 s2 m n)
unfolding strcmp
strcmp_lem mem zero s1 s2 m n bytes a b h = absurd (omega arith)
strcmp_lem mem (suc fuel) s1 s2 zero zero bytes a b h =
    let p = first_nul mem s1 a in
    let q = first_nul mem s2 b in
    (0, ground (arith, p, q), (λ e. (refl, λ j k. absurd (omega arith)), λ e. refl))
strcmp_lem mem (suc fuel) s1 s2 zero (suc n) bytes a b h =
    let p = first_nul mem s1 a in
    let q = first_char mem s2 n b in
    let (answer, ne) = strcmp_ne mem fuel s1 s2 bytes (λ e. q (sym e ∙ p)) in
    (difference (mem s1) (mem s2), answer, (λ e. absurd (ne e), λ e. absurd (omega (arith, e.0))))
strcmp_lem mem (suc fuel) s1 s2 (suc m) zero bytes a b h =
    let p = first_char mem s1 m a in
    let q = first_nul mem s2 b in
    let (answer, ne) = strcmp_ne mem fuel s1 s2 bytes (λ e. p (e ∙ q)) in
    (difference (mem s1) (mem s2), answer, (λ e. absurd (ne e), λ e. absurd (omega (arith, e.0))))
strcmp_lem mem (suc fuel) s1 s2 (suc m) (suc n) bytes a b h =
    let p = first_char mem s1 m a in
    elim (ℕ_discrete (mem s1) (mem s2)) [
      | yes e ↦
          let (r, answer, (to, back)) =
            strcmp_lem mem fuel (s1 + 1) (s2 + 1) m n bytes (IsString-tail mem s1 m a)
              (IsString-tail mem s2 n b) (omega arith) in
          (
            r,
            ground (arith, p, e, answer),
            (
              λ z. AreEqual-cons mem s1 s2 m n e (to z),
              λ z. back (AreEqual-tail mem s1 s2 m n z).1,
            ),
          )
      | no differ ↦
          let (answer, ne) = strcmp_ne mem fuel s1 s2 bytes differ in
          (
            difference (mem s1) (mem s2),
            answer,
            (λ z. absurd (ne z), λ z. absurd (differ (AreEqual-tail mem s1 s2 m n z).0)),
          )
    ]

strchr_from-strchrnul_from :
    (mem : Memory) (fuel s d : ℕ) {p : ℕ}
    → d ≢ 0
    → strchrnul_from fuel mem s d ≡ some p
    → (strchr_from fuel mem s d ≡ some (some p)) × (mem p ≡ d)
      ⊎ (strchr_from fuel mem s d ≡ some none) × (mem p ≡ 0)
unfolding strchr_from strchrnul_from
strchr_from-strchrnul_from mem zero s d ne e = absurd (ground arith)
strchr_from-strchrnul_from mem (suc fuel) s d {p} ne e = ground (
  arith,
  λ (q : strchrnul_from fuel mem (s + 1) d ≡ some p).
      strchr_from-strchrnul_from mem fuel (s + 1) d ne q,
)

-- Where `strchrnul` for a character other than NUL has an answer, it points at the character, and
-- `strchr` answers the same, or it points at the end of the string, and `strchr` answers NULL.
pub strchr-strchrnul :
    (mem : Memory) (fuel s c : ℕ) {p : ℕ}
    → c % 256 ≢ 0
    → strchrnul fuel mem s c ≡ some p
    → (strchr fuel mem s c ≡ some (some p)) × (mem p ≡ c % 256)
      ⊎ (strchr fuel mem s c ≡ some none) × (mem p ≡ 0)
unfolding strchr strchrnul
strchr-strchrnul mem fuel s c ne e = strchr_from-strchrnul_from mem fuel s (c % 256) ne e
