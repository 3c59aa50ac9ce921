-- ===== src/Pathname/Form.antt =====
-- Paths as strings: the canonical form, and its lemmas.
use grinch.Prelude.{
  ℕ, ◌+◌, ◌≡◌, refl, ap, ◌∙◌, ◌≢◌, inl, inr, Bool, true, false, ◌&&◌, List, [], ◌∷◌, arith,
  ℕ_discrete, ◌==◌, if◌then◌else◌, Bool-cases,
}
use grinch.Bytes.{Memory}
use grinch.Pathname.{slash}

-- A string stands in memory, up to its NUL.
abbrev pub Stored : Memory → ℕ → List ℕ → Type 0
Stored mem p [] = mem p ≡ 0
Stored mem p (c ∷ cs) = (mem p ≡ c) × (c ≢ 0) × Stored mem (p + 1) cs

-- The string with one slash for each run of them; `after` tells that a slash stands before it.
unfoldable pub squeeze : Bool → List ℕ → List ℕ
squeeze after [] = []
squeeze after (c ∷ cs) =
    let rest = squeeze true cs in
    let rest' = squeeze false cs in
    if c == slash then (if after then rest else slash ∷ rest) else c ∷ rest'

-- The string without the slash at its end.
unfoldable pub trim : List ℕ → List ℕ
trim [] = []
trim (c ∷ []) = if c == slash then [] else c ∷ []
trim (c ∷ d ∷ ds) = c ∷ trim (d ∷ ds)

-- There is a slash at the end.
unfoldable pub ends_in_slash : List ℕ → Bool
ends_in_slash [] = false
ends_in_slash (c ∷ []) = c == slash
ends_in_slash (c ∷ d ∷ ds) = ends_in_slash (d ∷ ds)

-- The root that is left as an empty string.
abbrev pub rooted : List ℕ → List ℕ
rooted [] = slash ∷ []
rooted (c ∷ ds) = c ∷ ds

-- The canonical form: the root, or a path without empty names.
unfoldable pub canonical : List ℕ → List ℕ
unfolding squeeze trim
canonical cs = rooted (trim (squeeze false cs))

-- The string without the slashes at its front.
unfoldable pub drop_slashes : List ℕ → List ℕ
drop_slashes [] = []
drop_slashes (c ∷ cs) = let rest = drop_slashes cs in if c == slash then rest else c ∷ cs

pub squeeze-drop_slashes : (cs : List ℕ) → squeeze true cs ≡ squeeze false (drop_slashes cs)
unfolding squeeze drop_slashes
squeeze-drop_slashes [] = refl
squeeze-drop_slashes (c ∷ cs) = ground (arith, squeeze-drop_slashes cs)

pub drop_one : (c : ℕ) (cs : List ℕ) → c ≡ slash → drop_slashes (c ∷ cs) ≡ drop_slashes cs
unfolding drop_slashes
drop_one c cs e = ground (arith, e)

pub drop_none : (c : ℕ) (cs : List ℕ) → c ≢ slash → drop_slashes (c ∷ cs) ≡ c ∷ cs
unfolding drop_slashes
drop_none c cs ne = ground (arith, ne)

pub squeeze-first : (d : ℕ) (ds : List ℕ) → squeeze false (d ∷ ds) ≡ d ∷ squeeze (d == slash) ds
unfolding squeeze
squeeze-first d ds = elim (ℕ_discrete d slash) [
  | yes e ↦ ground (arith, e)
  | no e ↦ ground (arith, e)
]

pub trim-none : (c : ℕ) (cs : List ℕ) → ends_in_slash (c ∷ cs) ≡ false → trim (c ∷ cs) ≡ c ∷ cs
unfolding trim ends_in_slash
trim-none c [] h = ground (arith, h)
trim-none c (d ∷ ds) h = ap (λ l. c ∷ l) (trim-none d ds h)

pub ends_in_slash-squeeze :
    (c : ℕ) (cs : List ℕ) → ends_in_slash (c ∷ squeeze (c == slash) cs) ≡ ends_in_slash (c ∷ cs)
unfolding ends_in_slash squeeze
ends_in_slash-squeeze c [] = refl
ends_in_slash-squeeze c (d ∷ ds) =
    let rest = ends_in_slash-squeeze d ds in
    elim (Bool-cases (c == slash && d == slash)) [
      | inl both ↦
          let one : c ≡ d = ground (arith, both) in
          let skipped : squeeze (c == slash) (d ∷ ds) ≡ squeeze (d == slash) ds =
            ground (arith, both) in
          ap (λ l. ends_in_slash (c ∷ l)) skipped
          ∙ ap (λ k. ends_in_slash (k ∷ squeeze (d == slash) ds)) one
          ∙ rest
      | inr apart ↦
          let stays : squeeze (c == slash) (d ∷ ds) ≡ d ∷ squeeze (d == slash) ds =
            ground (arith, apart, squeeze-first d ds) in
          ap (λ l. ends_in_slash (c ∷ l)) stays ∙ rest
    ]
