-- ===== src/Prelude/Maps.antt =====
-- Maps from numbers (addresses, CPU numbers) as functions, and lists of such numbers as the
-- circular lists of include/grinch/list.h.
use Prim.Native.Nat.{ℕ}
use mathlib.Core.Path.{fun_ext, ◌≡◌}
use mathlib.Core.Logic.{◌≢◌, ◌⊎◌, inl, inr}
use mathlib.Core.List.{List, [], ◌∷◌}
use native.Mathlib.Omega.{arith}
use grinch.Prelude.Tests.{◌==◌, if◌then◌else◌, Bool-cases}

unfoldable pub update {ℓ} : {A : Type ℓ} → (ℕ → A) → ℕ → A → ℕ → A
update f k v j = if j == k then v else f j

pub update_self {ℓ} : {A : Type ℓ} (f : ℕ → A) (k : ℕ) (v : A) → update f k v k ≡ v
unfolding update
update_self f k v = ground arith

pub update_ne {ℓ} : {A : Type ℓ} (f : ℕ → A) (k j : ℕ) (v : A) → j ≢ k → update f k v j ≡ f j
unfolding update
update_ne f k j v h = ground arith

pub update_twice {ℓ} :
    {A : Type ℓ} (f : ℕ → A) (k : ℕ) (v w : A) → update (update f k v) k w ≡ update f k w
unfolding update
update_twice f k v w = fun_ext (λ j. ground arith)

-- `x` stands in the list.
abbrev pub In : ℕ → List ℕ → Type 0
In x [] = ⊥
In x (y ∷ ys) = (x ≡ y) ⊎ In x ys

-- `list_del`: the entry leaves the list that it is in.
unfoldable pub remove : ℕ → List ℕ → List ℕ
remove x [] = []
remove x (y ∷ ys) = if y == x then remove x ys else y ∷ remove x ys

pub In-remove : (x y : ℕ) (ys : List ℕ) → In y (remove x ys) → In y ys
unfolding remove
In-remove x y [] h = h
In-remove x y (z ∷ zs) h =
    let rest = In-remove x y zs in
    elim (Bool-cases (z == x)) [ inl e ↦ inr (rest (rw e at h)) | inr e ↦ ground (arith, rest) ]

pub In-remove_ne : (x y : ℕ) (ys : List ℕ) → y ≢ x → In y ys → In y (remove x ys)
unfolding remove
In-remove_ne x y [] ne h = h
In-remove_ne x y (z ∷ zs) ne h = ground (arith, In-remove_ne x y zs ne)

pub not-In-remove : (x : ℕ) (ys : List ℕ) → ¬ In x (remove x ys)
unfolding remove
not-In-remove x [] h = h
not-In-remove x (z ∷ zs) h = ground (arith, not-In-remove x zs)
