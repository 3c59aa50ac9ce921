-- ===== src/Pathname/Tests.antt =====
-- The path `/a//b/`.
use grinch.Prelude.{ℕ, ◌<◌, ◌≡◌, refl, ◌≢◌, some, List, [], ◌∷◌, arith, ◌==◌, if◌then◌else◌}
use grinch.Errno.{ok}
use grinch.Bytes.{Memory}
use grinch.Pathname.{pathname_sanitise_dir}
use grinch.Pathname.Form.{Stored, canonical, ends_in_slash, squeeze, trim}
use grinch.Pathname.Canonical.{pathname_sanitise_dir_lem}

abbrev path : List ℕ
path = 97 ∷ 47 ∷ 47 ∷ 98 ∷ 47 ∷ []

abbrev memory : Memory
memory x =
    if x == 100
    then 47
    else if x == 101
    then 97
    else if x == 102
    then 47
    else if x == 103
    then 47
    else if x == 104
    then 98
    else if x == 105
    then 47
    else 0

canonical_test : canonical (47 ∷ path) ≡ 47 ∷ 97 ∷ 47 ∷ 98 ∷ []
unfolding canonical squeeze trim
canonical_test = refl

path-Stored : Stored memory 100 (47 ∷ path)
path-Stored =
    let no_nul : (c : ℕ) → 0 < c → c ≢ 0 = λ c p e. omega (arith, p, e) in
    (
      refl,
      no_nul 47 (omega arith),
      (
        refl,
        no_nul 97 (omega arith),
        (
          refl,
          no_nul 47 (omega arith),
          (
            refl,
            no_nul 47 (omega arith),
            (refl, no_nul 98 (omega arith), (refl, no_nul 47 (omega arith), refl)),
          ),
        ),
      ),
    )

pathname_sanitise_dir_lem_example :
    (mem' : Memory) × (pathname_sanitise_dir 6 memory 100
      ≡ some (mem', ok (ends_in_slash (47 ∷ path))))
    × Stored mem' 100 (canonical (47 ∷ path))
pathname_sanitise_dir_lem_example =
    pathname_sanitise_dir_lem 6 memory 100 47 path (omega arith) path-Stored
