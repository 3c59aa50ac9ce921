-- ===== src/Refcount/Tests.antt =====
-- A reference count that is taken three times.
use grinch.Prelude.{◌≡◌, refl, true, false, some, [], ◌∷◌, arith}
use grinch.Refcount.{inc, add, add_uaf, saturated}
use grinch.Refcount.Laws.{inc_times, dec_times, inc_times-dec_times}

inc_times-dec_times_example : dec_times 4 (inc_times 3 1) ≡ (0, false ∷ false ∷ false ∷ true ∷ [])
inc_times-dec_times_example = inc_times-dec_times 3 (omega arith)

inc_freed : inc 0 ≡ record { refs = saturated; warning = some add_uaf }
unfolding inc add
inc_freed = refl
