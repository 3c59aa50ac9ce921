-- ===== src/Refcount.antt =====
-- include/grinch/refcount.h and lib/refcount.c: reference counts that saturate. A count is the
-- 32-bit pattern of an `int`; the atomic accesses of one function are one step.
pub mod Laws
mod Tests
use grinch.Prelude.{
  ℕ, ◌+◌, ◌-◌, ◌%◌, ◌^◌, Bool, true, false, not, ◌&&◌, ◌||◌, Option, none, some, leb, ◌==◌,
  if◌then◌else◌,
}

-- `enum refcount_saturation_type`
pub data SaturationType : Type 0 where
  add_not_zero_ovf add_ovf add_uaf sub_uaf dec_leak : SaturationType

-- `REFCOUNT_SATURATED`, INT_MIN / 2
abbrev pub saturated : ℕ
saturated = 3221225472

-- below zero as an `int`
abbrev pub is_negative : ℕ → Bool
is_negative n = leb (2 ^ 31) n

-- The count after an operation, and what it warned of.
pub record Refcount : Type 0 where
  pub refs : ℕ
  pub warning : Option SaturationType

-- `refcount_warn_saturate`
abbrev pub warn_saturate : SaturationType → Refcount
warn_saturate t = record { refs = saturated; warning = some t }

abbrev pub quiet : ℕ → Refcount
quiet n = record { refs = n; warning = none }

-- `__refcount_add`
pub add : ℕ → ℕ → Refcount
add i old =
    let new = (old + i) % 2 ^ 32 in
    if old == 0
    then warn_saturate add_uaf
    else if is_negative old || is_negative new
    then warn_saturate add_ovf
    else quiet new

-- `__refcount_add_not_zero`, and whether the count was not zero
pub add_not_zero : ℕ → ℕ → Refcount × Bool
add_not_zero i old =
    let sum = (old + i) % 2 ^ 32 in
    let new = if old == 0 then old else sum in
    if is_negative old || is_negative sum
    then (warn_saturate add_not_zero_ovf, not (old == 0))
    else (quiet new, not (old == 0))

-- `__refcount_sub_and_test`, and whether the count has become zero
pub sub_and_test : ℕ → ℕ → Refcount × Bool
sub_and_test i old =
    let new = (old + 2 ^ 32 - i) % 2 ^ 32 in
    if not (is_negative old) && not (old == 0) && old == i
    then (quiet new, true)
    else if is_negative old || old == 0 || is_negative new
    then (warn_saturate sub_uaf, false)
    else (quiet new, false)

-- `refcount_inc`
pub inc : ℕ → Refcount
unfolding add
inc old = add 1 old

-- `refcount_inc_not_zero`
pub inc_not_zero : ℕ → Refcount × Bool
unfolding add_not_zero
inc_not_zero old = add_not_zero 1 old

-- `refcount_dec_and_test`
pub dec_and_test : ℕ → Refcount × Bool
unfolding sub_and_test
dec_and_test old = sub_and_test 1 old
