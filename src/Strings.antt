-- ===== src/Strings.antt =====
-- common/src/string.c: the routines on strings that end with a NUL, and the comparisons. A walk over
-- a string takes fuel, and `none` as the outer result stands for fuel that is short. A negative
-- `int` is its 32-bit pattern; `char` is unsigned, as on the supported architectures.
pub mod Laws
mod Tests
use mathlib.Core.Option
use grinch.Prelude.{ℕ, zero, suc, ◌+◌, ◌-◌, ◌%◌, ◌^◌, Option, none, some, map, ◌==◌, if◌then◌else◌}
use grinch.Bytes.{Memory, strnlen, memcpy}
use grinch.Prelude.Maps.{update}

-- the difference of two bytes as an `int`
abbrev pub difference : ℕ → ℕ → ℕ
difference a b = (a + 2 ^ 32 - b) % 2 ^ 32

-- `memcmp`
pub memcmp : Memory → ℕ → ℕ → ℕ → ℕ
memcmp mem d s zero = 0
memcmp mem d s (suc count) =
    let r = difference (mem d) (mem s) in if r == 0 then memcmp mem (d + 1) (s + 1) count else r

-- `strncmp`
pub strncmp : Memory → ℕ → ℕ → ℕ → ℕ
strncmp mem s1 s2 zero = 0
strncmp mem s1 s2 (suc n) =
    let diff = difference (mem s1) (mem s2) in
    let rest = strncmp mem (s1 + 1) (s2 + 1) n in
    if diff == 0 then (if mem s1 == 0 then 0 else rest) else diff

-- The loop of `strlen`.
pub strlen_from : ℕ → Memory → ℕ → Option ℕ
strlen_from zero mem s = none
strlen_from (suc fuel) mem s =
    let rest = strlen_from fuel mem (s + 1) in if mem s == 0 then some 0 else Option.map suc rest

-- `strlen`; the null pointer has the length 0
pub strlen : ℕ → Memory → ℕ → Option ℕ
unfolding strlen_from
strlen fuel mem s = if s == 0 then some 0 else strlen_from fuel mem s

-- The loop of `strchrnul`.
pub strchrnul_from : ℕ → Memory → ℕ → ℕ → Option ℕ
strchrnul_from zero mem s c = none
strchrnul_from (suc fuel) mem s c =
    let rest = strchrnul_from fuel mem (s + 1) c in
    if mem s == c then some s else if mem s == 0 then some s else rest

-- `strchrnul`
pub strchrnul : ℕ → Memory → ℕ → ℕ → Option ℕ
unfolding strchrnul_from
strchrnul fuel mem s c = strchrnul_from fuel mem s (c % 256)

-- The loop of `strchr`; the inner `none` is the null pointer.
pub strchr_from : ℕ → Memory → ℕ → ℕ → Option (Option ℕ)
strchr_from zero mem s c = none
strchr_from (suc fuel) mem s c =
    let rest = strchr_from fuel mem (s + 1) c in
    if mem s == c then some (some s) else if mem s == 0 then some none else rest

-- `strchr`
pub strchr : ℕ → Memory → ℕ → ℕ → Option (Option ℕ)
unfolding strchr_from
strchr fuel mem s c = strchr_from fuel mem s (c % 256)

-- `strcmp`
pub strcmp : ℕ → Memory → ℕ → ℕ → Option ℕ
strcmp zero mem s1 s2 = none
strcmp (suc fuel) mem s1 s2 =
    let rest = strcmp fuel mem (s1 + 1) (s2 + 1) in
    if mem s1 == mem s2
    then (if mem s1 == 0 then some 0 else rest)
    else some (difference (mem s1) (mem s2))

-- The loop of `strrchr`, with the last occurrence so far.
pub strrchr_from : ℕ → Memory → ℕ → ℕ → Option ℕ → Option (Option ℕ)
strrchr_from zero mem t ch l = none
strrchr_from (suc fuel) mem t ch l =
    let l' = if mem t == ch then some t else l in
    let rest = strrchr_from fuel mem (t + 1) ch l' in if mem t == 0 then some l' else rest

-- `strrchr`
pub strrchr : ℕ → Memory → ℕ → ℕ → Option (Option ℕ)
unfolding strrchr_from
strrchr fuel mem t c = strrchr_from fuel mem t (c % 256) none

-- `strcount`
pub strcount : ℕ → Memory → ℕ → ℕ → Option ℕ
strcount zero mem s c = none
strcount (suc fuel) mem s c =
    let rest = strcount fuel mem (s + 1) c in
    if mem s == 0 then some 0 else Option.map (λ n. if mem s == c then (n + 1) % 2 ^ 32 else n) rest

-- The loop of `strpbrk`; `chr` is what `strchr` answers for the characters of `ct`.
pub strpbrk : ℕ → Memory → ℕ → ℕ → Option (Option ℕ)
unfolding strchr
strpbrk zero mem cs ct = none
strpbrk (suc fuel) mem cs ct =
    let rest = strpbrk fuel mem (cs + 1) ct in
    if mem cs == 0 then some none else elim (strchr (suc fuel) mem ct (mem cs)) [
      | none ↦ none
      | some none ↦ rest
      | some (some p) ↦ some (some cs)
    ]

-- `strsep`: the memory afterwards, the token, and what `*s` becomes.
pub strsep : ℕ → Memory → Option ℕ → ℕ → Option (Memory × Option ℕ × Option ℕ)
unfolding strpbrk
strsep fuel mem none ct = some (mem, none, none)
strsep fuel mem (some sbegin) ct = elim (strpbrk fuel mem sbegin ct) [
  | none ↦ none
  | some none ↦ some (mem, some sbegin, none)
  | some (some end) ↦ some (update mem end 0, some sbegin, some (end + 1))
]

-- `STRNDUP` of a string at `s` into the block `new` that the allocator returns
pub strndup : Memory → Option ℕ → ℕ → (ℕ → Option ℕ) → Memory × Option ℕ
strndup mem none n allocator = (mem, none)
strndup mem (some s) n allocator =
    let l = strnlen mem s n in
    elim (allocator (l + 1)) [
      | none ↦ (mem, none)
      | some new ↦ (update (memcpy mem new s l) (new + l) 0, some new)
    ]
