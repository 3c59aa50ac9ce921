-- ===== src/Bytes.antt =====
-- common/src/string.c: the routines on memory whose length is given. Memory maps addresses to bytes;
-- an address that is handed in is a number, and no range wraps around the address space.
pub mod Copy
pub mod Search
mod Tests
use grinch.Prelude.{ℕ, zero, suc, ◌+◌, ◌-◌, ◌%◌, Option, none, some, ltb, ◌==◌, if◌then◌else◌}
use grinch.Prelude.Maps.{update}

abbrev pub Memory : Type 0
Memory = ℕ → ℕ

-- `memset`
pub memset : Memory → ℕ → ℕ → ℕ → Memory
memset mem s c zero = mem
memset mem s c (suc n) = memset (update mem s (c % 256)) (s + 1) c n

-- The loop of `memcpy`, and that of `memmove` to a lower address.
pub copy_up : Memory → ℕ → ℕ → ℕ → Memory
copy_up mem a b zero = mem
copy_up mem a b (suc count) = copy_up (update mem a (mem b)) (a + 1) (b + 1) count

-- The loop of `memmove` to a higher address, from the last byte on.
pub copy_down : Memory → ℕ → ℕ → ℕ → Memory
copy_down mem dst src zero = mem
copy_down mem dst src (suc count) =
    copy_down (update mem (dst + count) (mem (src + count))) dst src count

-- `memmove`
pub memmove : Memory → ℕ → ℕ → ℕ → Memory
unfolding copy_up copy_down
memmove mem dst src count =
    if src == dst
    then mem
    else if ltb dst src
    then copy_up mem dst src count
    else copy_down mem dst src count

-- `memcpy`
pub memcpy : Memory → ℕ → ℕ → ℕ → Memory
unfolding copy_up
memcpy mem dest src n = copy_up mem dest src n

-- `memchr`; `none` is the null pointer
pub memchr : Memory → ℕ → ℕ → ℕ → Option ℕ
memchr mem s c zero = none
memchr mem s c (suc n) = if mem s == c then some s else memchr mem (s + 1) c n

-- `strnlen`
pub strnlen : Memory → ℕ → ℕ → ℕ
unfolding memchr
strnlen mem s n = elim (memchr mem s 0 n) [ none ↦ n | some p ↦ p - s ]

-- `strncpy`: past the end of the source, `src` stays at its NUL.
pub strncpy : Memory → ℕ → ℕ → ℕ → Memory
strncpy mem dest src zero = mem
strncpy mem dest src (suc count) =
    let mem' = update mem dest (mem src) in
    let next = if mem src == 0 then src else src + 1 in strncpy mem' (dest + 1) next count
