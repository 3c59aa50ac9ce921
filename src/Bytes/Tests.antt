-- ===== src/Bytes/Tests.antt =====
-- The routines on memory that holds its own addresses, and then only NULs.
use grinch.Prelude.{◌≡◌, refl, ltb, if◌then◌else◌}
use grinch.Prelude.Maps.{update}
use grinch.Bytes.{copy_down, Memory, memmove, memchr, strnlen}
use grinch.Bytes.Copy.{Copied, memmove-Copied}

abbrev plain : Memory
plain a = if ltb a 8 then a else 0

memmove-Copied_example : Copied plain 3 2 4 (memmove plain 3 2 4)
memmove-Copied_example = memmove-Copied plain 3 2 4

strnlen-plain : strnlen plain 2 9 ≡ 6
unfolding strnlen memchr
strnlen-plain = refl

overlap-memmove : memmove plain 3 2 4 5 ≡ 4
unfolding memmove copy_down update
overlap-memmove = refl
