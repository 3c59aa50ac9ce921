-- ===== src/Pathname.antt =====
-- `pathname_sanitise_dir` of fs/util.c: the canonical form of a path, made in place. A round of a
-- loop takes fuel, and `none` stands for fuel that is short.
pub mod Form
pub mod Loop
pub mod Canonical
mod Tests
use grinch.Prelude.{ℕ, zero, suc, ◌+◌, ◌-◌, Bool, Option, none, some, ◌==◌, if◌then◌else◌}
use grinch.Prelude.Maps.{update}
use grinch.Errno.{Result, ok, err, einval}
use grinch.Bytes.{Memory}

-- '/'
abbrev pub slash : ℕ
slash = 47

-- The inner loop, over slashes.
unfoldable pub skip_slashes : ℕ → Memory → ℕ → Option ℕ
skip_slashes zero mem pos = none
skip_slashes (suc fuel) mem pos =
    let rest = skip_slashes fuel mem (pos + 1) in if mem pos == slash then rest else some pos

-- The outer loop: the memory, `dst` and `must_dir` at its end.
unfoldable pub sanitise_from : ℕ → Memory → ℕ → ℕ → Option (Memory × ℕ × Bool)
unfolding skip_slashes
sanitise_from zero mem dst pos = none
sanitise_from (suc fuel) mem dst pos =
    let mem' = update mem dst (mem pos) in
    let must_dir = mem' pos == slash in
    elim (if must_dir then skip_slashes (suc fuel) mem' (pos + 1) else some (pos + 1)) [
      | none ↦ none
      | some pos' ↦
          let rest = sanitise_from fuel mem' (dst + 1) pos' in
          if mem' pos' == 0 then some (update mem' (dst + 1) 0, dst + 1, must_dir) else rest
    ]

-- The end of the function: a slash at the end goes, but the root keeps it.
unfoldable pub finish : Memory → ℕ → ℕ → Bool → Memory
finish mem pathname dst must_dir =
    let mem' = if must_dir then update mem (dst - 1) 0 else mem in
    if mem' pathname == 0 then update (update mem' pathname slash) (pathname + 1) 0 else mem'

-- `pathname_sanitise_dir`, which answers `must_dir`
unfoldable pub pathname_sanitise_dir : ℕ → Memory → ℕ → Option (Memory × Result Bool)
unfolding sanitise_from finish
pathname_sanitise_dir fuel mem pathname =
    if mem pathname == 0
    then some (mem, err einval)
    else elim (sanitise_from fuel mem pathname pathname) [
      | none ↦ none
      | some (mem', dst, must_dir) ↦ some (finish mem' pathname dst must_dir, ok must_dir)
    ]
