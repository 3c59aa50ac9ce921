-- ===== src/Console/Tests.antt =====
-- The console on a few lines of text.
use grinch.Prelude.{ℕ, ◌≡◌, refl, some, List, [], ◌∷◌, ◌++◌, arith}
use grinch.Prelude.Bits.{bit_and_pred-IsPow2}
use grinch.Ringbuf.{Ringbuf, count}
use grinch.Ringbuf.Inv.{IsValid}
use grinch.Ringbuf.Refine.{newest}
use grinch.Console.{Console, off, ring_size, puts_all, attach}
use grinch.Console.Boot.{booting, concat, boot_log}

abbrev lines : List (List ℕ)
lines = (104 ∷ 105 ∷ []) ∷ (10 ∷ []) ∷ []

boot_log_example :
    (c : Console) × (attach (puts_all (booting off) lines) ≡ some c)
    × ((puts_all c lines).device_out ≡ newest ring_size (concat lines) ++ concat lines)
boot_log_example = boot_log lines lines

-- A ring of four bytes that holds two, which lie at both ends of the storage.
abbrev two : Ringbuf
two = record { buf = 11 ∷ 0 ∷ 0 ∷ 10 ∷ []; head = 3; tail = 5; size = 4 }

two-count : count two ≡ 2
unfolding count
two-count = refl

two-IsValid : IsValid two
two-IsValid = record {
  pow2 = bit_and_pred-IsPow2 4 (omega arith) refl;
  positive = omega arith;
  small = omega arith;
  storage = refl;
  head_in = omega arith;
  tail_in = omega arith;
  held = omega (arith, two-count);
}
