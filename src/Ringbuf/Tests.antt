-- ===== src/Ringbuf/Tests.antt =====
-- The byte ring on small inputs, its counters about to wrap.
use grinch.Prelude.{◌≡◌, refl, true, some, [], ◌∷◌, ◌++◌, arith}
use grinch.Prelude.Bits.{bit_and_pred-IsPow2}
use grinch.Errno.{err, erange}
use grinch.Ringbuf.{Ringbuf, init, count, write, read}
use grinch.Ringbuf.Inv.{IsValid, write-IsValid}
use grinch.Ringbuf.Refine.{contents, newest, write_all, contents-write_all}

-- Four bytes, of which three are held; the write counter has its last value before it wraps.
abbrev nearly : Ringbuf
nearly = record { buf = 10 ∷ 11 ∷ 12 ∷ 13 ∷ []; head = 4294967292; tail = 4294967295; size = 4 }

nearly-IsValid : IsValid nearly
unfolding count
nearly-IsValid = record {
  pow2 = bit_and_pred-IsPow2 4 (omega arith) refl;
  positive = omega arith;
  small = omega arith;
  storage = refl;
  head_in = omega arith;
  tail_in = omega arith;
  held = omega arith;
}

init_refuses : init true 3 ≡ err erange
unfolding init
init_refuses = refl

write-IsValid_example : IsValid (write nearly 14)
write-IsValid_example = write-IsValid 14 nearly-IsValid

write_wraps : (write (write nearly 14) 15).tail ≡ 1
unfolding write count
write_wraps = refl

contents-nearly : contents nearly ≡ 10 ∷ 11 ∷ 12 ∷ []
unfolding count
contents-nearly = refl

contents-write_all_example :
    contents (write_all nearly (14 ∷ 15 ∷ [])) ≡ newest 4 (contents nearly ++ (14 ∷ 15 ∷ []))
contents-write_all_example = contents-write_all (14 ∷ 15 ∷ []) nearly-IsValid

read-nearly : read nearly ≡ some (0, 3)
unfolding read count
read-nearly = refl
