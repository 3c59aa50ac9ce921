-- ===== src/Ringbuf.antt =====
-- lib/ringbuf.c and include/grinch/ringbuf.h: the byte ring of the console and of the character
-- devices. `head` and `tail` are free-running `unsigned int` counters, reduced modulo the size on
-- each access; a write to a full ring overwrites the oldest byte.
pub mod Inv
pub mod Refine
pub mod Drain
mod Tests
use Prim.Native.Nat.{bit_and}
use grinch.Prelude.{
  ℕ, ◌+◌, ◌-◌, ◌%◌, ◌^◌, min, Bool, List, Option, none, some, if◌then◌else◌, ltb, ◌==◌, set,
  replicate,
}
use grinch.Errno.{Result, ok, err, erange, enomem}

-- `struct ringbuf`
pub record Ringbuf : Type 0 where
  pub buf : List ℕ
  pub head : ℕ
  pub tail : ℕ
  pub size : ℕ

-- `unsigned int` arithmetic
abbrev pub u32 : ℕ → ℕ
u32 n = n % 2 ^ 32

-- `ringbuf_init`; `room` says whether `kzalloc`, which clears the block, has the memory.
pub init : Bool → ℕ → Result Ringbuf
init room size =
    if size == 0
    then err erange
    else if bit_and size (size - 1) == 0
    then (if room then ok fresh else err enomem)
    else err erange
  where
    fresh : Ringbuf
    fresh = record { buf = replicate size 0; head = 0; tail = 0; size = size }

-- `ringbuf_count`
unfoldable pub count : Ringbuf → ℕ
count rb = u32 (rb.tail + 2 ^ 32 - rb.head)

-- `ringbuf_write`
pub write : Ringbuf → ℕ → Ringbuf
unfolding count
write rb c =
    let rb' = record rb { buf = set rb.buf (rb.tail % rb.size) c; tail = u32 (rb.tail + 1) } in
    if ltb rb'.size (count rb') then record rb' { head = u32 (rb'.head + 1) } else rb'

-- `ringbuf_read`: the position and the length of the run of bytes that it points at
pub read : Ringbuf → Option (ℕ × ℕ)
unfolding count
read rb =
    let cnt = count rb in
    let pos = rb.head % rb.size in if cnt == 0 then none else some (pos, min cnt (rb.size - pos))

-- `ringbuf_consume`
pub consume : Ringbuf → ℕ → Ringbuf
consume rb sz = record rb { head = u32 (rb.head + sz) }
