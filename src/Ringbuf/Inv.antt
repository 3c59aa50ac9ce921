-- ===== src/Ringbuf/Inv.antt =====
-- The representation invariant of the byte ring.
use grinch.Prelude.{
  replicate, ℕ, ◌%◌, ◌^◌, ◌≤◌, ◌<◌, ◌≡◌, Bool, arith, length, length-set, length-replicate,
}
use grinch.Prelude.Bits.{IsPow2, bit_and_pred-IsPow2}
use grinch.Errno.{ok}
use grinch.Ringbuf.{Ringbuf, init, count, write, consume}

-- The size is a power of two that leaves the counters room, and at most `size` bytes are held.
pub record IsValid (rb : Ringbuf) : Type 0 where
  pub pow2 : IsPow2 rb.size
  pub positive : 0 < rb.size
  pub small : rb.size < 2 ^ 32
  pub storage : length rb.buf ≡ rb.size
  pub head_in : rb.head < 2 ^ 32
  pub tail_in : rb.tail < 2 ^ 32
  pub held : count rb ≤ rb.size

-- A zeroed ring whose size is a power of two is valid and empty.
pub zeroed-IsValid :
    (size : ℕ)
    → IsPow2 size
    → 0 < size
    → size < 2 ^ 32
    → let rb : Ringbuf = record { buf = replicate size 0; head = 0; tail = 0; size = size } in
      IsValid rb × (count rb ≡ 0)
unfolding count
zeroed-IsValid size pow2 p h = ground (arith, length-replicate {A = ℕ} size 0)

-- What `ringbuf_init` accepts is a valid, empty ring of the size asked for.
pub init-IsValid :
    (room : Bool) (size : ℕ) {rb : Ringbuf}
    → size < 2 ^ 32
    → init room size ≡ ok rb
    → IsValid rb × (count rb ≡ 0) × (rb.size ≡ size)
unfolding init count
init-IsValid room size small e =
    let pow2 = bit_and_pred-IsPow2 size in ground (arith, pow2, length-replicate {A = ℕ} size 0)

-- `ringbuf_write` keeps the invariant, also where a counter wraps.
pub write-IsValid : {rb : Ringbuf} (c : ℕ) → IsValid rb → IsValid (write rb c)
unfolding write count
write-IsValid {rb} c v = ground (arith, length-set rb.buf (rb.tail % rb.size) c)

pub consume-IsValid : {rb : Ringbuf} (sz : ℕ) → IsValid rb → sz ≤ count rb → IsValid (consume rb sz)
unfolding consume count
consume-IsValid {rb} sz v h = ground arith
