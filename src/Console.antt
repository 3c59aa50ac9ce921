-- ===== src/Console.antt =====
-- kernel/console.c: the kernel's console. Text goes into a byte ring of 4096 bytes and to the
-- current output; `console_init` moves the output to the console device, and flushes the ring to it
-- where there was no early debug output before.
pub mod Flush
pub mod Boot
mod Tests
use grinch.Prelude.{ℕ, zero, suc, ◌+◌, Option, none, some, List, [], ◌∷◌, ◌++◌, replicate}
use grinch.Ringbuf.{Ringbuf, read, write, consume}
use grinch.Ringbuf.Drain.{run_at}

-- `_console_puts`: NULL, the early debug output of the architecture, or `kstdout_write`
pub data Sink : Type 0 where
  off early kstdout : Sink

pub record Console : Type 0 where
  pub ring : Ringbuf
  pub sink : Sink
  pub early_out : List ℕ  -- what the early debug output was given
  pub device_out : List ℕ  -- what the console device was given

abbrev pub ring_size : ℕ
ring_size = 4096

-- `console_ringbuf` and its buffer as the image holds them
pub fresh_ring : Ringbuf
fresh_ring = record { buf = replicate ring_size 0; head = 0; tail = 0; size = ring_size }

-- `ringbuf_flush`, the bytes given to `kstdout_write`; `none` where the fuel is short
pub ringbuf_flush : ℕ → Ringbuf → Option (Ringbuf × List ℕ)
ringbuf_flush zero rb = none
ringbuf_flush (suc fuel) rb = elim (read rb) [
  | none ↦ some (consume rb 0, [])
  | some (pos, sz) ↦ elim (ringbuf_flush fuel (consume rb sz)) [
    | none ↦ none
    | some (rb', out) ↦ some (rb', run_at rb pos sz ++ out)
  ]
]

-- the loop of `console_puts` over the characters before the NUL
pub rb_puts : Ringbuf → List ℕ → Ringbuf
rb_puts rb [] = rb
rb_puts rb (c ∷ str) = rb_puts (write rb c) str

emit : Sink → List ℕ → Console → Console
emit off str c = c
emit early str c = record c { early_out = c.early_out ++ str }
emit kstdout str c = record c { device_out = c.device_out ++ str }

-- `console_puts`
pub puts : Console → List ℕ → Console
unfolding emit
puts c str = let c' = record c { ring = rb_puts c.ring str } in emit c.sink str c'

-- a loop over the texts that the kernel prints in turn
pub puts_all : Console → List (List ℕ) → Console
puts_all c [] = c
puts_all c (str ∷ strs) = puts_all (puts c str) strs

switch : Sink → Console → Option Console
switch off c = elim (ringbuf_flush (ring_size + 1) c.ring) [
  | none ↦ none
  | some (rb, out) ↦ some (record c { ring = rb; sink = kstdout; device_out = c.device_out ++ out })
]
switch _ c = some (record c { sink = kstdout })

-- The end of `console_init`, once the console device is open.
pub attach : Console → Option Console
unfolding switch
attach c = switch c.sink c
