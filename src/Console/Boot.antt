-- ===== src/Console/Boot.antt =====
-- What the console device shows of the text printed before and after it is up.
use grinch.Prelude.{
  ℕ, ◌+◌, ◌≡◌, refl, sym, ap, ap₂, ◌∙◌, some, List, [], ◌∷◌, ◌++◌, append-nil, append_assoc, arith,
}
use grinch.Prelude.Bits.{bit_and_pred-IsPow2}
use grinch.Ringbuf.{Ringbuf, count, write}
use grinch.Ringbuf.Inv.{IsValid, zeroed-IsValid}
use grinch.Ringbuf.Refine.{
  bytes_from, contents, newest, write_all, write_all-IsValid, contents-write_all,
}
use grinch.Console.{
  Console, Sink, off, early, kstdout, ring_size, fresh_ring, ringbuf_flush, rb_puts, puts, puts_all,
  attach,
}
use grinch.Console.Flush.{ringbuf_flush-contents}

abbrev pub concat : List (List ℕ) → List ℕ
concat [] = []
concat (s ∷ ss) = s ++ concat ss

fresh_ring-IsValid : IsValid fresh_ring × (count fresh_ring ≡ 0)
unfolding fresh_ring
fresh_ring-IsValid =
    zeroed-IsValid ring_size (bit_and_pred-IsPow2 ring_size (omega arith) refl) (omega arith)
      (omega arith)

size-fresh_ring : fresh_ring.size ≡ ring_size
unfolding fresh_ring
size-fresh_ring = refl

contents-empty : (rb : Ringbuf) → count rb ≡ 0 → contents rb ≡ []
contents-empty rb e = ap (bytes_from rb.size rb.buf rb.head) e

rb_puts-write_all : (rb : Ringbuf) (str : List ℕ) → rb_puts rb str ≡ write_all rb str
unfolding rb_puts write_all
rb_puts-write_all rb [] = refl
rb_puts-write_all rb (c ∷ str) = rb_puts-write_all (write rb c) str

-- The console as the image holds it, with or without an early debug output.
abbrev pub booting : Sink → Console
booting s = record { ring = fresh_ring; sink = s; early_out = []; device_out = [] }

write_all-append :
    (rb : Ringbuf) (xs ys : List ℕ) → write_all rb (xs ++ ys) ≡ write_all (write_all rb xs) ys
unfolding write_all
write_all-append rb [] ys = refl
write_all-append rb (x ∷ xs) ys = write_all-append (write rb x) xs ys

puts_off :
    (c : Console) (str : List ℕ)
    → c.sink ≡ off
    → puts c str ≡ record c { ring = write_all c.ring str }
unfolding puts
puts_off c str e = ground (arith, rb_puts-write_all c.ring str)

puts_on :
    (c : Console) (str : List ℕ)
    → (c.sink ≡ early → (puts c str).early_out ≡ c.early_out ++ str)
      × (c.sink ≡ kstdout → (puts c str).device_out ≡ c.device_out ++ str)
      × (c.sink ≡ early → (puts c str).device_out ≡ c.device_out)
      × ((puts c str).sink ≡ c.sink)
unfolding puts
puts_on c str = ground arith

-- Text printed without an output is kept in the ring alone.
puts_all_off :
    (c : Console) (strs : List (List ℕ))
    → c.sink ≡ off
    → puts_all c strs ≡ record c { ring = write_all c.ring (concat strs) }
unfolding puts_all write_all
puts_all_off c [] e = refl
puts_all_off c (str ∷ strs) e =
    ap (λ d. puts_all d strs) (puts_off c str e)
    ∙ puts_all_off (record c { ring = write_all c.ring str }) strs e
    ∙ ap (λ r. record c { ring = r }) (sym (write_all-append c.ring str (concat strs)))

-- Early output goes out at once, and none of it to the device.
puts_all_early :
    (c : Console) (strs : List (List ℕ))
    → c.sink ≡ early
    → ((puts_all c strs).early_out ≡ c.early_out ++ concat strs)
      × ((puts_all c strs).device_out ≡ c.device_out)
      × ((puts_all c strs).sink ≡ early)
unfolding puts_all
puts_all_early c [] e = (sym (append-nil c.early_out), refl, e)
puts_all_early c (str ∷ strs) e =
    let (out, _, same, stays) = puts_on c str in
    let (all, device, sink) = puts_all_early (puts c str) strs (stays ∙ e) in
    (
      all ∙ ap (λ l. l ++ concat strs) (out e) ∙ append_assoc c.early_out str (concat strs),
      device ∙ same e,
      sink,
    )

puts_all_device :
    (c : Console) (strs : List (List ℕ))
    → c.sink ≡ kstdout
    → (puts_all c strs).device_out ≡ c.device_out ++ concat strs
unfolding puts_all
puts_all_device c [] e = sym (append-nil c.device_out)
puts_all_device c (str ∷ strs) e =
    let (_, out, _, stays) = puts_on c str in
    puts_all_device (puts c str) strs (stays ∙ e)
    ∙ ap (λ l. l ++ concat strs) (out e)
    ∙ append_assoc c.device_out str (concat strs)

attach_off :
    (c : Console) {rb : Ringbuf} {out : List ℕ}
    → c.sink ≡ off
    → ringbuf_flush (ring_size + 1) c.ring ≡ some (rb, out)
    → attach c ≡ some (record c { ring = rb; sink = kstdout; device_out = c.device_out ++ out })
unfolding attach
attach_off c e f = ground arith

attach_early : (c : Console) → c.sink ≡ early → attach c ≡ some (record c { sink = kstdout })
unfolding attach
attach_early c e = ground arith

-- Without an early debug output, the console device is given, once it is attached, the newest 4096
-- characters of all the text printed before, and then all that is printed after, in order.
pub boot_log :
    (strs late : List (List ℕ))
    → (c : Console) × (attach (puts_all (booting off) strs) ≡ some c)
      × ((puts_all c late).device_out ≡ newest ring_size (concat strs) ++ concat late)
boot_log strs late =
    let ring = write_all fresh_ring (concat strs) in
    let (valid, empty) = fresh_ring-IsValid in
    let (kept, same) = write_all-IsValid (concat strs) valid in
    let (rb, flushed, _, _) =
      ringbuf_flush-contents (ring_size + 1) ring kept
        (omega (arith, kept.held, same, size-fresh_ring)) in
    let c : Console = record {
      ring = rb;
      sink = kstdout;
      early_out = [];
      device_out = contents ring;
    } in
    (
      c,
      ap attach (puts_all_off (booting off) strs refl)
          ∙ attach_off (record (booting off) { ring = ring }) refl flushed,
      puts_all_device c late refl
          ∙ ap (λ l. l ++ concat late)
              (contents-write_all (concat strs) valid
                ∙ ap₂ (λ k l. newest k (l ++ concat strs)) size-fresh_ring
                    (contents-empty fresh_ring empty)),
    )

-- With an early debug output all text printed before goes to that alone, and what is printed after
-- the console device is attached goes to the device, in order.
pub boot_log_early :
    (strs late : List (List ℕ))
    → (c : Console) × (attach (puts_all (booting early) strs) ≡ some c)
      × (c.early_out ≡ concat strs)
      × ((puts_all c late).device_out ≡ concat late)
boot_log_early strs late =
    let (out, device, sink) = puts_all_early (booting early) strs refl in
    let c = record (puts_all (booting early) strs) { sink = kstdout } in
    (
      c,
      attach_early (puts_all (booting early) strs) sink,
      out,
      puts_all_device c late refl ∙ ap (λ l. l ++ concat late) device,
    )
