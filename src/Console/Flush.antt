-- ===== src/Console/Flush.antt =====
-- What `ringbuf_flush` hands to the device.
use grinch.Prelude.{
  ℕ, zero, suc, ◌<◌, ◌≡◌, sym, ap, ◌∙◌, inl, inr, none, some, List, [], ◌++◌, arith, Option-cases,
}
use grinch.Ringbuf.{Ringbuf, count, read, consume}
use grinch.Ringbuf.Inv.{IsValid, consume-IsValid}
use grinch.Ringbuf.Refine.{contents}
use grinch.Ringbuf.Drain.{run_at, read-none, read-some, contents-consume, count-consume}
use grinch.Console.{ringbuf_flush}

flush_empty :
    (fuel : ℕ) (rb : Ringbuf)
    → read rb ≡ none
    → ringbuf_flush (suc fuel) rb ≡ some (consume rb 0, [])
unfolding ringbuf_flush
flush_empty fuel rb e = rw (e, ringbuf_flush)

flush_run :
    (fuel : ℕ) (rb : Ringbuf) {pos sz : ℕ} {rb' : Ringbuf} {out : List ℕ}
    → read rb ≡ some (pos, sz)
    → ringbuf_flush fuel (consume rb sz) ≡ some (rb', out)
    → ringbuf_flush (suc fuel) rb ≡ some (rb', run_at rb pos sz ++ out)
unfolding ringbuf_flush
flush_run fuel rb e rest = rw (e, rest, ringbuf_flush)

-- `ringbuf_flush` ends and hands over all that a valid ring holds, in order, where the fuel is
-- above the number of bytes held; it leaves the ring empty and valid.
pub ringbuf_flush-contents :
    (fuel : ℕ) (rb : Ringbuf)
    → IsValid rb
    → count rb < fuel
    → (rb' : Ringbuf) × (ringbuf_flush fuel rb ≡ some (rb', contents rb))
      × IsValid rb'
      × (contents rb' ≡ [])
ringbuf_flush-contents zero rb v h = elim h [ ]
ringbuf_flush-contents (suc fuel) rb v h = elim (Option-cases (read rb)) [
  | inl e ↦
      let empty = (read-none rb).0 e in
      let front = contents-consume 0 v (omega arith) in
      (
        consume rb 0,
        flush_empty fuel rb e ∙ ap (λ l. some (consume rb 0, l)) (sym empty),
        consume-IsValid 0 v (omega arith),
        sym front ∙ empty,
      )
  | inr ((pos, sz), e) ↦
      let (busy, within, inside, split) = read-some v e in
      let left = count-consume sz v within in
      let (rb', done, valid, empty) =
        ringbuf_flush-contents fuel (consume rb sz) (consume-IsValid sz v within) (omega arith) in
      (rb', flush_run fuel rb e done ∙ ap (λ l. some (rb', l)) (sym split), valid, empty)
]
