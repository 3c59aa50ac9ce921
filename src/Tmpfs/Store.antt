-- ===== src/Tmpfs/Store.antt =====
-- What `tmpfs_write` stores, `tmpfs_read` reads.
use grinch.Prelude.{
  ℕ, ◌+◌, ◌-◌, ◌%◌, ◌^◌, ◌≤◌, ◌<◌, min, max, ◌≡◌, refl, sym, ap, ◌∙◌, ◌⊎◌, false, Option, some,
  arith, dec_lt,
}
use grinch.Errno.{ok}
use grinch.Vma.{Mm, done}
use grinch.Uaccess.{Space, copy_to_user, copy_from_user}
use grinch.Uaccess.Write.{view, IsInjective, Backs, blit_in, copy_to_user_lem}
use grinch.Uaccess.Read.{Mapped, read_lem}
use grinch.Tmpfs.{
  Entry, Handle, s_ifreg, is_dir, bytes_of, grown, read_raw, write_raw, tmpfs_read, tmpfs_write,
}
use grinch.Tmpfs.Write.{IsOpen}

-- What a successful write of `count` bytes at a position leaves in the file.
pub record IsWritten (file file' : Entry) (sp : Space) (position buf count : ℕ) : Type 0 where
  pub same_mode : file'.mode ≡ file.mode
  pub size : file'.size ≡ max file.size (position + count)
  pub content : (raw : ℕ → ℕ) × (file'.raw ≡ some raw)
  pub stored : (i : ℕ) → i < count → view sp (buf + i) ≡ some (bytes_of file'.raw (position + i))
  pub kept :
      (x : ℕ)
      → x < file.size
      → (x < position) ⊎ (position + count ≤ x)
      → bytes_of file'.raw x ≡ bytes_of file.raw x

module _ (h : Handle) (file : Entry) (sp : Space) (mm : Mm) (buf count : ℕ)
    (mapped : Mapped sp buf count) where
  stores :
      (fuel : ℕ) (to' : ℕ → ℕ)
      → copy_from_user fuel sp mm (bytes_of file.raw) h.position buf count ≡ done (to', count)
      → write_raw fuel h file sp mm buf count
        ≡ done
            (record h { position = h.position + count }, record file { raw = some to' }, ok count)
  unfolding write_raw
  stores fuel to' e = ground (arith, e)

  -- The bytes of the process are in the file, and the others as before.
  write_raw_lem :
      (fuel : ℕ)
      → count ≤ fuel
      → (to' : ℕ → ℕ) × (write_raw fuel h file sp mm buf count
          ≡ done (
            record h { position = h.position + count },
            record file { raw = some to' },
            ok count,
          ))
        × ((i : ℕ) → i < count → view sp (buf + i) ≡ some (to' (h.position + i)))
        × ((x : ℕ) → (x < h.position) ⊎ (h.position + count ≤ x) → to' x ≡ bytes_of file.raw x)
  unfolding copy_from_user
  write_raw_lem fuel enough =
      let (to', e, there, others) =
        read_lem fuel sp mm (bytes_of file.raw) h.position buf count 0 mapped enough in
      (
        to',
        stores fuel to' (e ∙ ap (λ k. done (to', k)) {x = 0 + count} {y = count} (omega arith)),
        there,
        others,
      )

module _ (kmalloc : ℕ → Option (ℕ → ℕ)) (fuel : ℕ) (h : Handle) (file : Entry) (sp : Space)
    (mm : Mm) (buf count : ℕ) (some_bytes : 0 < count) (enough : count ≤ fuel)
    (inside : IsOpen h file) (small : h.position + count < 2 ^ 32) (user : h.is_kernel ≡ false)
    (regular : file.mode ≡ s_ifreg) where
  in_place :
      h.position + count ≤ file.size
      → tmpfs_write kmalloc fuel h file sp mm buf count ≡ write_raw fuel h file sp mm buf count
  unfolding tmpfs_write
  in_place room =
      let not_dir = ap is_dir regular in ground (arith, not_dir, user, some_bytes, small, room)

  with_growth :
      (block : ℕ → ℕ)
      → kmalloc (h.position + count) ≡ some block
      → file.size < h.position + count
      → tmpfs_write kmalloc fuel h file sp mm buf count
        ≡ write_raw fuel h (grown block file h.position count) sp mm buf count
  unfolding tmpfs_write
  with_growth block e beyond =
      let not_dir = ap is_dir regular in
      let word : (h.position + count) % 2 ^ 64 ≡ h.position + count = omega (arith, small) in
      let e' = ap kmalloc word ∙ e in ground (arith, not_dir, user, some_bytes, small, beyond, e')

  abbrev Stores : Type 0
  Stores =
      (file' : Entry) × (tmpfs_write kmalloc fuel h file sp mm buf count
        ≡ done (record h { position = h.position + count }, file', ok count))
      × IsWritten file file' sp h.position buf count

  tmpfs_write-in_place : Mapped sp buf count → h.position + count ≤ file.size → Stores
  tmpfs_write-in_place mapped room =
      let (to', e, there, others) = write_raw_lem h file sp mm buf count mapped fuel enough in
      (
        record file { raw = some to' },
        in_place room ∙ e,
        record {
          same_mode = refl;
          size = omega (arith, room);
          content = (to', refl);
          stored = there;
          kept = λ x p out. others x out;
        },
      )

  tmpfs_write-with_growth :
      (block : ℕ → ℕ)
      → Mapped sp buf count
      → kmalloc (h.position + count) ≡ some block
      → file.size < h.position + count
      → Stores
  tmpfs_write-with_growth block mapped e beyond =
      let file1 = grown block file h.position count in
      let (to', e', there, others) = write_raw_lem h file1 sp mm buf count mapped fuel enough in
      (
        record file1 { raw = some to' },
        with_growth block e beyond ∙ e',
        record {
          same_mode = refl;
          size = omega (arith, beyond, small);
          content = (to', refl);
          stored = there;
          kept = λ x p out.
              let early : x < h.position = omega (arith, p, out, beyond) in
              others x out
              ∙ blit_in block 0 (bytes_of file.raw) 0 h.position x (omega arith)
                  (omega (arith, early))
              ∙ ap (bytes_of file.raw) {x = 0 + (x - 0)} {y = x} (omega arith);
        },
      )

  -- `tmpfs_write` of mapped bytes at a position within the file ends, given memory for the longer
  -- file, and answers the count. The file then holds the bytes at the position, has its other bytes
  -- as before, and is as long as it was or as the bytes need it; the position is behind them.
  pub tmpfs_write_lem :
      (block : ℕ → ℕ)
      → Mapped sp buf count
      → kmalloc (h.position + count) ≡ some block
      → (file' : Entry) × (tmpfs_write kmalloc fuel h file sp mm buf count
          ≡ done (record h { position = h.position + count }, file', ok count))
        × IsWritten file file' sp h.position buf count
  tmpfs_write_lem block mapped e = elim (dec_lt file.size (h.position + count)) [
    | yes beyond ↦ tmpfs_write-with_growth block mapped e beyond
    | no room ↦ tmpfs_write-in_place mapped (omega (arith, room))
  ]

reads :
    (fault : Space → ℕ → Option Space) (fuel : ℕ) (h : Handle) (file : Entry) (raw : ℕ → ℕ)
    (sp sp' : Space) (ubuf count n : ℕ)
    → IsOpen h file
    → count < 2 ^ 63
    → h.is_kernel ≡ false
    → file.mode ≡ s_ifreg
    → file.raw ≡ some raw
    → min count (file.size - h.position) ≡ n
    → copy_to_user fault fuel sp ubuf raw h.position n ≡ some (sp', n)
    → tmpfs_read fault fuel h file sp ubuf count
      ≡ done (record h { position = h.position + n }, sp', ok n)
unfolding tmpfs_read read_raw
reads fault fuel h file raw sp sp' ubuf count n inside small user regular content e e' =
    let not_dir = ap is_dir regular in
    let copied = ap (copy_to_user fault fuel sp ubuf raw h.position) e ∙ e' in
    ground (arith, not_dir, user, small, inside, content, copied)

-- `tmpfs_read` at a position within a file with content never meets `BUG()`. It ends, hands the
-- process the bytes from the position on, as many as it asks for or as are left, answers their
-- number and moves the position behind them. The pages of the buffer are mapped or backed on demand.
pub tmpfs_read_lem :
    (IsReady : (ℕ → Option ℕ) → Type 0) (fault : Space → ℕ → Option Space) (fuel : ℕ) (h : Handle)
    (file : Entry) (raw : ℕ → ℕ) (sp : Space) (ubuf count n : ℕ)
    → IsOpen h file
    → count < 2 ^ 63
    → h.is_kernel ≡ false
    → file.mode ≡ s_ifreg
    → file.raw ≡ some raw
    → min count (file.size - h.position) ≡ n
    → Backs IsReady fault ubuf (ubuf + n)
    → IsReady sp.pages
    → IsInjective sp
    → n ≤ fuel
    → (sp' : Space) × (tmpfs_read fault fuel h file sp ubuf count
        ≡ done (record h { position = h.position + n }, sp', ok n))
      × ((i : ℕ) → i < n → view sp' (ubuf + i) ≡ some (raw (h.position + i)))
tmpfs_read_lem IsReady fault fuel h file raw sp ubuf count n inside small user regular content e
      backs ready one enough =
    let (sp', e', one', there, others) =
      copy_to_user_lem IsReady fault fuel sp ubuf raw h.position n backs ready one enough in
    (
      sp',
      reads fault fuel h file raw sp sp' ubuf count n inside small user regular content e e',
      λ i p.
          let back : ubuf + i - ubuf ≡ i = omega arith in
          there (ubuf + i) (omega arith) (omega (arith, p))
          ∙ ap (λ k. some (raw (h.position + k))) back,
    )

-- The bytes that a process writes to a file are those that it reads again at that position. The buffer
-- that is written is mapped. The handler of page faults backs the absent pages of the buffer that is
-- read into, as long as a property holds that it keeps; if all of them are mapped (`AreMapped`), any
-- handler will do. The file stays below 4 GiB and there is memory for it.
pub tmpfs_read-tmpfs_write :
    (IsReady : (ℕ → Option ℕ) → Type 0) (kmalloc : ℕ → Option (ℕ → ℕ))
    (fault : Space → ℕ → Option Space) (fuel : ℕ) (h : Handle) (file : Entry) (sp : Space) (mm : Mm)
    (buf count ubuf : ℕ) (block : ℕ → ℕ)
    → 0 < count
    → count ≤ fuel
    → IsOpen h file
    → h.position + count < 2 ^ 32
    → h.is_kernel ≡ false
    → file.mode ≡ s_ifreg
    → Mapped sp buf count
    → kmalloc (h.position + count) ≡ some block
    → Backs IsReady fault ubuf (ubuf + count)
    → IsReady sp.pages
    → IsInjective sp
    → (h' : Handle) × (file' : Entry) × (sp' : Space) × (tmpfs_write kmalloc fuel h file sp mm buf
          count
        ≡ done (h', file', ok count))
      × (tmpfs_read fault fuel h file' sp ubuf count ≡ done (h', sp', ok count))
      × ((i : ℕ) → i < count → view sp' (ubuf + i) ≡ view sp (buf + i))
tmpfs_read-tmpfs_write IsReady kmalloc fault fuel h file sp mm buf count ubuf block some_bytes
      enough inside small user regular mapped e backs ready one =
    let (file', e', written) =
      tmpfs_write_lem kmalloc fuel h file sp mm buf count some_bytes enough inside small user
        regular block mapped e in
    let (raw, content) = written.content in
    let size = written.size in
    let (sp', e'', shown) =
      tmpfs_read_lem IsReady fault fuel h file' raw sp ubuf count count (omega (arith, size))
        (omega (arith, small)) user (written.same_mode ∙ regular) content (omega (arith, size))
        backs ready one enough in
    (
      record h { position = h.position + count },
      file',
      sp',
      e',
      e'',
      λ i p.
          shown i p
          ∙ ap (λ r. some (bytes_of r (h.position + i))) (sym content)
          ∙ sym (written.stored i p),
    )
