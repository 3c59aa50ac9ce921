-- ===== src/Tmpfs/Write.antt =====
-- `tmpfs_write` returns and keeps positions within the file.
use mathlib.Core.Path.{subst}
use grinch.Prelude.{
  ℕ, Bool-cases, inl, inr, zero, suc, ◌+◌, ◌-◌, ◌%◌, ◌^◌, ◌≤◌, ◌<◌, min, ◌≡◌, refl, Bool, true,
  false, Option, none, some, arith, ltb, leb, ◌==◌, if◌then◌else◌,
}
use grinch.Errno.{Result, ok, err, efault, enomem}
use grinch.Vma.{Mm, page_size, Outcome, done, bug, short}
use grinch.Uaccess.{
  Space, Direct, direct_at, zero_page, blit, offset_of, fetch, user_to_direct_null, copy_from_from,
  copy_from_user, user_to_direct,
}
use grinch.Tmpfs.{Entry, Handle, is_dir, bytes_of, grown, write_raw, tmpfs_write}

-- The call returns, and at most `m` bytes were copied.
abbrev Within : ℕ → Outcome ((ℕ → ℕ) × ℕ) → Type 0
Within m (done (to, sum)) = sum ≤ m
Within m bug = ⊥
Within m short = ⊥

-- The look-up of an address does not end in BUG(), as it does for an absent page of a VMA that is not
-- lazy.
abbrev pub IsResolved : Space → Mm → ℕ → Type 0
IsResolved sp mm a = (o : Option Direct) × (user_to_direct_null sp mm a ≡ done o)

offset_of-small :
    (sp : Space) (mm : Mm) (a : ℕ) (direct : Direct)
    → user_to_direct_null sp mm a ≡ done (some direct)
    → offset_of direct < page_size
unfolding user_to_direct_null user_to_direct
offset_of-small sp mm a (direct_at x) e = omega arith
offset_of-small sp mm a (zero_page offset) e = ground arith

Within-step :
    (fuel : ℕ) (sp : Space) (mm : Mm) (to : ℕ → ℕ) (dst from n sum : ℕ)
    → (n == 0) ≡ false
    → IsResolved sp mm from
    → ((to' : ℕ → ℕ) (w : ℕ)
        → 0 < w
        → w ≤ n
        → Within (sum + n) (copy_from_from fuel sp mm to' (dst + w) (from + w) (n - w) (sum + w)))
    → Within (sum + n) (copy_from_from (suc fuel) sp mm to dst from n sum)
unfolding copy_from_from
Within-step fuel sp mm to dst from n sum some_bytes (none, e) more =
    rw (some_bytes, e) (omega arith)
Within-step fuel sp mm to dst from n sum some_bytes (some direct, e) more =
    let w = min n (page_size - offset_of direct) in
    rw (some_bytes, e)
      (more (fetch sp to dst direct w) w
        (ground (arith, some_bytes, offset_of-small sp mm from direct e)) (omega arith))

copy_from_from-Within :
    (fuel : ℕ) (sp : Space) (mm : Mm) (to : ℕ → ℕ) (dst from n sum : ℕ)
    → n ≤ fuel
    → ((a : ℕ) → from ≤ a → a < from + n → IsResolved sp mm a)
    → Within (sum + n) (copy_from_from fuel sp mm to dst from n sum)
unfolding copy_from_from
copy_from_from-Within zero sp mm to dst from n sum enough ready =
    let z : (n == 0) ≡ true = ground (arith, enough) in rw z (omega arith)
copy_from_from-Within (suc fuel) sp mm to dst from n sum enough ready = elim (Bool-cases (n == 0)) [
  | inl z ↦ rw z (omega arith)
  | inr nz ↦
      Within-step fuel sp mm to dst from n sum nz (ready from (omega arith) (ground (arith, nz)))
        (λ to' w some_bytes within.
          subst
            (λ m. Within m (copy_from_from fuel sp mm to' (dst + w) (from + w) (n - w) (sum + w)))
            {x = sum + w + (n - w)} {y = sum + n} (omega (arith, within))
            (copy_from_from-Within fuel sp mm to' (dst + w) (from + w) (n - w) (sum + w)
              (omega (arith, enough, some_bytes))
              (λ a p q. ready a (omega (arith, p)) (omega (arith, q, within)))))
]

-- The position of a handle is within the file.
abbrev pub IsOpen : Handle → Entry → Type 0
IsOpen h file = h.position ≤ file.size

-- The call returns, the handle is within the file, and the file has not become shorter.
abbrev pub Keeps : Entry → Outcome (Handle × Entry × Result ℕ) → Type 0
Keeps file (done (h', file', r)) = IsOpen h' file' × (file.size ≤ file'.size)
Keeps file bug = ⊥
Keeps file short = ⊥

Keeps-if :
    (file : Entry) (b : Bool) (x y : Outcome (Handle × Entry × Result ℕ))
    → Keeps file x
    → (b ≡ false → Keeps file y)
    → Keeps file (if b then x else y)
Keeps-if file true x y p q = p
Keeps-if file false x y p q = q refl

Keeps-cases :
    (file : Entry) (b : Bool) (x y : Outcome (Handle × Entry × Result ℕ))
    → (b ≡ true → Keeps file x)
    → (b ≡ false → Keeps file y)
    → Keeps file (if b then x else y)
Keeps-cases file true x y p q = p refl
Keeps-cases file false x y p q = q refl

copy_from_user-Within :
    (fuel : ℕ) (sp : Space) (mm : Mm) (to : ℕ → ℕ) (dst from n : ℕ)
    → n ≤ fuel
    → ((a : ℕ) → from ≤ a → a < from + n → IsResolved sp mm a)
    → Within n (copy_from_user fuel sp mm to dst from n)
unfolding copy_from_user
copy_from_user-Within fuel sp mm to dst from n enough ready =
    subst (λ m. Within m (copy_from_from fuel sp mm to dst from n 0)) {x = 0 + n} {y = n}
      (omega arith) (copy_from_from-Within fuel sp mm to dst from n 0 enough ready)

write_raw-Keeps :
    (fuel : ℕ) (h : Handle) (file : Entry) (sp : Space) (mm : Mm) (buf count : ℕ)
    → count ≤ fuel
    → ((a : ℕ) → buf ≤ a → a < buf + count → IsResolved sp mm a)
    → h.position + count ≤ file.size
    → Keeps file (write_raw fuel h file sp mm buf count)
unfolding write_raw
write_raw-Keeps fuel h file sp mm buf count enough ready room =
    copied_part (copy_from_user fuel sp mm (bytes_of file.raw) h.position buf count)
      (copy_from_user-Within fuel sp mm (bytes_of file.raw) h.position buf count enough ready)
  where
    copied_part :
        (o : Outcome ((ℕ → ℕ) × ℕ))
        → Within count o
        → Keeps file (elim o [
          | bug ↦ bug
          | short ↦ short
          | done (raw', copied) ↦
              let h' = record h { position = h.position + copied } in
              if count == copied
              then done (h', record file { raw = some raw' }, ok copied)
              else done (
                h',
                record file {
                  raw = some (blit raw' (h.position + copied) (λ x. 0) 0 (count - copied));
                },
                err efault,
              )
        ])
    copied_part bug p = absurd p
    copied_part short p = absurd p
    copied_part (done (raw', copied)) p =
        Keeps-if file (count == copied) _ _ (omega (arith, room, p), omega arith)
          (λ e. (omega (arith, room, p), omega arith))

Keeps-grown :
    (file file' : Entry) (o : Outcome (Handle × Entry × Result ℕ))
    → file.size ≤ file'.size
    → Keeps file' o
    → Keeps file o
Keeps-grown file file' (done (h', file'', r)) p (q, q') = (q, omega (arith, p, q'))
Keeps-grown file file' bug p q = absurd q
Keeps-grown file file' short p q = absurd q

-- A write at a position within the file that ends below 4 GiB, from a buffer whose look-up does not
-- end in BUG(), returns, with fuel for each byte. Whatever it answers, also on an error, the position of the handle is within
-- the file afterwards, and the file has not become shorter, so all other handles stay within it.
pub tmpfs_write-Keeps :
    (kmalloc : ℕ → Option (ℕ → ℕ)) (fuel : ℕ) (h : Handle) (file : Entry) (sp : Space) (mm : Mm)
    (buf count : ℕ)
    → count ≤ fuel
    → ((a : ℕ) → buf ≤ a → a < buf + count → IsResolved sp mm a)
    → IsOpen h file
    → h.position + count < 2 ^ 32
    → Keeps file (tmpfs_write kmalloc fuel h file sp mm buf count)
unfolding tmpfs_write
tmpfs_write-Keeps kmalloc fuel h file sp mm buf count enough ready inside small =
    let same : IsOpen h file × (file.size ≤ file.size) = (inside, omega arith) in
    Keeps-if file (count == 0) _ _ same (λ e. Keeps-if file (leb (2 ^ 63) count) _ _ same (λ e.
      Keeps-if file h.is_kernel _ _ same (λ e. Keeps-if file (is_dir file.mode) _ _ same (λ e.
        Keeps-cases file (ltb file.size ((h.position + count) % 2 ^ 64)) _ _
          (λ e'. allocated e' (kmalloc ((h.position + count) % 2 ^ 64)))
          (λ e'.
            write_raw-Keeps fuel h file sp mm buf count enough ready
              (ground (arith, e', small)))))))
  where
    allocated :
        ltb file.size ((h.position + count) % 2 ^ 64) ≡ true
        → (o : Option (ℕ → ℕ))
        → Keeps file (elim o [
          | none ↦ done (h, file, err enomem)
          | some block ↦ write_raw fuel h (grown block file h.position count) sp mm buf count
        ])
    allocated e none = (inside, omega arith)
    allocated e (some block) =
        let file' = grown block file h.position count in
        Keeps-grown file file' (write_raw fuel h file' sp mm buf count) (ground (arith, e, small))
          (write_raw-Keeps fuel h file' sp mm buf count enough ready (omega (arith, small)))
