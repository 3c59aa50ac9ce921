-- ===== src/Errno.antt =====
-- The error numbers of common/include/grinch/errno.h that the modelled functions return, and the
-- result of a C function that returns either a value or a negated error number.

use Prim.Native.Nat.{ℕ, ◌-◌, ◌^◌}

pub data Errno : Type 0 where
  eperm enoent eio e2big ebadf echild eagain enomem efault ebusy eexist enodev : Errno
  enotdir eisdir einval efbig erofs erange enosys enametoolong emsgsize : Errno

-- the numbers of the header
pub number : Errno → ℕ
number eperm = 1
number enoent = 2
number eio = 5
number e2big = 7
number ebadf = 9
number echild = 10
number eagain = 11
number enomem = 12
number efault = 14
number ebusy = 16
number eexist = 17
number enodev = 19
number enotdir = 20
number eisdir = 21
number einval = 22
number efbig = 27
number erofs = 30
number erange = 34
number enosys = 38
number enametoolong = 78
number emsgsize = 97

-- A negated error number as the bit pattern of an `int`.
unfoldable pub negated : Errno → ℕ
unfolding number
negated e = 2 ^ 32 - number e

pub data Result {ℓ} (A : Type ℓ) : Type ℓ where
  ok : A → Result A
  err : Errno → Result A

infixl 5 ◌>>=◌
abbrev pub ◌>>=◌ {ℓ κ} : {A : Type ℓ} {B : Type κ} → Result A → (A → Result B) → Result B
ok a >>= f = f a
err e >>= f = err e
