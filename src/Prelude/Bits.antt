-- ===== src/Prelude/Bits.antt =====
-- `x & (x - 1)`, the C test for a power of two, read at variables.
use Prim.Native.Nat.{bit_and, digits, bit_and-bitwise}
use Prim.Native.Nat.{ℕ, zero, suc, ◌+◌, ◌-◌, ◌*◌, ◌/◌, ◌%◌, ◌^◌, ◌≤◌, ◌<◌, min}
use mathlib.Core.Path.{◌≡◌, refl, ap}
use mathlib.Core.Logic.{◌⊎◌, inl, inr}
use native.Mathlib.Omega.{arith}
use native.Mathlib.Nat.{pow-suc}

-- The digit loop of `bit_and`, with the rounds left apart from the first number.
abbrev conj_loop : ℕ → ℕ → ℕ → ℕ
conj_loop n a b = digits (λ d. zero) min n a b

-- The rounds beyond the first number's digits change nothing.
conj_loop_rounds : (n k a b : ℕ) → a ≤ n → a ≤ k → conj_loop k a b ≡ conj_loop n a b
conj_loop_rounds zero zero a b _ _ = refl
conj_loop_rounds zero (suc k) zero b _ _ = refl
conj_loop_rounds (suc n) zero zero b _ _ = refl
conj_loop_rounds (suc n) (suc k) zero b _ _ = refl
conj_loop_rounds zero (suc k) (suc a) b h _ = elim h [ ]
conj_loop_rounds (suc n) zero (suc a) b _ h = elim h [ ]
conj_loop_rounds (suc n) (suc k) (suc a) b h g =
    let half = conj_loop_rounds n k (suc a / 2) (b / 2) (omega arith) (omega arith) in omega arith

-- One digit of `a & b`.
bit_and_digit : (a b : ℕ) → 0 < a → bit_and a b ≡ 2 * bit_and (a / 2) (b / 2) + min (a % 2) (b % 2)
bit_and_digit zero b h = elim h [ ]
bit_and_digit (suc a) b _ =
    let rest = conj_loop_rounds (suc a / 2) a (suc a / 2) (b / 2) (omega arith) (omega arith) in
    let whole = bit_and-bitwise (suc a) b in
    let half = bit_and-bitwise (suc a / 2) (b / 2) in omega arith

pub data IsPow2 : ℕ → Type 0 where
  unit : {n : ℕ} → n ≡ 1 → IsPow2 n
  double : {m n : ℕ} → IsPow2 m → n ≡ m * 2 → IsPow2 n

bit_and_self_rounds : (k n : ℕ) → n ≤ k → bit_and n n ≡ n
bit_and_self_rounds k zero _ = refl
bit_and_self_rounds zero (suc n) h = elim h [ ]
bit_and_self_rounds (suc k) (suc n) h = omega (
  arith,
  bit_and_digit (suc n) (suc n) (omega arith),
  bit_and_self_rounds k (suc n / 2) (omega arith),
)

bit_and_pred-IsPow2_rounds : (k n : ℕ) → n ≤ k → 0 < n → bit_and n (n - 1) ≡ 0 → IsPow2 n
bit_and_pred-IsPow2_rounds zero n h p _ = absurd (omega arith)
bit_and_pred-IsPow2_rounds (suc k) n h p e = elim parity [
  | inl odd ↦ unit (
      omega (
        arith,
        bit_and_digit n (n - 1) p,
        same odd,
        bit_and_self_rounds (n / 2) (n / 2) (omega arith),
      ))
  | inr even ↦
      double
        (bit_and_pred-IsPow2_rounds k (n / 2) (omega arith) (omega arith)
          (omega (arith, bit_and_digit n (n - 1) p, pred_half even)))
        (omega arith)
]
  where
    parity : (n % 2 ≡ 1) ⊎ (n % 2 ≡ 0)
    parity = omega arith

    same : n % 2 ≡ 1 → bit_and (n / 2) ((n - 1) / 2) ≡ bit_and (n / 2) (n / 2)
    same o = ap (bit_and (n / 2)) (omega arith)

    pred_half : n % 2 ≡ 0 → bit_and (n / 2) ((n - 1) / 2) ≡ bit_and (n / 2) (n / 2 - 1)
    pred_half o = ap (bit_and (n / 2)) (omega arith)

-- A positive number that shares no binary digit with its predecessor is a power of two.
pub bit_and_pred-IsPow2 : (n : ℕ) → 0 < n → bit_and n (n - 1) ≡ 0 → IsPow2 n
bit_and_pred-IsPow2 n p e = bit_and_pred-IsPow2_rounds n n (omega arith) p e

IsPow2-pos : {n : ℕ} → IsPow2 n → 0 < n
IsPow2-pos (unit e) = omega arith
IsPow2-pos (double p e) = omega (arith, IsPow2-pos p)

-- A power of two divides every larger one.
pub IsPow2-divides : {n : ℕ} (k : ℕ) → IsPow2 n → n ≤ 2 ^ k → (q : ℕ) × (2 ^ k ≡ n * q)
IsPow2-divides k (unit e) h = (2 ^ k, rw e (omega arith))
IsPow2-divides zero (double p e) h = absurd (omega (arith, IsPow2-pos p))
IsPow2-divides (suc k) (double {m} {n} p e) h =
    let (q, d) = IsPow2-divides k p (omega (arith, pow-suc 2 k)) in
    (q, rw (e, pow-suc) (omega (arith, d)))
