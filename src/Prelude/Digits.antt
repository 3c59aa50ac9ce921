-- ===== src/Prelude/Digits.antt =====
-- The binary digits of a number, and what `&`, `|`, `^`, shifts and complements do to them.
use Prim.Native.Nat.{
  bit_and, bit_or, bit_xor, digits, differ, bit_and-bitwise, bit_or-bitwise, bit_xor-bitwise, ℕ,
  zero, suc, ◌+◌, ◌-◌, ◌*◌, ◌/◌, ◌%◌, ◌^◌, ◌≤◌, ◌<◌, min, max,
}
use mathlib.Core.Path.{◌≡◌, refl, sym, ap, ◌∙◌}
use mathlib.Core.Bool.{Bool, false, not, ◌&&◌, ◌||◌}
use native.Mathlib.Omega.{arith}
use native.Mathlib.Nat.{
  pow-suc, div-div-eq-div-mul, mul_assoc, mod-lt, mod-one, div-add-mod', mul-add-mod_self_right,
  mod-eq_of_lt, one-le-pow,
}
use grinch.Prelude.Tests.{◌==◌, ltb, if◌then◌else◌}

-- The digit of a number at a place.
unfoldable pub bit : ℕ → ℕ → Bool
bit w zero = w % 2 == 1
bit w (suc i) = bit (w / 2) i

-- The rounds beyond the first number's digits change nothing.
digits_rounds :
    (z : ℕ → ℕ) (f : ℕ → ℕ → ℕ) (n k a b : ℕ) → a ≤ n → a ≤ k → digits z f k a b ≡ digits z f n a b
digits_rounds z f zero zero a b _ _ = refl
digits_rounds z f zero (suc k) zero b _ _ = refl
digits_rounds z f (suc n) zero zero b _ _ = refl
digits_rounds z f (suc n) (suc k) zero b _ _ = refl
digits_rounds z f zero (suc k) (suc a) b h _ = elim h [ ]
digits_rounds z f (suc n) zero (suc a) b _ h = elim h [ ]
digits_rounds z f (suc n) (suc k) (suc a) b h g =
    ap (λ r. r * 2 + f (suc a % 2) (b % 2))
      (digits_rounds z f n k (suc a / 2) (b / 2) (omega arith) (omega arith))

bit_and_half : (a b : ℕ) → bit_and a b ≡ bit_and (a / 2) (b / 2) * 2 + min (a % 2) (b % 2)
bit_and_half zero b = omega (arith, bit_and-bitwise 0 b, bit_and-bitwise 0 (b / 2))
bit_and_half (suc a) b =
    let rest =
      digits_rounds (λ d. zero) min (suc a / 2) a (suc a / 2) (b / 2) (omega arith) (omega arith) in
    let whole = bit_and-bitwise (suc a) b in
    let half = bit_and-bitwise (suc a / 2) (b / 2) in omega arith

bit_or_half : (a b : ℕ) → bit_or a b ≡ bit_or (a / 2) (b / 2) * 2 + max (a % 2) (b % 2)
bit_or_half zero b = omega (arith, bit_or-bitwise 0 b, bit_or-bitwise 0 (b / 2))
bit_or_half (suc a) b =
    let rest =
      digits_rounds (λ d. d) max (suc a / 2) a (suc a / 2) (b / 2) (omega arith) (omega arith) in
    let whole = bit_or-bitwise (suc a) b in
    let half = bit_or-bitwise (suc a / 2) (b / 2) in omega arith

bit_xor_half : (a b : ℕ) → bit_xor a b ≡ bit_xor (a / 2) (b / 2) * 2 + differ (a % 2) (b % 2)
bit_xor_half zero b =
    let low : differ 0 (b % 2) ≡ b % 2 = refl in
    omega (arith, bit_xor-bitwise 0 b, bit_xor-bitwise 0 (b / 2), low)
bit_xor_half (suc a) b =
    let rest =
      digits_rounds (λ d. d) differ (suc a / 2) a (suc a / 2) (b / 2) (omega arith) (omega arith) in
    let whole = bit_xor-bitwise (suc a) b in
    let half = bit_xor-bitwise (suc a / 2) (b / 2) in omega arith

pub bit-bit_and : (a b i : ℕ) → bit (bit_and a b) i ≡ (bit a i && bit b i)
unfolding bit
bit-bit_and a b zero = ground (arith, bit_and_half a b)
bit-bit_and a b (suc i) =
    let half : bit_and a b / 2 ≡ bit_and (a / 2) (b / 2) = omega (arith, bit_and_half a b) in
    ap (λ w. bit w i) half ∙ bit-bit_and (a / 2) (b / 2) i

pub bit-bit_or : (a b i : ℕ) → bit (bit_or a b) i ≡ (bit a i || bit b i)
unfolding bit
bit-bit_or a b zero = ground (arith, bit_or_half a b)
bit-bit_or a b (suc i) =
    let half : bit_or a b / 2 ≡ bit_or (a / 2) (b / 2) = omega (arith, bit_or_half a b) in
    ap (λ w. bit w i) half ∙ bit-bit_or (a / 2) (b / 2) i

differ_bound : (a b : ℕ) → a ≤ 1 → b ≤ 1 → differ a b ≤ 1
differ_bound zero b p q = q
differ_bound (suc a) zero p q = p
differ_bound (suc a) (suc b) p q = differ_bound a b (omega arith) (omega arith)

differ_bits :
    (a b : ℕ) → a ≤ 1 → b ≤ 1 → (differ a b == 1) ≡ (if b == 1 then not (a == 1) else (a == 1))
differ_bits zero b p q = ground arith
differ_bits (suc a) zero p q = ground arith
differ_bits (suc zero) (suc zero) p q = refl
differ_bits (suc (suc a)) (suc b) p q = absurd (omega arith)
differ_bits (suc zero) (suc (suc b)) p q = absurd (omega arith)

pub bit-bit_xor : (a b i : ℕ) → bit (bit_xor a b) i ≡ (if bit b i then not (bit a i) else bit a i)
unfolding bit
bit-bit_xor a b zero =
    let small = differ_bound (a % 2) (b % 2) (omega arith) (omega arith) in
    let low : bit_xor a b % 2 ≡ differ (a % 2) (b % 2) = omega (arith, bit_xor_half a b, small) in
    ap (λ w. w == 1) low ∙ differ_bits (a % 2) (b % 2) (omega arith) (omega arith)
bit-bit_xor a b (suc i) =
    let small = differ_bound (a % 2) (b % 2) (omega arith) (omega arith) in
    let half : bit_xor a b / 2 ≡ bit_xor (a / 2) (b / 2) = omega (arith, bit_xor_half a b, small) in
    ap (λ w. bit w i) half ∙ bit-bit_xor (a / 2) (b / 2) i

pub bit-zero : (i : ℕ) → bit 0 i ≡ false
unfolding bit
bit-zero zero = refl
bit-zero (suc i) = bit-zero i

double : (q k : ℕ) → q * 2 ^ suc k ≡ q * 2 ^ k * 2
double q k = ap (λ p. q * p) (pow-suc 2 k) ∙ sym (mul_assoc q (2 ^ k) 2)

-- `x >> k`
pub bit-shift : (x k i : ℕ) → bit (x / 2 ^ k) i ≡ bit x (k + i)
unfolding bit
bit-shift x zero i =
    ap (λ w. bit w i) {x = x / 2 ^ 0} {y = x} (omega arith)
    ∙ ap (bit x) {x = i} {y = 0 + i} (omega arith)
bit-shift x (suc k) i =
    ap (λ w. bit w i)
      (ap (λ p. x / p) {x = 2 ^ suc k} {y = 2 * 2 ^ k} (omega (arith, pow-suc 2 k))
        ∙ sym (div-div-eq-div-mul x 2 (2 ^ k)))
    ∙ bit-shift (x / 2) k i
    ∙ ap (bit x) {x = suc (k + i)} {y = suc k + i} (omega arith)

-- `~m` of a word of `n` bits
pub bit-complement : (n m i : ℕ) → m < 2 ^ n → i < n → bit (2 ^ n - 1 - m) i ≡ not (bit m i)
unfolding bit
bit-complement zero m i h p = absurd (omega arith)
bit-complement (suc n) m zero h p = let half = pow-suc 2 n in ground (arith, half)
bit-complement (suc n) m (suc i) h p =
    let half = pow-suc 2 n in
    let same : (2 ^ suc n - 1 - m) / 2 ≡ 2 ^ n - 1 - m / 2 = omega (arith, half) in
    ap (λ w. bit w i) same ∙ bit-complement n (m / 2) i (omega (arith, half)) (omega arith)

-- `q << k`
pub bit-shifted : (k q i : ℕ) → bit (q * 2 ^ k) i ≡ (if ltb i k then false else bit q (i - k))
unfolding bit
bit-shifted zero q i =
    let one : q * 2 ^ 0 ≡ q = omega arith in
    let same : i - 0 ≡ i = omega arith in
    ap (λ w. bit w i) one ∙ sym (ap (bit q) same) ∙ ground arith
bit-shifted (suc k) q zero = let twice = double q k in ground (arith, twice)
bit-shifted (suc k) q (suc i) =
    let half : q * 2 ^ suc k / 2 ≡ q * 2 ^ k = omega (arith, double q k) in
    let same : suc i - suc k ≡ i - k = omega arith in
    ap (λ w. bit w i) half ∙ bit-shifted k q i ∙ ground (arith, same)

mod_double : (w p : ℕ) → 0 < p → w % (p * 2) ≡ w / 2 % p * 2 + w % 2
mod_double w p pos =
    let q = w / 2 / p in
    let low = w / 2 % p * 2 + w % 2 in
    let small = mod-lt (w / 2) pos in
    let whole : w ≡ q * (p * 2) + low = omega (arith, div-add-mod' (w / 2) p, mul_assoc q p 2) in
    ap (λ k. k % (p * 2)) whole
    ∙ mul-add-mod_self_right q (p * 2) low
    ∙ mod-eq_of_lt {n = low} {m = p * 2} (omega (arith, small))

none-bit_and : (b : ℕ) → bit_and 0 b ≡ 0
none-bit_and b = bit_and-bitwise 0 b

bit_and-none : (k w : ℕ) → w ≤ k → bit_and w 0 ≡ 0
bit_and-none k zero h = refl
bit_and-none zero (suc w) h = absurd (omega arith)
bit_and-none (suc k) (suc w) h =
    omega (arith, bit_and_half (suc w) 0, bit_and-none k (suc w / 2) (omega arith))

-- `w & (2 ^ k - 1)`
pub bit_and-low : (k w : ℕ) → bit_and w (2 ^ k - 1) ≡ w % 2 ^ k
bit_and-low zero w = bit_and-none w w (omega arith) ∙ sym (mod-one w)
bit_and-low (suc k) w =
    let pos = one-le-pow k 2 (omega arith) in
    let twice = pow-suc 2 k in
    let half : (2 ^ suc k - 1) / 2 ≡ 2 ^ k - 1 = omega (arith, twice, pos) in
    let odd : (2 ^ suc k - 1) % 2 ≡ 1 = omega (arith, twice, pos) in
    let rest = ap (bit_and (w / 2)) half ∙ bit_and-low k (w / 2) in
    let whole = ap (λ p. w % p) twice ∙ mod_double w (2 ^ k) pos in
    omega (arith, bit_and_half w (2 ^ suc k - 1), odd, rest, whole)

-- The digits of `x` under a mask and those under its complement.
pub bit_and-complement :
    (n x m : ℕ) → x < 2 ^ n → m < 2 ^ n → bit_and x m + bit_and x (2 ^ n - 1 - m) ≡ x
bit_and-complement zero x m p q =
    let empty : x ≡ 0 = omega arith in
    let first = ap (λ k. bit_and k m) empty in
    let second = ap (λ k. bit_and k (2 ^ 0 - 1 - m)) empty in
    omega (arith, first, second, none-bit_and m, none-bit_and (2 ^ 0 - 1 - m), empty)
bit_and-complement (suc n) x m p q =
    let twice = pow-suc 2 n in
    let half : (2 ^ suc n - 1 - m) / 2 ≡ 2 ^ n - 1 - m / 2 = omega (arith, twice, q) in
    let odd : (2 ^ suc n - 1 - m) % 2 ≡ 1 - m % 2 = omega (arith, twice, q) in
    let rest =
      bit_and-complement n (x / 2) (m / 2) (omega (arith, twice, p)) (omega (arith, twice, q)) in
    let second = ap (bit_and (x / 2)) half in
    omega (arith, bit_and_half x m, bit_and_half x (2 ^ suc n - 1 - m), odd, rest, second)

pub bit_or-lt : (n a b : ℕ) → a < 2 ^ n → b < 2 ^ n → bit_or a b < 2 ^ n
bit_or-lt zero a b p q =
    let first = ap (λ k. bit_or k b) {x = a} {y = 0} (omega arith) in
    omega (arith, first, bit_or-bitwise 0 b)
bit_or-lt (suc n) a b p q =
    let twice = pow-suc 2 n in
    let rest = bit_or-lt n (a / 2) (b / 2) (omega (arith, twice, p)) (omega (arith, twice, q)) in
    omega (arith, bit_or_half a b, twice, rest)

pub bit_xor-lt : (n a b : ℕ) → a < 2 ^ n → b < 2 ^ n → bit_xor a b < 2 ^ n
bit_xor-lt zero a b p q =
    let first = ap (λ k. bit_xor k b) {x = a} {y = 0} (omega arith) in
    omega (arith, first, bit_xor-bitwise 0 b)
bit_xor-lt (suc n) a b p q =
    let twice = pow-suc 2 n in
    let rest = bit_xor-lt n (a / 2) (b / 2) (omega (arith, twice, p)) (omega (arith, twice, q)) in
    let small = differ_bound (a % 2) (b % 2) (omega arith) (omega arith) in
    omega (arith, bit_xor_half a b, twice, rest, small)

pub bit_and-le : (n a b : ℕ) → a < 2 ^ n → b < 2 ^ n → bit_and a b ≤ a
bit_and-le n a b p q = omega (arith, bit_and-complement n a b p q)
