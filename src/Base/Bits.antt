-- ===== src/Base/Bits.antt =====
-- `&`, `|` and shifts on native numbers, one binary digit at a time: `test_bit a d` is bit `d`.
use Prim.Native.Nat.{
  ℕ, zero, suc, ◌+◌, ◌-◌, ◌*◌, ◌/◌, ◌%◌, ◌^◌, ◌≤◌, ◌<◌, min, max, bit_and, bit_or, digits,
  bit_and-bitwise, bit_or-bitwise,
}
use mathlib.Core.Path.{◌≡◌, ◌∙◌, refl, ap}
use mathlib.Core.Logic.{◌≢◌}
use native.Mathlib.Omega.{arith}
use native.Mathlib.Nat.{
  le_refl, pow-suc, one-le-pow, mod-lt, div-add-mod, mod-eq_of_lt, mul-add-mod_self_left,
}

module _ (z : ℕ → ℕ) (f : ℕ → ℕ → ℕ) where
  enough_digits : (n m a b : ℕ) → a ≤ n → a ≤ m → digits z f n a b ≡ digits z f m a b
  enough_digits zero zero a b p q = refl
  enough_digits zero (suc m) zero b p q = refl
  enough_digits zero (suc m) (suc a) b p q = absurd (omega arith)
  enough_digits (suc n) zero zero b p q = refl
  enough_digits (suc n) zero (suc a) b p q = absurd (omega arith)
  enough_digits (suc n) (suc m) zero b p q = refl
  enough_digits (suc n) (suc m) (suc a) b p q =
      rw (enough_digits n m (suc a / 2) (b / 2) (omega arith) (omega arith))

  first_digit :
      (b a : ℕ)
      → digits z f (suc a) (suc a) b
        ≡ digits z f (suc a / 2) (suc a / 2) (b / 2) * 2 + f (suc a % 2) (b % 2)
  first_digit b a =
      omega (arith, enough_digits a (suc a / 2) (suc a / 2) (b / 2) (omega arith) (le_refl _))

-- The operations on the halves and on the last digits.
pub bit_or_halves : (a b : ℕ) → bit_or a b ≡ max (a % 2) (b % 2) + 2 * bit_or (a / 2) (b / 2)
bit_or_halves zero b = simp bit_or-bitwise (omega arith)
bit_or_halves (suc a) b = simp bit_or-bitwise (omega (arith, first_digit (λ y. y) max b a))

pub bit_and_halves : (m k : ℕ) → bit_and m k ≡ min (m % 2) (k % 2) + 2 * bit_and (m / 2) (k / 2)
bit_and_halves zero k = simp bit_and-bitwise (omega arith)
bit_and_halves (suc m) k = simp bit_and-bitwise (omega (arith, first_digit (λ y. 0) min k m))

-- Zero on the right, for every number below a bound.
zero_below : (k n : ℕ) → n < k → (bit_or n 0 ≡ n) × (bit_and n 0 ≡ 0)
zero_below zero n h = absurd (omega arith)
zero_below (suc k) zero h = (refl, refl)
zero_below (suc k) (suc n) h =
    let (p, q) = zero_below k (suc n / 2) (omega arith) in
    (omega (arith, bit_or_halves (suc n) 0, p), omega (arith, bit_and_halves (suc n) 0, q))

pub bit_or-zero : (a : ℕ) → bit_or a 0 ≡ a
bit_or-zero a = (zero_below (suc a) a (omega arith)).0

pub bit_and-zero : (a : ℕ) → bit_and a 0 ≡ 0
bit_and-zero a = (zero_below (suc a) a (omega arith)).1

-- Bit `d` of `a`.
unfoldable pub test_bit : ℕ → ℕ → ℕ
test_bit a zero = a % 2
test_bit a (suc d) = test_bit (a / 2) d

pub test_bit-le-one : (a d : ℕ) → test_bit a d ≤ 1
unfolding test_bit
test_bit-le-one a zero = omega arith
test_bit-le-one a (suc d) = test_bit-le-one (a / 2) d

pub two-pow-suc : (k : ℕ) → 2 ^ suc k ≡ 2 * 2 ^ k
two-pow-suc k = omega (arith, pow-suc 2 k)

bit_and_double : (a m : ℕ) → bit_and a (2 * m) ≡ bit_and (a / 2) m * 2
bit_and_double a m =
    let q : 2 * m / 2 ≡ m = omega arith in omega (arith, rw q at (bit_and_halves a (2 * m)))

bit_or_double : (a m : ℕ) → bit_or a (2 * m) ≡ bit_or (a / 2) m * 2 + a % 2
bit_or_double a m =
    let q : 2 * m / 2 ≡ m = omega arith in omega (arith, rw q at (bit_or_halves a (2 * m)))

-- `a & (1 << d)`.
pub bit_and-pow : (a d : ℕ) → bit_and a (2 ^ d) ≡ test_bit a d * 2 ^ d
unfolding test_bit
bit_and-pow a zero = omega (arith, bit_and_halves a 1, bit_and-zero (a / 2))
bit_and-pow a (suc d) =
    rw two-pow-suc (omega (arith, bit_and_double a (2 ^ d), bit_and-pow (a / 2) d))

half-bit_or-pow : (a d : ℕ) → bit_or a (2 ^ suc d) / 2 ≡ bit_or (a / 2) (2 ^ d)
half-bit_or-pow a d = rw two-pow-suc (omega (arith, bit_or_double a (2 ^ d)))

half-mul-pow : (a s : ℕ) → a * 2 ^ suc s / 2 ≡ a * 2 ^ s
half-mul-pow a s = omega (arith, ap (λ (t : ℕ). a * t) (two-pow-suc s))

-- `a | (1 << d)` sets bit `d` and leaves the others.
pub test_bit-bit_or_self : (a d : ℕ) → test_bit (bit_or a (2 ^ d)) d ≡ 1
unfolding test_bit
test_bit-bit_or_self a zero = omega (arith, bit_or_halves a 1)
test_bit-bit_or_self a (suc d) = rw half-bit_or-pow (test_bit-bit_or_self (a / 2) d)

pub test_bit-bit_or_ne : (a d e : ℕ) → d ≢ e → test_bit (bit_or a (2 ^ d)) e ≡ test_bit a e
unfolding test_bit
test_bit-bit_or_ne a zero zero h = absurd (h refl)
test_bit-bit_or_ne a zero (suc e) h =
    let p : bit_or a 1 / 2 ≡ a / 2 = omega (arith, bit_or_halves a 1, bit_or-zero (a / 2)) in rw p
test_bit-bit_or_ne a (suc d) zero h = rw two-pow-suc (omega (arith, bit_or_double a (2 ^ d)))
test_bit-bit_or_ne a (suc d) (suc e) h =
    rw half-bit_or-pow (test_bit-bit_or_ne (a / 2) d e (λ q. h (ap suc q)))

-- `a << s` moves every bit up by `s`.
pub test_bit-shl_below : (a s e : ℕ) → e < s → test_bit (a * 2 ^ s) e ≡ 0
unfolding test_bit
test_bit-shl_below a zero e h = absurd (omega arith)
test_bit-shl_below a (suc s) zero h = omega (arith, ap (λ (t : ℕ). a * t) (two-pow-suc s))
test_bit-shl_below a (suc s) (suc e) h = rw half-mul-pow (test_bit-shl_below a s e (omega arith))

pub test_bit-shl_above : (a s e : ℕ) → s ≤ e → test_bit (a * 2 ^ s) e ≡ test_bit a (e - s)
unfolding test_bit
test_bit-shl_above a zero e h =
    let p : a * 1 ≡ a = omega arith in let q : e - 0 ≡ e = omega arith in rw (p, q)
test_bit-shl_above a (suc s) zero h = absurd (omega arith)
test_bit-shl_above a (suc s) (suc e) h =
    let q : suc e - suc s ≡ e - s = omega arith in
    rw (half-mul-pow, q) (test_bit-shl_above a s e (omega arith))

half-mod : (a m : ℕ) → 0 < m → a % (2 * m) ≡ a / 2 % m * 2 + a % 2
half-mod a m h =
    let whole : a ≡ 2 * m * (a / 2 / m) + (a / 2 % m * 2 + a % 2) =
      omega (arith, div-add-mod (a / 2) m) in
    ap (λ (t : ℕ). t % (2 * m)) whole
    ∙ mul-add-mod_self_left (2 * m) (a / 2 / m) (a / 2 % m * 2 + a % 2)
    ∙ mod-eq_of_lt (omega (arith, mod-lt (a / 2) h))

-- A conversion to a `k`-bit word keeps the low `k` bits.
pub test_bit-mod : (a k e : ℕ) → e < k → test_bit (a % 2 ^ k) e ≡ test_bit a e
unfolding test_bit
test_bit-mod a zero e h = absurd (omega arith)
test_bit-mod a (suc k) zero h =
    rw two-pow-suc (omega (arith, half-mod a (2 ^ k) (one-le-pow k 2 (omega arith))))
test_bit-mod a (suc k) (suc e) h =
    let p : a % 2 ^ suc k / 2 ≡ a / 2 % 2 ^ k =
      rw two-pow-suc (omega (arith, half-mod a (2 ^ k) (one-le-pow k 2 (omega arith)))) in
    rw p (test_bit-mod (a / 2) k e (omega arith))

-- The low three bits, and a field of them under a shifted one.
pub bit_and_seven : (a : ℕ) → bit_and a 7 ≡ a % 8
bit_and_seven a = omega (
  arith,
  bit_and_halves a 7,
  bit_and_halves (a / 2) 3,
  bit_and_halves (a / 2 / 2) 1,
  bit_and-zero (a / 2 / 2 / 2),
)

pub bit_or_seven : (a k : ℕ) → k < 8 → bit_or (a * 8) k ≡ a * 8 + k
bit_or_seven a k h =
    let p₁ : a * 8 / 2 ≡ a * 4 = omega arith in
    let p₂ : a * 4 / 2 ≡ a * 2 = omega arith in
    let p₃ : a * 2 / 2 ≡ a = omega arith in
    let z : k / 2 / 2 / 2 ≡ 0 = omega arith in
    omega (
      arith,
      rw p₁ at (bit_or_halves (a * 8) k),
      rw p₂ at (bit_or_halves (a * 4) (k / 2)),
      rw (p₃, z, bit_or-zero) at (bit_or_halves (a * 2) (k / 2 / 2)),
    )

-- A number below 2^k under one that is shifted by k.
pub bit_or_disjoint : (k a b : ℕ) → b < 2 ^ k → bit_or (a * 2 ^ k) b ≡ a * 2 ^ k + b
bit_or_disjoint zero a b h =
    let z : b ≡ 0 = omega arith in
    let p : a * 1 ≡ a = omega arith in rw (p, z, bit_or-zero) (omega arith)
bit_or_disjoint (suc k) a b h = omega (
  arith,
  bit_or_halves (a * 2 ^ suc k) b,
  ap (λ (t : ℕ). bit_or t (b / 2)) (half-mul-pow a k),
  bit_or_disjoint k a (b / 2) (omega (arith, two-pow-suc k)),
  ap (λ (t : ℕ). a * t) (two-pow-suc k),
)

zero_bit_or : (a : ℕ) → bit_or 0 a ≡ a
zero_bit_or a = simp bit_or-bitwise refl

pub bit_or_disjoint_right : (k a b : ℕ) → b < 2 ^ k → bit_or b (a * 2 ^ k) ≡ a * 2 ^ k + b
bit_or_disjoint_right zero a b h =
    let z : b ≡ 0 = omega arith in
    let p : a * 1 ≡ a = omega arith in rw (p, z) (zero_bit_or a ∙ omega arith)
bit_or_disjoint_right (suc k) a b h = omega (
  arith,
  bit_or_halves b (a * 2 ^ suc k),
  ap (λ (t : ℕ). bit_or (b / 2) t) (half-mul-pow a k),
  bit_or_disjoint_right k a (b / 2) (omega (arith, two-pow-suc k)),
  ap (λ (t : ℕ). a * t) (two-pow-suc k),
)

-- A mask of the low `k` bits.
pub bit_and_low : (k a : ℕ) → bit_and a (2 ^ k - 1) ≡ a % 2 ^ k
bit_and_low zero a = bit_and-zero a ∙ omega arith
bit_and_low (suc k) a =
    let positive : 0 < 2 ^ k = one-le-pow k 2 (omega arith) in
    let half : (2 ^ suc k - 1) / 2 ≡ 2 ^ k - 1 = omega (arith, two-pow-suc k) in
    omega (
      arith,
      bit_and_halves a (2 ^ suc k - 1),
      ap (λ (t : ℕ). bit_and (a / 2) t) half,
      bit_and_low k (a / 2),
      two-pow-suc k,
      ap (λ (t : ℕ). a % t) (two-pow-suc k),
      half-mod a (2 ^ k) positive,
    )

pub test_bit-zero : (d : ℕ) → test_bit 0 d ≡ 0
unfolding test_bit
test_bit-zero zero = refl
test_bit-zero (suc d) = test_bit-zero d
