-- ===== src/Base/Bits.antt =====
-- Exclusive or and masks at variables: the laws that the checksum needs, at every width.
mod Step
use Step.{bit_xor_step, bit_or_step, bit_and_step}
use Prim.Native.Nat.{ℕ, zero, suc, ◌+◌, ◌*◌, ◌/◌, ◌%◌, ◌^◌, ◌<◌, bit_and, bit_or, bit_xor}
use mathlib.Core.Path.{◌≡◌, refl, ap}
use mathlib.Core.WellFounded
use native.Mathlib.Nat.{pow-suc}
use native.Mathlib.Omega.{arith}
use xfer.Base.Order.{lt_wf}

-- What holds of 0, and of a number if it holds of its half, holds of every number.
halving : (P : ℕ → Type 0) → P 0 → ((n : ℕ) → P (suc n / 2) → P (suc n)) → (n : ℕ) → P n
halving P base climb n = WellFounded.induction lt_wf {C = P} n step
  where
    step : (k : ℕ) → ((m : ℕ) → m < k → P m) → P k
    step zero below = base
    step (suc m) below = climb m (below (suc m / 2) (omega arith))

bit_and-zero : (a : ℕ) → bit_and a 0 ≡ 0
bit_and-zero = halving _ refl λ n half. omega (arith, bit_and_step (suc n) 0, half)

pub bit_and-one : (a : ℕ) → bit_and a 1 ≡ a % 2
bit_and-one a = omega (arith, bit_and_step a 1, bit_and-zero (a / 2))

-- `a & 0x0f` and `a & 0xff`
bit_and_nibble : (a : ℕ) → bit_and a 15 ≡ a % 16
bit_and_nibble a = omega (
  arith,
  bit_and_step a 15,
  bit_and_step (a / 2) 7,
  bit_and_step (a / 2 / 2) 3,
  bit_and-one (a / 2 / 2 / 2),
)

pub bit_and_byte : (a : ℕ) → bit_and a 255 ≡ a % 256
bit_and_byte a = omega (
  arith,
  bit_and_step a 255,
  bit_and_step (a / 2) 127,
  bit_and_step (a / 2 / 2) 63,
  bit_and_step (a / 2 / 2 / 2) 31,
  bit_and_nibble (a / 2 / 2 / 2 / 2),
)

pub bit_xor-half : (a b : ℕ) → bit_xor a b / 2 ≡ bit_xor (a / 2) (b / 2)
bit_xor-half a b = omega (arith, bit_xor_step a b)

pub bit_xor-parity : (a b : ℕ) → bit_xor a b % 2 ≡ (a + b) % 2
bit_xor-parity a b = omega (arith, bit_xor_step a b)

pub zero-bit_xor : (b : ℕ) → bit_xor 0 b ≡ b
zero-bit_xor = halving _ refl λ n half. omega (arith, bit_xor_step 0 (suc n), half)

pub bit_xor_self : (a : ℕ) → bit_xor a a ≡ 0
bit_xor_self = halving _ refl λ n half. omega (arith, bit_xor_step (suc n) (suc n), half)

bit_xor-zero_comm : (b : ℕ) → bit_xor 0 b ≡ bit_xor b 0
bit_xor-zero_comm =
    halving _ refl λ n half. omega (arith, bit_xor_step 0 (suc n), bit_xor_step (suc n) 0, half)

pub bit_xor_comm : (a b : ℕ) → bit_xor a b ≡ bit_xor b a
bit_xor_comm =
    halving (λ a. (b : ℕ) → bit_xor a b ≡ bit_xor b a) bit_xor-zero_comm
      λ n half b. omega (arith, bit_xor_step (suc n) b, bit_xor_step b (suc n), half (b / 2))

-- The lowest digits and the halves of three numbers.
bit_xor_assoc_step :
    (a b c : ℕ)
    → bit_xor (bit_xor (a / 2) (b / 2)) (c / 2) ≡ bit_xor (a / 2) (bit_xor (b / 2) (c / 2))
    → bit_xor (bit_xor a b) c ≡ bit_xor a (bit_xor b c)
bit_xor_assoc_step a b c h = omega (
  arith,
  bit_xor_step (bit_xor a b) c,
  bit_xor_step a (bit_xor b c),
  bit_xor-parity a b,
  bit_xor-parity b c,
  ap (λ (t : ℕ). bit_xor t (c / 2)) (bit_xor-half a b),
  ap (λ (t : ℕ). bit_xor (a / 2) t) (bit_xor-half b c),
)

pub bit_xor_assoc : (a b c : ℕ) → bit_xor (bit_xor a b) c ≡ bit_xor a (bit_xor b c)
bit_xor_assoc =
    halving (λ a. (b c : ℕ) → bit_xor (bit_xor a b) c ≡ bit_xor a (bit_xor b c))
      (λ b c.
        omega (arith, ap (λ (t : ℕ). bit_xor t c) (zero-bit_xor b), zero-bit_xor (bit_xor b c)))
      λ n half b c. bit_xor_assoc_step (suc n) b c (half (b / 2) (c / 2))

pub bit_xor-zero : (a : ℕ) → bit_xor a 0 ≡ a
bit_xor-zero a = omega (arith, bit_xor_comm a 0, zero-bit_xor a)

-- Exclusive or with `c` undoes itself.
pub bit_xor_cancel : (a b c : ℕ) → bit_xor a c ≡ bit_xor b c → a ≡ b
bit_xor_cancel a b c h = omega (
  arith,
  ap (λ (t : ℕ). bit_xor t c) h,
  bit_xor_assoc a c c,
  bit_xor_assoc b c c,
  ap (λ (t : ℕ). bit_xor a t) (bit_xor_self c),
  ap (λ (t : ℕ). bit_xor b t) (bit_xor_self c),
  bit_xor-zero a,
  bit_xor-zero b,
)

-- Two numbers that fit `k` bits have an exclusive or that fits `k` bits.
pub bit_xor-lt : (k a b : ℕ) → a < 2 ^ k → b < 2 ^ k → bit_xor a b < 2 ^ k
bit_xor-lt zero a b ha hb = grind (arith, bit_xor-half a b, bit_xor_step a b, bit_xor_self 0)
bit_xor-lt (suc k) a b ha hb = omega (
  arith,
  pow-suc 2 k,
  bit_xor_step a b,
  bit_xor-lt k (a / 2) (b / 2) (omega (arith, pow-suc 2 k)) (omega (arith, pow-suc 2 k)),
)

-- A number and one shifted clear of it: exclusive or is their sum.
pub bit_xor_fields : (k q r : ℕ) → r < 2 ^ k → bit_xor r (q * 2 ^ k) ≡ q * 2 ^ k + r
bit_xor_fields zero q zero h = omega (arith, zero-bit_xor (q * 2 ^ 0))
bit_xor_fields zero q (suc r) h = absurd (omega arith)
bit_xor_fields (suc k) q r h = omega (
  arith,
  pow-suc 2 k,
  ap (λ (t : ℕ). q * t) (pow-suc 2 k),
  bit_xor_step r (q * 2 ^ suc k),
  ap (λ (t : ℕ). bit_xor (r / 2) t) (half_shifted q k),
  bit_xor_fields k q (r / 2) (omega (arith, pow-suc 2 k)),
)
  where
    half_shifted : (q k : ℕ) → q * 2 ^ suc k / 2 ≡ q * 2 ^ k
    half_shifted q k = omega (arith, ap (λ (t : ℕ). q * t) (pow-suc 2 k))

zero-bit_or : (b : ℕ) → bit_or 0 b ≡ b
zero-bit_or = halving _ refl λ n half. omega (arith, bit_or_step 0 (suc n), half)

-- A field put above the bits that are there already: `or` is their sum.
pub bit_or_fields : (k q r : ℕ) → r < 2 ^ k → bit_or r (q * 2 ^ k) ≡ r + q * 2 ^ k
bit_or_fields zero q zero h = omega (arith, zero-bit_or (q * 2 ^ 0))
bit_or_fields zero q (suc r) h = absurd (omega arith)
bit_or_fields (suc k) q r h = omega (
  arith,
  pow-suc 2 k,
  doubled,
  bit_or_step r (q * 2 ^ suc k),
  ap (λ (t : ℕ). bit_or (r / 2) t) half_shifted,
  bit_or_fields k q (r / 2) (omega (arith, pow-suc 2 k)),
)
  where
    doubled : q * 2 ^ suc k ≡ 2 * (q * 2 ^ k)
    doubled = omega (arith, ap (λ (t : ℕ). q * t) (pow-suc 2 k))

    half_shifted : q * 2 ^ suc k / 2 ≡ q * 2 ^ k
    half_shifted = omega (arith, doubled)
