-- ===== src/Base/Bits/Step.antt =====
-- The native operations mean `bitwise`, a recursion on binary digits with fuel. Here the fuel is
-- dropped: one equation for the lowest digit of each operation.
use Prim.Native.Nat.{ℕ, zero, suc, ◌+◌, ◌*◌, ◌/◌, ◌%◌, ◌≤◌, ◌<◌, min, max, differ, digits, bitwise}
use Prim.Native.Nat.{bit_and, bit_or, bit_xor, bit_and-bitwise, bit_or-bitwise, bit_xor-bitwise}
use mathlib.Core.Path.{◌≡◌, refl}
use native.Mathlib.Nat.{le_refl}
use native.Mathlib.Omega.{arith}

module _ (first : ℕ → ℕ) (combine : ℕ → ℕ → ℕ) where
  -- Once it covers the number, the fuel does not matter.
  enough_digits :
      (a i j b : ℕ) → a ≤ i → a ≤ j → digits first combine i a b ≡ digits first combine j a b
  enough_digits zero zero zero b i_covers j_covers = refl
  enough_digits zero (suc i) zero b i_covers j_covers = refl
  enough_digits zero zero (suc j) b i_covers j_covers = refl
  enough_digits zero (suc i) (suc j) b i_covers j_covers = refl
  enough_digits (suc a) zero j b i_covers j_covers = absurd (omega arith)
  enough_digits (suc a) (suc i) zero b i_covers j_covers = absurd (omega arith)
  enough_digits (suc a) (suc i) (suc j) b i_covers j_covers =
      simp (enough_digits (suc a / 2) i j (b / 2) (omega arith) (omega arith)) refl

  lowest_digit :
      (a b : ℕ)
      → bitwise first combine (suc a) b
        ≡ bitwise first combine (suc a / 2) (b / 2) * 2 + combine (suc a % 2) (b % 2)
  lowest_digit a b =
      let shorter = enough_digits (suc a / 2) (suc a / 2) a (b / 2) (le_refl _) (omega arith) in
      omega (arith, shorter)

-- On digits `differ` is the sum without its carry.
differ-digits : (x y : ℕ) → x < 2 → y < 2 → differ x y ≡ (x + y) % 2
differ-digits zero y h k = omega arith
differ-digits (suc zero) zero h k = omega arith
differ-digits (suc zero) (suc zero) h k = omega arith
differ-digits (suc zero) (suc (suc y)) h k = absurd (omega arith)
differ-digits (suc (suc x)) y h k = absurd (omega arith)

pub bit_xor_step : (x y : ℕ) → bit_xor x y ≡ bit_xor (x / 2) (y / 2) * 2 + (x + y) % 2
bit_xor_step zero y = simp bit_xor-bitwise (omega arith)
bit_xor_step (suc x) y =
    simp bit_xor-bitwise
      (omega (arith, lowest_digit (λ d. d) differ x y, differ-digits (suc x % 2) (y % 2)))

pub bit_and_step : (x y : ℕ) → bit_and x y ≡ bit_and (x / 2) (y / 2) * 2 + min (x % 2) (y % 2)
bit_and_step zero y = simp bit_and-bitwise (omega arith)
bit_and_step (suc x) y = simp bit_and-bitwise (lowest_digit (λ d. 0) min x y)

pub bit_or_step : (x y : ℕ) → bit_or x y ≡ bit_or (x / 2) (y / 2) * 2 + max (x % 2) (y % 2)
bit_or_step zero y = simp bit_or-bitwise (omega arith)
bit_or_step (suc x) y = simp bit_or-bitwise (lowest_digit (λ d. d) max x y)
