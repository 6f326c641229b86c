-- ===== src/Cli/Integer/Decimal.antt =====
-- Decimal numerals.
use xfer.Base.{ℕ, suc, ◌+◌, ◌-◌, ◌*◌, ◌^◌, ◌<◌, ◌≤◌, ◌≡◌, ap, ap₂, ◌∙◌, arith, true, false, ◌==◌}
use xfer.Base.{List, [], ◌∷◌, All, length, some, min}
use native.Mathlib.Nat.{zero-mul, pow-suc, add-mul, mul_assoc, mul_comm}
use xfer.Base.Int.{pos, to_int}
use xfer.Cli.Integer.{is_digit, is_space, digits_loop, cast_int, parse_int}

abbrev pub IsDigit : ℕ → Type 0
IsDigit c = (b'0' ≤ c) × (c ≤ b'9')

-- The number that the digits stand for, by the places' values.
abbrev pub decimal : List ℕ → ℕ
decimal [] = 0
decimal (c ∷ s) = (c - b'0') * 10 ^ length s + decimal s

place : (v d t n : ℕ) → (10 * v + d) * 10 ^ n + t ≡ v * 10 ^ suc n + (d * 10 ^ n + t)
place v d t n = omega (arith, ap (λ (k : ℕ). v * k) (pow-suc 10 n), assoc)
  where
    assoc : (10 * v + d) * 10 ^ n ≡ v * (10 ^ n * 10) + d * 10 ^ n
    assoc = omega (
      arith,
      add-mul (10 * v) d (10 ^ n),
      mul_assoc 10 v (10 ^ n),
      mul_comm 10 (v * 10 ^ n),
      mul_assoc v (10 ^ n) 10,
    )

plus_zero : (n : ℕ) → n + 0 ≡ n
plus_zero n = omega arith

times_one : (n : ℕ) → n * 1 + 0 ≡ n
times_one n = omega arith

digits_loop_lem :
    (count v : ℕ) (s : List ℕ)
    → All IsDigit s
    → digits_loop count v s ≡ (count + length s, v * 10 ^ length s + decimal s, [])
unfolding digits_loop is_digit
digits_loop_lem count v [] h = cc (plus_zero count, times_one v)
digits_loop_lem count v (c ∷ s) ((low, high), hs) = rw is_digit_there (
    digits_loop_lem (count + 1) (10 * v + (c - b'0')) s hs
    ∙ ap₂ (λ (m n : ℕ). (m, n, [])) (omega arith) (place v (c - b'0') (decimal s) (length s)))
  where
    is_digit_there : is_digit c ≡ true
    is_digit_there = ground arith

from_zero : (s : List ℕ) → All IsDigit s → digits_loop 0 0 s ≡ (length s, decimal s, [])
from_zero s h =
    digits_loop_lem 0 0 s h
    ∙ ap₂ (λ (m n : ℕ). (m, n, [])) (omega arith) (omega (arith, zero-mul (10 ^ length s)))

small : (n : ℕ) → n < 2 ^ 31 → to_int (min n (2 ^ 63 - 1)) ≡ pos n
small n h = ground arith

-- `ParseInt` reads a numeral that fits `int` as its number.
pub parse_int-decimal :
    (c : ℕ) (s : List ℕ)
    → All IsDigit (c ∷ s)
    → decimal (c ∷ s) < 2 ^ 31
    → parse_int (c ∷ s) ≡ some (pos (decimal (c ∷ s)))
unfolding parse_int
parse_int-decimal c s h fits =
    rw (not_space, not_minus, not_plus, from_zero (c ∷ s) h, cast_int)
      (ap some (small (decimal (c ∷ s)) fits))
  where
    not_space : is_space c ≡ false
    not_space = ground arith

    not_minus : (c == b'-') ≡ false
    not_minus = ground arith

    not_plus : (c == b'+') ≡ false
    not_plus = ground arith
