-- ===== src/Cli/Integer.antt =====
-- `ParseInt` of src/cli.cpp, with the `strtol` that it calls.
pub mod Decimal
use xfer.Base.{ℕ, zero, suc, Bool, true, false, not, ◌&&◌, ◌||◌, Option, none, some, min}
use xfer.Base.{
  ◌+◌, ◌-◌, ◌*◌, ◌%◌, ◌^◌, List, [], ◌∷◌, ◌++◌, leb, ltb, ◌==◌, bytes_eq, if◌then◌else◌,
}
use xfer.Base.Int.{ℤ, pos, negsuc, to_int}

-- `isspace` of the C locale.
is_space : ℕ → Bool
is_space c = c == 32 || (leb 9 c && leb c 13)

pub is_digit : ℕ → Bool
is_digit c = leb b'0' c && leb c b'9'

skip_spaces : List ℕ → List ℕ
skip_spaces [] = []
skip_spaces (c ∷ s) = let rest = skip_spaces s in if is_space c then rest else c ∷ s

-- The digits of `s` in front: how many there are, the number on top of `v`, and what is left.
pub digits_loop : ℕ → ℕ → List ℕ → ℕ × ℕ × List ℕ
digits_loop count v [] = (count, v, [])
digits_loop count v (c ∷ s) =
    let rest = digits_loop (count + 1) (10 * v + (c - b'0')) s in
    if is_digit c then rest else (count, v, c ∷ s)

-- The end of `strtol` for a magnitude, and the tests and the cast of `ParseInt`. A `long` stops at its
-- bounds.
pub cast_int : Bool → ℕ × ℕ × List ℕ → Option ℤ
cast_int negative (zero, v, rest) = none
cast_int negative (suc count, v, c ∷ rest) = none
cast_int true (suc count, v, []) = some (to_int ((2 ^ 64 - min v (2 ^ 63)) % 2 ^ 64))
cast_int false (suc count, v, []) = some (to_int (min v (2 ^ 63 - 1)))

-- `strtol` behind the spaces.
pub parse_signed : List ℕ → Option ℤ
parse_signed [] = none
parse_signed (c ∷ s) =
    if c == b'-'
    then cast_int true (digits_loop 0 0 s)
    else if c == b'+'
    then cast_int false (digits_loop 0 0 s)
    else cast_int false (digits_loop 0 0 (c ∷ s))

unfoldable pub parse_int : List ℕ → Option ℤ
unfolding parse_signed cast_int digits_loop is_digit skip_spaces is_space
parse_int s = parse_signed (skip_spaces s)
