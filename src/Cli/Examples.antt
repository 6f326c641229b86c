-- ===== src/Cli/Examples.antt =====
-- Command lines.
use xfer.Base.{ℕ, ◌≡◌, ◌≢◌, refl, arith, true, List, [], ◌∷◌, some}
use xfer.Base.Int.{pos}
use xfer.Cli.{
  Options, send, parse, default_options, parse_loop, effect, continue_if, more_flags, colored,
  valued, take_if, positional, is_dashed, arg_starts, take_port, set_color,
}
use xfer.Cli.Words
use xfer.Cli.Paths.{ArePaths}
use xfer.Cli.Bounds.{IsPort, parse_lem}
use xfer.Cli.Integer.{parse_int}
use xfer.Cli.Integer.Decimal.{parse_int-decimal}

-- "xfer", "send", "-p", "8080", "-r" and "src"
abbrev program : List ℕ
program = b'x' ∷ b'f' ∷ b'e' ∷ b'r' ∷ []

abbrev number : List ℕ
number = b'8' ∷ b'0' ∷ b'8' ∷ b'0' ∷ []

abbrev source : List ℕ
source = b's' ∷ b'r' ∷ b'c' ∷ []

abbrev argv : List (List ℕ)
argv = program ∷ Words.send_word ∷ Words.short_port ∷ number ∷ Words.short_recursive ∷ source ∷ []

abbrev parsed : Options
parsed = record default_options {
  mode = send;
  port = pos 8080;
  recursive = true;
  paths = source ∷ [];
}

parse-argv : parse argv ≡ some parsed
unfolding parse parse_loop effect more_flags continue_if colored valued take_if positional is_dashed
    arg_starts take_port set_color parse_int
parse-argv = refl

parse_lem_example :
    IsPort (pos 8080)
    × (send ≡ send → ◌≢◌ {A = List (List ℕ)} (source ∷ []) [])
    × ArePaths argv (source ∷ [])
parse_lem_example = parse_lem argv parsed parse-argv

parse_int-decimal_example : parse_int number ≡ some (pos 8080)
parse_int-decimal_example =
    parse_int-decimal b'8' (b'0' ∷ b'8' ∷ b'0' ∷ []) (omega arith) (omega arith)

-- 2 ^ 32 + 9876 passes as the port 9876.
parse_int-wraps :
    parse_int (b'4' ∷ b'2' ∷ b'9' ∷ b'4' ∷ b'9' ∷ b'7' ∷ b'7' ∷ b'1' ∷ b'7' ∷ b'2' ∷ [])
    ≡ some (pos 9876)
unfolding parse_int
parse_int-wraps = refl
