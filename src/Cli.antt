-- ===== src/Cli.antt =====
-- src/cli.h and src/cli.cpp: the command line. What is printed is left out. A `char*` is the list of
-- its bytes before the NUL.
pub mod Words
pub mod Integer
pub mod Paths
pub mod Bounds
pub mod Run
mod Examples
use xfer.Base.{ℕ, zero, suc, Bool, true, false, not, ◌&&◌, ◌||◌, Option, none, some, min}
use xfer.Base.{
  ◌+◌, ◌-◌, ◌*◌, ◌%◌, ◌^◌, List, [], ◌∷◌, ◌++◌, leb, ltb, ◌==◌, bytes_eq, if◌then◌else◌,
}
use xfer.Base.Int.{ℤ, pos, negsuc, to_int}
use xfer.Os.{FilePath}
use xfer.Cli.Words
use xfer.Cli.Integer.{parse_int}

pub data Mode : Type 0 where
  unset send receive help version : Mode

pub record Options : Type 0 where
  pub mode : Mode
  pub verbose : Bool
  pub no_progress : Bool
  pub force_color : Bool
  pub port : ℤ
  pub host : List ℕ
  pub listen : Bool
  pub recursive : Bool
  pub follow_symlinks : Bool
  pub no_zero_copy : Bool
  pub paths : List FilePath
  pub output_dir : FilePath
  pub no_verify : Bool

-- `Options opts;`
abbrev pub default_options : Options
default_options = record {
  mode = unset;
  verbose = false;
  no_progress = false;
  force_color = false;
  port = pos 9876;
  host = [];
  listen = false;
  recursive = false;
  follow_symlinks = false;
  no_zero_copy = false;
  paths = [];
  output_dir = [];
  no_verify = false;
}

-- What is behind `prefix`, which `a` begins with.
pub arg_starts : List ℕ → List ℕ → Option (List ℕ)
arg_starts a [] = some a
arg_starts [] (d ∷ q) = none
arg_starts (c ∷ a) (d ∷ q) = if c == d then arg_starts a q else none

-- What an argument does: it is done with, it takes the next one as its value, or it is refused.
pub data Effect : Type 0 where
  done : Options → Effect
  takes : (List ℕ → Option Options) → Effect
  refused : Effect

-- `if (test) { ...; continue; }`
pub continue_if : Bool → Options → Effect → Effect
continue_if true opts rest = done opts
continue_if false opts rest = rest

-- `if (test) { if (!need_val(...)) return false; continue; }`
pub take_if : Bool → (List ℕ → Option Options) → Effect → Effect
take_if true f rest = takes f
take_if false f rest = rest

either : List ℕ → List ℕ → List ℕ → Bool
either a x y = bytes_eq a x || bytes_eq a y

-- `a[0] == '-'`
pub is_dashed : List ℕ → Bool
is_dashed [] = false
is_dashed (c ∷ a) = c == b'-'

abbrev pub is_send : Mode → Bool
is_send send = true
is_send _ = false

-- `--port`
pub take_port : Options → Option ℤ → Option Options
take_port opts none = none
take_port opts (some v) = some (record opts { port = v })

-- The value behind `--color=`.
pub set_color : Options → List ℕ → Effect
set_color opts v =
    continue_if (bytes_eq v Words.always) (record opts { force_color = true })
      (continue_if (bytes_eq v Words.never) (record opts { force_color = false })
        (continue_if (bytes_eq v Words.auto) opts refused))

-- A positional argument, or one that is not known.
pub positional : Options → List ℕ → Effect
positional opts a =
    continue_if (not (is_dashed a) && is_send opts.mode)
      (record opts { paths = opts.paths ++ (a ∷ []) }) refused

-- The options with a value.
pub valued : Options → List ℕ → Effect
valued opts a =
    take_if (bytes_eq a Words.long_host) (λ v. some (record opts { host = v }))
      (take_if (either a Words.short_output Words.long_output)
        (λ v. some (record opts { output_dir = v }))
        (take_if (either a Words.short_port Words.long_port) (λ v. take_port opts (parse_int v))
          (positional opts a)))

pub colored : Options → List ℕ → Option (List ℕ) → Effect
colored opts a (some v) = set_color opts v
colored opts a none = valued opts a

-- The flags of one side only.
pub more_flags : Options → List ℕ → Effect
more_flags opts a =
    continue_if (either a Words.short_recursive Words.long_recursive)
      (record opts { recursive = true })
      (continue_if (either a Words.short_follow Words.long_follow)
        (record opts { follow_symlinks = true })
        (continue_if (bytes_eq a Words.long_no_zero_copy) (record opts { no_zero_copy = true })
          (continue_if (bytes_eq a Words.long_no_verify) (record opts { no_verify = true })
            (continue_if (bytes_eq a Words.long_listen) (record opts { listen = true })
              (colored opts a (arg_starts a Words.long_color))))))

-- The body of the loop of `Parse`.
pub effect : Options → List ℕ → Effect
effect opts a =
    continue_if (either a Words.short_help Words.long_help) (record opts { mode = help })
      (continue_if (either a Words.short_version Words.long_version)
        (record opts { mode = version })
        (continue_if (either a Words.short_verbose Words.long_verbose)
          (record opts { verbose = true })
          (continue_if (bytes_eq a Words.long_no_progress) (record opts { no_progress = true })
            (more_flags opts a))))

-- The loop of `Parse`.
pub parse_loop : Options → List (List ℕ) → Option Options
parse_loop opts [] = some opts
parse_loop opts (a ∷ []) = elim (effect opts a) [
  | done opts' ↦ some opts'
  | takes f ↦ none
  | refused ↦ none
]
parse_loop opts (a ∷ b ∷ args) = elim (effect opts a) [
  | done opts' ↦ parse_loop opts' (b ∷ args)
  | takes f ↦ elim (f b) [ none ↦ none | some opts' ↦ parse_loop opts' args ]
  | refused ↦ none
]

-- The subcommand.
pub mode_of : List ℕ → Option Mode
mode_of cmd =
    if bytes_eq cmd Words.send_word
    then some send
    else if either cmd Words.recv_word Words.receive_word
    then some receive
    else if bytes_eq cmd Words.help_word || either cmd Words.short_help Words.long_help
    then some help
    else if bytes_eq cmd Words.version_word || either cmd Words.short_version Words.long_version
    then some version
    else none

-- `opts.port <= 0 || opts.port > 65535`
pub is_bad_port : ℤ → Bool
is_bad_port (negsuc n) = true
is_bad_port (pos zero) = true
is_bad_port (pos (suc n)) = ltb 65535 (suc n)

abbrev is_nil : List FilePath → Bool
is_nil [] = true
is_nil (p ∷ ps) = false

-- The last tests of `Parse`.
pub check_options : Options → Option Options
check_options opts =
    if is_send opts.mode && is_nil opts.paths
    then none
    else if is_bad_port opts.port
    then none
    else some opts

pub checked : Option Options → Option Options
checked none = none
checked (some opts) = check_options opts

pub with_mode : Option Mode → List (List ℕ) → Option Options
with_mode none args = none
with_mode (some m) args = parse_loop (record default_options { mode = m }) args

-- The arguments behind the program's name.
pub parse_args : List (List ℕ) → Option Options
parse_args [] = none
parse_args (cmd ∷ args) =
    if is_dashed cmd then parse_loop default_options (cmd ∷ args) else with_mode (mode_of cmd) args

-- `Parse`, with `argv` as a list.
unfoldable pub parse : List (List ℕ) → Option Options
unfolding checked check_options is_bad_port parse_args with_mode mode_of either
parse [] = none
parse (program ∷ args) = checked (parse_args args)
