-- ===== src/Logging.antt =====
-- src/common/logging.h and src/common/logging.cpp: log statements. The time of day, which `put_time`
-- formats, and whether `stderr` is a terminal are arguments; a value that is put into a statement is
-- the bytes that it prints.
pub mod Statement
mod Examples
use xfer.Base.{ℕ, Bool, true, false, not, List, [], ◌∷◌, ◌++◌, leb, if◌then◌else◌}

pub data Level : Type 0 where
  debug info warn error : Level

-- The value of the enumerator.
abbrev pub rank : Level → ℕ
rank debug = 0
rank info = 1
rank warn = 2
rank error = 3

-- `g_level`, `g_color_forced` and `g_color_wanted`.
pub record Logger : Type 0 where
  pub level : Level
  pub color_forced : Bool
  pub color_wanted : Bool

abbrev pub initial_logger : Logger
initial_logger = record { level = info; color_forced = false; color_wanted = false }

pub set_level : Level → Logger → Logger
set_level level logger = record logger { level = level }

pub set_color : Bool → Logger → Logger
set_color enabled logger = record logger { color_forced = true; color_wanted = enabled }

abbrev pub want_color : Bool → Logger → Bool
want_color is_tty logger = if logger.color_forced then logger.color_wanted else is_tty

-- The two digits between ESC and `m`.
abbrev pub color_code : Level → List ℕ
color_code debug = b'3' ∷ b'6' ∷ []
color_code info = b'3' ∷ b'2' ∷ []
color_code warn = b'3' ∷ b'3' ∷ []
color_code error = b'3' ∷ b'1' ∷ []

abbrev pub ansi_color_for : Bool → Logger → Level → List ℕ
ansi_color_for is_tty logger level =
    if want_color is_tty logger then 27 ∷ b'[' ∷ color_code level ++ (b'm' ∷ []) else []

abbrev pub ansi_reset : Bool → Logger → List ℕ
ansi_reset is_tty logger = if want_color is_tty logger then 27 ∷ b'[' ∷ b'0' ∷ b'm' ∷ [] else []

abbrev pub level_to_string : Level → List ℕ
level_to_string debug = b'D' ∷ b'E' ∷ b'B' ∷ b'U' ∷ b'G' ∷ []
level_to_string info = b'I' ∷ b'N' ∷ b'F' ∷ b'O' ∷ b' ' ∷ []
level_to_string warn = b'W' ∷ b'A' ∷ b'R' ∷ b'N' ∷ b' ' ∷ []
level_to_string error = b'E' ∷ b'R' ∷ b'R' ∷ b'O' ∷ b'R' ∷ []

pub record LogStream : Type 0 where
  pub enabled : Bool
  pub level : Level
  pub oss : List ℕ

-- The text in front of a statement.
abbrev pub line_head : Bool → Logger → List ℕ → Level → List ℕ
line_head is_tty logger time level =
    ansi_color_for is_tty logger level
    ++ ((b'[' ∷ time)
        ++ ((b']' ∷ b'[' ∷ level_to_string level)
            ++ ((b']' ∷ ansi_reset is_tty logger) ++ (b' ' ∷ []))))

-- The constructor.
pub open_stream : Bool → Logger → List ℕ → Level → LogStream
open_stream is_tty logger time level =
    if leb (rank logger.level) (rank level)
    then record { enabled = true; level = level; oss = line_head is_tty logger time level }
    else record { enabled = false; level = level; oss = [] }

-- `operator<<`
pub put : LogStream → List ℕ → LogStream
put stream value = if stream.enabled then record stream { oss = stream.oss ++ value } else stream

pub put_all : LogStream → List (List ℕ) → LogStream
put_all stream [] = stream
put_all stream (value ∷ values) = put_all (put stream value) values

-- The destructor, with what was printed to `stderr` before.
pub close_stream : LogStream → List ℕ → List ℕ
close_stream stream printed =
    if stream.enabled then printed ++ (stream.oss ++ (10 ∷ [])) else printed

-- A statement: the temporary, its values and its end.
unfoldable pub log : Bool → Logger → List ℕ → Level → List (List ℕ) → List ℕ → List ℕ
unfolding open_stream put_all put close_stream
log is_tty logger time level values printed =
    close_stream (put_all (open_stream is_tty logger time level) values) printed
