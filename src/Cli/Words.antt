-- ===== src/Cli/Words.antt =====
-- The words of src/cli.cpp.
use xfer.Base.{ℕ, List, [], ◌∷◌}

-- "--host"
abbrev pub long_host : List ℕ
long_host = b'-' ∷ b'-' ∷ b'h' ∷ b'o' ∷ b's' ∷ b't' ∷ []

-- "-o"
abbrev pub short_output : List ℕ
short_output = b'-' ∷ b'o' ∷ []

-- "--output"
abbrev pub long_output : List ℕ
long_output = b'-' ∷ b'-' ∷ b'o' ∷ b'u' ∷ b't' ∷ b'p' ∷ b'u' ∷ b't' ∷ []

-- "-p"
abbrev pub short_port : List ℕ
short_port = b'-' ∷ b'p' ∷ []

-- "--port"
abbrev pub long_port : List ℕ
long_port = b'-' ∷ b'-' ∷ b'p' ∷ b'o' ∷ b'r' ∷ b't' ∷ []

-- "-h"
abbrev pub short_help : List ℕ
short_help = b'-' ∷ b'h' ∷ []

-- "--help"
abbrev pub long_help : List ℕ
long_help = b'-' ∷ b'-' ∷ b'h' ∷ b'e' ∷ b'l' ∷ b'p' ∷ []

-- "-V"
abbrev pub short_version : List ℕ
short_version = b'-' ∷ b'V' ∷ []

-- "--version"
abbrev pub long_version : List ℕ
long_version = b'-' ∷ b'-' ∷ b'v' ∷ b'e' ∷ b'r' ∷ b's' ∷ b'i' ∷ b'o' ∷ b'n' ∷ []

-- "-v"
abbrev pub short_verbose : List ℕ
short_verbose = b'-' ∷ b'v' ∷ []

-- "--verbose"
abbrev pub long_verbose : List ℕ
long_verbose = b'-' ∷ b'-' ∷ b'v' ∷ b'e' ∷ b'r' ∷ b'b' ∷ b'o' ∷ b's' ∷ b'e' ∷ []

-- "--no-progress"
abbrev pub long_no_progress : List ℕ
long_no_progress =
    b'-' ∷ b'-' ∷ b'n' ∷ b'o' ∷ b'-' ∷ b'p' ∷ b'r' ∷ b'o' ∷ b'g' ∷ b'r' ∷ b'e' ∷ b's' ∷ b's' ∷ []

-- "-r"
abbrev pub short_recursive : List ℕ
short_recursive = b'-' ∷ b'r' ∷ []

-- "--recursive"
abbrev pub long_recursive : List ℕ
long_recursive = b'-' ∷ b'-' ∷ b'r' ∷ b'e' ∷ b'c' ∷ b'u' ∷ b'r' ∷ b's' ∷ b'i' ∷ b'v' ∷ b'e' ∷ []

-- "-L"
abbrev pub short_follow : List ℕ
short_follow = b'-' ∷ b'L' ∷ []

-- "--follow-symlinks"
abbrev pub long_follow : List ℕ
long_follow =
    b'-' ∷ b'-' ∷ b'f' ∷ b'o' ∷ b'l' ∷ b'l' ∷ b'o' ∷ b'w' ∷ b'-' ∷ b's' ∷ b'y' ∷ b'm' ∷ b'l' ∷ b'i'
    ∷ b'n' ∷ b'k' ∷ b's' ∷ []

-- "--no-zero-copy"
abbrev pub long_no_zero_copy : List ℕ
long_no_zero_copy =
    b'-' ∷ b'-' ∷ b'n' ∷ b'o' ∷ b'-' ∷ b'z' ∷ b'e' ∷ b'r' ∷ b'o' ∷ b'-' ∷ b'c' ∷ b'o' ∷ b'p' ∷ b'y'
    ∷ []

-- "--no-verify"
abbrev pub long_no_verify : List ℕ
long_no_verify = b'-' ∷ b'-' ∷ b'n' ∷ b'o' ∷ b'-' ∷ b'v' ∷ b'e' ∷ b'r' ∷ b'i' ∷ b'f' ∷ b'y' ∷ []

-- "--listen"
abbrev pub long_listen : List ℕ
long_listen = b'-' ∷ b'-' ∷ b'l' ∷ b'i' ∷ b's' ∷ b't' ∷ b'e' ∷ b'n' ∷ []

-- "--color="
abbrev pub long_color : List ℕ
long_color = b'-' ∷ b'-' ∷ b'c' ∷ b'o' ∷ b'l' ∷ b'o' ∷ b'r' ∷ b'=' ∷ []

-- "always"
abbrev pub always : List ℕ
always = b'a' ∷ b'l' ∷ b'w' ∷ b'a' ∷ b'y' ∷ b's' ∷ []

-- "never"
abbrev pub never : List ℕ
never = b'n' ∷ b'e' ∷ b'v' ∷ b'e' ∷ b'r' ∷ []

-- "auto"
abbrev pub auto : List ℕ
auto = b'a' ∷ b'u' ∷ b't' ∷ b'o' ∷ []

-- "send"
abbrev pub send_word : List ℕ
send_word = b's' ∷ b'e' ∷ b'n' ∷ b'd' ∷ []

-- "recv"
abbrev pub recv_word : List ℕ
recv_word = b'r' ∷ b'e' ∷ b'c' ∷ b'v' ∷ []

-- "receive"
abbrev pub receive_word : List ℕ
receive_word = b'r' ∷ b'e' ∷ b'c' ∷ b'e' ∷ b'i' ∷ b'v' ∷ b'e' ∷ []

-- "help"
abbrev pub help_word : List ℕ
help_word = b'h' ∷ b'e' ∷ b'l' ∷ b'p' ∷ []

-- "version"
abbrev pub version_word : List ℕ
version_word = b'v' ∷ b'e' ∷ b'r' ∷ b's' ∷ b'i' ∷ b'o' ∷ b'n' ∷ []
