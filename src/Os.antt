-- ===== src/Os.antt =====
-- What xfer calls and does not implement: the kernel's calls on sockets and files, and the calls of
-- `std::filesystem` and `std::ofstream` that look at a disk or change it. They are parameters.
pub mod Action
pub mod Laws
pub mod Files
pub mod Sockets
pub mod Tidy
pub mod Halting
pub mod Memory
use xfer.Base.{ℕ, List, Bool, Option}

-- What a system call answers: a value that is not negative, or -1 with this `errno`.
pub data Reply (A : Type 0) : Type 0 where
  done : A → Reply A
  failed : ℕ → Reply A

-- A path or a file name is the list of its bytes.
abbrev pub FilePath : Type 0
FilePath = List ℕ

-- A descriptor, `none` for -1.
abbrev pub Fd : Type 0
Fd = Option ℕ

pub record Os : Type 1 where
  -- The machine, the peer and the network, as far as the calls can tell.
  pub World : Type 0
  -- The disposition of SIGPIPE, which a program inherits: a write to a connection that the peer has
  -- closed then fails with `EPIPE`, and otherwise the signal ends the program.
  pub ignores_sigpipe : Bool
  -- `send(fd, data, len, 0)` answers how many bytes it took.
  pub send : Fd → List ℕ → World → Reply ℕ × World
  -- `recv(fd, data, len, 0)` answers the bytes that it stored, none at the end of the stream.
  pub recv : Fd → ℕ → World → Reply (List ℕ) × World
  -- `sendfile64(out, in, &off, want)` answers how many bytes went out, and adds them to `off`.
  pub sendfile : Fd → ℕ → ℕ → ℕ → World → Reply ℕ × World
  -- `open(path, O_RDONLY | O_CLOEXEC)`
  pub open_read : FilePath → World → Reply ℕ × World
  -- `pread(fd, data, want, offset)` answers the bytes that it stored.
  pub pread : ℕ → ℕ → ℕ → World → Reply (List ℕ) × World
  pub close : ℕ → World → World
  -- `std::filesystem`
  pub exists : FilePath → World → Bool
  pub is_directory : FilePath → World → Bool
  pub is_regular_file : FilePath → World → Bool
  pub file_size : FilePath → World → ℕ
  -- `fs::current_path()`, `none` when it throws.
  pub current_path : World → Option FilePath
  -- `fs::relative(path, base, ec)`, empty when it fails.
  pub relative : FilePath → FilePath → World → FilePath
  -- The paths that `fs::recursive_directory_iterator` goes through, with links to directories
  -- followed or not, `none` when its `operator++` throws on the way.
  pub walk_directory : Bool → FilePath → World → Option (List FilePath)
  pub create_directories : FilePath → World → World
  -- `std::ofstream os(path, binary | trunc)`: the stream, if it opened.
  pub open_trunc : FilePath → World → Option ℕ × World
  -- The end of the stream's life, which flushes and closes it, and whether the flush succeeded.
  pub close_stream : ℕ → World → Bool × World
  -- `os.write(data, n)`, and whether the stream is good after it.
  pub write : ℕ → List ℕ → World → Bool × World
