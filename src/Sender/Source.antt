-- ===== src/Sender/Source.antt =====
-- The files behind a manifest, in src/transfer/sender.cpp: `ResolveOnDisk`, `OpenForRead`, `CrcOfFd` and
-- `SendFileBytes`, the last two with the branches of Linux.
pub mod Checksum
pub mod Sending
pub mod Steady
pub mod Reading
pub mod Tidy
use xfer.Base.{ℕ, zero, suc, ◌+◌, ◌%◌, ◌^◌, Bool, ◌&&◌}
use xfer.Base.{List, [], ◌∷◌, length, ltb, ◌==◌, if◌then◌else◌}
use xfer.Crc.{Crc32, init, update, final}
use xfer.Os.{Os, FilePath, done, failed}
use xfer.Os.Action.{Action, returns, stuck, pure, ◌>>=◌, ◌>>◌, throw, fail}
use xfer.Os.Action.{gets, call, io_error, no_such_file_or_directory}
use xfer.FsPath.{is_empty, join, parent_path}
use xfer.Net.{Socket, send_all, send_from_fd, size_sub}
use xfer.Wire.{FileEntry}

-- `static constexpr std::size_t kBufSize = 1 << 20;`
abbrev pub read_size : ℕ
read_size = 1048576

abbrev pub next_read : ℕ → ℕ
next_read remaining = if ltb remaining read_size then remaining else read_size

module _ (os : Os) where
  -- `ResolveOnDisk`'s loop over the paths.
  unfoldable pub find_candidate : List FilePath → FileEntry → os.World → FilePath
  find_candidate [] entry w = []
  find_candidate (p ∷ ps) entry w =
      let candidate = join (parent_path p) entry.rel_path in
      if os.is_regular_file candidate w && (os.file_size candidate w == entry.size)
      then candidate
      else find_candidate ps entry w

  -- `ResolveOnDisk` when there is one path, empty where the code goes on to its loop.
  unfoldable pub resolve_single : List FilePath → FileEntry → os.World → FilePath
  resolve_single (base ∷ []) entry w =
      if os.is_directory base w
      then join base entry.rel_path
      else if os.is_regular_file base w
      then base
      else []
  resolve_single [] entry w = []
  resolve_single (base ∷ p ∷ ps) entry w = []

  -- The path that `ResolveOnDisk` returns.
  unfoldable pub resolve : List FilePath → FileEntry → os.World → FilePath
  resolve paths entry w =
      let single = resolve_single paths entry w in
      if is_empty single then find_candidate paths entry w else single

  -- `ResolveOnDisk` and the test of its result.
  unfoldable pub resolve_on_disk : List FilePath → FileEntry → Action os.World FilePath
  resolve_on_disk paths entry = do
    on_disk ← gets (resolve paths entry)
    if is_empty on_disk then throw no_such_file_or_directory else pure on_disk

  -- `OpenForRead`
  unfoldable pub open_for_read : FilePath → Action os.World ℕ
  open_for_read path = do
    reply ← call (os.open_read path)
    elim reply [ failed e ↦ throw no_such_file_or_directory | done fd ↦ pure fd ]

  -- The loop of `CrcOfFd`. A failed `pread` sets `ec` and gives 0.
  pub crc_loop : ℕ → ℕ → ℕ → ℕ → Crc32 → Action os.World ℕ
  crc_loop fd fuel zero offset crc = pure (final crc)
  crc_loop fd zero (suc remaining) offset crc = λ s. stuck
  crc_loop fd (suc fuel) (suc remaining) offset crc = do
    reply ← call (os.pread fd (next_read (suc remaining)) offset)
    elim reply [
      | failed e ↦ λ s. returns 0 (record s { ec = io_error })
      | done [] ↦ pure (final crc)
      | done (b ∷ bytes) ↦
          crc_loop fd fuel (size_sub (suc remaining) (length (b ∷ bytes)))
            ((offset + length (b ∷ bytes)) % 2 ^ 64) (update crc (b ∷ bytes))
    ]

  unfoldable pub crc_of_fd : ℕ → ℕ → Action os.World ℕ
  unfolding crc_loop
  crc_of_fd fd size = crc_loop fd size size 0 init

  -- The loop of `SendFileBytes` with `zero_copy`, around `SendFromFd`.
  pub zero_copy_loop : Socket → ℕ → ℕ → ℕ → ℕ → ℕ → Action os.World (Unit {0})
  zero_copy_loop sock fd rounds fuel zero offset = pure tt
  zero_copy_loop sock fd rounds zero (suc remaining) offset = λ s. stuck
  zero_copy_loop sock fd rounds (suc fuel) (suc remaining) offset = do
    offset' ← send_from_fd os sock fd rounds offset (suc remaining)
    elim (size_sub offset' offset) [
      | zero ↦ throw io_error
      | suc m ↦ zero_copy_loop sock fd rounds fuel (size_sub (suc remaining) (suc m)) offset'
    ]

  -- The other loop of `SendFileBytes`.
  pub read_send_loop : Socket → ℕ → ℕ → ℕ → ℕ → Action os.World (Unit {0})
  read_send_loop sock fd fuel zero offset = pure tt
  read_send_loop sock fd zero (suc remaining) offset = λ s. stuck
  read_send_loop sock fd (suc fuel) (suc remaining) offset = do
    reply ← call (os.pread fd (next_read (suc remaining)) offset)
    elim reply [
      | failed e ↦ throw io_error
      | done [] ↦ fail
      | done (b ∷ bytes) ↦
          send_all os sock (b ∷ bytes)
          >> read_send_loop sock fd fuel (size_sub (suc remaining) (length (b ∷ bytes)))
              ((offset + length (b ∷ bytes)) % 2 ^ 64)
    ]

  -- `SendFileBytes`. `rounds` is how many calls of `sendfile64` there is fuel for.
  unfoldable pub send_file_bytes : Socket → ℕ → ℕ → ℕ → Bool → Action os.World (Unit {0})
  unfolding zero_copy_loop read_send_loop
  send_file_bytes sock fd rounds size zero_copy =
      if zero_copy
      then zero_copy_loop sock fd rounds size size 0
      else read_send_loop sock fd size size 0
