-- ===== src/Sender.antt =====
-- src/transfer/sender.h and src/transfer/sender.cpp: the sending side of a session. Log lines and the
-- progress bar, which only print, are left out. The branches are those of Linux.
pub mod Manifest
pub mod Source
pub mod Found
pub mod Session
pub mod Filling
pub mod Missing
pub mod Halting
pub mod Tidy
mod Examples
use xfer.Base.{ℕ, zero, suc, ◌+◌, ◌%◌, ◌^◌, Bool, true, false, not, ◌&&◌, Option, none, some}
use xfer.Base.{List, [], ◌∷◌, ◌++◌, length, ltb, ◌==◌, bytes_eq, if◌then◌else◌}
use xfer.Crc.{Crc32, init, update, final}
use xfer.Os.{Os, FilePath, Reply, done, failed}
use xfer.Os.Action.{
  Action, State, Outcome, returns, fails, stuck, pure, ◌>>=◌, ◌>>◌, throw, fail, attempt,
}
use xfer.Os.Action.{
  gets, modify, call, after, ErrorCode, no_error, io_error, no_such_file_or_directory,
}
use xfer.FsPath.{is_empty, join, filename, parent_path}
use xfer.Net.{Socket, send_all, send_from_fd, size_sub}
use xfer.Wire.{
  SessionHeader, FileEntry, proto_version, flag_crc32, write_session_header, read_ack,
  write_file_header, write_done,
}
use xfer.Sender.Manifest.{SenderOptions, collect_files}
use xfer.Sender.Source.{resolve_on_disk, open_for_read, crc_of_fd, send_file_bytes}

-- `if (ec)`
pub has_error : ErrorCode → Bool
has_error no_error = false
has_error _ = true

-- `for (const auto& e : manifest) total_bytes += e.size;`
unfoldable pub sum_sizes : ℕ → List FileEntry → ℕ
sum_sizes total [] = total
sum_sizes total (e ∷ es) = sum_sizes ((total + e.size) % 2 ^ 64) es

-- The header of a session with these entries.
unfoldable pub session_of : List FileEntry → SessionHeader
session_of entries = record {
  version = proto_version;
  flags = flag_crc32;
  total_files = length entries;
  total_bytes = sum_sizes 0 entries;
}

module _ (os : Os) where
  -- `CloseFd(fd)`
  pub close_fd : ℕ → Action os.World (Unit {0})
  close_fd fd = modify (os.close fd)

  -- `if (ec) return false;`
  pub check_ec : Action os.World (Unit {0})
  check_ec s = if has_error s.ec then fails s else returns tt s

  -- The checksum of an entry is filled in from its file.
  pub fill_crc : List FilePath → FileEntry → Action os.World FileEntry
  fill_crc paths entry = do
    on_disk ← resolve_on_disk os paths entry
    fd ← open_for_read os on_disk
    crc ← crc_of_fd os fd entry.size
    close_fd fd
    check_ec
    pure (record entry { crc32 = crc })

  -- The first loop of `SendPaths`.
  pub fill_all : List FilePath → List FileEntry → Action os.World (List FileEntry)
  fill_all paths [] = pure []
  fill_all paths (e ∷ es) = do e' ← fill_crc paths e; es' ← fill_all paths es; pure (e' ∷ es')

  -- The first loop of `SendFiles`, which fills in only what is missing.
  pub fill_missing : List FilePath → List FileEntry → Action os.World (List FileEntry)
  fill_missing paths [] = pure []
  fill_missing paths (e ∷ es) = (if e.crc32 == 0 then fill_crc paths e else pure e) >>= λ e'.
      fill_missing paths es >>= λ es'. pure (e' ∷ es')

  -- What comes behind `CloseFd(fd)`: `if (!ok) return false;`.
  pub check_ok : Option (Unit {0}) → Action os.World (Unit {0})
  check_ok none = fail
  check_ok (some _) = pure tt

  -- The record and the payload of one entry.
  pub send_entry : Socket → List FilePath → ℕ → Bool → FileEntry → Action os.World (Unit {0})
  send_entry sock paths rounds zero_copy entry = do
    write_file_header os sock entry
    on_disk ← resolve_on_disk os paths entry
    fd ← open_for_read os on_disk
    ok ← attempt (send_file_bytes os sock fd rounds entry.size zero_copy)
    close_fd fd
    check_ok ok

  pub send_entries : Socket → List FilePath → ℕ → Bool → List FileEntry → Action os.World (Unit {0})
  send_entries sock paths rounds zero_copy [] = pure tt
  send_entries sock paths rounds zero_copy (e ∷ es) =
      send_entry sock paths rounds zero_copy e >> send_entries sock paths rounds zero_copy es

  -- The part that `SendPaths` and `SendFiles` have in common.
  unfoldable pub send_session :
      Socket → List FilePath → ℕ → SenderOptions → List FileEntry → Action os.World (Unit {0})
  unfolding send_entries send_entry session_of check_ok close_fd sum_sizes
  send_session sock paths rounds options entries = do
    write_session_header os sock (session_of entries)
    flags ← read_ack os sock
    send_entries sock paths rounds options.zero_copy entries
    write_done os sock

  abbrev none_left : List FileEntry → Bool
  none_left [] = true
  none_left (e ∷ es) = false

  unfoldable pub send_paths :
      Socket → List FilePath → ℕ → SenderOptions → Action os.World (Unit {0})
  unfolding fill_all fill_crc check_ec has_error close_fd
  send_paths sock paths rounds options = collect_files os paths options >>= λ manifest.
      if none_left manifest
      then pure tt
      else fill_all paths manifest >>= send_session sock paths rounds options

  unfoldable pub send_files :
      Socket → List FilePath → List FileEntry → ℕ → SenderOptions → Action os.World (Unit {0})
  unfolding fill_missing fill_crc check_ec has_error close_fd
  send_files sock paths manifest rounds options =
      if none_left manifest
      then pure tt
      else fill_missing paths manifest >>= send_session sock paths rounds options
