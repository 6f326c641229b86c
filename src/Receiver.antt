-- ===== src/Receiver.antt =====
-- src/transfer/receiver.h and src/transfer/receiver.cpp: the receiving side of a session. Log lines
-- and the progress bar, which only print, are left out, and so is the time that a session took.
pub mod Payload
pub mod Containment
pub mod Confined
pub mod Success
pub mod Items
pub mod Tidy
pub mod Session
mod Examples
use mathlib.Core.Bool.{◌||◌}
use xfer.Base.{
  ℕ, zero, suc, ◌+◌, ◌-◌, ◌%◌, ◌^◌, Bool, true, false, not, ◌&&◌, List, [], ◌∷◌, ◌++◌, Option, none,
  some, ltb, ◌==◌, bytes_eq, if◌then◌else◌,
}
use xfer.Crc.{Crc32, init, update, final}
use xfer.Os.{Os, FilePath}
use xfer.Os.Action.{
  Action, State, Outcome, returns, fails, stuck, pure, ◌>>=◌, ◌>>◌, throw, attempt, gets, modify,
  call,
}
use xfer.Os.Action.{
  after, invalid_argument, permission_denied, io_error, bad_message, not_a_directory,
}
use xfer.FsPath.{slash, is_absolute, is_empty, join, components, has_parent_path, parent_path}
use xfer.Net.{Socket, recv_all}
use xfer.Wire.{
  SessionHeader, FileEntry, read_session_header, write_ack, read_file_header, read_done,
}

pub record ReceiverOptions : Type 0 where
  pub output_dir : FilePath
  pub create_dir : Bool
  pub verify_crc : Bool

pub record ReceiverSummary : Type 0 where
  pub total_files : ℕ
  pub total_bytes : ℕ
  pub written_paths : List FilePath

-- `ReceiverSummary summary;`
abbrev pub no_files : ReceiverSummary
no_files = record { total_files = 0; total_bytes = 0; written_paths = [] }

-- The test of the loop in `ValidateAndJoin`.
is_unsafe_part : FilePath → Bool
is_unsafe_part part =
    bytes_eq part (b'.' ∷ b'.' ∷ []) || bytes_eq part (slash ∷ []) || bytes_eq part (b'\\' ∷ [])

has_unsafe_part : List FilePath → Bool
has_unsafe_part [] = false
has_unsafe_part (part ∷ parts) = is_unsafe_part part || has_unsafe_part parts

-- `static constexpr std::size_t kBufSize = 1 << 20;`
abbrev pub buf_size : ℕ
buf_size = 1048576

-- The size of the next piece.
abbrev pub next_want : ℕ → ℕ
next_want remaining = if ltb remaining buf_size then remaining else buf_size

module _ (os : Os) where
  unfoldable pub validate_and_join : FilePath → FilePath → Action os.World FilePath
  unfolding has_unsafe_part is_unsafe_part
  validate_and_join output_dir rel_path =
      if has_unsafe_part (components rel_path)
      then throw invalid_argument
      else if is_absolute rel_path
      then throw invalid_argument
      else pure (join output_dir rel_path)

  -- `os.write(...); if (!os) ...`
  write_piece : ℕ → List ℕ → Action os.World (Unit {0})
  write_piece stream bytes = do
    good ← call (os.write stream bytes)
    if good then pure tt else throw io_error

  -- The loop of `ReceivePayloadToFile`. Each round takes one byte at least off `remaining`.
  pub payload_loop : Socket → ℕ → ℕ → ℕ → Crc32 → Action os.World Crc32
  payload_loop sock stream fuel zero crc = pure crc
  payload_loop sock stream zero (suc remaining) crc = λ s. stuck
  payload_loop sock stream (suc fuel) (suc remaining) crc =
      let want = next_want (suc remaining) in
      recv_all os sock want >>= λ bytes.
      write_piece stream bytes
      >> payload_loop sock stream fuel (suc remaining - want) (update crc bytes)

  -- The last test of `ReceivePayloadToFile`.
  check_crc : ℕ → ℕ → Action os.World ℕ
  check_crc expected_crc actual_crc =
      if not (expected_crc == 0) && not (actual_crc == expected_crc)
      then throw bad_message
      else pure actual_crc

  -- `std::ofstream os` is closed on every way out.
  closing : {A : Type 0} → ℕ → Outcome os.World A → Outcome os.World A
  closing stream (returns a t) = returns a (record t { world = (os.close_stream stream t.world).1 })
  closing stream (fails t) = fails (record t { world = (os.close_stream stream t.world).1 })
  closing stream stuck = stuck

  receive_payload : Socket → ℕ → ℕ → ℕ → Action os.World ℕ
  receive_payload sock stream size expected_crc s =
      closing stream
        ((payload_loop sock stream size size init >>= λ crc. check_crc expected_crc (final crc)) s)

  make_parent : FilePath → Action os.World (Unit {0})
  make_parent target =
      if has_parent_path target
      then modify (os.create_directories (parent_path target))
      else pure tt

  -- `if (!os) ...`, and the rest of `ReceivePayloadToFile`.
  fill_file : Socket → ℕ → ℕ → Option ℕ → Action os.World ℕ
  fill_file sock size expected_crc none = throw permission_denied
  fill_file sock size expected_crc (some stream) = receive_payload sock stream size expected_crc

  unfoldable pub receive_payload_to_file : Socket → FilePath → ℕ → ℕ → Action os.World ℕ
  unfolding fill_file receive_payload make_parent payload_loop write_piece check_crc closing
  receive_payload_to_file sock target size expected_crc = do
    make_parent target
    opened ← call (os.open_trunc target)
    fill_file sock size expected_crc opened

  -- The body of the loop of `ReceiveStream`, from `ValidateAndJoin` on.
  receive_entry :
      Socket → FilePath → Bool → ReceiverSummary → FileEntry → Action os.World ReceiverSummary
  receive_entry sock output_dir verify_crc summary entry =
      if is_empty entry.rel_path
      then pure summary
      else validate_and_join output_dir entry.rel_path >>= λ safe.
          receive_payload_to_file sock safe entry.size (if verify_crc then entry.crc32 else 0)
          >>= λ _. pure (record {
            total_files = (summary.total_files + 1) % 2 ^ 64;
            total_bytes = (summary.total_bytes + entry.size) % 2 ^ 64;
            written_paths = summary.written_paths ++ (safe ∷ []);
          })

  -- The loop of `ReceiveStream` with `n` records to come.
  pub receive_records :
      Socket → FilePath → Bool → ℕ → ReceiverSummary → Action os.World ReceiverSummary
  receive_records sock output_dir verify_crc zero summary = pure summary
  receive_records sock output_dir verify_crc (suc n) summary = read_file_header os sock >>= λ entry.
      receive_entry sock output_dir verify_crc summary entry >>= λ summary'.
      receive_records sock output_dir verify_crc n summary'

  -- `fs::current_path()`, with an exception that nothing catches.
  current_dir : Action os.World FilePath
  current_dir s = elim (os.current_path s.world) [ none ↦ stuck | some path ↦ returns path s ]

  -- `options.output_dir`, or the current directory.
  choose_dir : ReceiverOptions → Action os.World FilePath
  choose_dir options = if is_empty options.output_dir then current_dir else pure options.output_dir

  -- The test that the output directory is there.
  check_dir : FilePath → Action os.World FilePath
  check_dir output_dir = do
    found ← gets (os.is_directory output_dir)
    if found then pure output_dir else throw not_a_directory

  -- The output directory, made if that is asked for.
  open_output_dir : ReceiverOptions → Action os.World FilePath
  open_output_dir options = do
    output_dir ← choose_dir options
    if options.create_dir then modify (os.create_directories output_dir) else pure tt
    check_dir output_dir

  unfoldable pub receive_stream : Socket → ReceiverOptions → Action os.World ReceiverSummary
  unfolding open_output_dir choose_dir current_dir check_dir receive_records receive_entry
  receive_stream sock options = do
    header ← read_session_header os sock
    write_ack os sock 0
    output_dir ← open_output_dir options
    summary ← receive_records sock output_dir options.verify_crc header.total_files no_files
    trailer ← attempt (read_done os sock)
    pure summary
