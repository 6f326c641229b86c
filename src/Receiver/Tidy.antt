-- ===== src/Receiver/Tidy.antt =====
-- `ReceiveStream` in src/transfer/receiver.cpp closes every stream that it opens.
use xfer.Base.{
  ℕ, zero, suc, ◌-◌, ◌≡◌, ap, sym, ◌∙◌, Bool, false, not, ◌&&◌, List, Option, none, some, ◌==◌,
  if◌then◌else◌,
}
use xfer.Crc.{Crc32, init, update, final}
use xfer.Os.{Os, FilePath}
use xfer.Os.Sockets.{Table, with_fd, without_fd, without_fd-with_fd}
use xfer.Os.Tidy.{
  IsTidy, IsNewStream, HasOpen, LeavesOpen, KeepsOpen, KeepsOpen-pure, KeepsOpen-throw,
  KeepsOpen-stuck, KeepsOpen-gets, KeepsOpen-call, KeepsOpen-modify, KeepsOpen-bind, KeepsOpen-if,
  KeepsOpen-attempt,
}
use xfer.Os.Action.{
  Action, State, Outcome, returns, fails, stuck, pure, call, gets, modify, attempt, ◌>>=◌,
  invalid_argument, io_error, bad_message, not_a_directory,
}
use xfer.FsPath.{is_empty, is_absolute, components, has_parent_path, parent_path}
use xfer.Net.{Socket, recv_all}
use xfer.Net.Tidy.{recv_all-KeepsOpen}
use xfer.Wire.{FileEntry, read_session_header, write_ack, read_file_header, read_done}
use xfer.Wire.Tidy.{
  read_session_header-KeepsOpen, write_ack-KeepsOpen, read_file_header-KeepsOpen,
  read_done-KeepsOpen,
}
use xfer.Receiver.{
  ReceiverOptions, ReceiverSummary, no_files, has_unsafe_part, next_want, validate_and_join,
  write_piece, payload_loop, check_crc, closing, make_parent, fill_file, receive_payload_to_file,
  receive_entry, receive_records, choose_dir, current_dir, check_dir, open_output_dir,
  receive_stream,
}

module _ (os : Os) (opened streams : os.World → Table) (tidy : IsTidy os opened streams)
    (fds files : Table) (sock : Socket) where
  abbrev Keeps : {A : Type 0} → Action os.World A → Type 0
  Keeps = KeepsOpen os opened streams fds files

  write_piece-KeepsOpen : (stream : ℕ) (bytes : List ℕ) → Keeps (write_piece os stream bytes)
  unfolding write_piece
  write_piece-KeepsOpen stream bytes =
      KeepsOpen-bind (call (os.write stream bytes)) _
        (KeepsOpen-call (os.write stream bytes) (tidy.write_lem stream bytes))
        λ good. KeepsOpen-if good _ _ (KeepsOpen-pure tt) (KeepsOpen-throw _ io_error)

  payload_loop-KeepsOpen :
      (stream fuel remaining : ℕ) (crc : Crc32)
      → Keeps (payload_loop os sock stream fuel remaining crc)
  unfolding payload_loop
  payload_loop-KeepsOpen stream fuel zero crc = KeepsOpen-pure crc
  payload_loop-KeepsOpen stream zero (suc n) crc = KeepsOpen-stuck _
  payload_loop-KeepsOpen stream (suc fuel) (suc n) crc =
      KeepsOpen-bind (recv_all os sock (next_want (suc n))) _
        (recv_all-KeepsOpen os opened streams tidy fds files sock (next_want (suc n)))
        λ bytes.
          KeepsOpen-bind (write_piece os stream bytes) _ (write_piece-KeepsOpen stream bytes)
            λ _. payload_loop-KeepsOpen stream fuel (suc n - next_want (suc n)) (update crc bytes)

  -- The loop and the test of the checksum.
  transferred-KeepsOpen :
      (stream size expected : ℕ)
      → Keeps
          (payload_loop os sock stream size size init >>= λ crc. check_crc os expected (final crc))
  unfolding check_crc
  transferred-KeepsOpen stream size expected =
      KeepsOpen-bind (payload_loop os sock stream size size init) _
        (payload_loop-KeepsOpen stream size size init)
        λ crc.
          KeepsOpen-if (not (expected == 0) && not (final crc == expected)) _ _
            (KeepsOpen-throw _ bad_message) (KeepsOpen-pure _)

  make_parent-KeepsOpen : (target : FilePath) → Keeps (make_parent os target)
  unfolding make_parent
  make_parent-KeepsOpen target =
      KeepsOpen-if (has_parent_path target) _ _
        (KeepsOpen-modify (os.create_directories (parent_path target))
          (tidy.create_directories_lem (parent_path target)))
        (KeepsOpen-pure tt)

module _ (os : Os) (opened streams : os.World → Table) (tidy : IsTidy os opened streams)
    (fds files : Table) (sock : Socket) where
  abbrev Keeps' : {A : Type 0} → Action os.World A → Type 0
  Keeps' = KeepsOpen os opened streams fds files

  -- The stream is closed on every way out of the loop.
  closing-LeavesOpen :
      {A : Type 0} (stream : ℕ) (r : Outcome os.World A)
      → files stream ≡ false
      → LeavesOpen os opened streams fds (with_fd stream files) r
      → LeavesOpen os opened streams fds files (closing os stream r)
  unfolding closing
  closing-LeavesOpen stream (returns a t) new (h, h') = (
    tidy.close_stream_fds stream t.world ∙ h,
    tidy.close_stream_lem stream t.world
        ∙ ap (without_fd stream) h'
        ∙ without_fd-with_fd files stream new,
  )
  closing-LeavesOpen stream (fails t) new (h, h') = (
    tidy.close_stream_fds stream t.world ∙ h,
    tidy.close_stream_lem stream t.world
        ∙ ap (without_fd stream) h'
        ∙ without_fd-with_fd files stream new,
  )
  closing-LeavesOpen stream stuck new h = tt

  receive_payload_to_file-KeepsOpen :
      (target : FilePath) (size expected : ℕ)
      → Keeps' (receive_payload_to_file os sock target size expected)
  unfolding receive_payload_to_file
  receive_payload_to_file-KeepsOpen target size expected =
      KeepsOpen-bind (make_parent os target) _
        (make_parent-KeepsOpen os opened streams tidy fds files sock target)
        λ _. record {
          leaves = λ s h.
              filled s h (os.open_trunc target s.world) (tidy.open_trunc_lem target s.world)
                (tidy.open_trunc_fds target s.world);
        }
    where
      filled :
          (s : State os.World)
          → HasOpen os opened streams fds files s.world
          → (r : Option ℕ × os.World) → IsNewStream os opened streams s.world r
          → opened r.1 ≡ opened s.world
          → LeavesOpen os opened streams fds files
              (fill_file os sock size expected r.0 (record s { world = r.1 }))
      filled s (h, h') (none, w) same fds_same = (fds_same ∙ h, same ∙ h')
      filled s (h, h') (some stream, w) (new, more) fds_same =
          let free = ap (λ (t : Table). t stream) (sym h') ∙ new in
          closing-LeavesOpen stream _ free (
            (transferred-KeepsOpen os opened streams tidy fds (with_fd stream files) sock stream
                size expected).leaves
              (record s { world = w }) (fds_same ∙ h, more ∙ ap (with_fd stream) h'))

  receive_entry-KeepsOpen :
      (out : FilePath) (verify : Bool) (summary : ReceiverSummary) (entry : FileEntry)
      → Keeps' (receive_entry os sock out verify summary entry)
  unfolding receive_entry validate_and_join
  receive_entry-KeepsOpen out verify summary entry =
      KeepsOpen-if (is_empty entry.rel_path) _ _ (KeepsOpen-pure summary) (
        KeepsOpen-bind (validate_and_join os out entry.rel_path) _
          (KeepsOpen-if (has_unsafe_part (components entry.rel_path)) _ _
            (KeepsOpen-throw _ invalid_argument)
            (KeepsOpen-if (is_absolute entry.rel_path) _ _ (KeepsOpen-throw _ invalid_argument)
              (KeepsOpen-pure _)))
          λ safe.
            KeepsOpen-bind
              (receive_payload_to_file os sock safe entry.size (if verify then entry.crc32 else 0))
              _
              (receive_payload_to_file-KeepsOpen safe entry.size
                (if verify then entry.crc32 else 0))
              λ crc. KeepsOpen-pure _)

  receive_records-KeepsOpen :
      (out : FilePath) (verify : Bool) (n : ℕ) (summary : ReceiverSummary)
      → Keeps' (receive_records os sock out verify n summary)
  unfolding receive_records
  receive_records-KeepsOpen out verify zero summary = KeepsOpen-pure summary
  receive_records-KeepsOpen out verify (suc n) summary =
      KeepsOpen-bind (read_file_header os sock) _
        (read_file_header-KeepsOpen os opened streams tidy fds files sock)
        λ entry.
          KeepsOpen-bind (receive_entry os sock out verify summary entry) _
            (receive_entry-KeepsOpen out verify summary entry)
            λ summary'. receive_records-KeepsOpen out verify n summary'

  current_dir-KeepsOpen : Keeps' (current_dir os)
  unfolding current_dir
  current_dir-KeepsOpen = record { leaves = λ s h. by_path s h (os.current_path s.world) }
    where
      by_path :
          (s : State os.World)
          → HasOpen os opened streams fds files s.world
          → (path : Option FilePath)
          → LeavesOpen os opened streams fds files
              (elim path [ none ↦ stuck | some p ↦ returns p s ])
      by_path s h none = tt
      by_path s h (some p) = h

  open_output_dir-KeepsOpen : (options : ReceiverOptions) → Keeps' (open_output_dir os options)
  unfolding open_output_dir check_dir choose_dir
  open_output_dir-KeepsOpen options =
      KeepsOpen-bind (choose_dir os options) _
        (KeepsOpen-if (is_empty options.output_dir) _ _ current_dir-KeepsOpen (KeepsOpen-pure _))
        λ out.
          KeepsOpen-bind
            (if options.create_dir then modify (os.create_directories out) else pure tt) _
            (KeepsOpen-if options.create_dir _ _
              (KeepsOpen-modify (os.create_directories out) (tidy.create_directories_lem out))
              (KeepsOpen-pure tt))
            λ _.
              KeepsOpen-bind (gets (os.is_directory out)) _ (KeepsOpen-gets (os.is_directory out))
                λ found.
                  KeepsOpen-if found _ _ (KeepsOpen-pure out) (KeepsOpen-throw _ not_a_directory)

  -- `ReceiveStream` leaves just those descriptors and streams open that were open before, whatever comes
  -- in and whatever fails.
  pub receive_stream-KeepsOpen :
      (options : ReceiverOptions) → Keeps' (receive_stream os sock options)
  unfolding receive_stream
  receive_stream-KeepsOpen options =
      KeepsOpen-bind (read_session_header os sock) _
        (read_session_header-KeepsOpen os opened streams tidy fds files sock)
        λ header.
          KeepsOpen-bind (write_ack os sock 0) _
            (write_ack-KeepsOpen os opened streams tidy fds files sock 0)
            λ _.
              KeepsOpen-bind (open_output_dir os options) _ (open_output_dir-KeepsOpen options)
                λ out.
                  KeepsOpen-bind
                    (receive_records os sock out options.verify_crc header.total_files no_files) _
                    (receive_records-KeepsOpen out options.verify_crc header.total_files no_files)
                    λ summary.
                      KeepsOpen-bind (attempt (read_done os sock)) _
                        (KeepsOpen-attempt (read_done os sock)
                          (read_done-KeepsOpen os opened streams tidy fds files sock))
                        λ trailer. KeepsOpen-pure summary
