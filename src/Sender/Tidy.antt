-- ===== src/Sender/Tidy.antt =====
-- `SendPaths` and `SendFiles` in src/transfer/sender.cpp close every descriptor that they open.
use xfer.Base.{
  ℕ, ◌≡◌, ap, sym, ◌∙◌, Bool, true, false, List, [], ◌∷◌, inl, inr, subst, Option, none, some, ◌==◌,
  if◌then◌else◌,
}
use xfer.Os.{Os, FilePath}
use xfer.Os.Sockets.{Table, with_fd, without_fd, without_fd-with_fd}
use xfer.Os.Tidy.{
  IsTidy, HasOpen, LeavesOpen, KeepsOpen, KeepsOpen-pure, KeepsOpen-fail, KeepsOpen-bind,
  KeepsOpen-if,
}
use xfer.Os.Action.{
  Action, State, Outcome, returns, fails, stuck, pure, attempt, attempted, after, ◌>>=◌,
}
use xfer.Wire.{FileEntry, write_session_header, read_ack, write_file_header}
use xfer.Wire.Tidy.{
  write_session_header-KeepsOpen, read_ack-KeepsOpen, write_file_header-KeepsOpen,
  write_done-KeepsOpen,
}
use xfer.Net.{Socket}
use xfer.Sender.Manifest.{SenderOptions, collect_files}
use xfer.Sender.Manifest.Scan.{CollectEnds, collect_files_lem}
use xfer.Sender.Source.{resolve_on_disk, crc_of_fd, send_file_bytes}
use xfer.Sender.Source.Tidy.{
  GivesOpen, resolve_on_disk-KeepsOpen, open_for_read-KeepsOpen, crc_of_fd-GivesOpen,
  send_file_bytes-KeepsOpen,
}
use xfer.Sender.{
  has_error, session_of, close_fd, check_ec, check_ok, fill_crc, fill_all, fill_missing, send_entry,
  send_entries, send_session, none_left, send_paths, send_files,
}

module _ (os : Os) (opened streams : os.World → Table) (tidy : IsTidy os opened streams)
    (fds files : Table) where
  abbrev Keeps : {A : Type 0} → Action os.World A → Type 0
  Keeps = KeepsOpen os opened streams fds files

  -- A call that returns, and then `CloseFd`.
  close_fd-LeavesOpen :
      {A B : Type 0} (h : ℕ) (r : Outcome os.World A) (f : A → Action os.World B)
      → fds h ≡ false
      → GivesOpen os opened streams tidy (with_fd h fds) files r
      → ((a : A) → Keeps (f a))
      → LeavesOpen os opened streams fds files (after r (λ a. close_fd os h >>= λ _. f a))
  unfolding close_fd
  close_fd-LeavesOpen h (returns a t) f new (open_now, open_now') rest =
      (rest a).leaves (record t { world = os.close h t.world })
        (
          tidy.close_lem h t.world ∙ ap (without_fd h) open_now ∙ without_fd-with_fd fds h new,
          tidy.close_streams h t.world ∙ open_now',
        )
  close_fd-LeavesOpen h (fails t) f new never rest = absurd never
  close_fd-LeavesOpen h stuck f new given rest = tt

  attempted-GivesOpen :
      {A : Type 0} (r : Outcome os.World A)
      → LeavesOpen os opened streams fds files r
      → GivesOpen os opened streams tidy fds files (attempted r)
  attempted-GivesOpen (returns a t) left = left
  attempted-GivesOpen (fails t) left = left
  attempted-GivesOpen stuck left = tt

  check_ec-KeepsOpen : Keeps (check_ec os)
  unfolding check_ec
  check_ec-KeepsOpen = record { leaves = λ s h. by_error s h (has_error s.ec) }
    where
      by_error :
          (s : State os.World)
          → HasOpen os opened streams fds files s.world
          → (b : Bool)
          → LeavesOpen os opened streams fds files (if b then fails s else returns tt s)
      by_error s h true = h
      by_error s h false = h

  check_ok-KeepsOpen : (ok : Option (Unit {0})) → Keeps (check_ok os ok)
  unfolding check_ok
  check_ok-KeepsOpen none = KeepsOpen-fail _
  check_ok-KeepsOpen (some u) = KeepsOpen-pure tt

module _ (os : Os) (opened streams : os.World → Table) (tidy : IsTidy os opened streams)
    (fds files : Table) (paths : List FilePath) where
  abbrev Leaves : {A : Type 0} → Action os.World A → Type 0
  Leaves = KeepsOpen os opened streams fds files

  fill_crc-KeepsOpen : (entry : FileEntry) → Leaves (fill_crc os paths entry)
  unfolding fill_crc
  fill_crc-KeepsOpen entry =
      KeepsOpen-bind (resolve_on_disk os paths entry) _
        (resolve_on_disk-KeepsOpen os opened streams tidy fds files paths entry)
        λ on_disk.
          open_for_read-KeepsOpen os opened streams tidy fds files on_disk _ λ h s new open_now.
            close_fd-LeavesOpen os opened streams tidy fds files h (crc_of_fd os h entry.size s)
              (λ crc. check_ec os >>= λ _. pure (record entry { crc32 = crc })) new
              (crc_of_fd-GivesOpen os opened streams tidy (with_fd h fds) files h entry.size s
                open_now)
              λ crc.
                KeepsOpen-bind (check_ec os) _ (check_ec-KeepsOpen os opened streams tidy fds files)
                  λ _. KeepsOpen-pure _

  fill_all-KeepsOpen : (entries : List FileEntry) → Leaves (fill_all os paths entries)
  unfolding fill_all
  fill_all-KeepsOpen [] = KeepsOpen-pure []
  fill_all-KeepsOpen (e ∷ es) = KeepsOpen-bind (fill_crc os paths e) _ (fill_crc-KeepsOpen e) λ e'.
      KeepsOpen-bind (fill_all os paths es) _ (fill_all-KeepsOpen es)
        λ es'. KeepsOpen-pure (e' ∷ es')

  fill_missing-KeepsOpen : (entries : List FileEntry) → Leaves (fill_missing os paths entries)
  unfolding fill_missing
  fill_missing-KeepsOpen [] = KeepsOpen-pure []
  fill_missing-KeepsOpen (e ∷ es) =
      KeepsOpen-bind (if e.crc32 == 0 then fill_crc os paths e else pure e) _
        (KeepsOpen-if (e.crc32 == 0) _ _ (fill_crc-KeepsOpen e) (KeepsOpen-pure e))
        λ e'.
          KeepsOpen-bind (fill_missing os paths es) _ (fill_missing-KeepsOpen es)
            λ es'. KeepsOpen-pure (e' ∷ es')

  module _ (sock : Socket) (rounds : ℕ) where
    send_entry-KeepsOpen :
        (zero_copy : Bool) (entry : FileEntry)
        → Leaves (send_entry os sock paths rounds zero_copy entry)
    unfolding send_entry
    send_entry-KeepsOpen zero_copy entry =
        KeepsOpen-bind (write_file_header os sock entry) _
          (write_file_header-KeepsOpen os opened streams tidy fds files sock entry)
          λ _.
            KeepsOpen-bind (resolve_on_disk os paths entry) _
              (resolve_on_disk-KeepsOpen os opened streams tidy fds files paths entry)
              λ on_disk.
                open_for_read-KeepsOpen os opened streams tidy fds files on_disk _
                  λ h s new open_now.
                    close_fd-LeavesOpen os opened streams tidy fds files h
                      (attempt (send_file_bytes os sock h rounds entry.size zero_copy) s)
                      (check_ok os) new
                      (attempted-GivesOpen os opened streams tidy (with_fd h fds) files
                        (send_file_bytes os sock h rounds entry.size zero_copy s)
                        ((send_file_bytes-KeepsOpen os opened streams tidy (with_fd h fds) files
                            sock h rounds entry.size zero_copy).leaves
                          s open_now))
                      (check_ok-KeepsOpen os opened streams tidy fds files)

    send_entries-KeepsOpen :
        (zero_copy : Bool) (entries : List FileEntry)
        → Leaves (send_entries os sock paths rounds zero_copy entries)
    unfolding send_entries
    send_entries-KeepsOpen zero_copy [] = KeepsOpen-pure tt
    send_entries-KeepsOpen zero_copy (e ∷ es) =
        KeepsOpen-bind (send_entry os sock paths rounds zero_copy e) _
          (send_entry-KeepsOpen zero_copy e) λ _. send_entries-KeepsOpen zero_copy es

    send_session-KeepsOpen :
        (options : SenderOptions) (entries : List FileEntry)
        → Leaves (send_session os sock paths rounds options entries)
    unfolding send_session
    send_session-KeepsOpen options entries =
        KeepsOpen-bind (write_session_header os sock (session_of entries)) _
          (write_session_header-KeepsOpen os opened streams tidy fds files sock
            (session_of entries))
          λ _.
            KeepsOpen-bind (read_ack os sock) _
              (read_ack-KeepsOpen os opened streams tidy fds files sock)
              λ flags.
                KeepsOpen-bind (send_entries os sock paths rounds options.zero_copy entries) _
                  (send_entries-KeepsOpen options.zero_copy entries)
                  λ _. write_done-KeepsOpen os opened streams tidy fds files sock

    collect_files-KeepsOpen : (options : SenderOptions) → Leaves (collect_files os paths options)
    collect_files-KeepsOpen options = record {
      leaves = λ s h.
          collected s h (collect_files os paths options s) (collect_files_lem os options paths s);
    }
      where
        collected :
            (s : State os.World)
            → HasOpen os opened streams fds files s.world
            → (r : Outcome os.World (List FileEntry)) → CollectEnds os options paths s r
            → LeavesOpen os opened streams fds files r
        collected s h (returns manifest t) (inl (_, same, _, _, _)) =
            subst (λ (x : State os.World). HasOpen os opened streams fds files x.world) (sym same) h
        collected s h (returns manifest t) (inr (_, _, same)) =
            subst (λ (x : State os.World). HasOpen os opened streams fds files x.world) (sym same) h
        collected s h (fails t) never = absurd never
        collected s h stuck threw = tt

    -- `SendPaths` leaves just those descriptors and streams open that were open before, whatever fails.
    pub send_paths-KeepsOpen :
        (options : SenderOptions) → Leaves (send_paths os sock paths rounds options)
    unfolding send_paths
    send_paths-KeepsOpen options =
        KeepsOpen-bind (collect_files os paths options) _ (collect_files-KeepsOpen options)
          λ manifest. KeepsOpen-if (none_left os manifest) _ _ (KeepsOpen-pure tt) (
            KeepsOpen-bind (fill_all os paths manifest) _ (fill_all-KeepsOpen manifest)
              (send_session-KeepsOpen options))

    -- The same of `SendFiles`.
    pub send_files-KeepsOpen :
        (manifest : List FileEntry) (options : SenderOptions)
        → Leaves (send_files os sock paths manifest rounds options)
    unfolding send_files
    send_files-KeepsOpen manifest options =
        KeepsOpen-if (none_left os manifest) _ _ (KeepsOpen-pure tt) (
          KeepsOpen-bind (fill_missing os paths manifest) _ (fill_missing-KeepsOpen manifest)
            (send_session-KeepsOpen options))
