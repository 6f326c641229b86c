-- ===== src/Sender/Halting.antt =====
-- `SendPaths` in src/transfer/sender.cpp comes back.
use xfer.Base.{
  ℕ, ◌^◌, ◌≤◌, ◌<◌, ◌≢◌, arith, Bool, true, false, some, none, Option, List, [], ◌∷◌, All,
  if◌then◌else◌,
}
use xfer.Os.{Os, FilePath, failed}
use xfer.Os.Action.{
  State, Outcome, returns, fails, stuck, Ensures, Ensures-weaken, call, gets, attempt, attempted,
  no_such_file_or_directory,
}
use xfer.Os.Laws.{View, IsConnection, IsSource}
use xfer.Os.Files.{IsReadable}
use xfer.Os.Halting.{
  Halts, AnyResult, Halts-pure, Halts-throw, Halts-fail, Halts-if, Halts-bind, Halts-reply,
  Halts-gets, Halts-call,
}
use xfer.FsPath.{is_empty}
use xfer.Net.{eintr}
use xfer.Net.Transfer.{socket}
use xfer.Wire.{FileEntry, write_session_header, read_ack, write_file_header}
use xfer.Sender.Manifest.{SenderOptions, collect_files}
use xfer.Sender.Manifest.Scan.{none-Throws}
use xfer.Sender.Manifest.Sizes.{IsSized, collect_files-IsSized}
use xfer.Wire.Halting.{
  write_session_header-Halts, read_ack-Halts, write_file_header-Halts, write_done-Halts,
}
use xfer.Sender.Source.{resolve, resolve_on_disk, open_for_read, crc_of_fd, send_file_bytes}
use xfer.Sender.Source.Checksum.{CrcEnds, crc_of_fd_lem}
use xfer.Net.SendFromFd.{IsInterrupted, interrupted_now, interrupted_later}
use xfer.Sender.Source.Sending.{FileEnds, send_file_bytes_lem}
use xfer.Sender.{
  has_error, session_of, close_fd, check_ec, check_ok, fill_crc, fill_all, send_entry, send_entries,
  send_session, none_left, send_paths,
}

module _ (os : Os) (view : os.World → View) (file : FilePath → FilePath) where
  -- What the sender needs to come back, besides the laws: the sizes of files fit their type, there is
  -- fuel for every one of them, iterating a directory does not throw, and no signal interrupts
  -- `sendfile64`.
  pub record CanSend (rounds : ℕ) : Type 0 where
    pub readable : (fd : ℕ) → IsReadable os fd view file
    pub source : IsSource os (λ w. (view w).reads)
    pub sizes : (path : FilePath) (w : os.World) → os.file_size path w < 2 ^ 64
    pub enough : 2 ^ 64 ≤ rounds
    pub walks :
        (follow : Bool) (path : FilePath) (w : os.World) → os.walk_directory follow path w ≢ none
    pub uninterrupted :
        (fd h offset want : ℕ) (w w' : os.World)
        → os.sendfile (some fd) h offset want w ≢ (failed eintr, w')

module _ (os : Os) (view : os.World → View) (file : FilePath → FilePath)
    (conn : (fd : ℕ) → IsConnection os fd view) (rounds : ℕ) (can : CanSend os view file rounds)
    (paths : List FilePath) where
  resolve_on_disk-Halts : (entry : FileEntry) → Halts AnyResult (resolve_on_disk os paths entry)
  unfolding resolve_on_disk
  resolve_on_disk-Halts entry =
      Halts-bind AnyResult AnyResult (gets (resolve os paths entry)) _
        (Halts-gets (resolve os paths entry))
        λ on_disk _.
          Halts-if AnyResult (is_empty on_disk) _ _
            (Halts-throw AnyResult no_such_file_or_directory) (Halts-pure AnyResult on_disk tt)

  open_for_read-Halts : (path : FilePath) → Halts AnyResult (open_for_read os path)
  unfolding open_for_read
  open_for_read-Halts path =
      Halts-bind AnyResult AnyResult (call (os.open_read path)) _ (Halts-call (os.open_read path))
        λ reply _.
          Halts-reply AnyResult reply _ _ (λ e. Halts-throw AnyResult no_such_file_or_directory)
            (λ fd. Halts-pure AnyResult fd tt)

  crc_of_fd-Halts : (fd size : ℕ) → size < 2 ^ 64 → Halts AnyResult (crc_of_fd os fd size)
  crc_of_fd-Halts fd size fits = record {
    halts = λ s.
        by_outcome s (crc_of_fd os fd size s)
          (crc_of_fd_lem os (λ w. (view w).reads) can.source fd size s fits);
  }
    where
      by_outcome :
          (s : State os.World) (r : Outcome os.World ℕ)
          → CrcEnds os (λ w. (view w).reads) fd size s r
          → Ensures (λ _ _. Unit {0}) (λ _. Unit {0}) r
      by_outcome s (returns c t) h = tt
      by_outcome s (fails t) h = tt
      by_outcome s stuck h = h

  check_ec-Halts : Halts AnyResult (check_ec os)
  unfolding check_ec
  check_ec-Halts = record { halts = λ s. by_error s (has_error s.ec) }
    where
      by_error :
          (s : State os.World) (b : Bool)
          → Ensures (λ _ _. Unit {0}) (λ _. Unit {0}) (if b then fails s else returns tt s)
      by_error s true = tt
      by_error s false = tt

  fill_crc-Halts : (entry : FileEntry) → IsSized entry → Halts IsSized (fill_crc os paths entry)
  unfolding fill_crc close_fd
  fill_crc-Halts entry fits =
      Halts-bind IsSized AnyResult (resolve_on_disk os paths entry) _ (resolve_on_disk-Halts entry)
        λ on_disk _.
          Halts-bind IsSized AnyResult (open_for_read os on_disk) _ (open_for_read-Halts on_disk)
            λ fd _.
              Halts-bind IsSized AnyResult (crc_of_fd os fd entry.size) _
                (crc_of_fd-Halts fd entry.size fits)
                λ crc _.
                  Halts-bind IsSized AnyResult (close_fd os fd) _ (record { halts = λ s. tt })
                    λ _ _.
                      Halts-bind IsSized AnyResult (check_ec os) _ check_ec-Halts
                        λ _ _. Halts-pure IsSized (record entry { crc32 = crc }) fits

  fill_all-Halts :
      (entries : List FileEntry)
      → All IsSized entries
      → Halts (All IsSized) (fill_all os paths entries)
  unfolding fill_all
  fill_all-Halts [] fit = Halts-pure (All IsSized) [] tt
  fill_all-Halts (e ∷ es) (fits, fit) =
      Halts-bind (All IsSized) IsSized (fill_crc os paths e) _ (fill_crc-Halts e fits) λ e' fits'.
        Halts-bind (All IsSized) (All IsSized) (fill_all os paths es) _ (fill_all-Halts es fit)
          λ es' fit'. Halts-pure (All IsSized) (e' ∷ es') (fits', fit')

  module _ (fd : ℕ) where
    send_file_bytes-Halts :
        (h size : ℕ) (zero_copy : Bool)
        → size < 2 ^ 64
        → Halts AnyResult (attempt (send_file_bytes os (socket fd) h rounds size zero_copy))
    send_file_bytes-Halts h size zero_copy fits = record {
      halts = λ s. by_outcome s (send_file_bytes os (socket fd) h rounds size zero_copy s) (
          send_file_bytes_lem os fd view file (conn fd) (can.readable fd) can.source h rounds size
            zero_copy s (omega (arith, can.enough)) fits);
    }
      where
        by_outcome :
            (s : State os.World) (r : Outcome os.World (Unit {0}))
            → FileEnds os fd view file
                (conn fd)
                (can.readable fd)
                can.source
                h
                (IsInterrupted os fd view file (conn fd) (can.readable fd) h s.world size 0)
                ((view s.world).reads h)
                size
                s
                r
            → Ensures (λ _ _. Unit {0}) (λ _. Unit {0}) (attempted r)
        by_outcome s (returns c t) h = tt
        by_outcome s (fails t) h = tt
        by_outcome s stuck i = absurd (uninterrupted size 0 s.world i)
          where
            uninterrupted :
                (len off : ℕ) (w : os.World)
                → ¬ IsInterrupted os fd view file (conn fd) (can.readable fd) h w len off
            uninterrupted _ _ _ (interrupted_now n off w w' eq) =
                can.uninterrupted fd h off _ w w' eq
            uninterrupted _ _ _ (interrupted_later n off m w w' eq i) = uninterrupted _ _ w' i

    check_ok-Halts : (ok : Option (Unit {0})) → Halts AnyResult (check_ok os ok)
    unfolding check_ok
    check_ok-Halts none = Halts-fail AnyResult
    check_ok-Halts (some u) = Halts-pure AnyResult tt tt

    send_entries-Halts :
        (zero_copy : Bool) (entries : List FileEntry)
        → All IsSized entries
        → Halts AnyResult (send_entries os (socket fd) paths rounds zero_copy entries)
    unfolding send_entries send_entry close_fd
    send_entries-Halts zero_copy [] fit = Halts-pure AnyResult tt tt
    send_entries-Halts zero_copy (e ∷ es) (fits, fit) =
        Halts-bind AnyResult AnyResult (send_entry os (socket fd) paths rounds zero_copy e) _
          (Halts-bind AnyResult AnyResult (write_file_header os (socket fd) e) _
            (write_file_header-Halts os view file fd (conn fd) e)
            λ _ _.
              Halts-bind AnyResult AnyResult (resolve_on_disk os paths e) _
                (resolve_on_disk-Halts e)
                λ on_disk _.
                  Halts-bind AnyResult AnyResult (open_for_read os on_disk) _
                    (open_for_read-Halts on_disk)
                    λ h _.
                      Halts-bind AnyResult AnyResult
                        (attempt (send_file_bytes os (socket fd) h rounds e.size zero_copy)) _
                        (send_file_bytes-Halts h e.size zero_copy fits)
                        λ ok _.
                          Halts-bind AnyResult AnyResult (close_fd os h) _
                            (record { halts = λ s. tt }) λ _ _. check_ok-Halts ok)
          λ _ _. send_entries-Halts zero_copy es fit

    send_session-Halts :
        (options : SenderOptions) (entries : List FileEntry)
        → All IsSized entries
        → Halts AnyResult (send_session os (socket fd) paths rounds options entries)
    unfolding send_session
    send_session-Halts options entries fit =
        Halts-bind AnyResult AnyResult (write_session_header os (socket fd) (session_of entries)) _
          (write_session_header-Halts os view file fd (conn fd) (session_of entries))
          λ _ _.
            Halts-bind AnyResult AnyResult (read_ack os (socket fd)) _
              (read_ack-Halts os view file fd (conn fd))
              λ flags _.
                Halts-bind AnyResult AnyResult
                  (send_entries os (socket fd) paths rounds options.zero_copy entries) _
                  (send_entries-Halts options.zero_copy entries fit)
                  λ _ _. write_done-Halts os view file fd (conn fd)

    -- `SendPaths` comes back, whatever calls fail.
    pub send_paths-Halts :
        (options : SenderOptions) → Halts AnyResult (send_paths os (socket fd) paths rounds options)
    unfolding send_paths
    send_paths-Halts options =
        Halts-bind AnyResult (All IsSized) (collect_files os paths options) _
          (record {
            halts = λ s.
                Ensures-weaken _ (λ manifest _. All IsSized manifest) (λ _. ⊥) (λ _. Unit {0})
                  (collect_files os paths options s)
                  (collect_files-IsSized os can.sizes options paths s
                    (none-Throws os can.walks options paths s.world))
                  (λ _ _ fit. fit) (λ _ _. tt);
          })
          λ manifest fit.
            Halts-if AnyResult (none_left os manifest) _ _ (Halts-pure AnyResult tt tt) (
              Halts-bind AnyResult (All IsSized) (fill_all os paths manifest) _
                (fill_all-Halts manifest fit) (send_session-Halts options))
