-- ===== src/Sender/Source/Tidy.antt =====
-- The files that src/transfer/sender.cpp opens for reading, and the descriptors that are open.
use xfer.Base.{ℕ, zero, suc, ◌+◌, ◌%◌, ◌^◌, ◌≡◌, ap, sym, ◌∙◌, Bool, false, List, [], ◌∷◌, length}
use xfer.Crc.{Crc32, init, update, final}
use xfer.Os.{Os, FilePath, Reply, done, failed}
use xfer.Os.Sockets.{Table, IsNewFd, with_fd}
use xfer.Os.Tidy.{
  IsTidy, HasOpen, LeavesOpen, KeepsOpen, KeepsOpen-pure, KeepsOpen-throw, KeepsOpen-fail,
  KeepsOpen-stuck, KeepsOpen-gets, KeepsOpen-call, KeepsOpen-bind, KeepsOpen-if, KeepsOpen-nat,
  KeepsOpen-list, KeepsOpen-reply,
}
use xfer.Os.Action.{
  Action, State, Outcome, returns, fails, stuck, pure, throw, call, gets, after, ◌>>=◌, io_error,
  no_such_file_or_directory,
}
use xfer.FsPath.{is_empty}
use xfer.Wire.{FileEntry}
use xfer.Net.{Socket, size_sub, send_all, send_from_fd}
use xfer.Net.Tidy.{send_all-KeepsOpen, send_from_fd-KeepsOpen}
use xfer.Sender.Source.{
  resolve, resolve_on_disk, open_for_read, crc_loop, crc_of_fd, next_read, zero_copy_loop,
  read_send_loop, send_file_bytes,
}

module _ (os : Os) (opened streams : os.World → Table) (tidy : IsTidy os opened streams)
    (fds files : Table) where
  abbrev Keeps : {A : Type 0} → Action os.World A → Type 0
  Keeps = KeepsOpen os opened streams fds files

  pub resolve_on_disk-KeepsOpen :
      (paths : List FilePath) (entry : FileEntry) → Keeps (resolve_on_disk os paths entry)
  unfolding resolve_on_disk
  resolve_on_disk-KeepsOpen paths entry =
      KeepsOpen-bind (gets (resolve os paths entry)) _ (KeepsOpen-gets (resolve os paths entry))
        λ on_disk.
          KeepsOpen-if (is_empty on_disk) _ _ (KeepsOpen-throw _ no_such_file_or_directory)
            (KeepsOpen-pure on_disk)

  -- What is done with a file is done with its descriptor open besides the others.
  pub open_for_read-KeepsOpen :
      {A : Type 0} (path : FilePath) (f : ℕ → Action os.World A)
      → ((h : ℕ) (s : State os.World)
          → fds h ≡ false
          → HasOpen os opened streams (with_fd h fds) files s.world
          → LeavesOpen os opened streams fds files (f h s))
      → Keeps (open_for_read os path >>= f)
  unfolding open_for_read
  open_for_read-KeepsOpen path f used = record {
    leaves = λ s h.
        answered s h (os.open_read path s.world) (tidy.open_read_lem path s.world)
          (tidy.open_read_streams path s.world);
  }
    where
      answer : Reply ℕ → Action os.World ℕ
      answer reply = elim reply [ failed e ↦ throw no_such_file_or_directory | done h ↦ pure h ]

      answered :
          (s : State os.World)
          → HasOpen os opened streams fds files s.world
          → (r : Reply ℕ × os.World) → IsNewFd opened s.world r
          → streams r.1 ≡ streams s.world
          → LeavesOpen os opened streams fds files (after (answer r.0 (record s { world = r.1 })) f)
      answered s (h, h') (failed e, w) same streams_same = (same ∙ h, streams_same ∙ h')
      answered s (h, h') (done k, w) (new, more) streams_same =
          used k (record s { world = w }) (ap (λ (t : Table). t k) (sym h) ∙ new)
            (more ∙ ap (with_fd k) h, streams_same ∙ h')

  -- The call returns, with just these open.
  abbrev pub GivesOpen : {A : Type 0} → Outcome os.World A → Type 0
  GivesOpen (returns a t) = HasOpen os opened streams fds files t.world
  GivesOpen (fails t) = ⊥
  GivesOpen stuck = Unit {0}

  crc_loop-GivesOpen :
      (h fuel remaining offset : ℕ) (crc : Crc32) (s : State os.World)
      → HasOpen os opened streams fds files s.world
      → GivesOpen (crc_loop os h fuel remaining offset crc s)
  unfolding crc_loop
  crc_loop-GivesOpen h fuel zero offset crc s open_now = open_now
  crc_loop-GivesOpen h zero (suc n) offset crc s open_now = tt
  crc_loop-GivesOpen h (suc fuel) (suc n) offset crc s (fine, fine') =
      answered (os.pread h (next_read (suc n)) offset s.world)
        (
          (tidy.pread_lem h (next_read (suc n)) offset s.world).0 ∙ fine,
          (tidy.pread_lem h (next_read (suc n)) offset s.world).1 ∙ fine',
        )
        (λ k o c t. crc_loop-GivesOpen h fuel k o c t)
    where
      answer : Reply (List ℕ) → Action os.World ℕ
      answer reply = elim reply [
        | failed e ↦ λ s. returns 0 (record s { ec = io_error })
        | done [] ↦ pure (final crc)
        | done (b ∷ bytes) ↦
            crc_loop os h fuel (size_sub (suc n) (length (b ∷ bytes)))
              ((offset + length (b ∷ bytes)) % 2 ^ 64) (update crc (b ∷ bytes))
      ]

      answered :
          (r : Reply (List ℕ) × os.World)
          → HasOpen os opened streams fds files r.1
          → ((k o : ℕ) (c : Crc32) (t : State os.World)
              → HasOpen os opened streams fds files t.world
              → GivesOpen (crc_loop os h fuel k o c t))
          → GivesOpen (answer r.0 (record s { world = r.1 }))
      answered (failed e, w) open_now again = open_now
      answered (done [], w) open_now again = open_now
      answered (done (b ∷ bytes), w) open_now again = again _ _ _ (record s { world = w }) open_now

  pub crc_of_fd-GivesOpen :
      (h size : ℕ) (s : State os.World)
      → HasOpen os opened streams fds files s.world
      → GivesOpen (crc_of_fd os h size s)
  unfolding crc_of_fd
  crc_of_fd-GivesOpen h size s open_now = crc_loop-GivesOpen h size size 0 init s open_now

  module _ (sock : Socket) (h : ℕ) where
    zero_copy_loop-KeepsOpen :
        (rounds fuel remaining offset : ℕ)
        → Keeps (zero_copy_loop os sock h rounds fuel remaining offset)
    unfolding zero_copy_loop
    zero_copy_loop-KeepsOpen rounds fuel zero offset = KeepsOpen-pure tt
    zero_copy_loop-KeepsOpen rounds zero (suc n) offset = KeepsOpen-stuck _
    zero_copy_loop-KeepsOpen rounds (suc fuel) (suc n) offset =
        KeepsOpen-bind (send_from_fd os sock h rounds offset (suc n)) _
          (send_from_fd-KeepsOpen os opened streams tidy fds files sock h rounds offset (suc n))
          λ offset'.
            KeepsOpen-nat (size_sub offset' offset) _ _ (KeepsOpen-throw _ io_error)
              λ m. zero_copy_loop-KeepsOpen rounds fuel (size_sub (suc n) (suc m)) offset'

    read_send_loop-KeepsOpen :
        (fuel remaining offset : ℕ) → Keeps (read_send_loop os sock h fuel remaining offset)
    unfolding read_send_loop
    read_send_loop-KeepsOpen fuel zero offset = KeepsOpen-pure tt
    read_send_loop-KeepsOpen zero (suc n) offset = KeepsOpen-stuck _
    read_send_loop-KeepsOpen (suc fuel) (suc n) offset =
        KeepsOpen-bind (call (os.pread h (next_read (suc n)) offset)) _
          (KeepsOpen-call (os.pread h (next_read (suc n)) offset)
            (tidy.pread_lem h (next_read (suc n)) offset))
          λ reply.
            KeepsOpen-reply reply _ _ (λ e. KeepsOpen-throw _ io_error)
              λ bytes. KeepsOpen-list bytes _ _ (KeepsOpen-fail _) λ b more.
                KeepsOpen-bind (send_all os sock (b ∷ more)) _
                  (send_all-KeepsOpen os opened streams tidy fds files sock (b ∷ more))
                  λ _.
                    read_send_loop-KeepsOpen fuel (size_sub (suc n) (length (b ∷ more)))
                      ((offset + length (b ∷ more)) % 2 ^ 64)

    pub send_file_bytes-KeepsOpen :
        (rounds size : ℕ) (zero_copy : Bool)
        → Keeps (send_file_bytes os sock h rounds size zero_copy)
    unfolding send_file_bytes
    send_file_bytes-KeepsOpen rounds size zero_copy =
        KeepsOpen-if zero_copy _ _ (zero_copy_loop-KeepsOpen rounds size size 0)
          (read_send_loop-KeepsOpen size size 0)
