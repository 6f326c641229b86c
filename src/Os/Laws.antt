-- ===== src/Os/Laws.antt =====
-- What the code relies on of the calls, for the connection `fd` of a session.
use xfer.Base.{
  ◌+◌, ℕ, ◌≤◌, ◌<◌, ◌≡◌, ◌≢◌, List, [], ◌∷◌, ◌++◌, length, take, drop, Option, some, none, true,
  false, ◌==◌, bytes_eq, bytes_eq_self, arith, if◌then◌else◌,
}
use mathlib.Core.Path.{fun_ext}
use xfer.Os.{Os, FilePath, done, failed}

-- What can be observed of a world: the bytes that the kernel has taken for the peer, the bytes from
-- the peer that were not received yet, and the contents of the files.
pub record View : Type 0 where
  pub sent : List ℕ
  pub incoming : List ℕ
  -- The contents once all that was written to streams is flushed.
  pub disk : FilePath → Option (List ℕ)
  -- The file that an output stream belongs to.
  pub stream_file : ℕ → Option FilePath
  -- The bytes of the file that is open for reading as a descriptor.
  pub reads : ℕ → List ℕ

module _ (os : Os) (fd : ℕ) (view : os.World → View) where
  -- SIGPIPE is ignored. `send` takes a prefix of the data, in order. `recv` hands out a prefix of what comes in, and
  -- nothing only at its end. A call that fails does neither.
  pub record IsConnection : Type 0 where
    pub ignored : os.ignores_sigpipe ≡ true
    pub send_done :
        (data_sent : List ℕ) (w : os.World) (n : ℕ) (w' : os.World)
        → os.send (some fd) data_sent w ≡ (done n, w')
        → (n ≤ length data_sent)
          × (view w' ≡ record (view w) { sent = (view w).sent ++ take n data_sent })
    pub send_failed :
        (data_sent : List ℕ) (w : os.World) (e : ℕ) (w' : os.World)
        → os.send (some fd) data_sent w ≡ (failed e, w')
        → view w' ≡ view w
    pub recv_done :
        (len : ℕ) (w : os.World) (bytes : List ℕ) (w' : os.World)
        → os.recv (some fd) len w ≡ (done bytes, w')
        → (length bytes ≤ len)
          × ((view w).incoming ≡ bytes ++ (view w').incoming)
          × (view w' ≡ record (view w) { incoming = (view w').incoming })
    pub recv_end :
        (len : ℕ) (w w' : os.World)
        → os.recv (some fd) len w ≡ (done [], w')
        → 0 < len
        → (view w).incoming ≡ []
    pub recv_failed :
        (len : ℕ) (w : os.World) (e : ℕ) (w' : os.World)
        → os.recv (some fd) len w ≡ (failed e, w')
        → view w' ≡ view w

  -- A connection that does not break: no call on it fails, and `send` takes something.
  pub record IsReliable : Type 0 where
    pub send_takes :
        (byte : ℕ) (bytes : List ℕ) (w : os.World)
        → (n : ℕ) × (w' : os.World) × (os.send (some fd) (byte ∷ bytes) w ≡ (done n, w')) × (0 < n)
    pub send_succeeds :
        (bytes : List ℕ) (w : os.World) (e : ℕ) (w' : os.World)
        → os.send (some fd) bytes w ≢ (failed e, w')
    pub recv_takes :
        (len : ℕ) (w : os.World)
        → (bytes : List ℕ) × (w' : os.World) × (os.recv (some fd) len w ≡ (done bytes, w'))

-- A map at one more file.
abbrev pub store : (FilePath → Option (List ℕ)) → FilePath → List ℕ → FilePath → Option (List ℕ)
store disk file bytes p = if bytes_eq p file then some bytes else disk p

-- `file` gives the file that a path names, as the path where the view has its contents.
module _ (os : Os) (view : os.World → View) (file : FilePath → FilePath) where
  -- An opened stream is empty and belongs to the path that was opened. A good write appends to its
  -- file. A failed one, or a failed flush at the end, may leave the file with anything, and touches no
  -- other file.
  pub record IsDisk : Type 0 where
    pub open_done :
        (path : FilePath) (w : os.World) (stream : ℕ) (w' : os.World)
        → os.open_trunc path w ≡ (some stream, w')
        → view w' ≡ record (view w) {
          disk = store (view w).disk (file path) [];
          stream_file = λ h. if h == stream then some (file path) else (view w).stream_file h;
        }
    pub open_failed :
        (path : FilePath) (w w' : os.World) → os.open_trunc path w ≡ (none, w') → view w' ≡ view w
    pub write_done :
        (stream : ℕ) (bytes : List ℕ) (w w' : os.World) (f : FilePath) (contents : List ℕ)
        → os.write stream bytes w ≡ (true, w')
        → (view w).stream_file stream ≡ some f
        → (view w).disk f ≡ some contents
        → view w' ≡ record (view w) { disk = store (view w).disk f (contents ++ bytes) }
    pub write_failed :
        (stream : ℕ) (bytes : List ℕ) (w w' : os.World) (f : FilePath)
        → os.write stream bytes w ≡ (false, w')
        → (view w).stream_file stream ≡ some f
        → (left : List ℕ) × (view w' ≡ record (view w) { disk = store (view w).disk f left })
    pub close_done :
        (stream : ℕ) (w w' : os.World) → os.close_stream stream w ≡ (true, w') → view w' ≡ view w
    pub close_failed :
        (stream : ℕ) (w w' : os.World) (f : FilePath)
        → os.close_stream stream w ≡ (false, w')
        → (view w).stream_file stream ≡ some f
        → (left : List ℕ) × (view w' ≡ record (view w) { disk = store (view w).disk f left })
    pub create_directories_lem :
        (path : FilePath) (w : os.World) → view (os.create_directories path w) ≡ view w

  -- A disk with room: opening, writing and the flush at the end succeed.
  pub record IsRoomy : Type 0 where
    pub opens :
        (path : FilePath) (w : os.World)
        → (stream : ℕ) × (w' : os.World) × (os.open_trunc path w ≡ (some stream, w'))
    pub flushes : (stream : ℕ) (w : os.World) → view (os.close_stream stream w).1 ≡ view w
    pub writes :
        (stream : ℕ) (bytes : List ℕ) (w : os.World)
        → (w' : os.World) × (os.write stream bytes w ≡ (true, w'))

-- `source` gives the bytes of the file behind a descriptor. `pread` hands out bytes from the offset
-- on, and nothing only at the end. It leaves the files as they are.
module _ (os : Os) (source : os.World → ℕ → List ℕ) where
  pub record IsSource : Type 0 where
    pub pread_done :
        (fd want offset : ℕ) (w : os.World) (bytes : List ℕ) (w' : os.World)
        → os.pread fd want offset w ≡ (done bytes, w')
        → (length bytes ≤ want)
          × (drop offset (source w fd) ≡ bytes ++ drop (offset + length bytes) (source w fd))
          × (source w' ≡ source w)
    pub pread_end :
        (fd want offset : ℕ) (w w' : os.World)
        → os.pread fd want offset w ≡ (done [], w')
        → 0 < want
        → drop offset (source w fd) ≡ []

module _ (disk : FilePath → Option (List ℕ)) (file : FilePath) where
  pub store_self : (bytes : List ℕ) → store disk file bytes file ≡ some bytes
  store_self bytes = rw (bytes_eq_self file)

  pub store-store :
      (old bytes : List ℕ) → store (store disk file old) file bytes ≡ store disk file bytes
  store-store old bytes = fun_ext λ p. ground arith
