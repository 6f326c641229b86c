-- ===== src/Os/Files.antt =====
-- What the sender relies on of the calls that read files, besides `IsSource`.
use xfer.Base.{ℕ, ◌≤◌, ◌<◌, ◌≡◌, ◌≢◌, List, [], ◌++◌, length, take, drop, some, ◌==◌, if◌then◌else◌}
use xfer.Os.{Os, FilePath, done, failed}
use xfer.Os.Laws.{View}

module _ (os : Os) (fd : ℕ) (view : os.World → View) (file : FilePath → FilePath) where
  -- `open` gives a descriptor that reads the file of the path. `pread` and `close` change nothing that
  -- is sent or stored. `sendfile64` sends bytes of the file from the offset on, or fails and sends
  -- nothing.
  pub record IsReadable : Type 0 where
    pub open_read_done :
        (path : FilePath) (w : os.World) (h : ℕ) (w' : os.World)
        → os.open_read path w ≡ (done h, w')
        → (content : List ℕ) × ((view w).disk (file path) ≡ some content)
          × (view w'
              ≡ record (view w) { reads = λ k. if k == h then content else (view w).reads k })
    pub close_lem :
        (h : ℕ) (w : os.World)
        → view (os.close h w) ≡ record (view w) { reads = (view (os.close h w)).reads }
    pub pread_lem : (h want offset : ℕ) (w : os.World) → view (os.pread h want offset w).1 ≡ view w
    pub sendfile_done :
        (h offset want : ℕ) (w : os.World) (n : ℕ) (w' : os.World)
        → os.sendfile (some fd) h offset want w ≡ (done n, w')
        → (n ≤ want)
          × (n ≤ length (drop offset ((view w).reads h)))
          × (view w'
              ≡ record (view w) { sent = (view w).sent ++ take n (drop offset ((view w).reads h)) })
    pub sendfile_failed :
        (h offset want : ℕ) (w : os.World) (e : ℕ) (w' : os.World)
        → os.sendfile (some fd) h offset want w ≡ (failed e, w')
        → view w' ≡ view w

  -- The files can be read: a file that is there opens, no read fails, and `sendfile64` stops only at
  -- the end of the file.
  pub record IsSteady : Type 0 where
    pub open_read_there :
        (path : FilePath) (w : os.World) (content : List ℕ)
        → (view w).disk (file path) ≡ some content
        → (h : ℕ) × (w' : os.World) × (os.open_read path w ≡ (done h, w'))
    pub pread_succeeds :
        (h want offset : ℕ) (w : os.World) (e : ℕ) (w' : os.World)
        → os.pread h want offset w ≢ (failed e, w')
    pub sendfile_succeeds :
        (h offset want : ℕ) (w : os.World) (e : ℕ) (w' : os.World)
        → os.sendfile (some fd) h offset want w ≢ (failed e, w')
    pub sendfile_end :
        (h offset want : ℕ) (w w' : os.World)
        → os.sendfile (some fd) h offset want w ≡ (done 0, w')
        → 0 < want
        → drop offset ((view w).reads h) ≡ []
