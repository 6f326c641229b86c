-- ===== src/Sender/Found.antt =====
-- A manifest whose files are found on a disk, and the opening of such a file.
use xfer.Base.{
  ℕ, ◌≡◌, refl, ap, sym, ◌∙◌, false, List, [], ◌∷◌, length, Option, some, ==_self, ◌==◌,
  if◌then◌else◌,
}
use xfer.Os.{Os, FilePath, Reply, done, failed}
use xfer.Os.Action.{Action, State, returns, pure, throw, no_such_file_or_directory}
use xfer.Os.Laws.{View}
use xfer.Os.Files.{IsReadable, IsSteady}
use xfer.FsPath.{is_empty}
use xfer.Wire.{FileEntry}
use xfer.Wire.Record.{IsEntry}
use xfer.Sender.Source.{resolve, resolve_single, find_candidate, resolve_on_disk, open_for_read}

-- An entry of a manifest with the contents of its file.
abbrev pub Item : Type 0
Item = FileEntry × List ℕ

abbrev pub entries : List Item → List FileEntry
entries [] = []
entries ((e, content) ∷ items) = e ∷ entries items

module _ (os : Os) (view : os.World → View) (file : FilePath → FilePath) (paths : List FilePath)
    (disk : FilePath → Option (List ℕ)) where
  -- On this disk the file of the entry is found, and it has the contents and the announced size.
  pub record IsFound (item : Item) : Type 0 where
    pub path : FilePath
    pub resolves : (w : os.World) → (view w).disk ≡ disk → resolve os paths item.0 w ≡ path
    pub named : is_empty path ≡ false
    pub there : disk (file path) ≡ some item.1
    pub exact : length item.1 ≡ item.0.size
    pub entry : IsEntry item.0

some_injective : (a b : List ℕ) → ◌≡◌ {A = Option (List ℕ)} (some a) (some b) → a ≡ b
some_injective a b e = cc (e)

module _ (os : Os) (view : os.World → View) (file : FilePath → FilePath)
    (paths : List FilePath) where
  pub resolve-returns :
      (d : FilePath → Option (List ℕ)) (item : Item) (found : IsFound os view file paths d item)
      (s : State os.World)
      → (view s.world).disk ≡ d
      → resolve_on_disk os paths item.0 s ≡ returns found.path s
  unfolding resolve_on_disk
  resolve-returns d item found s same = rw (found.resolves s.world same, found.named) refl

module _ (os : Os) (fd : ℕ) (view : os.World → View) (file : FilePath → FilePath)
    (readable : IsReadable os fd view file) (steady : IsSteady os fd view file) where
  -- A file that is there opens as a descriptor that reads it.
  pub open_there :
      (path : FilePath) (content : List ℕ) (s : State os.World)
      → (view s.world).disk (file path) ≡ some content
      → (h : ℕ) × (t : State os.World) × (open_for_read os path s ≡ returns h t)
        × (view t.world ≡ record (view s.world) { reads = (view t.world).reads })
        × ((view t.world).reads h ≡ content)
        × (t.ec ≡ s.ec)
  unfolding open_for_read
  open_there path content s there =
      let (h, w, eq) = steady.open_read_there path s.world content there in
      let (c, at, v) = readable.open_read_done path s.world h w eq in
      (
        h,
        record s { world = w },
        ap (λ (r : Reply ℕ × os.World). answer r.0 (record s { world = r.1 })) eq,
        cc (v),
        reading (view w) h c v ∙ some_injective c content (sym at ∙ there),
        refl,
      )
    where
      answer : Reply ℕ → Action os.World ℕ
      answer reply = elim reply [ failed e ↦ throw no_such_file_or_directory | done h ↦ pure h ]

      reading :
          (v : View) (h : ℕ) (c : List ℕ)
          → v ≡ record (view s.world) { reads = λ k. if k == h then c else (view s.world).reads k }
          → v.reads h ≡ c
      reading v h c e =
          ap (λ (x : View). x.reads h) e
          ∙ ap (λ b. if b then c else (view s.world).reads h) (==_self h)

module _ (os : Os) (e : FileEntry) (crc : ℕ) where
  -- The file behind an entry does not depend on the checksum.
  find_candidate-crc :
      (paths : List FilePath) (w : os.World)
      → find_candidate os paths (record e { crc32 = crc }) w ≡ find_candidate os paths e w
  unfolding find_candidate
  find_candidate-crc [] w = refl
  find_candidate-crc (p ∷ ps) w = rw (find_candidate-crc ps w) refl

  pub resolve-crc :
      (paths : List FilePath) (w : os.World)
      → resolve os paths (record e { crc32 = crc }) w ≡ resolve os paths e w
  unfolding resolve resolve_single find_candidate
  resolve-crc [] w = refl
  resolve-crc (p ∷ []) w = rw (find_candidate-crc (p ∷ []) w) refl
  resolve-crc (p ∷ q ∷ ps) w = find_candidate-crc (p ∷ q ∷ ps) w
