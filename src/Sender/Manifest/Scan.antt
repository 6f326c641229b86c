-- ===== src/Sender/Manifest/Scan.antt =====
-- What `CollectFiles` returns.
use xfer.Base.{
  Bool, ◌&&◌, if◌then◌else◌, Option, ◌≡◌, ◌≢◌, ◌⊎◌, inl, inr, refl, true, false, Bool-cases,
}
use xfer.Base.{List, [], ◌∷◌, All, Any, some, none}
use xfer.Os.{Os, FilePath}
use xfer.Os.Action.{State, Outcome, returns, fails, stuck, no_such_file_or_directory}
use xfer.FsPath.{parent_path}
use xfer.Wire.{FileEntry}
use xfer.Sender.Manifest.{
  SenderOptions, Collected, thrown, missing, found, collect_files, collect_loop, collect_path,
  collect_directory, collect_file, strip_base, sort, unique,
}
use xfer.Sender.Manifest.Order.{IsAscending, unique-sort_lem}

abbrev pub kept : List FileEntry → Option (List FileEntry) → List FileEntry
kept out none = out
kept out (some more) = more

module _ (os : Os) (options : SenderOptions) (w : os.World) where
  -- The scan of all paths, when they exist and no iterator throws.
  abbrev pub scan : List FilePath → List FileEntry → List FileEntry
  scan [] out = out
  scan (p ∷ ps) out = scan ps (kept out (collect_path os options p w out))

  -- The iterator of a directory that is walked throws.
  pub record Throws (p : FilePath) : Type 0 where
    pub recursive : options.recursive ≡ true
    pub directory : os.is_directory p w ≡ true
    pub thrown_walk : os.walk_directory options.follow_symlinks p w ≡ none

  collect_directory-none :
      (r : Option (List FilePath)) (base : FilePath) (out : List FileEntry)
      → collect_directory os r base w out ≡ none
      → r ≡ none
  unfolding collect_directory
  collect_directory-none none base out e = refl
  collect_directory-none (some ps) base out e = absurd (cc e)

  collect_path-none :
      (p : FilePath) (out : List FileEntry) → collect_path os options p w out ≡ none → Throws p
  unfolding collect_path
  collect_path-none p out e =
      by_kind (os.is_regular_file p w) (os.is_directory p w) options.recursive refl refl e
    where
      by_kind :
          (regular directory recursive : Bool)
          → os.is_directory p w ≡ directory
          → options.recursive ≡ recursive
          → (if regular
              then some (collect_file os p (strip_base os options (parent_path p)) w out)
              else if directory && recursive
              then collect_directory os
                  (os.walk_directory options.follow_symlinks p w)
                  (strip_base os options p)
                  w
                  out
              else some out)
            ≡ none
          → Throws p
      by_kind true directory recursive _ _ e = absurd (cc e)
      by_kind false true true d r e = record {
        recursive = r;
        directory = d;
        thrown_walk = collect_directory-none _ _ out e;
      }
      by_kind false false recursive _ _ e = absurd (cc e)
      by_kind false true false _ _ e = absurd (cc e)

  -- The ways out of the loop over the paths.
  LoopEnds : List FilePath → List FileEntry → Collected → Type 0
  LoopEnds paths out thrown = Any Throws paths
  LoopEnds paths out missing = Any (λ p. os.exists p w ≡ false) paths
  LoopEnds paths out (found all) = (all ≡ scan paths out) × All (λ p. os.exists p w ≡ true) paths

  collect_loop_lem :
      (paths : List FilePath) (out : List FileEntry)
      → LoopEnds paths out (collect_loop os options paths w out)
  unfolding collect_loop LoopEnds
  collect_loop_lem [] out = (refl, tt)
  collect_loop_lem (p ∷ ps) out = elim (Bool-cases (os.exists p w)) [
    | inr e ↦ rw (e, collect_loop) (inl e)
    | inl e ↦
        rw (e, collect_loop) (walked e (collect_path os options p w out) refl (collect_loop_lem ps))
  ]
    where
      later :
          (out' : List FileEntry) (r : Collected)
          → os.exists p w ≡ true
          → collect_path os options p w out ≡ some out'
          → LoopEnds ps out' r
          → LoopEnds (p ∷ ps) out r
      later out' thrown there e h = inr h
      later out' missing there e h = inr h
      later out' (found all) there e (same, h) = (rw e same, (there, h))

      walked :
          os.exists p w ≡ true
          → (r : Option (List FileEntry)) → collect_path os options p w out ≡ r
          → ((out' : List FileEntry) → LoopEnds ps out' (collect_loop os options ps w out'))
          → LoopEnds
              (p ∷ ps)
              out
              (elim r [ none ↦ thrown | some out' ↦ collect_loop os options ps w out' ])
      walked there none e rest = inl (collect_path-none p out e)
      walked there (some out') e rest =
          later out' (collect_loop os options ps w out') there e (rest out')

pub none-Throws :
    (os : Os)
    → ((follow : Bool) (path : FilePath) (w : os.World) → os.walk_directory follow path w ≢ none)
    → (options : SenderOptions) (paths : List FilePath) (w : os.World)
    → ¬ Any (Throws os options w) paths
none-Throws os walks options [] w never = never
none-Throws os walks options (p ∷ ps) w (inl h) = walks options.follow_symlinks p w h.thrown_walk
none-Throws os walks options (p ∷ ps) w (inr h) = none-Throws os walks options ps w h

-- The way out of `CollectFiles`.
abbrev pub CollectEnds :
    (os : Os)
    → SenderOptions
    → List FilePath
    → State os.World
    → Outcome os.World (List FileEntry)
    → Type 0
CollectEnds os options paths s (returns manifest t) =
    (All (λ p. os.exists p s.world ≡ true) paths
      × (t ≡ s)
      × IsAscending manifest
      × All (λ x. Any (λ y. y ≡ x) (scan os options s.world paths [])) manifest
      × ((p : FilePath)
          → Any (λ e. e.rel_path ≡ p) (scan os options s.world paths [])
          → Any (λ e. e.rel_path ≡ p) manifest))
    ⊎ (Any (λ p. os.exists p s.world ≡ false) paths
        × (manifest ≡ [])
        × (t ≡ record s { ec = no_such_file_or_directory }))
CollectEnds os options paths s (fails t) = ⊥
CollectEnds os options paths s stuck = Any (Throws os options s.world) paths

-- `CollectFiles` returns, or else the iterator of one of the directories that it walks throws. If
-- every path exists, the manifest that it returns has strictly ascending paths, its entries are scanned
-- ones, and every scanned path is in it. If one does not exist, what it returns is the empty manifest,
-- with `no_such_file_or_directory` in `ec`.
pub collect_files_lem :
    (os : Os) (options : SenderOptions) (paths : List FilePath) (s : State os.World)
    → CollectEnds os options paths s (collect_files os paths options s)
unfolding collect_files LoopEnds
collect_files_lem os options paths s =
    by_end (collect_loop os options paths s.world []) (collect_loop_lem os options s.world paths [])
  where
    by_end :
        (r : Collected)
        → LoopEnds os options s.world paths [] r
        → CollectEnds os options paths s (elim r [
          | thrown ↦ stuck
          | missing ↦ returns [] (record s { ec = no_such_file_or_directory })
          | found out ↦ returns (unique (sort out)) s
        ])
    by_end thrown h = h
    by_end missing h = inr (h, refl, refl)
    by_end (found all) (same, there) =
        let (ascending, from, kept) = unique-sort_lem (scan os options s.world paths []) in
        rw same (inl (there, refl, ascending, from, kept))
