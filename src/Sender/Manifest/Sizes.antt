-- ===== src/Sender/Manifest/Sizes.antt =====
-- The sizes in what `CollectFiles` returns fit their type.
use xfer.Base.{
  ◌^◌, ◌<◌, ◌≡◌, inl, inr, sym, subst, Option, none, some, Bool, true, false, ◌&&◌, List, [], ◌∷◌,
  ◌++◌, All, Any, ◌==◌, if◌then◌else◌,
}
use xfer.Os.{Os, FilePath}
use xfer.Os.Action.{State, Outcome, returns, fails, stuck, Ensures}
use xfer.FsPath.{is_empty, parent_path}
use xfer.Wire.{FileEntry}
use xfer.Sender.Manifest.{
  SenderOptions, collect_files, collect_file, collect_walk, collect_path, make_rel_path, no_size,
  collect_directory, strip_base,
}
use xfer.Sender.Manifest.Scan.{CollectEnds, Throws, kept, scan, collect_files_lem}

-- `std::uint64_t` holds the size.
abbrev pub IsSized : FileEntry → Type 0
IsSized e = e.size < 2 ^ 64

AreSized-append :
    (es fs : List FileEntry) → All IsSized es → All IsSized fs → All IsSized (es ++ fs)
AreSized-append [] fs h k = k
AreSized-append (e ∷ es) fs (h, hs) k = (h, AreSized-append es fs hs k)

either-IsSized :
    (b : Bool) (es fs : List FileEntry)
    → All IsSized es
    → All IsSized fs
    → All IsSized (if b then es else fs)
either-IsSized true es fs h k = h
either-IsSized false es fs h k = k

-- What is an entry of the list is sized.
one_of :
    (P : FileEntry → Type 0) (e : FileEntry) (es : List FileEntry)
    → All P es
    → Any (λ y. y ≡ e) es
    → P e
one_of P e (x ∷ es) (h, hs) (inl same) = subst P same h
one_of P e (x ∷ es) (h, hs) (inr more) = one_of P e es hs more
one_of P e [] h never = absurd never

all_of :
    (P : FileEntry → Type 0) (es fs : List FileEntry)
    → All P fs
    → All (λ x. Any (λ y. y ≡ x) fs) es
    → All P es
all_of P [] fs h from = tt
all_of P (e ∷ es) fs h (here, from) = (one_of P e fs h here, all_of P es fs h from)

module _ (os : Os) (sizes : (path : FilePath) (w : os.World) → os.file_size path w < 2 ^ 64)
    (options : SenderOptions) (w : os.World) where
  collect_file-IsSized :
      (path base : FilePath) (out : List FileEntry)
      → All IsSized out
      → All IsSized (collect_file os path base w out)
  unfolding collect_file
  collect_file-IsSized path base out h = either-IsSized (os.file_size path w == no_size) out _ h (
      either-IsSized (is_empty (make_rel_path os path base w)) out _ h
        (AreSized-append out _ h (sizes path w, tt)))

  collect_walk-IsSized :
      (ps : List FilePath) (base : FilePath) (out : List FileEntry)
      → All IsSized out
      → All IsSized (collect_walk os ps base w out)
  unfolding collect_walk
  collect_walk-IsSized [] base out h = h
  collect_walk-IsSized (p ∷ ps) base out h =
      collect_walk-IsSized ps base _
        (either-IsSized (os.is_regular_file p w) _ out (collect_file-IsSized p base out h) h)

  collect_path-IsSized :
      (p : FilePath) (out : List FileEntry)
      → All IsSized out
      → All IsSized (kept out (collect_path os options p w out))
  unfolding collect_path collect_directory
  collect_path-IsSized p out h =
      by_kind (os.is_regular_file p w) (os.is_directory p w && options.recursive)
        (os.walk_directory options.follow_symlinks p w)
    where
      by_kind :
          (regular walked : Bool) (r : Option (List FilePath))
          → All IsSized (
              kept out (
                if regular
                then some (collect_file os p (strip_base os options (parent_path p)) w out)
                else if walked
                then collect_directory os r (strip_base os options p) w out
                else some out))
      by_kind true walked r = collect_file-IsSized p _ out h
      by_kind false true none = h
      by_kind false true (some ps) = collect_walk-IsSized ps _ out h
      by_kind false false r = h

  scan-IsSized :
      (ps : List FilePath) (out : List FileEntry)
      → All IsSized out
      → All IsSized (scan os options w ps out)
  scan-IsSized [] out h = h
  scan-IsSized (p ∷ ps) out h = scan-IsSized ps _ (collect_path-IsSized p out h)

-- Where no iterator throws, `CollectFiles` returns a manifest whose sizes fit, if those of the files
-- do.
pub collect_files-IsSized :
    (os : Os) (sizes : (path : FilePath) (w : os.World) → os.file_size path w < 2 ^ 64)
    (options : SenderOptions) (paths : List FilePath) (s : State os.World)
    → ¬ Any (Throws os options s.world) paths
    → Ensures (λ manifest _. All IsSized manifest) (λ _. ⊥) (collect_files os paths options s)
collect_files-IsSized os sizes options paths s walks =
    by_outcome (collect_files os paths options s) (collect_files_lem os options paths s)
  where
    by_outcome :
        (r : Outcome os.World (List FileEntry))
        → CollectEnds os options paths s r
        → Ensures (λ manifest _. All IsSized manifest) (λ _. ⊥) r
    by_outcome (returns manifest t) (inl (_, _, _, from, _)) =
        all_of IsSized manifest _ (scan-IsSized os sizes options s.world paths [] tt) from
    by_outcome (returns manifest t) (inr (_, e, _)) = subst (All IsSized) (sym e) tt
    by_outcome (fails t) never = never
    by_outcome stuck threw = walks threw
