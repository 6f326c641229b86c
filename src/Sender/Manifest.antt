-- ===== src/Sender/Manifest.antt =====
-- The manifest of src/transfer/sender.cpp: `MakeRelPath` and `CollectFiles`.
pub mod Order
pub mod Scan
pub mod Sizes
use xfer.Base.{ℕ, zero, suc, ◌+◌, ◌%◌, ◌^◌, Bool, true, false, not, ◌&&◌, Option, none, some}
use xfer.Base.{List, [], ◌∷◌, ◌++◌, length, ltb, ◌==◌, bytes_eq, if◌then◌else◌}
use xfer.Crc.{Crc32, init, update, final}
use xfer.Os.{Os, FilePath, Reply, done, failed}
use xfer.Os.Action.{
  Action, State, Outcome, returns, fails, stuck, pure, ◌>>=◌, ◌>>◌, throw, fail, attempt,
}
use xfer.Os.Action.{
  gets, modify, call, after, ErrorCode, no_error, io_error, no_such_file_or_directory,
}
use xfer.FsPath.{is_empty, join, filename, parent_path}
use xfer.Net.{Socket, send_all, send_from_fd, size_sub}
use xfer.Wire.{
  SessionHeader, FileEntry, proto_version, flag_crc32, write_session_header, read_ack,
  write_file_header, write_done,
}

pub record SenderOptions : Type 0 where
  pub recursive : Bool
  pub follow_symlinks : Bool
  pub zero_copy : Bool
  pub strip_prefix : FilePath

-- `while (s.size() >= 2 && s[0] == '.' && s[1] == '/') s.erase(0, 2);`
pub strip_dot_slash : FilePath → FilePath
strip_dot_slash [] = []
strip_dot_slash (a ∷ []) = a ∷ []
strip_dot_slash (a ∷ b ∷ p) =
    let rest = strip_dot_slash p in if (a == b'.') && (b == b'/') then rest else a ∷ b ∷ p

-- `static_cast<std::uintmax_t>(-1)`, the size of a file that cannot be looked at.
abbrev pub no_size : ℕ
no_size = 0xffff_ffff_ffff_ffff

-- `std::string`'s `<`
pub path_ltb : FilePath → FilePath → Bool
path_ltb p [] = false
path_ltb [] (d ∷ q) = true
path_ltb (c ∷ p) (d ∷ q) = if c == d then path_ltb p q else ltb c d

-- `std::sort` by `rel_path`. Among equal paths the order is the library's own, here that of insertion.
pub insert : FileEntry → List FileEntry → List FileEntry
insert e [] = e ∷ []
insert e (x ∷ xs) = if path_ltb x.rel_path e.rel_path then x ∷ insert e xs else e ∷ x ∷ xs

unfoldable pub sort : List FileEntry → List FileEntry
unfolding insert path_ltb
sort [] = []
sort (e ∷ es) = insert e (sort es)

-- `std::unique` behind an entry `x` that was kept: neighbours with its path are dropped.
pub unique_from : FileEntry → List FileEntry → List FileEntry
unique_from x [] = x ∷ []
unique_from x (y ∷ ys) =
    if bytes_eq x.rel_path y.rel_path then unique_from x ys else x ∷ unique_from y ys

unfoldable pub unique : List FileEntry → List FileEntry
unfolding unique_from
unique [] = []
unique (x ∷ xs) = unique_from x xs

-- The ways out of the loop of `CollectFiles`: an iterator threw, a path does not exist, or the files.
pub data Collected : Type 0 where
  thrown : Collected
  missing : Collected
  found : List FileEntry → Collected

module _ (os : Os) where
  -- `rel`, before an empty one is replaced by the file name.
  relative_path : FilePath → FilePath → os.World → FilePath
  relative_path path base w =
      if not (is_empty base) && os.exists base w then os.relative path base w else []

  -- `MakeRelPath`
  make_rel_path : FilePath → FilePath → os.World → FilePath
  make_rel_path path base w =
      let rel = relative_path path base w in
      strip_dot_slash (if is_empty rel then filename path else rel)

  -- One regular file of `CollectFiles`, which is left out without a size or a path.
  collect_file : FilePath → FilePath → os.World → List FileEntry → List FileEntry
  collect_file path base w out =
      if os.file_size path w == no_size
      then out
      else if is_empty (make_rel_path path base w)
      then out
      else out
        ++ (record { rel_path = make_rel_path path base w; size = os.file_size path w; crc32 = 0 }
            ∷ [])

  -- The loop over a directory's iterator.
  collect_walk : List FilePath → FilePath → os.World → List FileEntry → List FileEntry
  collect_walk [] base w out = out
  collect_walk (p ∷ ps) base w out =
      collect_walk ps base w (if os.is_regular_file p w then collect_file p base w out else out)

  -- The loop with its iterator, `none` where `++it` throws.
  collect_directory :
      Option (List FilePath) → FilePath → os.World → List FileEntry → Option (List FileEntry)
  collect_directory none base w out = none
  collect_directory (some ps) base w out = some (collect_walk ps base w out)

  -- `options.strip_prefix`, or what stands for it.
  strip_base : SenderOptions → FilePath → FilePath
  strip_base options instead =
      if is_empty options.strip_prefix then instead else options.strip_prefix

  -- One path of the command line that exists, `none` where `++it` throws.
  pub collect_path : SenderOptions → FilePath → os.World → List FileEntry → Option (List FileEntry)
  collect_path options p w out =
      if os.is_regular_file p w
      then some (collect_file p (strip_base options (parent_path p)) w out)
      else if os.is_directory p w && options.recursive
      then collect_directory (os.walk_directory options.follow_symlinks p w) (strip_base options p)
          w out
      else some out

  -- The loop of `CollectFiles`.
  pub collect_loop : SenderOptions → List FilePath → os.World → List FileEntry → Collected
  collect_loop options [] w out = found out
  collect_loop options (p ∷ ps) w out = elim (os.exists p w) [
    | false ↦ missing
    | true ↦ elim (collect_path options p w out) [
      | none ↦ thrown
      | some out' ↦ collect_loop options ps w out'
    ]
  ]

  -- `CollectFiles`. Nothing catches what `++it` throws, which ends the program.
  unfoldable pub collect_files : List FilePath → SenderOptions → Action os.World (List FileEntry)
  unfolding collect_loop strip_dot_slash collect_path collect_directory collect_walk collect_file
      strip_base make_rel_path relative_path
  collect_files paths options s = elim (collect_loop options paths s.world []) [
    | thrown ↦ stuck
    | missing ↦ returns [] (record s { ec = no_such_file_or_directory })
    | found out ↦ returns (unique (sort out)) s
  ]
