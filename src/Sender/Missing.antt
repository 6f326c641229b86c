-- ===== src/Sender/Missing.antt =====
-- `SendPaths` in src/transfer/sender.cpp, given a path that does not exist.
use xfer.Base.{ℕ, ◌≡◌, refl, inl, inr, true, false, List, [], ◌∷◌, All, Any, if◌then◌else◌}
use xfer.Os.{Os, FilePath}
use xfer.Os.Action.{
  Action, State, Outcome, returns, fails, stuck, pure, after, no_such_file_or_directory, ◌>>=◌,
}
use xfer.Wire.{FileEntry}
use xfer.Net.{Socket}
use xfer.Sender.Manifest.{SenderOptions, collect_files}
use xfer.Sender.Manifest.Scan.{CollectEnds, Throws, collect_files_lem}
use xfer.Sender.{none_left, send_paths, send_session, fill_all}

not_all_there :
    (os : Os) (w : os.World) (paths : List FilePath)
    → All (λ p. os.exists p w ≡ true) paths
    → ¬ Any (λ p. os.exists p w ≡ false) paths
not_all_there os w [] _ none_missing = none_missing
not_all_there os w (p ∷ ps) (there, rest) (inl missing) = absurd (cc (there, missing))
not_all_there os w (p ∷ ps) (there, rest) (inr more) = not_all_there os w ps rest more

-- If one of the paths does not exist, and no iterator throws in a directory that is walked, `SendPaths`
-- returns true, having sent and changed nothing, and leaves `no_such_file_or_directory` in `ec`.
pub send_paths-missing :
    (os : Os) (sock : Socket) (paths : List FilePath) (rounds : ℕ) (options : SenderOptions)
    (s : State os.World)
    → Any (λ p. os.exists p s.world ≡ false) paths
    → ¬ Any (Throws os options s.world) paths
    → send_paths os sock paths rounds options s
      ≡ returns tt (record s { ec = no_such_file_or_directory })
unfolding send_paths
send_paths-missing os sock paths rounds options s missing walks =
    ended (collect_files os paths options s) (collect_files_lem os options paths s)
  where
    sending : List FileEntry → Action os.World (Unit {0})
    sending manifest =
        if none_left os manifest
        then pure tt
        else fill_all os paths manifest >>= send_session os sock paths rounds options

    ended :
        (r : Outcome os.World (List FileEntry))
        → CollectEnds os options paths s r
        → after r sending ≡ returns tt (record s { ec = no_such_file_or_directory })
    ended (returns manifest t) (inl (there, _, _, _, _)) =
        absurd (not_all_there os s.world paths there missing)
    ended (returns manifest t) (inr (_, none, same)) = rw (none, same) refl
    ended (fails t) never = absurd never
    ended stuck threw = absurd (walks threw)
