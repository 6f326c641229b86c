-- ===== src/Cli/Run/Main.antt =====
-- The exit code of src/main.cpp.
use xfer.Base.{ℕ, ◌≡◌, List, Option, none, some}
use xfer.Os.{Os, FilePath}
use xfer.Os.Sockets.{Sockets}
use xfer.Os.Action.{Action, State}
use xfer.Os.Laws.{View, IsConnection, IsDisk}
use xfer.Net.Lifetime.Kept.{IsKept}
use xfer.Cli.{Mode, Options, unset, send, receive, help, version}
use xfer.Cli.Run.Send.{SendEnds}
use xfer.Cli.Run.Receive.{HasDisk, RunEnds}

module _ (os : Os) (sockets : Sockets os.World) (view : os.World → View)
    (file : FilePath → FilePath) (conn : (fd : ℕ) → IsConnection os fd view)
    (ondisk : IsDisk os view file)
    (calm : (d : FilePath → Option (List ℕ))
      → IsKept os sockets (HasDisk os sockets view file conn ondisk d))
    (cwd : FilePath) (settled : (w : os.World) → os.current_path w ≡ some cwd) (rounds : ℕ)
    (s : State os.World) where
  -- The way out for a mode: nothing but the code for help, the version and no mode, and that of the run.
  unfoldable pub ModeEnds : Mode → Options → ℕ → State os.World → Type 0
  ModeEnds help opts code t = (code ≡ 0) × (t ≡ s)
  ModeEnds version opts code t = (code ≡ 0) × (t ≡ s)
  ModeEnds unset opts code t = (code ≡ 2) × (t ≡ s)
  ModeEnds receive opts code t =
      RunEnds os sockets view file conn ondisk calm opts cwd settled s code t
  ModeEnds send opts code t = SendEnds os sockets view rounds opts s code t

  -- The way out of `main`, by what was made of the arguments.
  unfoldable pub Exits : Option Options → ℕ → State os.World → Type 0
  unfolding ModeEnds
  Exits none code t = (code ≡ 2) × (t ≡ s)
  Exits (some opts) code t = ModeEnds opts.mode opts code t
