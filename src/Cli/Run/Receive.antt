-- ===== src/Cli/Run/Receive.antt =====
-- `RunReceive` in src/cli.cpp, with any peer and any disk.
use xfer.Base.{ℕ, ◌≡◌, ◌⊎◌, List, Option, some, All}
use xfer.Crc.Serial.{IsByte}
use xfer.Os.{Os, FilePath}
use xfer.Os.Sockets.{Sockets}
use xfer.Os.Action.{Action, State}
use xfer.Os.Laws.{View, IsConnection, IsDisk}
use xfer.FsPath.{is_empty}
use xfer.Net.{Socket}
use xfer.Net.Lifetime.Kept.{IsKept}
use xfer.Receiver.{ReceiverSummary, receive_stream}
use xfer.Receiver.Confined.{IsInside}
use xfer.Cli.{Options}
use xfer.Cli.Run.{receiver_options}
use xfer.Cli.Run.Ending.{NotOpened, HasRun}

module _ (os : Os) (sockets : Sockets os.World) (view : os.World → View)
    (file : FilePath → FilePath) (conn : (fd : ℕ) → IsConnection os fd view)
    (ondisk : IsDisk os view file) where
  -- The files are those of `d`, and what comes in is bytes.
  abbrev pub HasDisk : (FilePath → Option (List ℕ)) → os.World → Type 0
  HasDisk d w = ((view w).disk ≡ d) × All IsByte (view w).incoming

  module _ (calm : (d : FilePath → Option (List ℕ)) → IsKept os sockets (HasDisk d))
      (opts : Options) (cwd : FilePath)
      (settled : (w : os.World) → os.current_path w ≡ some cwd) where
    abbrev pub session : Socket → Action os.World ReceiverSummary
    session sock = receive_stream os sock (receiver_options opts)

    -- No connection, the exit code 2 and no change on the disk; or a session that gave the code 0 or 3 and
    -- left the disk as it is in the end, with changes below the output directory only.
    unfoldable pub RunEnds : State os.World → ℕ → State os.World → Type 0
    RunEnds s code v =
        (NotOpened os sockets opts (is_empty opts.host) s code
          × ((view v.world).disk ≡ (view s.world).disk))
        ⊎ ((u : State os.World) × HasRun os sockets opts (is_empty opts.host) s session code u
            × ((view v.world).disk ≡ (view u.world).disk)
            × ((q : FilePath)
                → ((view v.world).disk q ≡ (view s.world).disk q)
                  ⊎ IsInside os 0 view file (conn 0) ondisk (receiver_options opts) cwd settled q))

    module _ (s : State os.World) where
      -- The files are those at the start, and what comes in is bytes.
      abbrev HasStart : os.World → Type 0
      HasStart = HasDisk (view s.world).disk
