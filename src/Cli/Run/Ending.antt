-- ===== src/Cli/Run/Ending.antt =====
-- How the exit code of src/main.cpp comes from what `RunSend` and `RunReceive` do.
use xfer.Base.{ℕ, ◌≡◌, ◌⊎◌, Bool, true, false, if◌then◌else◌}
use xfer.Os.{Os}
use xfer.Os.Sockets.{Sockets}
use xfer.Os.Action.{Action, State, Outcome, returns, fails, no_error}
use xfer.Net.{Socket}
use xfer.Net.Transfer.{socket}
use xfer.Net.Lifetime.{no_socket}
use xfer.Cli.{Options}
use xfer.Cli.Run.{bind_and_accept, dial_out}

module _ {W A : Type 0} where
  -- A transfer that returns true gives 0, and one that returns false gives 3.
  abbrev pub IsCodeOf : Outcome W A → ℕ → State W → Type 0
  IsCodeOf r code u = ((code ≡ 0) × (a : A) × (r ≡ returns a u)) ⊎ ((code ≡ 3) × (r ≡ fails u))

module _ (os : Os) (sockets : Sockets os.World) (opts : Options) (listening : Bool)
    (s : State os.World) where
  abbrev pub opening : Action os.World (Bool × Socket)
  opening =
      if listening
      then bind_and_accept os sockets opts.port no_socket
      else dial_out os sockets opts.host opts.port no_socket

  -- What the run of `opening` at the start of `s` ends with.
  abbrev pub Opens : Bool → Socket → State os.World → Type 0
  Opens ok sock t = opening (record s { ec = no_error }) ≡ returns (ok, sock) t

  -- No connection was made, and the code is 2.
  abbrev pub NotOpened : ℕ → Type 0
  NotOpened code = (code ≡ 2) × (sock : Socket) × (t : State os.World) × Opens false sock t

  -- A connection was made, and the session over it, which ended in `u`, gave the code.
  abbrev pub HasRun : {A : Type 0} → (Socket → Action os.World A) → ℕ → State os.World → Type 0
  HasRun session code u =
      (fd : ℕ) × (t : State os.World) × Opens true (socket fd) t
      × IsCodeOf (session (socket fd) t) code u
