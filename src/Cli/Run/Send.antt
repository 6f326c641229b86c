-- ===== src/Cli/Run/Send.antt =====
-- `RunSend` in src/cli.cpp, with any peer and any files.
use xfer.Base.{ℕ, ◌≡◌, ◌⊎◌, inl, inr, refl, Bool, true, false, List, Option, none, some, All, ◌||◌}
use xfer.Crc.Serial.{IsByte}
use xfer.Os.{Os, FilePath, Fd}
use xfer.Os.Sockets.{Sockets}
use xfer.Os.Action.{
  Action, State, Outcome, returns, fails, stuck, pure, attempted, ◌>>=◌, no_error, Ensures, after,
}
use xfer.Os.Laws.{View, IsConnection, IsDisk}
use xfer.FsPath.{is_empty}
use xfer.Net.{Socket, is_valid}
use xfer.Net.Transfer.{socket}
use xfer.Net.Lifetime.{no_socket, close}
use xfer.Net.Lifetime.Kept.{IsKept}
use xfer.Sender.{send_paths}
use xfer.Sender.Halting.{CanSend, send_paths-Halts}
use xfer.Cli.{Options}
use xfer.Cli.Run.{sender_options, exit_code, transfer, run_send}
use xfer.Cli.Run.Ending.{opening, Opens, NotOpened, HasRun}
use xfer.Cli.Run.Opening.{bind_and_accept-Kept, dial_out-Kept}
use xfer.Cli.Run.Receive.{HasDisk}

module _ (os : Os) (sockets : Sockets os.World) (view : os.World → View) (rounds : ℕ)
    (opts : Options) (s : State os.World) where
  abbrev pub session : Socket → Action os.World (Unit {0})
  session sock = send_paths os sock opts.paths rounds (sender_options opts)

  -- The program listens for the receiver.
  abbrev pub is_listening : Bool
  is_listening = opts.listen || is_empty opts.host

  -- No connection, the exit code 2 and the files as they were; or a session that gave the code 0 or 3.
  abbrev pub SendEnds : ℕ → State os.World → Type 0
  SendEnds code v =
      (NotOpened os sockets opts is_listening s code × ((view v.world).disk ≡ (view s.world).disk))
      ⊎ ((u : State os.World) × HasRun os sockets opts is_listening s session code u)

module _ (os : Os) (sockets : Sockets os.World) (view : os.World → View)
    (file : FilePath → FilePath) (conn : (fd : ℕ) → IsConnection os fd view)
    (ondisk : IsDisk os view file)
    (calm : (d : FilePath → Option (List ℕ))
      → IsKept os sockets (HasDisk os sockets view file conn ondisk d))
    (rounds : ℕ) (can : CanSend os view file rounds) (opts : Options) (s : State os.World) where
  abbrev Has : os.World → Type 0
  Has = HasDisk os sockets view file conn ondisk (view s.world).disk

  transfer-SendEnds :
      (fd : Fd) (ok : Bool) (t : State os.World)
      → Opens os sockets opts
          (is_listening os sockets view rounds opts s)
          s
          ok
          (record { fd = fd })
          t
      → is_valid (record { fd = fd }) ≡ ok
      → Has t.world
      → Ensures
          (SendEnds os sockets view rounds opts s)
          (λ _. ⊥)
          (transfer os sockets (session os sockets view rounds opts s) (ok, record { fd = fd }) t)
  unfolding transfer close
  transfer-SendEnds none true t opened e h = absurd (cc e)
  transfer-SendEnds none false t opened e h = inl ((refl, no_socket, t, opened), h.0)
  transfer-SendEnds (some fd) false t opened e h = absurd (cc e)
  transfer-SendEnds (some fd) true t opened e h =
      sent ((session os sockets view rounds opts s) (socket fd) t) refl (
        (send_paths-Halts os view file conn rounds can opts.paths fd (sender_options opts)).halts t)
    where
      sent :
          (r : Outcome os.World (Unit {0}))
          → (session os sockets view rounds opts s) (socket fd) t ≡ r
          → Ensures (λ _ _. Unit {0}) (λ _. Unit {0}) r
          → Ensures
              (SendEnds os sockets view rounds opts s)
              (λ _. ⊥)
              (after (attempted r) λ result. close os (socket fd) >>= λ _. pure (exit_code result))
      sent (returns a u) e h = inr (u, (fd, t, opened, inl (refl, a, e)))
      sent (fails u) e h = inr (u, (fd, t, opened, inr (refl, e)))
      sent stuck e h = h

  -- `RunSend` comes back with an exit code.
  pub run_send_lem :
      All IsByte (view s.world).incoming
      → Ensures
          (SendEnds os sockets view rounds opts s)
          (λ _. ⊥)
          (run_send os sockets rounds opts s)
  unfolding run_send
  run_send_lem h =
      continued (opening os sockets opts (is_listening os sockets view rounds opts s) s start) refl
        (by_host (is_listening os sockets view rounds opts s))
    where
      start : State os.World
      start = record s { ec = no_error }

      Opened : Outcome os.World (Bool × Socket) → Type 0
      Opened = Ensures (λ (r : Bool × Socket) t. (is_valid r.1 ≡ r.0) × Has t.world) (λ _. ⊥)

      by_host : (b : Bool) → Opened (opening os sockets opts b s start)
      by_host true =
          bind_and_accept-Kept os sockets Has (calm (view s.world).disk) opts.port start (refl, h)
      by_host false =
          dial_out-Kept os sockets Has (calm (view s.world).disk) opts.host opts.port start
            (refl, h)

      continued :
          (r : Outcome os.World (Bool × Socket))
          → opening os sockets opts (is_listening os sockets view rounds opts s) s start ≡ r
          → Opened r
          → Ensures
              (SendEnds os sockets view rounds opts s)
              (λ _. ⊥)
              (after r (transfer os sockets (session os sockets view rounds opts s)))
      continued (returns r t) e (valid, h') = transfer-SendEnds r.1.fd r.0 t e valid h'
      continued (fails t) e never = never
      continued stuck e never = never
