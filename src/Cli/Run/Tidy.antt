-- ===== src/Cli/Run/Tidy.antt =====
-- `RunSend` and `RunReceive` in src/cli.cpp and `main` in src/main.cpp: what they open they close.
use xfer.Base.{ℕ, ◌≡◌, ap, ◌∙◌, Bool, true, false, List, Option, none, some, ◌||◌, if◌then◌else◌}
use xfer.Os.{Os, Fd}
use xfer.Os.Sockets.{Sockets, Table, IsTable, with_fd, without_fd, without_fd-with_fd}
use xfer.Os.Tidy.{IsTidy, HasOpen, LeavesOpen, KeepsOpen, KeepsOpen-pure}
use xfer.Os.Action.{
  Action, State, Outcome, returns, fails, stuck, pure, attempted, after, no_error, ◌>>=◌,
}
use xfer.FsPath.{is_empty}
use xfer.Net.{Socket, is_valid}
use xfer.Net.Lifetime.{no_socket, close}
use xfer.Net.Lifetime.Kept.{IsKept, Kept}
use xfer.Net.Lifetime.Table.{Holds, HoldsFd, OpensOrNot}
use xfer.Receiver.{receive_stream}
use xfer.Receiver.Tidy.{receive_stream-KeepsOpen}
use xfer.Sender.{send_paths}
use xfer.Sender.Tidy.{send_paths-KeepsOpen}
use xfer.Cli.{Mode, Options, parse, unset, send, receive, help, version}
use xfer.Cli.Run.{
  sender_options, receiver_options, exit_code, bind_and_accept, dial_out, transfer, run_send,
  run_receive, dispatch, main,
}
use xfer.Cli.Run.Opening.{bind_and_accept-Kept, dial_out-Kept}
use xfer.Cli.Run.Table.{bind_and_accept_lem, dial_out_lem}

module _ (os : Os) (sockets : Sockets os.World) (opened streams : os.World → Table)
    (table : IsTable os sockets opened) (tidy : IsTidy os opened streams) (base files : Table)
    (calm : IsKept os sockets (λ w. streams w ≡ files)) where
  abbrev Leaves : {A : Type 0} → Outcome os.World A → Type 0
  Leaves = LeavesOpen os opened streams base files

  module _ {A : Type 0} (session : Socket → Action os.World A)
      (keeps : (fds : Table) (sock : Socket)
        → KeepsOpen os opened streams fds files (session sock)) where
    transfer_lem :
        (fd : Fd) (ok : Bool) (t : State os.World)
        → is_valid (record { fd = fd }) ≡ ok
        → HoldsFd os sockets opened table base fd t.world
        → streams t.world ≡ files
        → Leaves (transfer os sockets session (ok, record { fd = fd }) t)
    unfolding transfer HoldsFd close
    transfer_lem none true t valid holds same = absurd (cc (valid))
    transfer_lem none false t valid holds same = (holds, same)
    transfer_lem (some fd) false t valid holds same = absurd (cc (valid))
    transfer_lem (some fd) true t valid (new, holds) same =
        closed (session (record { fd = some fd }) t)
          ((keeps (with_fd fd base) (record { fd = some fd })).leaves t (holds, same))
      where
        at_end :
            (u : State os.World)
            → HasOpen os opened streams (with_fd fd base) files u.world
            → HasOpen os opened streams base files (os.close fd u.world)
        at_end u (open_now, open_now') = (
          tidy.close_lem fd u.world ∙ ap (without_fd fd) open_now ∙ without_fd-with_fd base fd new,
          tidy.close_streams fd u.world ∙ open_now',
        )

        closed :
            (r : Outcome os.World A)
            → LeavesOpen os opened streams (with_fd fd base) files r
            → Leaves (
                after
                  (attempted r)
                  λ result. close os (record { fd = some fd }) >>= λ _. pure (exit_code result))
        closed (returns a u) left = at_end u left
        closed (fails u) left = at_end u left
        closed stuck left = tt

    transferred :
        (r : Outcome os.World (Bool × Socket))
        → OpensOrNot os sockets opened table base r
        → Kept os sockets
            (λ w. streams w ≡ files)
            calm
            (λ (x : Bool × Socket). is_valid x.1 ≡ x.0)
            r
        → Leaves (after r (transfer os sockets session))
    unfolding Holds
    transferred (returns x t) (holds, valid) (_, same) = transfer_lem x.1.fd x.0 t valid holds same
    transferred (fails t) never _ = absurd never
    transferred stuck never _ = absurd never

    -- A transfer over a connection that the caller makes.
    run_lem :
        (listens : Bool) (opts : Options) (s : State os.World)
        → HasOpen os opened streams base files s.world
        → Leaves (
            after
              ((if listens
                  then bind_and_accept os sockets opts.port no_socket
                  else dial_out os sockets opts.host opts.port no_socket)
                s)
              (transfer os sockets session))
    run_lem true opts s (clean, same) =
        transferred (bind_and_accept os sockets opts.port no_socket s)
          (bind_and_accept_lem os sockets opened table base opts.port s clean)
          (bind_and_accept-Kept os sockets (λ w. streams w ≡ files) calm opts.port s same)
    run_lem false opts s (clean, same) =
        transferred (dial_out os sockets opts.host opts.port no_socket s)
          (dial_out_lem os sockets opened table base opts.host opts.port s clean)
          (dial_out-Kept os sockets (λ w. streams w ≡ files) calm opts.host opts.port s same)

  run_send-KeepsOpen :
      (rounds : ℕ) (opts : Options)
      → KeepsOpen os opened streams base files (run_send os sockets rounds opts)
  unfolding run_send
  run_send-KeepsOpen rounds opts = record {
    leaves = λ s h.
        run_lem (λ sock. send_paths os sock opts.paths rounds (sender_options opts))
          (λ fds sock.
            send_paths-KeepsOpen os opened streams tidy fds files opts.paths sock rounds
              (sender_options opts))
          (opts.listen || is_empty opts.host) opts (record s { ec = no_error }) h;
  }

  run_receive-KeepsOpen :
      (opts : Options) → KeepsOpen os opened streams base files (run_receive os sockets opts)
  unfolding run_receive
  run_receive-KeepsOpen opts = record {
    leaves = λ s h.
        run_lem (λ sock. receive_stream os sock (receiver_options opts))
          (λ fds sock.
            receive_stream-KeepsOpen os opened streams tidy fds files sock (receiver_options opts))
          (is_empty opts.host) opts (record s { ec = no_error }) h;
  }

  dispatch-KeepsOpen :
      (rounds : ℕ) (mode : Mode) (opts : Options)
      → KeepsOpen os opened streams base files (dispatch os sockets rounds mode opts)
  unfolding dispatch
  dispatch-KeepsOpen rounds help opts = KeepsOpen-pure 0
  dispatch-KeepsOpen rounds version opts = KeepsOpen-pure 0
  dispatch-KeepsOpen rounds send opts = run_send-KeepsOpen rounds opts
  dispatch-KeepsOpen rounds receive opts = run_receive-KeepsOpen opts
  dispatch-KeepsOpen rounds unset opts = KeepsOpen-pure 2

  main-KeepsOpen :
      (rounds : ℕ) (argv : List (List ℕ))
      → KeepsOpen os opened streams base files (main os sockets rounds argv)
  unfolding main
  main-KeepsOpen rounds argv = by_options (parse argv)
    where
      started : Option Options → Action os.World ℕ
      started parsed = elim parsed [
        | none ↦ pure 2
        | some opts ↦ dispatch os sockets rounds opts.mode opts
      ]

      by_options :
          (parsed : Option Options) → KeepsOpen os opened streams base files (started parsed)
      by_options none = KeepsOpen-pure 2
      by_options (some opts) = dispatch-KeepsOpen rounds opts.mode opts

  -- Whatever the arguments, whatever the peer sends and whichever calls fail: when `main` ends, the
  -- descriptors and output streams that are open are just those that were open when it began. So every
  -- socket, every file that is read and every file that is written is closed on every way out, errors
  -- included, and nothing is closed that the program did not open. The calls are taken to open and close
  -- what their documentation says, and those that make connections to leave the streams alone.
  pub main-LeavesOpen :
      (rounds : ℕ) (argv : List (List ℕ)) (s : State os.World)
      → HasOpen os opened streams base files s.world
      → Leaves (main os sockets rounds argv s)
  main-LeavesOpen rounds argv s h = (main-KeepsOpen rounds argv).leaves s h
