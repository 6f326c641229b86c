-- ===== src/Cli/Run.antt =====
-- src/cli.cpp: `BindAndAccept`, `DialOut`, `RunSend` and `RunReceive`; src/main.cpp: `main`. A function
-- gives the exit code. `out` and `sock` are closed at the end of their scope, the connection when the
-- run is over.
pub mod Opening
pub mod Ending
mod Examples
pub mod Table
pub mod Receive
pub mod Send
pub mod Main
pub mod Tidy
pub mod Answering
pub mod Stores
use xfer.Base.{ℕ, ◌||◌, Bool, true, false, not, List, [], ◌∷◌, Option, none, some, if◌then◌else◌}
use xfer.Base.Int.{ℤ}
use xfer.Os.{Os}
use xfer.Os.Sockets.{Sockets}
use xfer.Os.Action.{Action, State, pure, attempt, ◌>>=◌, ◌>>◌, no_error}
use xfer.FsPath.{is_empty}
use xfer.Net.{Socket, is_valid}
use xfer.Net.Lifetime.{no_socket, close, move_assign, connect, bind, listen, accept, store_error}
use xfer.Sender.{send_paths}
use xfer.Sender.Manifest.{SenderOptions}
use xfer.Receiver.{ReceiverOptions, ReceiverSummary, receive_stream}
use xfer.Cli.{Mode, Options, parse, unset, send, receive, help, version}

-- The options of a sender.
abbrev pub sender_options : Options → SenderOptions
sender_options opts = record {
  recursive = opts.recursive;
  follow_symlinks = opts.follow_symlinks;
  zero_copy = not opts.no_zero_copy;
  strip_prefix = [];
}

-- The options of a receiver.
abbrev pub receiver_options : Options → ReceiverOptions
receiver_options opts = record {
  output_dir = opts.output_dir;
  create_dir = true;
  verify_crc = not opts.no_verify;
}

-- The exit code of a transfer, which returned true or false.
abbrev pub exit_code : {A : Type 0} → Option A → ℕ
exit_code none = 3
exit_code (some a) = 0

module _ (os : Os) (sockets : Sockets os.World) where
  -- `out = ...;` for a socket that goes out of scope.
  assign : Socket → Socket → Action os.World Socket
  assign out other = move_assign os false out other >>= λ (moved : Socket × Socket).
      close os moved.1 >>= λ _. pure moved.0

  -- `BindAndAccept` from `Accept` on.
  accept_from : Socket → Socket → Action os.World (Bool × Socket)
  accept_from listener out = accept os sockets listener >>= λ peer.
      assign out peer >>= λ out'. close os listener >>= λ _. pure (is_valid out', out')

  -- `BindAndAccept` returns false, and the listener is closed.
  give_up : Socket → Socket → Action os.World (Bool × Socket)
  give_up sock out = close os sock >>= λ _. pure (false, out)

  pub bind_and_accept : ℤ → Socket → Action os.World (Bool × Socket)
  bind_and_accept port out = bind os sockets no_socket port >>= λ (bound : Bool × Socket).
      if bound.0
      then (listen os sockets bound.1 16 >>= λ ok.
          if ok then accept_from bound.1 out else give_up bound.1 out)
      else give_up bound.1 out

  pub dial_out : List ℕ → ℤ → Socket → Action os.World (Bool × Socket)
  dial_out host port out = connect os sockets no_socket host port >>= λ (made : Bool × Socket).
      if made.0 then (assign out made.1 >>= λ out'. pure (true, out')) else give_up made.1 out

  -- The transfer over `sock`, with `ec` new at the start of the run.
  transfer : {A : Type 0} → (Socket → Action os.World A) → Bool × Socket → Action os.World ℕ
  transfer session opened =
      if opened.0
      then (attempt (session opened.1) >>= λ result.
          close os opened.1 >>= λ _. pure (exit_code result))
      else close os opened.1 >>= λ _. pure 2

  unfoldable pub run_send : ℕ → Options → Action os.World ℕ
  unfolding bind_and_accept dial_out accept_from give_up assign transfer
  run_send rounds opts =
      store_error no_error
      >> (if opts.listen || is_empty opts.host
          then bind_and_accept opts.port no_socket
          else dial_out opts.host opts.port no_socket)
      >>= transfer (λ sock. send_paths os sock opts.paths rounds (sender_options opts))

  unfoldable pub run_receive : Options → Action os.World ℕ
  unfolding bind_and_accept dial_out accept_from give_up assign transfer
  run_receive opts =
      store_error no_error
      >> (if is_empty opts.host
          then bind_and_accept opts.port no_socket
          else dial_out opts.host opts.port no_socket)
      >>= transfer (λ sock. receive_stream os sock (receiver_options opts))

  -- The `switch` of `main`.
  dispatch : ℕ → Mode → Options → Action os.World ℕ
  dispatch rounds help opts = pure 0
  dispatch rounds version opts = pure 0
  dispatch rounds send opts = run_send rounds opts
  dispatch rounds receive opts = run_receive opts
  dispatch rounds unset opts = pure 2

  unfoldable pub main : ℕ → List (List ℕ) → Action os.World ℕ
  unfolding dispatch
  main rounds argv = elim (parse argv) [
    | none ↦ pure 2
    | some opts ↦ dispatch rounds opts.mode opts
  ]
