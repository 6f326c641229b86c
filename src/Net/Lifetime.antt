-- ===== src/Net/Lifetime.antt =====
-- src/net/socket.h and src/net/socket.cpp: the life of a socket, from `Connect`, `Bind` or `Accept` to
-- `Close`. A function that stores to `fd_` gives the socket back, next to the Boolean it returns, since
-- it changes the socket also when it returns false.
pub mod Table
pub mod Reach
pub mod Kept
pub mod Answering
use xfer.Base.{ℕ, ◌+◌, ◌-◌, ◌%◌, ◌^◌, Bool, true, false, List, [], ◌∷◌, none, some, if◌then◌else◌}
use xfer.Base.Int.{ℤ, pos, negsuc}
use xfer.Os.{Os, Reply, done, failed}
use xfer.Os.Sockets.{Sockets, SocketOption, reuse_addr, v6_only, no_delay}
use xfer.Os.Action.{
  Action, State, Outcome, returns, pure, call, gets, modify, throw, ◌>>=◌, ◌>>◌, system,
  invalid_argument, bad_file_descriptor, ErrorCode,
}
use xfer.Net.{Socket, is_valid}

-- `Socket()`
abbrev pub no_socket : Socket
no_socket = record { fd = none }

-- `Socket(Socket&& other)`: the new socket, and what is left of `other`.
abbrev pub move_construct : Socket → Socket × Socket
move_construct other = (record { fd = other.fd }, record other { fd = none })

-- `static_cast<std::uint16_t>(port)`
abbrev pub to_u16 : ℤ → ℕ
to_u16 (pos n) = n % 2 ^ 16
to_u16 (negsuc n) = 2 ^ 16 - 1 - n % 2 ^ 16

module _ {W : Type 0} where
  -- `ec = ...`, and the function goes on.
  abbrev pub store_error : ErrorCode → Action W (Unit {0})
  store_error e s = returns tt (record s { ec = e })

module _ (os : Os) where
  -- `Close`, and the destructor.
  unfoldable pub close : Socket → Action os.World Socket
  close sock = elim sock.fd [ none ↦ pure sock | some h ↦ modify (os.close h) >> pure no_socket ]

  -- `operator=(Socket&& other)`, with the test `this == &other`: both sockets afterwards.
  unfoldable pub move_assign : Bool → Socket → Socket → Action os.World (Socket × Socket)
  unfolding close
  move_assign is_self sock other =
      if is_self
      then pure (sock, other)
      else close sock >>= λ _. pure (record { fd = other.fd }, record other { fd = none })

  module _ (sockets : Sockets os.World) where
    -- The loop of `Connect` over the addresses, with -1 in `fd_`.
    connect_loop : List sockets.Address → Action os.World Socket
    connect_loop [] = pure no_socket
    connect_loop (p ∷ ps) = call (sockets.socket_for p) >>= λ made. elim made [
      | failed e ↦ connect_loop ps
      | done h ↦ call (sockets.connect h p) >>= λ reply. elim reply [
        | done _ ↦ pure (record { fd = some h })
        | failed e ↦ close (record { fd = some h }) >>= λ _. connect_loop ps
      ]
    ]

    -- The end of `Connect`.
    connected : Socket → Action os.World (Bool × Socket)
    connected sock =
        if is_valid sock
        then pure (true, sock)
        else gets sockets.errno >>= λ e. store_error (system e) >> pure (false, sock)

    unfoldable pub connect : Socket → List ℕ → ℤ → Action os.World (Bool × Socket)
    unfolding connect_loop connected close
    connect sock host port = close sock >>= λ closed.
        call (sockets.resolve_host host port) >>= λ info. elim info [
          | [] ↦ store_error invalid_argument >> pure (false, closed)
          | p ∷ ps ↦ connect_loop (p ∷ ps) >>= connected
        ]

    -- `Bind` from the options on.
    bind_made : ℤ → ℕ → Action os.World (Bool × Socket)
    bind_made port h = call (sockets.set_option (some h) reuse_addr true) >>= λ _.
        call (sockets.set_option (some h) v6_only false) >>= λ _.
        call (sockets.bind h (to_u16 port)) >>= λ reply. elim reply [
          | done _ ↦ pure (true, record { fd = some h })
          | failed e ↦
              store_error (system e)
              >> (close (record { fd = some h }) >>= λ closed. pure (false, closed))
        ]

    unfoldable pub bind : Socket → ℤ → Action os.World (Bool × Socket)
    unfolding bind_made close
    bind sock port = close sock >>= λ closed. call sockets.socket_inet6 >>= λ made. elim made [
      | failed e ↦ store_error (system e) >> pure (false, closed)
      | done h ↦ bind_made port h
    ]

    -- `Listen` returns true or false, and leaves the socket as it is.
    unfoldable pub listen : Socket → ℕ → Action os.World Bool
    listen sock backlog = elim sock.fd [
      | none ↦ store_error bad_file_descriptor >> pure false
      | some h ↦ call (sockets.listen h backlog) >>= λ reply. elim reply [
        | done _ ↦ pure true
        | failed e ↦ store_error (system e) >> pure false
      ]
    ]

    -- `Accept`: the socket of the peer, invalid when the call failed.
    unfoldable pub accept : Socket → Action os.World Socket
    accept sock = call (sockets.accept sock.fd) >>= λ peer. elim peer [
      | failed e ↦ store_error (system e) >> pure no_socket
      | done h ↦ pure (record { fd = some h })
    ]

    unfoldable pub set_no_delay : Socket → Bool → Action os.World Bool
    set_no_delay sock on = call (sockets.set_option sock.fd no_delay on) >>= λ reply. elim reply [
      | done _ ↦ pure true
      | failed e ↦ store_error (system e) >> pure false
    ]
