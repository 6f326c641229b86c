-- ===== src/Net/Lifetime/Kept.antt =====
-- What the calls on a connection's beginning and end leave alone, src/net/socket.cpp leaves alone.
use xfer.Base.{ℕ, ◌≡◌, refl, sym, subst, Bool, true, false, List, [], ◌∷◌, none, some}
use xfer.Base.Int.{ℤ}
use xfer.Os.{Os, Fd, Reply, done, failed}
use xfer.Os.Sockets.{Sockets, SocketOption, reuse_addr, v6_only}
use xfer.Os.Action.{
  Action, State, Outcome, pure, call, ◌>>=◌, ◌>>◌, Ensures, Ensures-after, system, invalid_argument,
}
use xfer.Net.{Socket, is_valid}
use xfer.Net.Lifetime.{
  no_socket, close, connect_loop, connected, connect, bind_made, bind, listen, accept, store_error,
  to_u16,
}

module _ (os : Os) (sockets : Sockets os.World) (P : os.World → Type 0) where
  -- No call of the kernel on a connection's beginning or end changes what `P` is about.
  pub record IsKept : Type 0 where
    pub close_keeps : (h : ℕ) (w : os.World) → P w → P (os.close h w)
    pub resolve_keeps :
        (host : List ℕ) (port : ℤ) (w : os.World) → P w → P (sockets.resolve_host host port w).1
    pub socket_for_keeps : (a : sockets.Address) (w : os.World) → P w → P (sockets.socket_for a w).1
    pub socket_inet6_keeps : (w : os.World) → P w → P (sockets.socket_inet6 w).1
    pub connect_keeps :
        (h : ℕ) (a : sockets.Address) (w : os.World) → P w → P (sockets.connect h a w).1
    pub set_option_keeps :
        (fd : Fd) (option : SocketOption) (on : Bool) (w : os.World)
        → P w
        → P (sockets.set_option fd option on w).1
    pub bind_keeps : (h port : ℕ) (w : os.World) → P w → P (sockets.bind h port w).1
    pub listen_keeps : (h backlog : ℕ) (w : os.World) → P w → P (sockets.listen h backlog w).1
    pub accept_keeps : (fd : Fd) (w : os.World) → P w → P (sockets.accept fd w).1

  module _ (kept : IsKept) where
    abbrev pub Kept : {A : Type 0} → (A → Type 0) → Outcome os.World A → Type 0
    Kept Q = Ensures (λ a t. Q a × P t.world) (λ _. ⊥)

    -- It returns true just when the socket is valid.
    abbrev pub IsAnswer : Bool × Socket → Type 0
    IsAnswer r = is_valid r.1 ≡ r.0

    pub close-Kept :
        (sock : Socket) (s : State os.World)
        → P s.world
        → Kept (λ x. x ≡ no_socket) (close os sock s)
    unfolding close
    close-Kept sock s h = by_fd sock.fd
      where
        by_fd : (fd : Fd) → Kept (λ x. x ≡ no_socket) (close os (record { fd = fd }) s)
        by_fd none = (refl, h)
        by_fd (some k) = (refl, kept.close_keeps k s.world h)

    connect_loop-Kept :
        (ps : List sockets.Address) (s : State os.World)
        → P s.world
        → Kept (λ _. Unit {0}) (connect_loop os sockets ps s)
    unfolding connect_loop
    connect_loop-Kept [] s h = (tt, h)
    connect_loop-Kept (p ∷ ps) s h =
        made (connect_loop-Kept ps) (sockets.socket_for p s.world)
          (kept.socket_for_keeps p s.world h)
      where
        Rest : Type 0
        Rest =
            (u : State os.World) → P u.world → Kept (λ _. Unit {0}) (connect_loop os sockets ps u)

        dialled : ℕ → Reply (Unit {0}) → Action os.World Socket
        dialled k reply = elim reply [
          | done _ ↦ pure (record { fd = some k })
          | failed e ↦ close os (record { fd = some k }) >>= λ _. connect_loop os sockets ps
        ]

        opening : Reply ℕ → Action os.World Socket
        opening reply = elim reply [
          | failed e ↦ connect_loop os sockets ps
          | done k ↦ call (sockets.connect k p) >>= dialled k
        ]

        ended :
            Rest
            → (k : ℕ) (reply : Reply (Unit {0})) (t : State os.World) → P t.world
            → Kept (λ _. Unit {0}) (dialled k reply t)
        ended again k (done _) t h = (tt, h)
        ended again k (failed e) t h =
            Ensures-after (λ x u. (x ≡ no_socket) × P u.world) (λ _ u. Unit {0} × P u.world)
              (λ _. ⊥) (close os (record { fd = some k }) t) (λ _. connect_loop os sockets ps)
              (close-Kept (record { fd = some k }) t h) (λ _ u (_, h'). again u h')

        made :
            Rest
            → (r : Reply ℕ × os.World) → P r.1
            → Kept (λ _. Unit {0}) (opening r.0 (record s { world = r.1 }))
        made again (failed e, w) h = again (record s { world = w }) h
        made again (done k, w) h =
            let r = sockets.connect k p w in
            ended again k r.0 (record s { world = r.1 }) (kept.connect_keeps k p w h)

    connected-Kept :
        (sock : Socket) (s : State os.World)
        → P s.world
        → Kept IsAnswer (connected os sockets sock s)
    unfolding connected
    connected-Kept sock s h = by_fd sock.fd
      where
        by_fd : (fd : Fd) → Kept IsAnswer (connected os sockets (record { fd = fd }) s)
        by_fd none = (refl, h)
        by_fd (some k) = (refl, h)

    pub connect-Kept :
        (sock : Socket) (host : List ℕ) (port : ℤ) (s : State os.World)
        → P s.world
        → Kept IsAnswer (connect os sockets sock host port s)
    unfolding connect
    connect-Kept sock host port s h =
        Ensures-after (λ x u. (x ≡ no_socket) × P u.world) (λ r u. IsAnswer r × P u.world) (λ _. ⊥)
          (close os sock s) (λ closed. call (sockets.resolve_host host port) >>= dialling closed)
          (close-Kept sock s h)
          (λ closed t (now, h').
            resolved closed (sockets.resolve_host host port t.world) t now
              (kept.resolve_keeps host port t.world h'))
      where
        dialling : Socket → List sockets.Address → Action os.World (Bool × Socket)
        dialling closed info = elim info [
          | [] ↦ store_error invalid_argument >> pure (false, closed)
          | p ∷ ps ↦ connect_loop os sockets (p ∷ ps) >>= connected os sockets
        ]

        resolved :
            (closed : Socket) (r : List sockets.Address × os.World) (t : State os.World)
            → closed ≡ no_socket
            → P r.1
            → Kept IsAnswer (dialling closed r.0 (record t { world = r.1 }))
        resolved closed ([], w) t now h = (subst (λ x. is_valid x ≡ false) (sym now) refl, h)
        resolved closed (p ∷ ps, w) t now h =
            Ensures-after (λ x u. Unit {0} × P u.world) (λ r u. IsAnswer r × P u.world) (λ _. ⊥)
              (connect_loop os sockets (p ∷ ps) (record t { world = w })) (connected os sockets)
              (connect_loop-Kept (p ∷ ps) (record t { world = w }) h)
              (λ x u (_, h'). connected-Kept x u h')

    bind_made-Kept :
        (port : ℤ) (k : ℕ) (s : State os.World)
        → P s.world
        → Kept IsAnswer (bind_made os sockets port k s)
    unfolding bind_made
    bind_made-Kept port k s h = bound (sockets.bind k (to_u16 port) w2) (
        kept.bind_keeps k (to_u16 port) w2 (
          kept.set_option_keeps (some k) v6_only false w1
            (kept.set_option_keeps (some k) reuse_addr true s.world h)))
      where
        w1 : os.World
        w1 = (sockets.set_option (some k) reuse_addr true s.world).1

        w2 : os.World
        w2 = (sockets.set_option (some k) v6_only false w1).1

        ending : Reply (Unit {0}) → Action os.World (Bool × Socket)
        ending reply = elim reply [
          | done _ ↦ pure (true, record { fd = some k })
          | failed e ↦
              store_error (system e)
              >> (close os (record { fd = some k }) >>= λ closed. pure (false, closed))
        ]

        bound :
            (r : Reply (Unit {0}) × os.World)
            → P r.1
            → Kept IsAnswer (ending r.0 (record s { world = r.1 }))
        bound (done _, w) h = (refl, h)
        bound (failed e, w) h =
            Ensures-after (λ x u. (x ≡ no_socket) × P u.world) (λ r u. IsAnswer r × P u.world)
              (λ _. ⊥) (close os (record { fd = some k }) (record { world = w; ec = system e }))
              (λ closed. pure (false, closed))
              (close-Kept (record { fd = some k }) (record { world = w; ec = system e }) h)
              (λ closed u (now, h'). (subst (λ x. is_valid x ≡ false) (sym now) refl, h'))

    pub bind-Kept :
        (sock : Socket) (port : ℤ) (s : State os.World)
        → P s.world
        → Kept IsAnswer (bind os sockets sock port s)
    unfolding bind
    bind-Kept sock port s h =
        Ensures-after (λ x u. (x ≡ no_socket) × P u.world) (λ r u. IsAnswer r × P u.world) (λ _. ⊥)
          (close os sock s) (λ closed. call sockets.socket_inet6 >>= making closed)
          (close-Kept sock s h)
          (λ closed t (now, h').
            made closed t now (sockets.socket_inet6 t.world) (kept.socket_inet6_keeps t.world h'))
      where
        making : Socket → Reply ℕ → Action os.World (Bool × Socket)
        making closed reply = elim reply [
          | failed e ↦ store_error (system e) >> pure (false, closed)
          | done k ↦ bind_made os sockets port k
        ]

        made :
            (closed : Socket) (t : State os.World)
            → closed ≡ no_socket
            → (r : Reply ℕ × os.World) → P r.1
            → Kept IsAnswer (making closed r.0 (record t { world = r.1 }))
        made closed t now (failed e, w) h = (subst (λ x. is_valid x ≡ false) (sym now) refl, h)
        made closed t now (done k, w) h = bind_made-Kept port k (record t { world = w }) h

    pub listen-Kept :
        (sock : Socket) (backlog : ℕ) (s : State os.World)
        → P s.world
        → Kept (λ _. Unit {0}) (listen os sockets sock backlog s)
    unfolding listen
    listen-Kept sock backlog s h = by_fd sock.fd
      where
        answer : Reply (Unit {0}) → Action os.World Bool
        answer reply = elim reply [
          | done _ ↦ pure true
          | failed e ↦ store_error (system e) >> pure false
        ]

        answered :
            (r : Reply (Unit {0}) × os.World)
            → P r.1
            → Kept (λ _. Unit {0}) (answer r.0 (record s { world = r.1 }))
        answered (done _, w) h = (tt, h)
        answered (failed e, w) h = (tt, h)

        by_fd : (fd : Fd) → Kept (λ _. Unit {0}) (listen os sockets (record { fd = fd }) backlog s)
        by_fd none = (tt, h)
        by_fd (some k) =
            answered (sockets.listen k backlog s.world) (kept.listen_keeps k backlog s.world h)

    pub accept-Kept :
        (sock : Socket) (s : State os.World)
        → P s.world
        → Kept (λ _. Unit {0}) (accept os sockets sock s)
    unfolding accept
    accept-Kept sock s h =
        answered (sockets.accept sock.fd s.world) (kept.accept_keeps sock.fd s.world h)
      where
        answer : Reply ℕ → Action os.World Socket
        answer peer = elim peer [
          | failed e ↦ store_error (system e) >> pure no_socket
          | done k ↦ pure (record { fd = some k })
        ]

        answered :
            (r : Reply ℕ × os.World)
            → P r.1
            → Kept (λ _. Unit {0}) (answer r.0 (record s { world = r.1 }))
        answered (done k, w) h = (tt, h)
        answered (failed e, w) h = (tt, h)
