-- ===== src/Net/Lifetime/Table.antt =====
-- The life of a socket and the table of open descriptors: a socket accounts for what it opens.
use xfer.Base.{ℕ, ◌≡◌, refl, ap, subst, sym, ◌∙◌, Bool, true, false, List, [], ◌∷◌, none, some}
use xfer.Base.Int.{ℤ}
use xfer.Os.{Os, Fd, Reply, done, failed}
use xfer.Os.Sockets.{
  without_fd-with_fd, Sockets, Table, IsTable, IsNewFd, with_fd, without_fd, reuse_addr, v6_only,
}
use xfer.Os.Action.{
  Action, State, Outcome, pure, call, ◌>>=◌, ◌>>◌, Ensures, Ensures-after, system, invalid_argument,
}
use xfer.Net.{Socket, is_valid}
use xfer.Net.Lifetime.{
  no_socket, close, connect_loop, connected, connect, bind_made, to_u16, bind, store_error,
}

module _ (os : Os) (sockets : Sockets os.World) (opened : os.World → Table)
    (table : IsTable os sockets opened) where
  module _ (base : Table) where
    unfoldable pub HoldsFd : Fd → os.World → Type 0
    HoldsFd none w = opened w ≡ base
    HoldsFd (some h) w = (base h ≡ false) × (opened w ≡ with_fd h base)

    -- Besides the descriptors of `base`, just that of the socket is open.
    unfoldable pub Holds : Socket → os.World → Type 0
    unfolding HoldsFd
    Holds sock w = HoldsFd sock.fd w

    -- The call comes back, and the socket it leaves accounts for what is open.
    abbrev pub KeepsTable : Outcome os.World Socket → Type 0
    KeepsTable = Ensures (λ sock t. Holds sock t.world) (λ _. ⊥)

    -- The same, and it returns true just when the socket is valid.
    abbrev pub OpensOrNot : Outcome os.World (Bool × Socket) → Type 0
    OpensOrNot = Ensures (λ r t. Holds r.1 t.world × (is_valid r.1 ≡ r.0)) (λ _. ⊥)

    -- Nothing but `base` is open.
    unfoldable pub IsClosed : Socket → State os.World → Type 0
    IsClosed sock t = (sock ≡ no_socket) × (opened t.world ≡ base)

    pub close-IsClosed :
        (sock : Socket) (s : State os.World)
        → Holds sock s.world
        → Ensures IsClosed (λ _. ⊥) (close os sock s)
    unfolding Holds close IsClosed
    close-IsClosed sock s holds = by_fd sock.fd holds
      where
        by_fd :
            (fd : Fd)
            → HoldsFd fd s.world
            → Ensures IsClosed (λ _. ⊥) (close os (record { fd = fd }) s)
        by_fd none clean = (refl, clean)
        by_fd (some h) (new, holds) = (
          refl,
          table.close_lem h s.world ∙ ap (without_fd h) holds ∙ without_fd-with_fd base h new,
        )

    -- A new descriptor is one that `base` does not have.
    new_fd-HoldsFd :
        (w w' : os.World) (h : ℕ)
        → opened w ≡ base
        → IsNewFd opened w (done h, w')
        → HoldsFd (some h) w'
    unfolding HoldsFd
    new_fd-HoldsFd w w' h clean (new, more) =
        (ap (λ (t : Table). t h) (sym clean) ∙ new, more ∙ ap (with_fd h) clean)

    pub same_table-Holds :
        (sock : Socket) (w w' : os.World) → Holds sock w → opened w' ≡ opened w → Holds sock w'
    unfolding Holds
    same_table-Holds sock w w' holds same = by_fd sock.fd holds
      where
        by_fd : (fd : Fd) → HoldsFd fd w → HoldsFd fd w'
        by_fd none clean = same ∙ clean
        by_fd (some h) (new, more) = (new, same ∙ more)

    connect_loop-Holds :
        (ps : List sockets.Address) (s : State os.World)
        → opened s.world ≡ base
        → KeepsTable (connect_loop os sockets ps s)
    unfolding connect_loop Holds IsClosed
    connect_loop-Holds [] s clean = clean
    connect_loop-Holds (p ∷ ps) s clean =
        made (connect_loop-Holds ps) (sockets.socket_for p s.world) (table.socket_for_lem p s.world)
      where
        Rest : Type 0
        Rest =
            (u : State os.World) → opened u.world ≡ base → KeepsTable (connect_loop os sockets ps u)

        dialled : ℕ → Reply (Unit {0}) → Action os.World Socket
        dialled h reply = elim reply [
          | done _ ↦ pure (record { fd = some h })
          | failed e ↦ close os (record { fd = some h }) >>= λ _. connect_loop os sockets ps
        ]

        dialled-Holds :
            Rest
            → (h : ℕ) (reply : Reply (Unit {0})) (t : State os.World) → HoldsFd (some h) t.world
            → KeepsTable (dialled h reply t)
        dialled-Holds again h (done _) t holds = holds
        dialled-Holds again h (failed e) t holds =
            Ensures-after IsClosed (λ sock u. Holds sock u.world) (λ _. ⊥)
              (close os (record { fd = some h }) t) (λ _. connect_loop os sockets ps)
              (close-IsClosed (record { fd = some h }) t holds) (λ sock u closed. again u closed.1)

        opening : Reply ℕ → Action os.World Socket
        opening reply = elim reply [
          | failed e ↦ connect_loop os sockets ps
          | done h ↦ call (sockets.connect h p) >>= dialled h
        ]

        made :
            Rest
            → (r : Reply ℕ × os.World) → IsNewFd opened s.world r
            → KeepsTable (opening r.0 (record s { world = r.1 }))
        made again (failed e, w) same = again (record s { world = w }) (same ∙ clean)
        made again (done h, w) new =
            let r = sockets.connect h p w in
            dialled-Holds again h r.0 (record s { world = r.1 })
              (same_table-Holds (record { fd = some h }) w r.1
                (new_fd-HoldsFd s.world w h clean new) (table.connect_lem h p w))

    connected-OpensOrNot :
        (sock : Socket) (s : State os.World)
        → Holds sock s.world
        → OpensOrNot (connected os sockets sock s)
    unfolding connected Holds
    connected-OpensOrNot sock s holds = by_fd sock.fd holds
      where
        by_fd :
            (fd : Fd)
            → HoldsFd fd s.world
            → OpensOrNot (connected os sockets (record { fd = fd }) s)
        by_fd none clean = (clean, refl)
        by_fd (some h) holds = (holds, refl)

    -- `Connect` on a socket that accounts for what is open comes back with one that does: whatever is
    -- refused, no descriptor is lost. It returns true just when the socket is valid.
    pub connect_lem :
        (sock : Socket) (host : List ℕ) (port : ℤ) (s : State os.World)
        → Holds sock s.world
        → OpensOrNot (connect os sockets sock host port s)
    unfolding connect Holds IsClosed
    connect_lem sock host port s holds =
        Ensures-after IsClosed (λ r u. Holds r.1 u.world × (is_valid r.1 ≡ r.0)) (λ _. ⊥)
          (close os sock s) resolving (close-IsClosed sock s holds)
          (λ closed t now.
            resolved closed (sockets.resolve_host host port t.world) t now.0
              (table.resolve_lem host port t.world ∙ now.1))
      where
        dialling : Socket → List sockets.Address → Action os.World (Bool × Socket)
        dialling closed info = elim info [
          | [] ↦ store_error invalid_argument >> pure (false, closed)
          | p ∷ ps ↦ connect_loop os sockets (p ∷ ps) >>= connected os sockets
        ]

        resolving : Socket → Action os.World (Bool × Socket)
        resolving closed = call (sockets.resolve_host host port) >>= dialling closed

        resolved :
            (closed : Socket) (r : List sockets.Address × os.World) (t : State os.World)
            → closed ≡ no_socket
            → opened r.1 ≡ base
            → OpensOrNot (dialling closed r.0 (record t { world = r.1 }))
        resolved closed ([], w) t now clean =
            subst (λ (x : Socket). HoldsFd x.fd w × (is_valid x ≡ false)) (sym now) (clean, refl)
        resolved closed (p ∷ ps, w) t now clean =
            Ensures-after (λ x u. Holds x u.world) (λ r u. Holds r.1 u.world × (is_valid r.1 ≡ r.0))
              (λ _. ⊥) (connect_loop os sockets (p ∷ ps) (record t { world = w }))
              (connected os sockets) (connect_loop-Holds (p ∷ ps) (record t { world = w }) clean)
              connected-OpensOrNot

    bind_made-OpensOrNot :
        (port : ℤ) (h : ℕ) (s : State os.World)
        → HoldsFd (some h) s.world
        → OpensOrNot (bind_made os sockets port h s)
    unfolding bind_made Holds IsClosed
    bind_made-OpensOrNot port h s holds = bound (sockets.bind h (to_u16 port) w2) (
        same_table-Holds sock w2 (sockets.bind h (to_u16 port) w2).1
          (same_table-Holds sock w1 w2
            (same_table-Holds sock s.world w1 holds
              (table.set_option_lem (some h) reuse_addr true s.world))
            (table.set_option_lem (some h) v6_only false w1))
          (table.bind_lem h (to_u16 port) w2))
      where
        sock : Socket
        sock = record { fd = some h }

        w1 : os.World
        w1 = (sockets.set_option (some h) reuse_addr true s.world).1

        w2 : os.World
        w2 = (sockets.set_option (some h) v6_only false w1).1

        ending : Reply (Unit {0}) → Action os.World (Bool × Socket)
        ending reply = elim reply [
          | done _ ↦ pure (true, record { fd = some h })
          | failed e ↦
              store_error (system e)
              >> (close os (record { fd = some h }) >>= λ closed. pure (false, closed))
        ]

        bound :
            (r : Reply (Unit {0}) × os.World)
            → HoldsFd (some h) r.1
            → OpensOrNot (ending r.0 (record s { world = r.1 }))
        bound (done _, w) holds = (holds, refl)
        bound (failed e, w) holds =
            Ensures-after IsClosed (λ r u. Holds r.1 u.world × (is_valid r.1 ≡ r.0)) (λ _. ⊥)
              (close os sock (record { world = w; ec = system e })) (λ closed. pure (false, closed))
              (close-IsClosed sock (record { world = w; ec = system e }) holds)
              (λ closed u now.
                subst (λ (x : Socket). HoldsFd x.fd u.world × (is_valid x ≡ false)) (sym now.0)
                  (now.1, refl))

    -- The same of `Bind`.
    pub bind_lem :
        (sock : Socket) (port : ℤ) (s : State os.World)
        → Holds sock s.world
        → OpensOrNot (bind os sockets sock port s)
    unfolding bind Holds IsClosed
    bind_lem sock port s holds =
        Ensures-after IsClosed (λ r u. Holds r.1 u.world × (is_valid r.1 ≡ r.0)) (λ _. ⊥)
          (close os sock s) (λ closed. call sockets.socket_inet6 >>= making closed)
          (close-IsClosed sock s holds)
          (λ closed t now.
            made closed t now (sockets.socket_inet6 t.world) (table.socket_inet6_lem t.world))
      where
        making : Socket → Reply ℕ → Action os.World (Bool × Socket)
        making closed reply = elim reply [
          | failed e ↦ store_error (system e) >> pure (false, closed)
          | done h ↦ bind_made os sockets port h
        ]

        made :
            (closed : Socket) (t : State os.World)
            → IsClosed closed t
            → (r : Reply ℕ × os.World) → IsNewFd opened t.world r
            → OpensOrNot (making closed r.0 (record t { world = r.1 }))
        made closed t now (failed e, w) same =
            subst (λ (x : Socket). HoldsFd x.fd w × (is_valid x ≡ false)) (sym now.0)
              (same ∙ now.1, refl)
        made closed t now (done h, w) new =
            bind_made-OpensOrNot port h (record t { world = w })
              (new_fd-HoldsFd t.world w h now.1 new)
