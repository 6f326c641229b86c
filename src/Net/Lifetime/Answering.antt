-- ===== src/Net/Lifetime/Answering.antt =====
-- `Connect` in src/net/socket.cpp, when somebody listens at one of the addresses of the host,
-- and `Bind` when no call fails.
use xfer.Base.{
  some, ℕ, ◌≡◌, refl, sym, subst, ◌∙◌, ap, inl, inr, Any, Bool, true, false, List, [], ◌∷◌,
}
use xfer.Base.Int.{ℤ}
use xfer.Os.{Os, Fd, Reply, done, failed}
use xfer.Os.Sockets.{Sockets, reuse_addr, v6_only}
use xfer.Os.Action.{
  Action, State, Outcome, returns, pure, call, after, ◌>>=◌, ◌>>◌, invalid_argument,
}
use xfer.Net.{Socket}
use xfer.Net.Transfer.{socket}
use xfer.Net.Lifetime.{
  no_socket, close, connect_loop, connected, connect, bind_made, bind, to_u16, store_error,
}

module _ (os : Os) (sockets : Sockets os.World) where
  -- A socket for the address can be made, and a connection to it succeeds.
  pub record IsAnswering (a : sockets.Address) : Type 0 where
    pub socket_made :
        (w : os.World) → (h : ℕ) × (w' : os.World) × (sockets.socket_for a w ≡ (done h, w'))
    pub connects :
        (h : ℕ) (w : os.World) → (w' : os.World) × (sockets.connect h a w ≡ (done tt, w'))

  -- The call returns a connected socket.
  abbrev pub Makes : Outcome os.World Socket → Type 0
  Makes r = (h : ℕ) × (t : State os.World) × (r ≡ returns (socket h) t)

  -- The call returns true with a connected socket.
  abbrev pub MakesTrue : Outcome os.World (Bool × Socket) → Type 0
  MakesTrue r = (h : ℕ) × (t : State os.World) × (r ≡ returns (true, socket h) t)

  connect_loop-Makes :
      (ps : List sockets.Address) (s : State os.World)
      → Any IsAnswering ps
      → Makes (connect_loop os sockets ps s)
  unfolding connect_loop close
  connect_loop-Makes [] s nobody = absurd nobody
  connect_loop-Makes (p ∷ ps) s somebody =
      made (sockets.socket_for p s.world) refl (λ t later. connect_loop-Makes ps t later) somebody
    where
      dialled : ℕ → Reply (Unit {0}) → Action os.World Socket
      dialled k reply = elim reply [
        | done _ ↦ pure (record { fd = some k })
        | failed e ↦ close os (record { fd = some k }) >>= λ _. connect_loop os sockets ps
      ]

      opening : Reply ℕ → Action os.World Socket
      opening reply = elim reply [
        | failed e ↦ connect_loop os sockets ps
        | done k ↦ call (sockets.connect k p) >>= dialled k
      ]

      Rest : Type 0
      Rest = (t : State os.World) → Any IsAnswering ps → Makes (connect_loop os sockets ps t)

      ended :
          (k : ℕ) (w : os.World) (r : Reply (Unit {0}) × os.World)
          → sockets.connect k p w ≡ r
          → Rest
          → Any IsAnswering (p ∷ ps)
          → Makes (dialled k r.0 (record s { world = r.1 }))
      ended k w (done u, w') eq again somebody = (k, _, refl)
      ended k w (failed e, w') eq again (inl here) =
          let (w2, eq') = here.connects k w in
          absurd (cc (ap (λ (x : Reply (Unit {0}) × os.World). x.0) (sym eq ∙ eq')))
      ended k w (failed e, w') eq again (inr later) =
          again (record s { world = os.close k w' }) later

      made :
          (r : Reply ℕ × os.World)
          → sockets.socket_for p s.world ≡ r
          → Rest
          → Any IsAnswering (p ∷ ps)
          → Makes (connect_loop os sockets (p ∷ ps) s)
      made (failed e, w) eq again (inl here) =
          let (h, w2, eq') = here.socket_made s.world in
          absurd (cc (ap (λ (x : Reply ℕ × os.World). x.0) (sym eq ∙ eq')))
      made (failed e, w) eq again (inr later) =
          subst (λ (x : Reply ℕ × os.World). Makes (opening x.0 (record s { world = x.1 })))
            (sym eq) (again (record s { world = w }) later)
      made (done k, w) eq again somebody =
          subst (λ (x : Reply ℕ × os.World). Makes (opening x.0 (record s { world = x.1 })))
            (sym eq) (ended k w (sockets.connect k p w) refl again somebody)

  -- When an address of the host answers, `Connect` returns true.
  pub connect-MakesTrue :
      (host : List ℕ) (port : ℤ) (s : State os.World)
      → Any IsAnswering (sockets.resolve_host host port s.world).0
      → MakesTrue (connect os sockets no_socket host port s)
  unfolding connect close connected
  connect-MakesTrue host port s somebody =
      resolved (sockets.resolve_host host port s.world) somebody
    where
      dialling : List sockets.Address → Action os.World (Bool × Socket)
      dialling info = elim info [
        | [] ↦ store_error invalid_argument >> pure (false, no_socket)
        | p ∷ ps ↦ connect_loop os sockets (p ∷ ps) >>= connected os sockets
      ]

      finished :
          (r : Outcome os.World Socket) → Makes r → MakesTrue (after r (connected os sockets))
      finished r (h, t, e) = (h, t, ap (λ x. after x (connected os sockets)) e)

      resolved :
          (r : List sockets.Address × os.World)
          → Any IsAnswering r.0
          → MakesTrue (dialling r.0 (record s { world = r.1 }))
      resolved ([], w) nobody = absurd nobody
      resolved (p ∷ ps, w) somebody =
          finished _ (connect_loop-Makes (p ∷ ps) (record s { world = w }) somebody)

  -- The calls that wait for a peer succeed.
  pub record IsServing : Type 0 where
    pub socket_made :
        (w : os.World) → (h : ℕ) × (w' : os.World) × (sockets.socket_inet6 w ≡ (done h, w'))
    pub binds :
        (h port : ℕ) (w : os.World) → (w' : os.World) × (sockets.bind h port w ≡ (done tt, w'))
    pub listens :
        (h backlog : ℕ) (w : os.World)
        → (w' : os.World) × (sockets.listen h backlog w ≡ (done tt, w'))
    pub accepts :
        (fd : Fd) (w : os.World) → (h : ℕ) × (w' : os.World) × (sockets.accept fd w ≡ (done h, w'))

  module _ (serving : IsServing) where
    pub bind-MakesTrue :
        (port : ℤ) (s : State os.World) → MakesTrue (bind os sockets no_socket port s)
    unfolding bind bind_made close
    bind-MakesTrue port s =
        let (h, w, e) = serving.socket_made s.world in
        let w1 = (sockets.set_option (some h) reuse_addr true w).1 in
        let w2 = (sockets.set_option (some h) v6_only false w1).1 in
        let (w3, e') = serving.binds h (to_u16 port) w2 in
        (h, record s { world = w3 }, rw (e, e') refl)
