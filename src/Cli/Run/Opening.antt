-- ===== src/Cli/Run/Opening.antt =====
-- `BindAndAccept` and `DialOut` in src/cli.cpp: what the calls on a connection leave alone, they leave
-- alone.
use xfer.Base.{ℕ, ◌≡◌, refl, subst, sym, Bool, true, false, List, if◌then◌else◌}
use xfer.Base.Int.{ℤ}
use xfer.Os.{Os}
use xfer.Os.Sockets.{Sockets}
use xfer.Os.Action.{Action, State, Outcome, pure, ◌>>=◌, Ensures-after}
use xfer.Net.{Socket, is_valid}
use xfer.Net.Lifetime.{no_socket, close, move_assign, connect, bind, listen, accept}
use xfer.Net.Lifetime.Kept.{
  IsKept, Kept, IsAnswer, close-Kept, connect-Kept, bind-Kept, listen-Kept, accept-Kept,
}
use xfer.Cli.Run.{assign, accept_from, give_up, bind_and_accept, dial_out}

module _ (os : Os) (sockets : Sockets os.World) (P : os.World → Type 0)
    (kept : IsKept os sockets P) where
  abbrev Ends : {A : Type 0} → (A → Type 0) → Outcome os.World A → Type 0
  Ends = Kept os sockets P kept

  abbrev Answer : Bool × Socket → Type 0
  Answer = IsAnswer os sockets P kept

  assign-Kept :
      (out other : Socket) (s : State os.World)
      → P s.world
      → Ends (λ x. x ≡ other) (assign os sockets out other s)
  unfolding assign move_assign close
  assign-Kept out other s h =
      Ensures-after (λ (m : Socket × Socket) u. (m ≡ (other, no_socket)) × P u.world)
        (λ x u. (x ≡ other) × P u.world) (λ _. ⊥) (move_assign os false out other s)
        (λ (m : Socket × Socket). close os m.1 >>= λ _. pure m.0)
        (Ensures-after (λ x u. (x ≡ no_socket) × P u.world)
          (λ m u. (m ≡ (other, no_socket)) × P u.world) (λ _. ⊥) (close os out s)
          (λ _. pure (other, no_socket)) (close-Kept os sockets P kept out s h)
          (λ x u (_, h'). (refl, h')))
        (λ m u (e, h').
          subst
            (λ (m : Socket × Socket). Ends (λ x. x ≡ other) ((close os m.1 >>= λ _. pure m.0) u))
            (sym e) (refl, h'))

  give_up-Kept :
      (sock : Socket) (s : State os.World)
      → P s.world
      → Ends Answer (give_up os sockets sock no_socket s)
  unfolding give_up
  give_up-Kept sock s h =
      Ensures-after (λ x u. (x ≡ no_socket) × P u.world) (λ r u. Answer r × P u.world) (λ _. ⊥)
        (close os sock s) (λ _. pure (false, no_socket)) (close-Kept os sockets P kept sock s h)
        (λ x u (_, h'). (refl, h'))

  accept_from-Kept :
      (listener : Socket) (s : State os.World)
      → P s.world
      → Ends Answer (accept_from os sockets listener no_socket s)
  unfolding accept_from
  accept_from-Kept listener s h =
      Ensures-after (λ _ u. Unit {0} × P u.world) (λ r u. Answer r × P u.world) (λ _. ⊥)
        (accept os sockets listener s) assigning (accept-Kept os sockets P kept listener s h)
        (λ peer t (_, h1).
          Ensures-after (λ x u. (x ≡ peer) × P u.world) (λ r u. Answer r × P u.world) (λ _. ⊥)
            (assign os sockets no_socket peer t) closing_listener (assign-Kept no_socket peer t h1)
            (λ out' u (_, h2).
              Ensures-after (λ x v. (x ≡ no_socket) × P v.world) (λ r v. Answer r × P v.world)
                (λ _. ⊥) (close os listener u) (λ _. pure (is_valid out', out'))
                (close-Kept os sockets P kept listener u h2) (λ x v (_, h3). (refl, h3))))
    where
      closing_listener : Socket → Action os.World (Bool × Socket)
      closing_listener out' = close os listener >>= λ _. pure (is_valid out', out')

      assigning : Socket → Action os.World (Bool × Socket)
      assigning peer = assign os sockets no_socket peer >>= closing_listener

  pub bind_and_accept-Kept :
      (port : ℤ) (s : State os.World)
      → P s.world
      → Ends Answer (bind_and_accept os sockets port no_socket s)
  unfolding bind_and_accept
  bind_and_accept-Kept port s h =
      Ensures-after (λ r u. Answer r × P u.world) (λ r u. Answer r × P u.world) (λ _. ⊥)
        (bind os sockets no_socket port s) listening
        (bind-Kept os sockets P kept no_socket port s h) (λ r t (_, h1). bound r.0 r.1 t h1)
    where
      accepting : Socket → Bool → Action os.World (Bool × Socket)
      accepting sock ok =
          if ok then accept_from os sockets sock no_socket else give_up os sockets sock no_socket

      listening : Bool × Socket → Action os.World (Bool × Socket)
      listening bound =
          if bound.0
          then (listen os sockets bound.1 16 >>= accepting bound.1)
          else give_up os sockets bound.1 no_socket

      accepted :
          (sock : Socket) (ok : Bool) (u : State os.World)
          → P u.world
          → Ends Answer (accepting sock ok u)
      accepted sock true u h = accept_from-Kept sock u h
      accepted sock false u h = give_up-Kept sock u h

      bound :
          (ok : Bool) (sock : Socket) (t : State os.World)
          → P t.world
          → Ends Answer (listening (ok, sock) t)
      bound true sock t h =
          Ensures-after (λ _ u. Unit {0} × P u.world) (λ r u. Answer r × P u.world) (λ _. ⊥)
            (listen os sockets sock 16 t) (accepting sock)
            (listen-Kept os sockets P kept sock 16 t h) (λ ok u (_, h'). accepted sock ok u h')
      bound false sock t h = give_up-Kept sock t h

  pub dial_out-Kept :
      (host : List ℕ) (port : ℤ) (s : State os.World)
      → P s.world
      → Ends Answer (dial_out os sockets host port no_socket s)
  unfolding dial_out
  dial_out-Kept host port s h =
      Ensures-after (λ r u. Answer r × P u.world) (λ r u. Answer r × P u.world) (λ _. ⊥)
        (connect os sockets no_socket host port s) moving
        (connect-Kept os sockets P kept no_socket host port s h)
        (λ r t (e, h1). made r.0 r.1 t e h1)
    where
      moving : Bool × Socket → Action os.World (Bool × Socket)
      moving made =
          if made.0
          then (assign os sockets no_socket made.1 >>= λ out'. pure (true, out'))
          else give_up os sockets made.1 no_socket

      made :
          (ok : Bool) (sock : Socket) (t : State os.World)
          → is_valid sock ≡ ok
          → P t.world
          → Ends Answer (moving (ok, sock) t)
      made true sock t e h =
          Ensures-after (λ x u. (x ≡ sock) × P u.world) (λ r u. Answer r × P u.world) (λ _. ⊥)
            (assign os sockets no_socket sock t) (λ out'. pure (true, out'))
            (assign-Kept no_socket sock t h)
            (λ x u (same, h'). (subst (λ y. is_valid y ≡ true) (sym same) e, h'))
      made false sock t e h = give_up-Kept sock t h
