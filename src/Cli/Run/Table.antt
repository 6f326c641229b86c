-- ===== src/Cli/Run/Table.antt =====
-- `BindAndAccept` and `DialOut` in src/cli.cpp and the table of open descriptors.
use mathlib.Core.Path.{fun_ext}
use xfer.Base.{
  ℕ, ◌≡◌, refl, ap, subst, sym, ◌∙◌, arith, Bool, true, false, List, none, some, inl, inr,
  Bool-cases, ==_iff, ==_self, ◌==◌, if◌then◌else◌,
}
use xfer.Base.Int.{ℤ}
use xfer.Os.{Os, Fd}
use xfer.Os.Sockets.{without_fd-with_fd, Sockets, Table, IsTable, with_fd, without_fd}
use xfer.Os.Action.{Action, State, Outcome, returns, pure, ◌>>=◌, Ensures-after, after}
use xfer.Net.{Socket, is_valid}
use xfer.Net.Lifetime.{no_socket, close, move_assign, connect, bind, listen, accept}
use xfer.Net.Lifetime.Table.{
  Holds, HoldsFd, IsClosed, OpensOrNot, close-IsClosed, connect_lem, bind_lem, same_table-Holds,
}
use xfer.Net.Lifetime.Reach.{accept_lem, listen-SameTable}
use xfer.Cli.Run.{assign, accept_from, give_up, bind_and_accept, dial_out}

-- Closing the listener leaves the connection.
without_fd-two :
    (base : Table) (l p : ℕ)
    → base l ≡ false
    → with_fd l base p ≡ false
    → without_fd l (with_fd p (with_fd l base)) ≡ with_fd p base
without_fd-two base l p new other = fun_ext λ k. elim (Bool-cases (k == l)) [
  | inl e ↦ rw (e, (==_iff k l).0 e, apart, new) refl
  | inr e ↦ rw e refl
]
  where
    apart : (l == p) ≡ false
    apart = elim (Bool-cases (l == p)) [
      | inl e ↦ absurd (itself p (subst (λ x. with_fd x base p ≡ false) ((==_iff l p).0 e) other))
      | inr e ↦ e
    ]
      where
        itself : (p : ℕ) → with_fd p base p ≡ false → ⊥
        itself p h = cc (sym (ap (λ b. if b then true else base p) (==_self p)) ∙ h)

with_fd-before : (base : Table) (l p : ℕ) → with_fd l base p ≡ false → base p ≡ false
with_fd-before base l p h = ground arith

module _ (os : Os) (sockets : Sockets os.World) (opened : os.World → Table)
    (table : IsTable os sockets opened) where
  module _ (base : Table) where
    abbrev Opens : Outcome os.World (Bool × Socket) → Type 0
    Opens = OpensOrNot os sockets opened table base

    assign-returns :
        (other : Socket) (s : State os.World)
        → assign os sockets no_socket other s ≡ returns other s
    unfolding assign move_assign close
    assign-returns other s = refl

    give_up-OpensOrNot :
        (sock : Socket) (s : State os.World)
        → Holds os sockets opened table base sock s.world
        → Opens (give_up os sockets sock no_socket s)
    unfolding give_up Holds HoldsFd IsClosed
    give_up-OpensOrNot sock s holds =
        Ensures-after (IsClosed os sockets opened table base)
          (λ r t. Holds os sockets opened table base r.1 t.world × (is_valid r.1 ≡ r.0)) (λ _. ⊥)
          (close os sock s) (λ _. pure (false, no_socket))
          (close-IsClosed os sockets opened table base sock s holds) (λ x t now. (now.1, refl))

    -- The peer's descriptor is new next to the listener's, which is then closed.
    close_listener :
        (listener peer : Socket) (s t : State os.World)
        → Holds os sockets opened table base listener s.world
        → Holds os sockets opened table (opened s.world) peer t.world
        → Opens ((close os listener >>= λ _. pure (is_valid peer, peer)) t)
    unfolding Holds HoldsFd close
    close_listener listener peer s t holds new = by_fds listener.fd peer.fd holds new
      where
        by_fds :
            (l p : Fd)
            → HoldsFd os sockets opened table base l s.world
            → HoldsFd os sockets opened table (opened s.world) p t.world
            → Opens (
                (close os (record { fd = l }) >>= λ _.
                pure (is_valid (record { fd = p }), record { fd = p }))
                  t)
        by_fds none none holds new = (new ∙ holds, refl)
        by_fds none (some p) holds (free, more) =
            ((ap (λ (b : Table). b p) (sym holds) ∙ free, more ∙ ap (with_fd p) holds), refl)
        by_fds (some l) none (free, holds) new = (
          table.close_lem l t.world
              ∙ ap (without_fd l) (new ∙ holds)
              ∙ without_fd-with_fd base l free,
          refl,
        )
        by_fds (some l) (some p) (free, holds) (free', more) =
            let other : with_fd l base p ≡ false = ap (λ (b : Table). b p) (sym holds) ∙ free' in
            (
              (
                with_fd-before base l p other,
                table.close_lem l t.world
                    ∙ ap (without_fd l) (more ∙ ap (with_fd p) holds)
                    ∙ without_fd-two base l p free other,
              ),
              refl,
            )

    accept_from-OpensOrNot :
        (listener : Socket) (s : State os.World)
        → Holds os sockets opened table base listener s.world
        → Opens (accept_from os sockets listener no_socket s)
    unfolding accept_from
    accept_from-OpensOrNot listener s holds =
        Ensures-after (λ peer t. Holds os sockets opened table (opened s.world) peer t.world)
          (λ r t. Holds os sockets opened table base r.1 t.world × (is_valid r.1 ≡ r.0)) (λ _. ⊥)
          (accept os sockets listener s)
          (λ peer. assign os sockets no_socket peer >>= closing_listener)
          (accept_lem os sockets opened table listener s)
          (λ peer t new.
            subst (λ r. Opens (after r closing_listener)) (sym (assign-returns peer t))
              (close_listener listener peer s t holds new))
      where
        closing_listener : Socket → Action os.World (Bool × Socket)
        closing_listener out' = close os listener >>= λ _. pure (is_valid out', out')

    -- `BindAndAccept` comes back, true just when it has a connection, and besides what was open before
    -- just that connection is open: the listener is closed on every way out.
    pub bind_and_accept_lem :
        (port : ℤ) (s : State os.World)
        → opened s.world ≡ base
        → Opens (bind_and_accept os sockets port no_socket s)
    unfolding bind_and_accept Holds HoldsFd
    bind_and_accept_lem port s clean =
        Ensures-after (λ r t. Holds os sockets opened table base r.1 t.world × (is_valid r.1 ≡ r.0))
          (λ r t. Holds os sockets opened table base r.1 t.world × (is_valid r.1 ≡ r.0)) (λ _. ⊥)
          (bind os sockets no_socket port s) listening
          (bind_lem os sockets opened table base no_socket port s clean)
          (λ r t (holds, _). bound r.0 r.1 t holds)
      where
        accepting : Socket → Bool → Action os.World (Bool × Socket)
        accepting sock ok =
            if ok then accept_from os sockets sock no_socket else give_up os sockets sock no_socket

        listening : Bool × Socket → Action os.World (Bool × Socket)
        listening bound =
            if bound.0
            then (listen os sockets bound.1 16 >>= accepting bound.1)
            else give_up os sockets bound.1 no_socket

        accepted :
            (sock : Socket) (ok : Bool) (u : State os.World)
            → Holds os sockets opened table base sock u.world
            → Opens (accepting sock ok u)
        accepted sock true u holds = accept_from-OpensOrNot sock u holds
        accepted sock false u holds = give_up-OpensOrNot sock u holds

        bound :
            (ok : Bool) (sock : Socket) (t : State os.World)
            → Holds os sockets opened table base sock t.world
            → Opens (listening (ok, sock) t)
        bound true sock t holds =
            Ensures-after (λ _ u. opened u.world ≡ opened t.world)
              (λ r u. Holds os sockets opened table base r.1 u.world × (is_valid r.1 ≡ r.0))
              (λ _. ⊥) (listen os sockets sock 16 t) (accepting sock)
              (listen-SameTable os sockets opened table sock 16 t)
              (λ ok u same.
                accepted sock ok u
                  (same_table-Holds os sockets opened table base sock t.world u.world holds same))
        bound false sock t holds = give_up-OpensOrNot sock t holds

    -- The same of `DialOut`.
    pub dial_out_lem :
        (host : List ℕ) (port : ℤ) (s : State os.World)
        → opened s.world ≡ base
        → Opens (dial_out os sockets host port no_socket s)
    unfolding dial_out Holds HoldsFd
    dial_out_lem host port s clean =
        Ensures-after (λ r t. Holds os sockets opened table base r.1 t.world × (is_valid r.1 ≡ r.0))
          (λ r t. Holds os sockets opened table base r.1 t.world × (is_valid r.1 ≡ r.0)) (λ _. ⊥)
          (connect os sockets no_socket host port s) moving
          (connect_lem os sockets opened table base no_socket host port s clean)
          (λ r t (holds, valid). made r.0 r.1 t holds valid)
      where
        moving : Bool × Socket → Action os.World (Bool × Socket)
        moving made =
            if made.0
            then (assign os sockets no_socket made.1 >>= λ out'. pure (true, out'))
            else give_up os sockets made.1 no_socket

        made :
            (ok : Bool) (sock : Socket) (t : State os.World)
            → Holds os sockets opened table base sock t.world
            → is_valid sock ≡ ok
            → Opens (moving (ok, sock) t)
        made true sock t holds valid =
            subst (λ r. Opens (after r (λ out'. pure (true, out')))) (sym (assign-returns sock t))
              (holds, valid)
        made false sock t holds valid = give_up-OpensOrNot sock t holds
