-- ===== src/Cli/Run/Answering.antt =====
-- `BindAndAccept` and `DialOut` in src/cli.cpp, when the calls on the way to a connection succeed.
use xfer.Base.{ℕ, refl, ap, Bool, true, List, some, Any, if◌then◌else◌}
use xfer.Base.Int.{ℤ}
use xfer.Os.{Os}
use xfer.Os.Sockets.{Sockets}
use xfer.Os.Action.{State, Outcome, pure, after, ◌>>=◌}
use xfer.Net.{Socket}
use xfer.Net.Transfer.{socket}
use xfer.Net.Lifetime.{no_socket, close, move_assign, listen, accept}
use xfer.Net.Lifetime.Answering.{
  IsAnswering, MakesTrue, connect-MakesTrue, IsServing, bind-MakesTrue,
}
use xfer.Cli.Run.{assign, accept_from, give_up, bind_and_accept, dial_out}

module _ (os : Os) (sockets : Sockets os.World) where
  abbrev Opens : Outcome os.World (Bool × Socket) → Type 0
  Opens = MakesTrue os sockets

  pub dial_out-MakesTrue :
      (host : List ℕ) (port : ℤ) (s : State os.World)
      → Any (IsAnswering os sockets) (sockets.resolve_host host port s.world).0
      → Opens (dial_out os sockets host port no_socket s)
  unfolding dial_out assign move_assign close
  dial_out-MakesTrue host port s somebody =
      let (h, t, e) = connect-MakesTrue os sockets host port s somebody in
      (
        h,
        t,
        ap
            (λ r. after r λ (made : Bool × Socket).
              if made.0
              then (assign os sockets no_socket made.1 >>= λ out'. pure (true, out'))
              else give_up os sockets made.1 no_socket)
            e,
      )

  module _ (serving : IsServing os sockets) where
    accept_from-MakesTrue :
        (h : ℕ) (s : State os.World) → Opens (accept_from os sockets (socket h) no_socket s)
    unfolding accept_from accept assign move_assign close
    accept_from-MakesTrue h s =
        let (p, w, e) = serving.accepts (some h) s.world in
        (p, record s { world = os.close h w }, rw e refl)

    pub bind_and_accept-MakesTrue :
        (port : ℤ) (s : State os.World) → Opens (bind_and_accept os sockets port no_socket s)
    unfolding bind_and_accept listen
    bind_and_accept-MakesTrue port s =
        let (h, t, e) = bind-MakesTrue os sockets serving port s in
        let (w, e') = serving.listens h 16 t.world in
        let (p, u, e2) = accept_from-MakesTrue h (record t { world = w }) in
        (p, u, rw (e, e', e2) refl)
