-- ===== src/Net/Lifetime/Reach.antt =====
-- Any order of calls on one socket, in src/net/socket.cpp: no descriptor is lost.
use xfer.Base.{ℕ, ◌≡◌, refl, subst, sym, Bool, true, false, List, none, some}
use xfer.Base.Int.{ℤ}
use xfer.Os.{Os, Fd, Reply, done, failed}
use xfer.Os.Sockets.{Sockets, Table, IsTable, IsNewFd, no_delay}
use xfer.Os.Action.{Action, State, Outcome, returns, pure, ◌>>◌, Ensures, system}
use xfer.Net.{Socket}
use xfer.Net.Lifetime.{no_socket, close, connect, bind, listen, accept, set_no_delay, store_error}
use xfer.Net.Lifetime.Table.{
  Holds, HoldsFd, KeepsTable, OpensOrNot, close-IsClosed, IsClosed, connect_lem, bind_lem,
  same_table-Holds,
}

module _ (os : Os) (sockets : Sockets os.World) where
  -- One call on the socket: the socket and the machine before it and after it.
  pub data Step (sock : Socket) (s : State os.World) : Socket → State os.World → Type 0 where
    closes :
        {sock' : Socket} {t : State os.World}
        → close os sock s ≡ returns sock' t
        → Step sock s sock' t
    connects :
        {sock' : Socket} {t : State os.World} (host : List ℕ) (port : ℤ) (ok : Bool)
        → connect os sockets sock host port s ≡ returns (ok, sock') t
        → Step sock s sock' t
    binds :
        {sock' : Socket} {t : State os.World} (port : ℤ) (ok : Bool)
        → bind os sockets sock port s ≡ returns (ok, sock') t
        → Step sock s sock' t
    listens :
        {t : State os.World} (backlog : ℕ) (ok : Bool)
        → listen os sockets sock backlog s ≡ returns ok t
        → Step sock s sock t
    sets_no_delay :
        {t : State os.World} (on ok : Bool)
        → set_no_delay os sockets sock on s ≡ returns ok t
        → Step sock s sock t

  pub data Reach (sock : Socket) (s : State os.World) : Socket → State os.World → Type 0 where
    here : Reach sock s sock s
    next :
        {sock' sock'' : Socket} {t u : State os.World}
        → Reach sock s sock' t
        → Step sock' t sock'' u
        → Reach sock s sock'' u

  module _ (opened : os.World → Table) (table : IsTable os sockets opened) where
    -- `Listen` and `SetNoDelay` come back with the same descriptors open.
    abbrev pub SameTable : State os.World → Outcome os.World Bool → Type 0
    SameTable s = Ensures (λ _ t. opened t.world ≡ opened s.world) (λ _. ⊥)

    pub listen-SameTable :
        (sock : Socket) (backlog : ℕ) (s : State os.World)
        → SameTable s (listen os sockets sock backlog s)
    unfolding listen
    listen-SameTable sock backlog s = by_fd sock.fd
      where
        by_fd : (fd : Fd) → SameTable s (listen os sockets (record { fd = fd }) backlog s)
        by_fd none = refl
        by_fd (some h) =
            answered (sockets.listen h backlog s.world) (table.listen_lem h backlog s.world)
          where
            answer : Reply (Unit {0}) → Action os.World Bool
            answer reply = elim reply [
              | done _ ↦ pure true
              | failed e ↦ store_error (system e) >> pure false
            ]

            answered :
                (r : Reply (Unit {0}) × os.World)
                → opened r.1 ≡ opened s.world
                → SameTable s (answer r.0 (record s { world = r.1 }))
            answered (done _, w) same = same
            answered (failed e, w) same = same

    set_no_delay-SameTable :
        (sock : Socket) (on : Bool) (s : State os.World)
        → SameTable s (set_no_delay os sockets sock on s)
    unfolding set_no_delay
    set_no_delay-SameTable sock on s =
        answered (sockets.set_option sock.fd no_delay on s.world)
          (table.set_option_lem sock.fd no_delay on s.world)
      where
        answer : Reply (Unit {0}) → Action os.World Bool
        answer reply = elim reply [
          | done _ ↦ pure true
          | failed e ↦ store_error (system e) >> pure false
        ]

        answered :
            (r : Reply (Unit {0}) × os.World)
            → opened r.1 ≡ opened s.world
            → SameTable s (answer r.0 (record s { world = r.1 }))
        answered (done _, w) same = same
        answered (failed e, w) same = same

    module _ (base : Table) where
      Step-Holds :
          {sock sock' : Socket} {s t : State os.World}
          → Step sock s sock' t
          → Holds os sockets opened table base sock s.world
          → Holds os sockets opened table base sock' t.world
      unfolding Holds HoldsFd IsClosed
      Step-Holds {sock} {sock'} {s} {t} (closes e) holds =
          let (gone, clean) =
            subst (Ensures (IsClosed os sockets opened table base) (λ _. ⊥)) e
              (close-IsClosed os sockets opened table base sock s holds) in
          subst (λ x. Holds os sockets opened table base x t.world) (sym gone) clean
      Step-Holds {sock} {sock'} {s} {t} (connects host port ok e) holds =
          (subst (OpensOrNot os sockets opened table base) e
            (connect_lem os sockets opened table base sock host port s holds)).0
      Step-Holds {sock} {sock'} {s} {t} (binds port ok e) holds =
          (subst (OpensOrNot os sockets opened table base) e
            (bind_lem os sockets opened table base sock port s holds)).0
      Step-Holds {sock} {sock'} {s} {t} (listens backlog ok e) holds =
          same_table-Holds os sockets opened table base sock s.world t.world holds
            (subst (SameTable s) e (listen-SameTable sock backlog s))
      Step-Holds {sock} {sock'} {s} {t} (sets_no_delay on ok e) holds =
          same_table-Holds os sockets opened table base sock s.world t.world holds
            (subst (SameTable s) e (set_no_delay-SameTable sock on s))

      -- A socket that accounts for what is open besides `base` does so after any calls of `Close`,
      -- `Connect`, `Bind`, `Listen` and `SetNoDelay`, in any order, whatever they return.
      pub Reach-Holds :
          {sock : Socket} {s : State os.World} {sock' : Socket} {t : State os.World}
          → Reach sock s sock' t
          → Holds os sockets opened table base sock s.world
          → Holds os sockets opened table base sock' t.world
      Reach-Holds here holds = holds
      Reach-Holds (next path step) holds = Step-Holds step (Reach-Holds path holds)

    -- With a socket that opened nothing, any such calls and then the destructor leave the descriptors
    -- open that were open before.
    pub Reach-close :
        {s : State os.World} {sock : Socket} {t : State os.World}
        → Reach no_socket s sock t
        → Ensures
            (λ x u. (x ≡ no_socket) × (opened u.world ≡ opened s.world))
            (λ _. ⊥)
            (close os sock t)
    unfolding Holds HoldsFd IsClosed
    Reach-close {s} {sock} {t} path =
        close-IsClosed os sockets opened table (opened s.world) sock t
          (Reach-Holds (opened s.world) path refl)

    -- `Accept`: the socket that it returns accounts for the descriptor it opened, if it opened one.
    pub accept_lem :
        (sock : Socket) (s : State os.World)
        → KeepsTable os sockets opened table (opened s.world) (accept os sockets sock s)
    unfolding accept Holds HoldsFd
    accept_lem sock s = answered (sockets.accept sock.fd s.world) (table.accept_lem sock.fd s.world)
      where
        answer : Reply ℕ → Action os.World Socket
        answer peer = elim peer [
          | failed e ↦ store_error (system e) >> pure no_socket
          | done h ↦ pure (record { fd = some h })
        ]

        answered :
            (r : Reply ℕ × os.World)
            → IsNewFd opened s.world r
            → KeepsTable os sockets opened table
                (opened s.world)
                (answer r.0 (record s { world = r.1 }))
        answered (done h, w) new = new
        answered (failed e, w) same = same
