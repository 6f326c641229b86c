-- ===== src/Cli/Run/Stores.antt =====
-- `RunReceive` in src/cli.cpp and `main` in src/main.cpp, when a connection is made and a session comes
-- in.
mod Examples
use xfer.Base.{
  ℕ, ◌^◌, ◌<◌, ◌≡◌, ◌⊎◌, inl, inr, refl, ap, subst, sym, ◌∙◌, Bool, true, false, List, ◌++◌, length,
  Option, some, none, All, Any, if◌then◌else◌,
}
use xfer.Os.{Os, FilePath}
use xfer.Os.Sockets.{Sockets}
use xfer.Os.Action.{Action, State, Outcome, returns, pure, attempted, after, no_error, ◌>>=◌}
use xfer.Os.Laws.{View, IsConnection, IsReliable, IsDisk, IsRoomy}
use xfer.FsPath.{is_empty}
use xfer.Net.{Socket, is_valid}
use xfer.Net.Transfer.{socket}
use xfer.Net.Lifetime.{no_socket, close}
use xfer.Net.Lifetime.Kept.{IsKept, Kept}
use xfer.Net.Lifetime.Answering.{IsAnswering, IsServing, MakesTrue}
use xfer.Sender.Found.{Item}
use xfer.Sender.Session.{session_bytes}
use xfer.Receiver.{ReceiverSummary, receive_stream}
use xfer.Receiver.Items.{IsAccepted, store_all}
use xfer.Receiver.Session.{IsReady, receive_stream-Stores}
use xfer.Cli.{Mode, Options, parse, unset, send, receive, help, version}
use xfer.Cli.Run.{
  receiver_options, exit_code, bind_and_accept, dial_out, transfer, run_receive, dispatch, main,
}
use xfer.Cli.Run.Opening.{bind_and_accept-Kept, dial_out-Kept}
use xfer.Cli.Run.Answering.{bind_and_accept-MakesTrue, dial_out-MakesTrue}

module _ (os : Os) (sockets : Sockets os.World) (view : os.World → View)
    (file : FilePath → FilePath) (conn : (fd : ℕ) → IsConnection os fd view)
    (reliable : (fd : ℕ) → IsReliable os fd view) (ondisk : IsDisk os view file)
    (roomy : IsRoomy os view file) where
  -- The files, and what comes in.
  abbrev pub HasView : (FilePath → Option (List ℕ)) → List ℕ → os.World → Type 0
  HasView d coming w = ((view w).disk ≡ d) × ((view w).incoming ≡ coming)

  module _
      (calm : (d : FilePath → Option (List ℕ)) (coming : List ℕ)
        → IsKept os sockets (HasView d coming))
      (opts : Options) (items : List Item) (s : State os.World) (rest : List ℕ) where
    -- A peer can be reached: one that connects when the program listens, or one at an address of the host.
    abbrev pub IsReached : Type 0
    IsReached =
        ((is_empty opts.host ≡ true) × IsServing os sockets)
        ⊎ ((is_empty opts.host ≡ false)
            × Any (IsAnswering os sockets) (sockets.resolve_host opts.host opts.port s.world).0)

    -- The receiver can take the files of the session.
    pub record IsWilling : Type 0 where
      pub ready :
          (fd : ℕ)
          → IsReady os fd view file
              (conn fd)
              (reliable fd)
              ondisk
              roomy
              (receiver_options opts)
              (view s.world).disk
      pub accepted : All (IsAccepted (receiver_options opts).verify_crc) items
      pub few : length items < 2 ^ 64

    -- The exit code 0, with the files of the session below the output directory.
    abbrev pub StoresAll : Outcome os.World ℕ → Type 0
    StoresAll r =
        (t : State os.World) × (r ≡ returns 0 t)
        × ((view t.world).disk
            ≡ store_all file (receiver_options opts).output_dir (view s.world).disk items)

    abbrev session : Socket → Action os.World ReceiverSummary
    session sock = receive_stream os sock (receiver_options opts)

    abbrev coming : List ℕ
    coming = session_bytes items ++ rest

    transfer-StoresAll :
        (h : ℕ) (t : State os.World)
        → IsWilling
        → HasView (view s.world).disk coming t.world
        → StoresAll (transfer os sockets session (true, socket h) t)
    unfolding transfer close
    transfer-StoresAll h t willing (same, comes) =
        let ready =
          subst (IsReady os h view file (conn h) (reliable h) ondisk roomy (receiver_options opts))
            (sym same) (willing.ready h) in
        let (u, e, _, _, d) =
          receive_stream-Stores os h view file (conn h) (reliable h) ondisk roomy
            (receiver_options opts) items t rest ready willing.accepted willing.few comes in
        let kept =
          (calm (view u.world).disk (view u.world).incoming).close_keeps h u.world (refl, refl) in
        (
          record u { world = os.close h u.world },
          ap
              (λ r.
                after (attempted r) λ result. close os (socket h) >>= λ _. pure (exit_code result))
              e,
          kept.0
              ∙ d
              ∙ ap
                  (λ (x : FilePath → Option (List ℕ)).
                    store_all file (receiver_options opts).output_dir x items)
                  same,
        )

    opened-StoresAll :
        (r : Outcome os.World (Bool × Socket))
        → IsWilling
        → MakesTrue os sockets r
        → Kept os sockets
            (HasView (view s.world).disk coming)
            (calm (view s.world).disk coming)
            (λ (x : Bool × Socket). is_valid x.1 ≡ x.0)
            r
        → StoresAll (after r (transfer os sockets session))
    opened-StoresAll r willing (h, t, e) kept =
        let (_, has) =
          subst
            (Kept os sockets (HasView (view s.world).disk coming) (calm (view s.world).disk coming)
              (λ (x : Bool × Socket). is_valid x.1 ≡ x.0))
            e kept in
        let (u, e', d) = transfer-StoresAll h t willing has in
        (u, ap (λ x. after x (transfer os sockets session)) e ∙ e', d)

    run_receive-StoresAll :
        IsWilling
        → IsReached
        → (view s.world).incoming ≡ coming
        → StoresAll (run_receive os sockets opts s)
    unfolding run_receive
    run_receive-StoresAll willing reached comes = by_host reached
      where
        start : State os.World
        start = record s { ec = no_error }

        running : Bool → Outcome os.World ℕ
        running b =
            after
              ((if b
                  then bind_and_accept os sockets opts.port no_socket
                  else dial_out os sockets opts.host opts.port no_socket)
                start)
              (transfer os sockets session)

        by_host : IsReached → StoresAll (running (is_empty opts.host))
        by_host (inl (e, serving)) =
            subst (λ b. StoresAll (running b)) (sym e)
              (opened-StoresAll _ willing
                (bind_and_accept-MakesTrue os sockets serving opts.port start)
                (bind_and_accept-Kept os sockets (HasView (view s.world).disk coming)
                  (calm (view s.world).disk coming) opts.port start (refl, comes)))
        by_host (inr (e, somebody)) =
            subst (λ b. StoresAll (running b)) (sym e)
              (opened-StoresAll _ willing
                (dial_out-MakesTrue os sockets opts.host opts.port start somebody)
                (dial_out-Kept os sockets (HasView (view s.world).disk coming)
                  (calm (view s.world).disk coming) opts.host opts.port start (refl, comes)))

    -- On the arguments of a receive command, while no call fails on a connection or a disk, and the calls
    -- that begin and end connections leave files and bytes that come in alone: if a peer can be reached,
    -- which connects when the program listens or answers at one of the host's addresses, and the bytes of
    -- a session come in whose files the receiver can take, then `main` comes back with 0, and the files
    -- are stored below the output directory.
    pub main-StoresAll :
        (rounds : ℕ) (argv : List (List ℕ))
        → parse argv ≡ some opts
        → opts.mode ≡ receive
        → IsWilling
        → IsReached
        → (view s.world).incoming ≡ session_bytes items ++ rest
        → StoresAll (main os sockets rounds argv s)
    unfolding main dispatch
    main-StoresAll rounds argv parsed mode willing reached comes =
        subst (λ p. StoresAll (started p s)) (sym parsed)
          (subst (λ m. StoresAll (dispatch os sockets rounds m opts s)) (sym mode)
            (run_receive-StoresAll willing reached comes))
      where
        started : Option Options → Action os.World ℕ
        started parsed = elim parsed [
          | none ↦ pure 2
          | some opts ↦ dispatch os sockets rounds opts.mode opts
        ]
