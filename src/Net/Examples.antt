-- ===== src/Net/Examples.antt =====
-- Transfers on the machine in memory, which moves at most four bytes in a call.
use xfer.Base.{ℕ, arith, ◌≡◌, refl, none, true, false, List, [], ◌∷◌, drop, ◌==◌, if◌then◌else◌}
use xfer.Os.Action.{State, no_error, returns, Ensures}
use xfer.Os.Memory.{memory, MemoryWorld, seen}
use xfer.Os.Memory.Laws.{memory-IsConnection}
use xfer.Os.Memory.{same_path}
use xfer.Os.Memory.Laws.{memory-IsReadable}
use xfer.Os.Memory.Sockets.{memory_sockets, opened, memory-IsTable}
use xfer.Net.{send_all, recv_all, send_from_fd}
use xfer.Net.SendFromFd.{IsInterrupted, SendfileEnds, send_from_fd_lem}
use xfer.Os.Memory.Laws.{memory-IsSource, memory-IsReliable, memory-IsSteady}
use xfer.Net.Portable.{send_from_fd_portable}
use xfer.Net.Branches.{IsSameEnd, send_from_fd-IsSameEnd}
use xfer.Net.Lifetime.{no_socket, connect, listen, close}
use xfer.Net.Lifetime.Table.{OpensOrNot, Holds, HoldsFd, connect_lem}
use xfer.Net.Lifetime.Reach.{Reach, here, next, connects, listens, Reach-close}
use xfer.Base.Int.{pos}
use xfer.Net.Transfer.{socket}
use xfer.Net.RecvAll.{RecvEnds, recv_all_lem}
use xfer.Net.SendAll.{SendEnds, send_all_lem}

abbrev six : List ℕ
six = 1 ∷ 2 ∷ 3 ∷ 4 ∷ 5 ∷ 6 ∷ []

abbrev start : State MemoryWorld
start = record {
  world = record {
    seen = record {
      sent = 9 ∷ [];
      incoming = six;
      disk = λ p. none;
      stream_file = λ h. none;
      reads = λ h. [];
    };
    next = 3;
    table = λ k. false;
    stream_table = λ k. false;
  };
  ec = no_error;
}

-- The six bytes are those of the file that is open as 5.
abbrev reading : State MemoryWorld
reading = record start {
  world = record start.world { seen = record start.world.seen { reads = λ h. six } };
}

no_socket-Holds :
    Holds memory memory_sockets opened memory-IsTable (opened start.world) no_socket start.world
unfolding Holds HoldsFd
no_socket-Holds = refl

recv_all_lem_example :
    RecvEnds memory 7 seen (memory-IsConnection 7) 5 [] start (recv_all memory (socket 7) 5 start)
recv_all_lem_example = recv_all_lem memory 7 seen (memory-IsConnection 7) 5 start (omega arith)

send_all_lem_example :
    SendEnds memory 7 seen (memory-IsConnection 7) six start (send_all memory (socket 7) six start)
send_all_lem_example = send_all_lem memory 7 seen (memory-IsConnection 7) six start (omega arith)

send_from_fd_lem_example :
    SendfileEnds memory 7 seen same_path
      (memory-IsConnection 7)
      (memory-IsReadable 7)
      5
      (IsInterrupted memory 7 seen same_path
        (memory-IsConnection 7)
        (memory-IsReadable 7)
        5
        reading.world
        4
        2)
      (drop 2 six)
      2
      4
      reading
      (send_from_fd memory (socket 7) 5 4 2 4 reading)
send_from_fd_lem_example =
    send_from_fd_lem memory 7 seen same_path (memory-IsConnection 7) (memory-IsReadable 7) 5 4 2 4
      reading (omega arith) (omega arith)

connect_lem_example :
    OpensOrNot memory memory_sockets opened memory-IsTable
      (opened start.world)
      (connect memory memory_sockets no_socket (b'h' ∷ []) (pos 9876) start)
connect_lem_example =
    connect_lem memory memory_sockets opened memory-IsTable (opened start.world) no_socket
      (b'h' ∷ []) (pos 9876) start no_socket-Holds

-- The first address refuses, and its descriptor 3 is closed. The second gives 4.
abbrev dialled : State MemoryWorld
dialled = record start {
  world = record start.world {
    next = 5;
    table = λ k. if k == 4 then true else if k == 3 then false else if k == 3 then true else false;
    stream_table = λ k. if k == 4 then false else if k == 3 then false else false;
    seen = record start.world.seen { reads = λ k. if k == 3 then [] else [] };
  };
}

connected :
    connect memory memory_sockets no_socket (b'h' ∷ []) (pos 9876) start
    ≡ returns (true, socket 4) dialled
unfolding connect
connected = refl

dial_listen : Reach memory memory_sockets no_socket start (socket 4) dialled
unfolding listen
dial_listen =
    next (next here (connects (b'h' ∷ []) (pos 9876) true connected)) (listens 16 true refl)

Reach-close_example :
    Ensures
      (λ x u. (x ≡ no_socket) × (opened u.world ≡ opened start.world))
      (λ _. ⊥)
      (close memory (socket 4) dialled)
Reach-close_example = Reach-close memory memory_sockets opened memory-IsTable dial_listen

send_from_fd-IsSameEnd_example :
    IsSameEnd memory 7 seen
      (memory-IsConnection 7)
      (drop 2 six)
      4
      reading
      (send_from_fd memory (socket 7) 5 4 2 4 reading)
      (send_from_fd_portable memory (socket 7) 5 4 2 4 reading)
send_from_fd-IsSameEnd_example =
    send_from_fd-IsSameEnd memory 7 seen same_path (memory-IsConnection 7) (memory-IsReadable 7)
      memory-IsSource (memory-IsReliable 7) (memory-IsSteady 7) 5 4 2 4 reading (omega arith)
      (omega arith)
