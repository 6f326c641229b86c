-- ===== src/Net/Mac/Examples.antt =====
-- `SendFromFd` of macOS on the machine in memory, with a `sendfile` that sends four bytes at most.
use xfer.Base.{
  ℕ, ◌≡◌, ◌≤◌, arith, ap, subst, min, none, false, [], ◌∷◌, ◌++◌, length, take, drop, take-length,
  length-take,
}
use xfer.Os.{Reply, done}
use xfer.Os.Action.{State, stuck, no_error}
use xfer.Os.Memory.{memory, MemoryWorld, seen}
use xfer.Os.Memory.Laws.{memory-IsConnection}
use xfer.Net.Transfer.{socket}
use xfer.Net.Mac.{IsIdle, MacSendfile, IsMacSendfile, IsMacSteady, MacEnds, send_from_fd_mac}
use xfer.Net.Mac.Sending.{send_from_fd_mac_lem, send_from_fd_mac-stuck}

abbrev memory_mac_sendfile : MacSendfile MemoryWorld
memory_mac_sendfile h fd offset want w =
    let piece = take (min 4 want) (drop offset (w.seen.reads h)) in
    ((done tt, length piece), record w { seen = record w.seen { sent = w.seen.sent ++ piece } })

memory-IsMacSendfile : (fd : ℕ) → IsMacSendfile memory memory_mac_sendfile fd seen
memory-IsMacSendfile fd = record {
  answers = λ h offset want w r len w' e.
      let rest = drop offset (w.seen.reads h) in
      subst
        (λ (x : (Reply (Unit {0}) × ℕ) × MemoryWorld).
          ((x.0).1 ≤ want)
          × ((x.0).1 ≤ length rest)
          × (seen x.1 ≡ record w.seen { sent = w.seen.sent ++ take (x.0).1 rest }))
        e
        (
          omega (arith, length-take (min 4 want) rest),
          omega (arith, length-take (min 4 want) rest),
          ap (λ bytes. record w.seen { sent = w.seen.sent ++ bytes })
              (take-length (min 4 want) rest),
        );
}

memory-IsMacSteady : (fd : ℕ) → IsMacSteady memory memory_mac_sendfile fd seen
memory-IsMacSteady fd = record {
  succeeds = λ h offset want w e len w' eq.
      absurd (cc (ap (λ (x : (Reply (Unit {0}) × ℕ) × MemoryWorld). (x.0).0) eq));
}

-- Six bytes are open as the descriptor 5.
abbrev reading : State MemoryWorld
reading = record {
  world = record {
    seen = record {
      sent = [];
      incoming = [];
      disk = λ p. none;
      stream_file = λ h. none;
      reads = λ h. 1 ∷ 2 ∷ 3 ∷ 4 ∷ 5 ∷ 6 ∷ [];
    };
    next = 6;
    table = λ k. false;
    stream_table = λ k. false;
  };
  ec = no_error;
}

send_from_fd_mac_lem_example :
    MacEnds memory memory_mac_sendfile 7 seen
      (memory-IsConnection 7)
      (memory-IsMacSendfile 7)
      5
      (IsIdle memory memory_mac_sendfile 7 seen
        (memory-IsConnection 7)
        (memory-IsMacSendfile 7)
        5
        reading.world
        5
        1)
      (2 ∷ 3 ∷ 4 ∷ 5 ∷ 6 ∷ [])
      1
      5
      reading
      (send_from_fd_mac memory memory_mac_sendfile (socket 7) 5 5 1 5 reading)
send_from_fd_mac_lem_example =
    send_from_fd_mac_lem memory memory_mac_sendfile 7 seen (memory-IsMacSendfile 7) 5
      (memory-IsConnection 7) 5 1 5 reading (omega arith) (omega arith)

send_from_fd_mac-stuck_example :
    send_from_fd_mac memory memory_mac_sendfile (socket 7) 5 100 1 8 reading ≡ stuck
send_from_fd_mac-stuck_example =
    send_from_fd_mac-stuck memory memory_mac_sendfile 7 seen (memory-IsMacSendfile 7) 5
      (memory-IsMacSteady 7) 100 1 8 reading (omega arith) (omega arith)
