-- ===== src/Cli/Run/Examples.antt =====
-- `BindAndAccept`, `DialOut`, `RunReceive` and `main` on the machine in memory.
use xfer.Cli.Words
use xfer.Base.{◌≡◌}
use xfer.Cli.Run.{main}
use xfer.Cli.Run.Tidy.{main-LeavesOpen}
use xfer.Os.Tidy.{LeavesOpen}
use xfer.Os.Memory.Tidy.{streams, memory-IsTidy, new_fd-streams}
use xfer.Base.{ℕ, refl, ◌∙◌, false, none, List, [], ◌∷◌}
use xfer.Base.Int.{pos}
use xfer.Os.Action.{State, no_error}
use xfer.Os.Memory.{memory, MemoryWorld, seen}
use xfer.Os.Memory.Sockets.{memory_sockets, opened, memory-IsTable}
use xfer.Net.Lifetime.{no_socket}
use xfer.Net.Lifetime.Kept.{IsKept}
use xfer.Net.Lifetime.Table.{OpensOrNot}
use xfer.Cli.Run.{bind_and_accept}
use xfer.Cli.Run.Table.{bind_and_accept_lem}

abbrev start : State MemoryWorld
start = record {
  world = record {
    seen = record {
      sent = [];
      incoming = 1 ∷ 2 ∷ [];
      disk = λ p. none;
      stream_file = λ h. none;
      reads = λ h. [];
    };
    next = 3;
    table = λ k. false;
    stream_table = λ k. false;
  };
  ec = no_error;
}

bind_and_accept_lem_example :
    OpensOrNot memory memory_sockets opened memory-IsTable
      (opened start.world)
      (bind_and_accept memory memory_sockets (pos 9876) no_socket start)
bind_and_accept_lem_example =
    bind_and_accept_lem memory memory_sockets opened memory-IsTable (opened start.world) (pos 9876)
      start refl

-- "x recv"
abbrev argv : List (List ℕ)
argv = (b'x' ∷ []) ∷ Words.recv_word ∷ []

-- "x send a"
abbrev send_argv : List (List ℕ)
send_argv = (b'x' ∷ []) ∷ Words.send_word ∷ (b'a' ∷ []) ∷ []

-- The fuel for files of every size.
abbrev all_rounds : ℕ
all_rounds = 0x1_0000_0000_0000_0000

streams-IsKept : IsKept memory memory_sockets (λ w. streams w ≡ streams start.world)
streams-IsKept = record {
  close_keeps = λ h w p. p;
  resolve_keeps = λ host port w p. p;
  socket_for_keeps = λ a w p. new_fd-streams w ∙ p;
  socket_inet6_keeps = λ w p. new_fd-streams w ∙ p;
  connect_keeps = λ h a w p. p;
  set_option_keeps = λ fd option on w p. p;
  bind_keeps = λ h port w p. p;
  listen_keeps = λ h backlog w p. p;
  accept_keeps = λ fd w p. new_fd-streams w ∙ p;
}

main-LeavesOpen_example :
    LeavesOpen memory opened streams
      (opened start.world)
      (streams start.world)
      (main memory memory_sockets 0 argv start)
main-LeavesOpen_example =
    main-LeavesOpen memory memory_sockets opened streams memory-IsTable memory-IsTidy
      (opened start.world) (streams start.world) streams-IsKept 0 argv start (refl, refl)
