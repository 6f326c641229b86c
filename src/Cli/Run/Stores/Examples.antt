-- ===== src/Cli/Run/Stores/Examples.antt =====
-- "x recv -o o --host h" on the machine in memory, with a session of one file coming in.
use xfer.Base.{
  ℕ, ◌≡◌, refl, arith, inl, inr, some, none, true, false, Option, List, [], ◌∷◌, append-nil, sym,
}
use xfer.Os.{FilePath}
use xfer.Os.Action.{State, no_error}
use xfer.Os.Memory.{memory, MemoryWorld, seen, same_path}
use xfer.Os.Memory.Laws.{memory-IsConnection, memory-IsReliable, memory-IsDisk, memory-IsRoomy}
use xfer.Os.Memory.Sockets.{memory_sockets}
use xfer.FsPath.{components}
use xfer.Net.Lifetime.Kept.{IsKept}
use xfer.Net.Lifetime.Answering.{IsAnswering}
use xfer.Sender.Found.{Item}
use xfer.Sender.Session.{session_bytes}
use xfer.Receiver.Items.{IsAccepted}
use xfer.Cli.{
  Options, receive, parse, default_options, parse_loop, effect, continue_if, more_flags, colored,
  valued, take_if, positional, is_dashed, arg_starts, take_port, set_color,
}
use xfer.Cli.Words
use xfer.Cli.Run.{main}
use xfer.Cli.Run.Stores.{HasView, IsWilling, StoresAll, main-StoresAll}

abbrev host : List ℕ
host = b'h' ∷ []

abbrev out_dir : FilePath
out_dir = b'o' ∷ []

abbrev argv : List (List ℕ)
argv = (b'x' ∷ []) ∷ Words.recv_word ∷ Words.short_output ∷ out_dir ∷ Words.long_host ∷ host ∷ []

abbrev options : Options
options = record default_options { mode = receive; output_dir = out_dir; host = host }

parsed : parse argv ≡ some options
unfolding parse parse_loop effect more_flags continue_if colored valued take_if positional is_dashed
    arg_starts take_port set_color
parsed = refl

abbrev items : List Item
items = (record { rel_path = b'a' ∷ []; size = 3; crc32 = 0 }, 1 ∷ 2 ∷ 3 ∷ []) ∷ []

abbrev start : State MemoryWorld
start = record {
  world = record {
    seen = record {
      sent = [];
      incoming = session_bytes items;
      disk = λ p. none;
      stream_file = λ h. none;
      reads = λ h. [];
    };
    next = 3;
    table = λ k. false;
    stream_table = λ k. false;
  };
  ec = no_error;
}

item-IsAccepted :
    IsAccepted true (record { rel_path = b'a' ∷ []; size = 3; crc32 = 0 }, 1 ∷ 2 ∷ 3 ∷ [])
unfolding components
item-IsAccepted = record {
  named = refl;
  safe = (((refl, refl), refl), tt);
  relative = refl;
  exact = refl;
  entry = record { path_fits = omega arith; size_fits = omega arith; crc_fits = omega arith };
  sum_matches = inr (inl refl);
}

view-IsKept :
    (d : FilePath → Option (List ℕ)) (coming : List ℕ)
    → IsKept memory memory_sockets (
        HasView memory memory_sockets seen same_path memory-IsConnection memory-IsReliable
          memory-IsDisk memory-IsRoomy d coming)
view-IsKept d coming = record {
  close_keeps = λ h w p. p;
  resolve_keeps = λ host port w p. p;
  socket_for_keeps = λ a w p. p;
  socket_inet6_keeps = λ w p. p;
  connect_keeps = λ h a w p. p;
  set_option_keeps = λ fd option on w p. p;
  bind_keeps = λ h port w p. p;
  listen_keeps = λ h backlog w p. p;
  accept_keeps = λ fd w p. p;
}

receiver-IsWilling :
    IsWilling memory memory_sockets seen same_path memory-IsConnection memory-IsReliable
      memory-IsDisk memory-IsRoomy view-IsKept options items start []
receiver-IsWilling = record {
  ready = λ fd. record { named = refl; there = λ w e. rw e refl };
  accepted = (item-IsAccepted, tt);
  few = omega arith;
}

-- Nobody answers at the first address.
second-IsAnswering : IsAnswering memory memory_sockets 2
second-IsAnswering = record { socket_made = λ w. (_, _, refl); connects = λ h w. (_, refl) }

main-StoresAll_example :
    StoresAll memory memory_sockets seen same_path memory-IsConnection memory-IsReliable
      memory-IsDisk memory-IsRoomy view-IsKept options items start []
      (main memory memory_sockets 0 argv start)
main-StoresAll_example =
    main-StoresAll memory memory_sockets seen same_path memory-IsConnection memory-IsReliable
      memory-IsDisk memory-IsRoomy view-IsKept options items start [] 0 argv parsed refl
      receiver-IsWilling (inr (refl, inr (inl second-IsAnswering)))
      (sym (append-nil (session_bytes items)))
