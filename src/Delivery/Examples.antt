-- ===== src/Delivery/Examples.antt =====
-- A session between two machines in memory.
use xfer.Base.{ℕ, refl, inl, inr, sym, arith, true, false, none, List, [], ◌∷◌, Option, append-nil}
use xfer.Os.{FilePath}
use xfer.Os.Action.{State, no_error, returns}
use xfer.Os.Laws.{store}
use xfer.Os.Memory.{memory, MemoryWorld, seen, same_path}
use xfer.Os.Memory.Laws.{
  memory-IsConnection, memory-IsReliable, memory-IsReadable, memory-IsSource, memory-IsSteady,
  memory-IsDisk, memory-IsRoomy,
}
use xfer.FsPath.{components, filename, parent_path}
use xfer.Base.{All, ◌≡◌}
use xfer.Wire.{ack_bytes}
use xfer.Net.Transfer.{socket}
use xfer.Sender.Manifest.{SenderOptions, collect_files, sort, unique}
use xfer.Sender.Source.{resolve, resolve_single}
use xfer.Net.Dialogue.{Talks}
use xfer.Crc.Serial.{IsByte}
use xfer.Delivery.Paths.{Transfers, send_paths-Transfers}
use xfer.Sender.Filling.{completed_items, send_files-Talks, send_paths-Talks}
use xfer.Sender.{send_session, send_files, send_paths}
use xfer.Sender.Found.{entries, Item, IsFound}
use xfer.Sender.Session.{session_bytes, send_session-Talks}
use xfer.Receiver.{ReceiverOptions}
use xfer.Receiver.Items.{IsAccepted}
use xfer.Receiver.Session.{IsReady, Stores, receive_stream-Stores}
use xfer.Delivery.{Delivers, session-Delivers}

abbrev a_file : FilePath
a_file = b'a' ∷ []

abbrev out_dir : FilePath
out_dir = b'o' ∷ []

abbrev item : Item
item = (record { rel_path = a_file; size = 6; crc32 = 0 }, 1 ∷ 2 ∷ 3 ∷ 4 ∷ 5 ∷ 6 ∷ [])

abbrev items : List Item
items = item ∷ []

abbrev sender_disk : FilePath → Option (List ℕ)
sender_disk = store (λ p. none) a_file item.1

abbrev no_disk : FilePath → Option (List ℕ)
no_disk p = none

abbrev sender_start : State MemoryWorld
sender_start = record {
  world = record {
    seen = record {
      sent = [];
      incoming = ack_bytes 0;
      disk = sender_disk;
      stream_file = λ h. none;
      reads = λ h. [];
    };
    next = 3;
    table = λ k. false;
    stream_table = λ k. false;
  };
  ec = no_error;
}

abbrev receiver_start : State MemoryWorld
receiver_start = record {
  world = record {
    seen = record {
      sent = [];
      incoming = session_bytes items;
      disk = no_disk;
      stream_file = λ h. none;
      reads = λ h. [];
    };
    next = 3;
    table = λ k. false;
    stream_table = λ k. false;
  };
  ec = no_error;
}

abbrev options : SenderOptions
options = record { recursive = false; follow_symlinks = false; zero_copy = true; strip_prefix = [] }

abbrev options' : ReceiverOptions
options' = record { output_dir = out_dir; create_dir = true; verify_crc = true }

abbrev paths : List FilePath
paths = a_file ∷ []

item-IsFound : IsFound memory seen same_path paths sender_disk item
unfolding resolve resolve_single
item-IsFound = record {
  path = a_file;
  resolves = λ w e. rw e refl;
  named = refl;
  there = refl;
  exact = refl;
  entry = record { path_fits = omega arith; size_fits = omega arith; crc_fits = omega arith };
}

item-IsAccepted : IsAccepted true item
unfolding components
item-IsAccepted = record {
  named = refl;
  safe = (((refl, refl), refl), tt);
  relative = refl;
  exact = refl;
  entry = record { path_fits = omega arith; size_fits = omega arith; crc_fits = omega arith };
  sum_matches = inr (inl refl);
}

receiver-IsReady :
    IsReady memory 5 seen same_path
      (memory-IsConnection 5)
      (memory-IsReliable 5)
      memory-IsDisk
      memory-IsRoomy
      options'
      no_disk
receiver-IsReady = record { named = refl; there = λ w e. rw e refl }

session-Delivers_example :
    Delivers memory 4 seen same_path
      (memory-IsConnection 4)
      (memory-IsReliable 4)
      (memory-IsReadable 4)
      memory-IsSource
      (memory-IsSteady 4)
      memory
      5
      seen
      same_path
      (memory-IsConnection 5)
      (memory-IsReliable 5)
      memory-IsDisk
      memory-IsRoomy
      paths
      6
      options
      options'
      items
      sender_start
      receiver_start
session-Delivers_example =
    session-Delivers memory 4 seen same_path (memory-IsConnection 4) (memory-IsReliable 4)
      (memory-IsReadable 4) memory-IsSource (memory-IsSteady 4) memory 5 seen same_path
      (memory-IsConnection 5) (memory-IsReliable 5) memory-IsDisk memory-IsRoomy paths 6 options
      options' items sender_start receiver_start (item-IsFound, tt) (omega arith, tt)
      receiver-IsReady (item-IsAccepted, tt) (tt, tt) (omega arith) refl refl refl refl

receive_stream-Stores_example :
    Stores memory 5 seen same_path
      (memory-IsConnection 5)
      (memory-IsReliable 5)
      memory-IsDisk
      memory-IsRoomy
      options'
      items
      receiver_start
      []
receive_stream-Stores_example =
    receive_stream-Stores memory 5 seen same_path (memory-IsConnection 5) (memory-IsReliable 5)
      memory-IsDisk memory-IsRoomy options' items receiver_start [] receiver-IsReady
      (item-IsAccepted, tt) (omega arith) (sym (append-nil (session_bytes items)))

send_session-Talks_example :
    Talks memory seen
      (send_session memory (socket 4) paths 6 options (entries items))
      sender_start
      tt
      []
      (session_bytes items)
send_session-Talks_example =
    send_session-Talks memory 4 seen same_path (memory-IsConnection 4) (memory-IsReliable 4)
      (memory-IsReadable 4) memory-IsSource (memory-IsSteady 4) paths 6 options items sender_start 0
      [] (item-IsFound, tt) (omega arith, tt) (omega arith) (sym (append-nil (ack_bytes 0)))

-- "a" is collected by its name.
collected : collect_files memory paths options sender_start ≡ returns (entries items) sender_start
unfolding collect_files sort unique filename parent_path
collected = refl

item_bytes : All IsByte item.1
item_bytes =
    (omega arith, (omega arith, (omega arith, (omega arith, (omega arith, (omega arith, tt))))))

send_paths-Talks_example :
    Talks memory seen
      (send_paths memory (socket 4) paths 6 options)
      sender_start
      tt
      []
      (session_bytes (completed_items items))
send_paths-Talks_example =
    send_paths-Talks memory 4 seen same_path (memory-IsReadable 4) memory-IsSource
      (memory-IsSteady 4) (memory-IsConnection 4) paths (memory-IsReliable 4) 6 options item []
      sender_start 0 [] collected (refl, tt) (item-IsFound, tt) (item_bytes, tt) (omega arith, tt)
      (omega arith) (sym (append-nil (ack_bytes 0))) refl

send_files-Talks_example :
    Talks memory seen
      (send_files memory (socket 4) paths (entries items) 6 options)
      sender_start
      tt
      []
      (session_bytes (completed_items items))
send_files-Talks_example =
    send_files-Talks memory 4 seen same_path (memory-IsReadable 4) memory-IsSource
      (memory-IsSteady 4) (memory-IsConnection 4) paths (memory-IsReliable 4) 6 options item []
      sender_start 0 [] (item-IsFound, tt) (item_bytes, tt) (omega arith, tt) (omega arith)
      (sym (append-nil (ack_bytes 0))) refl

abbrev checked_start : State MemoryWorld
checked_start = record receiver_start {
  world = record receiver_start.world {
    seen = record receiver_start.world.seen { incoming = session_bytes (completed_items items) };
  };
}

send_paths-Transfers_example :
    Transfers memory 4 seen same_path
      (memory-IsConnection 4)
      (memory-IsReliable 4)
      (memory-IsReadable 4)
      memory-IsSource
      (memory-IsSteady 4)
      memory
      5
      seen
      same_path
      (memory-IsConnection 5)
      (memory-IsReliable 5)
      memory-IsDisk
      memory-IsRoomy
      paths
      6
      options
      options'
      items
      sender_start
      checked_start
send_paths-Transfers_example =
    send_paths-Transfers memory 4 seen same_path (memory-IsConnection 4) (memory-IsReliable 4)
      (memory-IsReadable 4) memory-IsSource (memory-IsSteady 4) memory 5 seen same_path
      (memory-IsConnection 5) (memory-IsReliable 5) memory-IsDisk memory-IsRoomy paths 6 options
      options' item [] sender_start checked_start collected (refl, tt) (item-IsFound, tt)
      (item_bytes, tt) (omega arith, tt) receiver-IsReady (item-IsAccepted, tt) (tt, tt)
      (omega arith) refl refl refl refl refl
