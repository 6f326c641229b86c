-- ===== src/Sender/Examples.antt =====
-- The manifest of two files, on the machine in memory.
use xfer.Base.{◌≡◌, refl, none, true, false, List, [], ◌∷◌}
use xfer.Os.{FilePath}
use xfer.FsPath.{filename, parent_path}
use xfer.Os.Action.{State, no_error, returns}
use xfer.Os.Laws.{store}
use xfer.Sender.Source.{crc_of_fd, send_file_bytes}
use xfer.Sender.Source.Sending.{FileEnds, send_file_bytes_lem}
use xfer.Net.Transfer.{socket}
use xfer.Os.Memory.{seen, same_path}
use xfer.Os.Memory.Laws.{memory-IsConnection, memory-IsReadable}
use xfer.Sender.Source.Checksum.{CrcEnds, crc_of_fd_lem}
use xfer.Base.{arith}
use xfer.Os.Memory.{memory, source_bytes, MemoryWorld}
use xfer.Os.Memory.Laws.{memory-IsSource}
use xfer.Sender.Manifest.{SenderOptions, collect_files, sort, unique}
use xfer.Base.{inl, inr}
use xfer.Net.SendFromFd.{IsInterrupted}
use xfer.Net.Branches.{IsSameEnd}
use xfer.Os.Action.{no_such_file_or_directory}
use xfer.Os.Memory.Laws.{memory-IsReliable, memory-IsSteady}
use xfer.Sender.{send_paths}
use xfer.Sender.Missing.{send_paths-missing}
use xfer.Sender.Source.Steady.{send_file_bytes-IsSameEnd}
use xfer.Sender.Manifest.Scan.{CollectEnds, none-Throws, collect_files_lem}

abbrev a_file : FilePath
a_file = b'a' ∷ []

abbrev b_file : FilePath
b_file = b'b' ∷ []

abbrev start : State MemoryWorld
start = record {
  world = record {
    seen = record {
      sent = [];
      incoming = [];
      disk = store (store (λ p. none) a_file (1 ∷ 2 ∷ [])) b_file (3 ∷ []);
      stream_file = λ h. none;
      reads = λ h. [];
    };
    next = 3;
    table = λ k. false;
    stream_table = λ k. false;
  };
  ec = no_error;
}

abbrev options : SenderOptions
options = record { recursive = false; follow_symlinks = false; zero_copy = true; strip_prefix = [] }

-- The first one is given twice.
abbrev paths : List FilePath
paths = b_file ∷ a_file ∷ b_file ∷ []

sorted_manifest :
    collect_files memory paths options start
    ≡ returns
        (record { rel_path = a_file; size = 2; crc32 = 0 }
          ∷ record { rel_path = b_file; size = 1; crc32 = 0 }
          ∷ [])
        start
unfolding collect_files sort unique filename parent_path
sorted_manifest = refl

collect_files_lem_example :
    CollectEnds memory options paths start (collect_files memory paths options start)
collect_files_lem_example = collect_files_lem memory options paths start

-- "a" is open as the descriptor 5.
abbrev reading : State MemoryWorld
reading = record start {
  world = record start.world { seen = record start.world.seen { reads = λ h. 1 ∷ 2 ∷ [] } };
}

crc_of_fd_lem_example : CrcEnds memory source_bytes 5 2 reading (crc_of_fd memory 5 2 reading)
crc_of_fd_lem_example = crc_of_fd_lem memory source_bytes memory-IsSource 5 2 reading (omega arith)

send_file_bytes_lem_example :
    FileEnds memory 7 seen same_path
      (memory-IsConnection 7)
      (memory-IsReadable 7)
      memory-IsSource
      5
      (IsInterrupted memory 7 seen same_path
        (memory-IsConnection 7)
        (memory-IsReadable 7)
        5
        reading.world
        2
        0)
      (1 ∷ 2 ∷ [])
      2
      reading
      (send_file_bytes memory (socket 7) 5 2 2 true reading)
send_file_bytes_lem_example =
    send_file_bytes_lem memory 7 seen same_path (memory-IsConnection 7) (memory-IsReadable 7)
      memory-IsSource 5 2 2 true reading (omega arith) (omega arith)

send_file_bytes-IsSameEnd_example :
    IsSameEnd memory 7 seen
      (memory-IsConnection 7)
      (1 ∷ 2 ∷ [])
      2
      reading
      (send_file_bytes memory (socket 7) 5 2 2 true reading)
      (send_file_bytes memory (socket 7) 5 2 2 false reading)
send_file_bytes-IsSameEnd_example =
    send_file_bytes-IsSameEnd memory 7 seen same_path (memory-IsConnection 7) (memory-IsReadable 7)
      memory-IsSource (memory-IsReliable 7) (memory-IsSteady 7) 5 2 2 reading (omega arith)
      (omega arith)

-- "b" is there and "c" is not.
send_paths-missing_example :
    send_paths memory (socket 7) (b_file ∷ (b'c' ∷ []) ∷ []) 0 options start
    ≡ returns tt (record start { ec = no_such_file_or_directory })
send_paths-missing_example =
    send_paths-missing memory (socket 7) (b_file ∷ (b'c' ∷ []) ∷ []) 0 options start
      (inr (inl refl))
      (none-Throws memory (λ follow path w e. absurd (cc e)) options (b_file ∷ (b'c' ∷ []) ∷ [])
        start.world)
