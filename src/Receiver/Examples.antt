-- ===== src/Receiver/Examples.antt =====
-- The receiver on the machine in memory.
use xfer.Base.{ℕ, ◌≡◌, none, true, List, [], ◌∷◌, ◌++◌, All, Bool, false, ◌&&◌, ltb}
use xfer.Os.{FilePath}
use xfer.Os.Action.{State, Ensures, no_error, invalid_argument}
use xfer.Os.Memory.{memory, MemoryWorld, seen, same_path}
use xfer.Os.Memory.Laws.{memory-IsConnection, memory-IsDisk}
use xfer.Net.Transfer.{socket}
use xfer.FsPath.{is_absolute, join, components}
use xfer.Wire.{session_header_bytes, file_header_bytes}
use xfer.Receiver.{ReceiverOptions, validate_and_join, receive_payload_to_file}
use xfer.Receiver.Payload.{PayloadEnds, receive_payload_to_file_lem}
use xfer.Receiver.Containment.{IsBelow, IsSafePart, validate_and_join_lem}

-- "out" and "../x"
abbrev out_dir : FilePath
out_dir = 111 ∷ 117 ∷ 116 ∷ []

abbrev outside : FilePath
outside = 46 ∷ 46 ∷ 47 ∷ 120 ∷ []

abbrev options : ReceiverOptions
options = record { output_dir = out_dir; create_dir = true; verify_crc = true }

-- A file "../x" of one byte is announced.
abbrev session : List ℕ
session =
    session_header_bytes (record { version = 1; flags = 1; total_files = 1; total_bytes = 1 })
    ++ (file_header_bytes (record { rel_path = outside; size = 1; crc32 = 0 })
        ++ (outside ++ (9 ∷ [])))

are_bytes : List ℕ → Bool
are_bytes [] = true
are_bytes (b ∷ bytes) = ltb b 256 && are_bytes bytes

abbrev start : State MemoryWorld
start = record {
  world = record {
    seen = record {
      sent = [];
      incoming = session;
      disk = λ p. none;
      stream_file = λ h. none;
      reads = λ h. [];
    };
    next = 3;
    table = λ k. false;
    stream_table = λ k. false;
  };
  ec = no_error;
}

receive_payload_to_file_lem_example :
    PayloadEnds memory 7 seen same_path
      (memory-IsConnection 7)
      memory-IsDisk
      outside
      6
      0
      start
      (receive_payload_to_file memory (socket 7) outside 6 0 start)
receive_payload_to_file_lem_example =
    receive_payload_to_file_lem memory 7 seen same_path (memory-IsConnection 7) memory-IsDisk
      outside 6 0 start

validate_and_join_lem_example :
    Ensures
      (λ safe t.
        (t ≡ start)
        × (safe ≡ join out_dir outside)
        × All IsSafePart (components outside)
        × (is_absolute outside ≡ false)
        × IsBelow out_dir safe)
      (λ t.
        (t ≡ record start { ec = invalid_argument })
        × ¬ (All IsSafePart (components outside) × (is_absolute outside ≡ false)))
      (validate_and_join memory out_dir outside start)
validate_and_join_lem_example = validate_and_join_lem memory out_dir outside start
