-- ===== src/Wire/Examples.antt =====
-- The wire format at concrete values, on the machine in memory.
use xfer.Base.{ℕ, ◌≡◌, refl, arith, none, false, List, [], ◌∷◌, ◌++◌, take, drop}
use xfer.Os.Action.{State, fails, no_error, invalid_argument}
use xfer.Os.Memory.{memory, MemoryWorld, seen}
use xfer.Os.Memory.Laws.{memory-IsConnection, memory-IsReliable}
use xfer.Crc.{compute}
use xfer.Net.Transfer.{socket}
use xfer.Net.Exchange.{Reads, Writes}
use xfer.Wire.{
  SessionHeader, FileEntry, session_header_bytes, read_session_header, write_file_header,
  read_file_header, parse_session_header,
}
use xfer.Wire.Layout.{session_prefix}
use xfer.Wire.Words.{encode_u16, encode_u32, encode_u64, decode_u64}
use xfer.Wire.Words.RoundTrip.{decode_u64-encode_u64}
use xfer.Wire.Session.{read_session_header-Reads, parse_session_header_burst}
use xfer.Wire.Record.{record_bytes, read_file_header-Reads, write_file_header-Writes}

abbrev header : SessionHeader
header = record { version = 1; flags = 1; total_files = 2; total_bytes = 70000 }

abbrev entry : FileEntry
entry = record { rel_path = 97 ∷ 47 ∷ 98 ∷ []; size = 3; crc32 = 0xdeadbeef }

abbrev receiving : List ℕ → State MemoryWorld
receiving bytes = record {
  world = record {
    seen = record {
      sent = [];
      incoming = bytes;
      disk = λ p. none;
      stream_file = λ h. none;
      reads = λ h. [];
    };
    next = 3;
    table = λ k. false;
    stream_table = λ k. false;
  };
  ec = no_error;
}

-- The magic number goes out as "REFX".
first_bytes : take 4 (session_header_bytes header) ≡ 82 ∷ 69 ∷ 70 ∷ 88 ∷ []
unfolding session_header_bytes encode_u32
first_bytes = refl

decode_u64-encode_u64_example : decode_u64 (encode_u64 70000 ++ (5 ∷ [])) ≡ 70000
decode_u64-encode_u64_example = decode_u64-encode_u64 70000 (5 ∷ []) (omega arith)

read_session_header-Reads_example :
    Reads memory seen
      (read_session_header memory (socket 7))
      (receiving (session_header_bytes header ++ (5 ∷ [])))
      header
      (5 ∷ [])
read_session_header-Reads_example =
    read_session_header-Reads memory 7 seen (memory-IsConnection 7) (memory-IsReliable 7) header
      (receiving (session_header_bytes header ++ (5 ∷ []))) (5 ∷ []) (omega arith) refl

split_prefix :
    session_prefix header
    ≡ take 8 (session_prefix header) ++ ((2 ∷ []) ++ drop 9 (session_prefix header))
unfolding session_prefix encode_u16 encode_u32 encode_u64
split_prefix = refl

parse_session_header_burst_example :
    parse_session_header memory
      ((take 8 (session_prefix header) ++ ((3 ∷ []) ++ drop 9 (session_prefix header)))
        ++ encode_u32 (compute (session_prefix header)))
      (receiving [])
    ≡ fails (record (receiving []) { ec = invalid_argument })
parse_session_header_burst_example =
    parse_session_header_burst memory header (take 8 (session_prefix header)) (2 ∷ []) (3 ∷ [])
      (drop 9 (session_prefix header)) (receiving []) split_prefix (omega arith) refl (omega arith)
      (λ e. cc (e))

read_file_header-Reads_example :
    Reads memory seen
      (read_file_header memory (socket 7))
      (receiving (record_bytes entry ++ (5 ∷ [])))
      entry
      (5 ∷ [])
read_file_header-Reads_example =
    read_file_header-Reads memory 7 seen (memory-IsConnection 7) (memory-IsReliable 7) entry
      (receiving (record_bytes entry ++ (5 ∷ []))) (5 ∷ []) (omega arith) refl

write_file_header-Writes_example :
    Writes memory seen
      (write_file_header memory (socket 7) entry)
      (receiving [])
      (record_bytes entry)
write_file_header-Writes_example =
    write_file_header-Writes memory 7 seen (memory-IsConnection 7) (memory-IsReliable 7) entry
      (receiving []) (omega arith)
