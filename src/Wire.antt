-- ===== src/Wire.antt =====
-- src/transfer/protocol.h, src/transfer/protocol.cpp and include/xfer/protocol.h: the wire format.
-- A buffer is a list of bytes, and a path is the list of its bytes. An out parameter is the result
-- of a call that returns true.
pub mod Words
pub mod Layout
pub mod Session
pub mod Record
pub mod Frame
pub mod Tidy
pub mod Halting
mod Examples
use xfer.Base.{
  ℕ, ◌+◌, ◌%◌, ◌^◌, Bool, true, false, List, [], ◌∷◌, ◌++◌, length, take, drop, replicate,
}
use xfer.Base.{ltb, ◌==◌, if◌then◌else◌}
use xfer.Crc.{compute}
use xfer.Os.{Os, FilePath}
use xfer.Os.Action.{Action, pure, ◌>>=◌, ◌>>◌, throw, fail, invalid_argument, filename_too_long}
use xfer.Net.{Socket, send_all, recv_all}
use xfer.Wire.Words.{encode_u16, encode_u32, encode_u64, decode_u16, decode_u32, decode_u64}

abbrev pub proto_magic : ℕ
proto_magic = 0x58464552

abbrev pub proto_version : ℕ
proto_version = 0x0001

abbrev pub proto_ack : ℕ
proto_ack = 0x4f4b4159

abbrev pub file_magic : ℕ
file_magic = 0x46494c45

abbrev pub done_magic : ℕ
done_magic = 0x444f4e45

-- `1u << 0`
abbrev pub flag_crc32 : ℕ
flag_crc32 = 1

pub record SessionHeader : Type 0 where
  pub version : ℕ
  pub flags : ℕ
  pub total_files : ℕ
  pub total_bytes : ℕ

pub record FileEntry : Type 0 where
  pub rel_path : FilePath
  pub size : ℕ
  pub crc32 : ℕ

-- Writes `bytes` into the buffer from the offset `at` on.
abbrev pub poke : List ℕ → ℕ → List ℕ → List ℕ
poke buf at bytes = take at buf ++ (bytes ++ drop (at + length bytes) buf)

-- The buffer of `WriteSessionHeader` before the checksum is put in.
session_fields : SessionHeader → List ℕ
session_fields h =
    let b0 = replicate 32 0 in
    let b1 = poke b0 0 (encode_u32 proto_magic) in
    let b2 = poke b1 4 (encode_u16 h.version) in
    let b3 = poke b2 8 (encode_u64 h.total_files) in
    let b4 = poke b3 16 (encode_u64 h.total_bytes) in poke b4 24 (encode_u32 h.flags)

unfoldable pub session_header_bytes : SessionHeader → List ℕ
unfolding session_fields
session_header_bytes h =
    let buf = session_fields h in poke buf 28 (encode_u32 (compute (take 28 buf)))

unfoldable pub ack_bytes : ℕ → List ℕ
ack_bytes receiver_flags =
    poke (poke (replicate 8 0) 0 (encode_u32 proto_ack)) 4 (encode_u32 receiver_flags)

-- `path_len` is cast to 16 bits.
unfoldable pub file_header_bytes : FileEntry → List ℕ
file_header_bytes entry =
    let b0 = replicate 18 0 in
    let b1 = poke b0 0 (encode_u32 file_magic) in
    let b2 = poke b1 4 (encode_u16 (length entry.rel_path % 2 ^ 16)) in
    let b3 = poke b2 6 (encode_u64 entry.size) in poke b3 14 (encode_u32 entry.crc32)

module _ (os : Os) where
  unfoldable pub write_session_header : Socket → SessionHeader → Action os.World (Unit {0})
  write_session_header sock h = send_all os sock (session_header_bytes h)

  -- `ReadSessionHeader` behind its `RecvAll`.
  unfoldable pub parse_session_header : List ℕ → Action os.World SessionHeader
  parse_session_header buf =
      if decode_u32 buf == proto_magic
      then if decode_u32 (drop 28 buf) == compute (take 28 buf)
        then pure (record {
          version = decode_u16 (drop 4 buf);
          flags = decode_u32 (drop 24 buf);
          total_files = decode_u64 (drop 8 buf);
          total_bytes = decode_u64 (drop 16 buf);
        })
        else throw invalid_argument
      else throw invalid_argument

  unfoldable pub read_session_header : Socket → Action os.World SessionHeader
  read_session_header sock = do buf ← recv_all os sock 32; parse_session_header buf

  unfoldable pub write_ack : Socket → ℕ → Action os.World (Unit {0})
  write_ack sock receiver_flags = send_all os sock (ack_bytes receiver_flags)

  unfoldable pub read_ack : Socket → Action os.World ℕ
  read_ack sock = do
    buf ← recv_all os sock 8
    if decode_u32 buf == proto_ack then pure (decode_u32 (drop 4 buf)) else throw invalid_argument

  unfoldable pub write_file_header : Socket → FileEntry → Action os.World (Unit {0})
  write_file_header sock entry =
      if ltb 0xffff (length entry.rel_path)
      then throw filename_too_long
      else send_all os sock (file_header_bytes entry)
        >> (if ltb 0 (length entry.rel_path % 2 ^ 16)
            then send_all os sock (take (length entry.rel_path % 2 ^ 16) entry.rel_path)
            else pure tt)

  -- The path behind a fixed part that announces `path_len` bytes of it.
  read_path : Socket → ℕ → Action os.World FilePath
  read_path sock path_len = if ltb 0 path_len then recv_all os sock path_len else pure []

  -- `ReadFileHeader` behind its test of the magic number.
  read_entry : Socket → List ℕ → Action os.World FileEntry
  read_entry sock fixed = do
    rel_path ← read_path sock (decode_u16 (drop 4 fixed))
    pure (record {
      rel_path = rel_path;
      size = decode_u64 (drop 6 fixed);
      crc32 = decode_u32 (drop 14 fixed);
    })

  unfoldable pub read_file_header : Socket → Action os.World FileEntry
  unfolding read_entry read_path
  read_file_header sock = do
    fixed ← recv_all os sock 18
    if decode_u32 fixed == file_magic then read_entry sock fixed else throw invalid_argument

  unfoldable pub write_done : Socket → Action os.World (Unit {0})
  write_done sock = send_all os sock (encode_u32 done_magic)

  unfoldable pub read_done : Socket → Action os.World (Unit {0})
  read_done sock = do
    buf ← recv_all os sock 4
    if decode_u32 buf == done_magic then pure tt else fail
