-- ===== src/Wire/Tidy.antt =====
-- The readers and writers of src/transfer/protocol.cpp open and close nothing.
use xfer.Base.{ℕ, ◌%◌, ◌^◌, List, drop, take, length, ltb, ◌==◌}
use xfer.Crc.{compute}
use xfer.Os.{Os}
use xfer.Os.Sockets.{Table}
use xfer.Os.Tidy.{
  IsTidy, KeepsOpen, KeepsOpen-pure, KeepsOpen-throw, KeepsOpen-fail, KeepsOpen-bind, KeepsOpen-if,
}
use xfer.Os.Action.{Action, invalid_argument, filename_too_long}
use xfer.Net.{Socket, send_all, recv_all}
use xfer.Net.Tidy.{send_all-KeepsOpen, recv_all-KeepsOpen}
use xfer.Wire.{
  SessionHeader, FileEntry, session_header_bytes, ack_bytes, file_header_bytes, proto_magic,
  proto_ack, file_magic, done_magic, write_session_header, parse_session_header,
  read_session_header, write_ack, read_ack, write_file_header, read_path, read_entry,
  read_file_header, write_done, read_done,
}
use xfer.Wire.Words.{encode_u32, decode_u16, decode_u32}

module _ (os : Os) (opened streams : os.World → Table) (tidy : IsTidy os opened streams)
    (fds files : Table) (sock : Socket) where
  abbrev Keeps : {A : Type 0} → Action os.World A → Type 0
  Keeps = KeepsOpen os opened streams fds files

  sends : (bytes : List ℕ) → Keeps (send_all os sock bytes)
  sends = send_all-KeepsOpen os opened streams tidy fds files sock

  receives : (len : ℕ) → Keeps (recv_all os sock len)
  receives = recv_all-KeepsOpen os opened streams tidy fds files sock

  pub write_session_header-KeepsOpen : (h : SessionHeader) → Keeps (write_session_header os sock h)
  unfolding write_session_header
  write_session_header-KeepsOpen h = sends (session_header_bytes h)

  pub read_session_header-KeepsOpen : Keeps (read_session_header os sock)
  unfolding read_session_header parse_session_header
  read_session_header-KeepsOpen = KeepsOpen-bind (recv_all os sock 32) _ (receives 32) λ buf.
      KeepsOpen-if (decode_u32 buf == proto_magic) _ _
        (KeepsOpen-if (decode_u32 (drop 28 buf) == compute (take 28 buf)) _ _ (KeepsOpen-pure _)
          (KeepsOpen-throw _ invalid_argument))
        (KeepsOpen-throw _ invalid_argument)

  pub write_ack-KeepsOpen : (flags : ℕ) → Keeps (write_ack os sock flags)
  unfolding write_ack
  write_ack-KeepsOpen flags = sends (ack_bytes flags)

  pub read_ack-KeepsOpen : Keeps (read_ack os sock)
  unfolding read_ack
  read_ack-KeepsOpen = KeepsOpen-bind (recv_all os sock 8) _ (receives 8) λ buf.
      KeepsOpen-if (decode_u32 buf == proto_ack) _ _ (KeepsOpen-pure _)
        (KeepsOpen-throw _ invalid_argument)

  pub write_file_header-KeepsOpen : (entry : FileEntry) → Keeps (write_file_header os sock entry)
  unfolding write_file_header
  write_file_header-KeepsOpen entry =
      KeepsOpen-if (ltb 0xffff (length entry.rel_path)) _ _ (KeepsOpen-throw _ filename_too_long) (
        KeepsOpen-bind (send_all os sock (file_header_bytes entry)) _
          (sends (file_header_bytes entry))
          λ _.
            KeepsOpen-if (ltb 0 (length entry.rel_path % 2 ^ 16)) _ _
              (sends (take (length entry.rel_path % 2 ^ 16) entry.rel_path)) (KeepsOpen-pure tt))

  pub read_file_header-KeepsOpen : Keeps (read_file_header os sock)
  unfolding read_file_header read_entry read_path
  read_file_header-KeepsOpen = KeepsOpen-bind (recv_all os sock 18) _ (receives 18) λ fixed.
      KeepsOpen-if (decode_u32 fixed == file_magic) _ _
        (KeepsOpen-bind (read_path os sock (decode_u16 (drop 4 fixed))) _
          (KeepsOpen-if (ltb 0 (decode_u16 (drop 4 fixed))) _ _
            (receives (decode_u16 (drop 4 fixed))) (KeepsOpen-pure _))
          λ path. KeepsOpen-pure _)
        (KeepsOpen-throw _ invalid_argument)

  pub write_done-KeepsOpen : Keeps (write_done os sock)
  unfolding write_done
  write_done-KeepsOpen = sends (encode_u32 done_magic)

  pub read_done-KeepsOpen : Keeps (read_done os sock)
  unfolding read_done
  read_done-KeepsOpen =
      KeepsOpen-bind (recv_all os sock 4) _ (receives 4) λ buf.
        KeepsOpen-if (decode_u32 buf == done_magic) _ _ (KeepsOpen-pure tt) (KeepsOpen-fail _)
