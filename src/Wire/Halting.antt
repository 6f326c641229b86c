-- ===== src/Wire/Halting.antt =====
-- The writers and readers that the sender uses, in src/transfer/protocol.cpp, come back.
use xfer.Base.{ℕ, ◌%◌, ◌^◌, ◌<◌, ◌≡◌, refl, arith, List, length, take, length-take, ltb, ◌==◌}
use xfer.Os.{Os, FilePath}
use xfer.Os.Action.{Ensures-weaken, invalid_argument, filename_too_long}
use xfer.Os.Laws.{View, IsConnection}
use xfer.Os.Halting.{Halts, AnyResult, Halts-pure, Halts-throw, Halts-if, Halts-bind}
use xfer.Net.{send_all, recv_all}
use xfer.Net.Transfer.{socket}
use xfer.Net.SendAll.{Sent, SendRefused, send_all_lem}
use xfer.Net.RecvAll.{recv_all_lem}
use xfer.Wire.{
  SessionHeader, FileEntry, session_header_bytes, file_header_bytes, proto_ack, done_magic,
  write_session_header, read_ack, write_file_header, write_done,
}
use xfer.Wire.Words.{encode_u16, encode_u32, encode_u64, decode_u32}

length-session_header_bytes : (h : SessionHeader) → length (session_header_bytes h) ≡ 32
unfolding session_header_bytes encode_u16 encode_u32 encode_u64
length-session_header_bytes h = refl

length-file_header_bytes : (e : FileEntry) → length (file_header_bytes e) ≡ 18
unfolding file_header_bytes encode_u16 encode_u32 encode_u64
length-file_header_bytes e = refl

length-done : length (encode_u32 done_magic) ≡ 4
unfolding encode_u32
length-done = refl

module _ (os : Os) (view : os.World → View) (file : FilePath → FilePath) (fd : ℕ)
    (conn : IsConnection os fd view) where
  sends : (bytes : List ℕ) → length bytes < 2 ^ 31 → Halts AnyResult (send_all os (socket fd) bytes)
  sends bytes small = record {
    halts = λ s.
        Ensures-weaken (λ _ t. Sent os fd view conn bytes s t × (t.ec ≡ s.ec)) (λ _ _. Unit {0})
          (λ t.
            (k : ℕ) × (k < length bytes)
            × Sent os fd view conn (take k bytes) s t
            × SendRefused os fd view conn t)
          (λ _. Unit {0}) (send_all os (socket fd) bytes s)
          (send_all_lem os fd view conn bytes s small) (λ _ _ _. tt) (λ _ _. tt);
  }

  receives : (len : ℕ) → len < 2 ^ 31 → Halts AnyResult (recv_all os (socket fd) len)
  receives len small = record {
    halts = λ s.
        Ensures-weaken _ (λ _ _. Unit {0}) _ (λ _. Unit {0}) (recv_all os (socket fd) len s)
          (recv_all_lem os fd view conn len s small) (λ _ _ _. tt) (λ _ _. tt);
  }

  pub write_session_header-Halts :
      (h : SessionHeader) → Halts AnyResult (write_session_header os (socket fd) h)
  unfolding write_session_header
  write_session_header-Halts h =
      sends (session_header_bytes h) (omega (arith, length-session_header_bytes h))

  pub read_ack-Halts : Halts AnyResult (read_ack os (socket fd))
  unfolding read_ack
  read_ack-Halts =
      Halts-bind AnyResult AnyResult (recv_all os (socket fd) 8) _ (receives 8 (omega arith))
        λ buf _.
          Halts-if AnyResult (decode_u32 buf == proto_ack) _ _ (Halts-pure AnyResult _ tt)
            (Halts-throw AnyResult invalid_argument)

  pub write_file_header-Halts :
      (entry : FileEntry) → Halts AnyResult (write_file_header os (socket fd) entry)
  unfolding write_file_header
  write_file_header-Halts entry =
      let len = length entry.rel_path % 2 ^ 16 in
      Halts-if AnyResult (ltb 0xffff (length entry.rel_path)) _ _
        (Halts-throw AnyResult filename_too_long)
        (Halts-bind AnyResult AnyResult (send_all os (socket fd) (file_header_bytes entry)) _
          (sends (file_header_bytes entry) (omega (arith, length-file_header_bytes entry)))
          λ _ _.
            Halts-if AnyResult (ltb 0 len) _ _
              (sends (take len entry.rel_path) (omega (arith, length-take len entry.rel_path)))
              (Halts-pure AnyResult tt tt))

  pub write_done-Halts : Halts AnyResult (write_done os (socket fd))
  unfolding write_done
  write_done-Halts = sends (encode_u32 done_magic) (omega (arith, length-done))
