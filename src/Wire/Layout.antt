-- ===== src/Wire/Layout.antt =====
-- The buffers as sequences of fields, at the offsets of the source.
use xfer.Base.{ℕ, ◌%◌, ◌^◌, ◌≡◌, refl, List, ◌∷◌, ◌++◌, length}
use xfer.Crc.{compute}
use xfer.Wire.{
  SessionHeader, FileEntry, session_header_bytes, ack_bytes, file_header_bytes, proto_magic,
  proto_ack, file_magic,
}
use xfer.Wire.Words.{encode_u16, encode_u32, encode_u64}

-- The 28 bytes that the header's checksum covers.
unfoldable pub session_prefix : SessionHeader → List ℕ
session_prefix h =
    encode_u32 proto_magic
    ++ (encode_u16 h.version
        ++ (0 ∷ 0 ∷ (encode_u64 h.total_files ++ (encode_u64 h.total_bytes ++ encode_u32 h.flags))))

pub session_header_bytes-layout :
    (h : SessionHeader)
    → session_header_bytes h ≡ session_prefix h ++ encode_u32 (compute (session_prefix h))
unfolding session_header_bytes session_prefix encode_u16 encode_u32 encode_u64
session_header_bytes-layout h = refl

pub length-session_prefix : (h : SessionHeader) → length (session_prefix h) ≡ 28
unfolding session_prefix encode_u16 encode_u32 encode_u64
length-session_prefix h = refl

pub ack_bytes-layout : (f : ℕ) → ack_bytes f ≡ encode_u32 proto_ack ++ encode_u32 f
unfolding ack_bytes encode_u32
ack_bytes-layout f = refl

pub file_header_bytes-layout :
    (e : FileEntry)
    → file_header_bytes e
      ≡ encode_u32 file_magic
        ++ (encode_u16 (length e.rel_path % 2 ^ 16) ++ (encode_u64 e.size ++ encode_u32 e.crc32))
unfolding file_header_bytes encode_u16 encode_u32 encode_u64
file_header_bytes-layout e = refl
