-- ===== src/Wire/Session.antt =====
-- The handshake: the session header and the acknowledgement, read back and corrupted.
use xfer.Base.{ℕ, ◌^◌, ◌≤◌, ◌<◌, ◌≡◌, ◌≢◌, refl, ap, sym, subst, ◌∙◌, arith, Bool-cases, inl, inr}
use xfer.Base.{
  List, [], ◌++◌, length, length-append, take, drop, take-append, drop-append, All, All-append,
  All-unappend, append-nil, ◌==◌, ==_iff, ==_ne,
}
use xfer.Crc.{compute}
use xfer.Crc.Serial.{IsByte}
use xfer.Crc.Burst.{compute_burst, compute-IsU32}
use xfer.Os.{Os}
use xfer.Os.Action.{State, returns, fails, invalid_argument}
use xfer.Os.Laws.{View, IsConnection, IsReliable}
use xfer.Net.{recv_all}
use xfer.Net.Transfer.{socket}
use xfer.Net.Exchange.{Reads, Writes, Reads-bind, recv_all-Reads, send_all-Writes}
use xfer.Wire.{
  SessionHeader, session_header_bytes, ack_bytes, write_session_header, parse_session_header,
  read_session_header, write_ack, read_ack, proto_magic, proto_ack,
}
use xfer.Wire.Layout.{session_prefix, session_header_bytes-layout, length-session_prefix}
use xfer.Wire.Words.{encode_u16, encode_u32, encode_u64, decode_u16, decode_u32, decode_u64}
use xfer.Wire.Words.RoundTrip.{
  decode_u16-encode_u16, decode_u32-encode_u32, decode_u64-encode_u64, encode_u16-IsByte,
  encode_u32-IsByte, encode_u64-IsByte,
}

-- The fields fit their C++ types.
pub record IsHeader (h : SessionHeader) : Type 0 where
  pub version_fits : h.version < 2 ^ 16
  pub flags_fit : h.flags < 2 ^ 32
  pub files_fit : h.total_files < 2 ^ 64
  pub bytes_fit : h.total_bytes < 2 ^ 64

session_prefix-IsByte : (h : SessionHeader) → All IsByte (session_prefix h)
unfolding session_prefix
session_prefix-IsByte h = All-append IsByte (encode_u32 proto_magic) _ (encode_u32-IsByte _) (
    All-append IsByte (encode_u16 h.version) _ (encode_u16-IsByte _) (
      omega arith,
      (
        omega arith,
        All-append IsByte (encode_u64 h.total_files) _ (encode_u64-IsByte _) (
            All-append IsByte (encode_u64 h.total_bytes) _ (encode_u64-IsByte _)
              (encode_u32-IsByte h.flags)),
      ),
    ))

-- Every field stands where `ReadSessionHeader` looks for it.
module _ (h : SessionHeader) (v : IsHeader h) where
  magic_field : decode_u32 (session_header_bytes h) ≡ proto_magic
  unfolding session_header_bytes encode_u16 encode_u32 encode_u64
  magic_field = decode_u32-encode_u32 proto_magic _ (omega arith)

  version_field : decode_u16 (drop 4 (session_header_bytes h)) ≡ h.version
  unfolding session_header_bytes encode_u16 encode_u32 encode_u64
  version_field = decode_u16-encode_u16 h.version _ v.version_fits

  files_field : decode_u64 (drop 8 (session_header_bytes h)) ≡ h.total_files
  unfolding session_header_bytes encode_u16 encode_u32 encode_u64
  files_field = decode_u64-encode_u64 h.total_files _ v.files_fit

  bytes_field : decode_u64 (drop 16 (session_header_bytes h)) ≡ h.total_bytes
  unfolding session_header_bytes encode_u16 encode_u32 encode_u64
  bytes_field = decode_u64-encode_u64 h.total_bytes _ v.bytes_fit

  flags_field : decode_u32 (drop 24 (session_header_bytes h)) ≡ h.flags
  unfolding session_header_bytes encode_u16 encode_u32 encode_u64
  flags_field = decode_u32-encode_u32 h.flags _ v.flags_fit

  crc_field :
      decode_u32 (drop 28 (session_header_bytes h)) ≡ compute (take 28 (session_header_bytes h))
  crc_field =
      ap (λ b. decode_u32 (drop 28 b)) (session_header_bytes-layout h)
      ∙ ap decode_u32 (drop-append 28 (session_prefix h) _ (sym (length-session_prefix h)))
      ∙ ap decode_u32 (sym (append-nil _))
      ∙ decode_u32-encode_u32 _ [] (compute-IsU32 (session_prefix h) (session_prefix-IsByte h))
      ∙ sym (ap compute (take-append 28 (session_prefix h) _ (sym (length-session_prefix h))))
      ∙ ap (λ b. compute (take 28 b)) (sym (session_header_bytes-layout h))

length-session_header_bytes : (h : SessionHeader) → length (session_header_bytes h) ≡ 32
unfolding session_header_bytes encode_u16 encode_u32 encode_u64
length-session_header_bytes h = refl

length-ack_bytes : (f : ℕ) → length (ack_bytes f) ≡ 8
unfolding ack_bytes encode_u32
length-ack_bytes f = refl

ack_field : (f : ℕ) → decode_u32 (ack_bytes f) ≡ proto_ack
unfolding ack_bytes encode_u32
ack_field f = decode_u32-encode_u32 proto_ack _ (omega arith)

flags_of_ack : (f : ℕ) → f < 2 ^ 32 → decode_u32 (drop 4 (ack_bytes f)) ≡ f
unfolding ack_bytes encode_u32
flags_of_ack f h = decode_u32-encode_u32 f _ h

module _ (os : Os) where
  parse_accepts :
      (buf : List ℕ) (s : State os.World)
      → decode_u32 buf ≡ proto_magic
      → decode_u32 (drop 28 buf) ≡ compute (take 28 buf)
      → parse_session_header os buf s
        ≡ returns
            (record {
              version = decode_u16 (drop 4 buf);
              flags = decode_u32 (drop 24 buf);
              total_files = decode_u64 (drop 8 buf);
              total_bytes = decode_u64 (drop 16 buf);
            })
            s
  unfolding parse_session_header
  parse_accepts buf s m c = rw ((==_iff _ _).1 m, (==_iff _ _).1 c)

  parse_rejects :
      (buf : List ℕ) (s : State os.World)
      → decode_u32 (drop 28 buf) ≢ compute (take 28 buf)
      → parse_session_header os buf s ≡ fails (record s { ec = invalid_argument })
  unfolding parse_session_header
  parse_rejects buf s c = elim (Bool-cases (decode_u32 buf == proto_magic)) [
    | inl m ↦ rw (m, ==_ne _ _ c)
    | inr m ↦ rw m
  ]

  parse_session_header-bytes :
      (h : SessionHeader) (s : State os.World)
      → IsHeader h
      → parse_session_header os (session_header_bytes h) s ≡ returns h s
  parse_session_header-bytes h s v =
      parse_accepts (session_header_bytes h) s (magic_field h v) (crc_field h v)
      ∙ cc (version_field h v, files_field h v, bytes_field h v, flags_field h v)

  module _ (fd : ℕ) (view : os.World → View) (conn : IsConnection os fd view)
      (reliable : IsReliable os fd view) where
    -- On a connection that does not break, `ReadSessionHeader` takes the bytes that
    -- `WriteSessionHeader` sends for a header whose fields fit their widths, in whatever pieces
    -- they come, gives that header back, and leaves what follows.
    pub read_session_header-Reads :
        (h : SessionHeader) (s : State os.World) (rest : List ℕ)
        → IsHeader h
        → (view s.world).incoming ≡ session_header_bytes h ++ rest
        → Reads os view (read_session_header os (socket fd)) s h rest
    unfolding read_session_header
    read_session_header-Reads h s rest v there =
        Reads-bind os view (recv_all os (socket fd) 32) (parse_session_header os) s
          (session_header_bytes h) h rest rest
          (recv_all-Reads os fd view conn reliable 32 (session_header_bytes h) rest s
            (sym (length-session_header_bytes h)) (omega arith) there)
          (λ t e. (t, parse_session_header-bytes h t v, cc, refl))

    pub write_session_header-Writes :
        (h : SessionHeader) (s : State os.World)
        → Writes os view (write_session_header os (socket fd) h) s (session_header_bytes h)
    unfolding write_session_header
    write_session_header-Writes h s =
        send_all-Writes os fd view conn reliable (session_header_bytes h) s
          (omega (arith, length-session_header_bytes h))

    pub read_ack-Reads :
        (f : ℕ) (s : State os.World) (rest : List ℕ)
        → f < 2 ^ 32
        → (view s.world).incoming ≡ ack_bytes f ++ rest
        → Reads os view (read_ack os (socket fd)) s f rest
    unfolding read_ack
    read_ack-Reads f s rest small there =
        Reads-bind os view (recv_all os (socket fd) 8) _ s (ack_bytes f) f rest rest
          (recv_all-Reads os fd view conn reliable 8 (ack_bytes f) rest s (sym (length-ack_bytes f))
            (omega arith) there)
          (λ t e. (
            t,
            rw ((==_iff _ _).1 (ack_field f)) (ap (λ g. returns g t) (flags_of_ack f small)),
            cc,
            refl,
          ))

    pub write_ack-Writes :
        (f : ℕ) (s : State os.World) → Writes os view (write_ack os (socket fd) f) s (ack_bytes f)
    unfolding write_ack
    write_ack-Writes f s =
        send_all-Writes os fd view conn reliable (ack_bytes f) s (omega (arith, length-ack_bytes f))

  -- A change of at most four neighbouring bytes among the 28 that the checksum covers is noticed:
  -- the header is refused with `invalid_argument`.
  pub parse_session_header_burst :
      (h : SessionHeader) (front xs ys back : List ℕ) (s : State os.World)
      → session_prefix h ≡ front ++ (xs ++ back)
      → All IsByte ys
      → length ys ≡ length xs
      → length xs ≤ 4
      → ys ≢ xs
      → parse_session_header os
          ((front ++ (ys ++ back)) ++ encode_u32 (compute (session_prefix h)))
          s
        ≡ fails (record s { ec = invalid_argument })
  parse_session_header_burst h front xs ys back s e hy n short differ =
      parse_rejects (changed ++ sum) s λ same.
        let (hf, hr) = All-unappend IsByte front (xs ++ back) bytes in
        let (hx, hb) = All-unappend IsByte xs back hr in
        differ (
          compute_burst front ys xs back hf hy hx hb n (omega arith)
            (sym (ap compute covered) ∙ sym same ∙ told ∙ ap compute e))
    where
      changed : List ℕ
      changed = front ++ (ys ++ back)

      sum : List ℕ
      sum = encode_u32 (compute (session_prefix h))

      bytes : All IsByte (front ++ (xs ++ back))
      bytes = subst (All IsByte) e (session_prefix-IsByte h)

      long : 28 ≡ length changed
      long = omega (
        arith,
        ap length e,
        length-session_prefix h,
        length-append front (xs ++ back),
        length-append xs back,
        length-append front (ys ++ back),
        length-append ys back,
      )

      covered : take 28 (changed ++ sum) ≡ changed
      covered = take-append 28 changed sum long

      told : decode_u32 (drop 28 (changed ++ sum)) ≡ compute (session_prefix h)
      told =
          ap decode_u32 (drop-append 28 changed sum long ∙ sym (append-nil sum))
          ∙ decode_u32-encode_u32 _ [] (compute-IsU32 (session_prefix h) (session_prefix-IsByte h))
