-- ===== src/Wire/Record.antt =====
-- The record in front of a file, and the end marker, written and read back.
use xfer.Base.{ℕ, suc, ◌%◌, ◌^◌, ◌≤◌, ◌<◌, ◌≡◌, refl, ap, sym, ◌∙◌, arith}
use xfer.Base.{
  List, [], ◌∷◌, ◌++◌, length, take, drop, take_all, append-nil, append_assoc, ltb, ltb_pos, ==_iff,
  if◌then◌else◌, false,
}
use xfer.Os.{Os}
use xfer.Os.Action.{State, Action, returns, pure}
use xfer.Os.Laws.{View, IsConnection, IsReliable}
use xfer.Net.{send_all, recv_all}
use xfer.Net.Transfer.{socket}
use xfer.Net.Exchange.{
  Reads, Writes, Reads-pure, Reads-bind, Writes-bind, recv_all-Reads, send_all-Writes,
}
use xfer.Wire.{
  FileEntry, file_header_bytes, write_file_header, read_file_header, read_entry, read_path,
  write_done, read_done, file_magic, done_magic,
}
use xfer.Wire.Words.{encode_u16, encode_u32, encode_u64, decode_u16, decode_u32, decode_u64}
use xfer.Wire.Words.RoundTrip.{
  decode_u16-encode_u16, decode_u32-encode_u32, decode_u64-encode_u64, length-encode_u32,
}

-- The path can be announced in 16 bits, and the fields fit their C++ types.
pub record IsEntry (e : FileEntry) : Type 0 where
  pub path_fits : length e.rel_path ≤ 0xffff
  pub size_fits : e.size < 2 ^ 64
  pub crc_fits : e.crc32 < 2 ^ 32

-- What goes over the wire in front of a payload.
abbrev pub record_bytes : FileEntry → List ℕ
record_bytes e = file_header_bytes e ++ e.rel_path

length-file_header_bytes : (e : FileEntry) → length (file_header_bytes e) ≡ 18
unfolding file_header_bytes encode_u16 encode_u32 encode_u64
length-file_header_bytes e = refl

module _ (e : FileEntry) (v : IsEntry e) where
  magic_field : decode_u32 (file_header_bytes e) ≡ file_magic
  unfolding file_header_bytes encode_u16 encode_u32 encode_u64
  magic_field = decode_u32-encode_u32 file_magic _ (omega arith)

  path_len_field : decode_u16 (drop 4 (file_header_bytes e)) ≡ length e.rel_path
  unfolding file_header_bytes encode_u16 encode_u32 encode_u64
  path_len_field =
      decode_u16-encode_u16 (length e.rel_path % 2 ^ 16) _ (omega arith)
      ∙ omega (arith, v.path_fits)

  size_field : decode_u64 (drop 6 (file_header_bytes e)) ≡ e.size
  unfolding file_header_bytes encode_u16 encode_u32 encode_u64
  size_field = decode_u64-encode_u64 e.size _ v.size_fits

  crc_field : decode_u32 (drop 14 (file_header_bytes e)) ≡ e.crc32
  unfolding file_header_bytes encode_u16 encode_u32 encode_u64
  crc_field = decode_u32-encode_u32 e.crc32 _ v.crc_fits

done_field : decode_u32 (encode_u32 done_magic) ≡ done_magic
done_field =
    ap decode_u32 (sym (append-nil (encode_u32 done_magic)))
    ∙ decode_u32-encode_u32 done_magic [] (omega arith)

not_too_long : (n : ℕ) → n ≤ 0xffff → ltb 0xffff n ≡ false
not_too_long n h = ground arith

module _ (os : Os) (fd : ℕ) (view : os.World → View) (conn : IsConnection os fd view)
    (reliable : IsReliable os fd view) where
  read_path-Reads :
      (p : List ℕ) (s : State os.World) (rest : List ℕ) (n : ℕ)
      → n ≡ length p
      → n ≤ 0xffff
      → (view s.world).incoming ≡ p ++ rest
      → Reads os view (read_path os (socket fd) n) s p rest
  unfolding read_path
  read_path-Reads [] s rest n e small there = rw e (Reads-pure os view [] s rest there)
  read_path-Reads (b ∷ p) s rest n e small there =
      rw (e, ltb_pos (length p))
        (recv_all-Reads os fd view conn reliable (suc (length p)) (b ∷ p) rest s refl (omega arith)
          there)

  -- On a connection that does not break, `ReadFileHeader` takes the bytes of a record whose fields fit
  -- their widths, gives the record back, its path included, and leaves the payload that follows.
  pub read_file_header-Reads :
      (e : FileEntry) (s : State os.World) (rest : List ℕ)
      → IsEntry e
      → (view s.world).incoming ≡ record_bytes e ++ rest
      → Reads os view (read_file_header os (socket fd)) s e rest
  unfolding read_file_header read_entry
  read_file_header-Reads e s rest v there =
      Reads-bind os view (recv_all os (socket fd) 18) _ s (file_header_bytes e) e
        (e.rel_path ++ rest) rest
        (recv_all-Reads os fd view conn reliable 18 (file_header_bytes e) (e.rel_path ++ rest) s
          (sym (length-file_header_bytes e)) (omega arith)
          (there ∙ append_assoc (file_header_bytes e) e.rel_path rest))
        (λ t here. rw ((==_iff _ _).1 (magic_field e v)) (
          Reads-bind os view (read_path os (socket fd) (decode_u16 (drop 4 (file_header_bytes e))))
            _ t e.rel_path e rest rest
            (read_path-Reads e.rel_path t rest _ (path_len_field e v)
              (omega (arith, path_len_field e v)) here)
            (λ u end. (u, ap (λ x. returns x u) fields, cc, refl))))
    where
      fixed : List ℕ
      fixed = file_header_bytes e

      fields :
          record {
            rel_path = e.rel_path;
            size = decode_u64 (drop 6 fixed);
            crc32 = decode_u32 (drop 14 fixed);
          }
          ≡ e
      fields = cc (size_field e v, crc_field e v)

  -- On a connection that does not break, `WriteFileHeader` sends the fixed part and the path of a
  -- record whose path has at most 65535 bytes, and it returns.
  pub write_file_header-Writes :
      (e : FileEntry) (s : State os.World)
      → length e.rel_path ≤ 0xffff
      → Writes os view (write_file_header os (socket fd) e) s (record_bytes e)
  unfolding write_file_header
  write_file_header-Writes e s small =
      rw (not_too_long (length e.rel_path) small, fits)
        (Writes-bind os view (send_all os (socket fd) (file_header_bytes e)) (rest_of e.rel_path) s
          (file_header_bytes e) e.rel_path
          (send_all-Writes os fd view conn reliable (file_header_bytes e) s
            (omega (arith, length-file_header_bytes e)))
          (path_part e.rel_path small))
    where
      fits : length e.rel_path % 2 ^ 16 ≡ length e.rel_path
      fits = omega arith

      rest_of : List ℕ → Action os.World (Unit {0})
      rest_of p = if ltb 0 (length p) then send_all os (socket fd) (take (length p) p) else pure tt

      path_part :
          (p : List ℕ) → length p ≤ 0xffff → (t : State os.World) → Writes os view (rest_of p) t p
      path_part [] h t = (t, refl, cc (append-nil (view t.world).sent), refl)
      path_part (b ∷ p) h t =
          rw (ltb_pos (length p), take_all (length p) p (omega arith))
            (send_all-Writes os fd view conn reliable (b ∷ p) t (omega arith))

  pub read_done-Reads :
      (s : State os.World) (rest : List ℕ)
      → (view s.world).incoming ≡ encode_u32 done_magic ++ rest
      → Reads os view (read_done os (socket fd)) s tt rest
  unfolding read_done
  read_done-Reads s rest there =
      Reads-bind os view (recv_all os (socket fd) 4) _ s (encode_u32 done_magic) tt rest rest
        (recv_all-Reads os fd view conn reliable 4 (encode_u32 done_magic) rest s
          (sym (length-encode_u32 done_magic)) (omega arith) there)
        (λ t e. (t, rw ((==_iff _ _).1 done_field), cc, refl))

  pub write_done-Writes :
      (s : State os.World) → Writes os view (write_done os (socket fd)) s (encode_u32 done_magic)
  unfolding write_done
  write_done-Writes s =
      send_all-Writes os fd view conn reliable (encode_u32 done_magic) s
        (omega (arith, length-encode_u32 done_magic))
