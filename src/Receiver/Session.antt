-- ===== src/Receiver/Session.antt =====
-- What a session stores, when no call fails.
pub mod Records
use xfer.Base.{
  ℕ, zero, suc, ◌+◌, ◌%◌, ◌^◌, ◌<◌, ◌≡◌, ◌⊎◌, inl, inr, refl, ap, subst, sym, ◌∙◌, arith, Bool,
  true, false, Bool-cases,
}
use xfer.Base.{List, [], ◌∷◌, ◌++◌, length, All, append_assoc, if◌then◌else◌, Option}
use xfer.Crc.{compute}
use xfer.Os.{Os, FilePath}
use xfer.Os.Action.{Action, State, returns, pure, attempted, after, ◌>>=◌, >>=-returns}
use xfer.Os.Laws.{View, IsConnection, IsReliable, IsDisk, IsRoomy, store}
use xfer.FsPath.{is_empty, join}
use xfer.Net.Transfer.{socket}
use xfer.Wire.{
  SessionHeader, session_header_bytes, ack_bytes, done_magic, read_session_header, write_ack,
  read_file_header,
}
use xfer.Wire.Words.{encode_u32}
use xfer.Wire.Session.{read_session_header-Reads, write_ack-Writes}
use xfer.Wire.Record.{record_bytes, read_file_header-Reads, read_done-Reads}
use xfer.Sender.{session_of, sum_sizes}
use xfer.Sender.Found.{Item, entries}
use xfer.Sender.Session.{items_bytes, session_bytes}
use xfer.Receiver.{
  ReceiverOptions, ReceiverSummary, no_files, validate_and_join, receive_payload_to_file,
  receive_entry, receive_records, open_output_dir, choose_dir, check_dir, receive_stream,
}
use xfer.Receiver.Containment.{validate_and_join_safe}
use xfer.Receiver.Success.{Takes, Takes-bind, Reads-Takes, receive_payload_to_file-Takes}
use xfer.Receiver.Items.{
  IsAccepted, add_file, summary_from, target_paths, store_all, stored_summary, session_of-IsHeader,
  length-entries, header_count,
}
use xfer.Receiver.Session.Records.{receive_records-Takes}

module _ (os : Os) (fd : ℕ) (view : os.World → View) (file : FilePath → FilePath)
    (conn : IsConnection os fd view) (reliable : IsReliable os fd view)
    (ondisk : IsDisk os view file) (roomy : IsRoomy os view file) where
  -- A directory that the options name, and that is there on a disk with these files.
  pub record IsReady (options : ReceiverOptions) (disk : FilePath → Option (List ℕ)) : Type 0 where
    pub named : is_empty options.output_dir ≡ false
    pub there : (w : os.World) → (view w).disk ≡ disk → os.is_directory options.output_dir w ≡ true

  open_output_dir-returns :
      (options : ReceiverOptions) (s : State os.World)
      → IsReady options (view s.world).disk
      → (t : State os.World) × (open_output_dir os options s ≡ returns options.output_dir t)
        × (view t.world ≡ view s.world)
        × (t.ec ≡ s.ec)
  unfolding open_output_dir choose_dir check_dir
  open_output_dir-returns options s ready = elim (Bool-cases options.create_dir) [
    | inl e ↦
        let w = os.create_directories options.output_dir s.world in
        let same = ondisk.create_directories_lem options.output_dir s.world in
        (
          record s { world = w },
          rw (ready.named, e, ready.there w (ap (λ (x : View). x.disk) same)) refl,
          same,
          refl,
        )
    | inr e ↦ (s, rw (ready.named, e, ready.there s.world refl) refl, refl, refl)
  ]

  -- `ReceiveStream` returns true with the summary of the items, has sent an acknowledgement with flags
  -- 0, and has stored the items.
  abbrev pub Stores : ReceiverOptions → List Item → State os.World → List ℕ → Type 0
  Stores options items s rest =
      (t : State os.World) × (receive_stream os (socket fd) options s
        ≡ returns
            (record {
              total_files = length items;
              total_bytes = sum_sizes 0 (entries items);
              written_paths = target_paths options.output_dir items;
            })
            t)
      × ((view t.world).incoming ≡ rest)
      × ((view t.world).sent ≡ (view s.world).sent ++ ack_bytes 0)
      × ((view t.world).disk ≡ store_all file options.output_dir (view s.world).disk items)

  -- While no call fails, with a directory that is there, and fewer than 2^64 files of the announced
  -- sizes and checksums and with paths that are accepted: when the bytes of the session come in,
  -- `ReceiveStream` returns true, takes just these bytes, acknowledges with flags 0, and stores every
  -- file below the directory, the later ones on top. The summary counts the files and their bytes
  -- modulo 2^64, and lists the paths in order.
  pub receive_stream-Stores :
      (options : ReceiverOptions) (items : List Item) (s : State os.World) (rest : List ℕ)
      → IsReady options (view s.world).disk
      → All (IsAccepted options.verify_crc) items
      → length items < 2 ^ 64
      → (view s.world).incoming ≡ session_bytes items ++ rest
      → Stores options items s rest
  unfolding receive_stream
  receive_stream-Stores options items s rest ready ok few coming =
      let (t1, e1, v1, c1) =
        read_session_header-Reads os fd view conn reliable header s (records ++ rest)
          (session_of-IsHeader (entries items) (omega (arith, length-entries items)))
          (coming ∙ append_assoc (session_header_bytes header) records rest) in
      let (t2, e2, v2, c2) = write_ack-Writes os fd view conn reliable 0 t1 in
      let (t3, e3, v3, c3) = open_output_dir-returns options t2 (
        subst (IsReady options) (sym (ap (λ (x : View). x.disk) v2 ∙ ap (λ (x : View). x.disk) v1))
          ready) in
      let (t4, e4, i4, o4, d4, c4) =
        receive_records-Takes os fd view file conn reliable ondisk roomy options.output_dir
          options.verify_crc items header.total_files no_files t3 (encode_u32 done_magic ++ rest)
          (header_count items) ok
          (ap (λ (x : View). x.incoming) v3
            ∙ ap (λ (x : View). x.incoming) v2
            ∙ ap (λ (x : View). x.incoming) v1
            ∙ append_assoc (items_bytes items) (encode_u32 done_magic) rest) in
      let (t5, e5, v5, c5) = read_done-Reads os fd view conn reliable t4 rest i4 in
      (
        t5,
        >>=-returns (read_session_header os (socket fd)) _ e1
            ∙ >>=-returns (write_ack os (socket fd) 0) _ e2
            ∙ >>=-returns (open_output_dir os options) _ e3
            ∙ >>=-returns
                (receive_records os (socket fd) options.output_dir options.verify_crc
                  header.total_files no_files)
                _ e4
            ∙ ap
                (λ r.
                  after (attempted r) (λ _. pure (summary_from options.output_dir no_files items)))
                e5
            ∙ ap (λ x. returns x t5) (stored_summary options.output_dir items few),
        ap (λ (x : View). x.incoming) v5,
        ap (λ (x : View). x.sent) v5
            ∙ o4
            ∙ ap (λ (x : View). x.sent) v3
            ∙ ap (λ (x : View). x.sent) v2
            ∙ ap (λ (x : View). x.sent ++ ack_bytes 0) v1,
        ap (λ (x : View). x.disk) v5
            ∙ d4
            ∙ ap (λ d. store_all file options.output_dir d items)
                (ap (λ (x : View). x.disk) v3
                  ∙ ap (λ (x : View). x.disk) v2
                  ∙ ap (λ (x : View). x.disk) v1),
      )
    where
      header : SessionHeader
      header = session_of (entries items)

      records : List ℕ
      records = items_bytes items ++ encode_u32 done_magic
