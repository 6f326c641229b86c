-- ===== src/Receiver/Session/Records.antt =====
-- What the records of a session store, when no call fails.
use xfer.Base.{
  ℕ, zero, suc, ◌+◌, ◌%◌, ◌^◌, ◌≡◌, ◌⊎◌, inl, inr, refl, ap, subst, sym, ◌∙◌, arith, Bool,
  Bool-cases,
}
use xfer.Base.{List, [], ◌∷◌, ◌++◌, length, All, append_assoc, if◌then◌else◌}
use xfer.Crc.{compute}
use xfer.Os.{Os, FilePath}
use xfer.Os.Action.{Action, State, pure, ◌>>=◌, >>=-returns}
use xfer.Os.Laws.{View, IsConnection, IsReliable, IsDisk, IsRoomy, store}
use xfer.FsPath.{join}
use xfer.Net.Transfer.{socket}
use xfer.Wire.{read_file_header}
use xfer.Wire.Record.{record_bytes, read_file_header-Reads}
use xfer.Sender.Found.{Item}
use xfer.Sender.Session.{items_bytes}
use xfer.Receiver.{
  ReceiverSummary, validate_and_join, receive_payload_to_file, receive_entry, receive_records,
}
use xfer.Receiver.Containment.{validate_and_join_safe}
use xfer.Receiver.Success.{Takes, Takes-bind, Reads-Takes, receive_payload_to_file-Takes}
use xfer.Receiver.Items.{IsAccepted, add_file, summary_from, store_all}

module _ (os : Os) (fd : ℕ) (view : os.World → View) (file : FilePath → FilePath)
    (conn : IsConnection os fd view) (reliable : IsReliable os fd view)
    (ondisk : IsDisk os view file) (roomy : IsRoomy os view file) where
  module _ (out : FilePath) (verify : Bool) where
    receive_entry-Takes :
        (summary : ReceiverSummary) (item : Item) (s : State os.World) (rest : List ℕ)
        → IsAccepted verify item
        → (view s.world).incoming ≡ item.1 ++ rest
        → Takes os view
            (receive_entry os (socket fd) out verify summary item.0)
            s
            (add_file out summary item.0)
            rest
            (store (view s.world).disk (file (join out item.0.rel_path)) item.1)
    unfolding receive_entry
    receive_entry-Takes summary item s rest ok coming = rw ok.named (
      done.0,
      >>=-returns (validate_and_join os out item.0.rel_path) received
            (validate_and_join_safe os out item.0.rel_path s ok.safe ok.relative)
          ∙ done.1,
      done.2,
      done.3,
      done.4,
      done.5,
    )
      where
        expected : ℕ
        expected = if verify then item.0.crc32 else 0

        counted : FilePath → ℕ → Action os.World ReceiverSummary
        counted safe actual = pure (record {
          total_files = (summary.total_files + 1) % 2 ^ 64;
          total_bytes = (summary.total_bytes + item.0.size) % 2 ^ 64;
          written_paths = summary.written_paths ++ (safe ∷ []);
        })

        received : FilePath → Action os.World ReceiverSummary
        received safe =
            receive_payload_to_file os (socket fd) safe item.0.size expected >>= counted safe

        matches : (expected ≡ 0) ⊎ (expected ≡ compute item.1)
        matches = elim ok.sum_matches [
          | inl off ↦ inl (ap (λ b. if b then item.0.crc32 else 0) off)
          | inr sum ↦ elim (Bool-cases verify) [
            | inl on ↦
                subst (λ x. (x ≡ 0) ⊎ (x ≡ compute item.1))
                  (sym (ap (λ b. if b then item.0.crc32 else 0) on)) sum
            | inr off ↦ inl (ap (λ b. if b then item.0.crc32 else 0) off)
          ]
        ]

        stored :
            Takes os view
              (receive_payload_to_file os
                (socket fd)
                (join out item.0.rel_path)
                item.0.size
                expected)
              s
              (compute item.1)
              rest
              (store (view s.world).disk (file (join out item.0.rel_path)) item.1)
        stored =
            subst
              (λ n.
                Takes os view
                  (receive_payload_to_file os (socket fd) (join out item.0.rel_path) n expected) s
                  (compute item.1) rest
                  (store (view s.world).disk (file (join out item.0.rel_path)) item.1))
              ok.exact
              (receive_payload_to_file-Takes os fd view file conn reliable ondisk roomy
                (join out item.0.rel_path) item.1 rest expected s coming matches)

        done :
            Takes os view
              (receive_payload_to_file os
                  (socket fd)
                  (join out item.0.rel_path)
                  item.0.size
                  expected
                >>= counted (join out item.0.rel_path))
              s
              (add_file out summary item.0)
              rest
              (store (view s.world).disk (file (join out item.0.rel_path)) item.1)
        done =
            Takes-bind os view
              (receive_payload_to_file os (socket fd) (join out item.0.rel_path) item.0.size
                expected)
              (counted (join out item.0.rel_path)) s (compute item.1) (add_file out summary item.0)
              rest rest _ _ stored (λ t i k. (t, refl, i, refl, k, refl))

    pub receive_records-Takes :
        (items : List Item) (n : ℕ) (summary : ReceiverSummary) (s : State os.World) (rest : List ℕ)
        → n ≡ length items
        → All (IsAccepted verify) items
        → (view s.world).incoming ≡ items_bytes items ++ rest
        → Takes os view
            (receive_records os (socket fd) out verify n summary)
            s
            (summary_from out summary items)
            rest
            (store_all file out (view s.world).disk items)
    unfolding receive_records
    receive_records-Takes [] zero summary s rest count ok coming =
        (s, refl, coming, refl, refl, refl)
    receive_records-Takes [] (suc n) summary s rest count ok coming = absurd (omega arith)
    receive_records-Takes (item ∷ items) zero summary s rest count ok coming = absurd (omega arith)
    receive_records-Takes (item ∷ items) (suc n) summary s rest count (ok, more) coming =
        let after_record = item.1 ++ (items_bytes items ++ rest) in
        Takes-bind os view (read_file_header os (socket fd)) _ s item.0
          (summary_from out summary (item ∷ items)) after_record rest (view s.world).disk
          (store_all file out (view s.world).disk (item ∷ items))
          (Reads-Takes os view (read_file_header os (socket fd)) s item.0 after_record (
            read_file_header-Reads os fd view conn reliable item.0 s after_record ok.entry (
              coming
              ∙ append_assoc (record_bytes item.0 ++ item.1) (items_bytes items) rest
              ∙ append_assoc (record_bytes item.0) item.1 (items_bytes items ++ rest))))
          λ t coming1 disk1.
            Takes-bind os view (receive_entry os (socket fd) out verify summary item.0) _ t
              (add_file out summary item.0) (summary_from out summary (item ∷ items))
              (items_bytes items ++ rest) rest
              (store (view t.world).disk (file (join out item.0.rel_path)) item.1)
              (store_all file out (view s.world).disk (item ∷ items))
              (receive_entry-Takes summary item t (items_bytes items ++ rest) ok coming1)
              λ u coming2 disk2.
                subst
                  (λ d.
                    Takes os view
                      (receive_records os (socket fd) out verify n (add_file out summary item.0)) u
                      (summary_from out summary (item ∷ items)) rest (store_all file out d items))
                  (disk2 ∙ ap (λ d. store d (file (join out item.0.rel_path)) item.1) disk1)
                  (receive_records-Takes items n (add_file out summary item.0) u rest (omega arith)
                    more coming2)
