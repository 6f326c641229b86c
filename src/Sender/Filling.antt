-- ===== src/Sender/Filling.antt =====
-- The checksums that `SendPaths` and `SendFiles` fill in before the session, in
-- src/transfer/sender.cpp, when no call fails.
use xfer.Base.{ℕ, ◌^◌, ◌≤◌, ◌<◌, ◌≡◌, refl, ap, subst, sym, ◌∙◌, Bool, true, false}
use xfer.Base.{List, [], ◌∷◌, ◌++◌, length, All, Option, ◌==◌, if◌then◌else◌}
use xfer.Crc.{compute}
use xfer.Os.{Os, FilePath}
use xfer.Os.Action.{Action, State, returns, fails, pure, after, >>=-returns, ◌>>=◌, no_error}
use xfer.Os.Laws.{View, IsConnection, IsReliable, IsSource}
use xfer.Os.Files.{IsReadable, IsSteady}
use xfer.Net.Transfer.{socket}
use xfer.Net.Dialogue.{Talks, Talks-bind, Talks-pure}
use xfer.Wire.{FileEntry, ack_bytes}
use xfer.Crc.Serial.{IsByte}
use xfer.Crc.Burst.{compute-IsU32}
use xfer.Sender.Manifest.{SenderOptions, collect_files}
use xfer.Sender.Source.Reading.{crc_of_fd-Talks}
use xfer.Sender.Session.{session_bytes, send_session-Talks}
use xfer.Sender.Source.{resolve_on_disk, open_for_read, crc_of_fd}
use xfer.Sender.Found.{Item, entries, IsFound, resolve-returns, open_there, resolve-crc}
use xfer.Sender.{
  close_fd, check_ec, has_error, fill_crc, fill_missing, fill_all, send_session, send_files,
  send_paths,
}

-- The entry with the checksum of its file.
abbrev pub with_crc : Item → Item
with_crc (e, content) = (record e { crc32 = compute content }, content)

-- The entry as `SendFiles` sends it.
abbrev pub completed : Item → Item
completed item = if item.0.crc32 == 0 then with_crc item else item

abbrev pub completed_items : List Item → List Item
completed_items [] = []
completed_items (item ∷ items) = completed item ∷ completed_items items

module _ (os : Os) (fd : ℕ) (view : os.World → View) (file : FilePath → FilePath)
    (readable : IsReadable os fd view file) (source : IsSource os (λ w. (view w).reads))
    (steady : IsSteady os fd view file) where
  module _ (conn : IsConnection os fd view) (paths : List FilePath) where
    fill_crc-Talks :
        (d : FilePath → Option (List ℕ)) (item : Item) (s : State os.World) (rest : List ℕ)
        → IsFound os view file paths d item
        → (view s.world).disk ≡ d
        → (view s.world).incoming ≡ rest
        → s.ec ≡ no_error
        → Talks os view (fill_crc os paths item.0) s (with_crc item).0 rest []
    unfolding fill_crc close_fd check_ec has_error
    fill_crc-Talks d item s rest found same coming clean =
        let (h, t, opening, v, reading, kept) =
          open_there os fd view file readable steady found.path item.1 s
            (ap (λ (k : FilePath → Option (List ℕ)). k (file found.path)) same ∙ found.there) in
        let (u, e, v', kept') =
          crc_of_fd-Talks os fd view file readable source steady h item.0.size item.1 t rest reading
            found.exact found.entry.size_fits (ap (λ (x : View). x.incoming) v ∙ coming)
            (kept ∙ clean) in
        let closed = readable.close_lem h u.world in
        let z : State os.World = record u { world = os.close h u.world } in
        (
          z,
          >>=-returns (resolve_on_disk os paths item.0) _
                (resolve-returns os view file paths d item found s same)
              ∙ >>=-returns (open_for_read os found.path) _ opening
              ∙ >>=-returns (crc_of_fd os h item.0.size) _ e
              ∙ ap (λ b. after (if b then fails z else returns tt z) (λ _. pure (with_crc item).0))
                  (ap has_error (kept' ∙ kept ∙ clean)),
          cc (closed, v', v),
          kept' ∙ kept,
        )

    fill_missing-Talks :
        (d : FilePath → Option (List ℕ)) (items : List Item) (s : State os.World) (rest : List ℕ)
        → All (IsFound os view file paths d) items
        → (view s.world).disk ≡ d
        → (view s.world).incoming ≡ rest
        → s.ec ≡ no_error
        → Talks os view
            (fill_missing os paths (entries items))
            s
            (entries (completed_items items))
            rest
            []
    unfolding fill_missing
    fill_missing-Talks d [] s rest found same coming clean = Talks-pure os view [] s rest coming
    fill_missing-Talks d (item ∷ items) s rest (found, more) same coming clean =
        Talks-bind os view (if item.0.crc32 == 0 then fill_crc os paths item.0 else pure item.0) _ s
          (completed item).0 (entries (completed_items (item ∷ items))) rest rest [] []
          (by_crc (item.0.crc32 == 0))
          λ t coming1 kept1 same1.
            Talks-bind os view (fill_missing os paths (entries items)) _ t
              (entries (completed_items items)) (entries (completed_items (item ∷ items))) rest rest
              [] [] (fill_missing-Talks d items t rest more (kept1 ∙ same) coming1 (same1 ∙ clean))
              λ u coming2 _ _.
                Talks-pure os view (entries (completed_items (item ∷ items))) u rest coming2
      where
        by_crc :
            (b : Bool)
            → Talks os view
                (if b then fill_crc os paths item.0 else pure item.0)
                s
                (if b then with_crc item else item).0
                rest
                []
        by_crc true = fill_crc-Talks d item s rest found same coming clean
        by_crc false = Talks-pure os view item.0 s rest coming

    -- A completed entry is found where it was found before.
    completed-IsFound :
        (d : FilePath → Option (List ℕ)) (item : Item)
        → All IsByte item.1
        → IsFound os view file paths d item
        → IsFound os view file paths d (completed item)
    completed-IsFound d item are_bytes found = by_crc (item.0.crc32 == 0)
      where
        by_crc : (b : Bool) → IsFound os view file paths d (if b then with_crc item else item)
        by_crc true = record {
          path = found.path;
          resolves =
              λ w same. resolve-crc os item.0 (compute item.1) paths w ∙ found.resolves w same;
          named = found.named;
          there = found.there;
          exact = found.exact;
          entry = record {
            path_fits = found.entry.path_fits;
            size_fits = found.entry.size_fits;
            crc_fits = compute-IsU32 item.1 are_bytes;
          };
        }
        by_crc false = found

    completed_items-IsFound :
        (d : FilePath → Option (List ℕ)) (items : List Item)
        → All (λ item. All IsByte item.1) items
        → All (IsFound os view file paths d) items
        → All (IsFound os view file paths d) (completed_items items)
    completed_items-IsFound d [] are_bytes found = tt
    completed_items-IsFound d (item ∷ items) (b, bs) (found, more) =
        (completed-IsFound d item b found, completed_items-IsFound d items bs more)

    completed_items-enough :
        (rounds : ℕ) (items : List Item)
        → All (λ item. length item.1 ≤ rounds) items
        → All (λ item. length item.1 ≤ rounds) (completed_items items)
    completed_items-enough rounds [] enough = tt
    completed_items-enough rounds (item ∷ items) (enough, more) =
        (by_crc (item.0.crc32 == 0), completed_items-enough rounds items more)
      where
        by_crc : (b : Bool) → length (if b then with_crc item else item).1 ≤ rounds
        by_crc true = enough
        by_crc false = enough

    module _ (reliable : IsReliable os fd view) where
      -- While no call fails, with an acknowledgement coming in and a manifest, not empty, whose files are
      -- found with the announced sizes: `SendFiles` returns true after it has sent the bytes of a session
      -- in which every entry that came without a checksum has the CRC-32C of its file.
      pub send_files-Talks :
          (rounds : ℕ) (options : SenderOptions) (item : Item) (items : List Item)
          (s : State os.World) (flags : ℕ) (rest : List ℕ)
          → All (IsFound os view file paths (view s.world).disk) (item ∷ items)
          → All (λ item. All IsByte item.1) (item ∷ items)
          → All (λ item. length item.1 ≤ rounds) (item ∷ items)
          → flags < 2 ^ 32
          → (view s.world).incoming ≡ ack_bytes flags ++ rest
          → s.ec ≡ no_error
          → Talks os view
              (send_files os (socket fd) paths (entries (item ∷ items)) rounds options)
              s
              tt
              rest
              (session_bytes (completed_items (item ∷ items)))
      unfolding send_files
      send_files-Talks rounds options item items s flags rest found are_bytes enough small coming
            clean =
          Talks-bind os view (fill_missing os paths (entries (item ∷ items)))
            (send_session os (socket fd) paths rounds options) s
            (entries (completed_items (item ∷ items))) tt (ack_bytes flags ++ rest) rest []
            (session_bytes (completed_items (item ∷ items)))
            (fill_missing-Talks (view s.world).disk (item ∷ items) s (ack_bytes flags ++ rest) found
              refl coming clean)
            λ t coming' kept _.
              send_session-Talks os fd view file conn reliable readable source steady paths rounds
                options (completed_items (item ∷ items)) t flags rest
                (subst (λ d. All (IsFound os view file paths d) (completed_items (item ∷ items)))
                  (sym kept)
                  (completed_items-IsFound (view s.world).disk (item ∷ items) are_bytes found))
                (completed_items-enough rounds (item ∷ items) enough) small coming'

      -- Where no entry has a checksum yet, `SendPaths` fills in what `SendFiles` does.
      fill_all-fill_missing :
          (items : List Item)
          → All (λ item. item.0.crc32 ≡ 0) items
          → fill_all os paths (entries items) ≡ fill_missing os paths (entries items)
      unfolding fill_all fill_missing
      fill_all-fill_missing [] zeros = refl
      fill_all-fill_missing (item ∷ items) (e, zeros) =
          rw (e, fill_all-fill_missing items zeros) refl

      -- The same of `SendPaths`, with the manifest that `CollectFiles` gives.
      pub send_paths-Talks :
          (rounds : ℕ) (options : SenderOptions) (item : Item) (items : List Item)
          (s : State os.World) (flags : ℕ) (rest : List ℕ)
          → collect_files os paths options s ≡ returns (entries (item ∷ items)) s
          → All (λ x. x.0.crc32 ≡ 0) (item ∷ items)
          → All (IsFound os view file paths (view s.world).disk) (item ∷ items)
          → All (λ x. All IsByte x.1) (item ∷ items)
          → All (λ x. length x.1 ≤ rounds) (item ∷ items)
          → flags < 2 ^ 32
          → (view s.world).incoming ≡ ack_bytes flags ++ rest
          → s.ec ≡ no_error
          → Talks os view
              (send_paths os (socket fd) paths rounds options)
              s
              tt
              rest
              (session_bytes (completed_items (item ∷ items)))
      unfolding send_paths send_files
      send_paths-Talks rounds options item items s flags rest collected zeros found are_bytes enough
            small coming clean =
          let (t, e, v, c) =
            send_files-Talks rounds options item items s flags rest found are_bytes enough small
              coming clean in
          (
            t,
            >>=-returns (collect_files os paths options) _ collected
                ∙ ap
                    (λ (m : Action os.World (List FileEntry)).
                      (m >>= send_session os (socket fd) paths rounds options) s)
                    (fill_all-fill_missing (item ∷ items) zeros)
                ∙ e,
            v,
            c,
          )
