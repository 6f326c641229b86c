-- ===== src/Delivery/Paths.antt =====
-- `SendPaths` and `ReceiveStream` together, with the checksums that the sender fills in and the
-- receiver verifies.
use xfer.Base.{ℕ, suc, ◌^◌, ◌≤◌, ◌<◌, ◌≡◌, inr, refl, ap, sym, subst, ◌∙◌, arith, Bool, true, false}
use xfer.Base.{
  List, [], ◌∷◌, ◌++◌, length, All, append-nil, Option, some, bytes_eq, ◌==◌, if◌then◌else◌,
}
use xfer.Crc.Serial.{IsByte}
use xfer.Crc.Burst.{compute-IsU32}
use xfer.Os.{Os, FilePath}
use xfer.Os.Action.{State, returns, no_error}
use xfer.Os.Laws.{View, IsConnection, IsReliable, IsSource, IsDisk, IsRoomy}
use xfer.Os.Files.{IsReadable, IsSteady}
use xfer.Net.Transfer.{socket}
use xfer.Wire.{ack_bytes}
use xfer.Sender.{sum_sizes, send_paths}
use xfer.Sender.Manifest.{SenderOptions, collect_files}
use xfer.Sender.Found.{Item, entries, IsFound}
use xfer.Sender.Session.{session_bytes}
use xfer.Sender.Filling.{with_crc, completed, completed_items, send_paths-Talks}
use xfer.Receiver.{ReceiverOptions, receive_stream}
use xfer.Receiver.Items.{IsAccepted, target_paths}
use xfer.Receiver.Session.{IsReady, receive_stream-Stores}
use xfer.Delivery.{target, IsFresh, AreDistinct, store_all-holds}

-- A completed entry has the same path and the same contents.
completed-same : (P : Item → Type 0) (item : Item) → P (with_crc item) → P item → P (completed item)
completed-same P item h k = by_crc (item.0.crc32 == 0)
  where
    by_crc : (b : Bool) → P (if b then with_crc item else item)
    by_crc true = h
    by_crc false = k

completed_items-IsAccepted :
    (verify : Bool) (items : List Item)
    → All (λ item. All IsByte item.1) items
    → All (IsAccepted verify) items
    → All (IsAccepted verify) (completed_items items)
completed_items-IsAccepted verify [] are_bytes ok = tt
completed_items-IsAccepted verify (item ∷ items) (b, bs) (h, ok) = (
  completed-same (IsAccepted verify) item
      (record {
        named = h.named;
        safe = h.safe;
        relative = h.relative;
        exact = h.exact;
        entry = record {
          path_fits = h.entry.path_fits;
          size_fits = h.entry.size_fits;
          crc_fits = compute-IsU32 item.1 b;
        };
        sum_matches = inr (inr refl);
      })
      h,
  completed_items-IsAccepted verify items bs ok,
)

length-completed_items : (items : List Item) → length (completed_items items) ≡ length items
length-completed_items [] = refl
length-completed_items (item ∷ items) = ap suc (length-completed_items items)

module _ (file : FilePath → FilePath) (out : FilePath) where
  completed_items-IsFresh :
      (p : FilePath) (items : List Item)
      → IsFresh file out p items
      → IsFresh file out p (completed_items items)
  completed_items-IsFresh p [] fresh = tt
  completed_items-IsFresh p (item ∷ items) (apart, fresh) = (
    completed-same (λ x. bytes_eq p (target file out x) ≡ false) item apart apart,
    completed_items-IsFresh p items fresh,
  )

  completed_items-AreDistinct :
      (items : List Item)
      → AreDistinct file out items
      → AreDistinct file out (completed_items items)
  completed_items-AreDistinct [] distinct = tt
  completed_items-AreDistinct (item ∷ items) (fresh, distinct) = (
    (let later = completed_items-IsFresh (target file out item) items fresh in
        completed-same (λ x. IsFresh file out (target file out x) (completed_items items)) item
          later later),
    completed_items-AreDistinct items distinct,
  )

  -- What a disk has of the completed items, it has of the items.
  completed_items-stored :
      (d : FilePath → Option (List ℕ)) (items : List Item)
      → All (λ item. d (target file out item) ≡ some item.1) (completed_items items)
      → All (λ item. d (target file out item) ≡ some item.1) items
  completed_items-stored d [] stored = tt
  completed_items-stored d (item ∷ items) (here, stored) =
      (by_crc (item.0.crc32 == 0) here, completed_items-stored d items stored)
    where
      by_crc :
          (b : Bool)
          → d (target file out (if b then with_crc item else item))
            ≡ some (if b then with_crc item else item).1
          → d (target file out item) ≡ some item.1
      by_crc true h = h
      by_crc false h = h

module _ (here : Os) (fd : ℕ) (view : here.World → View) (file : FilePath → FilePath)
    (conn : IsConnection here fd view) (reliable : IsReliable here fd view)
    (readable : IsReadable here fd view file) (source : IsSource here (λ w. (view w).reads))
    (steady : IsSteady here fd view file) where
  module _ (there : Os) (fd' : ℕ) (view' : there.World → View) (file' : FilePath → FilePath)
      (conn' : IsConnection there fd' view') (reliable' : IsReliable there fd' view')
      (ondisk : IsDisk there view' file') (roomy : IsRoomy there view' file') where
    -- Both sides return true. Each has sent just what the other one takes in, and the receiver's disk has
    -- the contents of every item.
    abbrev pub Transfers :
        List FilePath
        → ℕ
        → SenderOptions
        → ReceiverOptions
        → List Item
        → State here.World
        → State there.World
        → Type 0
    Transfers paths rounds options options' items s s' =
        (t : State here.World) × (t' : State there.World) × (send_paths here (socket fd) paths
            rounds options s
          ≡ returns tt t)
        × (receive_stream there (socket fd') options' s'
            ≡ returns
                (record {
                  total_files = length (completed_items items);
                  total_bytes = sum_sizes 0 (entries (completed_items items));
                  written_paths = target_paths options'.output_dir (completed_items items);
                })
                t')
        × ((view t.world).sent ≡ (view' s'.world).incoming)
        × ((view' t'.world).sent ≡ (view s.world).incoming)
        × All (λ item. (view' t'.world).disk (target file' options'.output_dir item) ≡ some item.1)
            items

    -- Two machines whose calls do not fail, and a manifest that `CollectFiles` gives, not empty, whose files
    -- are found on the one with the announced sizes and whose paths the other accepts, for files of their
    -- own. When the sender gets an acknowledgement with flags 0, and the receiver the bytes of the session
    -- with the checksums filled in, then `SendPaths` and `ReceiveStream` return true, each has sent just
    -- what the other one takes in, and the receiver's disk has the contents of every file, whether
    -- checksums are verified or not.
    pub send_paths-Transfers :
        (paths : List FilePath) (rounds : ℕ) (options : SenderOptions) (options' : ReceiverOptions)
        (item : Item) (items : List Item) (s : State here.World) (s' : State there.World)
        → collect_files here paths options s ≡ returns (entries (item ∷ items)) s
        → All (λ x. x.0.crc32 ≡ 0) (item ∷ items)
        → All (IsFound here view file paths (view s.world).disk) (item ∷ items)
        → All (λ x. All IsByte x.1) (item ∷ items)
        → All (λ x. length x.1 ≤ rounds) (item ∷ items)
        → IsReady there fd' view' file' conn' reliable' ondisk roomy options' (view' s'.world).disk
        → All (IsAccepted options'.verify_crc) (item ∷ items)
        → AreDistinct file' options'.output_dir (item ∷ items)
        → length (item ∷ items) < 2 ^ 64
        → s.ec ≡ no_error
        → (view s.world).sent ≡ []
        → (view' s'.world).sent ≡ []
        → (view s.world).incoming ≡ ack_bytes 0
        → (view' s'.world).incoming ≡ session_bytes (completed_items (item ∷ items))
        → Transfers paths rounds options options' (item ∷ items) s s'
    send_paths-Transfers paths rounds options options' item items s s' collected zeros found
          are_bytes enough ready ok distinct few clean quiet quiet' coming coming' =
        let all = completed_items (item ∷ items) in
        let (t, e, v, c) =
          send_paths-Talks here fd view file readable source steady conn paths reliable rounds
            options item items s 0 [] collected zeros found are_bytes enough (omega arith)
            (coming ∙ sym (append-nil (ack_bytes 0))) clean in
        let (t', e', i', o', d') =
          receive_stream-Stores there fd' view' file' conn' reliable' ondisk roomy options' all s'
            [] ready (completed_items-IsAccepted options'.verify_crc (item ∷ items) are_bytes ok)
            (omega (arith, length-completed_items (item ∷ items)))
            (coming' ∙ sym (append-nil (session_bytes all))) in
        (
          t,
          t',
          e,
          e',
          ap (λ (x : View). x.sent) v ∙ ap (λ xs. xs ++ session_bytes all) quiet ∙ sym coming',
          o' ∙ ap (λ xs. xs ++ ack_bytes 0) quiet' ∙ sym coming,
          completed_items-stored file' options'.output_dir (view' t'.world).disk (item ∷ items) (
              subst (λ k. All (λ x. k (target file' options'.output_dir x) ≡ some x.1) all) (sym d')
                (store_all-holds file' options'.output_dir (view' s'.world).disk all
                  (completed_items-AreDistinct file' options'.output_dir (item ∷ items) distinct))),
        )
