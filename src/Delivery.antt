-- ===== src/Delivery.antt =====
-- The two sides of a session together: `SendPaths` and `SendFiles` in src/transfer/sender.cpp and
-- `ReceiveStream` in src/transfer/receiver.cpp.

pub mod Paths
mod Examples
use xfer.Base.{ℕ, ◌^◌, ◌≤◌, ◌<◌, ◌≡◌, refl, ap, sym, subst, ◌∙◌, arith, Bool, false}
use xfer.Base.{List, [], ◌∷◌, ◌++◌, length, All, append-nil, Option, some, bytes_eq}
use xfer.Os.{Os, FilePath}
use xfer.Os.Action.{State, returns}
use xfer.Os.Laws.{View, IsConnection, IsReliable, IsSource, IsDisk, IsRoomy, store, store_self}
use xfer.Os.Files.{IsReadable, IsSteady}
use xfer.FsPath.{join}
use xfer.Net.Transfer.{socket}
use xfer.Wire.{ack_bytes}
use xfer.Sender.{sum_sizes, send_session}
use xfer.Sender.Manifest.{SenderOptions}
use xfer.Sender.Found.{Item, entries, IsFound}
use xfer.Sender.Session.{session_bytes, send_session-Talks}
use xfer.Receiver.{ReceiverOptions, receive_stream}
use xfer.Receiver.Items.{IsAccepted, store_all, target_paths}
use xfer.Receiver.Session.{IsReady, receive_stream-Stores}

module _ (file : FilePath → FilePath) (out : FilePath) where
  -- The file of an item below the output directory.
  abbrev pub target : Item → FilePath
  target item = file (join out item.0.rel_path)

  -- No item has this file.
  abbrev pub IsFresh : FilePath → List Item → Type 0
  IsFresh p items = All (λ item. bytes_eq p (target item) ≡ false) items

  -- The items have files of their own.
  abbrev pub AreDistinct : List Item → Type 0
  AreDistinct [] = Unit {0}
  AreDistinct (item ∷ items) = IsFresh (target item) items × AreDistinct items

  store_all_elsewhere :
      (d : FilePath → Option (List ℕ)) (items : List Item) (p : FilePath)
      → IsFresh p items
      → store_all file out d items p ≡ d p
  store_all_elsewhere d [] p fresh = refl
  store_all_elsewhere d (item ∷ items) p (apart, fresh) =
      store_all_elsewhere (store d (target item) item.1) items p fresh ∙ rw apart refl

  pub store_all-holds :
      (d : FilePath → Option (List ℕ)) (items : List Item)
      → AreDistinct items
      → All (λ item. store_all file out d items (target item) ≡ some item.1) items
  store_all-holds d [] distinct = tt
  store_all-holds d (item ∷ items) (fresh, distinct) = (
    store_all_elsewhere (store d (target item) item.1) items (target item) fresh
        ∙ store_self d (target item) item.1,
    store_all-holds (store d (target item) item.1) items distinct,
  )

module _ (here : Os) (fd : ℕ) (view : here.World → View) (file : FilePath → FilePath)
    (conn : IsConnection here fd view) (reliable : IsReliable here fd view)
    (readable : IsReadable here fd view file) (source : IsSource here (λ w. (view w).reads))
    (steady : IsSteady here fd view file) where
  module _ (there : Os) (fd' : ℕ) (view' : there.World → View) (file' : FilePath → FilePath)
      (conn' : IsConnection there fd' view') (reliable' : IsReliable there fd' view')
      (ondisk : IsDisk there view' file') (roomy : IsRoomy there view' file') where
    -- Both sides return true. Each has sent just what the other one takes in, nothing is left over, and
    -- the receiver's disk has the contents of every item.
    abbrev pub Delivers :
        List FilePath
        → ℕ
        → SenderOptions
        → ReceiverOptions
        → List Item
        → State here.World
        → State there.World
        → Type 0
    Delivers paths rounds options options' items s s' =
        (t : State here.World) × (t' : State there.World) × (send_session here (socket fd) paths
            rounds options (entries items) s
          ≡ returns tt t)
        × (receive_stream there (socket fd') options' s'
            ≡ returns
                (record {
                  total_files = length items;
                  total_bytes = sum_sizes 0 (entries items);
                  written_paths = target_paths options'.output_dir items;
                })
                t')
        × ((view t.world).sent ≡ (view' s'.world).incoming)
        × ((view' t'.world).sent ≡ (view s.world).incoming)
        × ((view t.world).incoming ≡ [])
        × ((view' t'.world).incoming ≡ [])
        × All (λ item. (view' t'.world).disk (target file' options'.output_dir item) ≡ some item.1)
            items

    -- Two machines whose calls do not fail, and a manifest whose files are found on the one with the
    -- announced sizes and whose paths the other accepts, for files of their own. When the sender gets
    -- the 8 bytes of an acknowledgement with flags 0, and the receiver the bytes of the session, then
    -- both sides return true, each has sent just what the other one took in, nothing is left over, and
    -- on the receiver's disk every file of the manifest has the contents it has on the sender's disk.
    pub session-Delivers :
        (paths : List FilePath) (rounds : ℕ) (options : SenderOptions) (options' : ReceiverOptions)
        (items : List Item) (s : State here.World) (s' : State there.World)
        → All (IsFound here view file paths (view s.world).disk) items
        → All (λ item. length item.1 ≤ rounds) items
        → IsReady there fd' view' file' conn' reliable' ondisk roomy options' (view' s'.world).disk
        → All (IsAccepted options'.verify_crc) items
        → AreDistinct file' options'.output_dir items
        → length items < 2 ^ 64
        → (view s.world).sent ≡ []
        → (view' s'.world).sent ≡ []
        → (view s.world).incoming ≡ ack_bytes 0
        → (view' s'.world).incoming ≡ session_bytes items
        → Delivers paths rounds options options' items s s'
    session-Delivers paths rounds options options' items s s' found enough ready ok distinct few
          quiet quiet' coming coming' =
        let (t, e, v, c) =
          send_session-Talks here fd view file conn reliable readable source steady paths rounds
            options items s 0 [] found enough (omega arith)
            (coming ∙ sym (append-nil (ack_bytes 0))) in
        let (t', e', i', o', d') =
          receive_stream-Stores there fd' view' file' conn' reliable' ondisk roomy options' items s'
            [] ready ok few (coming' ∙ sym (append-nil (session_bytes items))) in
        (
          t,
          t',
          e,
          e',
          ap (λ (x : View). x.sent) v ∙ ap (λ xs. xs ++ session_bytes items) quiet ∙ sym coming',
          o' ∙ ap (λ xs. xs ++ ack_bytes 0) quiet' ∙ sym coming,
          ap (λ (x : View). x.incoming) v,
          i',
          stored (view' t'.world).disk d',
        )
      where
        stored :
            (d : FilePath → Option (List ℕ))
            → d ≡ store_all file' options'.output_dir (view' s'.world).disk items
            → All (λ item. d (target file' options'.output_dir item) ≡ some item.1) items
        stored d e =
            subst (λ k. All (λ item. k (target file' options'.output_dir item) ≡ some item.1) items)
              (sym e)
              (store_all-holds file' options'.output_dir (view' s'.world).disk items distinct)
