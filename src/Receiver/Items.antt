-- ===== src/Receiver/Items.antt =====
-- The files of a session as the receiver takes them: which it accepts, where they go, and what the
-- summary of src/transfer/receiver.h says of them.
use xfer.Base.{ℕ, suc, ◌+◌, ◌%◌, ◌^◌, ◌<◌, ◌≡◌, ◌⊎◌, refl, ap, ◌∙◌, arith, Bool, false}
use xfer.Base.{List, [], ◌∷◌, ◌++◌, length, All, append-nil, append_assoc, Option}
use xfer.Crc.{compute}
use xfer.Os.{FilePath}
use xfer.Os.Laws.{store}
use xfer.FsPath.{is_empty, is_absolute, components, join}
use xfer.Wire.{FileEntry}
use xfer.Wire.Session.{IsHeader}
use xfer.Wire.Record.{IsEntry}
use xfer.Sender.{session_of, sum_sizes}
use xfer.Sender.Found.{Item, entries}
use xfer.Receiver.{ReceiverSummary, no_files}
use xfer.Receiver.Containment.{IsSafePart}

-- The receiver accepts the path of the entry, and the payload is what the record announces. A
-- checksum counts when checksums are verified and it is not 0.
pub record IsAccepted (verify : Bool) (item : Item) : Type 0 where
  pub named : is_empty item.0.rel_path ≡ false
  pub safe : All IsSafePart (components item.0.rel_path)
  pub relative : is_absolute item.0.rel_path ≡ false
  pub exact : length item.1 ≡ item.0.size
  pub entry : IsEntry item.0
  pub sum_matches : (verify ≡ false) ⊎ ((item.0.crc32 ≡ 0) ⊎ (item.0.crc32 ≡ compute item.1))

-- The summary after one more file.
abbrev pub add_file : FilePath → ReceiverSummary → FileEntry → ReceiverSummary
add_file out summary e = record {
  total_files = (summary.total_files + 1) % 2 ^ 64;
  total_bytes = (summary.total_bytes + e.size) % 2 ^ 64;
  written_paths = summary.written_paths ++ (join out e.rel_path ∷ []);
}

abbrev pub summary_from : FilePath → ReceiverSummary → List Item → ReceiverSummary
summary_from out summary [] = summary
summary_from out summary ((e, content) ∷ items) = summary_from out (add_file out summary e) items

-- Where the files of a session go.
abbrev pub target_paths : FilePath → List Item → List FilePath
target_paths out [] = []
target_paths out ((e, content) ∷ items) = join out e.rel_path ∷ target_paths out items

-- The disk with the files of a session, the later ones on top.
abbrev pub store_all :
    (FilePath → FilePath)
    → FilePath
    → (FilePath → Option (List ℕ))
    → List Item
    → FilePath
    → Option (List ℕ)
store_all file out disk [] = disk
store_all file out disk ((e, content) ∷ items) =
    store_all file out (store disk (file (join out e.rel_path)) content) items

-- What a summary says in the end.
summary_from_lem :
    (out : FilePath) (summary : ReceiverSummary) (items : List Item)
    → summary.total_files + length items < 2 ^ 64
    → summary_from out summary items ≡ record {
      total_files = summary.total_files + length items;
      total_bytes = sum_sizes summary.total_bytes (entries items);
      written_paths = summary.written_paths ++ target_paths out items;
    }
unfolding sum_sizes
summary_from_lem out summary [] fits =
    let count : summary.total_files + 0 ≡ summary.total_files = omega arith in
    cc (count, append-nil summary.written_paths)
summary_from_lem out summary ((e, content) ∷ items) fits =
    summary_from_lem out (add_file out summary e) items (omega arith)
    ∙ (let count : (summary.total_files + 1) % 2 ^ 64 + length items
            ≡ summary.total_files + suc (length items) =
          omega arith in
        cc (
          count,
          append_assoc summary.written_paths (join out e.rel_path ∷ []) (target_paths out items),
        ))

pub stored_summary :
    (out : FilePath) (items : List Item)
    → length items < 2 ^ 64
    → summary_from out no_files items ≡ record {
      total_files = length items;
      total_bytes = sum_sizes 0 (entries items);
      written_paths = target_paths out items;
    }
stored_summary out items few =
    summary_from_lem out no_files items (omega arith)
    ∙ (let count : 0 + length items ≡ length items = omega arith in cc (count))

sum_sizes-lt : (total : ℕ) (es : List FileEntry) → total < 2 ^ 64 → sum_sizes total es < 2 ^ 64
unfolding sum_sizes
sum_sizes-lt total [] h = h
sum_sizes-lt total (e ∷ es) h = sum_sizes-lt ((total + e.size) % 2 ^ 64) es (omega arith)

pub session_of-IsHeader : (es : List FileEntry) → length es < 2 ^ 64 → IsHeader (session_of es)
unfolding session_of
session_of-IsHeader es h = record {
  version_fits = omega arith;
  flags_fit = omega arith;
  files_fit = h;
  bytes_fit = sum_sizes-lt 0 es (omega arith);
}

pub length-entries : (items : List Item) → length (entries items) ≡ length items
length-entries [] = refl
length-entries (item ∷ items) = ap suc (length-entries items)

pub header_count : (items : List Item) → (session_of (entries items)).total_files ≡ length items
unfolding session_of
header_count items = length-entries items
