-- ===== src/Sender/Session.antt =====
-- What a session sends, when no call fails.
use xfer.Base.{ℕ, ◌^◌, ◌≤◌, ◌<◌, ◌≡◌, ap, ◌∙◌, arith, Bool}
use xfer.Base.{List, [], ◌∷◌, ◌++◌, length, All, Option, some}
use xfer.Os.{Os, FilePath}
use xfer.Os.Action.{Action, State, attempt, attempted, after, >>=-returns, ◌>>=◌}
use xfer.Os.Laws.{View, IsConnection, IsReliable, IsSource}
use xfer.Os.Files.{IsReadable, IsSteady}
use xfer.Net.Transfer.{socket}
use xfer.Net.Dialogue.{Talks, Talks-bind, Talks-pure, Writes-Talks, Reads-Talks}
use xfer.Wire.{
  SessionHeader, session_header_bytes, ack_bytes, done_magic, write_session_header, read_ack,
  write_file_header, write_done,
}
use xfer.Wire.Words.{encode_u32}
use xfer.Wire.Session.{write_session_header-Writes, read_ack-Reads}
use xfer.Wire.Record.{record_bytes, write_file_header-Writes, write_done-Writes}
use xfer.Sender.Manifest.{SenderOptions}
use xfer.Sender.Found.{Item, entries, IsFound, open_there, resolve-returns}
use xfer.Sender.Source.{resolve_on_disk, open_for_read, send_file_bytes}
use xfer.Sender.Source.Steady.{send_file_bytes-Writes}
use xfer.Sender.{close_fd, check_ok, send_entry, send_entries, session_of, send_session}

-- The records with their payloads.
abbrev pub items_bytes : List Item → List ℕ
items_bytes [] = []
items_bytes ((e, content) ∷ items) = (record_bytes e ++ content) ++ items_bytes items

-- Everything that goes to the receiver.
abbrev pub session_bytes : List Item → List ℕ
session_bytes items =
    session_header_bytes (session_of (entries items))
    ++ (items_bytes items ++ encode_u32 done_magic)

module _ (os : Os) (fd : ℕ) (view : os.World → View) (file : FilePath → FilePath)
    (conn : IsConnection os fd view) (reliable : IsReliable os fd view)
    (readable : IsReadable os fd view file) (source : IsSource os (λ w. (view w).reads))
    (steady : IsSteady os fd view file) (paths : List FilePath) where
  module _ (rounds : ℕ) (zero_copy : Bool) where
    -- The file is opened, sent and closed.
    send_opened-Talks :
        (path : FilePath) (content : List ℕ) (size : ℕ) (s : State os.World) (rest : List ℕ)
        → (view s.world).disk (file path) ≡ some content
        → length content ≡ size
        → size ≤ rounds
        → size < 2 ^ 64
        → (view s.world).incoming ≡ rest
        → Talks os view
            (open_for_read os path >>= λ h.
              attempt (send_file_bytes os (socket fd) h rounds size zero_copy) >>= λ ok.
              close_fd os h >>= λ _. check_ok os ok)
            s
            tt
            rest
            content
    unfolding close_fd check_ok
    send_opened-Talks path content size s rest there exact enough fits coming =
        let (h, t, opened, v, reading, same) =
          open_there os fd view file readable steady path content s there in
        let (u, e, v', k) =
          send_file_bytes-Writes os fd view file conn readable source reliable steady h rounds size
            zero_copy content t enough fits reading exact in
        let closed = readable.close_lem h u.world in
        (
          record u { world = os.close h u.world },
          >>=-returns (open_for_read os path) tail {s = s} {t = t} opened
              ∙ ap (λ r. after (attempted r) (after_sent h)) e,
          cc (closed, v', v, coming),
          k ∙ same,
        )
      where
        after_sent : ℕ → Option (Unit {0}) → Action os.World (Unit {0})
        after_sent h ok = close_fd os h >>= λ _. check_ok os ok

        tail : ℕ → Action os.World (Unit {0})
        tail h = attempt (send_file_bytes os (socket fd) h rounds size zero_copy) >>= after_sent h

    send_entry-Talks :
        (d : FilePath → Option (List ℕ)) (item : Item) (s : State os.World) (rest : List ℕ)
        → IsFound os view file paths d item
        → (view s.world).disk ≡ d
        → (view s.world).incoming ≡ rest
        → length item.1 ≤ rounds
        → Talks os view
            (send_entry os (socket fd) paths rounds zero_copy item.0)
            s
            tt
            rest
            (record_bytes item.0 ++ item.1)
    unfolding send_entry
    send_entry-Talks d item s rest found same coming enough =
        Talks-bind os view (write_file_header os (socket fd) item.0) _ s tt tt rest rest
          (record_bytes item.0) item.1
          (Writes-Talks os view (write_file_header os (socket fd) item.0) s (record_bytes item.0)
            rest coming
            (write_file_header-Writes os fd view conn reliable item.0 s found.entry.path_fits))
          λ t coming' kept _.
            let at = resolve-returns os view file paths d item found t (kept ∙ same) in
            let (u, e, v, c) =
              send_opened-Talks found.path item.1 item.0.size t rest
                (ap (λ (k : FilePath → Option (List ℕ)). k (file found.path)) (kept ∙ same)
                  ∙ found.there)
                found.exact (omega (arith, found.exact)) found.entry.size_fits coming' in
            (u, >>=-returns (resolve_on_disk os paths item.0) _ at ∙ e, v, c)

    send_entries-Talks :
        (d : FilePath → Option (List ℕ)) (items : List Item) (s : State os.World) (rest : List ℕ)
        → All (IsFound os view file paths d) items
        → All (λ item. length item.1 ≤ rounds) items
        → (view s.world).disk ≡ d
        → (view s.world).incoming ≡ rest
        → Talks os view
            (send_entries os (socket fd) paths rounds zero_copy (entries items))
            s
            tt
            rest
            (items_bytes items)
    unfolding send_entries
    send_entries-Talks d [] s rest found enough same coming = Talks-pure os view tt s rest coming
    send_entries-Talks d (item ∷ items) s rest (found, more) (enough, enough') same coming =
        Talks-bind os view (send_entry os (socket fd) paths rounds zero_copy item.0) _ s tt tt rest
          rest (record_bytes item.0 ++ item.1) (items_bytes items)
          (send_entry-Talks d item s rest found same coming enough)
          λ t coming' kept _. send_entries-Talks d items t rest more enough' (kept ∙ same) coming'

  -- While no call fails, and the receiver acknowledges: a session with entries whose files are found
  -- returns true, and it has sent the header, the records with the payloads in the order of the
  -- manifest, and the end marker.
  pub send_session-Talks :
      (rounds : ℕ) (options : SenderOptions) (items : List Item) (s : State os.World) (flags : ℕ)
      (rest : List ℕ)
      → All (IsFound os view file paths (view s.world).disk) items
      → All (λ item. length item.1 ≤ rounds) items
      → flags < 2 ^ 32
      → (view s.world).incoming ≡ ack_bytes flags ++ rest
      → Talks os view
          (send_session os (socket fd) paths rounds options (entries items))
          s
          tt
          rest
          (session_bytes items)
  unfolding send_session
  send_session-Talks rounds options items s flags rest found enough small coming =
      Talks-bind os view (write_session_header os (socket fd) header) _ s tt tt
        (ack_bytes flags ++ rest) rest (session_header_bytes header)
        (items_bytes items ++ encode_u32 done_magic)
        (Writes-Talks os view (write_session_header os (socket fd) header) s
          (session_header_bytes header) _ coming
          (write_session_header-Writes os fd view conn reliable header s))
        λ t coming1 kept1 _.
          Talks-bind os view (read_ack os (socket fd)) _ t flags tt rest rest []
            (items_bytes items ++ encode_u32 done_magic)
            (Reads-Talks os view (read_ack os (socket fd)) t flags rest
              (read_ack-Reads os fd view conn reliable flags t rest small coming1))
            λ u coming2 kept2 _.
              Talks-bind os view
                (send_entries os (socket fd) paths rounds options.zero_copy (entries items)) _ u tt
                tt rest rest (items_bytes items) (encode_u32 done_magic)
                (send_entries-Talks rounds options.zero_copy (view s.world).disk items u rest found
                  enough (kept2 ∙ kept1) coming2)
                λ v coming3 _ _.
                  Writes-Talks os view (write_done os (socket fd)) v (encode_u32 done_magic) rest
                    coming3 (write_done-Writes os fd view conn reliable v)
    where
      header : SessionHeader
      header = session_of (entries items)
