-- ===== src/Sender/Source/Steady.antt =====
-- `SendFileBytes` in src/transfer/sender.cpp while no call fails.
use xfer.Base.{
  ℕ, ◌^◌, ◌≤◌, ◌<◌, ◌≡◌, inl, inr, refl, subst, arith, Bool, true, false, List, length, take_all,
}
use xfer.Os.{Os, FilePath}
use xfer.Os.Action.{State, Outcome, returns, fails, stuck}
use xfer.Os.Laws.{View, IsConnection, IsSource, IsReliable}
use xfer.Os.Files.{IsReadable, IsSteady}
use xfer.Net.Transfer.{socket}
use xfer.Net.SendAll.{Sent, SendRefused-IsReliable}
use xfer.Net.SendFromFd.{IsInterrupted}
use xfer.Net.Exchange.{Writes}
use xfer.Net.Branches.{
  IsSameEnd, PrefixEnds-IsSameEnd, SendfileRefused-IsSteady, IsInterrupted-IsSteady,
}
use xfer.Sender.Source.{send_file_bytes}
use xfer.Sender.Source.Sending.{FileRefused, FileEnds, send_file_bytes_lem}

module _ (os : Os) (fd : ℕ) (view : os.World → View) (file : FilePath → FilePath)
    (conn : IsConnection os fd view) (readable : IsReadable os fd view file)
    (source : IsSource os (λ w. (view w).reads)) (reliable : IsReliable os fd view)
    (steady : IsSteady os fd view file) where
  FileRefused-IsSteady :
      (h : ℕ) (t : State os.World) → ¬ FileRefused os fd view file conn readable source h t
  FileRefused-IsSteady h t (inl refused) =
      SendfileRefused-IsSteady os fd view file conn readable source reliable steady h t refused
  FileRefused-IsSteady h t (inr (inl (want, off, w, e, eq, _))) =
      steady.pread_succeeds h want off w e t.world eq
  FileRefused-IsSteady h t (inr (inr refused)) =
      SendRefused-IsReliable os fd view conn reliable t refused

  -- While no call fails, a file of the announced size is sent.
  pub send_file_bytes-Writes :
      (h rounds size : ℕ) (zero_copy : Bool) (content : List ℕ) (s : State os.World)
      → size ≤ rounds
      → size < 2 ^ 64
      → (view s.world).reads h ≡ content
      → length content ≡ size
      → Writes os view (send_file_bytes os (socket fd) h rounds size zero_copy) s content
  send_file_bytes-Writes h rounds size zero_copy content s enough fits there exact =
      by_outcome (send_file_bytes os (socket fd) h rounds size zero_copy s) (
        subst
          (λ c.
            FileEnds os fd view file conn readable source h
              (IsInterrupted os fd view file conn readable h s.world size 0) c size s
              (send_file_bytes os (socket fd) h rounds size zero_copy s))
          there
          (send_file_bytes_lem os fd view file conn readable source h rounds size zero_copy s enough
            fits))
    where
      by_outcome :
          (r : Outcome os.World (Unit {0}))
          → FileEnds os fd view file conn readable source h
              (IsInterrupted os fd view file conn readable h s.world size 0)
              content
              size
              s
              r
          → (t : State os.World) × (r ≡ returns tt t)
            × Sent os fd view conn content s t
            × (t.ec ≡ s.ec)
      by_outcome (returns _ t) (_, long, sent, same) = (
        t,
        refl,
        subst (λ c. Sent os fd view conn c s t) (take_all size content (omega arith)) sent,
        same,
      )
      by_outcome (fails t) (k, few, sent, inl short) = absurd (omega arith)
      by_outcome (fails t) (k, few, sent, inr why) = absurd (FileRefused-IsSteady h t why)
      by_outcome stuck out = absurd (
          IsInterrupted-IsSteady os fd view file conn readable source reliable steady h size 0
            s.world out)

  -- While no call fails, on a connection and files that keep their laws, with fuel for `size` calls of
  -- `sendfile64`: `SendFileBytes` comes back alike with and without `zero_copy`. Both times it returns
  -- true, with the same bytes sent, or both times false, with all of a file sent that is too short.
  pub send_file_bytes-IsSameEnd :
      (h rounds size : ℕ) (s : State os.World)
      → size ≤ rounds
      → size < 2 ^ 64
      → IsSameEnd os fd view conn
          ((view s.world).reads h)
          size
          s
          (send_file_bytes os (socket fd) h rounds size true s)
          (send_file_bytes os (socket fd) h rounds size false s)
  send_file_bytes-IsSameEnd h rounds size s enough fits =
      let never_out =
        IsInterrupted-IsSteady os fd view file conn readable source reliable steady h size 0
          s.world in
      PrefixEnds-IsSameEnd os fd view conn (FileRefused os fd view file conn readable source h)
        (FileRefused os fd view file conn readable source h)
        (IsInterrupted os fd view file conn readable h s.world size 0)
        (IsInterrupted os fd view file conn readable h s.world size 0) (λ _. Unit {0})
        (FileRefused-IsSteady h) (FileRefused-IsSteady h) never_out never_out (λ a b _ _. refl)
        ((view s.world).reads h) size s _ _
        (send_file_bytes_lem os fd view file conn readable source h rounds size true s enough fits)
        (send_file_bytes_lem os fd view file conn readable source h rounds size false s enough fits)
