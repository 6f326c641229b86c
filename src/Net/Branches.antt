-- ===== src/Net/Branches.antt =====
-- The ways to send a part of a file have the same result: `sendfile64`, and `pread` with `send`. They
-- are branches of `SendFromFd` in src/net/socket.cpp and of `SendFileBytes` in src/transfer/sender.cpp.
use xfer.Base.{
  length, take, take_all, subst, ℕ, ◌+◌, ◌^◌, ◌≤◌, ◌<◌, ◌≡◌, inl, inr, sym, ◌∙◌, arith, List, drop,
}
use xfer.Os.{Os, FilePath}
use xfer.Os.Action.{State, Outcome, returns, fails, stuck}
use xfer.Os.Laws.{View, IsConnection, IsReliable, IsSource}
use xfer.Os.Files.{IsReadable, IsSteady}
use xfer.Net.{eintr, send_from_fd}
use xfer.Net.Transfer.{socket}
use xfer.Net.Prefix.{PrefixEnds}
use xfer.Net.SendAll.{Sent, SendRefused-IsReliable}
use xfer.Net.SendFromFd.{
  SendfileRefused, IsInterrupted, interrupted_now, interrupted_later, send_from_fd_lem,
}
use xfer.Net.Portable.{
  send_from_fd_portable, PreadInterrupted, PortableRefused, send_from_fd_portable_lem,
}

module _ (os : Os) (fd : ℕ) (view : os.World → View) (conn : IsConnection os fd view)
    {A : Type 0} where
  -- Two ways out of a call that is to send `len` bytes of `rest`. Either both return the same, and both
  -- have sent these bytes, in order; or `rest` is too short, and both return false and have sent all of
  -- it.
  abbrev pub IsSameEnd :
      List ℕ → ℕ → State os.World → Outcome os.World A → Outcome os.World A → Type 0
  IsSameEnd rest len s (returns a t) (returns b u) =
      (a ≡ b)
      × (len ≤ length rest)
      × Sent os fd view conn (take len rest) s t
      × Sent os fd view conn (take len rest) s u
      × (t.ec ≡ u.ec)
  IsSameEnd rest len s (fails t) (fails u) =
      (length rest < len) × Sent os fd view conn rest s t × Sent os fd view conn rest s u
  IsSameEnd rest len s (returns a t) (fails u) = ⊥
  IsSameEnd rest len s (fails t) (returns b u) = ⊥
  IsSameEnd rest len s (returns a t) stuck = ⊥
  IsSameEnd rest len s (fails t) stuck = ⊥
  IsSameEnd rest len s stuck r = ⊥

module _ (os : Os) (fd : ℕ) (view : os.World → View) (conn : IsConnection os fd view) {A : Type 0}
    (Why Why' : State os.World → Type 0) (Out Out' : Type 0) (Good : A → Type 0)
    (never_why : (t : State os.World) → ¬ Why t) (never_why' : (t : State os.World) → ¬ Why' t)
    (never_out : ¬ Out) (never_out' : ¬ Out') (one : (a b : A) → Good a → Good b → a ≡ b) where
  -- Two calls that send the same part, neither of which is refused.
  pub PrefixEnds-IsSameEnd :
      (rest : List ℕ) (len : ℕ) (s : State os.World) (r r' : Outcome os.World A)
      → PrefixEnds os fd view conn Why Out Good rest len s r
      → PrefixEnds os fd view conn Why' Out' Good rest len s r'
      → IsSameEnd os fd view conn rest len s r r'
  PrefixEnds-IsSameEnd rest len s (returns a t) (returns b u) (g, long, d, k) (g', _, d', k') =
      (one a b g g', long, d, d', k ∙ sym k')
  PrefixEnds-IsSameEnd rest len s (fails t) (fails u) (k, _, d, inl (all, short))
        (k', _, d', inl (all', _)) =
      (omega arith, whole k t all d, whole k' u all' d')
    where
      whole :
          (k : ℕ) (t : State os.World)
          → k ≡ length rest
          → Sent os fd view conn (take k rest) s t
          → Sent os fd view conn rest s t
      whole k t all d = subst (λ xs. Sent os fd view conn xs s t) (take_all k rest (omega arith)) d
  PrefixEnds-IsSameEnd rest len s (fails t) (fails u) (_, _, _, inr why) h =
      absurd (never_why t why)
  PrefixEnds-IsSameEnd rest len s (fails t) (fails u) (_, _, _, inl short) (_, _, _, inr why) =
      absurd (never_why' u why)
  PrefixEnds-IsSameEnd rest len s (returns a t) (fails u) (_, enough, _, _)
        (k, _, _, inl (all, short)) =
      absurd (omega arith)
  PrefixEnds-IsSameEnd rest len s (returns a t) (fails u) h (_, _, _, inr why) =
      absurd (never_why' u why)
  PrefixEnds-IsSameEnd rest len s (fails t) (returns b u) (k, _, _, inl (all, short))
        (_, enough, _, _) =
      absurd (omega arith)
  PrefixEnds-IsSameEnd rest len s (fails t) (returns b u) (_, _, _, inr why) h =
      absurd (never_why t why)
  PrefixEnds-IsSameEnd rest len s stuck r out h = absurd (never_out out)
  PrefixEnds-IsSameEnd rest len s (returns a t) stuck h out = absurd (never_out' out)
  PrefixEnds-IsSameEnd rest len s (fails t) stuck h out = absurd (never_out' out)

module _ (os : Os) (fd : ℕ) (view : os.World → View) (file : FilePath → FilePath)
    (conn : IsConnection os fd view) (readable : IsReadable os fd view file)
    (source : IsSource os (λ w. (view w).reads)) (reliable : IsReliable os fd view)
    (steady : IsSteady os fd view file) where
  pub SendfileRefused-IsSteady :
      (h : ℕ) (t : State os.World) → ¬ SendfileRefused os fd view file conn readable h t
  SendfileRefused-IsSteady h t (inl (off, want, w, e, eq, _, _)) =
      steady.sendfile_succeeds h off want w e t.world eq
  SendfileRefused-IsSteady h t (inr (off, want, w, eq, positive, more, _)) =
      more (steady.sendfile_end h off want w t.world eq positive)

  pub IsInterrupted-IsSteady :
      (h len off : ℕ) (w : os.World) → ¬ IsInterrupted os fd view file conn readable h w len off
  IsInterrupted-IsSteady h _ _ _ (interrupted_now n off w w' eq) =
      steady.sendfile_succeeds h off _ w eintr w' eq
  IsInterrupted-IsSteady h _ _ _ (interrupted_later n off m w w' eq i) =
      IsInterrupted-IsSteady h _ _ w' i

  PortableRefused-IsSteady :
      (t : State os.World) → ¬ PortableRefused os fd view file conn readable source t
  PortableRefused-IsSteady t (inl (h, want, off, w, e, w', eq)) =
      steady.pread_succeeds h want off w e w' eq
  PortableRefused-IsSteady t (inr refused) =
      SendRefused-IsReliable os fd view conn reliable t refused

  PreadInterrupted-IsSteady : ¬ PreadInterrupted os fd view file conn readable source
  PreadInterrupted-IsSteady (h, want, off, w, w', eq) =
      steady.pread_succeeds h want off w eintr w' eq

  -- While no call fails, on a connection and files that keep their laws, with fuel for `len` calls: the
  -- branch of `SendFromFd` for Linux and the portable one come back alike. Both return true, with the
  -- same offset and the same bytes sent, or both return false when the file is too short, with all of
  -- it sent.
  pub send_from_fd-IsSameEnd :
      (h rounds offset len : ℕ) (s : State os.World)
      → len ≤ rounds
      → offset + len < 2 ^ 64
      → IsSameEnd os fd view conn
          (drop offset ((view s.world).reads h))
          len
          s
          (send_from_fd os (socket fd) h rounds offset len s)
          (send_from_fd_portable os (socket fd) h rounds offset len s)
  send_from_fd-IsSameEnd h rounds offset len s enough fits =
      PrefixEnds-IsSameEnd os fd view conn (SendfileRefused os fd view file conn readable h)
        (PortableRefused os fd view file conn readable source)
        (IsInterrupted os fd view file conn readable h s.world len offset)
        (PreadInterrupted os fd view file conn readable source) (λ off. off ≡ offset + len)
        (SendfileRefused-IsSteady h) PortableRefused-IsSteady
        (IsInterrupted-IsSteady h len offset s.world) PreadInterrupted-IsSteady
        (λ a b e e'. e ∙ sym e') (drop offset ((view s.world).reads h)) len s _ _
        (send_from_fd_lem os fd view file conn readable h rounds offset len s enough fits)
        (send_from_fd_portable_lem os fd view file conn readable source h rounds offset len s enough
          fits)
