-- ===== src/Net/Portable.antt =====
-- `SendFromFd` in src/net/socket.cpp as it is built for a system without a `sendfile` of its own: a
-- loop of `pread` and `SendAll`.
use xfer.Base.{
  ℕ, zero, suc, ◌+◌, ◌%◌, ◌^◌, ◌≤◌, ◌<◌, ◌≡◌, ◌⊎◌, inl, inr, refl, ap, subst, sym, ◌∙◌, arith,
}
use xfer.Base.{Bool, true, false, Bool-cases, ltb, ◌==◌, ==_iff, if◌then◌else◌}
use xfer.Base.{List, [], ◌∷◌, length, drop}
use xfer.Os.{Os, FilePath, Reply, done, failed}
use xfer.Os.Action.{
  Action, State, Outcome, pure, call, throw, ◌>>=◌, ◌>>◌, stuck, io_error, system,
  bad_file_descriptor,
}
use xfer.Os.Laws.{View, IsConnection, IsSource}
use xfer.Os.Files.{IsReadable}
use xfer.Net.{Socket, is_valid, send_all, size_sub, eintr}
use xfer.Net.Transfer.{socket}
use xfer.Net.SendAll.{SendRefused}
use xfer.Net.Chunk.{chunk_lem}
use xfer.Net.Prefix.{PrefixEnds, PrefixEnds-cast, Sent-nothing}

-- `static constexpr std::size_t kBufSize = 4 * 1024 * 1024;`
abbrev fallback_size : ℕ
fallback_size = 4194304

abbrev next_chunk : ℕ → ℕ
next_chunk remaining = if ltb remaining fallback_size then remaining else fallback_size

module _ (os : Os) where
  portable_loop : Socket → ℕ → ℕ → ℕ → ℕ → Action os.World ℕ
  portable_loop sock source_fd fuel zero offset = pure offset
  portable_loop sock source_fd zero (suc remaining) offset = λ s. stuck
  portable_loop sock source_fd (suc fuel) (suc remaining) offset = do
    reply ← call (os.pread source_fd (next_chunk (suc remaining)) offset)
    elim reply [
      | failed e ↦ elim (e == eintr) [
        | true ↦ portable_loop sock source_fd fuel (suc remaining) offset
        | false ↦ throw (system e)
      ]
      | done [] ↦ throw io_error
      | done (b ∷ bytes) ↦
          send_all os sock (b ∷ bytes)
          >> portable_loop sock source_fd fuel (size_sub (suc remaining) (length (b ∷ bytes)))
              ((offset + length (b ∷ bytes)) % 2 ^ 64)
    ]

  -- The new value of `offset_in_out`, as in `send_from_fd`.
  unfoldable pub send_from_fd_portable : Socket → ℕ → ℕ → ℕ → ℕ → Action os.World ℕ
  unfolding portable_loop
  send_from_fd_portable sock source_fd fuel offset len =
      if is_valid sock
      then portable_loop sock source_fd fuel len offset
      else throw bad_file_descriptor

next_chunk_bounds :
    (n : ℕ)
    → (next_chunk (suc n) ≤ suc n) × (0 < next_chunk (suc n)) × (next_chunk (suc n) < 2 ^ 31)
next_chunk_bounds n = ground arith

module _ (os : Os) (fd : ℕ) (view : os.World → View) (file : FilePath → FilePath)
    (conn : IsConnection os fd view) (readable : IsReadable os fd view file)
    (source : IsSource os (λ w. (view w).reads)) where
  -- A `pread` was interrupted by a signal.
  abbrev pub PreadInterrupted : Type 0
  PreadInterrupted =
      (h want offset : ℕ) × (w w' : os.World) × (os.pread h want offset w ≡ (failed eintr, w'))

  -- A `pread` failed, or `send` failed or took nothing.
  abbrev pub PortableRefused : State os.World → Type 0
  PortableRefused t =
      ((h want offset : ℕ) × (w : os.World) × (e : ℕ) × (w' : os.World) × (os.pread h want offset w
          ≡ (failed e, w')))
      ⊎ SendRefused os fd view conn t

  abbrev pub PortableEnds : List ℕ → ℕ → ℕ → State os.World → Outcome os.World ℕ → Type 0
  PortableEnds rest off len =
      PrefixEnds os fd view conn PortableRefused PreadInterrupted (λ off'. off' ≡ off + len) rest
        len

  module _ (h : ℕ) where
    abbrev rest_of : ℕ → State os.World → List ℕ
    rest_of off s = drop off ((view s.world).reads h)

    portable_loop_lem :
        (fuel len off : ℕ) (s : State os.World)
        → (len ≤ fuel) ⊎ PreadInterrupted
        → off + len < 2 ^ 64
        → PortableEnds (rest_of off s) off len s (portable_loop os (socket fd) h fuel len off s)
    unfolding portable_loop
    portable_loop_lem fuel zero off s enough fits =
        (omega arith, omega arith, Sent-nothing os fd view conn s s refl, refl)
    portable_loop_lem zero (suc n) off s (inl enough) fits = absurd (omega arith)
    portable_loop_lem zero (suc n) off s (inr i) fits = i
    portable_loop_lem (suc fuel) (suc n) off s enough fits =
        answer (os.pread h (next_chunk (suc n)) off s.world) refl
          (λ len o t e k. portable_loop_lem fuel len o t e k)
      where
        retry : ℕ → Bool → Action os.World ℕ
        retry e b = elim b [
          | true ↦ portable_loop os (socket fd) h fuel (suc n) off
          | false ↦ throw (system e)
        ]

        go_on : ℕ → Action os.World ℕ
        go_on k = portable_loop os (socket fd) h fuel (size_sub (suc n) k) ((off + k) % 2 ^ 64)

        cont : Reply (List ℕ) → Action os.World ℕ
        cont reply = elim reply [
          | failed e ↦ retry e (e == eintr)
          | done [] ↦ throw io_error
          | done (b ∷ bytes) ↦ send_all os (socket fd) (b ∷ bytes) >> go_on (length (b ∷ bytes))
        ]

        Goal : Reply (List ℕ) × os.World → Type 0
        Goal r = PortableEnds (rest_of off s) off (suc n) s (cont r.0 (record s { world = r.1 }))

        Again : Type 0
        Again =
            (len o : ℕ) (t : State os.World)
            → (len ≤ fuel) ⊎ PreadInterrupted
            → o + len < 2 ^ 64
            → PortableEnds (rest_of o t) o len t (portable_loop os (socket fd) h fuel len o t)

        seen :
            (r : Reply (List ℕ)) (w : os.World)
            → os.pread h (next_chunk (suc n)) off s.world ≡ (r, w)
            → view w ≡ view s.world
        seen r w eq =
            ap (λ (x : Reply (List ℕ) × os.World). view x.1) (sym eq)
            ∙ readable.pread_lem h (next_chunk (suc n)) off s.world

        by_errno :
            (e : ℕ) (w : os.World)
            → os.pread h (next_chunk (suc n)) off s.world ≡ (failed e, w)
            → Again
            → ((e == eintr) ≡ true) ⊎ ((e == eintr) ≡ false)
            → Goal (failed e, w)
        by_errno e w eq again (inl f) =
            subst
              (λ b. PortableEnds (rest_of off s) off (suc n) s (retry e b (record s { world = w })))
              (sym f)
              (PrefixEnds-cast os fd view conn PortableRefused PreadInterrupted
                (λ off'. off' ≡ off + suc n) (λ off'. off' ≡ off + suc n)
                (rest_of off (record s { world = w })) (rest_of off s) (suc n) (suc n) s
                (record s { world = w }) _ (ap (λ (v : View). drop off (v.reads h)) (seen _ w eq))
                refl (seen _ w eq) refl (λ a k. k)
                (again (suc n) off (record s { world = w })
                  (inr (
                    h,
                    next_chunk (suc n),
                    off,
                    s.world,
                    w,
                    subst (λ k. os.pread h (next_chunk (suc n)) off s.world ≡ (failed k, w))
                        ((==_iff e eintr).0 f) eq,
                  ))
                  fits))
        by_errno e w eq again (inr f) =
            subst
              (λ b. PortableEnds (rest_of off s) off (suc n) s (retry e b (record s { world = w })))
              (sym f)
              (
                0,
                omega arith,
                Sent-nothing os fd view conn s (record s { world = w }) (seen _ w eq),
                inr (inl (h, next_chunk (suc n), off, s.world, e, w, eq)),
              )

        fewer_left :
            (k : ℕ)
            → 0 < k
            → k ≤ suc n
            → (suc n ≤ suc fuel) ⊎ PreadInterrupted
            → (size_sub (suc n) k ≤ fuel) ⊎ PreadInterrupted
        fewer_left k p q (inl e) = inl (omega arith)
        fewer_left k p q (inr i) = inr i

        answer :
            (r : Reply (List ℕ) × os.World)
            → os.pread h (next_chunk (suc n)) off s.world ≡ r
            → Again
            → PortableEnds
                (rest_of off s)
                off
                (suc n)
                s
                (portable_loop os (socket fd) h (suc fuel) (suc n) off s)
        answer (failed e, w) eq again =
            subst Goal (sym eq) (by_errno e w eq again (Bool-cases (e == eintr)))
        answer (done [], w) eq again =
            let (_, positive, _) = next_chunk_bounds n in
            let ended : rest_of off s ≡ [] =
              source.pread_end h (next_chunk (suc n)) off s.world w eq positive in
            subst Goal (sym eq) (
              0,
              omega arith,
              Sent-nothing os fd view conn s (record s { world = w }) (seen _ w eq),
              inl (sym (ap (λ (xs : List ℕ). length xs) ended), omega arith),
            )
        answer (done (b ∷ bytes), w) eq again =
            let (short, splits, _) =
              source.pread_done h (next_chunk (suc n)) off s.world (b ∷ bytes) w eq in
            let (fewer, _, small) = next_chunk_bounds n in
            subst Goal (sym eq) (
              chunk_lem os fd view conn h ℕ PortableRefused PreadInterrupted (λ t why. inr why)
                (λ off'. off' ≡ off + suc n)
                (λ off'.
                  off'
                  ≡ (off + length (b ∷ bytes)) % 2 ^ 64 + size_sub (suc n) (length (b ∷ bytes)))
                (λ a g. omega arith) (b ∷ bytes) (suc n) off s w (go_on (length (b ∷ bytes)))
                (omega arith) (omega arith) fits (seen _ w eq) splits
                (λ u.
                  again _ _ u (fewer_left (length (b ∷ bytes)) (omega arith) (omega arith) enough)
                    (omega arith)))

  -- On a connection and files that keep their laws, with fuel for `len` calls: the portable branch
  -- returns true when the next `len` bytes of the file from the offset on were sent, in order, and the
  -- offset is behind them. When it returns false, a prefix of them was sent, and a call failed or took
  -- nothing, or the file is too short and all of it was sent. The fuel runs out only if a call was
  -- interrupted.
  pub send_from_fd_portable_lem :
      (h rounds offset len : ℕ) (s : State os.World)
      → len ≤ rounds
      → offset + len < 2 ^ 64
      → PortableEnds
          (drop offset ((view s.world).reads h))
          offset
          len
          s
          (send_from_fd_portable os (socket fd) h rounds offset len s)
  unfolding send_from_fd_portable
  send_from_fd_portable_lem h rounds offset len s enough fits =
      portable_loop_lem h rounds len offset s (inl enough) fits
