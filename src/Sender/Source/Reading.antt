-- ===== src/Sender/Source/Reading.antt =====
-- `CrcOfFd` in src/transfer/sender.cpp on a file that can be read.
use xfer.Base.{
  ℕ, zero, suc, ◌+◌, ◌%◌, ◌^◌, ◌≤◌, ◌<◌, ◌≡◌, inl, inr, refl, ap, subst, sym, ◌∙◌, arith,
}
use xfer.Base.{List, [], ◌∷◌, ◌++◌, length, take, take_all, append-nil}
use xfer.Crc.{Crc32, init, update, final, compute}
use xfer.Os.{Os, FilePath, Reply, done, failed}
use xfer.Os.Action.{Action, State, Outcome, returns, fails, stuck, pure, no_error, io_error}
use xfer.Os.Laws.{View, IsSource}
use xfer.Os.Files.{IsReadable, IsSteady}
use xfer.Net.{size_sub}
use xfer.Net.Dialogue.{Talks}
use xfer.Sender.Source.{crc_loop, crc_of_fd, next_read}
use xfer.Sender.Source.Checksum.{CrcEnds, crc_of_fd_lem}

module _ (os : Os) (fd : ℕ) (view : os.World → View) (file : FilePath → FilePath)
    (readable : IsReadable os fd view file) (source : IsSource os (λ w. (view w).reads))
    (steady : IsSteady os fd view file) where
  -- The call gives a value, and nothing can be seen to change.
  abbrev IsQuiet : State os.World → Outcome os.World ℕ → Type 0
  IsQuiet s (returns c t) = (view t.world ≡ view s.world) × (t.ec ≡ s.ec)
  IsQuiet s (fails t) = ⊥
  IsQuiet s stuck = ⊥

  IsQuiet-trans :
      (s t : State os.World) (r : Outcome os.World ℕ)
      → view t.world ≡ view s.world
      → t.ec ≡ s.ec
      → IsQuiet t r
      → IsQuiet s r
  IsQuiet-trans s t (returns c u) v c' (v', c'') = (v' ∙ v, c'' ∙ c')
  IsQuiet-trans s t (fails u) v c' h = h
  IsQuiet-trans s t stuck v c' h = h

  crc_loop-IsQuiet :
      (h fuel remaining offset : ℕ) (crc : Crc32) (s : State os.World)
      → remaining ≤ fuel
      → remaining < 2 ^ 64
      → IsQuiet s (crc_loop os h fuel remaining offset crc s)
  unfolding crc_loop
  crc_loop-IsQuiet h fuel zero offset crc s enough fits = (refl, refl)
  crc_loop-IsQuiet h zero (suc n) offset crc s enough fits = absurd (omega arith)
  crc_loop-IsQuiet h (suc fuel) (suc n) offset crc s enough fits =
      answer (os.pread h want offset s.world) refl
        (λ r o c t k l. crc_loop-IsQuiet h fuel r o c t k l)
    where
      want : ℕ
      want = next_read (suc n)

      again : List ℕ → Action os.World ℕ
      again bytes =
          crc_loop os h fuel (size_sub (suc n) (length bytes)) ((offset + length bytes) % 2 ^ 64)
            (update crc bytes)

      cont : Reply (List ℕ) → Action os.World ℕ
      cont reply = elim reply [
        | failed e ↦ λ s. returns 0 (record s { ec = io_error })
        | done [] ↦ pure (final crc)
        | done (b ∷ bytes) ↦ again (b ∷ bytes)
      ]

      Goal : Reply (List ℕ) × os.World → Type 0
      Goal r = IsQuiet s (cont r.0 (record s { world = r.1 }))

      answer :
          (r : Reply (List ℕ) × os.World)
          → os.pread h want offset s.world ≡ r
          → ((r o : ℕ) (c : Crc32) (t : State os.World)
              → r ≤ fuel
              → r < 2 ^ 64
              → IsQuiet t (crc_loop os h fuel r o c t))
          → Goal (os.pread h want offset s.world)
      answer (failed e, w) eq rest = absurd (steady.pread_succeeds h want offset s.world e w eq)
      answer (done [], w) eq rest = subst Goal (sym eq) (
        ap (λ (r : Reply (List ℕ) × os.World). view r.1) (sym eq)
            ∙ readable.pread_lem h want offset s.world,
        refl,
      )
      answer (done (b ∷ bytes), w) eq rest =
          let few = (source.pread_done h want offset s.world (b ∷ bytes) w eq).0 in
          subst Goal (sym eq) (
            IsQuiet-trans s (record s { world = w }) _
              (ap (λ (r : Reply (List ℕ) × os.World). view r.1) (sym eq)
                ∙ readable.pread_lem h want offset s.world)
              refl
              (rest (size_sub (suc n) (length (b ∷ bytes))) _ _ (record s { world = w })
                (left_bound (length bytes) few) (left_small (length bytes) few)))
        where
          left_bound : (k : ℕ) → suc k ≤ want → size_sub (suc n) (suc k) ≤ fuel
          left_bound k few = ground arith

          left_small : (k : ℕ) → suc k ≤ want → size_sub (suc n) (suc k) < 2 ^ 64
          left_small k few = omega arith

  -- A file that can be read has its checksum computed, and nothing can be seen to change.
  pub crc_of_fd-Talks :
      (h size : ℕ) (content : List ℕ) (s : State os.World) (rest : List ℕ)
      → (view s.world).reads h ≡ content
      → length content ≡ size
      → size < 2 ^ 64
      → (view s.world).incoming ≡ rest
      → s.ec ≡ no_error
      → Talks os view (crc_of_fd os h size) s (compute content) rest []
  unfolding crc_of_fd
  crc_of_fd-Talks h size content s rest there exact fits coming clean =
      by_outcome (crc_of_fd os h size s)
        (crc_of_fd_lem os (λ w. (view w).reads) source h size s fits)
        (crc_loop-IsQuiet h size size 0 init s (omega arith) fits)
    where
      by_outcome :
          (r : Outcome os.World ℕ)
          → CrcEnds os (λ w. (view w).reads) h size s r
          → IsQuiet s r
          → (t : State os.World) × (r ≡ returns (compute content) t)
            × (view t.world ≡ record (view s.world) {
              incoming = rest;
              sent = (view s.world).sent ++ [];
              reads = (view t.world).reads;
            })
            × (t.ec ≡ s.ec)
      by_outcome (returns c t) (inl (sum, kept)) (v, c') = (
        t,
        ap (λ x. returns x t)
            (sum
              ∙ ap (λ xs. compute (take size xs)) there
              ∙ ap compute (take_all size content (omega arith))),
        cc (v, coming, append-nil (view s.world).sent),
        kept,
      )
      by_outcome (returns c t) (inr (_, broken, _)) (v, c') = absurd (cc (broken, c', clean))
      by_outcome (fails t) h q = absurd h
      by_outcome stuck h q = absurd h
