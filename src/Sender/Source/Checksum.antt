-- ===== src/Sender/Source/Checksum.antt =====
-- The checksum that the sender announces.
use xfer.Base.{take-prefix}
use xfer.Base.{
  ℕ, zero, suc, ◌+◌, ◌-◌, ◌%◌, ◌^◌, ◌≤◌, ◌<◌, ◌≡◌, ◌⊎◌, inl, inr, refl, ap, sym, subst, ◌∙◌, arith,
}
use xfer.Base.{List, [], ◌∷◌, ◌++◌, length, take, drop}
use xfer.Crc.{Crc32, init, update, final, compute}
use xfer.Crc.Serial.{update-append}
use xfer.Os.{Os, Reply, done, failed}
use xfer.Os.Action.{State, Action, pure, Outcome, returns, fails, stuck, io_error}
use xfer.Os.Laws.{IsSource}
use xfer.Net.{size_sub}
use xfer.Sender.Source.{crc_loop, crc_of_fd, next_read}

next_read_bounds : (n : ℕ) → (next_read (suc n) ≤ suc n) × (0 < next_read (suc n))
next_read_bounds n = ground arith

size_sub-small : (m n : ℕ) → n ≤ m → m < 2 ^ 64 → size_sub m n ≡ m - n
size_sub-small m n h k = omega arith

update-nil : (c : Crc32) → update c [] ≡ c
unfolding update
update-nil c = refl

-- A call of `pread` failed, and it is the last one of the run.
pub record PreadFailed (os : Os) (fd : ℕ) (t : State os.World) : Type 0 where
  pub want : ℕ
  pub offset : ℕ
  pub before : os.World
  pub error : ℕ
  pub refused : os.pread fd want offset before ≡ (failed error, t.world)

module _ (os : Os) (source : os.World → ℕ → List ℕ) (law : IsSource os source) (fd : ℕ) where
  -- The way out of the loop with `bytes` to be read.
  abbrev LoopEnds : List ℕ → Crc32 → State os.World → Outcome os.World ℕ → Type 0
  LoopEnds bytes crc s (returns c t) =
      ((c ≡ final (update crc bytes)) × (t.ec ≡ s.ec))
      ⊎ ((c ≡ 0) × (t.ec ≡ io_error) × PreadFailed os fd t)
  LoopEnds bytes crc s (fails t) = ⊥
  LoopEnds bytes crc s stuck = ⊥

  -- What is read later, seen from before a piece.
  LoopEnds-append :
      (xs ys zs : List ℕ) (crc : Crc32) (s t : State os.World) (r : Outcome os.World ℕ)
      → zs ≡ xs ++ ys
      → t.ec ≡ s.ec
      → LoopEnds ys (update crc xs) t r
      → LoopEnds zs crc s r
  LoopEnds-append xs ys zs crc s t (returns c u) e same (inl (sum, kept)) =
      inl (sum ∙ ap final (sym (update-append crc xs ys) ∙ ap (update crc) (sym e)), kept ∙ same)
  LoopEnds-append xs ys zs crc s t (returns c u) e same (inr h) = inr h
  LoopEnds-append xs ys zs crc s t (fails u) e same h = h
  LoopEnds-append xs ys zs crc s t stuck e same h = h

  crc_loop_lem :
      (fuel remaining offset : ℕ) (crc : Crc32) (s : State os.World)
      → remaining ≤ fuel
      → offset + remaining < 2 ^ 64
      → LoopEnds
          (take remaining (drop offset (source s.world fd)))
          crc
          s
          (crc_loop os fd fuel remaining offset crc s)
  unfolding crc_loop
  crc_loop_lem fuel zero offset crc s h fits = inl (ap final (sym (update-nil crc)), refl)
  crc_loop_lem zero (suc n) offset crc s h fits = absurd (omega arith)
  crc_loop_lem (suc fuel) (suc n) offset crc s h fits =
      answer (os.pread fd (next_read (suc n)) offset s.world) refl
        (λ r o c t k l. crc_loop_lem fuel r o c t k l)
    where
      rest : List ℕ
      rest = drop offset (source s.world fd)

      cont : Reply (List ℕ) → Action os.World ℕ
      cont reply = elim reply [
        | failed e ↦ λ t. returns 0 (record t { ec = io_error })
        | done [] ↦ pure (final crc)
        | done (b ∷ bytes) ↦
            crc_loop os fd fuel (size_sub (suc n) (length (b ∷ bytes)))
              ((offset + length (b ∷ bytes)) % 2 ^ 64) (update crc (b ∷ bytes))
      ]

      Goal : Reply (List ℕ) × os.World → Type 0
      Goal r = LoopEnds (take (suc n) rest) crc s (cont r.0 (record s { world = r.1 }))

      answer :
          (r : Reply (List ℕ) × os.World)
          → os.pread fd (next_read (suc n)) offset s.world ≡ r
          → ((r o : ℕ) (c : Crc32) (t : State os.World)
              → r ≤ fuel
              → o + r < 2 ^ 64
              → LoopEnds (take r (drop o (source t.world fd))) c t (crc_loop os fd fuel r o c t))
          → LoopEnds (take (suc n) rest) crc s (crc_loop os fd (suc fuel) (suc n) offset crc s)
      answer (failed e, w) eq again = subst Goal (sym eq) (
          inr (
            refl,
            refl,
            record {
              want = next_read (suc n);
              offset = offset;
              before = s.world;
              error = e;
              refused = eq;
            },
          ))
      answer (done [], w) eq again =
          let ended : rest ≡ [] =
            law.pread_end fd (next_read (suc n)) offset s.world w eq (next_read_bounds n).1 in
          subst Goal (sym eq) (
            inl (
              ap final (sym (update-nil crc))
                  ∙ ap (λ xs. final (update crc (take (suc n) xs))) (sym ended),
              refl,
            ))
      answer (done (b ∷ bytes), w) eq again =
          let (short, splits, same) =
            law.pread_done fd (next_read (suc n)) offset s.world (b ∷ bytes) w eq in
          let (fewer, _) = next_read_bounds n in
          subst Goal (sym eq) (
            LoopEnds-append (b ∷ bytes) _ _ crc s (record s { world = w }) _
              (pieces short splits same fewer) refl
              (again (size_sub (suc n) k) ((offset + k) % 2 ^ 64) (update crc (b ∷ bytes))
                (record s { world = w }) (omega arith) (omega arith)))
        where
          k : ℕ
          k = length (b ∷ bytes)

          pieces :
              k ≤ next_read (suc n)
              → rest ≡ (b ∷ bytes) ++ drop (offset + k) (source s.world fd)
              → source w ≡ source s.world
              → next_read (suc n) ≤ suc n
              → take (suc n) rest
                ≡ (b ∷ bytes)
                  ++ take (size_sub (suc n) k) (drop ((offset + k) % 2 ^ 64) (source w fd))
          pieces short splits same fewer =
              let left : suc n - k ≡ size_sub (suc n) k = omega arith in
              let place : offset + k ≡ (offset + k) % 2 ^ 64 = omega arith in
              ap (take (suc n)) splits
              ∙ take-prefix (suc n) (b ∷ bytes) (drop (offset + k) (source s.world fd))
                  (omega arith)
              ∙ cc (left, place, same)

-- The way out of `CrcOfFd`.
abbrev pub CrcEnds :
    (os : Os) → (os.World → ℕ → List ℕ) → ℕ → ℕ → State os.World → Outcome os.World ℕ → Type 0
CrcEnds os source fd size s (returns c t) =
    ((c ≡ compute (take size (source s.world fd))) × (t.ec ≡ s.ec))
    ⊎ ((c ≡ 0) × (t.ec ≡ io_error) × PreadFailed os fd t)
CrcEnds os source fd size s (fails t) = ⊥
CrcEnds os source fd size s stuck = ⊥

-- For a size below 2 ^ 64, in whatever pieces the file is read, `CrcOfFd` returns: the checksum of the
-- first `size` bytes, or of all bytes of a shorter file, with `ec` as it was, or 0 with `ec` set to
-- `io_error` after a call of `pread` that failed, the last one.
pub crc_of_fd_lem :
    (os : Os) (source : os.World → ℕ → List ℕ)
    → IsSource os source
    → (fd size : ℕ) (s : State os.World) → size < 2 ^ 64
    → CrcEnds os source fd size s (crc_of_fd os fd size s)
unfolding crc_of_fd compute
crc_of_fd_lem os source law fd size s fits =
    by_outcome (crc_loop os fd size size 0 init s)
      (crc_loop_lem os source law fd size size 0 init s (omega arith) (omega arith))
  where
    by_outcome :
        (r : Outcome os.World ℕ)
        → LoopEnds os source law fd (take size (drop 0 (source s.world fd))) init s r
        → CrcEnds os source fd size s r
    by_outcome (returns c t) h = h
    by_outcome (fails t) h = h
    by_outcome stuck h = h
