-- ===== src/Sender/Source/Sending.antt =====
-- What `SendFileBytes` sends, with `sendfile64` and with `pread` and `send`.
use xfer.Base.{
  ℕ, zero, suc, ◌+◌, ◌%◌, ◌^◌, ◌≤◌, ◌<◌, ◌≡◌, ◌⊎◌, inl, inr, refl, ap, subst, sym, ◌∙◌, arith,
}
use xfer.Base.{Bool, true, false}
use xfer.Base.{List, [], ◌∷◌, length, drop}
use xfer.Os.{Os, FilePath, Reply, done, failed}
use xfer.Os.Action.{
  Action, State, Outcome, returns, fails, stuck, throw, fail, io_error, after, ◌>>◌,
}
use xfer.Os.Laws.{View, IsConnection, IsSource}
use xfer.Os.Files.{IsReadable}
use xfer.Net.{size_sub, send_all, send_from_fd}
use xfer.Net.Transfer.{socket}
use xfer.Net.SendAll.{SendRefused}
use xfer.Net.Chunk.{chunk_lem}
use xfer.Net.Prefix.{PrefixEnds, Sent-nothing}
use xfer.Net.SendFromFd.{SendfileRefused, IsInterrupted, SendfileEnds, send_from_fd_lem}
use xfer.Sender.Source.{zero_copy_loop, read_send_loop, send_file_bytes, next_read}

next_read_bounds : (n : ℕ) → (next_read (suc n) ≤ suc n) × (0 < next_read (suc n))
next_read_bounds n = ground arith

next_read_small : (n : ℕ) → next_read (suc n) < 2 ^ 31
next_read_small n = ground arith

module _ (os : Os) (fd : ℕ) (view : os.World → View) (file : FilePath → FilePath)
    (conn : IsConnection os fd view) (readable : IsReadable os fd view file)
    (source : IsSource os (λ w. (view w).reads)) where
  -- Why `SendFileBytes` gives up on a file that is long enough: its last call failed or sent nothing.
  abbrev pub FileRefused : ℕ → State os.World → Type 0
  FileRefused h t =
      SendfileRefused os fd view file conn readable h t
      ⊎ (((want offset : ℕ) × (w : os.World) × (e : ℕ) × (os.pread h want offset w
              ≡ (failed e, t.world))
            × (t.ec ≡ io_error))
          ⊎ SendRefused os fd view conn t)

  -- The way out of `SendFileBytes`.
  abbrev pub FileEnds :
      ℕ → Type 0 → List ℕ → ℕ → State os.World → Outcome os.World (Unit {0}) → Type 0
  FileEnds h Out = PrefixEnds os fd view conn (FileRefused h) Out (λ _. Unit {0})

  module _ (h : ℕ) where
    abbrev rest_of : ℕ → State os.World → List ℕ
    rest_of off s = drop off ((view s.world).reads h)

    -- `SendFromFd` has sent everything, so the loop around it makes one round.
    zero_copy_loop_lem :
        (rounds size : ℕ) (s : State os.World)
        → size ≤ rounds
        → size < 2 ^ 64
        → FileEnds h
            (IsInterrupted os fd view file conn readable h s.world size 0)
            (rest_of 0 s)
            size
            s
            (zero_copy_loop os (socket fd) h rounds size size 0 s)
    unfolding zero_copy_loop
    zero_copy_loop_lem rounds zero s enough fits =
        (tt, omega arith, Sent-nothing os fd view conn s s refl, refl)
    zero_copy_loop_lem rounds (suc n) s enough fits =
        by_outcome (send_from_fd os (socket fd) h rounds 0 (suc n) s)
          (send_from_fd_lem os fd view file conn readable h rounds 0 (suc n) s enough (omega arith))
      where
        Out : Type 0
        Out = IsInterrupted os fd view file conn readable h s.world (suc n) 0

        moved : ℕ → ℕ → Action os.World (Unit {0})
        moved off d = elim d [
          | zero ↦ throw io_error
          | suc m ↦ zero_copy_loop os (socket fd) h rounds n (size_sub (suc n) (suc m)) off
        ]

        by_outcome :
            (r : Outcome os.World ℕ)
            → SendfileEnds os fd view file conn readable h Out (rest_of 0 s) 0 (suc n) s r
            → FileEnds h Out (rest_of 0 s) (suc n) s (after r (λ off. moved off (size_sub off 0)))
        by_outcome (returns off t) (place, enough', sent, same) =
            subst (λ d. FileEnds h Out (rest_of 0 s) (suc n) s (moved off d t))
              (let e : suc n ≡ size_sub off 0 = omega arith in e)
              (subst
                (λ k.
                  FileEnds h Out (rest_of 0 s) (suc n) s
                    (zero_copy_loop os (socket fd) h rounds n k off t))
                (let e : 0 ≡ size_sub (suc n) (suc n) = omega arith in e) (tt, enough', sent, same))
        by_outcome (fails t) (k, few, sent, inl short) = (k, few, sent, inl short)
        by_outcome (fails t) (k, few, sent, inr why) = (k, few, sent, inr (inl why))
        by_outcome stuck i = i

    read_send_loop_lem :
        (Out : Type 0) (fuel len off : ℕ) (s : State os.World)
        → len ≤ fuel
        → off + len < 2 ^ 64
        → FileEnds h Out (rest_of off s) len s (read_send_loop os (socket fd) h fuel len off s)
    unfolding read_send_loop
    read_send_loop_lem Out fuel zero off s enough fits =
        (tt, omega arith, Sent-nothing os fd view conn s s refl, refl)
    read_send_loop_lem Out zero (suc n) off s enough fits = absurd (omega arith)
    read_send_loop_lem Out (suc fuel) (suc n) off s enough fits =
        answer (os.pread h (next_read (suc n)) off s.world) refl
          (λ len o t e k. read_send_loop_lem Out fuel len o t e k)
      where
        go_on : ℕ → Action os.World (Unit {0})
        go_on k = read_send_loop os (socket fd) h fuel (size_sub (suc n) k) ((off + k) % 2 ^ 64)

        cont : Reply (List ℕ) → Action os.World (Unit {0})
        cont reply = elim reply [
          | failed e ↦ throw io_error
          | done [] ↦ fail
          | done (b ∷ bytes) ↦ send_all os (socket fd) (b ∷ bytes) >> go_on (length (b ∷ bytes))
        ]

        Goal : Reply (List ℕ) × os.World → Type 0
        Goal r = FileEnds h Out (rest_of off s) (suc n) s (cont r.0 (record s { world = r.1 }))

        seen :
            (r : Reply (List ℕ)) (w : os.World)
            → os.pread h (next_read (suc n)) off s.world ≡ (r, w)
            → view w ≡ view s.world
        seen r w eq =
            ap (λ (x : Reply (List ℕ) × os.World). view x.1) (sym eq)
            ∙ readable.pread_lem h (next_read (suc n)) off s.world

        answer :
            (r : Reply (List ℕ) × os.World)
            → os.pread h (next_read (suc n)) off s.world ≡ r
            → ((len o : ℕ) (t : State os.World)
                → len ≤ fuel
                → o + len < 2 ^ 64
                → FileEnds h Out (rest_of o t) len t (read_send_loop os (socket fd) h fuel len o t))
            → FileEnds h Out
                (rest_of off s)
                (suc n)
                s
                (read_send_loop os (socket fd) h (suc fuel) (suc n) off s)
        answer (failed e, w) eq again = subst Goal (sym eq) (
          0,
          omega arith,
          Sent-nothing os fd view conn s (record s { world = w }) (seen _ w eq),
          inr (inr (inl (next_read (suc n), off, s.world, e, eq, refl))),
        )
        answer (done [], w) eq again =
            let ended : rest_of off s ≡ [] =
              source.pread_end h (next_read (suc n)) off s.world w eq (next_read_bounds n).1 in
            subst Goal (sym eq) (
              0,
              omega arith,
              Sent-nothing os fd view conn s (record s { world = w }) (seen _ w eq),
              inl (sym (ap (λ (xs : List ℕ). length xs) ended), omega arith),
            )
        answer (done (b ∷ bytes), w) eq again =
            let (short, splits, _) =
              source.pread_done h (next_read (suc n)) off s.world (b ∷ bytes) w eq in
            let (fewer, _) = next_read_bounds n in
            let small = next_read_small n in
            subst Goal (sym eq) (
              chunk_lem os fd view conn h (Unit {0}) (FileRefused h) Out (λ t why. inr (inr why))
                (λ _. Unit {0}) (λ _. Unit {0}) (λ a g. g) (b ∷ bytes) (suc n) off s w
                (go_on (length (b ∷ bytes))) (omega arith) (omega arith) fits (seen _ w eq) splits
                (λ u. again _ _ u (omega arith) (omega arith)))

  -- On a connection and files that keep their laws, with fuel for `size` calls of `sendfile64`, and
  -- with or without `zero_copy`: `SendFileBytes` returns true when the first `size` bytes of the file
  -- were sent, in order. When it returns false, a prefix of them was sent, and a call failed or sent
  -- nothing, or the file is too short and all of it was sent. The fuel runs out only if one
  -- of its calls of `sendfile64` was interrupted.
  pub send_file_bytes_lem :
      (h rounds size : ℕ) (zero_copy : Bool) (s : State os.World)
      → size ≤ rounds
      → size < 2 ^ 64
      → FileEnds h
          (IsInterrupted os fd view file conn readable h s.world size 0)
          ((view s.world).reads h)
          size
          s
          (send_file_bytes os (socket fd) h rounds size zero_copy s)
  unfolding send_file_bytes
  send_file_bytes_lem h rounds size true s enough fits =
      zero_copy_loop_lem h rounds size s enough fits
  send_file_bytes_lem h rounds size false s enough fits =
      read_send_loop_lem h _ size size 0 s (omega arith) (omega arith)
