-- ===== src/Receiver/Payload/Pieces.antt =====
-- The loop of `ReceivePayloadToFile` in src/transfer/receiver.cpp, piece by piece.
use xfer.Base.{
  ℕ, zero, suc, ◌+◌, ◌-◌, ◌^◌, ◌≤◌, ◌<◌, ◌≡◌, refl, ap, sym, subst, ◌∙◌, arith, Bool, true, false,
}
use xfer.Base.{
  List, [], ◌++◌, length, length-append, Option, some, append-nil, append_assoc, if◌then◌else◌,
}
use xfer.Crc.{Crc32, update}
use xfer.Crc.Serial.{update-append}
use xfer.Os.{Os, FilePath}
use xfer.Os.Action.{
  State, Outcome, returns, fails, stuck, Ensures, Ensures-after, Ensures-weaken, pure, throw,
  io_error,
}
use xfer.Os.Laws.{View, IsConnection, IsDisk, store, store_self, store-store}
use xfer.Net.{recv_all}
use xfer.Net.Transfer.{socket}
use xfer.Net.RecvAll.{recv_all_lem}
use xfer.Receiver.{next_want, write_piece, payload_loop}

pub next_want_bounds :
    (n : ℕ) → 0 < n → (0 < next_want n) × (next_want n ≤ n) × (next_want n < 2 ^ 31)
next_want_bounds n h = ground arith

pub update-nil : (c : Crc32) → update c [] ≡ c
unfolding update
update-nil c = refl

module _ (os : Os) (fd : ℕ) (view : os.World → View) (file : FilePath → FilePath)
    (conn : IsConnection os fd view) (ondisk : IsDisk os view file) where
  -- The stream writes to `f`, which holds `contents` on top of the disk `d`.
  abbrev pub Writing :
      ℕ → (FilePath → Option (List ℕ)) → FilePath → List ℕ → State os.World → Type 0
  Writing stream d f contents s =
      ((view s.world).stream_file stream ≡ some f) × ((view s.world).disk ≡ store d f contents)

  -- The bytes were taken off the stream, nothing was sent, and the streams are those of before.
  abbrev pub Consumes : List ℕ → State os.World → State os.World → Type 0
  Consumes bytes s t =
      ((view s.world).incoming ≡ bytes ++ (view t.world).incoming)
      × ((view t.world).sent ≡ (view s.world).sent)
      × ((view t.world).stream_file ≡ (view s.world).stream_file)

  module _ (stream : ℕ) (d : FilePath → Option (List ℕ)) (f : FilePath) where
    abbrev pub LoopFails : State os.World → State os.World → Type 0
    LoopFails s t = (got left : List ℕ) × Consumes got s t × ((view t.world).disk ≡ store d f left)

    -- The world after a piece was written, or was not.
    abbrev WriteEnds : List ℕ → State os.World → Outcome os.World (Unit {0}) → Type 0
    WriteEnds contents s =
        Ensures (λ _ t. Consumes [] s t × Writing stream d f contents t)
          (λ t. (left : List ℕ) × Consumes [] s t × ((view t.world).disk ≡ store d f left))

    write_piece_lem :
        (contents bytes : List ℕ) (s : State os.World)
        → Writing stream d f contents s
        → WriteEnds (contents ++ bytes) s (write_piece os stream bytes s)
    unfolding write_piece
    write_piece_lem contents bytes s (owns, holds) = answer (os.write stream bytes s.world) refl
      where
        there : (view s.world).disk f ≡ some contents
        there = ap (λ (k : FilePath → Option (List ℕ)). k f) holds ∙ store_self d f contents

        on_top : (xs : List ℕ) → store (view s.world).disk f xs ≡ store d f xs
        on_top xs = ap (λ k. store k f xs) holds ∙ store-store d f contents xs

        answer :
            (r : Bool × os.World)
            → os.write stream bytes s.world ≡ r
            → WriteEnds (contents ++ bytes) s (write_piece os stream bytes s)
        answer (true, w) e =
            let v = ondisk.write_done stream bytes s.world w f contents e owns there in
            subst
              (λ (r : Bool × os.World).
                WriteEnds (contents ++ bytes) s
                  ((if r.0 then pure tt else throw io_error) (record s { world = r.1 })))
              (sym e) ((cc, cc, cc), (cc, cc (on_top (contents ++ bytes))))
        answer (false, w) e =
            let (left, v) = ondisk.write_failed stream bytes s.world w f e owns in
            subst
              (λ (r : Bool × os.World).
                WriteEnds (contents ++ bytes) s
                  ((if r.0 then pure tt else throw io_error) (record s { world = r.1 })))
              (sym e) (left, (cc, cc, cc), cc (on_top left))

    -- The loop takes the rest of the payload off the stream, appends it to the file and to the
    -- checksum. If it fails, it has taken some of the stream and touched only this file.
    abbrev pub LoopEnds : List ℕ → ℕ → Crc32 → State os.World → Outcome os.World Crc32 → Type 0
    LoopEnds contents remaining crc s =
        Ensures
          (λ crc' t.
            (bytes : List ℕ) × (length bytes ≡ remaining)
            × Consumes bytes s t
            × ((view t.world).disk ≡ store d f (contents ++ bytes))
            × (crc' ≡ update crc bytes))
          (LoopFails s)

    Consumes-append :
        (xs ys : List ℕ) (s t u : State os.World)
        → Consumes xs s t
        → Consumes ys t u
        → Consumes (xs ++ ys) s u
    Consumes-append xs ys s t u (p, p', p2) (q, q', q2) = (
      p ∙ ap (λ zs. xs ++ zs) q ∙ sym (append_assoc xs ys (view u.world).incoming),
      q' ∙ p',
      q2 ∙ p2,
    )

    -- The next piece comes off the stream.
    Consumes-end :
        (xs : List ℕ) (s t u : State os.World) → Consumes xs s t → Consumes [] t u → Consumes xs s u
    Consumes-end xs s t u c c' =
        subst (λ zs. Consumes zs s u) (append-nil xs) (Consumes-append xs [] s t u c c')

    abbrev PieceEnds : List ℕ → ℕ → State os.World → Outcome os.World (List ℕ) → Type 0
    PieceEnds contents want s =
        Ensures
          (λ bytes t. (length bytes ≡ want) × Consumes bytes s t × Writing stream d f contents t)
          (LoopFails s)

    piece_lem :
        (contents : List ℕ) (want : ℕ) (s : State os.World)
        → want < 2 ^ 31
        → Writing stream d f contents s
        → PieceEnds contents want s (recv_all os (socket fd) want s)
    piece_lem contents want s small (owns, holds) =
        Ensures-weaken _ _ _ _ (recv_all os (socket fd) want s)
          (recv_all_lem os fd view conn want s small)
          (λ got t (bytes, g, n, (taken, same), c). (cc, (cc, cc, cc), (cc, cc)))
          (λ t (bytes, n, (taken, same), c). (bytes, contents, (taken, cc, cc), cc))

    -- What a later part of the loop ensures, seen from before a piece.
    LoopEnds-append :
        (xs contents : List ℕ) (m n : ℕ) (crc : Crc32) (s t : State os.World)
        (r : Outcome os.World Crc32)
        → length xs + n ≡ m
        → Consumes xs s t
        → LoopEnds (contents ++ xs) n (update crc xs) t r
        → LoopEnds contents m crc s r
    LoopEnds-append xs contents m n crc s t (returns crc' u) k c (ys, l, c', e, g) = (
      xs ++ ys,
      omega (arith, length-append xs ys),
      Consumes-append xs ys s t u c c',
      cc (append_assoc contents xs ys),
      g ∙ sym (update-append crc xs ys),
    )
    LoopEnds-append xs contents m n crc s t (fails u) k c (ys, left, c', e) =
        (xs ++ ys, left, Consumes-append xs ys s t u c c', e)
    LoopEnds-append xs contents m n crc s t stuck k c h = h

    pub payload_loop_lem :
        (fuel remaining : ℕ) (contents : List ℕ) (crc : Crc32) (s : State os.World)
        → remaining ≤ fuel
        → Writing stream d f contents s
        → LoopEnds contents remaining crc s
            (payload_loop os (socket fd) stream fuel remaining crc s)
    unfolding payload_loop
    payload_loop_lem fuel zero contents crc s h (owns, holds) =
        ([], refl, (refl, refl, refl), cc (append-nil contents), sym (update-nil crc))
    payload_loop_lem zero (suc n) contents crc s h wr = absurd (omega arith)
    payload_loop_lem (suc fuel) (suc n) contents crc s h wr =
        let want = next_want (suc n) in
        let (positive, fits, small) = next_want_bounds (suc n) (omega arith) in
        Ensures-after _ _ _ (recv_all os (socket fd) want s) _ (piece_lem contents want s small wr)
          λ bytes t (l, c, wr').
            Ensures-after _ _ _ (write_piece os stream bytes t) _
              (Ensures-weaken _
                (λ _ u. Consumes bytes s u × Writing stream d f (contents ++ bytes) u) _
                (LoopFails s) (write_piece os stream bytes t) (write_piece_lem contents bytes t wr')
                (λ _ u (c', w). (Consumes-end bytes s t u c c', w))
                (λ u (left, c', e). (bytes, left, Consumes-end bytes s t u c c', e)))
              λ _ u (c', wr'').
                LoopEnds-append bytes contents (suc n) (suc n - want) crc s u _ (omega arith) c' (
                  payload_loop_lem fuel (suc n - want) (contents ++ bytes) (update crc bytes) u
                    (omega arith) wr'')
