-- ===== src/Receiver/Payload.antt =====
-- What `ReceivePayloadToFile` leaves on the disk, on every way out and for every peer.
pub mod Pieces
use xfer.Base.{
  ℕ, zero, suc, ◌+◌, ◌-◌, ◌^◌, ◌≤◌, ◌<◌, ◌≡◌, ◌⊎◌, inl, inr, refl, ap, sym, subst, ◌∙◌, arith, Bool,
  true, false, Bool-cases,
}
use xfer.Base.{
  List, [], ◌++◌, length, length-append, Option, some, none, append-nil, append_assoc, ◌==◌,
  if◌then◌else◌, ==_iff, ==_self,
}
use xfer.Crc.{Crc32, init, update, final, compute}
use xfer.Crc.Serial.{update-append}
use xfer.Os.{Os, FilePath}
use xfer.Os.Action.{
  Action, State, Outcome, returns, fails, stuck, Ensures, Ensures-after, Ensures-weaken, pure,
  throw, call, io_error, ◌>>=◌,
}
use xfer.Os.Laws.{View, IsConnection, IsDisk, store, store_self, store-store}
use xfer.Net.{recv_all}
use xfer.Net.Transfer.{socket}
use xfer.Net.RecvAll.{recv_all_lem}
use xfer.Receiver.{
  next_want, write_piece, payload_loop, check_crc, closing, receive_payload, fill_file,
  receive_payload_to_file,
}
use xfer.FsPath.{has_parent_path, parent_path}
use xfer.Receiver.Payload.Pieces.{Consumes, Writing, LoopFails, payload_loop_lem}

module _ (os : Os) (fd : ℕ) (view : os.World → View) (file : FilePath → FilePath)
    (conn : IsConnection os fd view) (ondisk : IsDisk os view file) where
  -- The bytes were taken off the stream, and nothing was sent.
  abbrev pub Consumed : List ℕ → State os.World → State os.World → Type 0
  Consumed bytes s t =
      ((view s.world).incoming ≡ bytes ++ (view t.world).incoming)
      × ((view t.world).sent ≡ (view s.world).sent)

  -- The flush at the end of the stream failed, and left the file with other contents.
  abbrev pub FlushFailed : FilePath → State os.World → State os.World → Type 0
  FlushFailed target s t =
      (stream : ℕ) × (w : os.World) × (left : List ℕ) × (os.close_stream stream w
        ≡ (false, t.world))
      × ((view t.world).disk ≡ store (view s.world).disk (file target) left)

  -- The way out of `ReceivePayloadToFile`. If it returns, the next `size` bytes of the stream are the
  -- contents of the file, or the flush at the end failed; nothing else on the disk has changed, and the
  -- checksum is theirs and is the expected one, unless that is 0. If it fails, nothing but that file
  -- has changed.
  abbrev pub PayloadEnds : FilePath → ℕ → ℕ → State os.World → Outcome os.World ℕ → Type 0
  PayloadEnds target size expected s =
      Ensures
        (λ actual t.
          (bytes : List ℕ) × (length bytes ≡ size)
          × Consumed bytes s t
          × (((view t.world).disk ≡ store (view s.world).disk (file target) bytes)
              ⊎ FlushFailed target s t)
          × (actual ≡ compute bytes)
          × ((expected ≡ 0) ⊎ (actual ≡ expected)))
        (λ t.
          (got : List ℕ) × Consumed got s t
          × (((view t.world).disk ≡ (view s.world).disk)
              ⊎ ((left : List ℕ) × ((view t.world).disk
                    ≡ store (view s.world).disk (file target) left))))

  -- The comparison passes exactly what it is meant to pass.
  check_crc_lem :
      (expected actual : ℕ) (s : State os.World)
      → Ensures
          (λ a t. (t ≡ s) × (a ≡ actual) × ((expected ≡ 0) ⊎ (actual ≡ expected)))
          (λ t. t.world ≡ s.world)
          (check_crc os expected actual s)
  unfolding check_crc
  check_crc_lem expected actual s = elim (Bool-cases (expected == 0)) [
    | inl e ↦ rw e (refl, refl, inl ((==_iff expected 0).0 e))
    | inr e ↦ elim (Bool-cases (actual == expected)) [
      | inl f ↦ rw (e, f) (refl, refl, inr ((==_iff actual expected).0 f))
      | inr f ↦ rw (e, f) refl
    ]
  ]

  module _ (target : FilePath) (size expected : ℕ) (s : State os.World) where
    abbrev Stored : ℕ → View → Type 0
    Stored actual u =
        (bytes : List ℕ) × (length bytes ≡ size)
        × (((view s.world).incoming ≡ bytes ++ u.incoming) × (u.sent ≡ (view s.world).sent))
        × (u.disk ≡ store (view s.world).disk (file target) bytes)
        × (actual ≡ compute bytes)
        × ((expected ≡ 0) ⊎ (actual ≡ expected))

    abbrev NotStored : View → Type 0
    NotStored u =
        (got : List ℕ) × (((view s.world).incoming ≡ got ++ u.incoming)
          × (u.sent ≡ (view s.world).sent))
        × ((u.disk ≡ (view s.world).disk)
            ⊎ ((left : List ℕ) × (u.disk ≡ store (view s.world).disk (file target) left)))

    abbrev Owns : ℕ → View → Type 0
    Owns stream u = u.stream_file stream ≡ some (file target)

    closing_lem :
        (stream : ℕ) (r : Outcome os.World ℕ)
        → Ensures
            (λ actual t. Stored actual (view t.world) × Owns stream (view t.world))
            (λ t. NotStored (view t.world) × Owns stream (view t.world))
            r
        → PayloadEnds target size expected s (closing os stream r)
    unfolding closing
    closing_lem stream (returns a t) (stored, owns) =
        flushed (os.close_stream stream t.world) refl stored
      where
        flushed :
            (r : Bool × os.World)
            → os.close_stream stream t.world ≡ r
            → Stored a (view t.world)
            → PayloadEnds target size expected s
                (returns a (record t { world = (os.close_stream stream t.world).1 }))
        flushed (true, w) e (bytes, l, (taken, same), d, sum, ok) =
            let v = ondisk.close_done stream t.world w e in
            subst
              (λ (r : Bool × os.World).
                PayloadEnds target size expected s (returns a (record t { world = r.1 })))
              (sym e) (bytes, l, (cc (v, taken), cc (v, same)), inl (cc (v, d)), sum, ok)
        flushed (false, w) e (bytes, l, (taken, same), d, sum, ok) =
            let (left, v) = ondisk.close_failed stream t.world w (file target) e owns in
            subst
              (λ (r : Bool × os.World).
                PayloadEnds target size expected s (returns a (record t { world = r.1 })))
              (sym e)
              (
                bytes,
                l,
                (cc (v, taken), cc (v, same)),
                inr (stream, t.world, left, e, over bytes left w v d),
                sum,
                ok,
              )
          where
            over :
                (bytes left : List ℕ) (w : os.World)
                → view w
                  ≡ record (view t.world) { disk = store (view t.world).disk (file target) left }
                → (view t.world).disk ≡ store (view s.world).disk (file target) bytes
                → (view w).disk ≡ store (view s.world).disk (file target) left
            over bytes left w v d =
                ap (λ (u : View). u.disk) v
                ∙ ap (λ k. store k (file target) left) d
                ∙ store-store (view s.world).disk (file target) bytes left
    closing_lem stream (fails t) (lost, owns) = flushed (os.close_stream stream t.world) refl lost
      where
        flushed :
            (r : Bool × os.World)
            → os.close_stream stream t.world ≡ r
            → NotStored (view t.world)
            → PayloadEnds target size expected s
                (fails (record t { world = (os.close_stream stream t.world).1 }))
        flushed (true, w) e lost =
            subst
              (λ (r : Bool × os.World).
                PayloadEnds target size expected s (fails (record t { world = r.1 })))
              (sym e) (subst NotStored (sym (ondisk.close_done stream t.world w e)) lost)
        flushed (false, w) e (got, (taken, same), d) =
            let (left, v) = ondisk.close_failed stream t.world w (file target) e owns in
            subst
              (λ (r : Bool × os.World).
                PayloadEnds target size expected s (fails (record t { world = r.1 })))
              (sym e) (got, (cc (v, taken), cc (v, same)), inr (left, over left w v d))
          where
            over :
                (left : List ℕ) (w : os.World)
                → view w
                  ≡ record (view t.world) { disk = store (view t.world).disk (file target) left }
                → ((view t.world).disk ≡ (view s.world).disk)
                  ⊎ ((old : List ℕ) × ((view t.world).disk
                        ≡ store (view s.world).disk (file target) old))
                → (view w).disk ≡ store (view s.world).disk (file target) left
            over left w v (inl d) =
                ap (λ (u : View). u.disk) v ∙ ap (λ k. store k (file target) left) d
            over left w v (inr (old, d)) =
                ap (λ (u : View). u.disk) v
                ∙ ap (λ k. store k (file target) left) d
                ∙ store-store (view s.world).disk (file target) old left
    closing_lem stream stuck h = h

    receive_payload_lem :
        (stream : ℕ) (s' : State os.World)
        → view s'.world ≡ record (view s.world) {
          disk = store (view s.world).disk (file target) [];
          stream_file =
              λ h. if h == stream then some (file target) else (view s.world).stream_file h;
        }
        → PayloadEnds target size expected s
            (receive_payload os (socket fd) stream size expected s')
    unfolding receive_payload compute
    receive_payload_lem stream s' v = closing_lem stream _ (
        Ensures-after Looped (λ actual t. Stored actual (view t.world) × Owns stream (view t.world))
          (λ t. NotStored (view t.world) × Owns stream (view t.world))
          (payload_loop os (socket fd) stream size size init s') _
          (Ensures-weaken Looped Looped
            (LoopFails os fd view file conn ondisk stream (view s.world).disk (file target) s')
            (λ t. NotStored (view t.world) × Owns stream (view t.world))
            (payload_loop os (socket fd) stream size size init s')
            (payload_loop_lem os fd view file conn ondisk stream (view s.world).disk (file target)
              size size [] init s' (omega arith) writing)
            (λ crc t h. h)
            (λ t (got, left, c, e). ((got, from_start got t c, inr (left, e)), owned got t c)))
          (λ crc t (bytes, l, c, e, g).
            Ensures-weaken _ _ _ _ (check_crc os expected (final crc) t)
              (check_crc_lem expected (final crc) t)
              (λ actual u (same, a, ok).
                let c' = subst (Consumes os fd view file conn ondisk bytes s') (sym same) c in
                (
                  (
                    bytes,
                    l,
                    from_start bytes u c',
                    cc,
                    a ∙ ap final g,
                    subst_expected actual (final crc) a ok,
                  ),
                  owned bytes u c',
                ))
              (λ u same.
                let c' = keep bytes t u same c in
                ((bytes, from_start bytes u c', inr (bytes, cc)), owned bytes u c'))))
      where
        Looped : Crc32 → State os.World → Type 0
        Looped crc t =
            (bytes : List ℕ) × (length bytes ≡ size)
            × Consumes os fd view file conn ondisk bytes s' t
            × ((view t.world).disk ≡ store (view s.world).disk (file target) bytes)
            × (crc ≡ update init bytes)

        writing : Writing os fd view file conn ondisk stream (view s.world).disk (file target) [] s'
        writing = (
          ap (λ (u : View). u.stream_file stream) v ∙ rw (==_self stream),
          ap (λ (u : View). u.disk) v,
        )

        from_start :
            (xs : List ℕ) (t : State os.World)
            → Consumes os fd view file conn ondisk xs s' t
            → Consumed xs s t
        from_start xs t (p, q, _) = (cc, cc)

        owned :
            (xs : List ℕ) (t : State os.World)
            → Consumes os fd view file conn ondisk xs s' t
            → Owns stream (view t.world)
        owned xs t (_, _, same) = ap (λ (k : ℕ → Option FilePath). k stream) same ∙ writing.0

        keep :
            (xs : List ℕ) (t u : State os.World)
            → u.world ≡ t.world
            → Consumes os fd view file conn ondisk xs s' t
            → Consumes os fd view file conn ondisk xs s' u
        keep xs t u same (p, q, r) = (cc, cc, cc)

        subst_expected :
            (a b : ℕ) → a ≡ b → (expected ≡ 0) ⊎ (b ≡ expected) → (expected ≡ 0) ⊎ (a ≡ expected)
        subst_expected a b e (inl z) = inl z
        subst_expected a b e (inr z) = inr (e ∙ z)

    -- Whatever the peer sends and the disk does, `ReceivePayloadToFile` comes back as `PayloadEnds` says.
    pub receive_payload_to_file_lem :
        PayloadEnds target size expected s
          (receive_payload_to_file os (socket fd) target size expected s)
    unfolding receive_payload_to_file
    receive_payload_to_file_lem = parent (Bool-cases (has_parent_path target))
      where
        open_and_fill : Action os.World ℕ
        open_and_fill = call (os.open_trunc target) >>= fill_file os (socket fd) size expected

        opening : ℕ → View → View
        opening stream u = record u {
          disk = store u.disk (file target) [];
          stream_file = λ h. if h == stream then some (file target) else u.stream_file h;
        }

        filled :
            (s' : State os.World)
            → view s'.world ≡ view s.world
            → (r : Option ℕ × os.World) → os.open_trunc target s'.world ≡ r
            → PayloadEnds target size expected s (open_and_fill s')
        filled s' e (some stream, w) o =
            let v = ondisk.open_done target s'.world stream w o in
            subst
              (λ (r : Option ℕ × os.World).
                PayloadEnds target size expected s
                  (fill_file os (socket fd) size expected r.0 (record s' { world = r.1 })))
              (sym o)
              (receive_payload_lem stream (record s' { world = w }) (v ∙ ap (opening stream) e))
        filled s' e (none, w) o =
            let v : view w ≡ view s'.world = ondisk.open_failed target s'.world w o in
            subst
              (λ (r : Option ℕ × os.World).
                PayloadEnds target size expected s
                  (fill_file os (socket fd) size expected r.0 (record s' { world = r.1 })))
              (sym o) ([], (cc, cc), inl (cc))

        parent :
            (has_parent_path target ≡ true) ⊎ (has_parent_path target ≡ false)
            → PayloadEnds target size expected s
                (receive_payload_to_file os (socket fd) target size expected s)
        parent (inl e) =
            rw e (filled _ (ondisk.create_directories_lem (parent_path target) s.world) _ refl)
        parent (inr e) = rw e (filled s refl _ refl)
