-- ===== src/Receiver/Success.antt =====
-- A file that arrives whole is stored, when no call fails.
use xfer.Base.{
  ℕ, zero, suc, ◌-◌, ◌≤◌, ◌≡◌, ◌⊎◌, inl, inr, refl, ap, sym, subst, ◌∙◌, arith, Bool, true, false,
  not, ◌&&◌, Bool-cases, ==_self,
}
use xfer.Base.{
  List, [], ◌∷◌, ◌++◌, length, take, drop, length-take, length-drop, take-append-drop, Option, some,
  append-nil, append_assoc, ◌==◌, if◌then◌else◌,
}
use xfer.Crc.{Crc32, init, update, final, compute}
use xfer.Crc.Serial.{update-append}
use xfer.Os.{Os, FilePath}
use xfer.Os.Action.{
  Action, State, Outcome, returns, pure, throw, call, io_error, bad_message, after, ◌>>=◌,
  >>=-returns,
}
use xfer.Os.Laws.{View, IsConnection, IsReliable, IsDisk, IsRoomy, store, store_self, store-store}
use xfer.Net.{recv_all}
use xfer.Net.Transfer.{socket}
use xfer.Net.Exchange.{Reads, recv_all-Reads}
use xfer.FsPath.{has_parent_path, parent_path}
use xfer.Receiver.{
  next_want, write_piece, payload_loop, check_crc, closing, fill_file, receive_payload_to_file,
}
use xfer.Receiver.Payload.Pieces.{next_want_bounds, update-nil}

module _ (os : Os) (view : os.World → View) where
  -- The call returns `a`, `rest` is still to come, nothing was sent, and the disk is `disk`.
  abbrev pub Takes :
      {A : Type 0}
      → Action os.World A
      → State os.World
      → A
      → List ℕ
      → (FilePath → Option (List ℕ))
      → Type 0
  Takes m s a rest disk =
      (t : State os.World) × (m s ≡ returns a t)
      × ((view t.world).incoming ≡ rest)
      × ((view t.world).sent ≡ (view s.world).sent)
      × ((view t.world).disk ≡ disk)
      × (t.ec ≡ s.ec)

  pub Takes-bind :
      {A B : Type 0} (m : Action os.World A) (f : A → Action os.World B) (s : State os.World)
      (a : A) (b : B) (mid rest : List ℕ) (d d' : FilePath → Option (List ℕ))
      → Takes m s a mid d
      → ((t : State os.World)
          → (view t.world).incoming ≡ mid
          → (view t.world).disk ≡ d
          → Takes (f a) t b rest d')
      → Takes (m >>= f) s b rest d'
  Takes-bind m f s a b mid rest d d' (t, e, i, o, k, c) next =
      let (u, e', i', o', k', c') = next t i k in
      (u, >>=-returns m f e ∙ e', i', o' ∙ o, k', c' ∙ c)

  pub Reads-Takes :
      {A : Type 0} (m : Action os.World A) (s : State os.World) (a : A) (rest : List ℕ)
      → Reads os view m s a rest
      → Takes m s a rest (view s.world).disk
  Reads-Takes m s a rest (t, e, v, c) = (
    t,
    e,
    ap (λ (x : View). x.incoming) v,
    ap (λ (x : View). x.sent) v,
    ap (λ (x : View). x.disk) v,
    c,
  )

module _ (os : Os) (fd : ℕ) (view : os.World → View) (file : FilePath → FilePath)
    (conn : IsConnection os fd view) (reliable : IsReliable os fd view)
    (ondisk : IsDisk os view file) (roomy : IsRoomy os view file) where
  module _ (stream : ℕ) (d : FilePath → Option (List ℕ)) (f : FilePath) where
    payload_loop-Takes :
        (fuel remaining : ℕ) (contents bytes rest : List ℕ) (crc : Crc32) (s : State os.World)
        → remaining ≤ fuel
        → length bytes ≡ remaining
        → (view s.world).incoming ≡ bytes ++ rest
        → (view s.world).stream_file stream ≡ some f
        → (view s.world).disk ≡ store d f contents
        → Takes os view
            (payload_loop os (socket fd) stream fuel remaining crc)
            s
            (update crc bytes)
            rest
            (store d f (contents ++ bytes))
    unfolding payload_loop write_piece
    payload_loop-Takes fuel zero contents [] rest crc s enough exact coming owns holds = (
      s,
      ap (λ c. returns c s) (sym (update-nil crc)),
      coming,
      refl,
      cc (holds, append-nil contents),
      refl,
    )
    payload_loop-Takes fuel zero contents (b ∷ bytes) rest crc s enough exact coming owns holds =
        absurd (omega arith)
    payload_loop-Takes zero (suc n) contents bytes rest crc s enough exact coming owns holds =
        absurd (omega arith)
    payload_loop-Takes (suc fuel) (suc n) contents bytes rest crc s enough exact coming owns holds =
        let want = next_want (suc n) in
        let (positive, fits, small) = next_want_bounds (suc n) (omega arith) in
        let piece = take want bytes in
        let left = drop want bytes in
        let (t, e, v, c) =
          recv_all-Reads os fd view conn reliable want piece (left ++ rest) s
            (omega (arith, length-take want bytes)) small
            (coming
              ∙ ap (λ xs. xs ++ rest) (sym (take-append-drop want bytes))
              ∙ append_assoc piece left rest) in
        let (w, wrote) = roomy.writes stream piece t.world in
        let v' =
          ondisk.write_done stream piece t.world w f contents wrote
            (ap (λ (x : View). x.stream_file stream) v ∙ owns)
            (ap (λ (x : View). x.disk f) v
              ∙ ap (λ (k : FilePath → Option (List ℕ)). k f) holds
              ∙ store_self d f contents) in
        let u : State os.World = record t { world = w } in
        let (z, e', i, o, k, c') =
          payload_loop-Takes fuel (suc n - want) (contents ++ piece) left rest (update crc piece) u
            (omega arith) (omega (arith, length-drop want bytes)) (cc (v', v)) (cc (v', v, owns))
            (on_disk t w contents piece (ap (λ (x : View). x.disk) v) v' holds) in
        (
          z,
          >>=-returns (recv_all os (socket fd) want) _ e
              ∙ ap
                  (λ (r : Bool × os.World).
                    after ((if r.0 then pure tt else throw io_error) (record t { world = r.1 }))
                      (λ _.
                        payload_loop os (socket fd) stream fuel (suc n - want) (update crc piece)))
                  wrote
              ∙ e'
              ∙ ap (λ x. returns x z)
                  (sym (update-append crc piece left)
                    ∙ ap (update crc) (take-append-drop want bytes)),
          i,
          o ∙ ap (λ (x : View). x.sent) v' ∙ ap (λ (x : View). x.sent) v,
          k
              ∙ ap (store d f) (
                  append_assoc contents piece left
                  ∙ ap (λ xs. contents ++ xs) (take-append-drop want bytes)),
          c' ∙ c,
        )
      where
        on_disk :
            (t : State os.World) (w : os.World) (old new : List ℕ)
            → (view t.world).disk ≡ (view s.world).disk
            → view w ≡ record (view t.world) { disk = store (view t.world).disk f (old ++ new) }
            → (view s.world).disk ≡ store d f old
            → (view w).disk ≡ store d f (old ++ new)
        on_disk t w old new v v' holds =
            ap (λ (x : View). x.disk) v'
            ∙ ap (λ k. store k f (old ++ new)) v
            ∙ ap (λ k. store k f (old ++ new)) holds
            ∙ store-store d f old (old ++ new)

  check_crc-returns :
      (expected actual : ℕ) (s : State os.World)
      → (expected ≡ 0) ⊎ (expected ≡ actual)
      → check_crc os expected actual s ≡ returns actual s
  unfolding check_crc
  check_crc-returns expected actual s (inl e) =
      ap (λ b. (if not b && not (actual == expected) then throw bad_message else pure actual) s)
        (subst (λ x. (x == 0) ≡ true) (sym e) refl)
  check_crc-returns expected actual s (inr e) = elim (Bool-cases (expected == 0)) [
    | inl f ↦ rw f refl
    | inr f ↦ rw (f, subst (λ x. (actual == x) ≡ true) (sym e) (==_self actual)) refl
  ]

  -- While no call fails: `ReceivePayloadToFile` stores the next `size` bytes as the file, if the
  -- expected checksum is theirs or 0.
  pub receive_payload_to_file-Takes :
      (target : FilePath) (bytes rest : List ℕ) (expected : ℕ) (s : State os.World)
      → (view s.world).incoming ≡ bytes ++ rest
      → (expected ≡ 0) ⊎ (expected ≡ compute bytes)
      → Takes os view
          (receive_payload_to_file os (socket fd) target (length bytes) expected)
          s
          (compute bytes)
          rest
          (store (view s.world).disk (file target) bytes)
  unfolding receive_payload_to_file compute
  receive_payload_to_file-Takes target bytes rest expected s coming matches =
      by_parent (Bool-cases (has_parent_path target))
    where
      size : ℕ
      size = length bytes

      filling : Action os.World ℕ
      filling = call (os.open_trunc target) >>= fill_file os (socket fd) size expected

      Done : Outcome os.World ℕ → Type 0
      Done r =
          (t : State os.World) × (r ≡ returns (compute bytes) t)
          × ((view t.world).incoming ≡ rest)
          × ((view t.world).sent ≡ (view s.world).sent)
          × ((view t.world).disk ≡ store (view s.world).disk (file target) bytes)
          × (t.ec ≡ s.ec)

      filled : (u : State os.World) → view u.world ≡ view s.world → u.ec ≡ s.ec → Done (filling u)
      filled u same kept =
          let (stream, w, opens) = roomy.opens target u.world in
          let v = ondisk.open_done target u.world stream w opens in
          let (t, e, i, o, k, c) =
            payload_loop-Takes stream (view u.world).disk (file target) size size [] bytes rest init
              (record u { world = w }) (omega arith) refl (cc (v, same, coming))
              (ap (λ (x : View). x.stream_file stream) v
                ∙ ap (λ b. if b then some (file target) else (view u.world).stream_file stream)
                    (==_self stream))
              (ap (λ (x : View). x.disk) v) in
          let closed = roomy.flushes stream t.world in
          (
            record t { world = (os.close_stream stream t.world).1 },
            ap
                  (λ (r : Option ℕ × os.World).
                    fill_file os (socket fd) size expected r.0 (record u { world = r.1 }))
                  opens
                ∙ ap (λ r. closing os stream (after r (λ crc. check_crc os expected (final crc)))) e
                ∙ ap (closing os stream) (check_crc-returns expected (compute bytes) t matches),
            ap (λ (x : View). x.incoming) closed ∙ i,
            ap (λ (x : View). x.sent) closed
                ∙ o
                ∙ ap (λ (x : View). x.sent) v
                ∙ ap (λ (x : View). x.sent) same,
            ap (λ (x : View). x.disk) closed
                ∙ k
                ∙ ap (λ (x : View). store x.disk (file target) bytes) same,
            c ∙ kept,
          )

      by_parent :
          (has_parent_path target ≡ true) ⊎ (has_parent_path target ≡ false)
          → Done (receive_payload_to_file os (socket fd) target size expected s)
      by_parent (inl e) = rw e (
          filled (record s { world = os.create_directories (parent_path target) s.world })
            (ondisk.create_directories_lem (parent_path target) s.world) refl)
      by_parent (inr e) = rw e (filled s refl refl)
