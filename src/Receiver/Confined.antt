-- ===== src/Receiver/Confined.antt =====
-- A whole session, with any sender and any disk: it ends, and it writes nowhere but below the output
-- directory.
use xfer.Base.{
  ℕ, zero, suc, ◌≡◌, ◌⊎◌, inl, inr, refl, ap, sym, subst, ◌∙◌, Bool, true, false, Bool-cases,
}
use xfer.Base.{List, ◌++◌, Option, some, All, All-unappend, bytes_eq, bytes_eq→eq, if◌then◌else◌}
use xfer.Crc.Serial.{IsByte}
use xfer.Os.{Os, FilePath}
use xfer.Os.Action.{
  Action, pure, modify, ◌>>=◌, State, Outcome, Ensures, Ensures-after, Ensures-weaken, returns,
  fails, stuck, attempted,
}
use xfer.Os.Laws.{View, IsConnection, IsDisk, store}
use xfer.Net.Transfer.{socket}
use xfer.FsPath.{is_empty}
use xfer.Wire.{FileEntry, read_session_header, write_ack, read_file_header, read_done}
use xfer.Wire.Frame.{
  IsStable, Keeps, read_session_header-Keeps, write_ack-Keeps, read_file_header-Keeps,
  read_done-Keeps,
}
use xfer.Receiver.{
  ReceiverOptions, ReceiverSummary, no_files, validate_and_join, receive_payload_to_file,
  receive_entry, receive_records, choose_dir, current_dir, check_dir, open_output_dir,
  receive_stream,
}
use xfer.Receiver.Payload.{receive_payload_to_file_lem}
use xfer.Receiver.Containment.{IsBelow, validate_and_join_lem}

module _ (os : Os) (fd : ℕ) (view : os.World → View) (file : FilePath → FilePath)
    (conn : IsConnection os fd view) (ondisk : IsDisk os view file) (options : ReceiverOptions)
    (cwd : FilePath) (settled : (w : os.World) → os.current_path w ≡ some cwd) where
  -- The directory that was asked for, or else the one that the program runs in.
  abbrev pub IsOutputDir : FilePath → Type 0
  IsOutputDir out = out ≡ (if is_empty options.output_dir then cwd else options.output_dir)

  -- The file of a path that leads below the output directory.
  abbrev pub IsInside : FilePath → Type 0
  IsInside q = (out safe : FilePath) × IsOutputDir out × (q ≡ file safe) × IsBelow out safe

  module _ (start : View) where
    -- What came in is bytes, and any file that is not as at the start lies below the output directory.
    pub record IsConfined (v : View) : Type 0 where
      pub incoming_bytes : All IsByte v.incoming
      pub inside : (q : FilePath) → (v.disk q ≡ start.disk q) ⊎ IsInside q

    pub IsConfined-stable : IsStable IsConfined
    IsConfined-stable = record {
      taken = λ v bytes rest e h. record {
        incoming_bytes = (All-unappend IsByte bytes rest (subst (All IsByte) e h.incoming_bytes)).1;
        inside = h.inside;
      };
      given = λ v out h. record { incoming_bytes = h.incoming_bytes; inside = h.inside };
      are_bytes = λ v h. h.incoming_bytes;
    }

    abbrev pub Confines : {A : Type 0} → Outcome os.World A → Type 0
    Confines = Keeps os fd view conn IsConfined IsConfined-stable

    -- One more file below the output directory.
    IsConfined-store :
        (v v' : View) (f : FilePath) (bytes got : List ℕ)
        → IsInside f
        → v.incoming ≡ got ++ v'.incoming
        → v'.disk ≡ store v.disk f bytes
        → IsConfined v
        → IsConfined v'
    IsConfined-store v v' f bytes got i c e h = record {
      incoming_bytes =
          (All-unappend IsByte got v'.incoming (subst (All IsByte) c h.incoming_bytes)).1;
      inside = λ q. elim (Bool-cases (bytes_eq q f)) [
        | inl same ↦ inr (subst IsInside (sym (bytes_eq→eq q f same)) i)
        | inr other ↦
            let kept : v'.disk q ≡ v.disk q =
              ap (λ (k : FilePath → Option (List ℕ)). k q) e
              ∙ ap (λ b. if b then some bytes else v.disk q) other in
            subst (λ c. (c ≡ start.disk q) ⊎ IsInside q) (sym kept) (h.inside q)
      ];
    }

    receive_entry-Confines :
        (out : FilePath) (verify : Bool) (summary : ReceiverSummary) (entry : FileEntry)
        (s : State os.World)
        → IsOutputDir out
        → IsConfined (view s.world)
        → Confines (receive_entry os (socket fd) out verify summary entry s)
    unfolding receive_entry
    receive_entry-Confines out verify summary entry s o h =
        elim (Bool-cases (is_empty entry.rel_path)) [
          | inl e ↦ rw e h
          | inr e ↦ rw e (
              Ensures-after Joined _ _ (validate_and_join os out entry.rel_path s) _
                (Ensures-weaken _ _ _ _ (validate_and_join os out entry.rel_path s)
                  (validate_and_join_lem os out entry.rel_path s)
                  (λ safe t (same, _, _, _, below).
                    (below, subst (λ (u : State os.World). IsConfined (view u.world)) (sym same) h))
                  (λ t (same, _).
                    subst (λ (u : State os.World). IsConfined (view u.world)) (sym same) h))
                λ safe t (below, h').
                  Ensures-after _ _ _
                    (receive_payload_to_file os (socket fd) safe entry.size expected t) _
                    (received safe t below h') λ _ u h''. h'')
        ]
      where
        Joined : FilePath → State os.World → Type 0
        Joined safe t = IsBelow out safe × IsConfined (view t.world)

        expected : ℕ
        expected = if verify then entry.crc32 else 0

        received :
            (safe : FilePath) (t : State os.World)
            → IsBelow out safe
            → IsConfined (view t.world)
            → Confines (receive_payload_to_file os (socket fd) safe entry.size expected t)
        received safe t below h' =
            Ensures-weaken _ _ _ _
              (receive_payload_to_file os (socket fd) safe entry.size expected t)
              (receive_payload_to_file_lem os fd view file conn ondisk safe entry.size expected t)
              (λ actual u (bytes, l, (c, _), e, _, _). elim e [
                | inl held ↦
                    IsConfined-store (view t.world) (view u.world) (file safe) bytes bytes
                      (out, safe, o, refl, below) c held h'
                | inr (stream, w, left, _, held) ↦
                    IsConfined-store (view t.world) (view u.world) (file safe) left bytes
                      (out, safe, o, refl, below) c held h'
              ])
              (λ u (got, (c, _), d). lost safe t u got below h' c d)
          where
            lost :
                (safe : FilePath) (t u : State os.World) (got : List ℕ)
                → IsBelow out safe
                → IsConfined (view t.world)
                → (view t.world).incoming ≡ got ++ (view u.world).incoming
                → ((view u.world).disk ≡ (view t.world).disk)
                  ⊎ ((left : List ℕ) × ((view u.world).disk
                        ≡ store (view t.world).disk (file safe) left))
                → IsConfined (view u.world)
            lost safe t u got below h' c (inl same) = record {
              incoming_bytes =
                  (All-unappend IsByte got _ (subst (All IsByte) c h'.incoming_bytes)).1;
              inside = λ q.
                  subst (λ d. (d ≡ start.disk q) ⊎ IsInside q)
                    (sym (ap (λ (k : FilePath → Option (List ℕ)). k q) same)) (h'.inside q);
            }
            lost safe t u got below h' c (inr (left, e)) =
                IsConfined-store (view t.world) (view u.world) (file safe) left got
                  (out, safe, o, refl, below) c e h'

    receive_records-Confines :
        (out : FilePath) (verify : Bool) (n : ℕ) (summary : ReceiverSummary) (s : State os.World)
        → IsOutputDir out
        → IsConfined (view s.world)
        → Confines (receive_records os (socket fd) out verify n summary s)
    unfolding receive_records
    receive_records-Confines out verify zero summary s o h = h
    receive_records-Confines out verify (suc n) summary s o h =
        Ensures-after _ _ _ (read_file_header os (socket fd) s) _
          (read_file_header-Keeps os fd view conn IsConfined IsConfined-stable s h)
          λ entry t h'.
            Ensures-after _ _ _ (receive_entry os (socket fd) out verify summary entry t) _
              (receive_entry-Confines out verify summary entry t o h')
              λ summary' u h''. receive_records-Confines out verify n summary' u o h''

    open_output_dir-Confines :
        (s : State os.World)
        → IsConfined (view s.world)
        → Ensures
            (λ out t. IsOutputDir out × IsConfined (view t.world))
            (λ t. IsConfined (view t.world))
            (open_output_dir os options s)
    unfolding open_output_dir choose_dir check_dir current_dir
    open_output_dir-Confines s h =
        Ensures-after (λ out t. IsOutputDir out × (t ≡ s))
          (λ out t. IsOutputDir out × IsConfined (view t.world)) (λ t. IsConfined (view t.world))
          (choose_dir os options s) making (chosen (Bool-cases (is_empty options.output_dir)))
          λ out t (o, same).
            subst
              (λ (u : State os.World).
                Ensures (λ o t. IsOutputDir o × IsConfined (view t.world))
                  (λ t. IsConfined (view t.world)) (making out u))
              (sym same) (made out o (Bool-cases options.create_dir))
      where
        making : FilePath → Action os.World FilePath
        making out =
            (if options.create_dir then modify (os.create_directories out) else pure tt) >>= λ _.
            check_dir os out

        chosen :
            (is_empty options.output_dir ≡ true) ⊎ (is_empty options.output_dir ≡ false)
            → Ensures
                (λ out t. IsOutputDir out × (t ≡ s))
                (λ t. IsConfined (view t.world))
                (choose_dir os options s)
        chosen (inl e) = rw (e, current_dir, settled s.world) (refl, refl)
        chosen (inr e) = rw e (refl, refl)

        checked :
            (out : FilePath) (t : State os.World)
            → IsOutputDir out
            → IsConfined (view t.world)
            → Ensures
                (λ o t. IsOutputDir o × IsConfined (view t.world))
                (λ t. IsConfined (view t.world))
                (check_dir os out t)
        checked out t o h' = elim (Bool-cases (os.is_directory out t.world)) [
          | inl e ↦ rw e (o, h')
          | inr e ↦ rw e h'
        ]

        made :
            (out : FilePath)
            → IsOutputDir out
            → (options.create_dir ≡ true) ⊎ (options.create_dir ≡ false)
            → Ensures
                (λ o t. IsOutputDir o × IsConfined (view t.world))
                (λ t. IsConfined (view t.world))
                (making out s)
        made out o (inl e) = simp e (
            checked out (record s { world = os.create_directories out s.world }) o
              (subst IsConfined (sym (ondisk.create_directories_lem out s.world)) h))
        made out o (inr e) = simp e (checked out s o h)

    attempt-Confines : {A : Type 0} (r : Outcome os.World A) → Confines r → Confines (attempted r)
    attempt-Confines (returns a t) h = h
    attempt-Confines (fails t) h = h
    attempt-Confines stuck h = h

    pub receive_stream-Confines :
        (s : State os.World)
        → IsConfined (view s.world)
        → Confines (receive_stream os (socket fd) options s)
    unfolding receive_stream
    receive_stream-Confines s h =
        Ensures-after _ _ _ (read_session_header os (socket fd) s) _
          (read_session_header-Keeps os fd view conn IsConfined IsConfined-stable s h)
          λ header t h1.
            Ensures-after _ _ _ (write_ack os (socket fd) 0 t) _
              (write_ack-Keeps os fd view conn IsConfined IsConfined-stable 0 t h1)
              λ _ u h2.
                Ensures-after _ _ _ (open_output_dir os options u) _ (open_output_dir-Confines u h2)
                  λ out v (o, h3).
                    Ensures-after _ _ _
                      (receive_records os (socket fd) out options.verify_crc header.total_files
                        no_files v)
                      _
                      (receive_records-Confines out options.verify_crc header.total_files no_files v
                        o h3)
                      λ summary w h4.
                        Ensures-after _ _ _ (attempted (read_done os (socket fd) w)) _
                          (attempt-Confines (read_done os (socket fd) w)
                            (read_done-Keeps os fd view conn IsConfined IsConfined-stable w h4))
                          λ _ x h5. h5
