-- ===== src/Net/SendFromFd.antt =====
-- What `SendFromFd` sends on Linux, on every way out.
use xfer.Base.{drop-add}
use xfer.Base.{
  ℕ, zero, suc, ◌+◌, ◌-◌, ◌%◌, ◌^◌, ◌≤◌, ◌<◌, ◌≡◌, ◌≢◌, ◌⊎◌, inl, inr, refl, ap, ap₂, subst, sym,
  ◌∙◌, arith,
}
use xfer.Base.{Bool, true, false, Bool-cases, ltb, ◌==◌, if◌then◌else◌, ==_iff}
use xfer.Base.{List, [], ◌∷◌, length, take, drop, some}
use xfer.Os.{Os, FilePath, Reply, done, failed}
use xfer.Os.Action.{Action, State, Outcome, throw, io_error, system}
use xfer.Os.Laws.{View, IsConnection}
use xfer.Os.Files.{IsReadable}
use xfer.Net.Transfer.{socket}
use xfer.Net.SendAll.{Sent}
use xfer.Net.Prefix.{PrefixEnds, PrefixEnds-append, PrefixEnds-cast, Sent-nothing}
use xfer.Net.{refuse, refuse_lem, eintr, sendfile_max, size_sub, sendfile_loop, send_from_fd}

-- What is asked of a call of `sendfile64`.
abbrev next_sendfile : ℕ → ℕ
next_sendfile remaining = if ltb sendfile_max remaining then sendfile_max else remaining

module _ (os : Os) (fd : ℕ) (view : os.World → View) (file : FilePath → FilePath)
    (conn : IsConnection os fd view) (readable : IsReadable os fd view file) where
  -- Of the calls that send `len` bytes from `off` on, beginning in a world, one is interrupted by a
  -- signal, after others that went well.
  pub data IsInterrupted (h : ℕ) : os.World → ℕ → ℕ → Type 0 where
    interrupted_now :
        (n off : ℕ) (w w' : os.World)
        → os.sendfile (some fd) h off (next_sendfile (suc n)) w ≡ (failed eintr, w')
        → IsInterrupted h w (suc n) off
    interrupted_later :
        (n off m : ℕ) (w w' : os.World)
        → os.sendfile (some fd) h off (next_sendfile (suc n)) w ≡ (done (suc m), w')
        → IsInterrupted h w' (size_sub (suc n) (suc m)) ((off + suc m) % 2 ^ 64)
        → IsInterrupted h w (suc n) off

  -- The last call failed, and was not interrupted, or it sent nothing though some of the file was left.
  abbrev pub SendfileRefused : ℕ → State os.World → Type 0
  SendfileRefused h t =
      ((offset want : ℕ) × (w : os.World) × (e : ℕ) × (os.sendfile (some fd) h offset want w
          ≡ (failed e, t.world))
        × (e ≢ eintr)
        × (t.ec ≡ system e))
      ⊎ ((offset want : ℕ) × (w : os.World) × (os.sendfile (some fd) h offset want w
            ≡ (done 0, t.world))
          × (0 < want)
          × (drop offset ((view w).reads h) ≢ [])
          × (t.ec ≡ io_error))

  -- The way out of the loop, when `rest` is what the file has from `off` on, and `len` bytes of it
  -- are to be sent.
  abbrev pub SendfileEnds :
      ℕ → Type 0 → List ℕ → ℕ → ℕ → State os.World → Outcome os.World ℕ → Type 0
  SendfileEnds h Out rest off len =
      PrefixEnds os fd view conn (SendfileRefused h) Out (λ off'. off' ≡ off + len) rest len

  want_bounds :
      (n : ℕ) (want : ℕ)
      → want ≡ (if ltb sendfile_max (suc n) then sendfile_max else suc n)
      → (0 < want) × (want ≤ suc n)
  want_bounds n want e = ground arith

  module _ (h : ℕ) (Out : Type 0) where
    abbrev rest_of : ℕ → State os.World → List ℕ
    rest_of off s = drop off ((view s.world).reads h)

    sendfile_loop_lem :
        (fuel len off : ℕ) (s : State os.World)
        → (len ≤ fuel) ⊎ Out
        → (IsInterrupted h s.world len off → Out)
        → off + len < 2 ^ 64
        → SendfileEnds h Out
            (rest_of off s)
            off
            len
            s
            (sendfile_loop os (socket fd) h fuel len off s)
    unfolding sendfile_loop
    sendfile_loop_lem fuel zero off s enough give fits =
        (omega arith, omega arith, Sent-nothing os fd view conn s s refl, refl)
    sendfile_loop_lem zero (suc n) off s (inl enough) give fits = absurd (omega arith)
    sendfile_loop_lem zero (suc n) off s (inr i) give fits = i
    sendfile_loop_lem (suc fuel) (suc n) off s enough give fits =
        answer (os.sendfile (some fd) h off want s.world) refl
          (λ len o t e g k. sendfile_loop_lem fuel len o t e g k)
      where
        want : ℕ
        want = next_sendfile (suc n)

        cont : Reply ℕ → Action os.World ℕ
        cont reply = elim reply [
          | failed e ↦ elim (e == eintr) [
            | true ↦ sendfile_loop os (socket fd) h fuel (suc n) off
            | false ↦ refuse os e
          ]
          | done zero ↦ throw io_error
          | done (suc m) ↦
              sendfile_loop os (socket fd) h fuel (size_sub (suc n) (suc m))
                ((off + suc m) % 2 ^ 64)
        ]

        Goal : Reply ℕ × os.World → Type 0
        Goal r =
            SendfileEnds h Out (rest_of off s) off (suc n) s (cont r.0 (record s { world = r.1 }))

        answer :
            (r : Reply ℕ × os.World)
            → os.sendfile (some fd) h off want s.world ≡ r
            → ((len o : ℕ) (t : State os.World)
                → (len ≤ fuel) ⊎ Out
                → (IsInterrupted h t.world len o → Out)
                → o + len < 2 ^ 64
                → SendfileEnds h Out
                    (rest_of o t)
                    o
                    len
                    t
                    (sendfile_loop os (socket fd) h fuel len o t))
            → SendfileEnds h Out
                (rest_of off s)
                off
                (suc n)
                s
                (sendfile_loop os (socket fd) h (suc fuel) (suc n) off s)
        answer (failed e, w) eq again = subst Goal (sym eq) (by_errno (Bool-cases (e == eintr)))
          where
            t : State os.World
            t = record s { world = w }

            same : view w ≡ view s.world
            same = readable.sendfile_failed h off want s.world e w eq

            interrupted : (e == eintr) ≡ true → IsInterrupted h s.world (suc n) off
            interrupted f = interrupted_now n off s.world w (
                subst (λ k. os.sendfile (some fd) h off want s.world ≡ (failed k, w))
                  ((==_iff e eintr).0 f) eq)

            other : (e == eintr) ≡ false → e ≢ eintr
            other f same = cc (f, (==_iff e eintr).1 same)

            retry : Bool → Action os.World ℕ
            retry b = elim b [
              | true ↦ sendfile_loop os (socket fd) h fuel (suc n) off
              | false ↦ refuse os e
            ]

            tested : Bool → Type 0
            tested b =
                SendfileEnds h Out (rest_of off s) off (suc n) s (retry b (record s { world = w }))

            by_errno : ((e == eintr) ≡ true) ⊎ ((e == eintr) ≡ false) → Goal (failed e, w)
            by_errno (inl f) = subst tested (sym f) (
                PrefixEnds-cast os fd view conn (SendfileRefused h) Out (λ off'. off' ≡ off + suc n)
                  (λ off'. off' ≡ off + suc n) (rest_of off t) (rest_of off s) (suc n) (suc n) s t _
                  (ap (λ (v : View). drop off (v.reads h)) same) refl same refl (λ a k. k)
                  (again (suc n) off t (inr (give (interrupted f))) (λ _. give (interrupted f))
                    fits))
            by_errno (inr f) = subst tested (sym f) (
                subst
                  (λ (a : Action os.World ℕ).
                    SendfileEnds h Out (rest_of off s) off (suc n) s (a (record s { world = w })))
                  (sym (refuse_lem os conn.ignored e))
                  (
                    0,
                    omega arith,
                    Sent-nothing os fd view conn s t same,
                    inr (inl (off, want, s.world, e, eq, other f, refl)),
                  ))
        answer (done zero, w) eq again =
            let (_, _, sends) = readable.sendfile_done h off want s.world zero w eq in
            subst Goal (sym eq) (0, omega arith, sends, why (rest_of off s) refl)
          where
            why :
                (rest : List ℕ)
                → rest_of off s ≡ rest
                → ((0 ≡ length (rest_of off s)) × (0 < suc n))
                  ⊎ SendfileRefused h (record { world = w; ec = io_error })
            why [] e = inl (sym (ap (λ (xs : List ℕ). length xs) e), omega arith)
            why (b ∷ rest) e = inr (
                inr (
                  off,
                  want,
                  s.world,
                  eq,
                  (want_bounds n want refl).0,
                  λ f. absurd (cc (e, f)),
                  refl,
                ))
        answer (done (suc m), w) eq again =
            let (fewer, there, sends) = readable.sendfile_done h off want s.world (suc m) w eq in
            let (_, bound) = want_bounds n want refl in
            let t : State os.World = record s { world = w } in
            subst Goal (sym eq) (
              PrefixEnds-append os fd view conn (SendfileRefused h) Out (λ off'. off' ≡ off + suc n)
                (λ off'. off' ≡ (off + suc m) + (suc n - suc m)) (suc m) (suc n) (rest_of off s) s t
                _ there (omega arith) sends refl (λ a k. omega arith)
                (PrefixEnds-cast os fd view conn (SendfileRefused h) Out
                  (λ off'. off' ≡ (off + suc m) % 2 ^ 64 + size_sub (suc n) (suc m))
                  (λ off'. off' ≡ (off + suc m) + (suc n - suc m))
                  (rest_of ((off + suc m) % 2 ^ 64) t) (drop (suc m) (rest_of off s))
                  (size_sub (suc n) (suc m)) (suc n - suc m) t t _
                  (later sends (let e : (off + suc m) % 2 ^ 64 ≡ off + suc m = omega arith in e))
                  (omega arith) refl refl (λ a k. omega arith)
                  (again (size_sub (suc n) (suc m)) ((off + suc m) % 2 ^ 64) t
                    (fewer_left enough fewer bound)
                    (λ i. give (interrupted_later n off m s.world w eq i)) (omega arith))))
          where
            later :
                Sent os fd view conn (take (suc m) (rest_of off s)) s (record s { world = w })
                → (off + suc m) % 2 ^ 64 ≡ off + suc m
                → rest_of ((off + suc m) % 2 ^ 64) (record s { world = w })
                  ≡ drop (suc m) (rest_of off s)
            later sends e =
                ap₂ (λ (k : ℕ) (v : View). drop k (v.reads h)) e sends
                ∙ drop-add off (suc m) ((view s.world).reads h)

            fewer_left :
                (suc n ≤ suc fuel) ⊎ Out
                → suc m ≤ want
                → want ≤ suc n
                → (size_sub (suc n) (suc m) ≤ fuel) ⊎ Out
            fewer_left (inl k) l b = inl (omega arith)
            fewer_left (inr i) l b = inr i

  -- On a connection and files that keep their laws, with fuel for at least `len` calls: `SendFromFd`
  -- returns true when the next `len` bytes of the file from the offset on were sent, in order, and the
  -- offset is behind them. When it returns false, a prefix of them was sent, and a call failed or sent
  -- nothing, or the file is too short and all of it was sent. The fuel runs out only if one of
  -- its calls was interrupted.
  pub send_from_fd_lem :
      (h rounds offset len : ℕ) (s : State os.World)
      → len ≤ rounds
      → offset + len < 2 ^ 64
      → SendfileEnds h
          (IsInterrupted h s.world len offset)
          (drop offset ((view s.world).reads h))
          offset
          len
          s
          (send_from_fd os (socket fd) h rounds offset len s)
  unfolding send_from_fd
  send_from_fd_lem h rounds offset len s enough fits =
      sendfile_loop_lem h (IsInterrupted h s.world len offset) rounds len offset s (inl enough)
        (λ i. i) fits
