-- ===== src/Net/Mac/Sending.antt =====
-- What `SendFromFd` in src/net/socket.cpp sends on macOS, and that it does not notice the end of a file.
use xfer.Base.{drop-add, length-drop}
use xfer.Base.{
  ℕ, zero, suc, ◌+◌, ◌-◌, ◌%◌, ◌^◌, ◌≤◌, ◌<◌, ◌≡◌, ◌⊎◌, inl, inr, refl, ap, ap₂, subst, sym, ◌∙◌,
  arith, Bool, true, false, Bool-cases, ◌==◌, ==_iff, List, length, drop, some,
}
use xfer.Os.{Os, Reply, done, failed}
use xfer.Os.Action.{Action, State, Outcome, stuck}
use xfer.Os.Laws.{View, IsConnection}
use xfer.Net.{refuse, refuse_lem, size_sub, eintr}
use xfer.Net.Transfer.{socket}
use xfer.Net.Prefix.{PrefixEnds-append, PrefixEnds-cast, Sent-nothing}
use xfer.Net.Mac.{
  MacSendfile, IsMacSendfile, IsMacSteady, mac_loop, send_from_fd_mac, mac_want, mac_want_bounds,
  IsIdle, interrupted, sent_nothing, idle_later, MacRefused, MacEnds,
}

module _ (os : Os) (mac_sendfile : MacSendfile os.World) (fd : ℕ) (view : os.World → View)
    (answering : IsMacSendfile os mac_sendfile fd view) (h : ℕ) where
  abbrev rest_of : ℕ → State os.World → List ℕ
  rest_of off s = drop off ((view s.world).reads h)

  -- What is left of the file behind a call.
  rest_of-later :
      (off want : ℕ) (s : State os.World) (r : Reply (Unit {0})) (len : ℕ) (w : os.World)
      → mac_sendfile h (some fd) off want s.world ≡ ((r, len), w)
      → (off + len) % 2 ^ 64 ≡ off + len
      → rest_of ((off + len) % 2 ^ 64) (record s { world = w }) ≡ drop len (rest_of off s)
  rest_of-later off want s r len w eq e =
      let (_, _, sends) = answering.answers h off want s.world r len w eq in
      ap₂ (λ (k : ℕ) (v : View). drop k (v.reads h)) e sends
      ∙ drop-add off len ((view s.world).reads h)

  module _ (fuel n off : ℕ) where
    abbrev go_on : ℕ → Action os.World ℕ
    go_on len =
        mac_loop os mac_sendfile (socket fd) h fuel (size_sub (suc n) len) ((off + len) % 2 ^ 64)

    abbrev retry : ℕ → ℕ → Bool → Action os.World ℕ
    retry e len b = elim b [ true ↦ go_on len | false ↦ refuse os e ]

    abbrev cont : Reply (Unit {0}) × ℕ → Action os.World ℕ
    cont (reply, len) = elim reply [ failed e ↦ retry e len (e == eintr) | done _ ↦ go_on len ]

  module _ (conn : IsConnection os fd view) (Out : Type 0) where
    abbrev Idle : os.World → ℕ → ℕ → Type 0
    Idle = IsIdle os mac_sendfile fd view conn answering h

    abbrev Ends : List ℕ → ℕ → ℕ → State os.World → Outcome os.World ℕ → Type 0
    Ends = MacEnds os mac_sendfile fd view conn answering h Out

    abbrev Again : ℕ → Type 0
    Again fuel =
        (len o : ℕ) (t : State os.World)
        → (len ≤ fuel) ⊎ Out
        → (Idle t.world len o → Out)
        → o + len < 2 ^ 64
        → Ends (rest_of o t) o len t (mac_loop os mac_sendfile (socket fd) h fuel len o t)

    -- A round that goes on.
    go_on_lem :
        (fuel n off : ℕ) (s : State os.World) (r : Reply (Unit {0})) (len : ℕ) (w : os.World)
        → mac_sendfile h (some fd) off (mac_want (suc n)) s.world ≡ ((r, len), w)
        → (size_sub (suc n) len ≤ fuel) ⊎ Out
        → (Idle w (size_sub (suc n) len) ((off + len) % 2 ^ 64) → Out)
        → off + suc n < 2 ^ 64
        → Again fuel
        → Ends (rest_of off s) off (suc n) s (go_on fuel n off len (record s { world = w }))
    go_on_lem fuel n off s r len w eq enough give fits again =
        let (fewer, there, sends) = answering.answers h off (mac_want (suc n)) s.world r len w eq in
        let (_, bound) = mac_want_bounds n in
        let t : State os.World = record s { world = w } in
        let off' = (off + len) % 2 ^ 64 in
        let Refused : State os.World → Type 0 =
          MacRefused os mac_sendfile fd view conn answering h in
        PrefixEnds-append os fd view conn Refused Out (λ o. o ≡ off + suc n)
          (λ o. o ≡ off' + size_sub (suc n) len) len (suc n) (rest_of off s) s t _ there
          (omega arith) sends refl (λ a k. omega arith)
          (PrefixEnds-cast os fd view conn Refused Out (λ o. o ≡ off' + size_sub (suc n) len)
            (λ o. o ≡ off' + size_sub (suc n) len) (rest_of off' t) (drop len (rest_of off s))
            (size_sub (suc n) len) (suc n - len) t t _
            (rest_of-later off (mac_want (suc n)) s r len w eq (omega arith)) (omega arith) refl
            refl (λ a k. k) (again (size_sub (suc n) len) off' t enough give (omega arith)))

    mac_loop_lem :
        (fuel len off : ℕ) (s : State os.World)
        → (len ≤ fuel) ⊎ Out
        → (Idle s.world len off → Out)
        → off + len < 2 ^ 64
        → Ends (rest_of off s) off len s (mac_loop os mac_sendfile (socket fd) h fuel len off s)
    unfolding mac_loop
    mac_loop_lem fuel zero off s enough give fits =
        (omega arith, omega arith, Sent-nothing os fd view conn s s refl, refl)
    mac_loop_lem zero (suc n) off s (inl enough) give fits = absurd (omega arith)
    mac_loop_lem zero (suc n) off s (inr i) give fits = i
    mac_loop_lem (suc fuel) (suc n) off s enough give fits =
        answer (mac_sendfile h (some fd) off (mac_want (suc n)) s.world) refl
          (λ len o t e g k. mac_loop_lem fuel len o t e g k)
      where
        Goal : (Reply (Unit {0}) × ℕ) × os.World → Type 0
        Goal r = Ends (rest_of off s) off (suc n) s (cont fuel n off r.0 (record s { world = r.1 }))

        by_errno :
            (e len : ℕ) (w : os.World)
            → mac_sendfile h (some fd) off (mac_want (suc n)) s.world ≡ ((failed e, len), w)
            → Again fuel
            → ((e == eintr) ≡ true) ⊎ ((e == eintr) ≡ false)
            → Goal ((failed e, len), w)
        by_errno e len w eq again (inl f) =
            subst
              (λ b.
                Ends (rest_of off s) off (suc n) s
                  (retry fuel n off e len b (record s { world = w })))
              (sym f)
              (go_on_lem fuel n off s (failed e) len w eq (inr stopped) (λ _. stopped) fits again)
          where
            stopped : Out
            stopped = give (
                interrupted n off len s.world w (
                  subst
                    (λ k.
                      mac_sendfile h (some fd) off (mac_want (suc n)) s.world
                      ≡ ((failed k, len), w))
                    ((==_iff e eintr).0 f) eq))
        by_errno e len w eq again (inr f) =
            let (fewer, _, sends) =
              answering.answers h off (mac_want (suc n)) s.world (failed e) len w eq in
            let (_, bound) = mac_want_bounds n in
            subst
              (λ b.
                Ends (rest_of off s) off (suc n) s
                  (retry fuel n off e len b (record s { world = w })))
              (sym f)
              (subst
                (λ (a : Action os.World ℕ).
                  Ends (rest_of off s) off (suc n) s (a (record s { world = w })))
                (sym (refuse_lem os conn.ignored e))
                (
                  len,
                  omega arith,
                  sends,
                  inr (
                    off,
                    mac_want (suc n),
                    s.world,
                    e,
                    len,
                    eq,
                    (λ same. cc (f, (==_iff e eintr).1 same)),
                    refl,
                  ),
                ))

        moved :
            (len : ℕ) (w : os.World)
            → mac_sendfile h (some fd) off (mac_want (suc n)) s.world ≡ ((done tt, len), w)
            → (suc n ≤ suc fuel) ⊎ Out
            → len ≤ suc n
            → (size_sub (suc n) len ≤ fuel) ⊎ Out
        moved zero w eq e b = inr (give (sent_nothing n off s.world w eq))
        moved (suc m) w eq (inl e) b = inl (omega arith)
        moved (suc m) w eq (inr i) b = inr i

        answer :
            (r : (Reply (Unit {0}) × ℕ) × os.World)
            → mac_sendfile h (some fd) off (mac_want (suc n)) s.world ≡ r
            → Again fuel
            → Ends
                (rest_of off s)
                off
                (suc n)
                s
                (mac_loop os mac_sendfile (socket fd) h (suc fuel) (suc n) off s)
        answer ((failed e, len), w) eq again =
            subst Goal (sym eq) (by_errno e len w eq again (Bool-cases (e == eintr)))
        answer ((done u, len), w) eq again =
            let (fewer, _, _) =
              answering.answers h off (mac_want (suc n)) s.world (done tt) len w eq in
            let (_, bound) = mac_want_bounds n in
            subst Goal (sym eq) (
              go_on_lem fuel n off s (done tt) len w eq (moved len w eq enough (omega arith))
                (λ i. give (idle_later n off len s.world w eq i)) fits again)

  -- With fuel for `len` calls, and an answer of `sendfile` that says how much was sent: on macOS
  -- `SendFromFd` returns true when the next `len` bytes of the file were sent, in order, with the
  -- offset behind them. When it returns false, a prefix of them was sent, and a call failed or the file
  -- is too short and all of it was sent. The fuel runs out only if one of its calls was interrupted, or succeeded
  -- and sent nothing.
  pub send_from_fd_mac_lem :
      (conn : IsConnection os fd view) (rounds offset len : ℕ) (s : State os.World)
      → len ≤ rounds
      → offset + len < 2 ^ 64
      → MacEnds os mac_sendfile fd view conn answering h
          (IsIdle os mac_sendfile fd view conn answering h s.world len offset)
          (drop offset ((view s.world).reads h))
          offset
          len
          s
          (send_from_fd_mac os mac_sendfile (socket fd) h rounds offset len s)
  unfolding send_from_fd_mac
  send_from_fd_mac_lem conn rounds offset len s enough fits =
      mac_loop_lem conn (IsIdle os mac_sendfile fd view conn answering h s.world len offset) rounds
        len offset s (inl enough) (λ i. i) fits

  module _ (steady : IsMacSteady os mac_sendfile fd view) where
    mac_loop-stuck :
        (fuel len off : ℕ) (s : State os.World)
        → length (rest_of off s) < len
        → off + len < 2 ^ 64
        → mac_loop os mac_sendfile (socket fd) h fuel len off s ≡ stuck
    unfolding mac_loop
    mac_loop-stuck fuel zero off s short fits = absurd (omega arith)
    mac_loop-stuck zero (suc n) off s short fits = refl
    mac_loop-stuck (suc fuel) (suc n) off s short fits =
        answer (mac_sendfile h (some fd) off (mac_want (suc n)) s.world) refl
          (λ len o t e k. mac_loop-stuck fuel len o t e k)
      where
        answer :
            (r : (Reply (Unit {0}) × ℕ) × os.World)
            → mac_sendfile h (some fd) off (mac_want (suc n)) s.world ≡ r
            → ((len o : ℕ) (t : State os.World)
                → length (rest_of o t) < len
                → o + len < 2 ^ 64
                → mac_loop os mac_sendfile (socket fd) h fuel len o t ≡ stuck)
            → mac_loop os mac_sendfile (socket fd) h (suc fuel) (suc n) off s ≡ stuck
        answer ((failed e, len), w) eq again = absurd (steady.succeeds _ _ _ _ _ _ _ eq)
        answer ((done u, len), w) eq again =
            let (fewer, there, _) =
              answering.answers h off (mac_want (suc n)) s.world (done u) len w eq in
            let (_, bound) = mac_want_bounds n in
            let left = rest_of-later off (mac_want (suc n)) s (done u) len w eq (omega arith) in
            ap
              (λ (r : (Reply (Unit {0}) × ℕ) × os.World).
                cont fuel n off r.0 (record s { world = r.1 }))
              eq
            ∙ again (size_sub (suc n) len) ((off + len) % 2 ^ 64) (record s { world = w })
                (omega
                  (arith, ap (λ (xs : List ℕ). length xs) left, length-drop len (rest_of off s)))
                (omega arith)

    -- On macOS, while no call of `sendfile` fails, and each says how much it sent: if the file has fewer
    -- bytes from the offset on than `SendFromFd` is to send, then the call does not come back, whatever
    -- number of rounds it is given.
    pub send_from_fd_mac-stuck :
        (rounds offset len : ℕ) (s : State os.World)
        → length (drop offset ((view s.world).reads h)) < len
        → offset + len < 2 ^ 64
        → send_from_fd_mac os mac_sendfile (socket fd) h rounds offset len s ≡ stuck
    unfolding send_from_fd_mac
    send_from_fd_mac-stuck rounds offset len s short fits =
        mac_loop-stuck rounds len offset s short fits
