-- ===== src/Net/SendAll.antt =====
-- What `SendAll` sends, on every way out, whatever the kernel takes at a time.
use xfer.Base.{take-take-drop}
use xfer.Base.{
  ℕ, zero, suc, ◌+◌, ◌^◌, ◌≤◌, ◌<◌, ◌≡◌, ◌⊎◌, inl, inr, refl, ap, subst, sym, ◌∙◌, arith,
}
use xfer.Base.{
  List, [], ◌∷◌, ◌++◌, length, length-drop, take, drop, take-append-drop, some, append-nil,
  append_assoc,
}
use xfer.Base.Int.{pos, negsuc, to_int}
use xfer.Os.{Os, Reply, done, failed}
use xfer.Os.Action.{State, Outcome, returns, fails, stuck, Ensures, >>=-returns, system}
use xfer.Os.Laws.{View, IsConnection, IsReliable}
use xfer.Net.Transfer.{to_int-small, socket}
use xfer.Net.{send_all, send_loop, send, send_answer}

module _ (os : Os) (fd : ℕ) (view : os.World → View) (conn : IsConnection os fd view) where
  abbrev pub Sent : List ℕ → State os.World → State os.World → Type 0
  Sent bytes s t = view t.world ≡ record (view s.world) { sent = (view s.world).sent ++ bytes }

  -- The last call of `send` failed, or took nothing of some data.
  abbrev pub SendRefused : State os.World → Type 0
  SendRefused t =
      ((bytes : List ℕ) × (w : os.World) × (e : ℕ) × (os.send (some fd) bytes w
          ≡ (failed e, t.world))
        × (t.ec ≡ system e))
      ⊎ ((byte : ℕ) × (bytes : List ℕ) × (w : os.World) × (os.send (some fd) (byte ∷ bytes) w
            ≡ (done 0, t.world)))

  -- The way out of `SendAll`: all of the bytes were taken, in order, or a proper prefix.
  abbrev pub SendEnds : List ℕ → State os.World → Outcome os.World (Unit {0}) → Type 0
  SendEnds bytes s =
      Ensures (λ _ t. Sent bytes s t × (t.ec ≡ s.ec))
        (λ t. (k : ℕ) × (k < length bytes) × Sent (take k bytes) s t × SendRefused t)

  pub Sent-append :
      (xs ys : List ℕ) (s t u : State os.World) → Sent xs s t → Sent ys t u → Sent (xs ++ ys) s u
  Sent-append xs ys s t u p q = cc (p, q, append_assoc (view s.world).sent xs ys)

  SendEnds-append :
      (n : ℕ) (bytes : List ℕ) (s t : State os.World) (r : Outcome os.World (Unit {0}))
      → n ≤ length bytes
      → Sent (take n bytes) s t
      → t.ec ≡ s.ec
      → SendEnds (drop n bytes) t r
      → SendEnds bytes s r
  SendEnds-append n bytes s t (returns _ u) k d e (r, c) = (
    subst (λ zs. Sent zs s u) (take-append-drop n bytes)
        (Sent-append (take n bytes) (drop n bytes) s t u d r),
    c ∙ e,
  )
  SendEnds-append n bytes s t (fails u) h d e (k, l, r, c) = (
    n + k,
    omega (arith, length-drop n bytes),
    subst (λ zs. Sent zs s u) (take-take-drop n k bytes h)
        (Sent-append (take n bytes) (take k (drop n bytes)) s t u d r),
    c,
  )
  SendEnds-append n bytes s t stuck k d e h = h

  module _ (fuel b : ℕ) (p : List ℕ) (s : State os.World) {w : os.World} where
    send_loop_done :
        (n m : ℕ)
        → os.send (some fd) (b ∷ p) s.world ≡ (done n, w)
        → to_int n ≡ pos (suc m)
        → send_loop os (socket fd) (suc fuel) (b ∷ p) s
          ≡ send_loop os (socket fd) fuel (drop (suc m) (b ∷ p)) (record s { world = w })
    unfolding send_loop send send_answer
    send_loop_done n m e c =
        >>=-returns (send os (socket fd) (b ∷ p)) _ (ap (send_answer os s) e) ∙ rw c

    send_loop_zero :
        os.send (some fd) (b ∷ p) s.world ≡ (done 0, w)
        → send_loop os (socket fd) (suc fuel) (b ∷ p) s ≡ fails (record s { world = w })
    unfolding send_loop send send_answer
    send_loop_zero e = >>=-returns (send os (socket fd) (b ∷ p)) _ (ap (send_answer os s) e)

    send_loop_failed :
        (n : ℕ)
        → os.send (some fd) (b ∷ p) s.world ≡ (failed n, w)
        → send_loop os (socket fd) (suc fuel) (b ∷ p) s
          ≡ fails (record { world = w; ec = system n })
    unfolding send_loop send send_answer
    send_loop_failed n e =
        let answered : send_answer os s (failed n, w)
            ≡ returns (negsuc 0) (record { world = w; ec = system n }) =
          rw conn.ignored refl in
        >>=-returns (send os (socket fd) (b ∷ p)) _ (ap (send_answer os s) e ∙ answered)

  send_loop_lem :
      (fuel : ℕ) (bytes : List ℕ) (s : State os.World)
      → length bytes ≤ fuel
      → length bytes < 2 ^ 31
      → SendEnds bytes s (send_loop os (socket fd) fuel bytes s)
  unfolding send_loop
  send_loop_lem fuel [] s h small = (cc (append-nil (view s.world).sent), refl)
  send_loop_lem zero (b ∷ p) s h small = absurd (omega arith)
  send_loop_lem (suc fuel) (b ∷ p) s h small =
      answer (os.send (some fd) (b ∷ p) s.world) refl (send_loop_lem fuel)
    where
      answer :
          (r : Reply ℕ × os.World)
          → os.send (some fd) (b ∷ p) s.world ≡ r
          → ((q : List ℕ) (t : State os.World)
              → length q ≤ fuel
              → length q < 2 ^ 31
              → SendEnds q t (send_loop os (socket fd) fuel q t))
          → SendEnds (b ∷ p) s (send_loop os (socket fd) (suc fuel) (b ∷ p) s)
      answer (done zero, w) e rec =
          let (_, same) = conn.send_done (b ∷ p) s.world zero w e in
          subst (SendEnds (b ∷ p) s) (sym (send_loop_zero fuel b p s e))
            (0, omega arith, same, inr (b, p, s.world, e))
      answer (done (suc m), w) e rec =
          let (fits, same) = conn.send_done (b ∷ p) s.world (suc m) w e in
          subst (SendEnds (b ∷ p) s)
            (sym (send_loop_done fuel b p s (suc m) m e (to_int-small (suc m) (omega arith))))
            (SendEnds-append (suc m) (b ∷ p) s (record s { world = w }) _ fits same refl
              (rec _ _ (omega (arith, length-drop m p)) (omega (arith, length-drop m p))))
      answer (failed n, w) e rec =
          let same : view w ≡ view s.world = conn.send_failed (b ∷ p) s.world n w e in
          subst (SendEnds (b ∷ p) s) (sym (send_loop_failed fuel b p s n e))
            (0, omega arith, cc (append-nil (view s.world).sent), inl (b ∷ p, s.world, n, e, refl))

  -- On every connection `SendAll` for less than 2 ^ 31 bytes comes back: the kernel has taken all of
  -- the bytes in order, or a proper prefix of them, when a call failed or took nothing.
  pub send_all_lem :
      (bytes : List ℕ) (s : State os.World)
      → length bytes < 2 ^ 31
      → SendEnds bytes s (send_all os (socket fd) bytes s)
  unfolding send_all
  send_all_lem bytes s small = send_loop_lem (length bytes) bytes s (omega arith) small

  pub SendRefused-IsReliable : IsReliable os fd view → (t : State os.World) → ¬ SendRefused t
  SendRefused-IsReliable reliable t (inl (p, w, e, r, c)) = reliable.send_succeeds p w e t.world r
  SendRefused-IsReliable reliable t (inr (b, p, w, r)) =
      let (n, w', r', positive) = reliable.send_takes b p w in ground (arith, r, r')

  -- While no call fails, `SendAll` returns, and the kernel has taken all of the bytes.
  pub send_all_reliable :
      IsReliable os fd view
      → (bytes : List ℕ) (s : State os.World) → length bytes < 2 ^ 31
      → (t : State os.World) × (send_all os (socket fd) bytes s ≡ returns tt t)
        × Sent bytes s t
        × (t.ec ≡ s.ec)
  send_all_reliable reliable bytes s small =
      answer (send_all os (socket fd) bytes s) (send_all_lem bytes s small)
    where
      answer :
          (r : Outcome os.World (Unit {0}))
          → SendEnds bytes s r
          → (t : State os.World) × (r ≡ returns tt t) × Sent bytes s t × (t.ec ≡ s.ec)
      answer (returns _ t) (d, c) = (t, refl, d, c)
      answer (fails t) (k, l, d, r) = absurd (SendRefused-IsReliable reliable t r)
      answer stuck h = absurd h
