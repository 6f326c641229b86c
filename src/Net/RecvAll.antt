-- ===== src/Net/RecvAll.antt =====
-- What `RecvAll` receives, on every way out, whatever the kernel delivers at a time.
use xfer.Base.{
  ℕ, zero, suc, ◌+◌, ◌^◌, ◌≤◌, ◌<◌, ◌≡◌, ◌⊎◌, inl, inr, refl, ap, subst, sym, ◌∙◌, arith,
}
use xfer.Base.{List, [], ◌∷◌, ◌++◌, length, length-append, some, append-nil, append_assoc}
use xfer.Base.Int.{pos, to_int}
use xfer.Os.{Os, Reply, done, failed}
use xfer.Os.Action.{
  State, Outcome, returns, fails, stuck, Ensures, >>=-returns, system, connection_reset,
}
use xfer.Os.Laws.{View, IsConnection, IsReliable}
use xfer.Net.Transfer.{to_int-small, socket}
use xfer.Net.{size_sub, recv_all, recv_loop, recv, recv_answer}

module _ (os : Os) (fd : ℕ) (view : os.World → View) (conn : IsConnection os fd view) where
  abbrev Received : List ℕ → State os.World → State os.World → Type 0
  Received bytes s t =
      ((view s.world).incoming ≡ bytes ++ (view t.world).incoming)
      × (view t.world ≡ record (view s.world) { incoming = (view t.world).incoming })

  abbrev RecvFailed : State os.World → Type 0
  RecvFailed t =
      (len : ℕ) × (w : os.World) × (e : ℕ) × (os.recv (some fd) len w ≡ (failed e, t.world))
      × (t.ec ≡ system e)

  -- The way out of `RecvAll` from `s` with `len` bytes to come: it returns exactly these, in order
  -- and taken off the stream, or it fails with fewer, when the stream has ended or a call has failed.
  abbrev pub RecvEnds : ℕ → List ℕ → State os.World → Outcome os.World (List ℕ) → Type 0
  RecvEnds len out s =
      Ensures
        (λ got t.
          (bytes : List ℕ) × (got ≡ out ++ bytes)
          × (length bytes ≡ len)
          × Received bytes s t
          × (t.ec ≡ s.ec))
        (λ t.
          (bytes : List ℕ) × (length bytes < len)
          × Received bytes s t
          × (((view t.world).incoming ≡ []) × (t.ec ≡ connection_reset) ⊎ RecvFailed t))

  Received-append :
      (xs ys : List ℕ) (s t u : State os.World)
      → Received xs s t
      → Received ys t u
      → Received (xs ++ ys) s u
  Received-append xs ys s t u (p, p') (q, q') =
      (p ∙ ap (λ zs. xs ++ zs) q ∙ sym (append_assoc xs ys (view u.world).incoming), cc)

  RecvEnds-append :
      (xs out : List ℕ) (m n : ℕ) (s t : State os.World) (r : Outcome os.World (List ℕ))
      → length xs + n ≡ m
      → Received xs s t
      → t.ec ≡ s.ec
      → RecvEnds n (out ++ xs) t r
      → RecvEnds m out s r
  RecvEnds-append xs out m n s t (returns got u) k d e (ys, g, l, r, c) = (
    xs ++ ys,
    g ∙ append_assoc out xs ys,
    omega (arith, length-append xs ys),
    Received-append xs ys s t u d r,
    c ∙ e,
  )
  RecvEnds-append xs out m n s t (fails u) k d e (ys, l, r, c) =
      (xs ++ ys, omega (arith, length-append xs ys), Received-append xs ys s t u d r, c)
  RecvEnds-append xs out m n s t stuck k d e h = h

  -- One turn of the loop, by the answer of the kernel.
  module _ (fuel len : ℕ) (out : List ℕ) (s : State os.World) {w : os.World} where
    recv_loop_done :
        (bytes : List ℕ)
        → os.recv (some fd) (suc len) s.world ≡ (done bytes, w)
        → (n : ℕ) → to_int (length bytes) ≡ pos (suc n)
        → recv_loop os (socket fd) (suc fuel) (suc len) out s
          ≡ recv_loop os
              (socket fd)
              fuel
              (size_sub (suc len) (suc n))
              (out ++ bytes)
              (record s { world = w })
    unfolding recv_loop recv recv_answer
    recv_loop_done bytes e n c =
        >>=-returns (recv os (socket fd) (suc len)) _ (ap (recv_answer os s) e) ∙ rw c

    recv_loop_end :
        os.recv (some fd) (suc len) s.world ≡ (done [], w)
        → recv_loop os (socket fd) (suc fuel) (suc len) out s
          ≡ fails (record { world = w; ec = connection_reset })
    unfolding recv_loop recv recv_answer
    recv_loop_end e = >>=-returns (recv os (socket fd) (suc len)) _ (ap (recv_answer os s) e)

    recv_loop_failed :
        (n : ℕ)
        → os.recv (some fd) (suc len) s.world ≡ (failed n, w)
        → recv_loop os (socket fd) (suc fuel) (suc len) out s
          ≡ fails (record { world = w; ec = system n })
    unfolding recv_loop recv recv_answer
    recv_loop_failed n e = >>=-returns (recv os (socket fd) (suc len)) _ (ap (recv_answer os s) e)

  recv_loop_lem :
      (fuel len : ℕ) (out : List ℕ) (s : State os.World)
      → len ≤ fuel
      → len < 2 ^ 31
      → RecvEnds len out s (recv_loop os (socket fd) fuel len out s)
  unfolding recv_loop
  recv_loop_lem fuel zero out s h small = ([], sym (append-nil out), refl, (refl, refl), refl)
  recv_loop_lem zero (suc len) out s h small = absurd (omega arith)
  recv_loop_lem (suc fuel) (suc len) out s h small =
      answer (os.recv (some fd) (suc len) s.world) refl (recv_loop_lem fuel)
    where
      answer :
          (r : Reply (List ℕ) × os.World)
          → os.recv (some fd) (suc len) s.world ≡ r
          → ((m : ℕ) (out' : List ℕ) (t : State os.World)
              → m ≤ fuel
              → m < 2 ^ 31
              → RecvEnds m out' t (recv_loop os (socket fd) fuel m out' t))
          → RecvEnds (suc len) out s (recv_loop os (socket fd) (suc fuel) (suc len) out s)
      answer (done [], w) e rec =
          let empty : (view s.world).incoming ≡ [] =
            conn.recv_end (suc len) s.world w e (omega arith) in
          let (_, taken, same) = conn.recv_done (suc len) s.world [] w e in
          subst (RecvEnds (suc len) out s) (sym (recv_loop_end fuel len out s e))
            ([], omega arith, (taken, same), inl (sym taken ∙ empty, refl))
      answer (done (b ∷ bytes), w) e rec =
          let (fits, taken, same) = conn.recv_done (suc len) s.world (b ∷ bytes) w e in
          subst (RecvEnds (suc len) out s)
            (sym (
              recv_loop_done fuel len out s (b ∷ bytes) e (length bytes)
                (to_int-small (suc (length bytes)) (omega arith))))
            (RecvEnds-append (b ∷ bytes) out (suc len) (size_sub (suc len) (suc (length bytes))) s
              (record s { world = w }) _ (ground arith) (taken, same) refl
              (rec _ _ _ (ground arith) (ground arith)))
      answer (failed n, w) e rec =
          let same : view w ≡ view s.world = conn.recv_failed (suc len) s.world n w e in
          subst (RecvEnds (suc len) out s) (sym (recv_loop_failed fuel len out s n e)) (
            [],
            omega arith,
            (ap (λ (v : View). v.incoming) (sym same), cc),
            inr (suc len, s.world, n, e, refl),
          )

  -- On every connection, in whatever pieces it delivers, `RecvAll` for less than 2 ^ 31 bytes comes
  -- back: with the next `len` bytes of the stream, or with false, when the stream ended first or a call
  -- failed.
  pub recv_all_lem :
      (len : ℕ) (s : State os.World)
      → len < 2 ^ 31
      → RecvEnds len [] s (recv_all os (socket fd) len s)
  unfolding recv_all
  recv_all_lem len s small = recv_loop_lem len len [] s (omega arith) small

  Lists-split :
      (xs ys us vs : List ℕ) → xs ++ us ≡ ys ++ vs → length xs ≡ length ys → (xs ≡ ys) × (us ≡ vs)
  Lists-split [] [] us vs e n = (refl, e)
  Lists-split [] (y ∷ ys) us vs e n = absurd (omega arith)
  Lists-split (x ∷ xs) [] us vs e n = absurd (omega arith)
  Lists-split (x ∷ xs) (y ∷ ys) us vs e n =
      let (p, q) = Lists-split xs ys us vs (cc) (omega arith) in (cc, q)

  -- While no call fails, `RecvAll` returns the bytes that are there.
  pub recv_all_reliable :
      IsReliable os fd view
      → (xs rest : List ℕ) (s : State os.World) → length xs < 2 ^ 31
      → (view s.world).incoming ≡ xs ++ rest
      → (t : State os.World) × (recv_all os (socket fd) (length xs) s ≡ returns xs t)
        × (view t.world ≡ record (view s.world) { incoming = rest })
        × (t.ec ≡ s.ec)
  recv_all_reliable reliable xs rest s small there =
      answer (recv_all os (socket fd) (length xs) s) (recv_all_lem (length xs) s small)
    where
      answer :
          (r : Outcome os.World (List ℕ))
          → RecvEnds (length xs) [] s r
          → (t : State os.World) × (r ≡ returns xs t)
            × (view t.world ≡ record (view s.world) { incoming = rest })
            × (t.ec ≡ s.ec)
      answer (returns got t) (bytes, g, n, (taken, same), c) =
          let (p, q) = Lists-split bytes xs (view t.world).incoming rest (sym taken ∙ there) n in
          (t, cc, cc, c)
      answer (fails t) (bytes, n, (taken, same), inl (empty, c)) = absurd (
          omega (
            arith,
            length-append xs rest,
            length-append bytes [],
            ap length (sym there ∙ taken ∙ ap (λ zs. bytes ++ zs) empty),
          ))
      answer (fails t) (bytes, n, d, inr (len, w, e, r, c)) =
          let (got, w', done') = reliable.recv_takes len w in absurd (cc (r, done'))
      answer stuck h = absurd h
