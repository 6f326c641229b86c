-- ===== src/Net/Exchange.antt =====
-- Reading and writing over a connection that does not break, and how such steps compose.
use xfer.Base.{ℕ, ◌^◌, ◌<◌, ◌≡◌, refl, ap, subst, sym, ◌∙◌, arith, List, ◌++◌, length, append_assoc}
use xfer.Os.{Os}
use xfer.Os.Action.{Action, State, returns, pure, ◌>>=◌, ◌>>◌, >>=-returns}
use xfer.Os.Laws.{View, IsConnection, IsReliable}
use xfer.Net.{send_all, recv_all}
use xfer.Net.Transfer.{socket}
use xfer.Net.RecvAll.{recv_all_reliable}
use xfer.Net.SendAll.{send_all_reliable}

module _ (os : Os) (view : os.World → View) where
  -- The call returns `a`, `rest` is still to come, and nothing else can be seen to change.
  abbrev pub Reads : {A : Type 0} → Action os.World A → State os.World → A → List ℕ → Type 0
  Reads m s a rest =
      (t : State os.World) × (m s ≡ returns a t)
      × (view t.world ≡ record (view s.world) { incoming = rest })
      × (t.ec ≡ s.ec)

  -- The call returns true, the kernel has taken `bytes`, and nothing else can be seen to change.
  abbrev pub Writes : Action os.World (Unit {0}) → State os.World → List ℕ → Type 0
  Writes m s bytes =
      (t : State os.World) × (m s ≡ returns tt t)
      × (view t.world ≡ record (view s.world) { sent = (view s.world).sent ++ bytes })
      × (t.ec ≡ s.ec)

  pub Reads-pure :
      {A : Type 0} (a : A) (s : State os.World) (rest : List ℕ)
      → (view s.world).incoming ≡ rest
      → Reads (pure a) s a rest
  Reads-pure a s rest e = (s, refl, cc, refl)

  pub Reads-bind :
      {A B : Type 0} (m : Action os.World A) (f : A → Action os.World B) (s : State os.World)
      (a : A) (b : B) (mid rest : List ℕ)
      → Reads m s a mid
      → ((t : State os.World) → (view t.world).incoming ≡ mid → Reads (f a) t b rest)
      → Reads (m >>= f) s b rest
  Reads-bind m f s a b mid rest (t, e, v, c) next =
      let (u, e', v', c') = next t (ap (λ (x : View). x.incoming) v) in
      (u, >>=-returns m f e ∙ e', cc, c' ∙ c)

  pub Writes-bind :
      (m k : Action os.World (Unit {0})) (s : State os.World) (xs ys : List ℕ)
      → Writes m s xs
      → ((t : State os.World) → Writes k t ys)
      → Writes (m >> k) s (xs ++ ys)
  Writes-bind m k s xs ys (t, e, v, c) next =
      let (u, e', v', c') = next t in
      (u, >>=-returns m (λ _. k) e ∙ e', cc (append_assoc (view s.world).sent xs ys), c' ∙ c)

module _ (os : Os) (fd : ℕ) (view : os.World → View) (conn : IsConnection os fd view)
    (reliable : IsReliable os fd view) where
  pub recv_all-Reads :
      (n : ℕ) (xs rest : List ℕ) (s : State os.World)
      → n ≡ length xs
      → n < 2 ^ 31
      → (view s.world).incoming ≡ xs ++ rest
      → Reads os view (recv_all os (socket fd) n) s xs rest
  recv_all-Reads n xs rest s e small there =
      subst (λ k. Reads os view (recv_all os (socket fd) k) s xs rest) (sym e)
        (recv_all_reliable os fd view conn reliable xs rest s (omega arith) there)

  pub send_all-Writes :
      (bytes : List ℕ) (s : State os.World)
      → length bytes < 2 ^ 31
      → Writes os view (send_all os (socket fd) bytes) s bytes
  send_all-Writes bytes s small = send_all_reliable os fd view conn reliable bytes s small
