-- ===== src/Net/Dialogue.antt =====
-- A step of a session that reads and writes, on a connection that does not break.
use xfer.Base.{ℕ, ◌≡◌, refl, ap, ◌∙◌, List, [], ◌++◌, append_assoc, append-nil}
use xfer.Os.{Os}
use xfer.Os.Action.{Action, State, returns, pure, ◌>>=◌, >>=-returns}
use xfer.Os.Laws.{View}
use xfer.Net.Exchange.{Reads, Writes}

module _ (os : Os) (view : os.World → View) where
  -- The call returns `a`, `rest` is still to come, and `bytes` were sent. The files are as they were.
  abbrev pub Talks :
      {A : Type 0} → Action os.World A → State os.World → A → List ℕ → List ℕ → Type 0
  Talks m s a rest bytes =
      (t : State os.World) × (m s ≡ returns a t)
      × (view t.world ≡ record (view s.world) {
        incoming = rest;
        sent = (view s.world).sent ++ bytes;
        reads = (view t.world).reads;
      })
      × (t.ec ≡ s.ec)

  pub Writes-Talks :
      (m : Action os.World (Unit {0})) (s : State os.World) (bytes rest : List ℕ)
      → (view s.world).incoming ≡ rest
      → Writes os view m s bytes
      → Talks m s tt rest bytes
  Writes-Talks m s bytes rest there (t, e, v, c) = (t, e, cc, c)

  pub Reads-Talks :
      {A : Type 0} (m : Action os.World A) (s : State os.World) (a : A) (rest : List ℕ)
      → Reads os view m s a rest
      → Talks m s a rest []
  Reads-Talks m s a rest (t, e, v, c) = (t, e, cc (v, append-nil (view s.world).sent), c)

  pub Talks-pure :
      {A : Type 0} (a : A) (s : State os.World) (rest : List ℕ)
      → (view s.world).incoming ≡ rest
      → Talks (pure a) s a rest []
  Talks-pure a s rest e = (s, refl, cc (append-nil (view s.world).sent), refl)

  pub Talks-bind :
      {A B : Type 0} (m : Action os.World A) (f : A → Action os.World B) (s : State os.World)
      (a : A) (b : B) (mid rest xs ys : List ℕ)
      → Talks m s a mid xs
      → ((t : State os.World)
          → (view t.world).incoming ≡ mid
          → (view t.world).disk ≡ (view s.world).disk
          → t.ec ≡ s.ec
          → Talks (f a) t b rest ys)
      → Talks (m >>= f) s b rest (xs ++ ys)
  Talks-bind m f s a b mid rest xs ys (t, e, v, c) next =
      let (u, e', v', c') =
        next t (ap (λ (x : View). x.incoming) v) (ap (λ (x : View). x.disk) v) c in
      (u, >>=-returns m f e ∙ e', cc (append_assoc (view s.world).sent xs ys), c' ∙ c)
