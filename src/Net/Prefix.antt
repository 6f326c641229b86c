-- ===== src/Net/Prefix.antt =====
-- What the loops that send a part of a file have in common: they send a prefix of it.
use xfer.Base.{take-take-drop, length-drop}
use xfer.Base.{ℕ, ◌+◌, ◌-◌, ◌≤◌, ◌<◌, ◌≡◌, ◌⊎◌, inl, inr, ap, subst, ◌∙◌, arith}
use xfer.Base.{List, [], length, take, drop, append-nil}
use xfer.Os.{Os}
use xfer.Os.Action.{State, Outcome, returns, fails, stuck}
use xfer.Os.Laws.{View, IsConnection}
use xfer.Net.SendAll.{Sent, Sent-append}

module _ (os : Os) (fd : ℕ) (view : os.World → View) (conn : IsConnection os fd view) where
  pub Sent-nothing :
      (s t : State os.World) → view t.world ≡ view s.world → Sent os fd view conn [] s t
  Sent-nothing s t e = cc (e, append-nil (view s.world).sent)

  module _ {A : Type 0} (Why : State os.World → Type 0) (Out : Type 0) where
    -- Of `rest`, `len` bytes are to be sent. A call that returns `a` has sent them, and `Good a` holds. A
    -- call that fails has sent a prefix, which is all of `rest` and too short, or `Why` holds. `Out` says when the
    -- fuel runs out.
    abbrev pub PrefixEnds : (A → Type 0) → List ℕ → ℕ → State os.World → Outcome os.World A → Type 0
    PrefixEnds Good rest len s (returns a t) =
        Good a × (len ≤ length rest) × Sent os fd view conn (take len rest) s t × (t.ec ≡ s.ec)
    PrefixEnds Good rest len s (fails t) =
        (k : ℕ) × (k ≤ len)
        × Sent os fd view conn (take k rest) s t
        × (((k ≡ length rest) × (k < len)) ⊎ Why t)
    PrefixEnds Good rest len s stuck = Out

    -- What is sent later, seen from before `n` bytes.
    pub PrefixEnds-append :
        (Good Good' : A → Type 0) (n len : ℕ) (rest : List ℕ) (s t : State os.World)
        (r : Outcome os.World A)
        → n ≤ length rest
        → n ≤ len
        → Sent os fd view conn (take n rest) s t
        → t.ec ≡ s.ec
        → ((a : A) → Good' a → Good a)
        → PrefixEnds Good' (drop n rest) (len - n) t r
        → PrefixEnds Good rest len s r
    PrefixEnds-append Good Good' n len rest s t (returns a u) there fits d same f
          (good, enough, d', same') =
        (
          f a good,
          omega (arith, length-drop n rest),
          subst (λ zs. Sent os fd view conn zs s u)
              (take-take-drop n (len - n) rest there
                ∙ ap (λ (k : ℕ). take k rest) (let e : n + (len - n) ≡ len = omega arith in e))
              (Sent-append os fd view conn (take n rest) (take (len - n) (drop n rest)) s t u d d'),
          same' ∙ same,
        )
    PrefixEnds-append Good Good' n len rest s t (fails u) there fits d same f (k, few, d', why) = (
      n + k,
      omega arith,
      subst (λ zs. Sent os fd view conn zs s u) (take-take-drop n k rest there)
          (Sent-append os fd view conn (take n rest) (take k (drop n rest)) s t u d d'),
      elim why [
        | inl (all, short) ↦ inl (omega (arith, length-drop n rest), omega arith)
        | inr w ↦ inr w
      ],
    )
    PrefixEnds-append Good Good' n len rest s t stuck there fits d same f out = out

    -- The same with what is left written in another way, and after a call that changed nothing.
    pub PrefixEnds-cast :
        (Good Good' : A → Type 0) (rest rest' : List ℕ) (len len' : ℕ) (s t : State os.World)
        (r : Outcome os.World A)
        → rest ≡ rest'
        → len ≡ len'
        → view t.world ≡ view s.world
        → t.ec ≡ s.ec
        → ((a : A) → Good a → Good' a)
        → PrefixEnds Good rest len t r
        → PrefixEnds Good' rest' len' s r
    PrefixEnds-cast Good Good' rest rest' len len' s t (returns a u) e g v c f (good, b, d, k) =
        (f a good, subst (λ xs. len' ≤ length xs) e (omega arith), cc (e, g, v, d), k ∙ c)
    PrefixEnds-cast Good Good' rest rest' len len' s t (fails u) e g v c f (k, few, d, why) = (
      k,
      omega arith,
      cc (e, v, d),
      elim why [
        | inl (all, short) ↦ inl (all ∙ ap (λ (xs : List ℕ). length xs) e, omega arith)
        | inr w ↦ inr w
      ],
    )
    PrefixEnds-cast Good Good' rest rest' len len' s t stuck e g v c f out = out
