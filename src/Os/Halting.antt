-- ===== src/Os/Halting.antt =====
-- Functions that come back, and how that passes through their parts.
use xfer.Base.{ℕ, Bool, true, false, if◌then◌else◌}
use xfer.Os.{Reply, done, failed}
use xfer.Os.Action.{
  Action, State, Ensures, Ensures-after, pure, throw, fail, call, gets, ErrorCode, ◌>>=◌,
}

-- From every world, the call comes back, and what it returns is good.
pub record Halts {W A : Type 0} (Good : A → Type 0) (m : Action W A) : Type 0 where
  pub halts : (s : State W) → Ensures (λ a _. Good a) (λ _. Unit {0}) (m s)

-- Any result is good.
abbrev pub AnyResult : {A : Type 0} → A → Type 0
AnyResult a = Unit {0}

module _ {W A : Type 0} (Good : A → Type 0) where
  pub Halts-pure : (a : A) → Good a → Halts {W = W} Good (pure a)
  Halts-pure a good = record { halts = λ s. good }

  pub Halts-throw : (e : ErrorCode) → Halts {W = W} Good (throw e)
  Halts-throw e = record { halts = λ s. tt }

  pub Halts-fail : Halts {W = W} Good fail
  Halts-fail = record { halts = λ s. tt }

  pub Halts-if :
      (b : Bool) (m k : Action W A) → Halts Good m → Halts Good k → Halts Good (if b then m else k)
  Halts-if true m k h h' = h
  Halts-if false m k h h' = h'

  pub Halts-bind :
      {B : Type 0} (Fine : B → Type 0) (m : Action W B) (f : B → Action W A)
      → Halts Fine m
      → ((b : B) → Fine b → Halts Good (f b))
      → Halts Good (m >>= f)
  Halts-bind Fine m f h k = record {
    halts = λ s.
        Ensures-after (λ b _. Fine b) (λ a _. Good a) (λ _. Unit {0}) (m s) f (h.halts s)
          (λ b t fine. (k b fine).halts t);
  }

  pub Halts-reply :
      {B : Type 0} (r : Reply B) (m : ℕ → Action W A) (f : B → Action W A)
      → ((e : ℕ) → Halts Good (m e))
      → ((b : B) → Halts Good (f b))
      → Halts Good (elim r [ failed e ↦ m e | done b ↦ f b ])
  Halts-reply (failed e) m f h h' = h e
  Halts-reply (done b) m f h h' = h' b

module _ {W A : Type 0} where
  pub Halts-gets : (f : W → A) → Halts AnyResult (gets f)
  Halts-gets f = record { halts = λ s. tt }

  pub Halts-call : (f : W → A × W) → Halts AnyResult (call f)
  Halts-call f = record { halts = λ s. tt }
