-- ===== src/Os/Action.antt =====
-- A function of xfer that can fail: it takes the world and the caller's `std::error_code& ec`, and
-- returns true with its results, returns false, or does not come back.
use xfer.Base.{ℕ, Option, none, some, ◌≡◌, ap}

-- The values that the code stores in `ec`. `system` is one that came from `errno`.
pub data ErrorCode : Type 0 where
  no_error invalid_argument filename_too_long bad_file_descriptor : ErrorCode
  connection_reset io_error no_such_file_or_directory permission_denied : ErrorCode
  bad_message not_a_directory : ErrorCode
  system : ℕ → ErrorCode

pub record State (W : Type 0) : Type 0 where
  pub world : W
  pub ec : ErrorCode

pub data Outcome (W A : Type 0) : Type 0 where
  -- `return true`, with the results that the call stored.
  returns : A → State W → Outcome W A
  -- `return false`
  fails : State W → Outcome W A
  -- The call does not come back: a loop of the model ran out of fuel, an exception that nothing catches
  -- was thrown, or a signal ended the program.
  stuck : Outcome W A

abbrev pub Action : Type 0 → Type 0 → Type 0
Action W A = State W → Outcome W A

abbrev pub pure : {W A : Type 0} → A → Action W A
pure a s = returns a s

-- The rest of a function behind a call that has come back.
abbrev pub after : {W A B : Type 0} → Outcome W A → (A → Action W B) → Outcome W B
after (returns a t) f = f a t
after (fails t) f = fails t
after stuck f = stuck

-- `if (!m()) return false;`
infixl 5 ◌>>=◌ ◌>>◌
abbrev pub ◌>>=◌ : {W A B : Type 0} → Action W A → (A → Action W B) → Action W B
◌>>=◌ m f s = after (m s) f

abbrev pub ◌>>◌ : {W B : Type 0} → Action W (Unit {0}) → Action W B → Action W B
m >> k = m >>= λ _. k

-- `return false;` with `ec` as it is.
abbrev pub fail : {W A : Type 0} → Action W A
fail s = fails s

-- `ec = e; return false;`
abbrev pub throw : {W A : Type 0} → ErrorCode → Action W A
throw e s = fails (record s { ec = e })

-- A call whose false the caller does not pass on.
abbrev pub attempted : {W A : Type 0} → Outcome W A → Outcome W (Option A)
attempted (returns a t) = returns (some a) t
attempted (fails t) = returns none t
attempted stuck = stuck

abbrev pub attempt : {W A : Type 0} → Action W A → Action W (Option A)
attempt m s = attempted (m s)

-- A look at the world, and a change of it that nothing is told of.
abbrev pub gets : {W A : Type 0} → (W → A) → Action W A
gets f s = returns (f s.world) s

abbrev pub modify : {W : Type 0} → (W → W) → Action W (Unit {0})
modify f s = returns tt (record s { world = f s.world })

-- A system call.
abbrev pub call : {W A : Type 0} → (W → A × W) → Action W A
call f s = let (r, w) = f s.world in returns r (record s { world = w })

-- What holds after a call, by how it came back. That it does not is excluded.
abbrev pub Ensures :
    {W A : Type 0} → (A → State W → Type 0) → (State W → Type 0) → Outcome W A → Type 0
Ensures P Q (returns a s) = P a s
Ensures P Q (fails s) = Q s
Ensures P Q stuck = ⊥

module _ {W A B : Type 0} (m : Action W A) (f : A → Action W B) {s t : State W} where
  pub >>=-returns : {a : A} → m s ≡ returns a t → (m >>= f) s ≡ f a t
  >>=-returns e = ap (λ r. after r f) e

  pub >>=-fails : m s ≡ fails t → (m >>= f) s ≡ fails t
  >>=-fails e = ap (λ r. after r f) e

-- A postcondition passes through a bind, and can be weakened.
module _ {W A B : Type 0} (P : A → State W → Type 0) (P' : B → State W → Type 0)
    (Q : State W → Type 0) where
  pub Ensures-after :
      (r : Outcome W A) (f : A → Action W B)
      → Ensures P Q r
      → ((a : A) (t : State W) → P a t → Ensures P' Q (f a t))
      → Ensures P' Q (after r f)
  Ensures-after (returns a t) f h k = k a t h
  Ensures-after (fails t) f h k = h
  Ensures-after stuck f h k = h

module _ {W A : Type 0} (P P' : A → State W → Type 0) (Q Q' : State W → Type 0) where
  pub Ensures-weaken :
      (r : Outcome W A)
      → Ensures P Q r
      → ((a : A) (t : State W) → P a t → P' a t)
      → ((t : State W) → Q t → Q' t)
      → Ensures P' Q' r
  Ensures-weaken (returns a t) h p q = p a t h
  Ensures-weaken (fails t) h p q = q t h
  Ensures-weaken stuck h p q = h
