-- ===== src/Os/Tidy.antt =====
-- Which descriptors and output streams are open, and how the calls change that.
use xfer.Base.Int.{ℤ, pos, negsuc}
use xfer.Base.{
  ℕ, zero, suc, ◌≡◌, ◌∙◌, Bool, true, false, List, [], ◌∷◌, Option, none, some, if◌then◌else◌,
}
use xfer.Os.{Os, Fd, FilePath, Reply, done, failed}
use xfer.Os.Action.{
  Action, State, Outcome, returns, fails, stuck, attempted, attempt, call, gets, modify, pure,
  throw, fail, after, ErrorCode, ◌>>=◌,
}
use xfer.Os.Sockets.{Table, IsNewFd, with_fd, without_fd}

module _ (os : Os) (opened streams : os.World → Table) where
  abbrev pub IsSame : os.World → os.World → Type 0
  IsSame w w' = (opened w' ≡ opened w) × (streams w' ≡ streams w)

  -- A stream that opens is one that was not open. One that does not open changes nothing.
  abbrev pub IsNewStream : os.World → Option ℕ × os.World → Type 0
  IsNewStream w (some h, w') = (streams w h ≡ false) × (streams w' ≡ with_fd h (streams w))
  IsNewStream w (none, w') = streams w' ≡ streams w

  -- The calls that open and close are `open`, `close`, and those of `std::ofstream`. `opened` has the
  -- descriptors that the program handles itself, and not those inside streams.
  pub record IsTidy : Type 0 where
    pub send_lem : (fd : Fd) (bytes : List ℕ) (w : os.World) → IsSame w (os.send fd bytes w).1
    pub recv_lem : (fd : Fd) (len : ℕ) (w : os.World) → IsSame w (os.recv fd len w).1
    pub sendfile_lem :
        (fd : Fd) (h offset want : ℕ) (w : os.World) → IsSame w (os.sendfile fd h offset want w).1
    pub pread_lem : (h want offset : ℕ) (w : os.World) → IsSame w (os.pread h want offset w).1
    pub create_directories_lem :
        (path : FilePath) (w : os.World) → IsSame w (os.create_directories path w)
    pub write_lem :
        (stream : ℕ) (bytes : List ℕ) (w : os.World) → IsSame w (os.write stream bytes w).1
    pub open_read_lem : (path : FilePath) (w : os.World) → IsNewFd opened w (os.open_read path w)
    pub open_read_streams :
        (path : FilePath) (w : os.World) → streams (os.open_read path w).1 ≡ streams w
    pub close_lem : (h : ℕ) (w : os.World) → opened (os.close h w) ≡ without_fd h (opened w)
    pub close_streams : (h : ℕ) (w : os.World) → streams (os.close h w) ≡ streams w
    pub open_trunc_lem : (path : FilePath) (w : os.World) → IsNewStream w (os.open_trunc path w)
    pub open_trunc_fds :
        (path : FilePath) (w : os.World) → opened (os.open_trunc path w).1 ≡ opened w
    pub close_stream_lem :
        (h : ℕ) (w : os.World) → streams (os.close_stream h w).1 ≡ without_fd h (streams w)
    pub close_stream_fds : (h : ℕ) (w : os.World) → opened (os.close_stream h w).1 ≡ opened w

  module _ (fds files : Table) where
    -- Just these descriptors and streams are open.
    abbrev pub HasOpen : os.World → Type 0
    HasOpen w = (opened w ≡ fds) × (streams w ≡ files)

    -- However the call comes back, just these are open.
    abbrev pub LeavesOpen : {A : Type 0} → Outcome os.World A → Type 0
    LeavesOpen (returns a t) = HasOpen t.world
    LeavesOpen (fails t) = HasOpen t.world
    LeavesOpen stuck = Unit {0}

    pub IsSame-HasOpen : (w w' : os.World) → IsSame w w' → HasOpen w → HasOpen w'
    IsSame-HasOpen w w' (e, e') (h, h') = (e ∙ h, e' ∙ h')

    -- A call that finds just these open leaves just these open.
    pub record KeepsOpen {A : Type 0} (m : Action os.World A) : Type 0 where
      pub leaves : (s : State os.World) → HasOpen s.world → LeavesOpen (m s)

-- How the predicate passes through the parts of a function.
module _ {os : Os} {opened streams : os.World → Table} {fds files : Table} where
  pub KeepsOpen-pure : {A : Type 0} (a : A) → KeepsOpen os opened streams fds files (pure a)
  KeepsOpen-pure a = record { leaves = λ s h. h }

  pub KeepsOpen-throw :
      (A : Type 0) (e : ErrorCode) → KeepsOpen os opened streams fds files {A = A} (throw e)
  KeepsOpen-throw A e = record { leaves = λ s h. h }

  pub KeepsOpen-fail : (A : Type 0) → KeepsOpen os opened streams fds files {A = A} fail
  KeepsOpen-fail A = record { leaves = λ s h. h }

  pub KeepsOpen-stuck : (A : Type 0) → KeepsOpen os opened streams fds files {A = A} (λ s. stuck)
  KeepsOpen-stuck A = record { leaves = λ s h. tt }

  pub KeepsOpen-gets :
      {A : Type 0} (f : os.World → A) → KeepsOpen os opened streams fds files (gets f)
  KeepsOpen-gets f = record { leaves = λ s h. h }

  pub KeepsOpen-call :
      {A : Type 0} (f : os.World → A × os.World)
      → ((w : os.World) → IsSame os opened streams w (f w).1)
      → KeepsOpen os opened streams fds files (call f)
  KeepsOpen-call f same = record {
    leaves = λ s h. ((same s.world).0 ∙ h.0, (same s.world).1 ∙ h.1);
  }

  pub KeepsOpen-modify :
      (f : os.World → os.World)
      → ((w : os.World) → IsSame os opened streams w (f w))
      → KeepsOpen os opened streams fds files (modify f)
  KeepsOpen-modify f same = record {
    leaves = λ s h. ((same s.world).0 ∙ h.0, (same s.world).1 ∙ h.1);
  }

  pub KeepsOpen-bind :
      {A B : Type 0} (m : Action os.World A) (f : A → Action os.World B)
      → KeepsOpen os opened streams fds files m
      → ((a : A) → KeepsOpen os opened streams fds files (f a))
      → KeepsOpen os opened streams fds files (m >>= f)
  KeepsOpen-bind {A} {B} m f h k = record {
    leaves = λ s before. continued (m s) (h.leaves s before);
  }
    where
      continued :
          (r : Outcome os.World A)
          → LeavesOpen os opened streams fds files r
          → LeavesOpen os opened streams fds files (after r f)
      continued (returns a t) left = (k a).leaves t left
      continued (fails t) left = left
      continued stuck left = left

  pub KeepsOpen-attempt :
      {A : Type 0} (m : Action os.World A)
      → KeepsOpen os opened streams fds files m
      → KeepsOpen os opened streams fds files (attempt m)
  KeepsOpen-attempt {A} m h = record { leaves = λ s before. kept (m s) (h.leaves s before) }
    where
      kept :
          (r : Outcome os.World A)
          → LeavesOpen os opened streams fds files r
          → LeavesOpen os opened streams fds files (attempted r)
      kept (returns a t) left = left
      kept (fails t) left = left
      kept stuck left = left

  module _ {A : Type 0} where
    pub KeepsOpen-if :
        (b : Bool) (m k : Action os.World A)
        → KeepsOpen os opened streams fds files m
        → KeepsOpen os opened streams fds files k
        → KeepsOpen os opened streams fds files (if b then m else k)
    KeepsOpen-if true m k h h' = h
    KeepsOpen-if false m k h h' = h'

    pub KeepsOpen-bool :
        (b : Bool) (m k : Action os.World A)
        → KeepsOpen os opened streams fds files m
        → KeepsOpen os opened streams fds files k
        → KeepsOpen os opened streams fds files (elim b [ true ↦ m | false ↦ k ])
    KeepsOpen-bool true m k h h' = h
    KeepsOpen-bool false m k h h' = h'

    pub KeepsOpen-nat :
        (n : ℕ) (m : Action os.World A) (f : ℕ → Action os.World A)
        → KeepsOpen os opened streams fds files m
        → ((k : ℕ) → KeepsOpen os opened streams fds files (f k))
        → KeepsOpen os opened streams fds files (elim n [ zero ↦ m | suc k ↦ f k ])
    KeepsOpen-nat zero m f h h' = h
    KeepsOpen-nat (suc k) m f h h' = h' k

    pub KeepsOpen-int :
        (n : ℤ) (m k : Action os.World A) (f : ℕ → Action os.World A)
        → KeepsOpen os opened streams fds files m
        → KeepsOpen os opened streams fds files k
        → ((i : ℕ) → KeepsOpen os opened streams fds files (f i))
        → KeepsOpen os opened streams fds files
            (elim n [ negsuc i ↦ m | pos zero ↦ k | pos (suc i) ↦ f i ])
    KeepsOpen-int (negsuc i) m k f h h' h'' = h
    KeepsOpen-int (pos zero) m k f h h' h'' = h'
    KeepsOpen-int (pos (suc i)) m k f h h' h'' = h'' i

    pub KeepsOpen-list :
        (xs : List ℕ) (m : Action os.World A) (f : ℕ → List ℕ → Action os.World A)
        → KeepsOpen os opened streams fds files m
        → ((b : ℕ) (bytes : List ℕ) → KeepsOpen os opened streams fds files (f b bytes))
        → KeepsOpen os opened streams fds files (elim xs [ [] ↦ m | b ∷ bytes ↦ f b bytes ])
    KeepsOpen-list [] m f h h' = h
    KeepsOpen-list (b ∷ bytes) m f h h' = h' b bytes

    pub KeepsOpen-reply :
        {B : Type 0} (r : Reply B) (m : ℕ → Action os.World A) (f : B → Action os.World A)
        → ((e : ℕ) → KeepsOpen os opened streams fds files (m e))
        → ((a : B) → KeepsOpen os opened streams fds files (f a))
        → KeepsOpen os opened streams fds files (elim r [ failed e ↦ m e | done a ↦ f a ])
    KeepsOpen-reply (failed e) m f h h' = h e
    KeepsOpen-reply (done a) m f h h' = h' a
