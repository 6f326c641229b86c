-- ===== src/Net.antt =====
-- src/net/socket.h and src/net/socket.cpp: the socket wrapper. A call on the descriptor is a call of
-- the kernel, a parameter.
pub mod Transfer
pub mod RecvAll
pub mod SendAll
pub mod Exchange
pub mod Dialogue
pub mod Prefix
pub mod Chunk
pub mod SendFromFd
pub mod Portable
pub mod Branches
pub mod Mac
pub mod Lifetime
pub mod Tidy
mod Examples
use xfer.Base.{◌≡◌, refl, not, ◌&&◌, Bool, none, some, ltb, if◌then◌else◌}
use xfer.Base.{
  ℕ, zero, suc, ◌+◌, ◌-◌, ◌%◌, ◌^◌, true, false, List, [], ◌∷◌, ◌++◌, length, drop, ◌==◌,
}
use xfer.Base.Int.{ℤ, pos, negsuc, to_int}
use xfer.Os.{Os, Fd, Reply, done, failed}
use xfer.Os.Action.{
  Action, State, Outcome, returns, fails, stuck, pure, ◌>>=◌, fail, throw, call, system,
  connection_reset, io_error, bad_file_descriptor,
}

pub record Socket : Type 0 where
  pub fd : Fd

abbrev pub is_valid : Socket → Bool
is_valid sock = elim sock.fd [ none ↦ false | some fd ↦ true ]

-- `EINTR`
abbrev pub eintr : ℕ
eintr = 4

-- `EPIPE`
abbrev pub epipe : ℕ
epipe = 32

-- `1ULL << 30`
abbrev pub sendfile_max : ℕ
sendfile_max = 1073741824

-- `len -= n` on `size_t`.
abbrev pub size_sub : ℕ → ℕ → ℕ
size_sub len n = (len + 2 ^ 64 - n) % 2 ^ 64

module _ (os : Os) where
  -- A write that failed came with a signal that ends the program.
  abbrev pub is_killed : ℕ → Bool
  is_killed e = not os.ignores_sigpipe && (e == epipe)

  -- `ec = system e; return false;` behind such a write.
  abbrev pub refuse : {A : Type 0} → ℕ → Action os.World A
  refuse e = elim (is_killed e) [ true ↦ λ s. stuck | false ↦ throw (system e) ]

  pub refuse_lem :
      {A : Type 0} → os.ignores_sigpipe ≡ true → (e : ℕ) → refuse {A = A} e ≡ throw (system e)
  refuse_lem h e = rw h refl

  send_answer : State os.World → Reply ℕ × os.World → Outcome os.World ℤ
  send_answer s (done n, w) = returns (to_int n) (record s { world = w })
  send_answer s (failed e, w) = elim (is_killed e) [
    | true ↦ stuck
    | false ↦ returns (negsuc 0) (record { world = w; ec = system e })
  ]

  -- `Send`: the count as an `int`, or -1 with `ec` set.
  pub send : Socket → List ℕ → Action os.World ℤ
  send sock bytes s = send_answer s (os.send sock.fd bytes s.world)

  recv_answer : State os.World → Reply (List ℕ) × os.World → Outcome os.World (ℤ × List ℕ)
  recv_answer s (done bytes, w) = returns (to_int (length bytes), bytes) (record s { world = w })
  recv_answer s (failed e, w) = returns (negsuc 0, []) (record { world = w; ec = system e })

  -- `Recv`: the count as an `int` with the bytes that were stored, or -1 with `ec` set.
  pub recv : Socket → ℕ → Action os.World (ℤ × List ℕ)
  recv sock len s = recv_answer s (os.recv sock.fd len s.world)

  -- The loop of `SendAll` over the bytes that are left. Each round that goes on takes one at least.
  send_loop : Socket → ℕ → List ℕ → Action os.World (Unit {0})
  send_loop sock fuel [] = pure tt
  send_loop sock zero (b ∷ p) = λ s. stuck
  send_loop sock (suc fuel) (b ∷ p) = do
    n ← send sock (b ∷ p)
    elim n [
      | negsuc _ ↦ fail
      | pos zero ↦ fail
      | pos (suc m) ↦ send_loop sock fuel (drop (suc m) (b ∷ p))
    ]

  unfoldable pub send_all : Socket → List ℕ → Action os.World (Unit {0})
  unfolding send_loop send send_answer
  send_all sock bytes = send_loop sock (length bytes) bytes

  -- The loop of `RecvAll`: `len` bytes are missing, and `out` is what was stored.
  recv_loop : Socket → ℕ → ℕ → List ℕ → Action os.World (List ℕ)
  recv_loop sock fuel zero out = pure out
  recv_loop sock zero (suc len) out = λ s. stuck
  recv_loop sock (suc fuel) (suc len) out = do
    (n, bytes) ← recv sock (suc len)
    elim n [
      | negsuc _ ↦ fail
      | pos zero ↦ throw connection_reset
      | pos (suc m) ↦ recv_loop sock fuel (size_sub (suc len) (suc m)) (out ++ bytes)
    ]

  unfoldable pub recv_all : Socket → ℕ → Action os.World (List ℕ)
  unfolding recv_loop recv recv_answer
  recv_all sock len = recv_loop sock len len []

  -- The loop of `SendFromFd` on Linux. A call that was interrupted is made again, so the rounds have
  -- no bound of their own: `fuel` is the caller's.
  pub sendfile_loop : Socket → ℕ → ℕ → ℕ → ℕ → Action os.World ℕ
  sendfile_loop sock source_fd fuel zero off = pure off
  sendfile_loop sock source_fd zero (suc remaining) off = λ s. stuck
  sendfile_loop sock source_fd (suc fuel) (suc remaining) off = do
    let want = if ltb sendfile_max (suc remaining) then sendfile_max else suc remaining
    reply ← call (os.sendfile sock.fd source_fd off want)
    elim reply [
      | failed e ↦ elim (e == eintr) [
        | true ↦ sendfile_loop sock source_fd fuel (suc remaining) off
        | false ↦ refuse e
      ]
      | done zero ↦ throw io_error
      | done (suc m) ↦
          sendfile_loop sock source_fd fuel (size_sub (suc remaining) (suc m))
            ((off + suc m) % 2 ^ 64)
    ]

  -- `SendFromFd`: the new value of `offset_in_out`. Its callers drop that value when it returns false.
  unfoldable pub send_from_fd : Socket → ℕ → ℕ → ℕ → ℕ → Action os.World ℕ
  unfolding sendfile_loop
  send_from_fd sock source_fd fuel offset len =
      if is_valid sock
      then sendfile_loop sock source_fd fuel len offset
      else throw bad_file_descriptor
