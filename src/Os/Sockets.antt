-- ===== src/Os/Sockets.antt =====
-- The kernel's calls that make and end connections, and `getaddrinfo`. They are parameters.
use mathlib.Core.Path.{fun_ext}
use xfer.Base.{
  inl, inr, refl, Bool-cases, ==_iff, ℕ, Bool, false, true, List, ◌==◌, ◌≡◌, if◌then◌else◌,
}
use xfer.Base.Int.{ℤ}
use xfer.Os.{Os, Fd, Reply, done, failed}

-- `SO_REUSEADDR`, `IPV6_V6ONLY` and `TCP_NODELAY`.
pub data SocketOption : Type 0 where
  reuse_addr v6_only no_delay : SocketOption

pub record Sockets (World : Type 0) : Type 1 where
  -- An entry of the list that `getaddrinfo` gives.
  pub Address : Type 0
  -- `getaddrinfo(host, std::to_string(port), {AF_UNSPEC, SOCK_STREAM}, &info)`: the list, empty when
  -- the call fails.
  pub resolve_host : List ℕ → ℤ → World → List Address × World
  -- `socket(p->ai_family, p->ai_socktype, p->ai_protocol)`
  pub socket_for : Address → World → Reply ℕ × World
  -- `connect(fd, p->ai_addr, p->ai_addrlen)`
  pub connect : ℕ → Address → World → Reply (Unit {0}) × World
  -- `socket(AF_INET6, SOCK_STREAM, 0)`
  pub socket_inet6 : World → Reply ℕ × World
  pub set_option : Fd → SocketOption → Bool → World → Reply (Unit {0}) × World
  -- `bind` to any address, at a port of 16 bits.
  pub bind : ℕ → ℕ → World → Reply (Unit {0}) × World
  pub listen : ℕ → ℕ → World → Reply (Unit {0}) × World
  pub accept : Fd → World → Reply ℕ × World
  pub errno : World → ℕ

-- Whether a number is an open descriptor.
abbrev pub Table : Type 0
Table = ℕ → Bool

abbrev pub with_fd : ℕ → Table → Table
with_fd h table k = if k == h then true else table k

abbrev pub without_fd : ℕ → Table → Table
without_fd h table k = if k == h then false else table k

-- A descriptor that is opened and closed leaves no trace.
pub without_fd-with_fd :
    (base : Table) (h : ℕ) → base h ≡ false → without_fd h (with_fd h base) ≡ base
without_fd-with_fd base h new = fun_ext λ k. elim (Bool-cases (k == h)) [
  | inl e ↦ rw (e, (==_iff k h).0 e, new) refl
  | inr e ↦ rw e refl
]

module _ {World : Type 0} (opened : World → Table) where
  -- A call that gives a descriptor gives one that was not open, and opens no other. A call that fails
  -- opens and closes nothing.
  abbrev pub IsNewFd : World → Reply ℕ × World → Type 0
  IsNewFd w (done h, w') = (opened w h ≡ false) × (opened w' ≡ with_fd h (opened w))
  IsNewFd w (failed e, w') = opened w' ≡ opened w

-- What the calls do to the descriptors that are open.
module _ (os : Os) (sockets : Sockets os.World) (opened : os.World → Table) where
  pub record IsTable : Type 0 where
    pub close_lem : (h : ℕ) (w : os.World) → opened (os.close h w) ≡ without_fd h (opened w)
    pub resolve_lem :
        (host : List ℕ) (port : ℤ) (w : os.World)
        → opened (sockets.resolve_host host port w).1 ≡ opened w
    pub socket_for_lem :
        (a : sockets.Address) (w : os.World) → IsNewFd opened w (sockets.socket_for a w)
    pub socket_inet6_lem : (w : os.World) → IsNewFd opened w (sockets.socket_inet6 w)
    pub accept_lem : (fd : Fd) (w : os.World) → IsNewFd opened w (sockets.accept fd w)
    pub connect_lem :
        (h : ℕ) (a : sockets.Address) (w : os.World) → opened (sockets.connect h a w).1 ≡ opened w
    pub set_option_lem :
        (fd : Fd) (option : SocketOption) (on : Bool) (w : os.World)
        → opened (sockets.set_option fd option on w).1 ≡ opened w
    pub bind_lem : (h port : ℕ) (w : os.World) → opened (sockets.bind h port w).1 ≡ opened w
    pub listen_lem :
        (h backlog : ℕ) (w : os.World) → opened (sockets.listen h backlog w).1 ≡ opened w
