-- ===== src/Os/Memory/Sockets.antt =====
-- The machine in memory, with calls that make connections. Nobody answers at the first address of a
-- host.
use mathlib.Core.Path.{fun_ext}
use xfer.Base.{ℕ, ◌+◌, ◌≡◌, refl, arith, Bool, true, false, ◌&&◌, [], ◌∷◌, ltb, ◌==◌, if◌then◌else◌}
use xfer.Os.{Reply, done, failed}
use xfer.Os.Sockets.{Sockets, Table, IsTable, with_fd, without_fd}
use xfer.Os.Memory.{MemoryWorld, memory}

abbrev pub new_fd : MemoryWorld → Reply ℕ × MemoryWorld
new_fd w = (
  done w.next,
  record w {
    next = w.next + 1;
    table = λ k. if k == w.next then true else w.table k;
    stream_table = λ k. if k == w.next then false else w.stream_table k;
  },
)

abbrev pub memory_sockets : Sockets MemoryWorld
memory_sockets = record {
  Address = ℕ;
  resolve_host = λ host port w. (1 ∷ 2 ∷ [], w);
  socket_for = λ a w. new_fd w;
  connect = λ h a w. (if a == 1 then failed 111 else done tt, w);
  socket_inet6 = new_fd;
  set_option = λ fd option on w. (done tt, w);
  bind = λ h port w. (done tt, w);
  listen = λ h backlog w. (done tt, w);
  accept = λ fd w. new_fd w;
  errno = λ w. 111;
}

abbrev pub opened : MemoryWorld → Table
opened w k = ltb k w.next && w.table k

pub new_fd_table :
    (next : ℕ) (table : Table)
    → (λ k. ltb k (next + 1) && (if k == next then true else table k))
      ≡ with_fd next (λ k. ltb k next && table k)
new_fd_table next table = fun_ext λ k. ground arith

pub close_table :
    (next h : ℕ) (table : Table)
    → (λ k. ltb k next && (if k == h then false else table k))
      ≡ without_fd h (λ k. ltb k next && table k)
close_table next h table = fun_ext λ k. ground arith

pub new_fd_free : (next : ℕ) (b : Bool) → (ltb next next && b) ≡ false
new_fd_free next b = ground arith

pub memory-IsTable : IsTable memory memory_sockets opened
memory-IsTable = record {
  close_lem = λ h w. close_table w.next h w.table;
  resolve_lem = λ host port w. refl;
  socket_for_lem = λ a w. (new_fd_free w.next (w.table w.next), new_fd_table w.next w.table);
  socket_inet6_lem = λ w. (new_fd_free w.next (w.table w.next), new_fd_table w.next w.table);
  accept_lem = λ fd w. (new_fd_free w.next (w.table w.next), new_fd_table w.next w.table);
  connect_lem = λ h a w. refl;
  set_option_lem = λ fd option on w. refl;
  bind_lem = λ h port w. refl;
  listen_lem = λ h backlog w. refl;
}
