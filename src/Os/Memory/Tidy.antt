-- ===== src/Os/Memory/Tidy.antt =====
-- What the machine in memory opens and closes.
use mathlib.Core.Path.{fun_ext}
use xfer.Base.{
  ℕ, ◌+◌, ◌≡◌, refl, arith, false, ◌&&◌, List, Option, none, some, ltb, ◌==◌, if◌then◌else◌,
}
use xfer.Os.{FilePath}
use xfer.Os.Sockets.{Table, IsNewFd}
use xfer.Os.Tidy.{IsTidy}
use xfer.Os.Memory.{MemoryWorld, memory, open_content, append_to}
use xfer.Os.Memory.Sockets.{opened, new_fd, new_fd_table, new_fd_free, close_table}

abbrev pub streams : MemoryWorld → Table
streams w k = ltb k w.next && w.stream_table k

-- A number that is not opened is still not open.
other_table :
    (next : ℕ) (table : Table)
    → ◌≡◌ {A = Table}
        (λ k. ltb k (next + 1) && (if k == next then false else table k))
        (λ k. ltb k next && table k)
other_table next table = fun_ext λ k. ground arith

open_content-IsNewFd : (w : MemoryWorld) (c : Option (List ℕ)) → IsNewFd opened w (open_content w c)
open_content-IsNewFd w none = refl
open_content-IsNewFd w (some bytes) =
    (new_fd_free w.next (w.table w.next), new_fd_table w.next w.table)

open_content-streams :
    (w : MemoryWorld) (c : Option (List ℕ)) → streams (open_content w c).1 ≡ streams w
open_content-streams w none = refl
open_content-streams w (some bytes) = other_table w.next w.stream_table

pub new_fd-streams : (w : MemoryWorld) → streams (new_fd w).1 ≡ streams w
new_fd-streams w = other_table w.next w.stream_table

append_to-opened :
    (w : MemoryWorld) (bytes : List ℕ) (owner : Option FilePath)
    → (opened (append_to w bytes owner) ≡ opened w)
      × (streams (append_to w bytes owner) ≡ streams w)
append_to-opened w bytes none = (refl, refl)
append_to-opened w bytes (some f) = (refl, refl)

pub memory-IsTidy : IsTidy memory opened streams
memory-IsTidy = record {
  send_lem = λ fd bytes w. (refl, refl);
  recv_lem = λ fd len w. (refl, refl);
  sendfile_lem = λ fd h offset want w. (refl, refl);
  pread_lem = λ h want offset w. (refl, refl);
  create_directories_lem = λ path w. (refl, refl);
  write_lem = λ stream bytes w. append_to-opened w bytes (w.seen.stream_file stream);
  open_read_lem = λ path w. open_content-IsNewFd w (w.seen.disk path);
  open_read_streams = λ path w. open_content-streams w (w.seen.disk path);
  close_lem = λ h w. close_table w.next h w.table;
  close_streams = λ h w. refl;
  open_trunc_lem =
      λ path w. (new_fd_free w.next (w.stream_table w.next), new_fd_table w.next w.stream_table);
  open_trunc_fds = λ path w. other_table w.next w.table;
  close_stream_lem = λ h w. close_table w.next h w.stream_table;
  close_stream_fds = λ h w. refl;
}
