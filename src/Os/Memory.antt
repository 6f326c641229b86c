-- ===== src/Os/Memory.antt =====
-- A small machine that meets the laws: it moves at most four bytes in a call, and keeps its files in
-- memory. The examples run on it.
pub mod Laws
pub mod Sockets
pub mod Tidy
use xfer.Os.Files.{IsReadable, IsSteady}
use xfer.Base.{take-length, drop-add, take-drop-length}
use xfer.Base.{
  ℕ, ◌+◌, ◌≤◌, ◌<◌, ◌≡◌, refl, ap, subst, ◌≢◌, ◌∙◌, sym, arith, min, Bool, true, false, not, Option,
  none, some,
}
use xfer.Base.{
  List, [], ◌∷◌, ◌++◌, length, length-take, take, drop, take-append-drop, ◌==◌, if◌then◌else◌,
}
use xfer.Os.{Os, Reply, done, failed, FilePath, Fd}
use xfer.Os.Laws.{View, IsConnection, IsReliable, IsDisk, IsRoomy, IsSource, store}

pub record MemoryWorld : Type 0 where
  pub seen : View
  -- The next descriptor or stream.
  pub next : ℕ
  -- Whether a number below the next one is an open descriptor.
  pub table : ℕ → Bool
  -- Whether such a number is an open stream.
  pub stream_table : ℕ → Bool

abbrev pub contents_of : Option (List ℕ) → List ℕ
contents_of none = []
contents_of (some bytes) = bytes

abbrev pub is_some : Option (List ℕ) → Bool
is_some none = false
is_some (some bytes) = true

-- The bytes of the file behind a descriptor.
abbrev pub source_bytes : MemoryWorld → ℕ → List ℕ
source_bytes w = w.seen.reads

abbrev memory_send : Fd → List ℕ → MemoryWorld → Reply ℕ × MemoryWorld
memory_send fd bytes w = (
  done (min 4 (length bytes)),
  record w { seen = record w.seen { sent = w.seen.sent ++ take (min 4 (length bytes)) bytes } },
)

abbrev memory_recv : Fd → ℕ → MemoryWorld → Reply (List ℕ) × MemoryWorld
memory_recv fd len w = (
  done (take (min 4 len) w.seen.incoming),
  record w { seen = record w.seen { incoming = drop (min 4 len) w.seen.incoming } },
)

abbrev open_content : MemoryWorld → Option (List ℕ) → Reply ℕ × MemoryWorld
open_content w none = (failed 2, w)
open_content w (some bytes) = (
  done w.next,
  record w {
    next = w.next + 1;
    table = λ k. if k == w.next then true else w.table k;
    stream_table = λ k. if k == w.next then false else w.stream_table k;
    seen = record w.seen { reads = λ k. if k == w.next then bytes else w.seen.reads k };
  },
)

abbrev memory_open_read : FilePath → MemoryWorld → Reply ℕ × MemoryWorld
memory_open_read p w = open_content w (w.seen.disk p)

abbrev memory_open_trunc : FilePath → MemoryWorld → Option ℕ × MemoryWorld
memory_open_trunc p w = (
  some w.next,
  record w {
    next = w.next + 1;
    table = λ k. if k == w.next then false else w.table k;
    stream_table = λ k. if k == w.next then true else w.stream_table k;
    seen = record w.seen {
      disk = store w.seen.disk p [];
      stream_file = λ h. if h == w.next then some p else w.seen.stream_file h;
    };
  },
)

abbrev append_to : MemoryWorld → List ℕ → Option FilePath → MemoryWorld
append_to w bytes none = w
append_to w bytes (some f) = record w {
  seen = record w.seen { disk = store w.seen.disk f (contents_of (w.seen.disk f) ++ bytes) };
}

abbrev pub memory : Os
memory = record {
  World = MemoryWorld;
  ignores_sigpipe = true;
  send = memory_send;
  recv = memory_recv;
  sendfile = λ out fd offset want w.
      let piece = take (min 4 want) (drop offset (source_bytes w fd)) in
      (done (length piece), record w { seen = record w.seen { sent = w.seen.sent ++ piece } });
  open_read = memory_open_read;
  pread = λ fd want offset w. (done (take (min 4 want) (drop offset (source_bytes w fd))), w);
  close = λ fd w. record w {
    table = λ k. if k == fd then false else w.table k;
    seen = record w.seen { reads = λ k. if k == fd then [] else w.seen.reads k };
  };
  exists = λ p w. is_some (w.seen.disk p);
  is_directory = λ p w. not (is_some (w.seen.disk p));
  is_regular_file = λ p w. is_some (w.seen.disk p);
  file_size = λ p w. min 0xffff_ffff_ffff_fffe (length (contents_of (w.seen.disk p)));
  current_path = λ w. some (b'/' ∷ b'w' ∷ []);
  relative = λ p base w. [];
  walk_directory = λ follow p w. some [];
  create_directories = λ p w. w;
  open_trunc = memory_open_trunc;
  write = λ h bytes w. (true, append_to w bytes (w.seen.stream_file h));
  close_stream =
      λ h w. (true, record w { stream_table = λ k. if k == h then false else w.stream_table k });
}

abbrev pub seen : MemoryWorld → View
seen w = w.seen

abbrev pub same_path : FilePath → FilePath
same_path p = p
