-- ===== src/Os/Memory/Laws.antt =====
-- The laws that the machine in memory keeps.
use xfer.Os.Files.{IsReadable, IsSteady}
use xfer.Base.{take-length, drop-add, take-drop-length}
use xfer.Base.{
  ℕ, ◌+◌, ◌≤◌, ◌<◌, ◌≡◌, refl, ap, subst, ◌≢◌, ◌∙◌, sym, arith, min, Bool, Option, none, some,
}
use xfer.Base.{
  List, [], ◌∷◌, ◌++◌, length, length-take, take, drop, take-append-drop, ◌==◌, if◌then◌else◌,
}
use xfer.Os.{Reply, done, failed, FilePath}
use xfer.Os.Laws.{IsConnection, IsReliable, IsDisk, IsRoomy, IsSource, store}
use xfer.Os.Memory.{
  MemoryWorld, memory, seen, same_path, source_bytes, contents_of, open_content, append_to,
}

abbrev value_or : {A : Type 0} → A → Reply A → A
value_or d (done a) = a
value_or d (failed e) = d

-- A claim about the value and the world of an answer, moved along the equation of the answers.
along :
    {A : Type 0} (P : A → MemoryWorld → Type 0) {a b : A} {w w' : MemoryWorld}
    → ◌≡◌ {A = Reply A × MemoryWorld} (done a, w) (done b, w')
    → P a w
    → P b w'
along P {a} e h = subst (λ (r : Reply _ × MemoryWorld). P (value_or a r.0) r.1) e h

never :
    {A : Type 0} {a : A} {n : ℕ} {w w' : MemoryWorld}
    → ◌≢◌ {A = Reply A × MemoryWorld} (done a, w) (failed n, w')
never e = cc (ap (λ (r : Reply _ × MemoryWorld). r.0) e)

take_nothing : (len : ℕ) (bytes : List ℕ) → 0 < len → take (min 4 len) bytes ≡ [] → bytes ≡ []
take_nothing len [] h e = refl
take_nothing len (b ∷ bytes) h e =
    absurd (omega (arith, length-take (min 4 len) (b ∷ bytes), ap length e))

pub memory-IsConnection : (fd : ℕ) → IsConnection memory fd seen
memory-IsConnection fd = record {
  ignored = refl;
  send_done = λ bytes w n w' e.
      along
        (λ k u.
          (k ≤ length bytes) × (seen u ≡ record w.seen { sent = w.seen.sent ++ take k bytes }))
        e (omega arith, refl);
  send_failed = λ bytes w n w' e. absurd (never e);
  recv_done = λ len w bytes w' e.
      along
        (λ xs u.
          (length xs ≤ len)
          × (w.seen.incoming ≡ xs ++ u.seen.incoming)
          × (u.seen ≡ record w.seen { incoming = u.seen.incoming }))
        e
        (
          omega (arith, length-take (min 4 len) w.seen.incoming),
          sym (take-append-drop (min 4 len) w.seen.incoming),
          refl,
        );
  recv_end = λ len w w' e h.
      take_nothing len w.seen.incoming h
        (along (λ xs u. take (min 4 len) w.seen.incoming ≡ xs) e refl);
  recv_failed = λ len w n w' e. absurd (never e);
}

pub memory-IsReliable : (fd : ℕ) → IsReliable memory fd seen
memory-IsReliable fd = record {
  send_takes = λ b bytes w. (_, _, refl, omega arith);
  send_succeeds = λ bytes w n w' e. never e;
  recv_takes = λ len w. (_, _, refl);
}

some_or : Option ℕ → ℕ → ℕ
some_or none d = d
some_or (some n) d = n

Opened : (p : FilePath) (w : MemoryWorld) → ℕ → MemoryWorld → Type 0
Opened p w h u = seen u ≡ record w.seen {
  disk = store w.seen.disk p [];
  stream_file = λ k. if k == h then some p else w.seen.stream_file k;
}

append_lem :
    (w : MemoryWorld) (bytes f contents : List ℕ) (owner : Option FilePath)
    → owner ≡ some f
    → w.seen.disk f ≡ some contents
    → seen (append_to w bytes owner)
      ≡ record w.seen { disk = store w.seen.disk f (contents ++ bytes) }
append_lem w bytes f contents none e holds = cc
append_lem w bytes f contents (some g) e holds =
    subst
      (λ k.
        seen (append_to w bytes (some k))
        ≡ record w.seen { disk = store w.seen.disk f (contents ++ bytes) })
      (cc (e))
      (ap (λ c. record w.seen { disk = store w.seen.disk f (contents_of c ++ bytes) }) holds)

pub memory-IsDisk : IsDisk memory seen same_path
unfolding some_or Opened
memory-IsDisk = record {
  open_done =
      λ p w h w' e. subst (λ (r : Option ℕ × MemoryWorld). Opened p w (some_or r.0 h) r.1) e refl;
  open_failed = λ p w w' e. absurd (cc (ap (λ (r : Option ℕ × MemoryWorld). r.0) e));
  write_done = λ h bytes w w' f contents e owns holds.
      ap (λ (r : Bool × MemoryWorld). (r.1).seen) (sym e)
      ∙ append_lem w bytes f contents (w.seen.stream_file h) owns holds;
  write_failed = λ h bytes w w' f e owns. absurd (cc (ap (λ (r : Bool × MemoryWorld). r.0) e));
  close_done = λ h w w' e. ap (λ (r : Bool × MemoryWorld). (r.1).seen) (sym e);
  close_failed = λ h w w' f e owns. absurd (cc (ap (λ (r : Bool × MemoryWorld). r.0) e));
  create_directories_lem = λ p w. refl;
}

pub memory-IsRoomy : IsRoomy memory seen same_path
memory-IsRoomy = record {
  opens = λ p w. (_, _, refl);
  flushes = λ h w. refl;
  writes = λ h bytes w. (_, refl);
}

pub memory-IsSource : IsSource memory source_bytes
memory-IsSource = record {
  pread_done = λ fd want offset w bytes w' e.
      let rest = drop offset (source_bytes w fd) in
      along
        (λ xs u.
          (length xs ≤ want)
          × (drop offset (source_bytes w fd) ≡ xs ++ drop (offset + length xs) (source_bytes w fd))
          × (source_bytes u ≡ source_bytes w))
        e
        (
          omega (arith, length-take (min 4 want) rest),
          take-drop-length (min 4 want) rest
              ∙ ap (λ ys. take (min 4 want) rest ++ ys)
                  (sym (drop-add offset (length (take (min 4 want) rest)) (source_bytes w fd))),
          refl,
        );
  pread_end = λ fd want offset w w' e h.
      take_nothing want (drop offset (source_bytes w fd)) h
        (along (λ xs u. take (min 4 want) (drop offset (source_bytes w fd)) ≡ xs) e refl);
}

-- What opening a file that is there shows.
OpenedReads : FilePath → MemoryWorld → Reply ℕ → MemoryWorld → Type 0
OpenedReads p w (done h) u =
    (content : List ℕ) × (w.seen.disk p ≡ some content)
    × (seen u ≡ record w.seen { reads = λ k. if k == h then content else w.seen.reads k })
OpenedReads p w (failed e) u = w.seen.disk p ≡ none

open_content-OpenedReads :
    (p : FilePath) (w : MemoryWorld) (c : Option (List ℕ))
    → w.seen.disk p ≡ c
    → let (r, u) = open_content w c in OpenedReads p w r u
unfolding OpenedReads
open_content-OpenedReads p w none e = e
open_content-OpenedReads p w (some content) e = (content, e, refl)

moved :
    {A : Type 0} (P : Reply A → MemoryWorld → Type 0) {a b : Reply A} {w w' : MemoryWorld}
    → ◌≡◌ {A = Reply A × MemoryWorld} (a, w) (b, w')
    → P a w
    → P b w'
moved P e h = subst (λ (r : Reply _ × MemoryWorld). P r.0 r.1) e h

open_content_there :
    (w : MemoryWorld) (c : Option (List ℕ)) (content : List ℕ)
    → c ≡ some content
    → (h : ℕ) × (w' : MemoryWorld) × (open_content w c ≡ (done h, w'))
open_content_there w none content e = absurd (cc (e))
open_content_there w (some bytes) content e = (_, _, refl)

pub memory-IsReadable : (fd : ℕ) → IsReadable memory fd seen same_path
unfolding OpenedReads
memory-IsReadable fd = record {
  open_read_done = λ path w h w' e.
      moved (OpenedReads path w) e (open_content-OpenedReads path w (w.seen.disk path) refl);
  close_lem = λ h w. refl;
  pread_lem = λ h want offset w. refl;
  sendfile_done = λ h offset want w n w' e.
      let rest = drop offset (source_bytes w h) in
      along
        (λ k u.
          (k ≤ want)
          × (k ≤ length rest)
          × (seen u ≡ record w.seen { sent = w.seen.sent ++ take k rest }))
        e
        (
          omega (arith, length-take (min 4 want) rest),
          omega (arith, length-take (min 4 want) rest),
          ap (λ bytes. record w.seen { sent = w.seen.sent ++ bytes })
              (take-length (min 4 want) rest),
        );
  sendfile_failed = λ h offset want w n w' e. absurd (never e);
}

pub memory-IsSteady : (fd : ℕ) → IsSteady memory fd seen same_path
memory-IsSteady fd = record {
  open_read_there = λ path w content e. open_content_there w (w.seen.disk path) content e;
  pread_succeeds = λ h want offset w e w' eq. never eq;
  sendfile_succeeds = λ h offset want w e w' eq. never eq;
  sendfile_end = λ h offset want w w' e positive.
      let rest = drop offset (source_bytes w h) in
      take_nothing want rest positive (
        no_bytes (take (min 4 want) rest)
          (along (λ k u. length (take (min 4 want) rest) ≡ k) e refl));
}
  where
    no_bytes : (xs : List ℕ) → length xs ≡ 0 → xs ≡ []
    no_bytes [] h = refl
    no_bytes (x ∷ xs) h = absurd (omega arith)
