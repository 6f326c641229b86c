-- ===== src/Progress.antt =====
-- src/common/progress.h and src/common/progress.cpp: the progress bar. The clock, whose times are
-- floating-point numbers, the terminal, and the text that `snprintf` formats are parameters.
pub mod Render
pub mod Finished
mod Examples
use xfer.Base.{
  ℕ, ◌+◌, ◌%◌, ◌^◌, Bool, true, false, not, ◌||◌, List, [], ◌∷◌, ◌++◌, length, take, Option, none,
  some, ltb, if◌then◌else◌,
}

pub record Console : Type 1 where
  pub World : Type 0
  -- A `double` of seconds.
  pub Time : Type 0
  -- `clock_gettime(CLOCK_MONOTONIC, &ts)`
  pub now_sec : World → Time × World
  -- `isatty(fileno(stderr)) != 0`
  pub is_tty : World → Bool
  -- `now - last_render_ < 0.1`, for `last_render_` and `now`.
  pub is_early : Time → Time → Bool
  -- What `snprintf` prints when there is room for it, for the label, the bytes that are done, the total,
  -- the start and the time now; nothing when it fails.
  pub format_line : List ℕ → ℕ → ℕ → Time → Time → Option (List ℕ)
  -- Bytes that are written to `stderr`.
  pub print : List ℕ → World → World

-- `char line[512]` after `snprintf`, up to the NUL.
abbrev pub line_buffer : List ℕ → List ℕ
line_buffer text = take 511 text ++ (0 ∷ [])

-- The `n` bytes at `line`. Nothing is known of them beyond the end of the array.
pub read_line : List ℕ → ℕ → Option (List ℕ)
read_line text n = if ltb 512 n then none else some (take n (line_buffer text))

-- `if (final_line) std::fputc('\n', stderr);`
abbrev pub line_end : Bool → List ℕ
line_end true = 10 ∷ []
line_end false = []

module _ (console : Console) where
  pub record Progress : Type 0 where
    pub label : List ℕ
    pub total : ℕ
    pub done : ℕ
    pub start_time : console.Time
    pub last_render : console.Time
    pub enabled : Bool
    pub finished : Bool

  -- The constructor.
  unfoldable pub make : List ℕ → ℕ → console.World → Progress × console.World
  make label total_bytes w =
      let (now, w') = console.now_sec w in
      (
        record {
          label = label;
          total = total_bytes;
          done = 0;
          start_time = now;
          last_render = now;
          enabled = console.is_tty w';
          finished = false;
        },
        w',
      )

  pub set_label : List ℕ → Progress → Progress
  set_label label p = record p { label = label }

  pub set_total : ℕ → Progress → Progress
  set_total total_bytes p = record p { total = total_bytes }

  pub set_enabled : Bool → Progress → Progress
  set_enabled enabled p = record p { enabled = enabled }

  -- The end of `Render`, by what `snprintf` gave.
  print_line : Bool → Option (List ℕ) → console.World → Option console.World
  print_line final_line none w = some w
  print_line final_line (some text) w = elim (read_line text (length text)) [
    | none ↦ none
    | some line ↦ some (console.print (line ++ line_end final_line) w)
  ]

  -- `Render`, or nothing when it reads beyond the end of `line`.
  unfoldable pub render : Bool → Progress → console.World → Option console.World
  unfolding print_line read_line
  render final_line p w =
      let (now, w') = console.now_sec w in
      print_line final_line (console.format_line p.label p.done p.total p.start_time now) w'

  -- A bar with what `Render` leaves of the world.
  drawn : Progress → Option console.World → Option (Progress × console.World)
  drawn p none = none
  drawn p (some w) = some (p, w)

  -- `Add`, from the reading of the clock on.
  refresh : Progress → console.World → Option (Progress × console.World)
  refresh p w =
      let (now, w') = console.now_sec w in
      if console.is_early p.last_render now
      then some (p, w')
      else drawn (record p { last_render = now }) (render false (record p { last_render = now }) w')

  unfoldable pub add : ℕ → Progress → console.World → Option (Progress × console.World)
  unfolding refresh drawn
  add delta p w =
      let counted = record p { done = (p.done + delta) % 2 ^ 64 } in
      if not p.enabled || p.finished then some (counted, w) else refresh counted w

  unfoldable pub finish : Progress → console.World → Option (Progress × console.World)
  unfolding drawn
  finish p w =
      let over = record p { finished = true } in
      if p.finished
      then some (p, w)
      else if p.enabled
      then drawn over (render true over w)
      else some (over, w)
