-- ===== src/Progress/Examples.antt =====
-- A bar on a console that keeps what is printed, and whose line is the label.
use xfer.Base.{ℕ, ◌≡◌, refl, true, false, List, [], ◌∷◌, ◌++◌, some}
use xfer.Progress.{Console, Progress, finish, render, drawn}
use xfer.Progress.Render.{RenderEnds, render_lem}
use xfer.Progress.Finished.{adds, finishes, labels, enables, IsSilent, finish-play_all, Event}

abbrev console : Console
console = record {
  World = List ℕ;
  Time = ℕ;
  now_sec = λ w. (7, w);
  is_tty = λ w. true;
  is_early = λ last now. false;
  format_line = λ label done total start now. some label;
  print = λ bytes w. w ++ bytes;
}

abbrev bar : Progress console
bar = record {
  label = b'a' ∷ b'b' ∷ [];
  total = 10;
  done = 4;
  start_time = 1;
  last_render = 2;
  enabled = true;
  finished = false;
}

render_lem_example : RenderEnds console true bar [] (b'a' ∷ b'b' ∷ [])
render_lem_example = render_lem console true bar [] (b'a' ∷ b'b' ∷ []) refl

abbrev ended : Progress console
ended = record bar { finished = true }

finished_bar : finish console bar [] ≡ some (ended, b'a' ∷ b'b' ∷ 10 ∷ [])
unfolding finish drawn render
finished_bar = refl

abbrev later : List Event
later = adds 3 ∷ enables true ∷ finishes ∷ labels [] ∷ adds 2 ∷ []

finish-play_all_example : IsSilent console later ended (b'a' ∷ b'b' ∷ 10 ∷ [])
finish-play_all_example =
    finish-play_all console bar ended [] (b'a' ∷ b'b' ∷ 10 ∷ []) later finished_bar
