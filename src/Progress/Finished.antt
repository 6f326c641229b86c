-- ===== src/Progress/Finished.antt =====
-- The bar in src/common/progress.cpp once `Finish` was called.
use xfer.Base.{
  ℕ, ◌+◌, ◌%◌, ◌^◌, ◌≡◌, refl, ap, sym, subst, ◌∙◌, Bool, true, false, not, ◌||◌, Bool-cases, inl,
  inr, ◌⊎◌, List, [], ◌∷◌, Option, none, some, if◌then◌else◌,
}
use xfer.Progress.{
  Console, Progress, set_label, set_total, set_enabled, render, refresh, drawn, add, finish,
}

-- The calls on a bar.
pub data Event : Type 0 where
  adds : ℕ → Event
  finishes : Event
  labels : List ℕ → Event
  totals : ℕ → Event
  enables : Bool → Event

-- What is done in the end, by what was done before.
abbrev pub done_after : List Event → ℕ → ℕ
done_after [] done = done
done_after (adds delta ∷ events) done = done_after events ((done + delta) % 2 ^ 64)
done_after (finishes ∷ events) done = done_after events done
done_after (labels label ∷ events) done = done_after events done
done_after (totals total ∷ events) done = done_after events done
done_after (enables enabled ∷ events) done = done_after events done

module _ (console : Console) where
  pub play : Event → Progress console → console.World → Option (Progress console × console.World)
  play (adds delta) p w = add console delta p w
  play finishes p w = finish console p w
  play (labels label) p w = some (set_label console label p, w)
  play (totals total) p w = some (set_total console total p, w)
  play (enables enabled) p w = some (set_enabled console enabled p, w)

  go_on :
      (Progress console → console.World → Option (Progress console × console.World))
      → Option (Progress console × console.World)
      → Option (Progress console × console.World)
  go_on f none = none
  go_on f (some (p, w)) = f p w

  -- Calls in a row.
  unfoldable pub play_all :
      List Event → Progress console → console.World → Option (Progress console × console.World)
  unfolding play go_on
  play_all [] p w = some (p, w)
  play_all (event ∷ events) p w = go_on (play_all events) (play event p w)

  -- The calls leave the world, and so the clock and the terminal, as it is, and count.
  abbrev pub IsSilent : List Event → Progress console → console.World → Type 0
  IsSilent events p w =
      (p' : Progress console) × (play_all events p w ≡ some (p', w))
      × (p'.finished ≡ true)
      × (p'.done ≡ done_after events p.done)

  play_all-IsSilent :
      (events : List Event) (p : Progress console) (w : console.World)
      → p.finished ≡ true
      → IsSilent events p w
  unfolding play_all play go_on add finish set_label set_total set_enabled
  play_all-IsSilent [] p w over = (p, refl, over, refl)
  play_all-IsSilent (adds delta ∷ events) p w over =
      let counted = record p { done = (p.done + delta) % 2 ^ 64 } in
      let (p', e, f, d) = play_all-IsSilent events counted w over in
      (p', ap (go_on (play_all events)) (quiet counted (not p.enabled)) ∙ e, f, d)
    where
      quiet :
          (counted : Progress console) (b : Bool)
          → (if b || p.finished then some (counted, w) else refresh console counted w)
            ≡ some (counted, w)
      quiet counted true = refl
      quiet counted false = rw over refl
  play_all-IsSilent (finishes ∷ events) p w over =
      let (p', e, f, d) = play_all-IsSilent events p w over in
      (p', ap (go_on (play_all events)) finish_again ∙ e, f, d)
    where
      rest : Option (Progress console × console.World)
      rest =
          let over' = record p { finished = true } in
          if p.enabled then drawn console over' (render console true over' w) else some (over', w)

      finish_again : finish console p w ≡ some (p, w)
      finish_again = ap (λ b. if b then some (p, w) else rest) over
  play_all-IsSilent (labels label ∷ events) p w over =
      play_all-IsSilent events (set_label console label p) w over
  play_all-IsSilent (totals total ∷ events) p w over =
      play_all-IsSilent events (set_total console total p) w over
  play_all-IsSilent (enables enabled ∷ events) p w over =
      play_all-IsSilent events (set_enabled console enabled p) w over

  finish_lem :
      (p p' : Progress console) (w w' : console.World)
      → finish console p w ≡ some (p', w')
      → p'.finished ≡ true
  unfolding finish drawn
  finish_lem p p' w w' e = by_finished (Bool-cases p.finished)
    where
      over : Progress console
      over = record p { finished = true }

      result : Bool → Bool → Option (Progress console × console.World)
      result b c =
          if b
          then some (p, w)
          else if c
          then drawn console over (render console true over w)
          else some (over, w)

      drawn_over :
          (r : Option console.World) → drawn console over r ≡ some (p', w') → p'.finished ≡ true
      drawn_over none h = absurd (cc (h))
      drawn_over (some u) h =
          let same : over ≡ p' = cc (h) in subst (λ x. x.finished ≡ true) same refl

      by_enabled : (c : Bool) → result false c ≡ some (p', w') → p'.finished ≡ true
      by_enabled true h = drawn_over (render console true over w) h
      by_enabled false h = let same : over ≡ p' = cc (h) in subst (λ x. x.finished ≡ true) same refl

      by_finished : (p.finished ≡ true) ⊎ (p.finished ≡ false) → p'.finished ≡ true
      by_finished (inl f) =
          let same : p ≡ p' = cc (sym (ap (λ b. result b p.enabled) f) ∙ e) in
          subst (λ x. x.finished ≡ true) same f
      by_finished (inr f) = by_enabled p.enabled (sym (ap (λ b. result b p.enabled) f) ∙ e)

  -- Once `Finish` has come back, no calls in any order read the clock or print anything, also when the
  -- bar is enabled again or finished again, and the bar goes on to count what is done modulo 2^64.
  pub finish-play_all :
      (p p' : Progress console) (w w' : console.World) (events : List Event)
      → finish console p w ≡ some (p', w')
      → IsSilent events p' w'
  finish-play_all p p' w w' events e = play_all-IsSilent events p' w' (finish_lem p p' w w' e)
