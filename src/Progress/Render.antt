-- ===== src/Progress/Render.antt =====
-- `Progress::Render` in src/common/progress.cpp: the line and its array of 512 bytes.
use xfer.Base.{
  ℕ, ◌≤◌, ◌<◌, ◌≡◌, ◌⊎◌, inl, inr, refl, ap, subst, ◌∙◌, arith, Bool, true, false, Bool-cases, ltb,
  ltb→lt, ◌==◌, ==_iff, if◌then◌else◌,
}
use xfer.Base.{
  List, [], ◌∷◌, ◌++◌, length, length-append, length-take, take, take_all, take-append_left, Option,
  none, some,
}
use xfer.Progress.{Console, Progress, line_buffer, read_line, line_end, print_line, render}

not_less : (a b : ℕ) → ltb a b ≡ false → b ≤ a
not_less a b h = ground arith

length-line_buffer : (text : List ℕ) → length (line_buffer text) ≤ 512
length-line_buffer text =
    omega (arith, length-append (take 511 text) (0 ∷ []), length-take 511 text)

-- What is read of the array for a text of this length.
read_line-short : (text : List ℕ) → length text ≤ 511 → read_line text (length text) ≡ some text
unfolding read_line
read_line-short text short =
    fits (ltb 512 (length text)) (not_long (length text) short)
    ∙ ap some (
        take-append_left (length text) (take 511 text) (0 ∷ [])
          (omega (arith, length-take 511 text))
        ∙ ap (take (length text)) (take_all 511 text short)
        ∙ take_all (length text) text (omega arith))
  where
    fits :
        (b : Bool)
        → b ≡ false
        → (if b then none else some (take (length text) (line_buffer text)))
          ≡ some (take (length text) (line_buffer text))
    fits b e = rw e refl

    not_long : (n : ℕ) → n ≤ 511 → ltb 512 n ≡ false
    not_long n h = ground arith

module _ (console : Console) where
  -- `Render` prints `line`, with a newline at the end if it is the final one.
  abbrev pub Prints : Bool → Progress console → console.World → List ℕ → Type 0
  Prints final_line p w line =
      render console final_line p w
      ≡ some (console.print (line ++ line_end final_line) (console.now_sec w).1)

  -- How `Render` deals with a formatted text, by its length.
  abbrev pub RenderEnds : Bool → Progress console → console.World → List ℕ → Type 0
  RenderEnds final_line p w text =
      ((length text ≤ 511) × Prints final_line p w text)
      ⊎ (((length text ≡ 512) × Prints final_line p w (line_buffer text))
          ⊎ ((512 < length text) × (render console final_line p w ≡ none)))

  printed : Bool → console.World → Option (List ℕ) → Option console.World
  printed final_line w line = elim line [
    | none ↦ none
    | some bytes ↦ some (console.print (bytes ++ line_end final_line) w)
  ]

  render-printed :
      (final_line : Bool) (p : Progress console) (w : console.World) (text : List ℕ)
      → console.format_line p.label p.done p.total p.start_time (console.now_sec w).0 ≡ some text
      → render console final_line p w
        ≡ printed final_line (console.now_sec w).1 (read_line text (length text))
  unfolding render print_line printed
  render-printed final_line p w text e =
      ap (λ t. print_line console final_line t (console.now_sec w).1) e

  -- When `snprintf` formats a text, `Render` prints it if it has at most 511 bytes. Of a text of 512
  -- bytes it prints the first 511 and a NUL. For a longer one it reads beyond the end of its array.
  pub render_lem :
      (final_line : Bool) (p : Progress console) (w : console.World) (text : List ℕ)
      → console.format_line p.label p.done p.total p.start_time (console.now_sec w).0 ≡ some text
      → RenderEnds final_line p w text
  unfolding read_line printed
  render_lem final_line p w text e = by_length (Bool-cases (ltb 512 (length text)))
    where
      Reads : Option (List ℕ) → Type 0
      Reads line = render console final_line p w ≡ printed final_line (console.now_sec w).1 line

      reads : Reads (read_line text (length text))
      reads = render-printed final_line p w text e

      whole : (n : ℕ) → n ≡ 512 → take n (line_buffer text) ≡ line_buffer text
      whole n h = take_all n (line_buffer text) (omega (arith, length-line_buffer text))

      chosen : Bool → Option (List ℕ)
      chosen b = if b then none else some (take (length text) (line_buffer text))

      by_512 :
          ltb 512 (length text) ≡ false
          → ((length text == 512) ≡ true) ⊎ ((length text == 512) ≡ false)
          → RenderEnds final_line p w text
      by_512 fits (inl same) =
          let n = (==_iff (length text) 512).0 same in
          inr (inl (n, subst Reads (ap chosen fits ∙ ap some (whole (length text) n)) reads))
      by_512 fits (inr other) =
          let short = fewer (length text) (not_less 512 (length text) fits) other in
          inl (short, subst Reads (read_line-short text short) reads)
        where
          fewer : (n : ℕ) → n ≤ 512 → (n == 512) ≡ false → n ≤ 511
          fewer n h k = ground arith

      by_length :
          (ltb 512 (length text) ≡ true) ⊎ (ltb 512 (length text) ≡ false)
          → RenderEnds final_line p w text
      by_length (inl long) =
          inr (inr (ltb→lt 512 (length text) long, subst Reads (ap chosen long) reads))
      by_length (inr fits) = by_512 fits (Bool-cases (length text == 512))
