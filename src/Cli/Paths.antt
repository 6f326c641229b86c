-- ===== src/Cli/Paths.antt =====
-- Where the paths of `Parse` come from.
use xfer.Base.{ℕ, ◌≡◌, ◌⊎◌, inl, inr, refl, ap, sym, subst, ◌∙◌, Bool, true, false, Bool-cases}
use xfer.Base.{List, [], ◌∷◌, ◌++◌, All, All-append, Any, Option, none, some, if◌then◌else◌}
use xfer.Base.Int.{ℤ}
use xfer.Cli.{
  Mode, Options, Effect, done, continue_if, take_if, more_flags, takes, refused, effect, colored,
  set_color, valued, take_port, positional, is_dashed, is_send, parse_loop, parse_args, with_mode,
  mode_of, default_options,
}
use xfer.Cli.Integer.{parse_int}

-- An argument leaves the paths as they are, or is the next of them.
Adds : Options → List ℕ → Effect → Type 0
Adds opts a (done o) =
    (o.paths ≡ opts.paths) ⊎ ((is_dashed a ≡ false) × (o.paths ≡ opts.paths ++ (a ∷ [])))
Adds opts a (takes f) = (v : List ℕ) (o : Options) → f v ≡ some o → o.paths ≡ opts.paths
Adds opts a refused = Unit {0}

pub some_injective : (o o' : Options) → ◌≡◌ {A = Option Options} (some o) (some o') → o ≡ o'
some_injective o o' e = cc (e)

module _ (opts : Options) (a : List ℕ) where
  continue_if-Adds :
      (b : Bool) (o : Options) (rest : Effect)
      → o.paths ≡ opts.paths
      → Adds opts a rest
      → Adds opts a (continue_if b o rest)
  unfolding continue_if Adds
  continue_if-Adds true o rest e h = inl e
  continue_if-Adds false o rest e h = h

  take_if-Adds :
      (b : Bool) (f : List ℕ → Option Options) (rest : Effect)
      → Adds opts a (takes f)
      → Adds opts a rest
      → Adds opts a (take_if b f rest)
  unfolding take_if
  take_if-Adds true f rest k h = k
  take_if-Adds false f rest k h = h

  sets :
      (f : List ℕ → Options)
      → ((v : List ℕ) → (f v).paths ≡ opts.paths)
      → Adds opts a (takes (λ v. some (f v)))
  unfolding Adds
  sets f h v o e = sym (ap (λ (x : Options). x.paths) (some_injective (f v) o e)) ∙ h v

  take_port-paths : (v : Option ℤ) (o : Options) → take_port opts v ≡ some o → o.paths ≡ opts.paths
  unfolding take_port
  take_port-paths none o e = absurd (cc (e))
  take_port-paths (some v) o e =
      sym (ap (λ (x : Options). x.paths) (some_injective (record opts { port = v }) o e))

  sets_port : Adds opts a (takes (λ v. take_port opts (parse_int v)))
  unfolding Adds
  sets_port v o e = take_port-paths (parse_int v) o e

  refuses : Adds opts a refused
  unfolding Adds
  refuses = tt

  positional-Adds : Adds opts a (positional opts a)
  unfolding positional continue_if Adds
  positional-Adds = elim (Bool-cases (is_dashed a)) [
    | inl e ↦ rw e tt
    | inr e ↦ elim (Bool-cases (is_send opts.mode)) [
      | inl f ↦ simp (e, f) (inr (refl, refl))
      | inr f ↦ simp (e, f) tt
    ]
  ]

  valued-Adds : Adds opts a (valued opts a)
  unfolding valued
  valued-Adds = take_if-Adds _ _ _ (sets (λ v. record opts { host = v }) λ v. refl) (
      take_if-Adds _ _ _ (sets (λ v. record opts { output_dir = v }) λ v. refl)
        (take_if-Adds _ _ _ sets_port positional-Adds))

  colored-Adds : (v : Option (List ℕ)) → Adds opts a (colored opts a v)
  unfolding colored set_color
  colored-Adds (some v) =
      continue_if-Adds _ _ _ refl
        (continue_if-Adds _ _ _ refl (continue_if-Adds _ _ _ refl refuses))
  colored-Adds none = valued-Adds

  effect-Adds : Adds opts a (effect opts a)
  unfolding effect more_flags
  effect-Adds = continue_if-Adds _ _ _ refl (
      continue_if-Adds _ _ _ refl (
        continue_if-Adds _ _ _ refl (
          continue_if-Adds _ _ _ refl (
            continue_if-Adds _ _ _ refl (
              continue_if-Adds _ _ _ refl (
                continue_if-Adds _ _ _ refl
                  (continue_if-Adds _ _ _ refl (continue_if-Adds _ _ _ refl (colored-Adds _)))))))))

takes_lem :
    (opts : Options) (a : List ℕ) (f : List ℕ → Option Options)
    → Adds opts a (takes f)
    → (v : List ℕ) (o : Options) → f v ≡ some o
    → o.paths ≡ opts.paths
unfolding Adds
takes_lem opts a f h = h

-- The paths are arguments among `argv` that do not begin with a dash.
abbrev pub ArePaths : List (List ℕ) → List (List ℕ) → Type 0
ArePaths argv = All (λ p. (is_dashed p ≡ false) × Any (λ a. a ≡ p) argv)

module _ (argv : List (List ℕ)) where
  done_lem :
      (opts : Options) (a : List ℕ) (o : Options)
      → Adds opts a (done o)
      → Any (λ b. b ≡ a) argv
      → ArePaths argv opts.paths
      → ArePaths argv o.paths
  unfolding Adds
  done_lem opts a o (inl e) there h = subst (ArePaths argv) (sym e) h
  done_lem opts a o (inr (plain, e)) there h =
      subst (ArePaths argv) (sym e) (All-append _ opts.paths (a ∷ []) h ((plain, there), tt))

  -- Each of `args` is in `argv`.
  abbrev AreArgs : List (List ℕ) → Type 0
  AreArgs = All (λ a. Any (λ b. b ≡ a) argv)

  parse_loop-ArePaths :
      (opts : Options) (args : List (List ℕ)) (o : Options)
      → AreArgs args
      → parse_loop opts args ≡ some o
      → ArePaths argv opts.paths
      → ArePaths argv o.paths
  unfolding parse_loop
  parse_loop-ArePaths opts [] o there e h =
      subst (λ (x : Options). ArePaths argv x.paths) (some_injective opts o e) h
  parse_loop-ArePaths opts (a ∷ []) o (here, there) e h =
      last (effect opts a) (effect-Adds opts a) e
    where
      last :
          (x : Effect)
          → Adds opts a x
          → elim x [ done opts' ↦ some opts' | takes f ↦ none | refused ↦ none ] ≡ some o
          → ArePaths argv o.paths
      last (done o') adds e' =
          subst (λ (y : Options). ArePaths argv y.paths) (some_injective o' o e')
            (done_lem opts a o' adds here h)
      last (takes f) adds e' = absurd (cc (e'))
      last refused adds e' = absurd (cc (e'))
  parse_loop-ArePaths opts (a ∷ b ∷ args) o (here, there) e h =
      step (effect opts a) (effect-Adds opts a) e
        (λ o' e' h'. parse_loop-ArePaths o' (b ∷ args) o there e' h')
        (λ o' e' h'. parse_loop-ArePaths o' args o there.1 e' h')
    where
      taken :
          (v : Option Options)
          → ((o' : Options) → v ≡ some o' → o'.paths ≡ opts.paths)
          → elim v [ none ↦ none | some opts' ↦ parse_loop opts' args ] ≡ some o
          → ((o' : Options)
              → parse_loop o' args ≡ some o
              → ArePaths argv o'.paths
              → ArePaths argv o.paths)
          → ArePaths argv o.paths
      taken none same e' rest = absurd (cc (e'))
      taken (some o') same e' rest = rest o' e' (subst (ArePaths argv) (sym (same o' refl)) h)

      step :
          (x : Effect)
          → Adds opts a x
          → elim x [
            | done opts' ↦ parse_loop opts' (b ∷ args)
            | takes f ↦ elim (f b) [ none ↦ none | some opts' ↦ parse_loop opts' args ]
            | refused ↦ none
          ]
            ≡ some o
          → ((o' : Options)
              → parse_loop o' (b ∷ args) ≡ some o
              → ArePaths argv o'.paths
              → ArePaths argv o.paths)
          → ((o' : Options)
              → parse_loop o' args ≡ some o
              → ArePaths argv o'.paths
              → ArePaths argv o.paths)
          → ArePaths argv o.paths
      step (done o') adds e' next skip = next o' e' (done_lem opts a o' adds here h)
      step (takes f) adds e' next skip = taken (f b) (takes_lem opts a f adds b) e' skip
      step refused adds e' next skip = absurd (cc (e'))

Any-later : (x : List ℕ) (argv args : List (List ℕ)) → AreArgs argv args → AreArgs (x ∷ argv) args
Any-later x argv [] h = tt
Any-later x argv (a ∷ args) (h, hs) = (inr h, Any-later x argv args hs)

AreArgs-self : (argv : List (List ℕ)) → AreArgs argv argv
AreArgs-self [] = tt
AreArgs-self (a ∷ argv) = (inl refl, Any-later a argv argv (AreArgs-self argv))

pub parse_args-ArePaths :
    (program : List ℕ) (args : List (List ℕ)) (o : Options)
    → parse_args args ≡ some o
    → ArePaths (program ∷ args) o.paths
unfolding parse_args with_mode
parse_args-ArePaths program [] o e = absurd (cc (e))
parse_args-ArePaths program (cmd ∷ args) o e = elim (Bool-cases (is_dashed cmd)) [
  | inl dashed ↦
      parse_loop-ArePaths argv default_options (cmd ∷ args) o all (sym (ap pick dashed) ∙ e) tt
  | inr plain ↦ with_some (mode_of cmd) (sym (ap pick plain) ∙ e)
]
  where
    argv : List (List ℕ)
    argv = program ∷ cmd ∷ args

    all : AreArgs argv (cmd ∷ args)
    all = (AreArgs-self argv).1

    pick : Bool → Option Options
    pick b = if b then parse_loop default_options (cmd ∷ args) else with_mode (mode_of cmd) args

    with_some : (m : Option Mode) → with_mode m args ≡ some o → ArePaths argv o.paths
    with_some none f = absurd (cc (f))
    with_some (some m) f =
        parse_loop-ArePaths argv (record default_options { mode = m }) args o all.1 f tt
