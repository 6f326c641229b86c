-- ===== src/Cli/Bounds.antt =====
-- What `Parse` promises of the options that it returns.
use xfer.Base.{
  ℕ, zero, suc, ◌≤◌, ◌<◌, ◌≡◌, ◌≢◌, inl, inr, refl, ap, ap₂, sym, subst, ◌∙◌, arith, Bool, false,
  ◌&&◌, Bool-cases,
}
use xfer.Base.{List, [], ◌∷◌, Option, none, some, if◌then◌else◌}
use xfer.Base.Int.{ℤ, pos, negsuc}
use xfer.Cli.{
  send, Options, is_send, is_nil, is_bad_port, check_options, checked, parse_args, parse,
}
use xfer.Cli.Paths.{some_injective, ArePaths, parse_args-ArePaths}

-- The port is one of TCP.
abbrev pub IsPort : ℤ → Type 0
IsPort v = (n : ℕ) × (v ≡ pos n) × (0 < n) × (n ≤ 65535)

is_bad_port_sound : (v : ℤ) → is_bad_port v ≡ false → IsPort v
unfolding is_bad_port
is_bad_port_sound (negsuc n) h = absurd (cc (h))
is_bad_port_sound (pos zero) h = absurd (cc (h))
is_bad_port_sound (pos (suc n)) h = (suc n, refl, omega arith, ground arith)

check_options_lem :
    (o o' : Options)
    → check_options o ≡ some o'
    → (o ≡ o') × (o'.mode ≡ send → o'.paths ≢ []) × IsPort o'.port
unfolding check_options
check_options_lem o o' e = elim (Bool-cases (is_send o.mode && is_nil o.paths)) [
  | inl f ↦ absurd (cc (sym (ap first f) ∙ e))
  | inr f ↦ elim (Bool-cases (is_bad_port o.port)) [
    | inl g ↦ absurd (cc (sym (ap first f ∙ ap second g) ∙ e))
    | inr g ↦
        subst (λ (x : Options). (o ≡ x) × (x.mode ≡ send → x.paths ≢ []) × IsPort x.port)
          (some_injective o o' (sym (ap first f ∙ ap second g) ∙ e))
          (
            refl,
            (λ m p. absurd (cc (sym f ∙ ap₂ (λ k ps. is_send k && is_nil ps) m p))),
            is_bad_port_sound o.port g,
          )
  ]
]
  where
    second : Bool → Option Options
    second b = if b then none else some o

    first : Bool → Option Options
    first b = if b then none else second (is_bad_port o.port)

-- Options that `Parse` returns have a port from 1 to 65535. A command to send has a path. Each path is
-- an argument that does not begin with a dash.
pub parse_lem :
    (argv : List (List ℕ)) (opts : Options)
    → parse argv ≡ some opts
    → IsPort opts.port × (opts.mode ≡ send → opts.paths ≢ []) × ArePaths argv opts.paths
unfolding parse
parse_lem [] opts e = absurd (cc (e))
parse_lem (program ∷ args) opts e = by_result (parse_args args) refl e
  where
    by_result :
        (r : Option Options)
        → parse_args args ≡ r
        → checked r ≡ some opts
        → IsPort opts.port
          × (opts.mode ≡ send → opts.paths ≢ [])
          × ArePaths (program ∷ args) opts.paths
    by_result none f e' = absurd (cc (e'))
    by_result (some o) f e' =
        let (same, sends, port) = check_options_lem o opts e' in
        (
          port,
          sends,
          subst (λ (x : Options). ArePaths (program ∷ args) x.paths) same
              (parse_args-ArePaths program args o f),
        )
