-- ===== src/Logging/Statement.antt =====
-- What a log statement prints, in src/common/logging.cpp.
use xfer.Base.{
  ℕ, ◌<◌, ◌≤◌, ◌≡◌, ◌⊎◌, inl, inr, refl, ap, ◌∙◌, arith, Bool, true, false, Bool-cases, leb,
  if◌then◌else◌,
}
use xfer.Base.{List, [], ◌∷◌, ◌++◌, append-nil, append_assoc}
use xfer.Logging.{Level, Logger, rank, line_head, open_stream, put, put_all, close_stream, log}

-- The values one after the other.
abbrev pub joined : List (List ℕ) → List ℕ
joined [] = []
joined (value ∷ values) = value ++ joined values

put_all-enabled :
    (values : List (List ℕ)) (level : Level) (oss : List ℕ)
    → put_all (record { enabled = true; level = level; oss = oss }) values
      ≡ record { enabled = true; level = level; oss = oss ++ joined values }
unfolding put_all put
put_all-enabled [] level oss = cc (append-nil oss)
put_all-enabled (value ∷ values) level oss =
    put_all-enabled values level (oss ++ value) ∙ cc (append_assoc oss value (joined values))

put_all-disabled :
    (values : List (List ℕ)) (level : Level) (oss : List ℕ)
    → put_all (record { enabled = false; level = level; oss = oss }) values
      ≡ record { enabled = false; level = level; oss = oss }
unfolding put_all put
put_all-disabled [] level oss = refl
put_all-disabled (value ∷ values) level oss = put_all-disabled values level oss

leb→le : (a b : ℕ) → leb a b ≡ true → a ≤ b
leb→le a b h = ground arith

leb-false→lt : (a b : ℕ) → leb a b ≡ false → b < a
leb-false→lt a b h = ground arith

-- The two ways of a statement.
abbrev pub Logs : Bool → Logger → List ℕ → Level → List (List ℕ) → List ℕ → Type 0
Logs is_tty logger time level values printed =
    ((rank logger.level ≤ rank level)
      × (log is_tty logger time level values printed
          ≡ printed ++ ((line_head is_tty logger time level ++ joined values) ++ (10 ∷ []))))
    ⊎ ((rank level < rank logger.level) × (log is_tty logger time level values printed ≡ printed))

-- A statement at the level of the logger or above prints one line at its end: the head, its values in
-- order, and a newline. One below the level prints nothing.
pub log_lem :
    (is_tty : Bool) (logger : Logger) (time : List ℕ) (level : Level) (values : List (List ℕ))
    (printed : List ℕ)
    → Logs is_tty logger time level values printed
unfolding log open_stream close_stream
log_lem is_tty logger time level values printed =
    elim (Bool-cases (leb (rank logger.level) (rank level))) [
      | inl e ↦ inl (
        leb→le (rank logger.level) (rank level) e,
        ap ended e
            ∙ ap (λ x. close_stream x printed)
                (put_all-enabled values level (line_head is_tty logger time level)),
      )
      | inr e ↦ inr (
        leb-false→lt (rank logger.level) (rank level) e,
        ap ended e ∙ ap (λ x. close_stream x printed) (put_all-disabled values level []),
      )
    ]
  where
    ended : Bool → List ℕ
    ended b =
        close_stream
          (put_all
            (if b
              then record {
                enabled = true;
                level = level;
                oss = line_head is_tty logger time level;
              }
              else record { enabled = false; level = level; oss = [] })
            values)
          printed
