-- ===== src/Receiver/Containment.antt =====
-- Where a session writes: nowhere but below its output directory, whatever the sender says.
use mathlib.Core.Bool.{◌||◌}
use xfer.Base.{◌≡◌, inl, inr, refl, ◌∙◌, arith, Bool, false, Bool-cases}
use xfer.Base.{List, [], ◌∷◌, ◌++◌, All, bytes_eq}
use xfer.Os.{Os, FilePath}
use xfer.Os.Action.{returns, State, Ensures, invalid_argument}
use xfer.FsPath.{slash, is_absolute, join, components}
use xfer.FsPath.Lexical.{place, place-join, walk_down, IsName, dot_dot}
use xfer.Receiver.{is_unsafe_part, has_unsafe_part, validate_and_join}

-- `p` leads to a place below `out`, or to `out` itself.
abbrev pub IsBelow : FilePath → FilePath → Type 0
IsBelow out p = (names : List FilePath) × (place p ≡ names ++ place out)

-- The element is none of those that the check is about.
abbrev pub IsSafePart : FilePath → Type 0
IsSafePart part = IsName part × (bytes_eq part (b'\\' ∷ []) ≡ false)

or_false : (a b : Bool) → (a || b) ≡ false → (a ≡ false) × (b ≡ false)
or_false a b h = ground arith

false_or : (a b : Bool) → a ≡ false → b ≡ false → (a || b) ≡ false
false_or a b h k = ground arith

is_unsafe_part_sound : (part : FilePath) → is_unsafe_part part ≡ false → IsSafePart part
unfolding is_unsafe_part
is_unsafe_part_sound part h =
    let (pq, r) = or_false (bytes_eq part dot_dot || bytes_eq part (slash ∷ [])) _ h in
    (or_false (bytes_eq part dot_dot) _ pq, r)

is_unsafe_part_complete : (part : FilePath) → IsSafePart part → is_unsafe_part part ≡ false
unfolding is_unsafe_part
is_unsafe_part_complete part ((p, q), r) = false_or _ _ (false_or _ _ p q) r

has_unsafe_part_sound :
    (parts : List FilePath) → has_unsafe_part parts ≡ false → All IsSafePart parts
unfolding has_unsafe_part
has_unsafe_part_sound [] h = tt
has_unsafe_part_sound (part ∷ parts) h =
    let (p, q) = or_false (is_unsafe_part part) _ h in
    (is_unsafe_part_sound part p, has_unsafe_part_sound parts q)

has_unsafe_part_complete :
    (parts : List FilePath) → All IsSafePart parts → has_unsafe_part parts ≡ false
unfolding has_unsafe_part
has_unsafe_part_complete [] h = refl
has_unsafe_part_complete (part ∷ parts) (p, q) =
    false_or _ _ (is_unsafe_part_complete part p) (has_unsafe_part_complete parts q)

All-IsName : (parts : List FilePath) → All IsSafePart parts → All IsName parts
All-IsName [] h = tt
All-IsName (part ∷ parts) (h, hs) = (h.0, All-IsName parts hs)

-- `ValidateAndJoin` returns exactly the relative paths without an element `..`, `/` or `\`, put behind
-- the output directory, which they do not leave; any other path is refused with `invalid_argument`.
pub validate_and_join_lem :
    (os : Os) (output_dir rel_path : FilePath) (s : State os.World)
    → Ensures
        (λ safe t.
          (t ≡ s)
          × (safe ≡ join output_dir rel_path)
          × All IsSafePart (components rel_path)
          × (is_absolute rel_path ≡ false)
          × IsBelow output_dir safe)
        (λ t.
          (t ≡ record s { ec = invalid_argument })
          × ¬ (All IsSafePart (components rel_path) × (is_absolute rel_path ≡ false)))
        (validate_and_join os output_dir rel_path s)
unfolding validate_and_join
validate_and_join_lem os output_dir rel_path s =
    elim (Bool-cases (has_unsafe_part (components rel_path))) [
      | inl e ↦
          rw e (refl, λ (h, _). absurd (cc (e, has_unsafe_part_complete (components rel_path) h)))
      | inr e ↦ elim (Bool-cases (is_absolute rel_path)) [
        | inl f ↦ rw (e, f) (refl, λ (_, k). absurd (cc (k)))
        | inr f ↦
            let safe : All IsSafePart (components rel_path) =
              has_unsafe_part_sound (components rel_path) e in
            let (names, down) =
              walk_down (place output_dir) (components rel_path) (All-IsName _ safe) in
            rw (e, f) (refl, refl, safe, refl, (names, place-join rel_path f output_dir ∙ down))
      ]
    ]

-- An accepted path is joined.
pub validate_and_join_safe :
    (os : Os) (output_dir rel_path : FilePath) (s : State os.World)
    → All IsSafePart (components rel_path)
    → is_absolute rel_path ≡ false
    → validate_and_join os output_dir rel_path s ≡ returns (join output_dir rel_path) s
unfolding validate_and_join
validate_and_join_safe os output_dir rel_path s safe relative =
    rw (has_unsafe_part_complete (components rel_path) safe, relative) refl
