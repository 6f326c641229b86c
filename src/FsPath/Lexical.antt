-- ===== src/FsPath/Lexical.antt =====
-- Where a path leads, read lexically, and that joining a path with no `..` leads further down.
use xfer.Base.{ℕ, ◌≡◌, refl, ap, sym, ◌∙◌, arith, Bool, true, false, Bool-cases, inl, inr}
use xfer.Base.{List, [], ◌∷◌, ◌++◌, append_assoc, bytes_eq, if◌then◌else◌, All}
use xfer.Os.{FilePath}
use xfer.FsPath.{
  slash, is_slash, is_absolute, is_empty, ends_in_slash, join, split, tidy, root, components,
  add_first,
}

abbrev pub dot : FilePath
dot = b'.' ∷ []

abbrev pub dot_dot : FilePath
dot_dot = b'.' ∷ b'.' ∷ []

-- The names from the last to the first, after one more element: `/` starts anew, an empty name and
-- `.` stay, and `..` goes back by one name, but not over the root or over another `..`.
up : List FilePath → List FilePath
up [] = dot_dot ∷ []
up (x ∷ stack) =
    if bytes_eq x (slash ∷ [])
    then x ∷ stack
    else if bytes_eq x dot_dot
    then dot_dot ∷ x ∷ stack
    else stack

pub step : List FilePath → FilePath → List FilePath
step stack x =
    if is_empty x
    then stack
    else if bytes_eq x dot
    then stack
    else if bytes_eq x dot_dot
    then up stack
    else if bytes_eq x (slash ∷ [])
    then (slash ∷ []) ∷ []
    else x ∷ stack

pub walk : List FilePath → List FilePath → List FilePath
walk stack [] = stack
walk stack (x ∷ xs) = walk (step stack x) xs

-- The place that a path names, its last name first.
pub place : FilePath → List FilePath
place p = walk [] (components p)

walk-append : (stack xs ys : List FilePath) → walk stack (xs ++ ys) ≡ walk (walk stack xs) ys
unfolding walk
walk-append stack [] ys = refl
walk-append stack (x ∷ xs) ys = walk-append (step stack x) xs ys

walk-tidy : (seen : Bool) (stack xs : List FilePath) → walk stack (tidy seen xs) ≡ walk stack xs
unfolding walk step tidy
walk-tidy seen stack [] = refl
walk-tidy true stack ([] ∷ []) = refl
walk-tidy false stack ([] ∷ []) = refl
walk-tidy seen stack ([] ∷ (x ∷ xs)) = walk-tidy seen stack (x ∷ xs)
walk-tidy seen stack ((c ∷ p) ∷ xs) = walk-tidy true (step stack (c ∷ p)) xs

add_first-cons :
    (c : ℕ) (xs : List FilePath) → (y : FilePath) × (ys : List FilePath) × (add_first c xs ≡ y ∷ ys)
add_first-cons c [] = (c ∷ [], [], refl)
add_first-cons c (x ∷ xs) = (c ∷ x, xs, refl)

split-cons : (p : FilePath) → (x : FilePath) × (xs : List FilePath) × (split p ≡ x ∷ xs)
unfolding split
split-cons [] = ([], [], refl)
split-cons (c ∷ p) = elim (Bool-cases (is_slash c)) [
  | inl e ↦ ([], split p, rw e)
  | inr e ↦ rw e (add_first-cons c (split p))
]

add_first-append :
    (c : ℕ) (p : FilePath) (ys : List FilePath)
    → add_first c (split p ++ ys) ≡ add_first c (split p) ++ ys
add_first-append c p ys = let (x, xs, e) = split-cons p in rw e

split_at_slash : (a b : FilePath) → split (a ++ (slash ∷ b)) ≡ split a ++ split b
unfolding split
split_at_slash [] b = refl
split_at_slash (c ∷ a) b = elim (Bool-cases (is_slash c)) [
  | inl e ↦ rw (e, split_at_slash a b)
  | inr e ↦ rw (e, split_at_slash a b) (add_first-append c a (split b))
]

walk-components :
    (stack : List FilePath) (p : FilePath)
    → walk stack (components p) ≡ walk (walk stack (root p)) (split p)
unfolding components
walk-components stack p =
    walk-append stack (root p) (tidy false (split p)) ∙ walk-tidy false _ (split p)

-- A path with a separator at its end is some path and that separator.
ends_in_slash-last :
    (p : FilePath) → ends_in_slash p ≡ true → (q : FilePath) × (p ≡ q ++ (slash ∷ []))
ends_in_slash-last [] h = absurd (ground arith)
ends_in_slash-last (c ∷ []) h = ([], ground arith)
ends_in_slash-last (c ∷ d ∷ p) h =
    let (q, e) = ends_in_slash-last (d ∷ p) h in (c ∷ q, ap (λ z. c ∷ z) e)

walk-split_behind :
    (stack : List FilePath) (q b : FilePath)
    → walk stack (split ((q ++ (slash ∷ [])) ++ b))
      ≡ walk (walk stack (split (q ++ (slash ∷ [])))) (split b)
walk-split_behind stack q b =
    ap (λ p. walk stack (split p)) (append_assoc q (slash ∷ []) b)
    ∙ ap (walk stack) (split_at_slash q b)
    ∙ walk-append stack (split q) (split b)
    ∙ ap (λ w. walk w (split b)) (sym tail)
  where
    tail : walk stack (split (q ++ (slash ∷ []))) ≡ walk stack (split q)
    tail =
        ap (walk stack) (split_at_slash q [])
        ∙ walk-append stack (split q) (split [])
        ∙ unfold walk step split in refl

-- Joining a relative path goes on from where the base leads.
module _ (rel : FilePath) (h : is_absolute rel ≡ false) where
  walk_relative : (stack : List FilePath) → walk stack (split rel) ≡ walk stack (components rel)
  unfolding walk
  walk_relative stack = sym (
      walk-components stack rel
      ∙ ap (λ b. walk (walk stack (if b then (slash ∷ []) ∷ [] else [])) (split rel)) h)

  place-append_slash :
      (c : ℕ) (q : FilePath)
      → walk [] (components ((c ∷ q) ++ (slash ∷ rel))) ≡ walk (place (c ∷ q)) (components rel)
  place-append_slash c q =
      walk-components [] ((c ∷ q) ++ (slash ∷ rel))
      ∙ ap (walk (walk [] (root (c ∷ q)))) (split_at_slash (c ∷ q) rel)
      ∙ walk-append (walk [] (root (c ∷ q))) (split (c ∷ q)) (split rel)
      ∙ ap (λ w. walk w (split rel)) (sym (walk-components [] (c ∷ q)))
      ∙ unfold place in walk_relative (place (c ∷ q))

  place-append :
      (c : ℕ) (q : FilePath)
      → ends_in_slash (c ∷ q) ≡ true
      → walk [] (components ((c ∷ q) ++ rel)) ≡ walk (place (c ∷ q)) (components rel)
  unfolding place
  place-append c q e =
      let (r, k) = ends_in_slash-last (c ∷ q) e in
      walk-components [] ((c ∷ q) ++ rel)
      ∙ ap (λ p. walk (walk [] (root (c ∷ q))) (split (p ++ rel))) k
      ∙ walk-split_behind (walk [] (root (c ∷ q))) r rel
      ∙ ap (λ p. walk (walk (walk [] (root (c ∷ q))) (split p)) (split rel)) (sym k)
      ∙ ap (λ w. walk w (split rel)) (sym (walk-components [] (c ∷ q)))
      ∙ walk_relative (walk [] (components (c ∷ q)))

  pub place-join : (base : FilePath) → place (join base rel) ≡ walk (place base) (components rel)
  unfolding place join
  place-join [] = rw h (
      ap (λ w. walk w (components rel))
        (sym (walk-components [] [] ∙ unfold walk split step in refl)))
  place-join (c ∷ q) = rw h (elim (Bool-cases (ends_in_slash (c ∷ q))) [
    | inl e ↦ rw e (place-append c q e)
    | inr e ↦ rw e (place-append_slash c q)
  ])

-- Elements that are neither `..` nor the root only lead further down.
abbrev pub IsName : FilePath → Type 0
IsName x = (bytes_eq x dot_dot ≡ false) × (bytes_eq x (slash ∷ []) ≡ false)

step_down :
    (stack : List FilePath) (x : FilePath)
    → IsName x
    → (names : List FilePath) × (step stack x ≡ names ++ stack)
unfolding step
step_down stack x (p, q) = elim (Bool-cases (is_empty x)) [
  | inl e ↦ ([], rw e)
  | inr e ↦ elim (Bool-cases (bytes_eq x dot)) [
    | inl d ↦ ([], rw (e, d))
    | inr d ↦ (x ∷ [], rw (e, d, p, q))
  ]
]

pub walk_down :
    (stack xs : List FilePath)
    → All IsName xs
    → (names : List FilePath) × (walk stack xs ≡ names ++ stack)
unfolding walk
walk_down stack [] h = ([], refl)
walk_down stack (x ∷ xs) (hx, hs) =
    let (a, e) = step_down stack x hx in
    let (b, f) = walk_down (step stack x) xs hs in
    (b ++ a, f ∙ ap (λ z. b ++ z) e ∙ sym (append_assoc b a stack))
