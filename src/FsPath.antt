-- ===== src/FsPath.antt =====
-- `std::filesystem::path` on POSIX, as far as src/transfer/receiver.cpp and src/transfer/sender.cpp
-- use it: a path is its bytes, `operator/`, the iteration over its elements and `parent_path`.
pub mod Lexical
use xfer.Base.{
  ℕ, Bool, true, false, not, ◌&&◌, Option, none, some, List, [], ◌∷◌, ◌++◌, ◌==◌, if◌then◌else◌,
}
use xfer.Os.{FilePath}

abbrev pub slash : ℕ
slash = b'/'

abbrev pub is_slash : ℕ → Bool
is_slash c = c == slash

abbrev pub is_absolute : FilePath → Bool
is_absolute [] = false
is_absolute (c ∷ p) = is_slash c

abbrev pub is_empty : FilePath → Bool
is_empty [] = true
is_empty (c ∷ p) = false

-- Whether the path ends in a separator, and so has no file name.
abbrev pub ends_in_slash : FilePath → Bool
ends_in_slash [] = false
ends_in_slash (c ∷ []) = is_slash c
ends_in_slash (c ∷ d ∷ p) = ends_in_slash (d ∷ p)

-- `base / rel`: an absolute path replaces the base, any other is put behind one separator.
unfoldable pub join : FilePath → FilePath → FilePath
join base rel =
    if is_absolute rel
    then rel
    else if is_empty base
    then rel
    else if ends_in_slash base
    then base ++ rel
    else base ++ (slash ∷ rel)

abbrev add_first : ℕ → List FilePath → List FilePath
add_first c [] = (c ∷ []) ∷ []
add_first c (x ∷ xs) = (c ∷ x) ∷ xs

-- The pieces between separators, empty ones too. There is one at least.
split : FilePath → List FilePath
split [] = [] ∷ []
split (c ∷ p) = let rest = split p in if is_slash c then [] ∷ rest else add_first c rest

-- Separators that follow one another count as one. A separator behind a name at the very end is an
-- empty last element.
tidy : Bool → List FilePath → List FilePath
tidy seen [] = []
tidy seen ([] ∷ []) = if seen then [] ∷ [] else []
tidy seen ([] ∷ (x ∷ xs)) = tidy seen (x ∷ xs)
tidy seen ((c ∷ p) ∷ xs) = (c ∷ p) ∷ tidy true xs

abbrev pub root : FilePath → List FilePath
root p = if is_absolute p then (slash ∷ []) ∷ [] else []

-- What `for (const auto& part : path)` goes through.
unfoldable pub components : FilePath → List FilePath
unfolding split tidy
components p = root p ++ tidy false (split p)

-- The bytes up to the last separator, and whether there is one.
before_last_slash : FilePath → Option FilePath
before_last_slash [] = none
before_last_slash (c ∷ p) = elim (before_last_slash p) [
  | some q ↦ some (c ∷ q)
  | none ↦ if is_slash c then some [] else none
]

-- `path` without trailing separators.
trim_slashes : FilePath → FilePath
trim_slashes [] = []
trim_slashes (c ∷ p) = let q = trim_slashes p in if is_slash c && is_empty q then [] else c ∷ q

-- What is behind the last separator.
unfoldable pub filename : FilePath → FilePath
unfolding before_last_slash
filename [] = []
filename (c ∷ p) =
    let rest = filename p in
    elim (before_last_slash p) [ some q ↦ rest | none ↦ if is_slash c then p else c ∷ p ]

-- All but the last element. The parent of the root is the root, and a path of one name has none.
unfoldable pub parent_path : FilePath → FilePath
unfolding before_last_slash trim_slashes
parent_path p = elim (before_last_slash p) [
  | none ↦ []
  | some q ↦ let r = trim_slashes q in if is_empty r then slash ∷ [] else r
]

unfoldable pub has_parent_path : FilePath → Bool
unfolding parent_path
has_parent_path p = not (is_empty (parent_path p))
