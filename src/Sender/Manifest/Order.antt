-- ===== src/Sender/Manifest/Order.antt =====
-- The order of a manifest: strictly ascending paths, and no path of the scan lost.
use xfer.Base.{◌≡◌, inl, inr, refl, ◌∙◌, arith, true, false, Bool-cases}
use xfer.Base.{List, [], ◌∷◌, All, Any, bytes_eq, bytes_eq→eq}
use xfer.Os.{FilePath}
use xfer.Wire.{FileEntry}
use xfer.Sender.Manifest.{path_ltb, insert, sort, unique_from, unique}

-- The paths go up, from `e` on.
abbrev pub IsAscending : List FileEntry → Type 0
IsAscending [] = Unit {0}
IsAscending (e ∷ es) = All (λ x. path_ltb e.rel_path x.rel_path ≡ true) es × IsAscending es

-- The paths do not go down.
abbrev IsSorted : List FileEntry → Type 0
IsSorted [] = Unit {0}
IsSorted (e ∷ es) = All (λ x. path_ltb x.rel_path e.rel_path ≡ false) es × IsSorted es

path_ltb_self : (p : FilePath) → path_ltb p p ≡ false
unfolding path_ltb
path_ltb_self [] = refl
path_ltb_self (c ∷ p) = ground (arith, path_ltb_self p)

-- Neither is below the other only if they are the same.
path_ltb_total :
    (p q : FilePath) → path_ltb q p ≡ false → bytes_eq p q ≡ false → path_ltb p q ≡ true
unfolding path_ltb
path_ltb_total [] [] h k = absurd (cc)
path_ltb_total [] (d ∷ q) h k = refl
path_ltb_total (c ∷ p) [] h k = absurd (cc)
path_ltb_total (c ∷ p) (d ∷ q) h k = ground (arith, path_ltb_total p q)

path_ltb_asym : (p q : FilePath) → path_ltb p q ≡ true → path_ltb q p ≡ false
unfolding path_ltb
path_ltb_asym p [] h = absurd (ground arith)
path_ltb_asym [] (d ∷ q) h = refl
path_ltb_asym (c ∷ p) (d ∷ q) h = ground (arith, path_ltb_asym p q)

-- Not to be below is transitive.
path_ltb_trans :
    (p q r : FilePath) → path_ltb q p ≡ false → path_ltb r q ≡ false → path_ltb r p ≡ false
unfolding path_ltb
path_ltb_trans [] q r h k = ground arith
path_ltb_trans (c ∷ p) [] r h k = absurd (cc)
path_ltb_trans (c ∷ p) (d ∷ q) [] h k = absurd (cc)
path_ltb_trans (c ∷ p) (d ∷ q) (e ∷ r) h k = ground (arith, path_ltb_trans p q r)

below_trans : (p q r : FilePath) → path_ltb p q ≡ true → path_ltb r q ≡ false → path_ltb p r ≡ true
below_trans p q r h k = elim (Bool-cases (path_ltb p r)) [
  | inl e ↦ e
  | inr e ↦ absurd (cc (h, path_ltb_trans q r p k e))
]

insert-All :
    (P : FileEntry → Type 0) (e : FileEntry) (xs : List FileEntry)
    → P e
    → All P xs
    → All P (insert e xs)
unfolding insert
insert-All P e [] h hs = (h, tt)
insert-All P e (x ∷ xs) h (k, ks) = elim (Bool-cases (path_ltb x.rel_path e.rel_path)) [
  | inl b ↦ simp b (k, insert-All P e xs h ks)
  | inr b ↦ simp b (h, (k, ks))
]

insert-Any :
    (P : FileEntry → Type 0) (e : FileEntry) (xs : List FileEntry)
    → Any P (e ∷ xs)
    → Any P (insert e xs)
unfolding insert
insert-Any P e [] h = h
insert-Any P e (x ∷ xs) h = elim (Bool-cases (path_ltb x.rel_path e.rel_path)) [
  | inl b ↦ simp b (later (insert-Any P e xs) h)
  | inr b ↦ simp b h
]
  where
    later : (Any P (e ∷ xs) → Any P (insert e xs)) → Any P (e ∷ x ∷ xs) → Any P (x ∷ insert e xs)
    later rest (inl k) = inr (rest (inl k))
    later rest (inr (inl k)) = inl k
    later rest (inr (inr k)) = inr (rest (inr k))

All-map :
    (P Q : FileEntry → Type 0) (xs : List FileEntry)
    → ((x : FileEntry) → P x → Q x)
    → All P xs
    → All Q xs
All-map P Q [] f h = tt
All-map P Q (x ∷ xs) f (h, hs) = (f x h, All-map P Q xs f hs)

insert-IsSorted : (e : FileEntry) (xs : List FileEntry) → IsSorted xs → IsSorted (insert e xs)
unfolding insert
insert-IsSorted e [] h = (tt, tt)
insert-IsSorted e (x ∷ xs) (h, hs) = elim (Bool-cases (path_ltb x.rel_path e.rel_path)) [
  | inl b ↦
      simp b (insert-All _ e xs (path_ltb_asym x.rel_path e.rel_path b) h, insert-IsSorted e xs hs)
  | inr b ↦ simp b (
    (refl, All-map _ _ xs (λ y k. path_ltb_trans e.rel_path x.rel_path y.rel_path b k) h),
    (h, hs),
  )
]

sort-IsSorted : (es : List FileEntry) → IsSorted (sort es)
unfolding sort
sort-IsSorted [] = tt
sort-IsSorted (e ∷ es) = insert-IsSorted e (sort es) (sort-IsSorted es)

sort-All : (P : FileEntry → Type 0) (es : List FileEntry) → All P es → All P (sort es)
unfolding sort
sort-All P [] h = tt
sort-All P (e ∷ es) (h, hs) = insert-All P e (sort es) h (sort-All P es hs)

sort-Any : (P : FileEntry → Type 0) (es : List FileEntry) → Any P es → Any P (sort es)
unfolding sort
sort-Any P [] h = h
sort-Any P (e ∷ es) (inl h) = insert-Any P e (sort es) (inl h)
sort-Any P (e ∷ es) (inr h) = insert-Any P e (sort es) (inr (sort-Any P es h))

unique_from-All :
    (P : FileEntry → Type 0) (x : FileEntry) (ys : List FileEntry)
    → P x
    → All P ys
    → All P (unique_from x ys)
unfolding unique_from
unique_from-All P x [] h hs = (h, tt)
unique_from-All P x (y ∷ ys) h (k, ks) = elim (Bool-cases (bytes_eq x.rel_path y.rel_path)) [
  | inl b ↦ simp b (unique_from-All P x ys h ks)
  | inr b ↦ simp b (h, unique_from-All P y ys k ks)
]

-- An entry is dropped only behind one with the same path.
unique_from-Any :
    (p : FilePath) (x : FileEntry) (ys : List FileEntry)
    → Any (λ e. e.rel_path ≡ p) (x ∷ ys)
    → Any (λ e. e.rel_path ≡ p) (unique_from x ys)
unfolding unique_from
unique_from-Any p x [] h = h
unique_from-Any p x (y ∷ ys) h = elim (Bool-cases (bytes_eq x.rel_path y.rel_path)) [
  | inl b ↦ simp b (unique_from-Any p x ys (merged (bytes_eq→eq _ _ b) h))
  | inr b ↦ simp b (later (unique_from-Any p y ys) h)
]
  where
    merged :
        x.rel_path ≡ y.rel_path
        → Any (λ e. e.rel_path ≡ p) (x ∷ y ∷ ys)
        → Any (λ e. e.rel_path ≡ p) (x ∷ ys)
    merged same (inl k) = inl k
    merged same (inr (inl k)) = inl (same ∙ k)
    merged same (inr (inr k)) = inr k

    later :
        (Any (λ e. e.rel_path ≡ p) (y ∷ ys) → Any (λ e. e.rel_path ≡ p) (unique_from y ys))
        → Any (λ e. e.rel_path ≡ p) (x ∷ y ∷ ys)
        → Any (λ e. e.rel_path ≡ p) (x ∷ unique_from y ys)
    later rest (inl k) = inl k
    later rest (inr k) = inr (rest k)

unique_from-IsAscending :
    (x : FileEntry) (ys : List FileEntry) → IsSorted (x ∷ ys) → IsAscending (unique_from x ys)
unfolding unique_from
unique_from-IsAscending x [] h = (tt, tt)
unique_from-IsAscending x (y ∷ ys) ((h, hs), (k, ks)) =
    elim (Bool-cases (bytes_eq x.rel_path y.rel_path)) [
      | inl b ↦ simp b (unique_from-IsAscending x ys (hs, ks))
      | inr b ↦
          let above = path_ltb_total x.rel_path y.rel_path h b in
          simp b (
            unique_from-All _ y ys above
                (All-map _ _ ys (λ z. below_trans x.rel_path y.rel_path z.rel_path above) k),
            unique_from-IsAscending y ys (k, ks),
          )
    ]

All-Any_self : (es : List FileEntry) → All (λ x. Any (λ y. y ≡ x) es) es
All-Any_self [] = tt
All-Any_self (e ∷ es) = (inl refl, All-map _ _ es (λ x h. inr h) (All-Any_self es))

-- What `std::sort` and `std::unique` make of the scanned entries.
pub unique-sort_lem :
    (out : List FileEntry)
    → IsAscending (unique (sort out))
      × All (λ x. Any (λ y. y ≡ x) out) (unique (sort out))
      × ((p : FilePath)
          → Any (λ e. e.rel_path ≡ p) out
          → Any (λ e. e.rel_path ≡ p) (unique (sort out)))
unfolding unique
unique-sort_lem out =
    go (sort out) (sort-IsSorted out) (sort-All _ out (All-Any_self out)) (λ p. sort-Any _ out)
  where
    go :
        (es : List FileEntry)
        → IsSorted es
        → All (λ x. Any (λ y. y ≡ x) out) es
        → ((p : FilePath) → Any (λ e. e.rel_path ≡ p) out → Any (λ e. e.rel_path ≡ p) es)
        → IsAscending (unique es)
          × All (λ x. Any (λ y. y ≡ x) out) (unique es)
          × ((p : FilePath) → Any (λ e. e.rel_path ≡ p) out → Any (λ e. e.rel_path ≡ p) (unique es))
    go [] sorted from kept = (tt, tt, kept)
    go (x ∷ es) sorted (f, from) kept = (
      unique_from-IsAscending x es sorted,
      unique_from-All _ x es f from,
      λ p h. unique_from-Any p x es (kept p h),
    )
