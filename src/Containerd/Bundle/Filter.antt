-- ===== src/Containerd/Bundle/Filter.antt =====
-- Which mounts are taken out of a bundle.
use runj.Containerd.Bundle.Equal.{SameMount, equal_mounts_lem}
use runj.Containerd.Aux.Laws.{Option-injective}
use runj.Oci.{Mount}
use runj.Containerd.Bundle.{find_mount, filter_mounts, is_filtered}
use runj.Prelude.{
  eq_iff, arith, Bool, ne→eq_false, false, subst, ◌==◌, Option-cases, true, some, ◌≡◌, ◌≢◌, String,
  List, All, ◌∷◌, [], refl, inl, inr, sym, ◌∙◌, ◌↔◌, ◌⊎◌, Bool-cases,
}

abbrev pub In : Mount → List Mount → Type 0
In m [] = ⊥
In m (x ∷ xs) = (x ≡ m) ⊎ In m xs

-- A mount of the table, but for its mappings of user and group ids
abbrev pub Listed : Mount → List Mount → Type 0
Listed m [] = ⊥
Listed m (x ∷ xs) = SameMount m x ⊎ Listed m xs

-- A Go map has each key once.
abbrev pub Unique : List Mount → Type 0
Unique [] = Unit
Unique (x ∷ xs) = All (λ y. x.destination ≢ y.destination) xs × Unique xs

find_mount-Listed :
    (d : String) (t : List Mount) (m x : Mount)
    → find_mount d t ≡ some x
    → SameMount m x
    → Listed m t
unfolding find_mount
find_mount-Listed d [] m x e same = cc
find_mount-Listed d (y ∷ t) m x e same = elim (Bool-cases (y.destination == d)) [
  | inl here ↦ inl (subst (SameMount m) (sym (Option-injective (rw here at e))) same)
  | inr other ↦ inr (find_mount-Listed d t m x (rw other at e) same)
]

Listed-destination :
    (x m : Mount) (t : List Mount)
    → All (λ y. x.destination ≢ y.destination) t
    → Listed m t
    → x.destination ≢ m.destination
Listed-destination x m [] n i p = absurd i
Listed-destination x m (y ∷ t) (n, ns) (inl same) p = n (p ∙ same.1)
Listed-destination x m (y ∷ t) (n, ns) (inr i) p = Listed-destination x m t ns i p

Listed-find_mount :
    (t : List Mount) (m : Mount)
    → Unique t
    → Listed m t
    → (x : Mount) × (find_mount m.destination t ≡ some x) × SameMount m x
unfolding find_mount
Listed-find_mount [] m u i = absurd i
Listed-find_mount (x ∷ t) m (n, u) (inl same) =
    let here : (x.destination == m.destination) ≡ true =
      (eq_iff x.destination m.destination).1 (sym same.1) in
    (x, rw here refl, same)
Listed-find_mount (x ∷ t) m (n, u) (inr i) =
    let other : (x.destination == m.destination) ≡ false =
      ne→eq_false x.destination m.destination (Listed-destination x m t n i) in
    let (y, e, same) = Listed-find_mount t m u i in (y, rw other e, same)

-- A mount is left out exactly where it is one of the table's but for its mappings, in a table with
-- each destination once.
is_filtered_lem : (t : List Mount) (m : Mount) → Unique t → (is_filtered t m ≡ true) ↔ Listed m t
unfolding is_filtered
is_filtered_lem t m u = (forward, backward)
  where
    forward : is_filtered t m ≡ true → Listed m t
    forward e = elim (Option-cases (find_mount m.destination t)) [
      | inl absent ↦ cc (rw absent at e)
      | inr (x, there) ↦
          find_mount-Listed m.destination t m x there ((equal_mounts_lem m x).0 (rw there at e))
    ]

    backward : Listed m t → is_filtered t m ≡ true
    backward i =
        let (x, e, same) = Listed-find_mount t m u i in rw e ((equal_mounts_lem m x).1 same)

kept_and_out : (b : Bool) → b ≡ false → ¬ (b ≡ true)
kept_and_out b k o = ground arith

abbrev pub Kept : List Mount → List Mount → Mount → Type 0
Kept t ms m = In m ms × ¬ Listed m t

-- In a table with each destination once: the mounts that a bundle keeps are those of its mounts
-- that agree with none of the table's in destination, type, source and options; the mappings of
-- user and group ids do not count.
pub filter_mounts_lem :
    (t ms : List Mount) (m : Mount) → Unique t → In m (filter_mounts t ms) ↔ Kept t ms m
unfolding filter_mounts
filter_mounts_lem t [] m u = (λ i. absurd i, λ k. k.0)
filter_mounts_lem t (x ∷ ms) m u =
    let ih : In m (filter_mounts t ms) ↔ Kept t ms m = filter_mounts_lem t ms m u in
    elim (Bool-cases (is_filtered t x)) [
      | inl out ↦
          let x_in : Listed x t = (is_filtered_lem t x u).0 out in
          rw (out) (
            λ i. let k = ih.0 i in (inr k.0, k.1),
            λ (i, n). elim i [
              | inl e ↦ absurd (n (subst (λ y. Listed y t) e x_in))
              | inr j ↦ ih.1 (j, n)
            ],
          )
      | inr kept ↦
          let not_in : ¬ Listed x t =
            λ j. kept_and_out (is_filtered t x) kept ((is_filtered_lem t x u).1 j) in
          rw (kept) (
            λ i. elim i [
              | inl e ↦ (inl e, λ j. not_in (subst (λ y. Listed y t) (sym e) j))
              | inr j ↦ let k = ih.0 j in (inr k.0, k.1)
            ],
            λ (i, n). elim i [ inl e ↦ inl e | inr j ↦ inr (ih.1 (j, n)) ],
          )
    ]
