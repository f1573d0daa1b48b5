-- ===== src/Containerd/Bundle/Equal.antt =====
-- equalMounts is equality but for the mappings of ids.
use runj.Oci.{Mount}
use runj.Containerd.Bundle.{Mount, length, equal_options, equal_mounts}
use runj.Prelude.{
  subst, ◌∙◌, ◌==◌, length, true, String, ◌≡◌, List, ◌∷◌, [], ap, eq_iff, eq_refl, refl, inl, inr,
  Bool-cases, ◌↔◌, arith,
}

equal_options-eq : (a b : List String) → length a ≡ length b → equal_options a b ≡ true → a ≡ b
unfolding equal_options
equal_options-eq [] [] l e = refl
equal_options-eq [] (y ∷ b) l e = ground arith
equal_options-eq (x ∷ a) [] l e = ground arith
equal_options-eq (x ∷ a) (y ∷ b) l e = elim (Bool-cases (x == y)) [
  | inl same ↦
      ap (λ z. z ∷ a) ((eq_iff x y).0 same)
      ∙ ap (λ c. y ∷ c) (equal_options-eq a b (ground (arith, l)) (ground (arith, e, same)))
  | inr other ↦ ground (arith, e, other)
]

equal_options_refl : (a : List String) → equal_options a a ≡ true
unfolding equal_options
equal_options_refl [] = refl
equal_options_refl (x ∷ a) = rw (eq_refl, equal_options_refl a) refl

-- Two mounts agree in their destination, type, source and options; the mappings of user and group
-- ids may differ.
abbrev pub SameMount : Mount → Mount → Type 0
SameMount a b =
    (a.source ≡ b.source)
    × (a.destination ≡ b.destination)
    × (a.type ≡ b.type)
    × (a.options ≡ b.options)

-- equalMounts of two mounts is true exactly where they have the same source, destination, type and
-- options, in the same order, whatever mappings of user and group ids they have.
pub equal_mounts_lem : (a b : Mount) → (equal_mounts a b ≡ true) ↔ SameMount a b
unfolding equal_mounts
equal_mounts_lem a b = (forward, backward)
  where
    forward : equal_mounts a b ≡ true → SameMount a b
    forward e =
        let so : a.source ≡ b.source = (eq_iff a.source b.source).0 (ground (arith, e)) in
        let de : a.destination ≡ b.destination =
          (eq_iff a.destination b.destination).0 (ground (arith, e)) in
        let ty : a.type ≡ b.type = (eq_iff a.type b.type).0 (ground (arith, e)) in
        let le : length a.options ≡ length b.options = ground (arith, e) in
        let op : a.options ≡ b.options =
          equal_options-eq a.options b.options le (ground (arith, e)) in
        (so, de, ty, op)

    backward : SameMount a b → equal_mounts a b ≡ true
    backward (so, de, ty, op) = ground (
      arith,
      (eq_iff a.source b.source).1 so,
      (eq_iff a.destination b.destination).1 de,
      (eq_iff a.type b.type).1 ty,
      ap (λ (l : List String). length l) op,
      subst (λ (l : List String). equal_options a.options l ≡ true) op
          (equal_options_refl a.options),
    )
