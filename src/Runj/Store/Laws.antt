-- ===== src/Runj/Store/Laws.antt =====
-- Commands that relate the world before to the world after, whatever they return: the relation is
-- reflexive and transitive.
use runj.Prelude.{Bool, inl, inr, Option, none, some, Result-cases}
use runj.Runj.Store.{World, Command, CommandError, ◌>>=◌, answered, fails_if}

abbrev pub Along {ℓ} : (World → World → Type 0) → {A : Type ℓ} → Command A → Type 0
Along R m = (w : World) → R w (m w).1

module _ (R : World → World → Type 0) (R-refl : (w : World) → R w w) where
  pub Along-fails_if : (b : Bool) (e : CommandError) → Along R (fails_if b e)
  Along-fails_if b e w = R-refl w

  pub Along-answered {ℓ} : {A : Type ℓ} (o : Option A) (e : CommandError) → Along R (answered o e)
  Along-answered none e w = R-refl w
  Along-answered (some a) e w = R-refl w

module _ {ℓ κ} {A : Type ℓ} {B : Type κ} (R : World → World → Type 0)
    (R-trans : (u v w : World) → R u v → R v w → R u w) where
  pub Along-bind :
      (m : Command A) (f : A → Command B)
      → Along R m
      → ((a : A) → Along R (f a))
      → Along R (m >>= f)
  Along-bind m f p q w = elim (Result-cases (m w).0) [
    | inl (a, e) ↦ rw e (R-trans w (m w).1 (f a (m w).1).1 (p w) (q a (m w).1))
    | inr (x, e) ↦ rw e (p w)
  ]
