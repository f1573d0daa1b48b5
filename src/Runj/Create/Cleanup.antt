-- ===== src/Runj/Create/Cleanup.antt =====
-- The deferred functions of cmd/runj/create.go, for commands that relate the worlds around them.
use runj.Prelude.{◌≡◌, refl, inl, inr, ok, err, Result, Result-cases, subst}
use runj.Runj.Store.{World, Command, CommandError, panicked}
use runj.Runj.Store.Laws.{Along}
use runj.Runj.Create.{on_failure, caught, settle_caught}

module _ (R : World → World → Type 0) where
  pub Along-caught : (m : Command (Unit {0})) → Along R m → Along R (caught m)
  unfolding caught
  Along-caught m p w = subst (λ v. R w v) (same (m w).0) (p w)
    where
      same : (r : Result CommandError (Unit {0})) → (m w).1 ≡ (settle_caught r (m w).1).1
      same (ok a) = refl
      same (err panicked) = refl
      same (err e) = refl

  pub Along-on_failure {ℓ} :
      {A : Type ℓ} (c : Command (Unit {0})) (body : Command A)
      → ((u v w : World) → R u v → R v w → R u w)
      → Along R c
      → Along R body
      → Along R (on_failure c body)
  unfolding on_failure
  Along-on_failure c body trans p q w = elim (Result-cases (body w).0) [
    | inl (b, s) ↦ rw s (q w)
    | inr (e, s) ↦ rw s (trans w (body w).1 (c (body w).1).1 (q w) (p (body w).1))
  ]
