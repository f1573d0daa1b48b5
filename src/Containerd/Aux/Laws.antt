-- ===== src/Containerd/Aux/Laws.antt =====
-- Reads after writes of the map of auxiliary processes.
use runj.Containerd.Process.{ManagedProcess}
use runj.Containerd.Shim.{Shim}
use runj.Prelude.{
  true, false, eq_refl, Bool, refl, ap, String, ◌≡◌, Option, none, some, List, [], ◌∷◌, arith,
  eq_iff, ◌==◌, if◌then◌else◌,
}
use runj.Containerd.Aux.{
  Target, primary_process, aux_process, update, process_of, lookup, adjust, remove,
}

pub Option-injective : {A : Type 0} {a b : A} → some a ≡ some b → a ≡ b
Option-injective e = cc

abbrev pub map_option {ℓ} : {V : Type ℓ} → (V → V) → Option V → Option V
map_option f none = none
map_option f (some v) = some (f v)

module _ {ℓ} {V : Type ℓ} where
  pub lookup-adjust :
      (k j : String) (f : V → V) (m : List (String × V))
      → lookup j (adjust k f m) ≡ (if k == j then map_option f (lookup j m) else lookup j m)
  unfolding lookup adjust
  lookup-adjust k j f [] = ground arith
  lookup-adjust k j f ((i, w) ∷ m) =
      ground (arith, eq_iff k j, eq_iff i k, eq_iff i j, lookup-adjust k j f m)

  pub lookup-remove :
      (k j : String) (m : List (String × V))
      → lookup j (remove k m) ≡ (if k == j then none else lookup j m)
  unfolding lookup remove
  lookup-remove k j [] = ground arith
  lookup-remove k j ((i, w) ∷ m) =
      ground (arith, eq_iff k j, eq_iff i k, eq_iff i j, lookup-remove k j m)

  pub adjust-adjust :
      (k : String) (f g : V → V) (m : List (String × V))
      → adjust k f (adjust k g m) ≡ adjust k (λ v. f (g v)) m
  unfolding adjust
  adjust-adjust k f g [] = refl
  adjust-adjust k f g ((i, w) ∷ m) = ground (arith, adjust-adjust k f g m)

  pub remove-adjust :
      (k : String) (f : V → V) (m : List (String × V)) → remove k (adjust k f m) ≡ remove k m
  unfolding remove adjust
  remove-adjust k f [] = refl
  remove-adjust k f ((i, w) ∷ m) = ground (arith, remove-adjust k f m)

-- Two writes through one pointer are one.
pub update-update :
    (t : Target) (f g : ManagedProcess → ManagedProcess) (s : Shim)
    → update t f (update t g s) ≡ update t (λ m. f (g m)) s
unfolding update
update-update primary_process f g s = refl
update-update (aux_process id) f g s =
    ap (λ l. record s { auxiliary = l }) (adjust-adjust id f g s.auxiliary)

-- What was written is read.
pub process_of-update :
    (t : Target) (f : ManagedProcess → ManagedProcess) (s : Shim)
    → process_of t (update t f s) ≡ map_option f (process_of t s)
unfolding update process_of
process_of-update primary_process f s = refl
process_of-update (aux_process id) f s = simp (lookup-adjust, eq_refl)

abbrev pub same_target : Target → Target → Bool
same_target primary_process primary_process = true
same_target (aux_process i) (aux_process j) = i == j
same_target _ _ = false

-- A write leaves the other processes alone.
pub process_of-update_other :
    (t u : Target) (f : ManagedProcess → ManagedProcess) (s : Shim)
    → same_target t u ≡ false
    → process_of u (update t f s) ≡ process_of u s
unfolding update process_of
process_of-update_other primary_process primary_process f s h = cc
process_of-update_other primary_process (aux_process j) f s h = refl
process_of-update_other (aux_process i) primary_process f s h = refl
process_of-update_other (aux_process i) (aux_process j) f s h = simp (lookup-adjust, h)
