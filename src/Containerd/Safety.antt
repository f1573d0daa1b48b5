-- ===== src/Containerd/Safety.antt =====
-- Rules by which a method is safe at a state: it does not panic and keeps the invariant.
pub mod Commands
pub mod Queries
pub mod Create
pub mod Exec
pub mod Start
pub mod Delete
use runj.Prelude.{
  if◌then◌else◌, String, ◌≡◌, ◌≢◌, refl, Bool, true, false, Option, none, some, arith, Result, ok,
  err, ap,
}
use runj.Containerd.Shim.{
  on_error, continue, Shim, Task, Error, panicked, invalid_argument, failed_precondition, failed,
  Event, Action, pure, raise, lift, gets, modify, refuse_if, does, act, ignore, attempt,
  deferred_on_error, send, ◌>>=◌, ◌>>◌,
}
use runj.Containerd.Process.{ManagedProcess}
use runj.Containerd.Aux.{Target, set, update, process_of}
use runj.Containerd.Invariant.{ProcessOk, Inv, update-Inv, same-Inv}

pub invalid_argument≢panicked : invalid_argument ≢ panicked
invalid_argument≢panicked e = cc

pub failed_precondition≢panicked : failed_precondition ≢ panicked
failed_precondition≢panicked e = cc

pub failed≢panicked : failed ≢ panicked
failed≢panicked e = cc

pub record SafeAt {ℓ} {A : Type ℓ} (m : Task A) (s : Shim) : Type ℓ where
  pub no_panic : (m s).0 ≢ err panicked
  pub kept : Inv (m s).1

module _ {ℓ} {A : Type ℓ} (s : Shim) (v : Inv s) where
  pub SafeAt-pure : (a : A) → SafeAt (pure a) s
  SafeAt-pure a = record { no_panic = λ e. cc; kept = v }

  pub SafeAt-raise : (e : Error) → e ≢ panicked → SafeAt {A = A} (raise e) s
  SafeAt-raise e h = record { no_panic = λ p. h (cc); kept = v }

  pub SafeAt-lift : (r : Result Error A) → r ≢ err panicked → SafeAt (lift r) s
  SafeAt-lift r h = record { no_panic = h; kept = v }

  pub SafeAt-gets : (f : Shim → A) → SafeAt (gets f) s
  SafeAt-gets f = record { no_panic = λ e. cc; kept = v }

module _ (s : Shim) (v : Inv s) where
  pub SafeAt-refuse_if : (b : Bool) (e : Error) → e ≢ panicked → SafeAt (refuse_if b e) s
  SafeAt-refuse_if true e h = record { no_panic = λ p. h (cc); kept = v }
  SafeAt-refuse_if false e h = record { no_panic = λ p. cc; kept = v }

  pub SafeAt-does : (a : Action) → SafeAt (does a) s
  SafeAt-does a = record { no_panic = λ e. cc; kept = same-Inv v refl refl refl }

  pub SafeAt-send : (e : Event) → SafeAt (send e) s
  unfolding send
  SafeAt-send e = record {
    no_panic = ground (arith, v.events_open);
    kept =
        same-Inv v (ground (arith, v.events_open)) (ground (arith, v.events_open))
          (ground (arith, v.events_open));
  }

  pub SafeAt-set :
      (t : Target) (f : ManagedProcess → ManagedProcess)
      → ((m : ManagedProcess) → process_of t s ≡ some m → ProcessOk (f m))
      → SafeAt (set t f) s
  SafeAt-set t f h = record { no_panic = λ e. cc; kept = update-Inv t f s v h }

pub SafeAt-modify : (s : Shim) (f : Shim → Shim) → Inv (f s) → SafeAt (modify f) s
SafeAt-modify s f v = record { no_panic = λ e. cc; kept = v }

module _ {ℓ κ} {A : Type ℓ} {B : Type κ} where
  pub SafeAt-bind :
      (m : Task A) (f : A → Task B) (s : Shim)
      → SafeAt m s
      → ((a : A) → (m s).0 ≡ ok a → Inv (m s).1 → SafeAt (f a) (m s).1)
      → SafeAt (m >>= f) s
  SafeAt-bind m f s hm hf =
      let x = go (m s).0 (m s).1 hm.no_panic hm.kept hf in record { no_panic = x.0; kept = x.1 }
    where
      go :
          (r : Result Error A) (t : Shim)
          → r ≢ err panicked
          → Inv t
          → ((a : A) → r ≡ ok a → Inv t → SafeAt (f a) t)
          → ((continue r f t).0 ≢ err panicked) × Inv (continue r f t).1
      go (ok a) t n v h = let x = h a refl v in (x.no_panic, x.kept)
      go (err e) t n v h = (λ p. n (cc), v)

  pub SafeAt-then :
      (m : Task A) (n : Task B) (s : Shim)
      → SafeAt m s
      → (Inv (m s).1 → SafeAt n (m s).1)
      → SafeAt (m >> n) s
  SafeAt-then m n s hm hn =
      let x = SafeAt-bind m (λ _. n) s hm (λ _ _ v. hn v) in
      record { no_panic = x.no_panic; kept = x.kept }

module _ {ℓ} {A : Type ℓ} where
  -- A cleanup that keeps the invariant, after a body that is safe.
  pub SafeAt-deferred :
      (f : Shim → Shim) (m : Task A) (s : Shim)
      → ((t : Shim) → Inv t → Inv (f t))
      → SafeAt m s
      → SafeAt (deferred_on_error f m) s
  SafeAt-deferred f m s hf hm =
      let x = go (m s).0 (m s).1 hm.no_panic hm.kept in record { no_panic = x.0; kept = x.1 }
    where
      go :
          (r : Result Error A) (t : Shim)
          → r ≢ err panicked
          → Inv t
          → ((on_error (r, t) f).0 ≢ err panicked) × Inv (on_error (r, t) f).1
      go (ok a) t n v = (n, v)
      go (err panicked) t n v = (n, v)
      go (err _) t n v = (n, hf t v)

  -- A failure that the caller looks at.
  pub SafeAt-attempt : (m : Task A) (s : Shim) → SafeAt m s → SafeAt (attempt m) s
  SafeAt-attempt m s h = record { no_panic = λ e. cc; kept = h.kept }

  pub SafeAt-ignore : (m : Task A) (s : Shim) → SafeAt m s → SafeAt (ignore m) s
  SafeAt-ignore m s h = record { no_panic = λ e. cc; kept = h.kept }

  pub SafeAt-if :
      (b : Bool) (m n : Task A) (s : Shim)
      → (b ≡ true → SafeAt m s)
      → (b ≡ false → SafeAt n s)
      → SafeAt (if b then m else n) s
  SafeAt-if true m n s hm hn = hm refl
  SafeAt-if false m n s hm hn = hn refl
