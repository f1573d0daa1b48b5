-- ===== src/Runj/Create/Trace.antt =====
-- Traces of the create command: what a command adds to the effects, and traces in which all that
-- is made is unmade in the reverse order.
use runj.Prelude.{
  some, refl, subst, ◌≡◌, ◌≢◌, ◌⊎◌, inl, inr, List, [], ◌∷◌, ◌++◌, append-nil, append_assoc, ok,
  err, ℕ, String, Result-cases,
}
use runj.Oci
use runj.Jail.Params.{CreateParams}
use runj.Jail.Mount.{MountError, not_mounted, Fs, mount, unmount}
use runj.Runj.Store.{
  World, Effect, Command, CommandError, Output, ◌>>=◌, make_jail, remove_jail, mounting,
  start_entrypoint, kill_entrypoint, run_hook, write_pid_file, move_interface,
}
use runj.Runj.Store.Laws.{Along, Along-bind}
use runj.Runj.Create.{on_failure}

-- An effect, and what undoes it.
pub data Undoes (fs : Fs) : Effect → Effect → Type 0 where
  jail : (p : CreateParams) (jid : ℕ) → Undoes fs (make_jail p jid) remove_jail
  mounts :
      (root : String) (ms : List Oci.Mount)
      → Undoes fs (mounting (mount fs root ms).1) (mounting (unmount fs root ms).1)
  entrypoint :
      (args env : List String) (pid : ℕ)
      → Undoes fs (start_entrypoint args env pid) (kill_entrypoint pid)

-- An effect that nothing undoes: a hook, the pid file, the move of an interface, which ends with
-- the jail, and a Mount that fails: where mount(8) fails it has unmounted what it had mounted, and
-- where a source or a mount point cannot be had it has left the mounts before it in place.
pub data Passing (fs : Fs) : Effect → Type 0 where
  hook : (path : String) (o : Output) → Passing fs (run_hook path o)
  pid_file : (path text : String) → Passing fs (write_pid_file path text)
  interface : (name arg : String) (jid : ℕ) → Passing fs (move_interface name arg jid)
  unwound_mount :
      (root : String) (ms : List Oci.Mount)
      → (mount fs root ms).0 ≡ some not_mounted
      → Passing fs (mounting (mount fs root ms).1)
  stopped_mount :
      (root : String) (ms : List Oci.Mount) (e : MountError)
      → e ≢ not_mounted
      → (mount fs root ms).0 ≡ some e
      → Passing fs (mounting (mount fs root ms).1)

pub data Undone (fs : Fs) : List Effect → Type 0 where
  nothing : Undone fs []
  beside : {x : Effect} {xs : List Effect} → Passing fs x → Undone fs xs → Undone fs (x ∷ xs)
  within :
      {x y : Effect} {xs zs : List Effect}
      → Undoes fs x y
      → Undone fs xs
      → Undone fs zs
      → Undone fs (x ∷ xs ++ y ∷ zs)

module _ {fs : Fs} where
  pub Undone-append : (xs ys : List Effect) → Undone fs xs → Undone fs ys → Undone fs (xs ++ ys)
  Undone-append _ ys nothing v = v
  Undone-append _ ys (beside {x} {xs} p u) v = beside p (Undone-append xs ys u v)
  Undone-append _ ys (within {x} {y} {xs} {zs} p u u2) v =
      subst (Undone fs) (rw append_assoc) (within p u (Undone-append zs ys u2 v))

-- What is added to the effects from one world to another is undone.
abbrev pub Trace : Fs → World → World → Type 0
Trace fs w w' = (t : List Effect) × (w'.effects ≡ w.effects ++ t) × Undone fs t

module _ (fs : Fs) where
  pub Trace-refl : (w w' : World) → w'.effects ≡ w.effects → Trace fs w w'
  Trace-refl w w' e = ([], rw (e, append-nil), nothing)

  pub Trace-trans : (u v w : World) → Trace fs u v → Trace fs v w → Trace fs u w
  Trace-trans u v w (s, e, p) (t, f, q) = (s ++ t, rw (f, e, append_assoc), Undone-append s t p q)

  pub Trace-start : (w : World) → Trace fs w w
  Trace-start w = Trace-refl w w refl

  -- A command whose effects are undone, whatever it returns; and one of which this holds where it
  -- fails.
  abbrev pub Passes {ℓ} : {A : Type ℓ} → Command A → Type 0
  Passes m = Along (Trace fs) m

  abbrev pub Unwinds {ℓ} : {A : Type ℓ} → Command A → Type ℓ
  Unwinds m = (w : World) (e : CommandError) → (m w).0 ≡ err e → Trace fs w (m w).1

  -- A command that makes `x`, or fails without a trace, and one that undoes it.
  abbrev pub Makes {ℓ} : {A : Type ℓ} → Command A → (A → Effect) → Type ℓ
  Makes {A = A} m x =
      (w : World)
      → ((a : A) × ((m w).0 ≡ ok a) × ((m w).1.effects ≡ w.effects ++ x a ∷ []))
        ⊎ ((e : CommandError) × ((m w).0 ≡ err e) × Trace fs w (m w).1)

  pub Unwinds-on_failure {ℓ} :
      {A : Type ℓ} (c : Command (Unit {0})) (body : Command A)
      → Passes c
      → Unwinds body
      → Unwinds (on_failure c body)
  unfolding on_failure
  Unwinds-on_failure c body p q w e h = elim (Result-cases (body w).0) [
    | inl (b, s) ↦ absurd (cc (rw (on_failure, s) at h))
    | inr (e', s) ↦ rw s (Trace-trans w (body w).1 (c (body w).1).1 (q w e' s) (p (body w).1))
  ]

  module _ {ℓ κ} {A : Type ℓ} {B : Type κ} where
    pub Passes-bind :
        (m : Command A) (f : A → Command B) → Passes m → ((a : A) → Passes (f a)) → Passes (m >>= f)
    Passes-bind m f p q = Along-bind (Trace fs) Trace-trans m f p q

    pub Unwinds-bind :
        (m : Command A) (f : A → Command B)
        → Passes m
        → ((a : A) → Unwinds (f a))
        → Unwinds (m >>= f)
    Unwinds-bind m f p q w e h = elim (Result-cases (m w).0) [
      | inl (a, r) ↦ rw r (Trace-trans w (m w).1 (f a (m w).1).1 (p w) (q a (m w).1 e (rw r at h)))
      | inr (x, r) ↦ rw r (p w)
    ]

    -- What comes first does nothing outside.
    pub Makes-bind :
        (m : Command A) (f : A → Command B) (x : B → Effect)
        → ((w : World) → (m w).1.effects ≡ w.effects)
        → ((a : A) → Makes (f a) x)
        → Makes (m >>= f) x
    Makes-bind m f x silent q w = elim (Result-cases (m w).0) [
      | inr (e, r) ↦ inr (e, rw r, rw r (Trace-refl w (m w).1 (silent w)))
      | inl (a, r) ↦ elim (q a (m w).1) [
        | inl (b, s, made) ↦ inl (b, rw (r, s), rw (r, made, silent w))
        | inr (e, s, t) ↦ inr (
          e,
          rw (r, s),
          rw r (Trace-trans w (m w).1 (f a (m w).1).1 (Trace-refl w (m w).1 (silent w)) t),
        )
      ]
    ]

    pub Unwinds-within :
        (m : Command A) (x : A → Effect) (c : A → Command (Unit {0})) (y : A → Effect)
        (body : A → Command B)
        → Makes m x
        → ((a : A) (w : World) → (c a w).1.effects ≡ w.effects ++ y a ∷ [])
        → ((a : A) → Undoes fs (x a) (y a))
        → ((a : A) → Unwinds (body a))
        → Unwinds (m >>= λ a. on_failure (c a) (body a))
    unfolding on_failure
    Unwinds-within m x c y body makes cleans p q w e h = elim (makes w) [
      | inr (e', r, t) ↦ rw r t
      | inl (a, r, made) ↦ elim (Result-cases (body a (m w).1).0) [
        | inl (b, s) ↦ absurd (cc (rw (r, on_failure, s) at h))
        | inr (e', s) ↦
            let (t, f, u) = q a (m w).1 e' s in
            (
              x a ∷ t ++ y a ∷ [],
              rw (r, s, cleans a (body a (m w).1).1, f, made, append_assoc, append_assoc),
              within (p a) u nothing,
            )
      ]
    ]
