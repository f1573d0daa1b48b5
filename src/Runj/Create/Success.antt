-- ===== src/Runj/Create/Success.antt =====
-- What a create command that succeeds leaves behind.
use runj.Prelude.{
  not, false, ◌≡◌, refl, sym, ap, inl, inr, some, ok, Result-ok, ℕ, String, Bool, true,
  Result-cases, Bool-cases, arith, ◌∙◌,
}
use runj.FilePath.{join}
use runj.Status.{status_created}
use runj.Oci
use runj.Runj.Store.{fails_if, no_directory, done, save, State, World, Command, ◌>>◌}
use runj.Runj.Commands.{config_of}
use runj.Runj.Create.{
  Surroundings, new_state, create_state, initialize, store_config, copy_config, copy_extension,
  copy_file,
}
use runj.Runj.Create.Stages
use runj.Runj.Create.Kept.{Keeps-configured}
use runj.Runj.Create.Prepared.{bind-succeeds, configured_succeeds}

module _ (h : Surroundings) (id socket pid_file : String) where
  store_config_succeeds :
      (bundle : String) (w : World)
      → (store_config h bundle w).0 ≡ ok tt
      → (store_config h bundle w).1.config ≡ h.read (join bundle "config.json")
  unfolding store_config copy_config copy_extension copy_file
  store_config_succeeds bundle w r = ground arith

  create_state_succeeds :
      (bundle : String) (w : World) (s : State)
      → (create_state h id bundle w).0 ≡ ok s
      → (w.state_file ≡ false)
        × ((create_state h id bundle w).1.state_file ≡ true)
        × (s ≡ new_state id bundle)
  unfolding create_state initialize save
  create_state_succeeds bundle w s r =
      let n = new_state id bundle in
      let (_, p, r1, e1) =
        bind-succeeds (fails_if (not h.make_dir) no_directory) (λ _. initialize h n >> done n) w
          r in
      let (_, q, r2, e2) = bind-succeeds (initialize h n) (λ _. done n) w r1 in
      (ground arith, ground arith, sym (Result-ok r2))

  close_succeeds :
      (body : Command (State × Bool)) (v : World)
      → (Stages.close h id socket pid_file body v).0 ≡ ok tt
      → h.last_save.rename ≡ true
      → (s : State) × ((body v).0 ≡ ok (s, false))
        × ((Stages.close h id socket pid_file body v).1 ≡ (
            let u : World = (body v).1 in
            record u { state_file = true; state = some (record s { status = status_created }) }))
  unfolding Stages.close save
  close_succeeds body v r renames = elim (Result-cases (body v).0) [
    | inr (e, f) ↦ absurd (cc (rw (Stages.close, f) at r))
    | inl ((s, true), f) ↦ absurd (cc (rw (Stages.close, f) at r))
    | inl ((s, false), f) ↦ elim (Bool-cases h.last_save.create_temp) [
      | inr full ↦ absurd (cc (rw (Stages.close, f, full) at r))
      | inl temp ↦ elim (Bool-cases h.last_save.write) [
        | inr full ↦ absurd (cc (rw (Stages.close, f, temp, full) at r))
        | inl written ↦ (s, f, rw (Stages.close, f, temp, written, renames) refl)
      ]
    ]
  ]

  -- A create command that succeeds was called where there was no state.json, and leaves a
  -- container in the state `created`, whose pid is that of the entrypoint, which waits at the
  -- fifo. Its config is a copy of the bundle's, and the version in the state is the config's.
  -- The last write of state.json can be renamed.
  pub create_lem :
      (bundle : String) (w : World)
      → (Stages.create h id socket pid_file bundle w).0 ≡ ok tt
      → h.last_save.rename ≡ true
      → let v = (Stages.create h id socket pid_file bundle w).1 in
        (w.state_file ≡ false)
        × (v.config ≡ h.read (join bundle "config.json"))
        × (v.fifo ≡ true)
        × ((pid : ℕ) × (spec : Oci.Spec) × (h.start_entrypoint ≡ some pid)
            × (config_of h.answers v.config v.extension ≡ some spec)
            × (v.state
                ≡ some (record {
                  id = id;
                  jid = 0;
                  status = status_created;
                  bundle = bundle;
                  pid = pid;
                  oci_version = spec.version;
                })))
  unfolding Stages.create Stages.configure
  create_lem bundle w r renames =
      let n = new_state id bundle in
      let body = Stages.configure h id socket pid_file bundle in
      let (s, made, closed, e1) =
        bind-succeeds (create_state h id bundle) (λ s. Stages.close h id socket pid_file (body s)) w
          r in
      let v : World = (create_state h id bundle w).1 in
      let (absent, there, new) = create_state_succeeds bundle w s made in
      let (t, fine, e2) = close_succeeds (body s) v closed renames in
      let (_, copied, done', e3) =
        bind-succeeds (store_config h bundle) (λ _. Stages.configured h id socket pid_file bundle s)
          v fine in
      let u : World = (store_config h bundle v).1 in
      let (spec, read, (pid, started, same, fifo)) =
        configured_succeeds h id socket pid_file bundle s t false u done' in
      let (k1, k2, k3, k4, k5) = Keeps-configured h id socket pid_file bundle s u in
      let V : World = (Stages.create h id socket pid_file bundle w).1 in
      let config : V.config ≡ u.config =
        ap (λ z. z.config) (e1 ∙ e2) ∙ ap (λ z. z.config) e3 ∙ k3 in
      let extension : V.extension ≡ u.extension =
        ap (λ z. z.extension) (e1 ∙ e2) ∙ ap (λ z. z.extension) e3 ∙ k4 in
      (
        absent,
        config ∙ store_config_succeeds bundle v copied,
        ap (λ z. z.fifo) (e1 ∙ e2) ∙ ap (λ z. z.fifo) e3 ∙ fifo,
        (
          pid,
          spec,
          started,
          ap (λ c. config_of h.answers c V.extension) config
              ∙ ap (λ x. config_of h.answers u.config x) extension
              ∙ read,
          ap (λ z. z.state) (e1 ∙ e2)
              ∙ ap {A = State} (λ z. some (record z { status = status_created }))
                  (same
                    ∙ ap {A = State} (λ z. record z { pid = pid; oci_version = spec.version }) new),
        ),
      )
