-- ===== src/Runj/Create/Kept.antt =====
-- What the create command makes between its first and its last write of state.json leaves that
-- file alone.
use runj.Prelude.{
  Result-cases, true, false, ◌≡◌, refl, inl, inr, Option, some, List, [], ◌∷◌, ◌++◌, ℕ, String,
  Bool, Bool-cases, arith, is_empty, ◌==ℕ◌, ◌∙◌, if◌then◌else◌,
}
use runj.Oci
use runj.Jail.Params.{CreateParams}
use runj.Runj.Store.{
  State, World, Command, CommandError, Output, output, ◌>>=◌, ◌>>◌, effect, fails_if, answered,
  done, remove_jail, move_interface, kill_entrypoint, vnet_failed, no_process,
}
use runj.Runj.Store.Laws.{Along, Along-bind, Along-answered, Along-fails_if}
use runj.Runj.Commands.{run_hooks, load_config, Answers}
use runj.Runj.Create.{
  valid_console, Surroundings, caught, store_config, copy_config, copy_extension, check_console,
  root_path, jail_params, create_runtime, jail_section, interfaces,
}
use runj.Runj.Create.Stages
use runj.Runj.Commands.Files.{run_hooks_files}
use runj.Runj.Create.Cleanup.{Along-caught, Along-on_failure}

abbrev pub KeptFiles : World → World → Type 0
KeptFiles w w' =
    (w'.state_file ≡ w.state_file)
    × (w'.state ≡ w.state)
    × (w'.config ≡ w.config)
    × (w'.extension ≡ w.extension)
    × (w.fifo ≡ true → w'.fifo ≡ true)

pub KeptFiles-start : (w : World) → KeptFiles w w
KeptFiles-start w = (refl, refl, refl, refl, λ f. f)

pub KeptFiles-trans : (u v w : World) → KeptFiles u v → KeptFiles v w → KeptFiles u w
KeptFiles-trans u v w (a, b, p, q, r) (c, d, x, y, z) = (c ∙ a, d ∙ b, x ∙ p, y ∙ q, λ f. z (r f))

abbrev pub Keeps {ℓ} : {A : Type ℓ} → Command A → Type 0
Keeps m = Along KeptFiles m

module _ {ℓ κ} {A : Type ℓ} {B : Type κ} where
  Keeps-bind :
      (m : Command A) (f : A → Command B) → Keeps m → ((a : A) → Keeps (f a)) → Keeps (m >>= f)
  Keeps-bind m f p q = Along-bind KeptFiles KeptFiles-trans m f p q

Keeps-answered {ℓ} : {A : Type ℓ} (o : Option A) (e : CommandError) → Keeps (answered o e)
Keeps-answered o e = Along-answered KeptFiles KeptFiles-start o e

pub Keeps-run_hooks : (a : Answers) (ks : List Oci.Hook) (o : Output) → Keeps (run_hooks a ks o)
Keeps-run_hooks a ks o w =
    let (p, q, r, s, t) = run_hooks_files a ks o w in (p, q, r, s, λ f. t ∙ f)

module _ (h : Surroundings) where
  store_config_state :
      (bundle : String) (w : World)
      → ((store_config h bundle w).1.state_file ≡ w.state_file)
        × ((store_config h bundle w).1.state ≡ w.state)
  unfolding store_config copy_config copy_extension
  store_config_state bundle w = (ground arith, ground arith)

  Keeps-check_console :
      (terminal : Bool) (socket : String) → Keeps (check_console h terminal socket)
  unfolding check_console valid_console
  Keeps-check_console terminal socket w =
      (ground arith, ground arith, ground arith, ground arith, λ f. ground arith)

  Keeps-create_jail : (p : CreateParams) → Keeps (Stages.create_jail h p)
  unfolding Stages.create_jail
  Keeps-create_jail p w =
      (ground arith, ground arith, ground arith, ground arith, λ f. ground arith)

  Keeps-move_each :
      (arg : String) (jid : ℕ) (is : List String) → Keeps (Stages.move_each h arg jid is)
  unfolding Stages.move_each
  Keeps-move_each arg jid [] w = (refl, refl, refl, refl, λ f. f)
  Keeps-move_each arg jid (i ∷ is) w =
      let ih =
        Keeps-move_each arg jid is
          (record w { effects = w.effects ++ move_interface i arg jid ∷ [] }) in
      elim (Bool-cases (h.ifconfig i arg)) [
        | inl good ↦ rw good ih
        | inr bad ↦ rw bad (refl, refl, refl, refl, λ f. f)
      ]

  Keeps-move_vnet :
      (spec : Oci.Spec) (jid : ℕ) (reverse : Bool)
      → Keeps (Stages.move_vnet_interfaces h spec jid reverse)
  unfolding Stages.move_vnet_interfaces
  Keeps-move_vnet spec jid reverse w =
      let names = interfaces (jail_section spec.freebsd) in
      let arg = if reverse then "-vnet" else "vnet" in
      elim (Bool-cases (is_empty names)) [
        | inl e ↦ rw e (refl, refl, refl, refl, λ f. f)
        | inr e ↦ rw e (
            Keeps-bind (fails_if (jid ==ℕ 0) vnet_failed) (λ _. Stages.move_each h arg jid names)
              (Along-fails_if KeptFiles KeptFiles-start (jid ==ℕ 0) vnet_failed)
              (λ _. Keeps-move_each arg jid names) w)
      ]

  Keeps-setup_entrypoint :
      (id : String) (init : Bool) (argv env : List String) (socket : String)
      → Keeps (Stages.setup_entrypoint h id init argv env socket)
  unfolding Stages.setup_entrypoint Stages.create_exec_fifo Stages.dial_console
  Keeps-setup_entrypoint id init argv env socket w =
      (ground arith, ground arith, ground arith, ground arith, λ f. ground arith)

  pub Keeps-hook_stage : (spec : Oci.Spec) (s : State) → Keeps (Stages.hook_stage h spec s)
  unfolding Stages.hook_stage
  Keeps-hook_stage spec s =
      let ks = create_runtime spec.hooks in
      let out = record (output h.answers.version s) { annotations = spec.annotations } in
      Keeps-bind (caught (run_hooks h.answers ks out)) (λ panics. done (s, panics))
        (Along-caught KeptFiles (run_hooks h.answers ks out) (Keeps-run_hooks h.answers ks out))
        (λ panics w. (refl, refl, refl, refl, λ f. f))

  pub Keeps-write_pid : (path : String) (pid : ℕ) → Keeps (Stages.write_pid h path pid)
  unfolding Stages.write_pid
  Keeps-write_pid path pid w =
      (ground arith, ground arith, ground arith, ground arith, λ f. ground arith)

  module _ (id socket pid_file : String) where
    Keeps-entrypoint_stage :
        (spec : Oci.Spec) (process : Oci.Process) (s : State)
        → Keeps (Stages.entrypoint_stage h id socket pid_file spec process s)
    unfolding Stages.entrypoint_stage
    Keeps-entrypoint_stage spec process s =
        Keeps-bind (Stages.setup_entrypoint h id true process.args process.env socket) _
          (Keeps-setup_entrypoint id true process.args process.env socket)
          (λ pid.
            Along-on_failure KeptFiles (effect (kill_entrypoint pid))
              (Stages.write_pid h pid_file pid >> Stages.hook_stage h spec (record s { pid = pid }))
              KeptFiles-trans (λ w. (refl, refl, refl, refl, λ f. f))
              (Keeps-bind (Stages.write_pid h pid_file pid)
                (λ _. Stages.hook_stage h spec (record s { pid = pid }))
                (Keeps-write_pid pid_file pid)
                (λ _. Keeps-hook_stage spec (record s { pid = pid }))))

    Keeps-vnet_stage :
        (spec : Oci.Spec) (process : Oci.Process) (jid : ℕ) (s : State)
        → Keeps (Stages.vnet_stage h id socket pid_file spec process jid s)
    unfolding Stages.vnet_stage
    Keeps-vnet_stage spec process jid s =
        Keeps-bind (Stages.move_vnet_interfaces h spec jid false) _ (Keeps-move_vnet spec jid false)
          (λ _.
            Along-on_failure KeptFiles (Stages.move_vnet_interfaces h spec jid true)
              (Stages.entrypoint_stage h id socket pid_file spec process s) KeptFiles-trans
              (Keeps-move_vnet spec jid true) (Keeps-entrypoint_stage spec process s))

    Keeps-mount_stage :
        (root : String) (spec : Oci.Spec) (process : Oci.Process) (jid : ℕ) (s : State)
        → Keeps (Stages.mount_stage h id socket pid_file root spec process jid s)
    unfolding Stages.mount_stage Stages.mount_all Stages.unmount_all
    Keeps-mount_stage root spec process jid s =
        Keeps-bind (Stages.mount_all h root spec.mounts) _ (λ w. (refl, refl, refl, refl, λ f. f))
          (λ _.
            Along-on_failure KeptFiles (Stages.unmount_all h root spec.mounts)
              (Stages.vnet_stage h id socket pid_file spec process jid s) KeptFiles-trans
              (λ w. (refl, refl, refl, refl, λ f. f)) (Keeps-vnet_stage spec process jid s))

    Keeps-jail_stage :
        (root : String) (spec : Oci.Spec) (process : Oci.Process) (s : State)
        → Keeps (Stages.jail_stage h id socket pid_file root spec process s)
    unfolding Stages.jail_stage
    Keeps-jail_stage root spec process s =
        Keeps-bind (Stages.create_jail h (jail_params id root spec)) _
          (Keeps-create_jail (jail_params id root spec))
          (λ jid.
            Along-on_failure KeptFiles (effect remove_jail)
              (Stages.mount_stage h id socket pid_file root spec process jid s) KeptFiles-trans
              (λ w. (refl, refl, refl, refl, λ f. f)) (Keeps-mount_stage root spec process jid s))

    -- What is done once the bundle's files are copied.
    pub Keeps-configured :
        (bundle : String) (s : State) → Keeps (Stages.configured h id socket pid_file bundle s)
    unfolding Stages.configured load_config
    Keeps-configured bundle s =
        Keeps-bind (load_config h.answers) _
          (λ w. (ground arith, ground arith, ground arith, ground arith, λ f. ground arith))
          (λ spec.
            Keeps-bind (answered spec.process no_process) _ (Keeps-answered spec.process no_process)
              (λ process.
                Keeps-bind (check_console h process.terminal socket) _
                  (Keeps-check_console process.terminal socket)
                  (λ _.
                    Keeps-jail_stage (root_path bundle spec.root)
                      (record spec { root = some (record { path = root_path bundle spec.root }) })
                      process (record s { oci_version = spec.version }))))

    pub configure_state :
        (bundle : String) (s : State) (w : World)
        → ((Stages.configure h id socket pid_file bundle s w).1.state_file ≡ w.state_file)
          × ((Stages.configure h id socket pid_file bundle s w).1.state ≡ w.state)
    unfolding Stages.configure
    configure_state bundle s w =
        let v : World = (store_config h bundle w).1 in
        let (a, b) = store_config_state bundle w in
        elim (Result-cases (store_config h bundle w).0) [
          | inr (e, r) ↦ rw r (a, b)
          | inl (u, r) ↦ let (x, y, p, q, r') = Keeps-configured bundle s v in rw r (x ∙ a, y ∙ b)
        ]
