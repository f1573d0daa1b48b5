-- ===== src/Runj/Create/Stages.antt =====
-- cmd/runj/create.go: the create command from the making of the jail on, a stage for each thing
-- that it makes. A stage is followed by the later ones under the deferred function that undoes it.
use runj.Prelude.{
  true, false, ℕ, String, Bool, Option, none, some, List, [], ◌∷◌, ◌++◌, not, ok, err, ◌!=◌, ◌==ℕ◌,
  if◌then◌else◌, is_empty,
}
use runj.Text.Decimal.{itoa}
use runj.Status.{status_created}
use runj.Oci
use runj.Jail.Params.{CreateParams, iovec}
use runj.Jail.Mount.{mount, unmount, MountError}
use runj.Runj.Store.{
  State, output, Command, done, answered, fails_if, effect, save, ◌>>=◌, ◌>>◌, fifo_path, panicked,
  jail_failed, mount_failed, vnet_failed, entrypoint_failed, fifo_failed, no_pid_file, no_process,
  make_jail, remove_jail, mounting, move_interface, kill_entrypoint, start_entrypoint,
  write_pid_file,
}
use runj.Runj.Commands.{load_config, run_hooks, remove_state}
use runj.Runj.Create.{
  Surroundings, on_failure, caught, root_path, jail_section, jail_params, interfaces,
  create_runtime, create_state, store_config, check_console,
}

abbrev is_some : Option MountError → Bool
is_some none = false
is_some (some e) = true

module _ (h : Surroundings) where
  -- jail.Create
  unfoldable pub create_jail : CreateParams → Command ℕ
  create_jail params = elim (iovec h.parse_addr params) [
    | err e ↦ (λ w. (err jail_failed, w))
    | ok iovecs ↦ (do
      jid ← answered (h.jail_set iovecs) jail_failed
      effect (make_jail params jid)
      done jid)
  ]

  unfoldable pub mount_all : String → List Oci.Mount → Command (Unit {0})
  mount_all root mounts = do
    effect (mounting (mount h.fs root mounts).1)
    fails_if (is_some (mount h.fs root mounts).0) mount_failed

  unfoldable pub unmount_all : String → List Oci.Mount → Command (Unit {0})
  unmount_all root mounts = do
    effect (mounting (unmount h.fs root mounts).1)
    fails_if (is_some (unmount h.fs root mounts).0) mount_failed

  unfoldable pub move_each : String → ℕ → List String → Command (Unit {0})
  move_each arg jid [] w = (ok tt, w)
  move_each arg jid (i ∷ is) w =
      let moved = record w { effects = w.effects ++ move_interface i arg jid ∷ [] } in
      let rest = move_each arg jid is moved in
      if h.ifconfig i arg then rest else (err vnet_failed, moved)

  -- MoveVNetInterfaces
  unfoldable pub move_vnet_interfaces : Oci.Spec → ℕ → Bool → Command (Unit {0})
  unfolding move_each jail_section interfaces
  move_vnet_interfaces spec jid reverse =
      let names = interfaces (jail_section spec.freebsd) in
      if is_empty names then done tt else (do
        fails_if (jid ==ℕ 0) vnet_failed
        move_each (if reverse then "-vnet" else "vnet") jid names)

  -- createExecFifo
  unfoldable pub create_exec_fifo : Command (Unit {0})
  create_exec_fifo w =
      if w.fifo
      then (err fifo_failed, w)
      else if not h.make_fifo
      then (err fifo_failed, w)
      else (ok tt, record w { fifo = true })

  -- The connection to the console socket, the first of the extra files
  unfoldable pub dial_console : String → Command (Unit {0})
  dial_console socket =
      if socket != ""
      then (do
        fails_if (not h.dial) entrypoint_failed
        fails_if (not h.unix_conn) entrypoint_failed
        fails_if (not h.conn_file) entrypoint_failed)
      else done tt

  -- stdioFdCount + len(cmd.ExtraFiles) - 1
  unfoldable pub console_env : String → List String
  console_env socket = if socket != "" then "__RUNJ_CONSOLE_SOCKET=3" ∷ [] else []

  -- SetupEntrypoint
  unfoldable pub setup_entrypoint : String → Bool → List String → List String → String → Command ℕ
  unfolding create_exec_fifo dial_console console_env
  setup_entrypoint id init argv env socket = do
    if init then create_exec_fifo else done tt
    dial_console socket
    pid ← answered h.start_entrypoint entrypoint_failed
    effect (
        start_entrypoint (id ∷ (if init then fifo_path id else "-") ∷ argv)
          (env ++ console_env socket) pid)
    done pid

  unfoldable pub write_pid : String → ℕ → Command (Unit {0})
  write_pid path pid =
      if path != ""
      then (do
        effect (write_pid_file path (itoa pid))
        fails_if (not (h.write_file path)) no_pid_file)
      else done tt

  -- The stages return the state, and whether a hook has panicked.
  unfoldable pub hook_stage : Oci.Spec → State → Command (State × Bool)
  unfolding caught run_hooks
  hook_stage spec s = do
    panics ← caught (
        run_hooks h.answers (create_runtime spec.hooks)
          (record (output h.answers.version s) { annotations = spec.annotations }))
    done (s, panics)

  module _ (id : String) (socket : String) (pid_file : String) where
    unfoldable pub entrypoint_stage : Oci.Spec → Oci.Process → State → Command (State × Bool)
    unfolding on_failure setup_entrypoint write_pid hook_stage
    entrypoint_stage spec process s = do
      pid ← setup_entrypoint id true process.args process.env socket
      on_failure (effect (kill_entrypoint pid))
          (do write_pid pid_file pid; hook_stage spec (record s { pid = pid }))

    unfoldable pub vnet_stage : Oci.Spec → Oci.Process → ℕ → State → Command (State × Bool)
    unfolding on_failure move_vnet_interfaces entrypoint_stage
    vnet_stage spec process jid s = do
      move_vnet_interfaces spec jid false
      on_failure (move_vnet_interfaces spec jid true) (entrypoint_stage spec process s)

    unfoldable pub mount_stage :
        String → Oci.Spec → Oci.Process → ℕ → State → Command (State × Bool)
    unfolding on_failure mount_all unmount_all vnet_stage
    mount_stage root spec process jid s = do
      mount_all root spec.mounts
      on_failure (unmount_all root spec.mounts) (vnet_stage spec process jid s)

    unfoldable pub jail_stage : String → Oci.Spec → Oci.Process → State → Command (State × Bool)
    unfolding on_failure create_jail jail_params mount_stage
    jail_stage root spec process s = do
      jid ← create_jail (jail_params id root spec)
      on_failure (effect remove_jail) (mount_stage root spec process jid s)

    -- The create command from the loading of the copied config to the last deferred function
    unfoldable pub configured : String → State → Command (State × Bool)
    unfolding load_config check_console root_path jail_stage
    configured bundle s = do
      spec ← load_config h.answers
      process ← answered spec.process no_process
      check_console h process.terminal socket
      let root = root_path bundle spec.root
      jail_stage root (record spec { root = some (record { path = root }) }) process
          (record s { oci_version = spec.version })

    unfoldable pub configure : String → State → Command (State × Bool)
    unfolding store_config configured
    configure bundle s = do store_config h bundle; configured bundle s

    -- The deferred function that runs last: it saves the state, or removes it.
    unfoldable pub close : Command (State × Bool) → Command (Unit {0})
    unfolding save remove_state
    close body w = elim (body w).0 [
      | ok (s, panics) ↦
          let saved = save h.last_save (record s { status = status_created }) (body w).1 in
          if panics then (err panicked, saved.1) else saved
      | err e ↦ (err e, (remove_state h.answers (body w).1).1)
    ]

    unfoldable pub create : String → Command (Unit {0})
    unfolding create_state configure close
    create bundle = do s ← create_state h id bundle; close (configure bundle s)
