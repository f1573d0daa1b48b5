-- ===== src/Runj/Commands.antt =====
-- cmd/runj/start.go, kill.go, state.go and delete.go: the OCI operations on a container that has
-- been created.
pub mod Files
pub mod Laws
use runj.Prelude.{
  false, ◌++◌, err, [], ◌∷◌, ok, List, true, ℕ, String, Bool, Option, none, some, not, ◌==◌, ◌!=◌,
  ◌==ℕ◌, ◌&&◌, if◌then◌else◌, is_empty,
}
use runj.Text.Decimal.{ℤ}
use runj.Status.{status_running, status_stopped}
use runj.Oci
use runj.Oci.Merge.{merge}
use runj.Jail.Ps.{Ps, is_running}
use runj.Runj.Store.{
  panicked, hook_failed, run_hook, unmount_all, not_saved, remove_jail, terminate, not_stopped,
  State, Output, output, no_config, no_process, already_running, jail_failed, fifo_failed,
  unknown_signal, not_running, both_targets, kill_all, kill_process, open_fifo, Disk, Command, done,
  answered, fails_if, effect, load, save, ◌>>=◌, ◌>>◌,
}

-- What the rest of the program and the kernel answer to a command.
pub record Answers : Type 0 where
  pub disk : Disk
  -- reading and parsing the copies of config.json and runj.ext.json
  pub parse_spec : String → Option Oci.Spec
  pub parse_extension : String → Option Oci.Ext
  pub ps : Ps
  -- whether exec.fifo is opened in time and read, has data, and can be removed
  pub open_fifo : Bool
  pub fifo_data : Bool
  pub remove_fifo : Bool
  pub kill : Bool
  -- the load of the state in CleanupEntrypoint
  pub cleanup_entrypoint : Bool
  -- jail.FromName, and the removal of that jail
  pub find_jail : Bool
  pub remove_jail : Bool
  pub unmount : Bool
  pub remove_state : Bool
  pub hook : Oci.Hook → Bool
  -- runtimespec.Version
  pub version : String

unfoldable pub missing_process : Option Oci.Process → Bool
missing_process none = true
missing_process (some p) = is_empty p.args

module _ (a : Answers) where
  -- What LoadConfig reads: the copies of the bundle's files, merged.
  unfoldable pub config_of : Option String → Option String → Option Oci.Spec
  config_of none extension = none
  config_of (some text) none = a.parse_spec text
  config_of (some text) (some extra) = elim (a.parse_spec text) [
    | none ↦ none
    | some spec ↦ elim (a.parse_extension extra) [
      | none ↦ none
      | some ext ↦ merge (some spec) (some ext)
    ]
  ]

  -- LoadConfig
  unfoldable pub load_config : Command Oci.Spec
  load_config w = answered (config_of w.config w.extension) no_config w

  -- AwaitFifoOpen, handleFifoResult and readFromExecFifo
  unfoldable pub await_fifo : Command (Unit {0})
  await_fifo = do
    effect open_fifo
    there ← (λ w. (ok w.fifo, w))
    fails_if (not there) fifo_failed
    fails_if (not a.open_fifo) fifo_failed
    fails_if (not a.fifo_data) fifo_failed
    fails_if (not a.remove_fifo) fifo_failed
    (λ w. (ok tt, record w { fifo = false }))

  unfoldable pub start : Command (Unit {0})
  unfolding missing_process load_config load save await_fifo
  start = do
    config ← load_config
    fails_if (missing_process config.process) no_process
    s ← load
    if s.status == status_running
        then (do
          running ← answered (is_running a.ps s.pid) jail_failed
          fails_if running already_running)
        else done tt
    await_fifo
    save a.disk (record s { status = status_running })

  -- A running container whose process is gone is stopped; `forget` clears its pid.
  unfoldable pub refresh : (State → State) → State → Command State
  unfolding save
  refresh forget s =
      if s.status == status_running
      then (do
        running ← answered (is_running a.ps s.pid) jail_failed
        if running then done s else (do
          save a.disk (forget (record s { status = status_stopped }))
          done (forget (record s { status = status_stopped }))))
      else done s

  -- The state command, up to its printing.
  unfoldable pub state : Command Output
  unfolding load refresh output
  state = do s ← load; t ← refresh (λ s. record s { pid = 0 }) s; done (output a.version t)

  -- The kill command, with `signal` the answer of parseSignal
  unfoldable pub kill : Option ℤ → Bool → ℕ → Command (Unit {0})
  unfolding load refresh
  kill signal all pid = do
    fails_if (all && not (pid ==ℕ 0)) both_targets
    n ← answered signal unknown_signal
    s ← load
    t ← refresh (λ s. s) s
    fails_if (t.status != status_running) not_running
    effect (if all then kill_all n else kill_process (if pid ==ℕ 0 then t.pid else pid) n)
    fails_if (not a.kill) jail_failed

  -- hook.Run: the arguments of a hook are taken from the second on, and `a.hook` is whether the
  -- program runs and succeeds within its time.
  unfoldable pub hook_run : Oci.Hook → Output → Command (Unit {0})
  hook_run k out w = if is_empty k.args then (err panicked, w) else (
    if a.hook k then ok tt else err hook_failed,
    record w { effects = w.effects ++ run_hook k.path out ∷ [] },
  )

  -- The loop over the hooks
  unfoldable pub run_hooks : List Oci.Hook → Output → Command (Unit {0})
  unfolding hook_run
  run_hooks [] out = done tt
  run_hooks (k ∷ ks) out = hook_run k out >> run_hooks ks out

  abbrev pub poststop : Option Oci.Hooks → List Oci.Hook
  poststop none = []
  poststop (some hooks) = hooks.poststop

  -- state.Remove
  unfoldable pub remove_state : Command (Unit {0})
  remove_state w =
      if a.remove_state
      then (
        ok tt,
        record w {
          state_file = false;
          state = none;
          config = none;
          extension = none;
          fifo = false;
        },
      )
      else (err not_saved, w)

  -- The delete command from its removal of the state on
  unfoldable pub finish_delete : State → Oci.Spec → Command (Unit {0})
  unfolding run_hooks remove_state output
  finish_delete s config = do
    remove_state
    run_hooks (poststop config.hooks)
        (record (output a.version s) { annotations = config.annotations })

  -- CleanupEntrypoint: whether the signal arrives is not looked at.
  unfoldable pub clean_up_entrypoint : State → Command (Unit {0})
  clean_up_entrypoint s = do
    fails_if (not a.cleanup_entrypoint) jail_failed
    if s.pid ==ℕ 0 then done tt else effect (terminate s.pid)

  unfoldable pub delete : Command (Unit {0})
  unfolding load load_config clean_up_entrypoint finish_delete
  delete = do
    s ← load
    running ← answered (is_running a.ps 0) jail_failed
    fails_if running not_stopped
    clean_up_entrypoint s
    fails_if (not a.find_jail) jail_failed
    effect remove_jail
    fails_if (not a.remove_jail) jail_failed
    config ← load_config
    effect unmount_all
    fails_if (not a.unmount) jail_failed
    finish_delete s config
