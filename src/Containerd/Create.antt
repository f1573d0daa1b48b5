-- ===== src/Containerd/Create.antt =====
-- containerd/shim.go: Create sets up a container, Exec registers another process in it.
pub mod Unwind
pub mod Ran
use runj.Prelude.{
  ℕ, String, Bool, true, not, Option, none, some, List, if◌then◌else◌, Result, ok, err,
}
use runj.Status.{status_created}
use runj.Oci
use runj.Containerd.Process.{
  Stdio, set_pid, set_stdio, set_console, set_spec, set_specfile, set_state,
}
use runj.Containerd.Shim.{
  Shim, Task, Error, invalid_argument, failed, CMount, task_create, task_exec_added,
  recursive_unmount, write_process, act, does, pure, lift, gets, modify, refuse_if,
  deferred_on_error, send, u32, ◌>>=◌, ◌>>◌,
}
use runj.Containerd.Command.{Host, exec_create, exec_state}
use runj.Containerd.Aux.{primary_process, aux_process, set, new_auxiliary, set_bundle_path}
use runj.Containerd.Io.{
  Options, close_stdio, setup_io, setup_runj_extension, filter_incompatible_linux_mounts,
  make_rootfs, mount_components,
}

pub record CreateRequest : Type 0 where
  pub id : String
  pub bundle : String
  pub rootfs : List CMount
  pub terminal : Bool
  pub stdin : String
  pub stdout : String
  pub stderr : String
  pub options : Options

-- The spec of an Exec request: unmarshalling fails, gives another type, or gives a process.
pub data SpecAny : Type 0 where
  bad_spec other_spec : SpecAny
  process_spec : Oci.Process → SpecAny

pub record ExecRequest : Type 0 where
  pub exec_id : String
  pub terminal : Bool
  pub stdin : String
  pub stdout : String
  pub stderr : String
  pub spec : SpecAny

-- SetPID on the primary process; its error is not looked at.
unfoldable pub set_primary_pid : ℕ → Shim → Shim
unfolding set_pid
set_primary_pid pid s = record s { primary = (set_pid s.primary pid).1 }

-- A request's process, which runs in a terminal if the request says so.
unfoldable pub process_of_any : SpecAny → Bool → Result Error Oci.Process
process_of_any bad_spec terminal = err invalid_argument
process_of_any other_spec terminal = err invalid_argument
process_of_any (process_spec p) terminal = ok (if terminal then record p { terminal = true } else p)

-- The end of Create: the pid that `runj state` gave is stored and published.
unfoldable pub note_created : CreateRequest → ℕ → Task ℕ
unfolding set_primary_pid send
note_created req pid = do
  modify (set_primary_pid pid)
  send (task_create req.id req.bundle req.rootfs (u32 pid))
  pure (u32 pid)

module _ (h : Host) where
  -- The part of Create after `runj create`.
  unfoldable pub after_create : CreateRequest → Stdio → Option ℕ → Task ℕ
  unfolding exec_state note_created
  after_create req pio con = do
    set primary_process (set_stdio pio)
    set primary_process (set_console con)
    st ← exec_state h req.id
    note_created req st.pid

  -- The part of Create under its two `defer`s that has the streams.
  unfoldable pub create_container : CreateRequest → Stdio × Result Error (Unit {0}) → Task ℕ
  unfolding exec_create after_create
  create_container req (pio, opened) = do
    lift opened
    con ← exec_create h req.id req.bundle req.terminal
    after_create req pio con

  -- The part of Create before its `defer`s: the bundle's files and its rootfs. What mounting a
  -- component returns is in a variable of its own, so the `defer` that unmounts the rootfs does not
  -- see it.
  unfoldable pub prepare_bundle : CreateRequest → Task String
  unfolding setup_runj_extension filter_incompatible_linux_mounts make_rootfs mount_components
  prepare_bundle req = do
    setup_runj_extension h req.bundle req.options
    filter_incompatible_linux_mounts h req.bundle
    rootfs ← make_rootfs h req.bundle req.rootfs
    mount_components h rootfs req.rootfs
    pure rootfs

  unfoldable pub create_mounted : CreateRequest → String → Task ℕ
  unfolding create_container setup_io close_stdio
  create_mounted req rootfs =
      let io = setup_io h req.stdin req.stdout req.stderr in
      deferred_on_error (act (recursive_unmount rootfs))
        (deferred_on_error (close_stdio io.0) (create_container req io))

  -- Create
  unfoldable pub create : CreateRequest → Task ℕ
  unfolding prepare_bundle create_mounted set_bundle_path
  create req = do
    modify (λ s. record s { id = req.id })
    modify (λ s. (set_bundle_path req.bundle s).1)
    rootfs ← prepare_bundle req
    create_mounted req rootfs

  unfoldable pub temp_file : Task String
  temp_file s = (elim h.create_temp [ none ↦ err failed | some name ↦ ok name ], s)

  -- The end of Exec: the process is written to a file and published.
  unfoldable pub write_specfile : ExecRequest → Oci.Process → String → Task (Unit {0})
  unfolding send
  write_specfile req spec name = do
    does (write_process name spec)
    refuse_if (not h.encode_process) failed
    set (aux_process req.exec_id) (set_specfile name)
    id ← gets (λ s. s.id)
    send (task_exec_added id req.exec_id)

  -- The part of Exec under its `defer`.
  unfoldable pub exec_prepare :
      ExecRequest → Oci.Process → Stdio × Result Error (Unit {0}) → Task (Unit {0})
  unfolding temp_file write_specfile
  exec_prepare req spec (pio, opened) = do
    lift opened
    set (aux_process req.exec_id) (set_stdio pio)
    name ← temp_file
    write_specfile req spec name

  -- Exec, once the process is registered
  unfoldable pub exec_registered : ExecRequest → Oci.Process → Task (Unit {0})
  unfolding exec_prepare setup_io close_stdio
  exec_registered req spec = do
    set (aux_process req.exec_id) (set_spec spec)
    set (aux_process req.exec_id) (set_state status_created)
    let io = setup_io h req.stdin req.stdout req.stderr
    deferred_on_error (close_stdio io.0) (exec_prepare req spec io)

  -- Exec
  unfoldable pub exec : ExecRequest → Task (Unit {0})
  unfolding exec_registered process_of_any new_auxiliary
  exec req = do
    spec ← lift (process_of_any req.spec req.terminal)
    new_auxiliary req.exec_id
    exec_registered req spec
