-- ===== src/Containerd/Task.antt =====
-- containerd/shim.go: the other methods of the task API.
use runj.Prelude.{
  ℕ, String, Bool, true, false, not, ◌||◌, Option, none, some, ◌==◌, ◌!=◌, ◌==ℕ◌, if◌then◌else◌,
  ◌%◌,
}
use runj.Text.Decimal.{itoa}
use runj.Status.{status_creating, status_created, status_running, status_stopped}
use runj.FilePath.{join}
use runj.Containerd.Process.{ManagedProcess, Exit, set_specfile}
use runj.Containerd.Shim.{
  Task, invalid_argument, failed_precondition, not_implemented, failed, recursive_unmount,
  remove_file, resize, does, pure, raise, gets, refuse_if, u32, ◌>>=◌, ◌>>◌,
}
use runj.Containerd.Command.{Host, exec_state, exec_kill, exec_delete}
use runj.Containerd.Aux.{aux_process, set, get_auxiliary, close_waitblock, delete_auxiliary}

pub record DeleteResponse : Type 0 where
  pub exited_at : ℕ
  pub exit_status : ℕ

-- tasktypes.Status
pub data TaskStatus : Type 0 where
  unknown created running stopped : TaskStatus

pub record StateResponse : Type 0 where
  pub id : String
  pub exec_id : String
  pub bundle : String
  pub pid : ℕ
  pub status : TaskStatus
  pub exited_at : Option ℕ
  pub exit_status : ℕ

-- Wait blocks on the channel, or answers.
pub data WaitResponse : Type 0 where
  blocked : WaitResponse
  exited : ℕ → ℕ → WaitResponse

-- 128 + SIGKILL
abbrev pub killed_status : ℕ
killed_status = 137

-- runjStatusToContainerdStatus
unfoldable pub task_status : String → TaskStatus
task_status s =
    if s == status_creating
    then unknown
    else if s == status_created
    then created
    else if s == status_running
    then running
    else if s == status_stopped
    then stopped
    else unknown

abbrev is_stopped : TaskStatus → Bool
is_stopped stopped = true
is_stopped _ = false

-- Where the container's state is stopped, the exit that the shim recorded goes into the answer.
unfoldable pub with_exit : StateResponse → Exit → StateResponse
with_exit r e =
    if is_stopped r.status
    then record r { exited_at = some e.timestamp; exit_status = u32 e.status }
    else r

-- Kill's checks of an exec id, and the pid that it goes to.
unfoldable pub kill_target : String → Task ℕ
unfolding get_auxiliary
kill_target exec_id =
    if exec_id != ""
    then (do
      aux ← get_auxiliary exec_id
      refuse_if (aux.state != status_running) invalid_argument
      refuse_if (aux.pid ==ℕ 0) invalid_argument
      pure aux.pid)
    else pure 0

-- The console of a process, for ResizePty.
unfoldable pub console_of : String → Task (Option ℕ)
unfolding get_auxiliary
console_of exec_id =
    if exec_id == ""
    then gets (λ s. s.primary.con)
    else (do aux ← get_auxiliary exec_id; pure aux.con)

-- The process of a Wait request.
unfoldable pub waited_process : String → Task ManagedProcess
unfolding get_auxiliary
waited_process exec_id = if exec_id != "" then get_auxiliary exec_id else gets (λ s. s.primary)

module _ (h : Host) where
  -- delete
  unfoldable pub delete_container : String → Task DeleteResponse
  unfolding exec_kill exec_delete
  delete_container bundle_path = do
    id ← gets (λ s. s.id)
    exec_kill h id "KILL" true 0
    exec_delete h id
    does (recursive_unmount (join bundle_path "rootfs"))
    pure (record { exited_at = h.now; exit_status = killed_status })

  -- deleteAux, with the process that it found
  unfoldable pub delete_found : String → ManagedProcess → Task DeleteResponse
  unfolding close_waitblock delete_auxiliary
  delete_found exec_id aux = do
    refuse_if (aux.state == status_running) invalid_argument
    if aux.state == status_creating || aux.state == status_created
        then close_waitblock (aux_process exec_id)
        else pure tt
    if aux.specfile != ""
        then (do does (remove_file aux.specfile); set (aux_process exec_id) (set_specfile ""))
        else pure tt
    delete_auxiliary exec_id
    pure (record { exited_at = h.now; exit_status = killed_status })

  -- deleteAux
  unfoldable pub delete_aux : String → Task DeleteResponse
  unfolding get_auxiliary delete_found
  delete_aux exec_id = do aux ← get_auxiliary exec_id; delete_found exec_id aux

  -- Delete
  unfoldable pub delete : String → String → Task DeleteResponse
  unfolding delete_container delete_aux
  delete req_id exec_id = do
    id ← gets (λ s. s.id)
    refuse_if (req_id != id) invalid_argument
    path ← gets (λ s. s.bundle_path)
    if exec_id != ""
        then delete_aux exec_id
        else (do refuse_if (path == "") failed_precondition; delete_container path)

  -- stateAux
  unfoldable pub state_aux : String → Task StateResponse
  unfolding get_auxiliary task_status
  state_aux exec_id = do
    aux ← get_auxiliary exec_id
    id ← gets (λ s. s.id)
    pure (record {
      id = id;
      exec_id = exec_id;
      bundle = "";
      pid = u32 aux.pid;
      status = task_status aux.state;
      exited_at = some aux.exit.timestamp;
      exit_status = u32 aux.exit.status;
    })

  unfoldable pub state_primary : String → Task StateResponse
  unfolding exec_state task_status with_exit
  state_primary req_id = do
    id ← gets (λ s. s.id)
    refuse_if (req_id != id) invalid_argument
    path ← gets (λ s. s.bundle_path)
    st ← exec_state h id
    exit ← gets (λ s. s.primary.exit)
    pure (
        with_exit
          (record {
            id = id;
            exec_id = "";
            bundle = path;
            pid = u32 st.pid;
            status = task_status st.status;
            exited_at = none;
            exit_status = 0;
          })
          exit)

  -- State
  unfoldable pub state : String → String → Task StateResponse
  unfolding state_aux state_primary
  state req_id exec_id = if exec_id != "" then state_aux exec_id else state_primary req_id

  -- Kill
  unfoldable pub kill : String → String → ℕ → Bool → Task (Unit {0})
  unfolding kill_target exec_kill
  kill req_id exec_id signal all = do
    pid ← kill_target exec_id
    id ← gets (λ s. s.id)
    refuse_if (req_id != id) invalid_argument
    exec_kill h id (itoa signal) all pid

  unfoldable pub resize_console : Option ℕ → ℕ → ℕ → Task (Unit {0})
  resize_console none width height = pure tt
  resize_console (some con) width height = do
    does (resize con (width % 65536) (height % 65536))
    refuse_if (not h.resize) failed

  -- ResizePty
  unfoldable pub resize_pty : String → String → ℕ → ℕ → Task (Unit {0})
  unfolding console_of resize_console
  resize_pty req_id exec_id width height = do
    id ← gets (λ s. s.id)
    refuse_if (req_id != id) invalid_argument
    con ← console_of exec_id
    resize_console con width height

  -- Connect: the pids of the shim and of the primary process
  unfoldable pub connect : Task (ℕ × ℕ)
  connect = gets (λ s. (u32 h.shim_pid, u32 s.primary.pid))

abbrev pub answer : ManagedProcess → WaitResponse
answer m = if m.waitblock then blocked else exited (u32 m.exit.status) m.exit.timestamp

-- Wait, at a moment: blocked while the channel is open
unfoldable pub wait : String → String → Task WaitResponse
unfolding waited_process
wait req_id exec_id = do
  id ← gets (λ s. s.id)
  refuse_if (req_id != id) invalid_argument
  m ← waited_process exec_id
  pure (answer m)

-- Pids, Pause, Resume, Checkpoint, CloseIO, Update and Stats
unfoldable pub unsupported : Task (Unit {0})
unsupported = raise not_implemented
