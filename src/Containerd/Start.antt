-- ===== src/Containerd/Start.antt =====
-- containerd/shim.go: Start, for the primary process and for the others.
use runj.Prelude.{ℕ, String, Bool, Option, none, some, ◌==◌, ◌!=◌, if◌then◌else◌, Result, ok, err}
use runj.Status.{status_created, status_running, status_stopped}
use runj.Oci
use runj.Containerd.Process.{ManagedProcess, set_pid, set_console, set_state}
use runj.Containerd.Shim.{
  Task, Error, invalid_argument, panicked, task_start, task_exec_started, pure, raise, lift, gets,
  refuse_if, attempt, send, u32, ◌>>=◌, ◌>>◌,
}
use runj.Containerd.Command.{Host, exec_state, exec_start, exec_exec}
use runj.Containerd.Aux.{aux_process, set, get_auxiliary, close_waitblock}

-- spec.Terminal, of a spec that is there
unfoldable pub spec_terminal : Option Oci.Process → Result Error Bool
spec_terminal none = err panicked
spec_terminal (some p) = ok p.terminal

-- What startAux does with the answer of execExec.
unfoldable pub note_started : String → String → Result Error (ℕ × Option ℕ) → Task ℕ
unfolding set_pid send close_waitblock
note_started id exec_id (err e) = do
  set (aux_process exec_id) (set_state status_stopped)
  close_waitblock (aux_process exec_id)
  raise e
note_started id exec_id (ok (pid, con)) = do
  set (aux_process exec_id) (λ m. (set_pid m pid).1)
  set (aux_process exec_id) (set_console con)
  set (aux_process exec_id) (set_state status_running)
  send (task_exec_started id exec_id (u32 pid))
  pure (u32 pid)

module _ (h : Host) where
  unfoldable pub start_primary : String → Task ℕ
  unfolding exec_state exec_start send
  start_primary id = do
    st ← exec_state h id
    self ← gets (λ s. s.id)
    exec_start h self
    send (task_start self (u32 st.pid))
    pure (u32 st.pid)

  -- startAux, with the process that it found
  unfoldable pub start_found : String → String → ManagedProcess → Task ℕ
  unfolding note_started exec_exec spec_terminal
  start_found id exec_id proc = do
    refuse_if (proc.state != status_created) invalid_argument
    terminal ← lift (spec_terminal proc.spec)
    answer ← attempt (exec_exec h id proc.specfile terminal)
    note_started id exec_id answer

  unfoldable pub start_aux : String → String → Task ℕ
  unfolding start_found get_auxiliary
  start_aux id exec_id = do proc ← get_auxiliary exec_id; start_found id exec_id proc

  -- Start
  unfoldable pub start : String → String → Task ℕ
  unfolding start_primary start_aux
  start req_id exec_id = do
    id ← gets (λ s. s.id)
    refuse_if (req_id != id) invalid_argument
    if exec_id == "" then start_primary id else start_aux id exec_id
