-- ===== src/Containerd/Exits.antt =====
-- containerd/shim.go: the exits that the reaper reports.
pub mod Record
pub mod Reused
use runj.Prelude.{◌==◌, if◌then◌else◌, String, true, Option, none, some, List, [], ◌∷◌, ok}
use runj.Status.{status_stopped}
use runj.Containerd.Process.{ManagedProcess, Exit, Stdio, no_stdio, set_state, set_exited}
use runj.Containerd.Shim.{
  Task, Event, task_exit, pure, gets, modify, ignore, send, u32, ◌>>=◌, ◌>>◌,
}
use runj.Containerd.Command.{Host, exec_kill}
use runj.Containerd.Aux.{
  Target, primary_process, aux_process, set, process_of, find_process, close_waitblock,
}
use runj.Containerd.Io.{close_stdio}

abbrev pub target_id : Target → String
target_id primary_process = ""
target_id (aux_process id) = id

abbrev pub streams : Option ManagedProcess → Stdio
streams none = no_stdio
streams (some m) = m.pio

-- The end of checkProcesses: the exit is published, the streams are closed, and those that wait
-- are told.
unfoldable pub publish_and_close : Event → Target → Task (Unit {0})
unfolding send close_stdio close_waitblock process_of
publish_and_close exit t = do
  send exit
  pio ← gets (λ s. streams (process_of t s))
  modify (close_stdio pio)
  close_waitblock t

-- checkProcesses after the kill
unfoldable pub note_exit : Exit → Target → Task (Unit {0})
unfolding publish_and_close
note_exit e t = do
  set t (set_state status_stopped)
  set t (set_exited e)
  id ← gets (λ s. s.id)
  publish_and_close (task_exit id (target_id t) (u32 e.pid) (u32 e.status) e.timestamp) t

module _ (h : Host) where
  -- When the process without an exec id exits, the others are killed; that this fails is only
  -- logged.
  unfoldable pub kill_children : Target → Task (Unit {0})
  unfolding exec_kill
  kill_children t s =
      if target_id t == "" then ignore (exec_kill h s.id "KILL" true 0) s else (ok tt, s)

  unfoldable pub record_exit : Exit → Target → Task (Unit {0})
  unfolding kill_children note_exit
  record_exit e t = kill_children t >> note_exit e t

  abbrev pub found : Exit → Option Target → Task (Unit {0})
  found e none s = (ok tt, s)
  found e (some t) s = record_exit e t s

  -- checkProcesses
  unfoldable pub check_processes : Exit → Task (Unit {0})
  unfolding record_exit find_process
  check_processes e s = found e (find_process e.pid s) s

  -- processExits: an exit after another, until one panics
  unfoldable pub process_exits : List Exit → Task (Unit {0})
  unfolding check_processes
  process_exits [] = pure tt
  process_exits (e ∷ es) = check_processes e >>= λ _. process_exits es
