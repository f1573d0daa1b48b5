-- ===== src/Containerd/Race.antt =====
-- containerd/shim.go: startAux and the reaper's checkProcesses as two goroutines on one process
-- whose steps interleave. eventSendMu is held by startAux from its lock to its return, so that a
-- sendL of the reaper waits for it; each setter of managed_process.go is one step. The pids of
-- other processes are others, so findProcess finds this one exactly where its pid is stored.
pub mod Kept
pub mod Order
pub mod After
use runj.Prelude.{
  ℕ, String, Bool, true, false, ◌≡◌, Option, List, [], ◌∷◌, ◌++◌, ◌==ℕ◌, if◌then◌else◌,
}
use runj.Status.{status_created, status_running, status_stopped}
use runj.Containerd.Process.{ManagedProcess, Exit, set_pid, set_exited, set_console, set_state}
use runj.Containerd.Shim.{Event, task_exec_started, task_exit, u32}

-- Where startAux is.
pub data Starter : Type 0 where
  -- about to lock eventSendMu, to run execExec, and in it after the process has started
  locking executing awaiting : Starter
  -- about to store the pid, the console and the state, and to send the event
  storing_pid storing_console storing_state sending : Starter
  -- about to store the state of a failure, and to close the channel
  stopping closing : Starter
  returned failed : Starter

-- Where the exit of the process is.
pub data Reaper : Type 0 where
  -- there is no process; it runs; the reaper has received its exit
  unborn alive finding : Reaper
  -- about to store the state and the exit, to send the event, to close the streams and the channel
  stopping recording sending closing_streams closing : Reaper
  -- recorded, or dropped because no process was found
  ended dropped : Reaper

pub record System : Type 0 where
  pub starter : Starter
  pub reaper : Reaper
  pub proc : ManagedProcess
  pub events : List Event

-- startAux holds eventSendMu.
unfoldable pub holds_lock : Starter → Bool
holds_lock locking = false
holds_lock returned = false
holds_lock failed = false
holds_lock _ = true

-- What findProcess makes of an exit with the pid `p`.
unfoldable pub found_in : ℕ → ManagedProcess → Reaper
found_in p m = if p ==ℕ m.pid then Reaper.stopping else dropped

-- startAux has got past GetState; the process has been made by Exec.
abbrev pub initial : ManagedProcess → System
initial m = record { starter = locking; reaper = unborn; proc = m; events = [] }

module _ (id exec_id : String) (con : Option ℕ) (e : Exit) where
  abbrev pub started : Event
  started = task_exec_started id exec_id (u32 e.pid)

  abbrev pub exited : Event
  exited = task_exit id exec_id (u32 e.pid) (u32 e.status) e.timestamp

  pub data Step : System → System → Type 0 where
    lock :
        (r : Reaper) (m : ManagedProcess) (es : List Event)
        → Step
            (record { starter = locking; reaper = r; proc = m; events = es })
            (record { starter = executing; reaper = r; proc = m; events = es })
    spawn :
        (m : ManagedProcess) (es : List Event)
        → Step
            (record { starter = executing; reaper = unborn; proc = m; events = es })
            (record { starter = awaiting; reaper = alive; proc = m; events = es })
    -- execExec fails before the process has started, and after it
    not_spawned :
        (r : Reaper) (m : ManagedProcess) (es : List Event)
        → Step
            (record { starter = executing; reaper = r; proc = m; events = es })
            (record { starter = Starter.stopping; reaper = r; proc = m; events = es })
    not_answered :
        (r : Reaper) (m : ManagedProcess) (es : List Event)
        → Step
            (record { starter = awaiting; reaper = r; proc = m; events = es })
            (record { starter = Starter.stopping; reaper = r; proc = m; events = es })
    answer :
        (r : Reaper) (m : ManagedProcess) (es : List Event)
        → Step
            (record { starter = awaiting; reaper = r; proc = m; events = es })
            (record { starter = storing_pid; reaper = r; proc = m; events = es })
    store_pid :
        (r : Reaper) (m : ManagedProcess) (es : List Event)
        → Step
            (record { starter = storing_pid; reaper = r; proc = m; events = es })
            (record {
              starter = storing_console;
              reaper = r;
              proc = (set_pid m e.pid).1;
              events = es;
            })
    store_console :
        (r : Reaper) (m : ManagedProcess) (es : List Event)
        → Step
            (record { starter = storing_console; reaper = r; proc = m; events = es })
            (record { starter = storing_state; reaper = r; proc = set_console con m; events = es })
    store_state :
        (r : Reaper) (m : ManagedProcess) (es : List Event)
        → Step
            (record { starter = storing_state; reaper = r; proc = m; events = es })
            (record {
              starter = Starter.sending;
              reaper = r;
              proc = set_state status_running m;
              events = es;
            })
    send_started :
        (r : Reaper) (m : ManagedProcess) (es : List Event)
        → Step
            (record { starter = Starter.sending; reaper = r; proc = m; events = es })
            (record { starter = returned; reaper = r; proc = m; events = es ++ started ∷ [] })
    store_failure :
        (r : Reaper) (m : ManagedProcess) (es : List Event)
        → Step
            (record { starter = Starter.stopping; reaper = r; proc = m; events = es })
            (record {
              starter = Starter.closing;
              reaper = r;
              proc = set_state status_stopped m;
              events = es;
            })
    close_failed :
        (r : Reaper) (m : ManagedProcess) (es : List Event)
        → Step
            (record { starter = Starter.closing; reaper = r; proc = m; events = es })
            (record {
              starter = failed;
              reaper = r;
              proc = record m { waitblock = false };
              events = es;
            })
    exit :
        (s : Starter) (m : ManagedProcess) (es : List Event)
        → Step
            (record { starter = s; reaper = alive; proc = m; events = es })
            (record { starter = s; reaper = finding; proc = m; events = es })
    look_up :
        (s : Starter) (m : ManagedProcess) (es : List Event)
        → Step
            (record { starter = s; reaper = finding; proc = m; events = es })
            (record { starter = s; reaper = found_in e.pid m; proc = m; events = es })
    store_stopped :
        (s : Starter) (m : ManagedProcess) (es : List Event)
        → Step
            (record { starter = s; reaper = Reaper.stopping; proc = m; events = es })
            (record {
              starter = s;
              reaper = recording;
              proc = set_state status_stopped m;
              events = es;
            })
    store_exit :
        (s : Starter) (m : ManagedProcess) (es : List Event)
        → Step
            (record { starter = s; reaper = recording; proc = m; events = es })
            (record { starter = s; reaper = Reaper.sending; proc = set_exited e m; events = es })
    send_exited :
        (s : Starter) (m : ManagedProcess) (es : List Event)
        → holds_lock s ≡ false
        → Step
            (record { starter = s; reaper = Reaper.sending; proc = m; events = es })
            (record { starter = s; reaper = closing_streams; proc = m; events = es ++ exited ∷ [] })
    close_streams :
        (s : Starter) (m : ManagedProcess) (es : List Event)
        → Step
            (record { starter = s; reaper = closing_streams; proc = m; events = es })
            (record { starter = s; reaper = Reaper.closing; proc = m; events = es })
    close_recorded :
        (s : Starter) (m : ManagedProcess) (es : List Event)
        → Step
            (record { starter = s; reaper = Reaper.closing; proc = m; events = es })
            (record {
              starter = s;
              reaper = ended;
              proc = record m { waitblock = false };
              events = es;
            })

  pub data Run : System → System → Type 0 where
    rest : (s : System) → Run s s
    then_step : {s t u : System} → Run s t → Step t u → Run s u
