-- ===== src/Containerd/Calls.antt =====
-- The service as a state machine: the calls of the task API and the exits that the reaper reports,
-- one after another, from the state of a new service until Shutdown. Each call may meet other surroundings.
pub mod Safety
pub mod Kill
pub mod Wait
use runj.Containerd.Exits.{check_processes}
use runj.Containerd.Service.{shutdown}
use runj.Containerd.Process.{ManagedProcess, Exit}
use runj.Containerd.Task.{unsupported, connect, resize_pty, kill, wait, state, delete}
use runj.Containerd.Start.{start}
use runj.Containerd.Command.{Host}
use runj.Containerd.Aux.{Target, process_of, find_process}
use runj.Containerd.Create.{exec, ExecRequest, create, CreateRequest}
use runj.Containerd.Shim.{pure, ◌>>◌, Task, new_shim, Shim}
use runj.Containerd.Io.{other_options}
use runj.Prelude.{true, some, ◌≡◌, Bool, ◌≢◌, String, ℕ}

pub data Call : Type 0 where
  create_call : CreateRequest → Call
  exec_call : ExecRequest → Call
  start_call delete_call state_call wait_call : String → String → Call
  kill_call : String → String → ℕ → Bool → Call
  resize_call : String → String → ℕ → ℕ → Call
  connect_call unsupported_call : Call
  exit_call : Exit → Call
  -- with the address of the shim's socket
  shutdown_call : String → Call

-- A call, its answer forgotten but for its error.
unfoldable pub serve : Host → Call → Task (Unit {0})
unfolding create exec start delete state wait kill resize_pty connect unsupported check_processes
    shutdown
serve h (create_call req) = create h req >> pure tt
serve h (exec_call req) = exec h req
serve h (start_call id exec_id) = start h id exec_id >> pure tt
serve h (delete_call id exec_id) = delete h id exec_id >> pure tt
serve h (state_call id exec_id) = state h id exec_id >> pure tt
serve h (wait_call id exec_id) = wait id exec_id >> pure tt
serve h (kill_call id exec_id signal all) = kill h id exec_id signal all
serve h (resize_call id exec_id width height) = resize_pty h id exec_id width height
serve h connect_call = connect h >> pure tt
serve h unsupported_call = unsupported
serve h (exit_call e) = check_processes h e
serve h (shutdown_call address) = shutdown address

-- What a call must not be: a Create with options of a type that the shim does not know, or an exit
-- with the pid of a process that has ended already.
unfoldable pub Allowed : Call → Shim → Type 0
unfolding find_process process_of
Allowed (create_call req) s = req.options ≢ other_options
Allowed (exit_call e) s =
    (t : Target) (m : ManagedProcess)
    → find_process e.pid s ≡ some t
    → process_of t s ≡ some m
    → m.waitblock ≡ true
Allowed _ s = Unit {0}

-- A call after which the service goes on: any but Shutdown, which closes the channel of events.
abbrev pub GoesOn : Call → Type 0
GoesOn (shutdown_call address) = ⊥
GoesOn _ = Unit {0}

-- The states that a service can be in before Shutdown.
pub data Reachable : Shim → Type 0 where
  initial : Reachable new_shim
  call :
      (h : Host) (c : Call) (s : Shim)
      → Reachable s
      → Allowed c s
      → GoesOn c
      → Reachable (serve h c s).1
