-- ===== src/Examples/Services.antt =====
-- Runs of the shim.
use runj.Containerd.Manager.{stop, stop_lem, Launch, in_use, start_shim, start_shim_lem, live}
use runj.Containerd.Command.{kill_args}
use runj.Containerd.Service.{shutdown}
use runj.Containerd.Service.Closed.{shutdown-check_processes}
use runj.Containerd.Io.{no_options}
use runj.Containerd.Aux.Laws.{Option-injective}
use runj.Text.Decimal.{itoa}
use runj.Containerd.Safety.Delete.{delete_aux_lem}
use runj.Containerd.Command.{Host}
use runj.Containerd.Exits.Record.{check_processes_lem, after_exit}
use runj.Containerd.Calls.Wait.{wait-check_processes}
use runj.Containerd.Exits.Reused.{check_processes-panics}
use runj.Containerd.Calls.Kill.{kill_lem, Killable}
use runj.Containerd.Process.{no_stdio, new_process, ManagedProcess, open_handles}
use runj.Status.{
  status_running, status_created, created_not_stopped, running_not_stopped, zero_not_created,
  status_stopped, zero_not_stopped,
}
use runj.Containerd.Task.{exited, blocked, wait, delete_aux, kill}
use runj.Containerd.Exits.{check_processes}
use runj.Containerd.Calls.Safety.{Reachable-no_panic, Reachable-Inv}
use runj.Examples.{
  good_reply, status_created, status_running, new_process, [], shell_exit, ManagedProcess, shell,
  web, good_host,
}
use runj.Containerd.Shim.{
  close_handle, task_exit, run_command, act, remove_file, panicked, new_shim, Shim,
}
use runj.Containerd.Create.{CreateRequest, process_spec, ExecRequest}
use runj.Containerd.Invariant.{ProcessOk, Inv}
use runj.Containerd.Aux.{
  aux_process, primary_process, update, remove, aux_with_pid, lookup, process_of, find_process,
}
use runj.Containerd.Calls.{initial, call, start_call, Reachable, Allowed, exec_call, serve}
use runj.Prelude.{
  none, ◌++◌, inr, subst, inl, ◌==◌, ◌≢◌, Bool-cases, [], ◌∷◌, refl, some, ◌⊎◌, ok, err, String,
  ◌≡◌, false, true, ℕ,
}

-- Exec registers a process, Start runs it, and its exit is met.
abbrev exec_request : ExecRequest
exec_request = record {
  exec_id = "sh";
  terminal = true;
  stdin = "/in";
  stdout = "/out";
  stderr = "/err";
  spec = process_spec shell;
}

abbrev after_exec : Shim
after_exec = (serve good_host (exec_call exec_request) new_shim).1

after_exec-Reachable : Reachable after_exec
unfolding serve Allowed
after_exec-Reachable = call good_host (exec_call exec_request) new_shim initial tt tt

Reachable-no_panic_example : (serve good_host (start_call "" "sh") after_exec).0 ≢ err panicked
unfolding serve Allowed
Reachable-no_panic_example =
    Reachable-no_panic after_exec after_exec-Reachable good_host (start_call "" "sh") tt

Reachable-Inv_example : Inv after_exec
Reachable-Inv_example = Reachable-Inv after_exec after_exec-Reachable

check_processes_lem_example : check_processes good_host shell_exit web ≡ (
  ok tt,
  record (update (aux_process "shell") (after_exit shell_exit) web) {
    events = task_exit "web" "shell" 50 3 99 ∷ [];
    actions = close_handle 5 ∷ [];
  },
)
unfolding find_process process_of lookup aux_with_pid open_handles
check_processes_lem_example =
    check_processes_lem good_host shell_exit (aux_process "shell") web _ refl refl refl refl

wait-check_processes_example :
    (wait "web" "shell" web ≡ (ok blocked, web))
    × ((wait "web" "shell" (check_processes good_host shell_exit web).1).0 ≡ ok (exited 3 99))
unfolding find_process process_of lookup aux_with_pid
wait-check_processes_example =
    wait-check_processes good_host shell_exit (aux_process "shell") web _ (λ e. cc) refl refl refl
      refl

kill_lem_example :
    ((kill good_host "web" "shell" 15 false web).1 ≡ web)
      × ¬ ((kill good_host "web" "shell" 15 false web).0 ≡ ok tt)
    ⊎ ((pid : ℕ) × Killable "web" "shell" pid web
        × ((kill good_host "web" "shell" 15 false web).1
            ≡ act (run_command (kill_args "web" (itoa 15) false pid)) web))
kill_lem_example = kill_lem good_host "web" "shell" 15 false web

abbrev registered_process : ManagedProcess
registered_process = record new_process {
  spec = some shell;
  specfile = "/tmp/spec";
  state = status_created;
}

registered-ProcessOk : ProcessOk registered_process
registered-ProcessOk = record { ended = created_not_stopped; created_has_spec = λ h e. cc }

abbrev shell_process : ManagedProcess
shell_process = record new_process {
  pid = 50;
  spec = some shell;
  state = status_running;
  pio = record no_stdio { stdin = some 5 };
}

shell-ProcessOk : ProcessOk shell_process
shell-ProcessOk = record { ended = running_not_stopped; created_has_spec = λ h e. cc }

web-ProcessOk : (id : String) (m : ManagedProcess) → lookup id web.auxiliary ≡ some m → ProcessOk m
unfolding lookup
web-ProcessOk id m e = elim (Bool-cases ("registered" == id)) [
  | inl same ↦ subst ProcessOk (Option-injective (rw (same) at e)) registered-ProcessOk
  | inr other ↦ elim (Bool-cases ("shell" == id)) [
    | inl same ↦ subst ProcessOk (Option-injective (rw (other, same) at e)) shell-ProcessOk
    | inr neither ↦ cc (rw (other, neither) at e)
  ]
]

web-Inv : Inv web
web-Inv = record {
  primary = record { ended = zero_not_stopped; created_has_spec = λ h. cc zero_not_created };
  auxiliary = web-ProcessOk;
  events_open = refl;
}

delete_aux_lem_example : delete_aux good_host "registered" web ≡ (
  ok (record { exited_at = 1000; exit_status = 137 }),
  record web {
    auxiliary = remove "registered" web.auxiliary;
    released =
        record new_process {
          waitblock = false;
          spec = some shell;
          specfile = "";
          state = status_created;
        }
        ∷ [];
    actions = remove_file "/tmp/spec" ∷ [];
  },
)
unfolding lookup
delete_aux_lem_example = delete_aux_lem good_host "registered" web _ web-Inv refl refl

ended_web : Shim
ended_web = record web {
  primary = record web.primary { state = status_stopped; waitblock = false };
}

check_processes-panics_example :
    (check_processes good_host (record { timestamp = 100; pid = 42; status = 0 }) ended_web).0
    ≡ err panicked
unfolding find_process process_of ended_web
check_processes-panics_example =
    check_processes-panics good_host (record { timestamp = 100; pid = 42; status = 0 })
      primary_process ended_web _ refl refl refl

shutdown-check_processes_example :
    (check_processes good_host
      (record { timestamp = 100; pid = 42; status = 0 })
      (shutdown "/run/web.sock" web).1).0
    ≡ err panicked
unfolding find_process shutdown
shutdown-check_processes_example =
    shutdown-check_processes good_host "/run/web.sock"
      (record { timestamp = 100; pid = 42; status = 0 }) primary_process web refl

stop_lem_example :
    ((stop good_host "web" web).0 ≡ ok 137)
    × ((stop good_host "web" web).1.actions
        ≡ web.actions
          ++ run_command (kill_args "web" "KILL" true 0) ∷ run_command ("delete" ∷ "web" ∷ []) ∷ [])
stop_lem_example = stop_lem good_host "web" web

-- The socket is in use by a shim that has gone, and the pid file cannot be written.
abbrev no_pid_file_launch : Launch
no_pid_file_launch = record {
  namespace = some "default";
  executable = some "/usr/local/bin/containerd-shim-runj-v1";
  cwd = some "/bundle";
  socket_address = some "unix:///run/web.sock";
  socket = in_use;
  remove_socket = true;
  new_socket = true;
  socket_file = true;
  start = some 90;
  write_pid_file = false;
}

start_shim_lem_example :
    (((start_shim no_pid_file_launch "web" "/run/containerd.sock").0 ≡ none)
      × (live (start_shim no_pid_file_launch "web" "/run/containerd.sock").1 [] ≡ []))
    ⊎ ((address : String) × (pid : ℕ) × ((start_shim no_pid_file_launch "web"
            "/run/containerd.sock").0
          ≡ some address)
        × (some "unix:///run/web.sock" ≡ some address)
        × (some 90 ≡ some pid)
        × (live (start_shim no_pid_file_launch "web" "/run/containerd.sock").1 [] ≡ pid ∷ []))
start_shim_lem_example = start_shim_lem no_pid_file_launch "web" "/run/containerd.sock"

-- A Create for which `runj create` does not start.
abbrev no_create_host : Host
no_create_host = record good_host { run = λ _. record good_reply { started = false } }

abbrev create_request : CreateRequest
create_request = record {
  id = "web";
  bundle = "/bundle";
  rootfs = [];
  terminal = false;
  stdin = "/in";
  stdout = "/out";
  stderr = "/err";
  options = no_options;
}
