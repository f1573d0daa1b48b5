-- ===== src/Containerd/Service/Closed.antt =====
-- An exit that is reaped after Shutdown.
use runj.Prelude.{◌≡◌, refl, Bool-cases, inl, inr, ◌==◌, ◌!=◌, err, false, some, String}
use runj.Containerd.Process.{Exit}
use runj.Containerd.Shim.{Shim, Event, panicked, send, act}
use runj.Containerd.Command.{Host}
use runj.Containerd.Aux.{find_process, Target, primary_process, aux_process, update}
use runj.Containerd.Exits.{
  check_processes, record_exit, kill_children, note_exit, publish_and_close,
}
use runj.Containerd.Exits.Record.{exec_kill-act}
use runj.Containerd.Service.{shutdown}

publish_closed :
    (ev : Event) (t : Target) (s : Shim)
    → s.events_open ≡ false
    → (publish_and_close ev t s).0 ≡ err panicked
unfolding publish_and_close
publish_closed ev t s o = rw (send, o) refl

note_exit_closed :
    (e : Exit) (t : Target) (s : Shim) → s.events_open ≡ false → (note_exit e t s).0 ≡ err panicked
unfolding note_exit update
note_exit_closed e primary_process s o = publish_closed _ primary_process _ o
note_exit_closed e (aux_process id) s o = publish_closed _ (aux_process id) _ o

record_exit_closed :
    (h : Host) (e : Exit) (t : Target) (s : Shim)
    → s.events_open ≡ false
    → (record_exit h e t s).0 ≡ err panicked
unfolding record_exit kill_children
record_exit_closed h e primary_process s o =
    rw (exec_kill-act) (note_exit_closed e primary_process (act _ s) o)
record_exit_closed h e (aux_process id) s o = elim (Bool-cases (id == "")) [
  | inl no_id ↦ rw (no_id, exec_kill-act) (note_exit_closed e (aux_process id) (act _ s) o)
  | inr has_id ↦ rw has_id (note_exit_closed e (aux_process id) s o)
]

shutdown_closes : (address : String) (s : Shim) → (shutdown address s).1.events_open ≡ false
unfolding shutdown
shutdown_closes address s = elim (Bool-cases (address != "")) [
  | inl named ↦ rw named refl
  | inr unnamed ↦ rw unnamed refl
]

-- After Shutdown has run its callbacks, the exit of any process that the service still knows
-- panics in checkProcesses, since the channel that it sends the event on is closed.
pub shutdown-check_processes :
    (h : Host) (address : String) (e : Exit) (t : Target) (s : Shim)
    → find_process e.pid (shutdown address s).1 ≡ some t
    → (check_processes h e (shutdown address s).1).0 ≡ err panicked
unfolding check_processes
shutdown-check_processes h address e t s f =
    rw f (record_exit_closed h e t (shutdown address s).1 (shutdown_closes address s))
