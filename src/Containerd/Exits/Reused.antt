-- ===== src/Containerd/Exits/Reused.antt =====
-- What checkProcesses does with an exit whose pid is that of a process that has already ended.
use runj.Prelude.{Bool-cases, inl, inr, ◌==◌, err, sym, eq_refl, ◌≡◌, refl, false, some}
use runj.Status.{status_stopped}
use runj.Containerd.Process.{ManagedProcess, Exit}
use runj.Containerd.Shim.{panicked, Shim, Event, send, task_exit, act, u32}
use runj.Containerd.Command.{Host}
use runj.Containerd.Aux.{
  find_process, lookup, close_waitblock, Target, primary_process, aux_process, update, process_of,
}
use runj.Containerd.Aux.Laws.{Option-injective, lookup-adjust}
use runj.Containerd.Io.{close_stdio}
use runj.Containerd.Exits.{
  kill_children, Host, check_processes, record_exit, set_state, set_exited, publish_and_close, send,
  note_exit,
}
use runj.Containerd.Exits.Record.{close_handles-act, exec_kill-act}

publish_and_close-panics :
    (ev : Event) (t : Target) (s : Shim) (m : ManagedProcess)
    → process_of t s ≡ some m
    → m.waitblock ≡ false
    → (publish_and_close ev t s).0 ≡ err panicked
unfolding publish_and_close process_of
publish_and_close-panics ev primary_process s m p w =
    let same : s.primary ≡ m = Option-injective p in
    elim (Bool-cases s.events_open) [
      | inl o ↦ rw (send, o, close_stdio, close_handles-act, close_waitblock, same, w) refl
      | inr o ↦ rw (send, o) refl
    ]
publish_and_close-panics ev (aux_process id) s m p w =
    let q : lookup id s.auxiliary ≡ some m = p in
    elim (Bool-cases s.events_open) [
      | inl o ↦ rw (send, o, q, close_stdio, close_handles-act, close_waitblock, q, w) refl
      | inr o ↦ rw (send, o) refl
    ]

note_exit-panics :
    (e : Exit) (t : Target) (s : Shim) (m : ManagedProcess)
    → process_of t s ≡ some m
    → m.waitblock ≡ false
    → (note_exit e t s).0 ≡ err panicked
unfolding note_exit update process_of
note_exit-panics e primary_process s m p w =
    let same : m ≡ s.primary = sym (Option-injective p) in
    publish_and_close-panics (task_exit s.id "" (u32 e.pid) (u32 e.status) e.timestamp)
      primary_process (record s { primary = set_exited e (set_state status_stopped s.primary) })
      (set_exited e (set_state status_stopped s.primary)) refl (rw (same) at w)
note_exit-panics e (aux_process id) s m p w =
    let q : lookup id s.auxiliary ≡ some m = p in
    publish_and_close-panics _ (aux_process id) _ (set_exited e (set_state status_stopped m))
      (rw (lookup-adjust, eq_refl, lookup-adjust, eq_refl, q) refl) w

record_exit-panics :
    (h : Host) (e : Exit) (t : Target) (s : Shim) (m : ManagedProcess)
    → process_of t s ≡ some m
    → m.waitblock ≡ false
    → (record_exit h e t s).0 ≡ err panicked
unfolding record_exit kill_children process_of
record_exit-panics h e primary_process s m p w =
    rw (exec_kill-act) (note_exit-panics e primary_process (act _ s) m p w)
record_exit-panics h e (aux_process id) s m p w = elim (Bool-cases (id == "")) [
  | inl no_id ↦ rw (no_id, exec_kill-act) (note_exit-panics e (aux_process id) (act _ s) m p w)
  | inr has_id ↦ rw (has_id) (note_exit-panics e (aux_process id) s m p w)
]

-- The exit of a process whose pid is that of a process of the service that has already ended:
-- checkProcesses panics, because it closes the channel of that process a second time.
pub check_processes-panics :
    (h : Host) (e : Exit) (t : Target) (s : Shim) (m : ManagedProcess)
    → find_process e.pid s ≡ some t
    → process_of t s ≡ some m
    → m.waitblock ≡ false
    → (check_processes h e s).0 ≡ err panicked
unfolding check_processes
check_processes-panics h e t s m f p w = rw (f) (record_exit-panics h e t s m p w)
