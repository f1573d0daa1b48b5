-- ===== src/Containerd/Exits/Record.antt =====
-- What checkProcesses does with the exit of a process of the service.
use runj.Prelude.{
  if◌then◌else◌, Bool-cases, inl, inr, ◌==◌, arith, String, sym, eq_refl, ℕ, ◌≡◌, refl, ap, ◌∙◌,
  true, false, some, List, [], ◌∷◌, ◌++◌, map, ok, append_assoc, append-nil,
}
use runj.Status.{status_stopped}
use runj.Containerd.Process.{ManagedProcess, Exit, open_handles}
use runj.Containerd.Shim.{run_command, Action, Shim, Event, send, task_exit, close_handle, act, u32}
use runj.Containerd.Command.{Host, exec_kill, kill_args}
use runj.Containerd.Aux.{
  find_process, adjust, lookup, close_waitblock, Target, primary_process, aux_process, update,
  process_of,
}
use runj.Containerd.Aux.Laws.{Option-injective, adjust-adjust, lookup-adjust}
use runj.Containerd.Io.{close_handles, close_stdio}
use runj.Containerd.Exits.{
  kill_children, Host, check_processes, exec_kill, record_exit, set_state, set_exited,
  publish_and_close, send, target_id, note_exit,
}

-- The process as checkProcesses leaves it.
abbrev pub after_exit : Exit → ManagedProcess → ManagedProcess
after_exit e m = record m { state = status_stopped; exit = e; waitblock = false }

pub close_handles-act :
    (fds : List ℕ) (s : Shim)
    → close_handles fds s ≡ record s { actions = s.actions ++ map close_handle fds }
unfolding close_handles
close_handles-act [] s = rw append-nil
close_handles-act (fd ∷ fds) s =
    close_handles-act fds (act (close_handle fd) s)
    ∙ ap (λ l. record s { actions = l }) (append_assoc s.actions _ _)

publish_and_close_lem :
    (ev : Event) (t : Target) (s : Shim) (m : ManagedProcess)
    → process_of t s ≡ some m
    → s.events_open ≡ true
    → m.waitblock ≡ true
    → publish_and_close ev t s ≡ (
      ok tt,
      record (update t (λ p. record p { waitblock = false }) s) {
        events = s.events ++ ev ∷ [];
        actions = s.actions ++ map close_handle (open_handles m.pio);
      },
    )
unfolding publish_and_close process_of update
publish_and_close_lem ev primary_process s m p o w =
    let same : s.primary ≡ m = Option-injective p in
    rw (send, o, close_stdio, close_handles-act, close_waitblock, same, w) refl
publish_and_close_lem ev (aux_process id) s m p o w =
    let q : lookup id s.auxiliary ≡ some m = p in
    rw (send, o, q, close_stdio, close_handles-act, close_waitblock, q, w) refl

note_exit_lem :
    (e : Exit) (t : Target) (s : Shim) (m : ManagedProcess)
    → process_of t s ≡ some m
    → s.events_open ≡ true
    → m.waitblock ≡ true
    → note_exit e t s ≡ (
      ok tt,
      record (update t (after_exit e) s) {
        events =
            s.events ++ task_exit s.id (target_id t) (u32 e.pid) (u32 e.status) e.timestamp ∷ [];
        actions = s.actions ++ map close_handle (open_handles m.pio);
      },
    )
unfolding note_exit update process_of
note_exit_lem e primary_process s m p o w =
    let same : m ≡ s.primary = sym (Option-injective p) in
    rw (same) (publish_and_close_lem _ primary_process _ _ refl o (rw (same) at w))
note_exit_lem e (aux_process id) s m p o w =
    let q : lookup id s.auxiliary ≡ some m = p in
    publish_and_close_lem _ (aux_process id) _ (set_exited e (set_state status_stopped m))
      (rw (lookup-adjust, eq_refl, lookup-adjust, eq_refl, q) refl) o w
    ∙ ap
        (λ a. (
          ok tt,
          record s {
            auxiliary = a;
            events = s.events ++ task_exit s.id id (u32 e.pid) (u32 e.status) e.timestamp ∷ [];
            actions = s.actions ++ map close_handle (open_handles m.pio);
          },
        ))
        (ap (adjust id _) (adjust-adjust id _ _ _) ∙ adjust-adjust id _ _ _)

-- The commands that checkProcesses runs for the exit of a process.
abbrev pub kills : String → Target → List Action
kills id t = if target_id t == "" then run_command (kill_args id "KILL" true 0) ∷ [] else []

pub exec_kill-act :
    (h : Host) (s : Shim)
    → (exec_kill h s.id "KILL" true 0 s).1 ≡ act (run_command (kill_args s.id "KILL" true 0)) s
unfolding exec_kill
exec_kill-act h s = ground arith

record_exit_lem :
    (h : Host) (e : Exit) (t : Target) (s : Shim) (m : ManagedProcess)
    → process_of t s ≡ some m
    → s.events_open ≡ true
    → m.waitblock ≡ true
    → record_exit h e t s ≡ (
      ok tt,
      record (update t (after_exit e) s) {
        events =
            s.events ++ task_exit s.id (target_id t) (u32 e.pid) (u32 e.status) e.timestamp ∷ [];
        actions = (s.actions ++ kills s.id t) ++ map close_handle (open_handles m.pio);
      },
    )
unfolding record_exit kill_children update process_of
record_exit_lem h e primary_process s m p o w =
    rw (exec_kill-act) (note_exit_lem e primary_process (act _ s) m p o w)
record_exit_lem h e (aux_process id) s m p o w = elim (Bool-cases (id == "")) [
  | inl no_id ↦ rw (no_id, exec_kill-act) (note_exit_lem e (aux_process id) (act _ s) m p o w)
  | inr has_id ↦ rw (has_id, append-nil) (note_exit_lem e (aux_process id) s m p o w)
]

-- The exit of a process of the service that has not ended, while the channel of events is open:
-- checkProcesses succeeds; the process becomes `stopped` with that exit and its channel closed, and
-- no other process changes; exactly one TaskExit event is published, with the process's exec id;
-- and outside the service, `runj kill --all` is run first if the process has no exec id, as the
-- primary one, and then the open streams of the process are closed.
pub check_processes_lem :
    (h : Host) (e : Exit) (t : Target) (s : Shim) (m : ManagedProcess)
    → find_process e.pid s ≡ some t
    → process_of t s ≡ some m
    → s.events_open ≡ true
    → m.waitblock ≡ true
    → check_processes h e s ≡ (
      ok tt,
      record (update t (after_exit e) s) {
        events =
            s.events ++ task_exit s.id (target_id t) (u32 e.pid) (u32 e.status) e.timestamp ∷ [];
        actions = (s.actions ++ kills s.id t) ++ map close_handle (open_handles m.pio);
      },
    )
unfolding check_processes
check_processes_lem h e t s m f p o w = rw (f) (record_exit_lem h e t s m p o w)
