-- ===== src/Containerd/Calls/Wait.antt =====
-- Wait, before and after the exit of a process.
use runj.Containerd.Exits.Record.{after_exit, check_processes_lem}
use runj.Containerd.Aux.Laws.{lookup-adjust, Option-injective}
use runj.Containerd.Exits.{check_processes, target_id}
use runj.Containerd.Shim.{Action, u32, Event, Shim}
use runj.Containerd.Aux.{
  primary_process, lookup, update, find_process, aux_process, get_auxiliary, process_of, Target,
}
use runj.Containerd.Process.{ManagedProcess, Exit}
use runj.Containerd.Task.{exited, answer, blocked, waited_process, wait}
use runj.Containerd.Command.{Host}
use runj.Prelude.{
  ◌∙◌, List, eq_iff, eq_refl, ap, ◌==◌, refl, inl, inr, Bool-cases, ok, true, some, ◌≡◌, ◌≢◌,
}

wait-of :
    (t : Target) (s : Shim) (m : ManagedProcess)
    → t ≢ aux_process ""
    → process_of t s ≡ some m
    → wait s.id (target_id t) s ≡ (ok (answer m), s)
unfolding wait waited_process process_of get_auxiliary
wait-of primary_process s m n p = rw (eq_refl, Option-injective p) refl
wait-of (aux_process id) s m n p = elim (Bool-cases (id == "")) [
  | inl none_given ↦ absurd (n (ap aux_process ((eq_iff id "").0 none_given)))
  | inr given ↦ let q : lookup id s.auxiliary ≡ some m = p in rw (eq_refl, given, q) refl
]

answered :
    (e : Exit) (t : Target) (s : Shim) (m : ManagedProcess) (es : List Event) (acts : List Action)
    → t ≢ aux_process ""
    → process_of t s ≡ some m
    → wait s.id (target_id t) (record (update t (after_exit e) s) { events = es; actions = acts })
      ≡ (
        ok (exited (u32 e.status) e.timestamp),
        record (update t (after_exit e) s) { events = es; actions = acts },
      )
unfolding update process_of
answered e primary_process s m es acts n p = wait-of primary_process _ _ n refl
answered e (aux_process id) s m es acts n p =
    let q : lookup id s.auxiliary ≡ some m = p in
    wait-of (aux_process id) _ (after_exit e m) n (rw (lookup-adjust, eq_refl, q) refl)

-- Wait for a process that has not ended blocks, and after checkProcesses has met the exit of that
-- process, Wait answers with the status, as 32 bits, and the time of that exit.
pub wait-check_processes :
    (h : Host) (e : Exit) (t : Target) (s : Shim) (m : ManagedProcess)
    → t ≢ aux_process ""
    → find_process e.pid s ≡ some t
    → process_of t s ≡ some m
    → s.events_open ≡ true
    → m.waitblock ≡ true
    → (wait s.id (target_id t) s ≡ (ok blocked, s))
      × ((wait s.id (target_id t) (check_processes h e s).1).0
          ≡ ok (exited (u32 e.status) e.timestamp))
wait-check_processes h e t s m n f p o w = (
  wait-of t s m n p ∙ rw (w) refl,
  rw (check_processes_lem h e t s m f p o w) (ap (λ r. r.0) (answered e t s m _ _ n p)),
)
