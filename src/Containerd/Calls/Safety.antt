-- ===== src/Containerd/Calls/Safety.antt =====
-- No call of a service panics, and each keeps the invariant.
use runj.Containerd.Safety.Queries.{resize_pty-SafeAt, kill-SafeAt, wait-SafeAt, state-SafeAt}
use runj.Containerd.Safety.Delete.{delete-SafeAt}
use runj.Containerd.Safety.Start.{start-SafeAt}
use runj.Containerd.Exits.Record.{after_exit, check_processes_lem}
use runj.Containerd.Safety.Exec.{exec-SafeAt}
use runj.Containerd.Exits.{check_processes}
use runj.Status.{stopped_not_created, stopped_stopped}
use runj.Containerd.Safety.Create.{create-SafeAt}
use runj.Containerd.Invariant.{update-Inv, same-Inv, new_shim-Inv, Inv, ProcessOk}
use runj.Containerd.Safety.{SafeAt-pure, SafeAt-then, SafeAt}
use runj.Containerd.Calls.{
  unsupported_call, connect_call, resize_call, kill_call, wait_call, state_call, delete_call,
  start_call, exec_call, initial, check_processes, call, create_call, exit_call, Call, Allowed,
  serve, Reachable, shutdown_call, GoesOn,
}
use runj.Containerd.Aux.{
  lookup, aux_with_pid, primary_process, aux_process, Target, process_of, find_process,
}
use runj.Containerd.Shim.{◌>>◌, panicked, pure, Task, Shim}
use runj.Containerd.Process.{ManagedProcess, Exit}
use runj.Containerd.Service.{shutdown}
use runj.Containerd.Command.{Host}
use runj.Prelude.{
  refl, eq_iff, [], ◌∷◌, String, List, arith, inr, inl, Option-cases, none, some, err, ◌≢◌, ◌≡◌, ℕ,
}

aux_with_pid-lookup :
    (pid : ℕ) (l : List (String × ManagedProcess)) (id : String)
    → aux_with_pid pid l ≡ some id
    → lookup id l ≢ none
unfolding aux_with_pid lookup
aux_with_pid-lookup pid [] id e n = cc
aux_with_pid-lookup pid ((j, m) ∷ l) id e n =
    ground (arith, eq_iff j id, aux_with_pid-lookup pid l id)

found-process_of :
    (pid : ℕ) (s : Shim) (t : Target) → find_process pid s ≡ some t → process_of t s ≢ none
unfolding find_process process_of
found-process_of pid s primary_process e n = cc
found-process_of pid s (aux_process id) e n =
    aux_with_pid-lookup pid s.auxiliary id (ground (arith, e)) n

ended-ProcessOk : (e : Exit) (m : ManagedProcess) → ProcessOk (after_exit e m)
ended-ProcessOk e m = record {
  ended = stopped_stopped;
  created_has_spec = λ h. cc stopped_not_created;
}

-- A call whose answer is forgotten.
silent : {A : Type 0} (m : Task A) (s : Shim) → SafeAt {0} m s → SafeAt {0} (m >> pure tt) s
silent m s x = SafeAt-then m (pure tt) s x λ w. SafeAt-pure _ w tt

module _ (h : Host) where
  check_processes-SafeAt :
      (e : Exit) (s : Shim) → Inv s → Allowed (exit_call e) s → SafeAt (check_processes h e) s
  unfolding Allowed check_processes
  check_processes-SafeAt e s v a = elim (Option-cases (find_process e.pid s)) [
    | inl absent ↦ record {
      no_panic = rw (check_processes, absent) (λ p. cc);
      kept = rw (check_processes, absent) v;
    }
    | inr (t, f) ↦ elim (Option-cases (process_of t s)) [
      | inl n ↦ absurd (found-process_of e.pid s t f n)
      | inr (m, p) ↦
          let x = check_processes_lem h e t s m f p v.events_open (a t m f p) in
          record {
            no_panic = rw (x) (λ q. cc);
            kept = rw (x) (
                same-Inv (update-Inv t (after_exit e) s v λ n _. ended-ProcessOk e n) refl refl
                  refl);
          }
    ]
  ]

  serve-SafeAt : (c : Call) (s : Shim) → Inv s → Allowed c s → GoesOn c → SafeAt (serve h c) s
  unfolding serve Allowed
  serve-SafeAt (create_call req) s v a g = silent _ s (create-SafeAt h req a s v)
  serve-SafeAt (exec_call req) s v a g = exec-SafeAt h req s v
  serve-SafeAt (start_call id exec_id) s v a g = silent _ s (start-SafeAt h id exec_id s v)
  serve-SafeAt (delete_call id exec_id) s v a g = silent _ s (delete-SafeAt h id exec_id s v)
  serve-SafeAt (state_call id exec_id) s v a g = silent _ s (state-SafeAt h s v id exec_id)
  serve-SafeAt (wait_call id exec_id) s v a g = silent _ s (wait-SafeAt s v id exec_id)
  serve-SafeAt (kill_call id exec_id signal all) s v a g = kill-SafeAt h s v id exec_id signal all
  serve-SafeAt (resize_call id exec_id width height) s v a g =
      resize_pty-SafeAt h s v id exec_id width height
  serve-SafeAt connect_call s v a g = record { no_panic = λ e. cc; kept = v }
  serve-SafeAt unsupported_call s v a g = record { no_panic = λ e. cc; kept = v }
  serve-SafeAt (exit_call e) s v a g = check_processes-SafeAt e s v a
  serve-SafeAt (shutdown_call address) s v a g = absurd g

  shutdown-no_panic : (address : String) (s : Shim) → (shutdown address s).0 ≢ err panicked
  unfolding shutdown
  shutdown-no_panic address s e = ground (arith, e)

-- Every state that a service reaches by calls, none of which is a Shutdown, a Create with options of
-- a type that the shim does not know or an exit with the pid of a process that has ended, has the
-- invariant: each process is in the state `stopped` exactly where its channel is closed, a process
-- in the state `created` has a spec, and the channel of events is open.
pub Reachable-Inv : (s : Shim) → Reachable s → Inv s
Reachable-Inv _ initial = new_shim-Inv
Reachable-Inv _ (call h c s r a g) = (serve-SafeAt h c s (Reachable-Inv s r) a g).kept

-- In every state that a service reaches by calls before Shutdown, no call panics, Shutdown
-- included, whatever its surroundings answer, where neither that call nor one before it is a Create
-- with options of a type that the shim does not know or an exit with the pid of a process that has
-- ended.
pub Reachable-no_panic :
    (s : Shim) → Reachable s → (h : Host) (c : Call) → Allowed c s → (serve h c s).0 ≢ err panicked
unfolding serve
Reachable-no_panic s r h (shutdown_call address) a = shutdown-no_panic h address s
Reachable-no_panic s r h (create_call req) a =
    (serve-SafeAt h (create_call req) s (Reachable-Inv s r) a tt).no_panic
Reachable-no_panic s r h (exec_call req) a =
    (serve-SafeAt h (exec_call req) s (Reachable-Inv s r) a tt).no_panic
Reachable-no_panic s r h (start_call id exec_id) a =
    (serve-SafeAt h (start_call id exec_id) s (Reachable-Inv s r) a tt).no_panic
Reachable-no_panic s r h (delete_call id exec_id) a =
    (serve-SafeAt h (delete_call id exec_id) s (Reachable-Inv s r) a tt).no_panic
Reachable-no_panic s r h (state_call id exec_id) a =
    (serve-SafeAt h (state_call id exec_id) s (Reachable-Inv s r) a tt).no_panic
Reachable-no_panic s r h (wait_call id exec_id) a =
    (serve-SafeAt h (wait_call id exec_id) s (Reachable-Inv s r) a tt).no_panic
Reachable-no_panic s r h (kill_call id exec_id signal all) a =
    (serve-SafeAt h (kill_call id exec_id signal all) s (Reachable-Inv s r) a tt).no_panic
Reachable-no_panic s r h (resize_call id exec_id width height) a =
    (serve-SafeAt h (resize_call id exec_id width height) s (Reachable-Inv s r) a tt).no_panic
Reachable-no_panic s r h connect_call a =
    (serve-SafeAt h connect_call s (Reachable-Inv s r) a tt).no_panic
Reachable-no_panic s r h unsupported_call a =
    (serve-SafeAt h unsupported_call s (Reachable-Inv s r) a tt).no_panic
Reachable-no_panic s r h (exit_call e) a =
    (serve-SafeAt h (exit_call e) s (Reachable-Inv s r) a tt).no_panic
