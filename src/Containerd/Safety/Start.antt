-- ===== src/Containerd/Safety/Start.antt =====
-- Start is safe: a process that could not be note_started is stopped, and its channel is closed once.
use runj.Containerd.Safety.Commands.{exec_exec-SafeAt}
use runj.Containerd.Aux.Laws.{Option-injective, adjust-adjust, lookup-adjust}
use runj.Containerd.Safety.{
  SafeAt-attempt, SafeAt-bind, SafeAt-if, attempt, SafeAt-pure, SafeAt-send, send, SafeAt-then,
  panicked, Result, SafeAt,
}
use runj.Containerd.Invariant.{process_of-ProcessOk, update-Inv, ProcessOk, same-Inv, Inv}
use runj.Containerd.Shim.{◌>>=◌, attempt, pure, u32, task_exec_started, send, Error, Shim}
use runj.Containerd.Start.{
  spec_terminal, start_found, start_aux, start, note_started, start_primary,
}
use runj.Containerd.Aux.{get_auxiliary, close_waitblock, aux_process, lookup, update, process_of}
use runj.Status.{
  created_not_stopped, running_not_created, status_running, stopped_not_created, status_created,
  running_not_stopped, stopped_stopped, status_stopped,
}
use runj.Containerd.Process.{set_console, set_state, set_pid, ManagedProcess}
use runj.Containerd.Command.{exec_exec, Host}
use runj.Prelude.{
  inl, inr, Bool-cases, Option-cases, Bool, refl, not, eq_iff, ◌∙◌, sym, ◌≢◌, ◌==◌, Option, Result,
  err, true, some, arith, ◌≡◌, eq_refl, String, false, ℕ, ok,
}

module _ (h : Host) where
  start_primary-SafeAt : (id : String) (s : Shim) → Inv s → SafeAt (start_primary h id) s
  unfolding start_primary
  start_primary-SafeAt id s v = record {
    no_panic = ground (arith, v.events_open);
    kept =
        same-Inv v (ground (arith, v.events_open)) (ground (arith, v.events_open))
          (ground (arith, v.events_open));
  }

abbrev pub failed_start : ManagedProcess → ManagedProcess
failed_start m = record m { state = status_stopped; waitblock = false }

pub note_started-err :
    (id exec_id : String) (e : Error) (s : Shim) (m : ManagedProcess)
    → lookup exec_id s.auxiliary ≡ some m
    → m.waitblock ≡ true
    → note_started id exec_id (err e) s ≡ (err e, update (aux_process exec_id) failed_start s)
unfolding note_started process_of update
note_started-err id exec_id e s m l w =
    rw (close_waitblock, process_of, lookup-adjust, eq_refl, l, w, adjust-adjust) refl

failed_start-ProcessOk : (m : ManagedProcess) → ProcessOk (failed_start m)
failed_start-ProcessOk m = record {
  ended = stopped_stopped;
  created_has_spec = λ h. cc stopped_not_created;
}

-- A process that is in the state `created` has not ended.
created-waitblock :
    (m : ManagedProcess) → ProcessOk m → (m.state == status_created) ≡ true → m.waitblock ≡ true
created-waitblock m w c =
    let q : m.state ≡ status_created = (eq_iff m.state status_created).0 c in
    let e : (status_created == status_stopped) ≡ not m.waitblock = rw (q) at w.ended in
    ground (arith, e, created_not_stopped)

abbrev running_with : ℕ → Option ℕ → ManagedProcess → ManagedProcess
running_with pid con m = set_state status_running (set_console con (set_pid m pid).1)

running_with-ProcessOk :
    (pid : ℕ) (con : Option ℕ) (m : ManagedProcess)
    → m.waitblock ≡ true
    → ProcessOk (running_with pid con m)
unfolding set_pid
running_with-ProcessOk pid con m w = record {
  ended = ground (arith, w, running_not_stopped);
  created_has_spec = λ h. cc running_not_created;
}

note_started-SafeAt :
    (id exec_id : String) (r : Result Error (ℕ × Option ℕ)) (s : Shim) (m : ManagedProcess)
    → Inv s
    → lookup exec_id s.auxiliary ≡ some m
    → m.waitblock ≡ true
    → r ≢ err panicked
    → SafeAt (note_started id exec_id r) s
unfolding note_started process_of update
note_started-SafeAt id exec_id (err e) s m v l w n =
    let x = note_started-err id exec_id e s m l w in
    record {
      no_panic = rw (x) (λ p. n (cc));
      kept =
          rw (x)
            (update-Inv (aux_process exec_id) failed_start s v λ m _. failed_start-ProcessOk m);
    }
note_started-SafeAt id exec_id (ok (pid, con)) s m v l w n =
    let y : Inv (update (aux_process exec_id) (running_with pid con) s) =
      update-Inv (aux_process exec_id) (running_with pid con) s v
        λ k e. running_with-ProcessOk pid con k (rw (Option-injective (sym l ∙ e)) at w) in
    let x =
      SafeAt-then (send (task_exec_started id exec_id (u32 pid))) (pure (u32 pid)) _
        (SafeAt-send _ (rw (adjust-adjust, adjust-adjust) y) _) λ z. SafeAt-pure _ z _ in
    record { no_panic = x.no_panic; kept = x.kept }

abbrev as_ok : {A : Type 0} → A → Result Error A
as_ok a = ok a

ok-injective : {A : Type 0} {a b : A} → as_ok a ≡ as_ok b → a ≡ b
ok-injective e = cc

exec_exec-auxiliary :
    (h : Host) (id file : String) (terminal : Bool) (s : Shim)
    → (exec_exec h id file terminal s).1.auxiliary ≡ s.auxiliary
unfolding exec_exec
exec_exec-auxiliary h id file terminal s = ground arith

module _ (h : Host) where
  -- startAux, once the process is found and its state and spec have been looked at
  execute-SafeAt :
      (id exec_id file : String) (terminal : Bool) (s : Shim) (m : ManagedProcess)
      → Inv s
      → lookup exec_id s.auxiliary ≡ some m
      → m.waitblock ≡ true
      → SafeAt (attempt (exec_exec h id file terminal) >>= note_started id exec_id) s
  execute-SafeAt id exec_id file terminal s m v l w =
      let safe = exec_exec-SafeAt h s v id file terminal in
      SafeAt-bind (attempt (exec_exec h id file terminal)) (note_started id exec_id) s
        (SafeAt-attempt _ s safe)
        λ r e v₁.
          note_started-SafeAt id exec_id r _ m v₁ (rw (exec_exec-auxiliary h id file terminal s) l)
            w (rw (ok-injective e) at safe.no_panic)

  found-SafeAt :
      (id exec_id : String) (s : Shim) (m : ManagedProcess)
      → Inv s
      → lookup exec_id s.auxiliary ≡ some m
      → SafeAt (start_found h id exec_id m) s
  unfolding start_found process_of spec_terminal
  found-SafeAt id exec_id s m v l =
      let ok_m : ProcessOk m = process_of-ProcessOk (aux_process exec_id) s m v l in
      elim (Bool-cases (m.state == status_created)) [
        | inr other ↦ record { no_panic = rw (other) (λ e. cc); kept = rw (other) v }
        | inl same ↦ elim (Option-cases m.spec) [
          | inl none_there ↦ absurd (ok_m.created_has_spec same none_there)
          | inr (p, there) ↦
              let x =
                execute-SafeAt id exec_id m.specfile p.terminal s m v l
                  (created-waitblock m ok_m same) in
              record { no_panic = rw (same, there) x.no_panic; kept = rw (same, there) x.kept }
        ]
      ]

  start_aux-SafeAt : (id exec_id : String) (s : Shim) → Inv s → SafeAt (start_aux h id exec_id) s
  unfolding start_aux
  start_aux-SafeAt id exec_id s v = elim (Option-cases (lookup exec_id s.auxiliary)) [
    | inl absent ↦ record {
      no_panic = rw (get_auxiliary, absent) (λ e. cc);
      kept = rw (get_auxiliary, absent) v;
    }
    | inr (m, there) ↦
        let x = found-SafeAt id exec_id s m v there in
        record {
          no_panic = rw (get_auxiliary, there) x.no_panic;
          kept = rw (get_auxiliary, there) x.kept;
        }
  ]

  pub start-SafeAt :
      (req_id exec_id : String) (s : Shim) → Inv s → SafeAt (start h req_id exec_id) s
  unfolding start
  start-SafeAt req_id exec_id s v = elim (Bool-cases (req_id == s.id)) [
    | inr other ↦ record { no_panic = rw (other) (λ e. cc); kept = rw (other) v }
    | inl same ↦
        let x =
          SafeAt-if (exec_id == "") (start_primary h s.id) (start_aux h s.id exec_id) s
            (λ _. start_primary-SafeAt h s.id s v) (λ _. start_aux-SafeAt s.id exec_id s v) in
        record { no_panic = rw (same) x.no_panic; kept = rw (same) x.kept }
  ]
