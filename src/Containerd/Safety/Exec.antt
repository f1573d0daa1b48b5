-- ===== src/Containerd/Safety/Exec.antt =====
-- Exec is safe.
use runj.Containerd.Safety.Commands.{setup_io-no_panic, close_stdio-Inv}
use runj.Containerd.Io.{setup_io, close_stdio}
use runj.Containerd.Aux.Laws.{Option-injective, update-update}
use runj.Status.{status_created, created_not_stopped}
use runj.Containerd.Process.{
  set_stdio, set_specfile, set_spec, set_state, ManagedProcess, Stdio, new_process,
}
use runj.Containerd.Aux.{set, aux_process, update, process_of, lookup, new_auxiliary}
use runj.Containerd.Safety.{
  SafeAt-deferred, SafeAt-send, SafeAt-gets, failed≢panicked, SafeAt-refuse_if, SafeAt-bind,
  SafeAt-does, failed, SafeAt-set, refuse_if, SafeAt-lift, lift, does, SafeAt-then, panicked, send,
  Error, Result, gets, Task, SafeAt,
}
use runj.Containerd.Invariant.{
  process_of-ProcessOk, new_process-ProcessOk, update-Inv, ProcessOk, Inv,
}
use runj.Containerd.Shim.{
  refuse_if, write_process, ◌>>◌, lift, does, task_exec_added, send, Error, ◌>>=◌, gets, Task, Shim,
}
use runj.Containerd.Create.{
  other_spec, bad_spec, process_spec, SpecAny, process_of_any, exec, exec_registered, ExecRequest,
  write_specfile, exec_prepare, temp_file,
}
use runj.Containerd.Command.{Host}
use runj.Oci
use runj.Prelude.{
  Bool, not, eq_refl, err, ◌≢◌, Result, subst, ◌==◌, inr, Bool-cases, inl, ◌∷◌, Option-cases,
  String, arith,
}

module _ (h : Host) where
  write_specfile-SafeAt :
      (req : ExecRequest) (spec : Oci.Process) (name : String) (s : Shim)
      → Inv s
      → SafeAt (write_specfile h req spec name) s
  unfolding write_specfile
  write_specfile-SafeAt req spec name s v =
      let rest : Task (Unit {0}) =
        gets (λ s. s.id) >>= λ id. send (task_exec_added id req.exec_id) in
      let store : Task (Unit {0}) = set (aux_process req.exec_id) (set_specfile name) in
      SafeAt-then (does (write_process name spec))
        (refuse_if (not h.encode_process) failed >> (store >> rest)) s (SafeAt-does s v _)
        λ v₁.
          SafeAt-then (refuse_if (not h.encode_process) failed) (store >> rest) _
            (SafeAt-refuse_if _ v₁ _ _ failed≢panicked)
            λ v₂.
              SafeAt-then store rest _
                (SafeAt-set _ v₂ (aux_process req.exec_id) (set_specfile name) λ m e.
                  let w = process_of-ProcessOk _ _ m v₂ e in
                  record { ended = w.ended; created_has_spec = w.created_has_spec })
                λ v₃.
                  SafeAt-bind (gets (λ s. s.id)) (λ id. send (task_exec_added id req.exec_id)) _
                    (SafeAt-gets _ v₃ _) λ id _ v₄. SafeAt-send _ v₄ _

  temp_file-SafeAt : (s : Shim) → Inv s → SafeAt (temp_file h) s
  unfolding temp_file
  temp_file-SafeAt s v = record { no_panic = ground arith; kept = v }

  exec_prepare-SafeAt :
      (req : ExecRequest) (spec : Oci.Process) (io : Stdio × Result Error (Unit {0}))
      → io.1 ≢ err panicked
      → (s : Shim) → Inv s
      → SafeAt (exec_prepare h req spec io) s
  unfolding exec_prepare
  exec_prepare-SafeAt req spec (pio, opened) n s v =
      let store : Task (Unit {0}) = set (aux_process req.exec_id) (set_stdio pio) in
      let rest : Task (Unit {0}) = temp_file h >>= write_specfile h req spec in
      SafeAt-then (lift opened) (store >> rest) s (SafeAt-lift s v opened n) λ v₁.
        SafeAt-then store rest _
          (SafeAt-set _ v₁ (aux_process req.exec_id) (set_stdio pio) λ m e.
            let w = process_of-ProcessOk _ _ m v₁ e in
            record { ended = w.ended; created_has_spec = w.created_has_spec })
          λ v₂.
            SafeAt-bind (temp_file h) (write_specfile h req spec) _ (temp_file-SafeAt _ v₂)
              λ name _ v₃. write_specfile-SafeAt req spec name _ v₃

new_auxiliary-Inv :
    (id : String) (s : Shim)
    → Inv s
    → Inv (record s { auxiliary = (id, new_process) ∷ s.auxiliary })
unfolding lookup
new_auxiliary-Inv id s v = record {
  primary = v.primary;
  auxiliary = λ j m e. elim (Bool-cases (id == j)) [
    | inl same ↦ subst ProcessOk (Option-injective (rw (same) at e)) new_process-ProcessOk
    | inr other ↦ v.auxiliary j m (rw (other) at e)
  ];
  events_open = v.events_open;
}

process_of_any-no_panic :
    (spec : SpecAny) (terminal : Bool) → process_of_any spec terminal ≢ err panicked
unfolding process_of_any
process_of_any-no_panic bad_spec terminal e = cc
process_of_any-no_panic other_spec terminal e = cc
process_of_any-no_panic (process_spec p) terminal e = cc

as_created : Oci.Process → ManagedProcess → ManagedProcess
as_created spec m = set_state status_created (set_spec spec m)

as_created-ProcessOk : (spec : Oci.Process) → ProcessOk (as_created spec new_process)
unfolding as_created
as_created-ProcessOk spec = record { ended = created_not_stopped; created_has_spec = λ h p. cc }

registered-Inv :
    (id : String) (spec : Oci.Process) (s : Shim)
    → Inv s
    → Inv (
        update (aux_process id) (set_state status_created) (
          update
            (aux_process id)
            (set_spec spec)
            (record s { auxiliary = (id, new_process) ∷ s.auxiliary })))
unfolding as_created process_of lookup
registered-Inv id spec s v = rw (update-update) (
    update-Inv (aux_process id) (as_created spec) _ (new_auxiliary-Inv id s v) λ m e.
      subst (λ n. ProcessOk (as_created spec n)) (Option-injective (rw (eq_refl) at e))
        (as_created-ProcessOk spec))

module _ (h : Host) where
  pub exec_registered-SafeAt :
      (req : ExecRequest) (spec : Oci.Process) (s : Shim)
      → Inv s
      → SafeAt
          (exec_registered h req spec)
          (record s { auxiliary = (req.exec_id, new_process) ∷ s.auxiliary })
  unfolding exec_registered
  exec_registered-SafeAt req spec s v =
      let x =
        SafeAt-deferred (close_stdio (setup_io h req.stdin req.stdout req.stderr).0)
          (exec_prepare h req spec _) _ (close_stdio-Inv _)
          (exec_prepare-SafeAt h req spec _ (setup_io-no_panic h _ _ _) _
            (registered-Inv req.exec_id spec s v)) in
      record { no_panic = x.no_panic; kept = x.kept }

  new_process_of :
      (req : ExecRequest) (spec : Oci.Process) (s : Shim)
      → Inv s
      → SafeAt (new_auxiliary req.exec_id >> exec_registered h req spec) s
  unfolding new_auxiliary
  new_process_of req spec s v = elim (Option-cases (lookup req.exec_id s.auxiliary)) [
    | inl absent ↦
        let x = exec_registered-SafeAt req spec s v in
        record {
          no_panic = rw (new_auxiliary, absent) x.no_panic;
          kept = rw (new_auxiliary, absent) x.kept;
        }
    | inr (m, there) ↦ record {
      no_panic = rw (new_auxiliary, there) (λ e. cc);
      kept = rw (new_auxiliary, there) v;
    }
  ]

  pub exec-SafeAt : (req : ExecRequest) (s : Shim) → Inv s → SafeAt (exec h req) s
  unfolding exec
  exec-SafeAt req s v =
      SafeAt-bind (lift (process_of_any req.spec req.terminal))
        (λ spec. new_auxiliary req.exec_id >> exec_registered h req spec) s
        (SafeAt-lift s v _ (process_of_any-no_panic req.spec req.terminal))
        λ spec _ w. new_process_of req spec s w
