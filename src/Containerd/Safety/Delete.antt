-- ===== src/Containerd/Safety/Delete.antt =====
-- Delete is safe: the process that deleteAux stops is no longer there when it returns.
use runj.Containerd.Safety.Queries.{delete_container-SafeAt}
use runj.Containerd.Aux.Laws.{remove-adjust, lookup-adjust}
use runj.Containerd.Safety.{
  failed_precondition≢panicked, SafeAt-refuse_if, SafeAt-then, failed_precondition, refuse_if,
  SafeAt-if, SafeAt,
}
use runj.Containerd.Invariant.{process_of-ProcessOk, remove-Inv, same-Inv, Inv, ProcessOk}
use runj.Status.{status_stopped, status_created, status_creating, status_running}
use runj.Containerd.Process.{ManagedProcess}
use runj.Containerd.Shim.{◌>>◌, refuse_if, remove_file, Shim, Action}
use runj.Containerd.Aux.{
  aux_process, close_waitblock, get_auxiliary, remove, lookup, delete_auxiliary, process_of, update,
}
use runj.Containerd.Task.{delete_container, killed_status, delete_aux, delete, delete_found}
use runj.Containerd.Command.{Host}
use runj.Prelude.{
  append-nil, arith, eq_iff, eq_refl, ◌++◌, ◌≢◌, Option-cases, true, ok, ◌||◌, false, Bool-cases,
  inl, inr, refl, ◌==◌, some, [], ◌≡◌, ◌∷◌, ◌!=◌, if◌then◌else◌, List, String,
}

-- A process that is being created or has been created has not ended.
not_ended :
    (m : ManagedProcess)
    → ProcessOk m
    → (m.state == status_creating || m.state == status_created) ≡ true
    → m.waitblock ≡ true
not_ended m w c = elim (Bool-cases (m.state == status_stopped)) [
  | inl stopped ↦ absurd (other m.state ((eq_iff m.state status_stopped).0 stopped) c)
  | inr not_stopped ↦ ground (arith, w.ended, not_stopped)
]
  where
    other : (x : String) → x ≡ status_stopped → (x == status_creating || x == status_created) ≢ true
    other x e = rw (e) (λ p. cc)

module _ (h : Host) where
  -- What deleteAux has done outside the service.
  abbrev pub removal : String → List Action
  removal file = if file != "" then remove_file file ∷ [] else []

  -- The process as deleteAux leaves it to those that still point to it.
  abbrev pub deleted : ManagedProcess → ManagedProcess
  deleted m = record m {
    waitblock =
        if m.state == status_creating || m.state == status_created then false else m.waitblock;
    specfile = if m.specfile != "" then "" else m.specfile;
  }

  delete_found_lem :
      (exec_id : String) (s : Shim) (m : ManagedProcess)
      → lookup exec_id s.auxiliary ≡ some m
      → (m.state == status_running) ≡ false
      → ((m.state == status_creating || m.state == status_created) ≡ true → m.waitblock ≡ true)
      → delete_found h exec_id m s ≡ (
        ok (record { exited_at = h.now; exit_status = killed_status }),
        record s {
          auxiliary = remove exec_id s.auxiliary;
          released = deleted m ∷ s.released;
          actions = s.actions ++ removal m.specfile;
        },
      )
  unfolding delete_found update process_of delete_auxiliary
  delete_found_lem exec_id s m l r w =
      elim (Bool-cases (m.state == status_creating || m.state == status_created)) [
        | inl opened ↦ elim (Bool-cases (m.specfile != "")) [
          | inl file ↦
              rw
                (
                  r,
                  opened,
                  close_waitblock,
                  process_of,
                  l,
                  w opened,
                  file,
                  update,
                  remove-adjust,
                  remove-adjust,
                  lookup-adjust,
                  eq_refl,
                  lookup-adjust,
                  eq_refl,
                  l,
                )
                refl
          | inr no_file ↦
              rw
                (
                  r,
                  opened,
                  close_waitblock,
                  process_of,
                  l,
                  w opened,
                  no_file,
                  update,
                  remove-adjust,
                  append-nil,
                  lookup-adjust,
                  eq_refl,
                  l,
                )
                refl
        ]
        | inr other ↦ elim (Bool-cases (m.specfile != "")) [
          | inl file ↦ rw (r, other, file, update, remove-adjust, lookup-adjust, eq_refl, l) refl
          | inr no_file ↦ rw (r, other, no_file, append-nil, l) refl
        ]
      ]

  -- deleteAux of a process that is registered and not running, in a service that has the
  -- invariant: it succeeds, takes exactly that process out of the map and removes its specfile if it
  -- has one. The process that a pending Wait still points to has its channel closed if it was being
  -- created or had been created, and no specfile. Nothing else changes.
  pub delete_aux_lem :
      (exec_id : String) (s : Shim) (m : ManagedProcess)
      → Inv s
      → lookup exec_id s.auxiliary ≡ some m
      → (m.state == status_running) ≡ false
      → delete_aux h exec_id s ≡ (
        ok (record { exited_at = h.now; exit_status = killed_status }),
        record s {
          auxiliary = remove exec_id s.auxiliary;
          released = deleted m ∷ s.released;
          actions = s.actions ++ removal m.specfile;
        },
      )
  unfolding delete_aux process_of
  delete_aux_lem exec_id s m v l r =
      rw (get_auxiliary, l)
        (delete_found_lem exec_id s m l r
          λ opened. not_ended m (process_of-ProcessOk (aux_process exec_id) s m v l) opened)

  delete_aux-SafeAt : (exec_id : String) (s : Shim) → Inv s → SafeAt (delete_aux h exec_id) s
  unfolding delete_aux delete_found
  delete_aux-SafeAt exec_id s v = elim (Option-cases (lookup exec_id s.auxiliary)) [
    | inl absent ↦ record {
      no_panic = rw (get_auxiliary, absent) (λ e. cc);
      kept = rw (get_auxiliary, absent) v;
    }
    | inr (m, there) ↦ elim (Bool-cases (m.state == status_running)) [
      | inl running ↦ record {
        no_panic = rw (get_auxiliary, there, running) (λ e. cc);
        kept = rw (get_auxiliary, there, running) v;
      }
      | inr other ↦
          let x = delete_aux_lem exec_id s m v there other in
          record {
            no_panic = rw (x) (λ e. cc);
            kept = rw (x) (same-Inv (remove-Inv exec_id s v) refl refl refl);
          }
    ]
  ]

  pub delete-SafeAt :
      (req_id exec_id : String) (s : Shim) → Inv s → SafeAt (delete h req_id exec_id) s
  unfolding delete
  delete-SafeAt req_id exec_id s v = elim (Bool-cases (req_id == s.id)) [
    | inr other ↦ record { no_panic = rw (other) (λ e. cc); kept = rw (other) v }
    | inl same ↦
        let x =
          SafeAt-if (exec_id != "") (delete_aux h exec_id)
            (refuse_if (s.bundle_path == "") failed_precondition
              >> delete_container h s.bundle_path)
            s (λ _. delete_aux-SafeAt exec_id s v)
            (λ _.
              SafeAt-then (refuse_if (s.bundle_path == "") failed_precondition)
                (delete_container h s.bundle_path) s
                (SafeAt-refuse_if s v _ _ failed_precondition≢panicked)
                λ w. delete_container-SafeAt h _ w _) in
        record { no_panic = rw (same) x.no_panic; kept = rw (same) x.kept }
  ]
