-- ===== src/Containerd/Safety/Create.antt =====
-- Create and Exec are safe, Create with options of the type that the shim knows.
use runj.Prelude.{Option, ℕ, String, Result, err, ◌≢◌, refl, arith}
use runj.Containerd.Process.{Stdio, set_stdio, set_console, set_pid}
use runj.Containerd.Shim.{◌>>=◌, Task, ◌>>◌, recursive_unmount, u32, task_create, Shim, panicked}
use runj.Containerd.Command.{exec_state, Host}
use runj.Containerd.Aux.{update, set_bundle_path}
use runj.Containerd.Io.{
  setup_runj_extension, filter_incompatible_linux_mounts, make_rootfs, close_stdio,
  mount_components, other_options,
}
use runj.Containerd.Create.{
  create_mounted, prepare_bundle, after_create, note_created, CreateRequest, create,
  create_container, set_primary_pid,
}
use runj.Containerd.Invariant.{Inv, same-Inv}
use runj.Containerd.Safety.{
  act, pure, send, Error, SafeAt, SafeAt-pure, SafeAt-lift, SafeAt-bind, SafeAt-then, SafeAt-send,
  SafeAt-deferred,
}
use runj.Containerd.Safety.Commands.{
  exec_state-SafeAt, exec_create-SafeAt, setup_io-no_panic, setup_runj_extension-SafeAt,
  filter_mounts-SafeAt, make_rootfs-SafeAt, mount_components-SafeAt, close_stdio-Inv,
}

set_primary_pid-Inv : (pid : ℕ) (s : Shim) → Inv s → Inv (set_primary_pid pid s)
unfolding set_primary_pid set_pid
set_primary_pid-Inv pid s v = record {
  primary = record {
    ended = ground (arith, v.primary.ended);
    created_has_spec = ground (arith, v.primary.created_has_spec);
  };
  auxiliary = v.auxiliary;
  events_open = v.events_open;
}

set_bundle_path-Inv : (path : String) (s : Shim) → Inv s → Inv (set_bundle_path path s).1
unfolding set_bundle_path
set_bundle_path-Inv path s v = same-Inv v (ground arith) (ground arith) (ground arith)

note_created-SafeAt :
    (req : CreateRequest) (pid : ℕ) (s : Shim) → Inv s → SafeAt (note_created req pid) s
unfolding note_created
note_created-SafeAt req pid s v =
    let x =
      SafeAt-then (send (task_create req.id req.bundle req.rootfs (u32 pid))) (pure (u32 pid))
        (set_primary_pid pid s) (SafeAt-send _ (set_primary_pid-Inv pid s v) _)
        λ w. SafeAt-pure _ w _ in
    record { no_panic = x.no_panic; kept = x.kept }

-- Writes to the primary process that are not of its state, its spec or its channel.
with_streams : Stdio → Option ℕ → Shim → Shim
with_streams pio con s = record s { primary = set_console con (set_stdio pio s.primary) }

with_streams-Inv : (pio : Stdio) (con : Option ℕ) (s : Shim) → Inv s → Inv (with_streams pio con s)
unfolding with_streams
with_streams-Inv pio con s v = record {
  primary = record { ended = v.primary.ended; created_has_spec = v.primary.created_has_spec };
  auxiliary = v.auxiliary;
  events_open = v.events_open;
}

module _ (h : Host) where
  after_create-SafeAt :
      (req : CreateRequest) (pio : Stdio) (con : Option ℕ) (s : Shim)
      → Inv s
      → SafeAt (after_create h req pio con) s
  unfolding after_create with_streams update
  after_create-SafeAt req pio con s v =
      let x =
        SafeAt-bind (exec_state h req.id) (λ st. note_created req st.pid) (with_streams pio con s)
          (exec_state-SafeAt h _ (with_streams-Inv pio con s v) _)
          λ st _ w. note_created-SafeAt req st.pid _ w in
      record { no_panic = x.no_panic; kept = x.kept }

  create_container-SafeAt :
      (req : CreateRequest) (io : Stdio × Result Error (Unit {0}))
      → io.1 ≢ err panicked
      → (s : Shim) → Inv s
      → SafeAt (create_container h req io) s
  unfolding create_container
  create_container-SafeAt req (pio, opened) n s v =
      SafeAt-then _ _ s (SafeAt-lift s v opened n) λ v₁.
        SafeAt-bind _ _ _ (exec_create-SafeAt h _ v₁ _ _ _)
          λ con _ v₂. after_create-SafeAt req pio con _ v₂

  prepare_bundle-SafeAt :
      (req : CreateRequest)
      → req.options ≢ other_options
      → (s : Shim) → Inv s
      → SafeAt (prepare_bundle h req) s
  unfolding prepare_bundle
  prepare_bundle-SafeAt req n s v =
      let mount_all : String → Task String =
        λ rootfs. mount_components h rootfs req.rootfs >> pure rootfs in
      let make_all : Task String = make_rootfs h req.bundle req.rootfs >>= mount_all in
      SafeAt-then (setup_runj_extension h req.bundle req.options)
        (filter_incompatible_linux_mounts h req.bundle >> make_all) s
        (setup_runj_extension-SafeAt h s v _ _ n)
        λ v₁.
          SafeAt-then (filter_incompatible_linux_mounts h req.bundle) make_all _
            (filter_mounts-SafeAt h _ v₁ _)
            λ v₂.
              SafeAt-bind (make_rootfs h req.bundle req.rootfs) mount_all _
                (make_rootfs-SafeAt h _ v₂ _ _)
                λ rootfs _ v₃.
                  SafeAt-then (mount_components h rootfs req.rootfs) (pure rootfs) _
                    (mount_components-SafeAt h _ v₃ _ _) λ v₄. SafeAt-pure _ v₄ rootfs

  create_mounted-SafeAt :
      (req : CreateRequest) (rootfs : String) (s : Shim)
      → Inv s
      → SafeAt (create_mounted h req rootfs) s
  unfolding create_mounted
  create_mounted-SafeAt req rootfs s v =
      SafeAt-deferred (act (recursive_unmount rootfs)) _ s (λ t w. same-Inv w refl refl refl)
        (SafeAt-deferred (close_stdio _) _ s (close_stdio-Inv _)
          (create_container-SafeAt req _ (setup_io-no_panic h _ _ _) s v))

  pub create-SafeAt :
      (req : CreateRequest)
      → req.options ≢ other_options
      → (s : Shim) → Inv s
      → SafeAt (create h req) s
  unfolding create
  create-SafeAt req n s v =
      let x =
        SafeAt-bind (prepare_bundle h req) (create_mounted h req)
          (set_bundle_path req.bundle (record s { id = req.id })).1
          (prepare_bundle-SafeAt req n _
            (set_bundle_path-Inv req.bundle _ (same-Inv v refl refl refl)))
          λ rootfs _ w. create_mounted-SafeAt req rootfs _ w in
      record { no_panic = x.no_panic; kept = x.kept }
