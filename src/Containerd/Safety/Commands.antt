-- ===== src/Containerd/Safety/Commands.antt =====
-- The runj commands and the preparations of Create and Exec are safe: they change only what was
-- done outside, and fail without a panic.
use runj.Prelude.{
  none, refl, ◌==◌, [], err, ◌∷◌, Option, ◌≢◌, Bool-cases, inl, inr, ℕ, String, Bool, List, arith,
  some,
}
use runj.Containerd.Shim.{Shim}
use runj.Containerd.Command.{
  Host, combined_output, exec_state, exec_delete, exec_kill, exec_start, exec_create, exec_exec,
  kill_args,
}
use runj.Oci
use runj.Containerd.Io.{
  Options, no_options, bad_options, other_options, runtime_options, close_handles, close_stdio,
  setup_io, setup_runj_extension, filter_incompatible_linux_mounts, write_filtered, make_rootfs,
  mount_components,
}
use runj.Containerd.Process.{Stdio, open_handles}
use runj.Containerd.Shim.{panicked, failed, CMount, act, close_handle, mount_component}
use runj.Containerd.Invariant.{Inv, same-Inv}
use runj.Containerd.Safety.{SafeAt-if, SafeAt-raise, SafeAt-pure, SafeAt-bind, SafeAt}

module _ (h : Host) (s : Shim) (v : Inv s) where
  pub combined_output-SafeAt : (args : List String) → SafeAt (combined_output h args) s
  unfolding combined_output
  combined_output-SafeAt args = record {
    no_panic = ground arith;
    kept = same-Inv v (ground arith) (ground arith) (ground arith);
  }

  pub exec_state-SafeAt : (id : String) → SafeAt (exec_state h id) s
  unfolding exec_state
  exec_state-SafeAt id = record {
    no_panic = ground arith;
    kept = same-Inv v (ground arith) (ground arith) (ground arith);
  }

  pub exec_delete-SafeAt : (id : String) → SafeAt (exec_delete h id) s
  unfolding exec_delete
  exec_delete-SafeAt id = record {
    no_panic = ground arith;
    kept = same-Inv v (ground arith) (ground arith) (ground arith);
  }

  pub exec_start-SafeAt : (id : String) → SafeAt (exec_start h id) s
  unfolding exec_start
  exec_start-SafeAt id = record {
    no_panic = ground arith;
    kept = same-Inv v (ground arith) (ground arith) (ground arith);
  }

  pub exec_kill-SafeAt :
      (id signal : String) (all : Bool) (pid : ℕ) → SafeAt (exec_kill h id signal all pid) s
  unfolding exec_kill
  exec_kill-SafeAt id signal all pid =
      SafeAt-bind _ _ s (combined_output-SafeAt (kill_args id signal all pid))
        λ r e w. SafeAt-pure _ w tt

  pub exec_create-SafeAt :
      (id bundle : String) (terminal : Bool) → SafeAt (exec_create h id bundle terminal) s
  unfolding exec_create
  exec_create-SafeAt id bundle terminal = record {
    no_panic = ground arith;
    kept = same-Inv v (ground arith) (ground arith) (ground arith);
  }

  pub exec_exec-SafeAt :
      (id file : String) (terminal : Bool) → SafeAt (exec_exec h id file terminal) s
  unfolding exec_exec
  exec_exec-SafeAt id file terminal = record {
    no_panic = ground arith;
    kept = same-Inv v (ground arith) (ground arith) (ground arith);
  }

module _ (h : Host) where
  pub setup_io-no_panic :
      (stdin stdout stderr : String) → (setup_io h stdin stdout stderr).1 ≢ err panicked
  unfolding setup_io
  setup_io-no_panic stdin stdout stderr = ground arith

  -- Options of another type than the one that the shim converts them to are a panic.
  pub setup_runj_extension-SafeAt :
      (s : Shim)
      → Inv s
      → (bundle : String) (o : Options) → o ≢ other_options
      → SafeAt (setup_runj_extension h bundle o) s
  unfolding setup_runj_extension
  setup_runj_extension-SafeAt s v bundle no_options n = SafeAt-pure s v tt
  setup_runj_extension-SafeAt s v bundle bad_options n = SafeAt-raise s v failed (λ e. cc)
  setup_runj_extension-SafeAt s v bundle other_options n = absurd (n refl)
  setup_runj_extension-SafeAt s v bundle (runtime_options path) n = record {
    no_panic = ground arith;
    kept = same-Inv v (ground arith) (ground arith) (ground arith);
  }

  write_filtered-SafeAt :
      (s : Shim)
      → Inv s
      → (path : String) (o : Option Oci.Spec) → SafeAt (write_filtered h path o) s
  unfolding write_filtered
  write_filtered-SafeAt s v path none = SafeAt-raise s v failed (λ e. cc)
  write_filtered-SafeAt s v path (some spec) = record {
    no_panic = ground arith;
    kept = same-Inv v (ground arith) (ground arith) (ground arith);
  }

  pub filter_mounts-SafeAt :
      (s : Shim) → Inv s → (bundle : String) → SafeAt (filter_incompatible_linux_mounts h bundle) s
  unfolding filter_incompatible_linux_mounts
  filter_mounts-SafeAt s v bundle =
      SafeAt-if (bundle == "") _ _ s (λ _. SafeAt-pure s v tt) λ _. write_filtered-SafeAt s v _ _

  pub make_rootfs-SafeAt :
      (s : Shim) → Inv s → (bundle : String) (ms : List CMount) → SafeAt (make_rootfs h bundle ms) s
  unfolding make_rootfs
  make_rootfs-SafeAt s v bundle [] = SafeAt-pure s v ""
  make_rootfs-SafeAt s v bundle (m ∷ ms) = record {
    no_panic = ground arith;
    kept = same-Inv v (ground arith) (ground arith) (ground arith);
  }

  pub mount_components-SafeAt :
      (s : Shim)
      → Inv s
      → (rootfs : String) (ms : List CMount) → SafeAt (mount_components h rootfs ms) s
  unfolding mount_components
  mount_components-SafeAt s v rootfs [] = SafeAt-pure s v tt
  mount_components-SafeAt s v rootfs (m ∷ ms) =
      let w : Inv (act (mount_component m rootfs) s) = same-Inv v refl refl refl in
      let rest = mount_components-SafeAt (act (mount_component m rootfs) s) w rootfs ms in
      elim (Bool-cases (h.mount m)) [
        | inl mounted ↦ record {
          no_panic = rw (mounted, mount_components) rest.no_panic;
          kept = rw (mounted, mount_components) rest.kept;
        }
        | inr refused ↦ record {
          no_panic = rw (refused, mount_components) (λ e. cc);
          kept = rw (refused, mount_components) w;
        }
      ]

pub close_handles-Inv : (fds : List ℕ) (s : Shim) → Inv s → Inv (close_handles fds s)
unfolding close_handles
close_handles-Inv [] s v = v
close_handles-Inv (fd ∷ fds) s v =
    close_handles-Inv fds (act (close_handle fd) s) (same-Inv v refl refl refl)

pub close_stdio-Inv : (io : Stdio) (s : Shim) → Inv s → Inv (close_stdio io s)
unfolding close_stdio
close_stdio-Inv io s v = close_handles-Inv (open_handles io) s v
