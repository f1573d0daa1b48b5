-- ===== src/Containerd/Io.antt =====
-- What Create and Exec prepare: streams (containerd/pio.go), the bundle's files and its rootfs.
use runj.Prelude.{
  ℕ, String, not, Option, none, some, List, [], ◌∷◌, ◌==ℕ◌, ◌==◌, ◌!=◌, if◌then◌else◌, length,
  Result, ok, err,
}
use runj.FilePath.{join, base}
use runj.Oci
use runj.Containerd.Process.{Stdio, no_stdio, open_handles}
use runj.Containerd.Shim.{
  Shim, Task, Error, failed, bad_file_name, panicked, CMount, copy_file, write_config, make_dir,
  mount_component, close_handle, act, does, pure, raise, refuse_if, lift, ◌>>◌,
}
use runj.Containerd.Command.{Host, refused}
use runj.Containerd.Bundle.{incompatible_linux_mounts, filter_mounts}

-- The options of a request: none, one that cannot be unmarshalled, one of another type, or
-- runtime options with this ConfigPath.
pub data Options : Type 0 where
  no_options bad_options other_options : Options
  runtime_options : String → Options

-- stdio.Close
unfoldable pub close_handles : List ℕ → Shim → Shim
close_handles [] s = s
close_handles (fd ∷ fds) s = close_handles fds (act (close_handle fd) s)

unfoldable pub close_stdio : Stdio → Shim → Shim
unfolding close_handles open_handles
close_stdio io s = close_handles (open_handles io) s

module _ (h : Host) where
  -- One stream: `none` if opening it fails.
  stream : String → Option (Option ℕ)
  stream path =
      if h.stat path
      then elim (h.open_fifo path) [ none ↦ none | some fd ↦ some (some fd) ]
      else some none

  -- setupIO: the streams that are open, and whether all of them could be opened
  unfoldable pub setup_io : String → String → String → Stdio × Result Error (Unit {0})
  unfolding stream
  setup_io stdin stdout stderr = elim (stream stdin) [
    | none ↦ (no_stdio, err failed)
    | some i ↦ elim (stream stdout) [
      | none ↦ (record no_stdio { stdin = i }, err failed)
      | some o ↦ elim (stream stderr) [
        | none ↦ (record { stdin = i; stdout = o; stderr = none }, err failed)
        | some e ↦ (record { stdin = i; stdout = o; stderr = e }, ok tt)
      ]
    ]
  ]

  copy_extension : String → String → Task (Unit {0})
  copy_extension bundle path = if path == "" then pure tt else do
    refuse_if (base path != "runj.ext.json") bad_file_name
    does (copy_file path (join bundle "runj.ext.json"))
    refuse_if (not (h.copy_file path (join bundle "runj.ext.json"))) failed

  -- setupRunjExtension
  unfoldable pub setup_runj_extension : String → Options → Task (Unit {0})
  unfolding copy_extension
  setup_runj_extension bundle no_options = pure tt
  setup_runj_extension bundle bad_options = raise failed
  setup_runj_extension bundle other_options = raise panicked
  setup_runj_extension bundle (runtime_options path) = copy_extension bundle path

  unfoldable pub write_filtered : String → Option Oci.Spec → Task (Unit {0})
  write_filtered path none = raise failed
  write_filtered path (some spec) =
      let mounts = filter_mounts incompatible_linux_mounts spec.mounts in
      if length spec.mounts ==ℕ length mounts then pure tt else do
        does (write_config path (record spec { mounts = mounts }))
        refuse_if (not (h.write_config path)) failed

  -- filterIncompatibleLinuxMounts
  unfoldable pub filter_incompatible_linux_mounts : String → Task (Unit {0})
  unfolding write_filtered
  filter_incompatible_linux_mounts bundle =
      if bundle == ""
      then pure tt
      else write_filtered (join bundle "config.json") (h.read_config (join bundle "config.json"))

  -- The rootfs directory, made where there is something to mount on it.
  unfoldable pub make_rootfs : String → List CMount → Task String
  make_rootfs bundle [] = pure ""
  make_rootfs bundle (m ∷ ms) = do
    does (make_dir (join bundle "rootfs"))
    lift {A = Unit {0}}
        (elim (h.make_dir (join bundle "rootfs")) [ refused ↦ err failed | _ ↦ ok tt ])
    pure (join bundle "rootfs")

  -- The loop that mounts the components of the rootfs.
  unfoldable pub mount_components : String → List CMount → Task (Unit {0})
  mount_components rootfs [] s = (ok tt, s)
  mount_components rootfs (m ∷ ms) s =
      let rest = mount_components rootfs ms (act (mount_component m rootfs) s) in
      if h.mount m then rest else (err failed, act (mount_component m rootfs) s)
