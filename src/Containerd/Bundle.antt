-- ===== src/Containerd/Bundle.antt =====
-- containerd/bundle.go: the mounts that containerd generates for Linux are taken out of a bundle.
pub mod Equal
pub mod Filter
use runj.Prelude.{
  String, Bool, true, false, not, ◌||◌, Option, none, some, List, [], ◌∷◌, ◌==ℕ◌, ◌==◌, ◌!=◌,
  if◌then◌else◌, length,
}
use runj.Oci.{Mount}

-- incompatibleLinuxMounts, in any order: each destination stands once.
abbrev pub incompatible_linux_mounts : List Mount
incompatible_linux_mounts =
    record {
      destination = "/proc";
      type = "proc";
      source = "proc";
      options = "nosuid" ∷ "noexec" ∷ "nodev" ∷ [];
      uid_mappings = [];
      gid_mappings = [];
    }
    ∷ record {
      destination = "/dev";
      type = "tmpfs";
      source = "tmpfs";
      options = "nosuid" ∷ "strictatime" ∷ "mode=755" ∷ "size=65536k" ∷ [];
      uid_mappings = [];
      gid_mappings = [];
    }
    ∷ record {
      destination = "/dev/pts";
      type = "devpts";
      source = "devpts";
      options = "nosuid" ∷ "noexec" ∷ "newinstance" ∷ "ptmxmode=0666" ∷ "mode=0620" ∷ "gid=5" ∷ [];
      uid_mappings = [];
      gid_mappings = [];
    }
    ∷ record {
      destination = "/dev/shm";
      type = "tmpfs";
      source = "shm";
      options = "nosuid" ∷ "noexec" ∷ "nodev" ∷ "mode=1777" ∷ "size=65536k" ∷ [];
      uid_mappings = [];
      gid_mappings = [];
    }
    ∷ record {
      destination = "/dev/mqueue";
      type = "mqueue";
      source = "mqueue";
      options = "nosuid" ∷ "noexec" ∷ "nodev" ∷ [];
      uid_mappings = [];
      gid_mappings = [];
    }
    ∷ record {
      destination = "/sys";
      type = "sysfs";
      source = "sysfs";
      options = "nosuid" ∷ "noexec" ∷ "nodev" ∷ "ro" ∷ [];
      uid_mappings = [];
      gid_mappings = [];
    }
    ∷ record {
      destination = "/run";
      type = "tmpfs";
      source = "tmpfs";
      options = "nosuid" ∷ "strictatime" ∷ "mode=755" ∷ "size=65536k" ∷ [];
      uid_mappings = [];
      gid_mappings = [];
    }
    ∷ []

-- The loop over the options of two mounts that have as many.
unfoldable pub equal_options : List String → List String → Bool
equal_options [] b = true
equal_options (x ∷ a) [] = true
equal_options (x ∷ a) (y ∷ b) = if x != y then false else equal_options a b

-- equalMounts
unfoldable pub equal_mounts : Mount → Mount → Bool
unfolding equal_options
equal_mounts a b =
    if a.source != b.source
      || a.destination != b.destination
      || a.type != b.type
      || not (length a.options ==ℕ length b.options)
    then false
    else equal_options a.options b.options

-- The table's entry for a destination.
unfoldable pub find_mount : String → List Mount → Option Mount
find_mount d [] = none
find_mount d (m ∷ ms) = if m.destination == d then some m else find_mount d ms

abbrev matches_entry : Mount → Option Mount → Bool
matches_entry m none = false
matches_entry m (some entry) = equal_mounts m entry

-- Whether the loop leaves a mount out.
unfoldable pub is_filtered : List Mount → Mount → Bool
unfolding find_mount equal_mounts
is_filtered table m = matches_entry m (find_mount m.destination table)

-- The mounts that are kept.
unfoldable pub filter_mounts : List Mount → List Mount → List Mount
unfolding is_filtered
filter_mounts table [] = []
filter_mounts table (m ∷ ms) =
    let rest = filter_mounts table ms in if is_filtered table m then rest else m ∷ rest
