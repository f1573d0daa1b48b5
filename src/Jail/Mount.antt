-- ===== src/Jail/Mount.antt =====
-- jail/mount.go: the mounts of a container. The mount package and the file system answer by `Fs`.
pub mod Active
pub mod Done
use runj.Prelude.{
  true, false, ◌++◌, map, ℕ, String, Bool, Option, none, some, List, [], ◌∷◌, reverse, Result, ok,
  err, ◌==◌, if◌then◌else◌,
}
use runj.FilePath.{join, dir}
use runj.Oci.{Mount}

pub data MountError : Type 0 where
  no_source not_created not_mounted not_unmounted : MountError

-- A change to the host.
pub data Change : Type 0 where
  mounted : Mount → String → Change
  unmounted : String → Change
  -- os.MkdirAll, and os.OpenFile of a mount point that is a file: attempts
  made_dir made_file : String → Change

-- os.Stat of a path
pub data PathKind : Type 0 where
  directory other_file absent unreadable : PathKind

pub record Fs : Type 0 where
  pub stat : String → PathKind
  pub mkdir_all : String → Bool
  pub create_file : String → Bool
  pub mount : Mount → String → Bool
  pub unmount : String → Bool

-- createIfNotExists: whether it succeeds; a path that cannot be looked at is left alone.
unfoldable pub create_if_not_exists : Fs → String → Bool → Bool × List Change
create_if_not_exists fs path is_dir = elim (fs.stat path) [
  | absent ↦
      if is_dir
      then (fs.mkdir_all path, made_dir path ∷ [])
      else if fs.mkdir_all (dir path)
      then (fs.create_file path, made_dir (dir path) ∷ made_file path ∷ [])
      else (false, made_dir (dir path) ∷ [])
  | _ ↦ (true, [])
]

-- mount(8) requires a non-empty source.
unfoldable pub with_source : Mount → Mount
with_source m = if m.source == "" then record m { source = "null" } else m

abbrev pub destination : String → Mount → String
destination root m = join root m.destination

-- What one round of the loop does before it mounts: the error that it returns, and the changes.
-- The errors of this part are in a variable of their own.
unfoldable pub point_of : Bool × List Change → Option MountError × List Change
point_of (true, cs) = (none, cs)
point_of (false, cs) = (some not_created, cs)

unfoldable pub prepare_point : Fs → Mount → String → Option MountError × List Change
unfolding create_if_not_exists point_of
prepare_point fs m dest =
    if m.type == "nullfs"
    then elim (fs.stat m.source) [
      | directory ↦ point_of (create_if_not_exists fs dest true)
      | other_file ↦ point_of (create_if_not_exists fs dest false)
      | _ ↦ (some no_source, [])
    ]
    else (none, [])

-- The attempts to unmount, of which those that succeed are changes.
unfoldable pub unmount_each : Fs → List String → List Change
unmount_each fs [] = []
unmount_each fs (d ∷ ds) =
    let rest = unmount_each fs ds in if fs.unmount d then unmounted d ∷ rest else rest

-- The loop of Mount: `unwind` holds the mount points so far, the latest first, which the `defer`
-- unmounts in that order if mounting fails.
unfoldable pub mount_loop : Fs → String → List Mount → List String → Option MountError × List Change
unfolding prepare_point with_source unmount_each
mount_loop fs root [] unwind = (none, [])
mount_loop fs root (m ∷ ms) unwind =
    let dest = destination root m in
    let point = prepare_point fs (with_source m) dest in
    let rest = mount_loop fs root ms (dest ∷ unwind) in
    elim point.0 [
      | some e ↦ (some e, point.1)
      | none ↦
          if fs.mount (with_source m) dest
          then (rest.0, point.1 ++ mounted (with_source m) dest ∷ rest.1)
          else (some not_mounted, point.1 ++ unmount_each fs unwind)
    ]

-- Mount, of a spec with this root path
unfoldable pub mount : Fs → String → List Mount → Option MountError × List Change
unfolding mount_loop
mount fs root ms = mount_loop fs root ms []

-- The error that is kept is the first one.
unfoldable pub first_error : Fs → List String → Option MountError
first_error fs [] = none
first_error fs (d ∷ ds) =
    let rest = first_error fs ds in if fs.unmount d then rest else some not_unmounted

-- Unmount: the mounts from the last to the first, each attempted whatever the others do.
unfoldable pub unmount : Fs → String → List Mount → Option MountError × List Change
unfolding first_error unmount_each
unmount fs root ms =
    let points = reverse (map (destination root) ms) in
    (first_error fs points, unmount_each fs points)
