-- ===== src/Containerd/Aux.antt =====
-- containerd/shim.go: the processes of a service, by pid and by exec id. A Go map is an association
-- list with each key once; a pointer to a process is the target under which it is found.
pub mod Laws
use runj.Prelude.{
  ℕ, String, Bool, true, false, Option, none, some, List, [], ◌∷◌, ◌==ℕ◌, ◌==◌, ◌!=◌, ◌&&◌,
  if◌then◌else◌, Result, ok, err,
}
use runj.Containerd.Process.{ManagedProcess, new_process}
use runj.Containerd.Shim.{Shim, Task, Error, not_found, already_exists, panicked, modify}

pub data Target : Type 0 where
  primary_process : Target
  aux_process : String → Target

module _ {ℓ} {V : Type ℓ} where
  unfoldable pub lookup : String → List (String × V) → Option V
  lookup k [] = none
  lookup k ((j, v) ∷ m) = if j == k then some v else lookup k m

  -- Writes the value under a key that is there.
  unfoldable pub adjust : String → (V → V) → List (String × V) → List (String × V)
  adjust k f [] = []
  adjust k f ((j, v) ∷ m) = if j == k then (j, f v) ∷ m else (j, v) ∷ adjust k f m

  unfoldable pub remove : String → List (String × V) → List (String × V)
  remove k [] = []
  remove k ((j, v) ∷ m) = let rest = remove k m in if j == k then rest else (j, v) ∷ rest

-- Writes through the pointer to a process.
unfoldable pub update : Target → (ManagedProcess → ManagedProcess) → Shim → Shim
unfolding adjust
update primary_process f s = record s { primary = f s.primary }
update (aux_process id) f s = record s { auxiliary = adjust id f s.auxiliary }

abbrev pub set : Target → (ManagedProcess → ManagedProcess) → Task (Unit {0})
set t f = modify (update t f)

-- Reads through the pointer to a process.
unfoldable pub process_of : Target → Shim → Option ManagedProcess
unfolding lookup
process_of primary_process s = some s.primary
process_of (aux_process id) s = lookup id s.auxiliary

-- getAuxiliary, with the error of a process that is not there
unfoldable pub get_auxiliary : String → Task ManagedProcess
unfolding lookup
get_auxiliary id s = (elim (lookup id s.auxiliary) [ none ↦ err not_found | some m ↦ ok m ], s)

-- newAuxiliary, with the error of a process that is there already
unfoldable pub new_auxiliary : String → Task (Unit {0})
unfolding lookup
new_auxiliary id s = elim (lookup id s.auxiliary) [
  | some m ↦ (err already_exists, s)
  | none ↦ (ok tt, record s { auxiliary = (id, new_process) ∷ s.auxiliary })
]

abbrev pub release : Option ManagedProcess → List ManagedProcess → List ManagedProcess
release none ms = ms
release (some m) ms = m ∷ ms

-- deleteAuxiliary: the process goes out of the map, and those that point to it keep it.
unfoldable pub delete_auxiliary : String → Task (Unit {0})
unfolding lookup remove
delete_auxiliary id = modify (λ s. record s {
  auxiliary = remove id s.auxiliary;
  released = release (lookup id s.auxiliary) s.released;
})

abbrev close_of : Option ManagedProcess → Target → Shim → Result Error (Unit {0}) × Shim
close_of none t s = (err panicked, s)
close_of (some m) t s =
    if m.waitblock
    then (ok tt, update t (λ p. record p { waitblock = false }) s)
    else (err panicked, s)

-- close(proc.waitblock): to close a channel twice is a panic.
unfoldable pub close_waitblock : Target → Task (Unit {0})
unfolding update process_of
close_waitblock t s = close_of (process_of t s) t s

-- The map's entries, in the order in which the loop meets them.
unfoldable pub aux_with_pid : ℕ → List (String × ManagedProcess) → Option String
aux_with_pid pid [] = none
aux_with_pid pid ((id, m) ∷ rest) = if m.pid ==ℕ pid then some id else aux_with_pid pid rest

-- findProcess
unfoldable pub find_process : ℕ → Shim → Option Target
unfolding aux_with_pid
find_process pid s =
    if pid ==ℕ s.primary.pid
    then some primary_process
    else elim (aux_with_pid pid s.auxiliary) [ none ↦ none | some id ↦ some (aux_process id) ]

-- setBundlePath: whether the path was stored. It is not changed to another one.
unfoldable pub set_bundle_path : String → Shim → Bool × Shim
set_bundle_path path s =
    if s.bundle_path != "" && s.bundle_path != path
    then (false, s)
    else (true, record s { bundle_path = path })
