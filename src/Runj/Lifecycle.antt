-- ===== src/Runj/Lifecycle.antt =====
-- cmd/runj: the commands on one container, one after the other, and the life of a container that
-- the OCI runtime specification describes.
pub mod Moves
pub mod Deleting
pub mod Making
pub mod Refinement
pub mod Once
pub mod Run
use runj.Prelude.{◌≡◌, Option, none, some, List, [], ◌∷◌, String, Bool, true, false, ℕ, ◌⊎◌}
use runj.Text.Decimal.{ℤ}
use runj.Status.{Status, status_creating, status_created, status_running, status_stopped}
use runj.Runj.Store.{State, World, Command, done, ◌>>=◌}
use runj.Runj.Commands
use runj.Runj.Create.{Surroundings}
use runj.Runj.Create.Stages

-- A run of a command, with what it is answered: create takes the id, the console socket, the pid
-- file and the bundle; kill the signal, whether it is for all processes, and a pid.
pub data Call : Type 0 where
  create : Surroundings → String → String → String → String → Call
  start state delete : Commands.Answers → Call
  kill : Commands.Answers → Option ℤ → Bool → ℕ → Call

unfoldable pub perform : Call → Command (Unit {0})
perform (create h id socket pid_file bundle) = Stages.create h id socket pid_file bundle
perform (start a) = Commands.start a
perform (state a) = Commands.state a >>= λ _. done tt
perform (delete a) = Commands.delete a
perform (kill a signal all pid) = Commands.kill a signal all pid

unfoldable pub perform_all : List Call → World → World
unfolding perform
perform_all [] w = w
perform_all (c ∷ cs) w = perform_all cs (perform c w).1

-- The status in state.json; none where there is no container.
abbrev pub phase : Option State → Option Status
phase none = none
phase (some s) = some s.status

-- The steps of a container's life.
pub data Step : Option Status → Option Status → Type 0 where
  stay : (p : Option Status) → Step p p
  created : Step none (some status_created)
  -- create has failed, and so has its clean-up
  creating : Step none (some status_creating)
  started :
      (p : Status)
      → ((p ≡ status_created) ⊎ (p ≡ status_creating))
      → Step (some p) (some status_running)
  stopped : Step (some status_running) (some status_stopped)
  deleted : (p : Status) → Step (some p) none

-- Not started yet: in one of the first two statuses, or not there.
abbrev pub Unstarted : Option State → Type 0
Unstarted none = Unit
Unstarted (some s) = (s.status ≡ status_created) ⊎ (s.status ≡ status_creating)

-- Without its state.json a container has no other file; and the fifo waits for a start.
pub record Sound (w : World) : Type 0 where
  pub absent :
      w.state_file ≡ false
      → (w.state ≡ none) × (w.config ≡ none) × (w.extension ≡ none) × (w.fifo ≡ false)
  pub waiting : w.fifo ≡ true → Unstarted w.state
