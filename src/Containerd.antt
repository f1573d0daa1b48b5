-- ===== src/Containerd.antt =====
-- The containerd package: the shim that serves containerd's task API with the runj command.
pub mod Process
pub mod Shim
pub mod Command
pub mod Aux
pub mod Bundle
pub mod Io
pub mod Create
pub mod Start
pub mod Task
pub mod Exits
pub mod Invariant
pub mod Safety
pub mod Calls
pub mod Race
pub mod Service
pub mod Manager
