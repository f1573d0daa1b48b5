-- ===== src/Runj.antt =====
-- The runj command (cmd/runj) and the state of a container on disk (state).
pub mod Version
pub mod Store
pub mod Signal
pub mod Commands
pub mod Create
pub mod Exec
pub mod Lifecycle
