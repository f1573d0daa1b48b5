-- ===== src/Jail.antt =====
-- The jail package: parameters of a jail, mounts, and the jail system calls.
pub mod Iovec
pub mod Ps
pub mod Find
pub mod Handle
pub mod Params
pub mod Mount
