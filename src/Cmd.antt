-- ===== src/Cmd.antt =====
-- The programs under cmd: what they do with the services of pkg.
pub mod Rpc
pub mod Seed
pub mod Flags
pub mod Host
pub mod Program
pub mod Faults
pub mod Demo
pub mod Servers
