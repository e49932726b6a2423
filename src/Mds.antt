-- ===== src/Mds.antt =====
-- The metadata service, pkg/mds/service.go: the namespace of files and directories, kept in
-- memory and in a bbolt database. `Backend` is the code that the service only calls, `State` its
-- state, `Stripe` the choice of object storage targets, and the other modules a handler each.
pub mod Backend
pub mod State
pub mod Stripe
pub mod Persist
pub mod Create
pub mod Query
pub mod Unlink
pub mod Tree
pub mod Namespace
pub mod Load
pub mod Recovery
