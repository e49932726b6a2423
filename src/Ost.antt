-- ===== src/Ost.antt =====
-- The object storage service, pkg/ost/service.go: blocks as files below a data directory.
pub mod Paths
pub mod Handlers
pub mod Blocks
pub mod Collision
pub mod Counters
pub mod Reading
pub mod History
pub mod Overlap
