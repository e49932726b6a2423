-- ===== src/Proto.antt =====
-- The messages of proto/*.proto, as pkg/proto/gen declares them.
pub mod Metadata
pub mod Storage
