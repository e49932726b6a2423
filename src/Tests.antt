-- ===== src/Tests.antt =====
-- The parameters of the services at work: a database, a protobuf codec and a file system that are
-- concrete, and the theorems of the services at inputs that meet their hypotheses.
mod Codec
mod Instances
mod Mds
mod Histories
mod Recovery
mod Replays
mod Ost
mod Overlap
mod Csi
mod Seed
mod Machine
mod Faults
mod Demo
mod Programs
