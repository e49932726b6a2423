-- ===== src/Csi.antt =====
-- The CSI plugin, pkg/csi/service.go: the volumes that the controller knows, and the directories
-- that the node makes. `Messages` is what the service uses of the CSI specification's Go package.
pub mod Messages
pub mod State
pub mod Controller
pub mod Node
pub mod Asked
pub mod Volumes
pub mod Names
pub mod Mounts
pub mod History
