-- ===== src/Csi/Messages.antt =====
-- What pkg/csi/service.go uses of the messages of
-- github.com/container-storage-interface/spec/lib/go/csi: the fields that it reads and sets. The
-- getters answer the zero value on a nil pointer, so an absent request is a request of zero values.
use kube_pfs.Base.{ℤ, Option}
use kube_pfs.Table.{Table}
use kube_pfs.Text.{Text}

pub record Volume : Type 0 where
  pub volume_id : Text
  pub capacity_bytes : ℤ
  pub volume_context : Table Text

-- `capacity_range` is the RequiredBytes of the range, if there is one.
pub record CreateVolumeRequest : Type 0 where
  pub name : Text
  pub capacity_range : Option ℤ

pub record NodeStageVolumeRequest : Type 0 where
  pub staging_target_path : Text

pub record NodePublishVolumeRequest : Type 0 where
  pub target_path : Text
  pub staging_target_path : Text

-- The capabilities that the service declares.
pub data Capability : Type 0 where
  controller_service create_delete_volume publish_unpublish_volume stage_unstage_volume : Capability
