-- ===== src/Csi/Controller.antt =====
-- The handlers of the controller in pkg/csi/service.go.
use kube_pfs.Base.{
  ℤ, pos, negsuc, ℕ, zero, suc, ◌^◌, Option, none, some, List, [], ◌∷◌, ◌++◌, if◌then◌else◌,
}
use kube_pfs.Csi.Messages.{Volume, CreateVolumeRequest}
use kube_pfs.Csi.State.{Service, plugin_name, count, sanitize_name}
use kube_pfs.Status.{Result, ok, err, invalid_argument}
use kube_pfs.Table.{lookup, insert, delete}
use kube_pfs.Text.{Text, codes, text_eq}
use kube_pfs.Text.Edit.{trim_space}

abbrev pub default_capacity : ℤ
default_capacity = pos (2 ^ 30)

-- The required bytes, if there is a range and they are positive, or else the default.
unfoldable pub capacity_of : Option ℤ → ℤ
capacity_of none = default_capacity
capacity_of (some (pos zero)) = default_capacity
capacity_of (some (pos (suc n))) = pos (suc n)
capacity_of (some (negsuc n)) = default_capacity

-- "kube-pfs-" + sanitizeName(name), for the trimmed name
abbrev pub volume_id_of : (ℕ → ℕ) → Text → Text
volume_id_of lower name = codes "kube-pfs-" ++ sanitize_name lower (trim_space name)

module _ {Fs : Type 0} where
  unfoldable pub create_volume :
      (ℕ → ℕ) → CreateVolumeRequest → Service Fs → Result Volume × Service Fs
  create_volume lower req s =
      if text_eq (trim_space req.name) []
      then (
        err invalid_argument (codes "volume name is required"),
        count (codes "CreateVolume") (codes "error") s,
      )
      else (let id = volume_id_of lower req.name in
          elim (lookup id s.volumes) [
            | some existing ↦ (ok existing, count (codes "CreateVolume") (codes "ok") s)
            | none ↦
                let vol : Volume = record {
                  volume_id = id;
                  capacity_bytes = capacity_of req.capacity_range;
                  volume_context = (codes "driver", plugin_name) ∷ [];
                } in
                (
                  ok vol,
                  count (codes "CreateVolume") (codes "ok")
                      (record s { volumes = insert id vol s.volumes }),
                )
          ])

  unfoldable pub delete_volume : Text → Service Fs → Result (Unit {0}) × Service Fs
  delete_volume id s = (
    ok tt,
    count (codes "DeleteVolume") (codes "ok") (record s { volumes = delete id s.volumes }),
  )

  unfoldable pub controller_publish_volume : Service Fs → Result (List (Text × Text)) × Service Fs
  controller_publish_volume s = (ok [], count (codes "ControllerPublishVolume") (codes "ok") s)

  unfoldable pub controller_unpublish_volume : Service Fs → Result (Unit {0}) × Service Fs
  controller_unpublish_volume s = (ok tt, count (codes "ControllerUnpublishVolume") (codes "ok") s)

  -- The capabilities that are asked for are confirmed as they are.
  unfoldable pub validate_volume_capabilities {ℓ} :
      {C : Type ℓ} → List C → Service Fs → Result (List C) × Service Fs
  validate_volume_capabilities [] s = (
    err invalid_argument (codes "volume capabilities are required"),
    count (codes "ValidateVolumeCapabilities") (codes "error") s,
  )
  validate_volume_capabilities (c ∷ cs) s =
      (ok (c ∷ cs), count (codes "ValidateVolumeCapabilities") (codes "ok") s)
