-- ===== src/Csi/Volumes.antt =====
-- The table of volumes of pkg/csi/service.go behind `CreateVolume`.
use kube_pfs.Base.{ℕ, ◌≡◌, ◌≢◌, ◌⊎◌, false, none, some, [], ◌∷◌, arith}
use kube_pfs.Csi.Controller.{create_volume, capacity_of, volume_id_of}
use kube_pfs.Csi.Messages.{Volume, CreateVolumeRequest}
use kube_pfs.Csi.State.{Service, plugin_name, count}
use kube_pfs.Status.{ok}
use kube_pfs.Table.{lookup, lookup-insert}
use kube_pfs.Text.{Text, codes, text_eq, text_eq_iff, text_eq_refl}
use kube_pfs.Text.Edit.{trim_space}

module _ {Fs : Type 0} (lower : ℕ → ℕ) (req : CreateVolumeRequest) (s : Service Fs) where
  abbrev id : Text
  id = volume_id_of lower req.name

  abbrev created : Service Fs
  created = (create_volume lower req s).1

  -- After CreateVolume of a name that is not blank, the volume of the name is there, it is the one
  -- that was answered, and it is the one from before if there was one, and else it has the id and
  -- the capacity of the request. No other volume changes.
  pub create_volume-lookup :
      (v : Volume)
      → (create_volume lower req s).0 ≡ ok v
      → (lookup id created.volumes ≡ some v)
        × ((lookup id s.volumes ≡ some v)
            ⊎ ((lookup id s.volumes ≡ none)
                × (v.volume_id ≡ id)
                × (v.capacity_bytes ≡ capacity_of req.capacity_range)))
        × ((k : Text) → k ≢ id → lookup k created.volumes ≡ lookup k s.volumes)
  unfolding create_volume
  create_volume-lookup v h =
      let fresh : Volume = record {
        volume_id = id;
        capacity_bytes = capacity_of req.capacity_range;
        volume_context = (codes "driver", plugin_name) ∷ [];
      } in
      (
        ground (arith, lookup-insert id id fresh s.volumes, text_eq_refl id),
        ground arith,
        λ k apart. ground (arith, lookup-insert k id fresh s.volumes, text_eq_iff id k),
      )

pub create_volume_there :
    {Fs : Type 0} (lower : ℕ → ℕ) (req : CreateVolumeRequest) (s : Service Fs) (v : Volume)
    → text_eq (trim_space req.name) [] ≡ false
    → lookup (volume_id_of lower req.name) s.volumes ≡ some v
    → create_volume lower req s ≡ (ok v, count (codes "CreateVolume") (codes "ok") s)
unfolding create_volume
create_volume_there lower req s v named there = ground arith
