-- ===== src/Tests/Csi.antt =====
-- The plugin at work: volumes are made, deleted and published.
use kube_pfs.Base.{List, pos, ℕ, ◌≡◌, refl, ◌≢◌, ◌⊎◌, false, ◌^◌, true, none, some, [], ◌∷◌, ◌++◌}
use kube_pfs.Csi.Controller.{create_volume, capacity_of}
use kube_pfs.Csi.Asked.{asked_id}
use kube_pfs.Csi.History.{
  Call, creates, deletes, mounts, serve, requested, volume_of, capacity_or, create_volume-serve,
}
use kube_pfs.Csi.Messages.{Volume, CreateVolumeRequest, NodePublishVolumeRequest}
use kube_pfs.Csi.Mounts.{
  answer, some_missing, mounted_file, mounted_text, label, node_publish_volume-marker,
}
use kube_pfs.Csi.Names.{create_volume_collision}
use kube_pfs.Csi.Node.{node_publish_volume}
use kube_pfs.Csi.State.{Service, new_service, plugin_name, sanitize_name}
use kube_pfs.FileSystem.{bytes}
use kube_pfs.Metrics.{csi_ops_total}
use kube_pfs.Status.{ok, err, invalid_argument, internal}
use kube_pfs.Table.{lookup}
use kube_pfs.Tests.Instances.{disk, Files, read_file}
use kube_pfs.Text.{Text, codes, text_eq}
use kube_pfs.Text.Edit.{trim_space, to_lower, replace_char}

-- unicode.ToLower, on the letters of the names below
abbrev lower : ℕ → ℕ
lower c = c

abbrev start : Service Files
start = new_service (codes "node-1") []

abbrev ask : CreateVolumeRequest
ask = record { name = codes " pvc/1 "; capacity_range = some (pos 4096) }

abbrev ask_more : CreateVolumeRequest
ask_more = record { name = codes " pvc/1 "; capacity_range = some (pos 8192) }

abbrev vol : Volume
vol = record {
  volume_id = codes "kube-pfs-pvc-1";
  capacity_bytes = pos 4096;
  volume_context = (codes "driver", plugin_name) ∷ [];
}

abbrev with_volume : Service Files
with_volume = (create_volume lower ask start).1

made : (create_volume lower ask start).0 ≡ ok vol
unfolding create_volume text_eq trim_space lookup new_service sanitize_name capacity_of replace_char
    to_lower
made = refl

create_volume_collision_example :
    (create_volume lower
      (record { name = codes "a_b"; capacity_range = none })
      (create_volume lower (record { name = codes "a/b"; capacity_range = none }) start).1).0
    ≡ ok (record {
      volume_id = codes "kube-pfs-a-b";
      capacity_bytes = pos (2 ^ 30);
      volume_context = (codes "driver", plugin_name) ∷ [];
    })
unfolding create_volume text_eq trim_space lookup new_service sanitize_name capacity_of replace_char
    to_lower
create_volume_collision_example =
    create_volume_collision lower (record { name = codes "a/b"; capacity_range = none })
      (record { name = codes "a_b"; capacity_range = none }) start
      (record {
        volume_id = codes "kube-pfs-a-b";
        capacity_bytes = pos (2 ^ 30);
        volume_context = (codes "driver", plugin_name) ∷ [];
      })
      (codes "a") (codes "b") refl refl refl

abbrev publish : NodePublishVolumeRequest
publish = record { target_path = codes "/mnt/a"; staging_target_path = codes "/stage/a" }

abbrev published : Service Files
published = (node_publish_volume disk publish with_volume).1

node_publish_volume-marker_example :
    (published.metrics
      ≡ with_volume.metrics
        ++ csi_ops_total (codes "NodePublishVolume") (label (answer disk publish with_volume)) ∷ [])
    × (((some_missing disk publish with_volume ≡ true)
          × (answer disk publish with_volume
              ≡ err invalid_argument (codes "target and staging paths are required"))
          × (published.fs ≡ with_volume.fs))
        ⊎ ((some_missing disk publish with_volume ≡ false)
            × (answer disk publish with_volume ≡ ok tt)
            × (read_file (mounted_file disk publish with_volume) published.fs
                ≡ bytes (mounted_text disk publish with_volume)))
        ⊎ ((some_missing disk publish with_volume ≡ false)
            × ((m : Text) × (answer disk publish with_volume ≡ err internal m))
            × (((disk.mkdir_all publish.target_path with_volume.fs).0 ≢ none)
                ⊎ ((disk.write_file
                      (mounted_file disk publish with_volume)
                      (mounted_text disk publish with_volume)
                      (disk.mkdir_all publish.target_path with_volume.fs).1).0
                    ≢ none))))
node_publish_volume-marker_example = node_publish_volume-marker disk publish with_volume

abbrev calls : List (Call (Unit {0}))
calls =
    creates ask_more
    ∷ deletes (codes "kube-pfs-pvc-1")
    ∷ creates ask
    ∷ mounts publish
    ∷ creates ask_more
    ∷ []

create_volume-serve_example :
    (create_volume lower ask_more (serve lower disk calls start)).0
    ≡ ok (
        volume_of (asked_id lower ask_more.name) (
          capacity_or
            (requested lower (asked_id lower ask_more.name) none calls)
            ask_more.capacity_range))
unfolding text_eq trim_space
create_volume-serve_example = create_volume-serve lower disk (codes "node-1") [] calls ask_more refl
