-- ===== src/Csi/Node.antt =====
-- The handlers of the node in pkg/csi/service.go.
use kube_pfs.Base.{◌||◌, none, some, [], ◌∷◌, ◌++◌, if◌then◌else◌}
use kube_pfs.Csi.Messages.{NodeStageVolumeRequest, NodePublishVolumeRequest}
use kube_pfs.Csi.State.{Service, count}
use kube_pfs.FileSystem.{FileSystem, error_text}
use kube_pfs.Status.{Result, ok, err, invalid_argument, internal}
use kube_pfs.Text.{Text, codes, text_eq}
use kube_pfs.Text.Path.{clean, slash}

-- filepath.Join(target, ".kube-pfs-mounted"), for a target that is not empty
abbrev pub marker : Text → Text
marker target = clean (target ++ slash ∷ codes ".kube-pfs-mounted")

-- "staged-at=" + staging + "\n"
abbrev pub marker_text : Text → Text
marker_text staging = codes "staged-at=" ++ staging ++ codes "\n"

module _ (files : FileSystem) where
  open files use {Fs, mkdir_all, write_file, remove, remove_all}

  unfoldable pub node_stage_volume :
      NodeStageVolumeRequest → Service Fs → Result (Unit {0}) × Service Fs
  node_stage_volume req s =
      let op = codes "NodeStageVolume" in
      if text_eq req.staging_target_path []
      then (
        err invalid_argument (codes "staging target path is required"),
        count op (codes "error") s,
      )
      else (let (e, f) = mkdir_all req.staging_target_path s.fs in
          let t = record s { fs = f } in
          elim e [
            | some x ↦ (
              err internal (codes "create staging path: " ++ error_text x),
              count op (codes "error") t,
            )
            | none ↦ (ok tt, count op (codes "ok") t)
          ])

  -- The error of os.RemoveAll is dropped.
  unfoldable pub node_unstage_volume : Text → Service Fs → Result (Unit {0}) × Service Fs
  node_unstage_volume staging s = (
    ok tt,
    count (codes "NodeUnstageVolume") (codes "ok")
        (if text_eq staging [] then s else record s { fs = (remove_all staging s.fs).1 }),
  )

  unfoldable pub node_publish_volume :
      NodePublishVolumeRequest → Service Fs → Result (Unit {0}) × Service Fs
  node_publish_volume req s =
      let op = codes "NodePublishVolume" in
      if text_eq req.target_path [] || text_eq req.staging_target_path []
      then (
        err invalid_argument (codes "target and staging paths are required"),
        count op (codes "error") s,
      )
      else (let (e, f) = mkdir_all req.target_path s.fs in
          elim e [
            | some x ↦ (
              err internal (codes "create target path: " ++ error_text x),
              count op (codes "error") (record s { fs = f }),
            )
            | none ↦
                let (e', g) =
                  write_file (marker req.target_path) (marker_text req.staging_target_path) f in
                let t = record s { fs = g } in
                elim e' [
                  | some x ↦ (
                    err internal (codes "write mount marker: " ++ error_text x),
                    count op (codes "error") t,
                  )
                  | none ↦ (ok tt, count op (codes "ok") t)
                ]
          ])

  -- The errors of os.Remove and os.RemoveAll are dropped.
  unfoldable pub node_unpublish_volume : Text → Service Fs → Result (Unit {0}) × Service Fs
  node_unpublish_volume target s = (
    ok tt,
    count (codes "NodeUnpublishVolume") (codes "ok") (
        if text_eq target []
        then s
        else record s { fs = (remove_all target (remove (marker target) s.fs).1).1 }),
  )
