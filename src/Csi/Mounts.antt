-- ===== src/Csi/Mounts.antt =====
-- What `NodePublishVolume` of pkg/csi/service.go leaves on the disk, and the operation that it
-- counts.
use kube_pfs.Base.{
  ◌≡◌, ◌≢◌, ◌⊎◌, inl, inr, Bool, Bool-cases, Option-cases, true, false, none, ◌||◌, [], ◌∷◌, ◌++◌,
  arith,
}
use kube_pfs.Csi.Messages.{NodePublishVolumeRequest}
use kube_pfs.Csi.Node.{node_publish_volume}
use kube_pfs.Csi.State.{Service}
use kube_pfs.FileSystem.{FileSystem, bytes, error_text}
use kube_pfs.Metrics.{csi_ops_total}
use kube_pfs.Status.{Result, ok, err, invalid_argument, internal}
use kube_pfs.Text.{Text, codes, text_eq}
use kube_pfs.Text.Path.{clean, slash}

-- The result label of an answer.
abbrev pub label {ℓ} : {A : Type ℓ} → Result A → Text
label (ok a) = codes "ok"
label _ = codes "error"

module _ (files : FileSystem) where
  open files use {Fs, mkdir_all, write_file, read_file, read-write_self}

  module _ (req : NodePublishVolumeRequest) (s : Service Fs) where
    abbrev pub answer : Result (Unit {0})
    answer = (node_publish_volume files req s).0

    abbrev pub after : Service Fs
    after = (node_publish_volume files req s).1

    -- The file ".kube-pfs-mounted" below the target, and what is written there.
    abbrev pub mounted_file : Text
    mounted_file = clean (req.target_path ++ slash ∷ codes ".kube-pfs-mounted")

    abbrev pub mounted_text : Text
    mounted_text = codes "staged-at=" ++ req.staging_target_path ++ codes "\n"

    abbrev pub some_missing : Bool
    some_missing = text_eq req.target_path [] || text_eq req.staging_target_path []

    -- NodePublishVolume counts one operation, with the result that it answers, and one of three is
    -- the case: a path is missing, it answers InvalidArgument, and the disk is as it was; both paths
    -- are there, it succeeds, and the file ".kube-pfs-mounted" in the target holds "staged-at=", the
    -- staging path and a line break; or both are there, it answers Internal, and the directory could
    -- not be made or the file could not be written in it.
    pub node_publish_volume-marker :
        (after.metrics ≡ s.metrics ++ csi_ops_total (codes "NodePublishVolume") (label answer) ∷ [])
        × (((some_missing ≡ true)
              × (answer ≡ err invalid_argument (codes "target and staging paths are required"))
              × (after.fs ≡ s.fs))
            ⊎ ((some_missing ≡ false)
                × (answer ≡ ok tt)
                × (read_file mounted_file after.fs ≡ bytes mounted_text))
            ⊎ ((some_missing ≡ false)
                × ((m : Text) × (answer ≡ err internal m))
                × (((mkdir_all req.target_path s.fs).0 ≢ none)
                    ⊎ ((write_file mounted_file mounted_text (mkdir_all req.target_path s.fs).1).0
                        ≢ none))))
    unfolding node_publish_volume
    node_publish_volume-marker =
        let f = (mkdir_all req.target_path s.fs).1 in
        elim (Bool-cases some_missing) [
          | inl e ↦ (ground arith, inl (e, ground (arith, e), ground (arith, e)))
          | inr e ↦ elim (Option-cases (mkdir_all req.target_path s.fs).0) [
            | inr (x, made) ↦ (
              ground arith,
              inr (
                  inr (
                    e,
                    (codes "create target path: " ++ error_text x, ground (arith, e, made)),
                    inl (λ h. ground (arith, made, h)),
                  )),
            )
            | inl made ↦ elim (Option-cases (write_file mounted_file mounted_text f).0) [
              | inr (x, put) ↦ (
                ground arith,
                inr (
                    inr (
                      e,
                      (codes "write mount marker: " ++ error_text x, ground (arith, e, made, put)),
                      inr (λ h. ground (arith, put, h)),
                    )),
              )
              | inl put ↦ (
                ground arith,
                inr (
                    inl (
                      e,
                      ground (arith, e, made, put),
                      ground (arith, e, made, put, read-write_self mounted_file mounted_text f put),
                    )),
              )
            ]
          ]
        ]
