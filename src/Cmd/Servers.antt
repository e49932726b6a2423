-- ===== src/Cmd/Servers.antt =====
-- The start of the services in the main functions under cmd, from the values of the flags up to the
-- call of Serve.
pub mod Targets
pub mod Programs
pub mod Flagged
use kube_pfs.Base.{
  ℕ, ◌*◌, Bool, false, ◌==◌, Option, none, some, List, [], ◌∷◌, ◌++◌, map, Fallible, done, fail,
  drop, if◌then◌else◌,
}
use kube_pfs.Csi.State.{Service, new_service}
use kube_pfs.FileSystem.{FileSystem, error_text}
use kube_pfs.Mds.Backend.{Backend}
use kube_pfs.Mds.Load.{new_service as new_mds}
use kube_pfs.Mds.State.{Config}
use kube_pfs.Mds.State.{Service as MdsService}
use kube_pfs.Ost.Handlers.{new_service as new_ost}
use kube_pfs.Ost.Handlers.{Service as OstService}
use kube_pfs.Text.{Text, codes, text_eq}
use kube_pfs.Text.Edit.{trim_space}
use kube_pfs.Text.Path.{clean, dir}
use kube_pfs.Text.Search.{split_on, has_prefix}

-- The parts that are not empty.
unfoldable pub nonempty_parts : List Text → List Text
nonempty_parts [] = []
nonempty_parts (p ∷ ps) = let rest = nonempty_parts ps in if text_eq p [] then rest else p ∷ rest

unfoldable pub split_csv : Text → List Text
split_csv v = nonempty_parts (map trim_space (split_on b',' v))

-- The configuration that main of cmd/mds makes.
abbrev pub mds_config : Text → Text → Config
mds_config bolt_path ost_ids_raw = record {
  bolt_path = bolt_path;
  ost_ids = split_csv ost_ids_raw;
  default_mode = 0o644;
  default_stripe_sz = 1024 * 1024;
}

module _ (files : FileSystem) where
  open files use {Fs, mkdir_all, remove}

  -- main of cmd/mds: the service that is started and listens, or the text of log.Fatalf, given the
  -- time, bbolt.Open on the path, and net.Listen.
  unfoldable pub start_mds :
      (backend : Backend)
      → ℕ
      → Text
      → Text
      → (Fs → Fallible backend.Db × Fs)
      → Option Text
      → Fs
      → Fallible (MdsService backend.Db) × Fs
  start_mds backend now bolt_path ost_ids_raw open_db listen f =
      let (made, g) = mkdir_all (codes "./data") f in
      elim made [
        | some e ↦ (fail (codes "create data dir: " ++ error_text e), g)
        | none ↦
            let (opened, h) = open_db g in
            elim (new_mds backend now (mds_config bolt_path ost_ids_raw) opened) [
              | fail e ↦ (fail (codes "init mds service: " ++ e), h)
              | done s ↦ elim listen [
                | some e ↦ (fail (codes "listen mds: " ++ e), h)
                | none ↦ (done s, h)
              ]
            ]
      ]

  -- main of cmd/ost, given net.Listen.
  unfoldable pub start_ost : Text → Text → Option Text → Fs → Fallible (OstService Fs) × Fs
  start_ost ost_id data_dir listen f =
      let (made, g) = new_ost files ost_id data_dir f in
      elim made [
        | fail e ↦ (fail (codes "init ost service: " ++ e), g)
        | done s ↦ elim listen [
          | some e ↦ (fail (codes "listen ost: " ++ e), g)
          | none ↦ (done s, g)
        ]
      ]

  -- listenUnix of cmd/csi-controller and cmd/csi-node, given net.Listen on a path.
  unfoldable pub listen_unix : (Text → Fs → Option Text × Fs) → Text → Fs → Option Text × Fs
  listen_unix listen endpoint f =
      if has_prefix (codes "unix://") endpoint
      then (let path = clean (drop 7 endpoint) in
          let (_, g) = remove path f in
          let (made, h) = mkdir_all (dir path) g in
          elim made [ some e ↦ (some (error_text e), h) | none ↦ listen path h ])
      else (some (codes "endpoint must start with \"unix://\""), f)

  -- main of the two programs, with the name in the message and the id of the service.
  start_csi : Text → Text → (Text → Fs → Option Text × Fs) → Text → Fs → Fallible (Service Fs) × Fs
  start_csi name node_id listen endpoint f =
      let (e, g) = listen_unix listen endpoint f in
      elim e [
        | some m ↦ (fail (codes "listen " ++ (name ++ (codes ": " ++ m))), g)
        | none ↦ (done (new_service node_id g), g)
      ]

  unfoldable pub start_csi_controller :
      (Text → Fs → Option Text × Fs) → Text → Fs → Fallible (Service Fs) × Fs
  unfolding start_csi
  start_csi_controller = start_csi (codes "csi controller") (codes "controller")

  unfoldable pub start_csi_node :
      Text → (Text → Fs → Option Text × Fs) → Text → Fs → Fallible (Service Fs) × Fs
  unfolding start_csi
  start_csi_node node_id = start_csi (codes "csi node") node_id
