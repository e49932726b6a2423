-- ===== src/Cmd/Servers/Programs.antt =====
-- The main functions of cmd/mds, cmd/ost, cmd/csi-controller and cmd/csi-node, from the arguments
-- to the end.
use kube_pfs.Base.{some, ℕ, Option, List, [], ◌∷◌, Fallible}
use kube_pfs.Cmd.Program.{Program, Outcome, run}
use kube_pfs.Cmd.Servers.{start_mds, start_ost, start_csi_controller, start_csi_node}
use kube_pfs.Csi.State.{Service}
use kube_pfs.FileSystem.{FileSystem}
use kube_pfs.Mds.Backend.{Backend}
use kube_pfs.Mds.State.{Service as MdsService}
use kube_pfs.Ost.Handlers.{Service as OstService}
use kube_pfs.Text.{Text, codes}

abbrev pub mds_program : Program
mds_program = record {
  name = codes "mds";
  flags =
      (codes "listen", codes ":50051")
      ∷ (codes "metrics-listen", codes ":9101")
      ∷ (codes "bolt-path", codes "./data/mds.db")
      ∷ (codes "ost-ids", codes "ost-0,ost-1,ost-2")
      ∷ [];
  metrics_flag = some (codes "metrics-listen");
}

abbrev pub ost_program : Program
ost_program = record {
  name = codes "ost";
  flags =
      (codes "listen", codes ":50061")
      ∷ (codes "metrics-listen", codes ":9102")
      ∷ (codes "ost-id", codes "ost-0")
      ∷ (codes "data-dir", codes "./data/ost")
      ∷ [];
  metrics_flag = some (codes "metrics-listen");
}

abbrev pub controller_program : Program
controller_program = record {
  name = codes "csi-controller";
  flags =
      (codes "endpoint", codes "unix:///tmp/kube-pfs-csi-controller.sock")
      ∷ (codes "metrics-listen", codes ":9103")
      ∷ [];
  metrics_flag = some (codes "metrics-listen");
}

abbrev pub node_program : Program
node_program = record {
  name = codes "csi-node";
  flags =
      (codes "endpoint", codes "unix:///tmp/kube-pfs-csi-node.sock")
      ∷ (codes "node-id", codes "kube-pfs-node")
      ∷ (codes "metrics-listen", codes ":9104")
      ∷ [];
  metrics_flag = some (codes "metrics-listen");
}

module _ (files : FileSystem) where
  open files use {Fs}

  -- main of cmd/mds, given bbolt.Open and net.Listen for "tcp".
  unfoldable pub main_mds :
      (backend : Backend)
      → ℕ
      → (Text → Fs → Fallible backend.Db × Fs)
      → (Text → Option Text)
      → Option Text
      → List Text
      → Fs
      → Outcome (MdsService backend.Db) × Fs
  main_mds backend now open_db listen ending =
      run mds_program
        (λ flag.
          start_mds files backend now (flag (codes "bolt-path")) (flag (codes "ost-ids"))
            (open_db (flag (codes "bolt-path"))) (listen (flag (codes "listen"))))
        (λ flag. ending)

  -- main of cmd/ost, given net.Listen for "tcp".
  unfoldable pub main_ost :
      (Text → Option Text) → Option Text → List Text → Fs → Outcome (OstService Fs) × Fs
  main_ost listen ending =
      run ost_program
        (λ flag.
          start_ost files (flag (codes "ost-id")) (flag (codes "data-dir"))
            (listen (flag (codes "listen"))))
        (λ flag. ending)

  -- main of cmd/csi-controller and of cmd/csi-node, given net.Listen for "unix".
  unfoldable pub main_csi_controller :
      (Text → Fs → Option Text × Fs) → Option Text → List Text → Fs → Outcome (Service Fs) × Fs
  main_csi_controller listen ending =
      run controller_program (λ flag. start_csi_controller files listen (flag (codes "endpoint")))
        (λ flag. ending)

  unfoldable pub main_csi_node :
      (Text → Fs → Option Text × Fs) → Option Text → List Text → Fs → Outcome (Service Fs) × Fs
  main_csi_node listen ending =
      run node_program
        (λ flag. start_csi_node files (flag (codes "node-id")) listen (flag (codes "endpoint")))
        (λ flag. ending)
