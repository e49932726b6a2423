-- ===== src/Cmd/Servers/Flagged.antt =====
-- What the flags of cmd/csi-node/main.go and cmd/mds/main.go make of the services that they start.
use kube_pfs.Base.{ℕ, ◌≡◌, Option, List, Fallible, done, arith, All, inl, inr, Fallible-cases}
use kube_pfs.Cmd.Flags.{Settings}
use kube_pfs.Cmd.Flags.Spelled.{spelled_out, IsDefined, parse-spelled_out}
use kube_pfs.Cmd.Program.{Program, served, flags_of, setting, metrics_server, run}
use kube_pfs.Cmd.Servers.Targets.{IsId, join_csv, or_default_targets, start_mds-ost_ids}
use kube_pfs.Mds.Backend.{Backend}
use kube_pfs.Mds.State.{Service as MdsService}
use kube_pfs.Cmd.Servers.Programs.{mds_program, main_mds}
use kube_pfs.Csi.State.{Service}
use kube_pfs.FileSystem.{FileSystem, IoError}
use kube_pfs.Metrics.{HttpServer}
use kube_pfs.Text.{Text, codes}
use kube_pfs.Text.Path.{clean, dir}

-- A program that comes to Serve has started its service and the server of the metrics from the
-- values of its flags, and what the start leaves of the disk is what the program leaves.
run-started {ℓ} :
    {A : Type ℓ} {Fs : Type 0} (program : Program) (start : (Text → Text) → Fs → Fallible A × Fs)
    (ending : (Text → Text) → Option Text) (e : Option Text) (settings : Settings)
    (server : Option HttpServer) (f : Fs) (s : A)
    → All (IsDefined (flags_of program)) settings
    → (run program start ending (spelled_out settings) f).0 ≡ served server s e
    → ((start (setting program settings) f).0 ≡ done s)
      × ((run program start ending (spelled_out settings) f).1
          ≡ (start (setting program settings) f).1)
      × (server ≡ metrics_server program settings)
unfolding run
run-started program start ending e settings server f s good h =
    let read = parse-spelled_out (flags_of program) settings good in
    elim (Fallible-cases (start (setting program settings) f).0) [
      | inr (m, k) ↦ absurd (ground (arith, read, k))
      | inl (t, k) ↦ (ground (arith, read, k), ground (arith, read, k), ground (arith, read, k))
    ]

module _ (files : FileSystem) where
  open files use {Fs, mkdir_all, remove}

  -- The path of a socket, and the files before it is bound: behind an os.Remove of the path, and with
  -- its directory made, if that did not fail.
  module _ (rest : Text) (f : Fs) where
    abbrev pub socket : Text
    socket = clean rest

    abbrev pub made_ready : Option IoError × Fs
    made_ready = mkdir_all (dir socket) (remove socket f).1

  -- If cmd/mds comes to Serve, on flags that are written "--name value" and that it defines, and the
  -- last value of the flag "ost-ids", or its default, is a list of targets with commas between them,
  -- each of them not empty, without a comma, and without space around it, then the service makes its
  -- layouts over these targets in this order, and over the three default targets if there is none.
  pub main_mds-ost_ids :
      (backend : Backend) (now : ℕ) (open_db : Text → Fs → Fallible backend.Db × Fs)
      (listen : Text → Option Text) (ending e : Option Text) (settings : Settings)
      (server : Option HttpServer) (ids : List Text) (f : Fs) (s : MdsService backend.Db)
      → All (IsDefined (flags_of mds_program)) settings
      → All IsId ids
      → setting mds_program settings (codes "ost-ids") ≡ join_csv ids
      → (main_mds files backend now open_db listen ending (spelled_out settings) f).0
        ≡ served server s e
      → s.ost_ids ≡ or_default_targets ids
  unfolding main_mds
  main_mds-ost_ids backend now open_db listen ending e settings server ids f s good plain same h =
      let (started, _, _) =
        run-started mds_program _ (λ flag. ending) e settings server f s good h in
      start_mds-ost_ids backend files now _ ids _ _ f s plain (rw same at started)
