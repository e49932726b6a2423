-- ===== src/Tests/Demo.antt =====
-- The demo at work, and a metadata service that was started.
use kube_pfs.Base.{
  ℕ, ◌+◌, ◌*◌, ◌≡◌, ◌⊎◌, ◌≤◌, ◌++◌, length, refl, Bool, true, false, none, Option, List, [], ◌∷◌,
  Fallible, done, fail, arith, inr, All,
}
use kube_pfs.Cmd.Demo.{Server, answer, join_parts}
use kube_pfs.Cmd.Demo.Benchmarks.{Floats, Job, BenchSummary, entries, handle_latest_benchmark}
use kube_pfs.Cmd.Demo.Counted.{number_of, plus, watched, health_of, handle_status-counts}
use kube_pfs.Cmd.Demo.Injected.{event, after, inject-handle_faults}
use kube_pfs.Cmd.Demo.Latest.{IsLatest, handle_latest_benchmark-IsLatest}
use kube_pfs.Cmd.Demo.Logged.{IsEnded}
use kube_pfs.Cmd.Demo.Status.{RawPod, handle_status}
use kube_pfs.Cmd.Demo.Timeline.{handle_faults, read_events, events_in, scan_lines, lines}
use kube_pfs.Cmd.Faults.{World, append_event, event_of, timeline_path}
use kube_pfs.Cmd.Faults.Actions.{run_action, run_delete_pod}
use kube_pfs.Cmd.Flags.{parse, value_of, argument}
use kube_pfs.Cmd.Host.{Event}
use kube_pfs.Cmd.Servers.{mds_config}
use kube_pfs.Cmd.Servers.Targets.{IsId, join_csv}
use kube_pfs.FileSystem.{Contents, failed}
use kube_pfs.Table.{lookup, insert}
use kube_pfs.Tests.Codec.{encoding}
use kube_pfs.Tests.Mds.{start as started}
use kube_pfs.Mds.State.{Service as MdsService}
use kube_pfs.Mds.Load.{new_root}
use kube_pfs.Tests.Faults.{now}
use kube_pfs.Tests.Instances.{tables, Db, read_file, no_file}
use kube_pfs.Tests.Machine.{machine, codec, line_of, marshal, open_to_append, append_text}
use kube_pfs.Text.{Text, codes, text_eq}
use kube_pfs.Text.Edit.{trim_space}
use kube_pfs.Text.Path.{clean}
use kube_pfs.Text.Search.{split_two}

abbrev pub server : Server
server = record { repo_root = codes "."; prometheus_url = codes "http://127.0.0.1:9090" }

abbrev timeline : Text
timeline = codes "artifacts/faults/timeline.jsonl"

abbrev args : List Text
args = codes "--name" ∷ codes "pod-1" ∷ codes "--timeline" ∷ timeline ∷ []

abbrev idle : World machine
idle = record { fs = []; metrics = [] }

abbrev injected : Text
injected = codes "delete-pod"

inject-handle_faults_example :
    (older shown : List Event) × (handle_faults codec server
        (λ p. read_file p (after machine codec now injected args idle server))
      ≡ answer (shown ++ event machine codec now injected args idle server ∷ []))
    × (older ++ shown ≡ [])
    × (length shown ≤ 29)
    × ((older ≡ []) ⊎ (length shown ≡ 29))
unfolding timeline_path text_eq read_events scan_lines lines events_in run_action run_delete_pod
    parse argument split_two value_of trim_space event_of marshal append_event open_to_append
    append_text lookup insert read_file clean join_parts
inject-handle_faults_example =
    inject-handle_faults machine codec now injected args idle server []
      (line_of (event machine codec now injected args idle server)) [] refl (inr (tt, refl))
      IsEnded.empty refl refl (omega arith) refl refl

-- kubectl lists three pods.
abbrev raw_pod : Text → Text → Text → RawPod
raw_pod namespace name phase = record {
  namespace = namespace;
  name = name;
  phase = phase;
  conditions = record { kind = codes "Ready"; status = codes "True" } ∷ [];
}

abbrev pods : List RawPod
pods =
    raw_pod (codes "a") (codes "kube-pfs-grafana-0") (codes "Running")
    ∷ raw_pod (codes "b") (codes "kube-pfs-prometheus-0") (codes "Running")
    ∷ raw_pod (codes "a") (codes "mds-0") (codes "Pending")
    ∷ []

abbrev pub unmarshal_pods : Text → Fallible (List RawPod)
unmarshal_pods out = done pods

handle_status-counts_example :
    ((handle_status text_eq unmarshal_pods [] (done [])).connected ≡ true)
    × (lookup (codes "a") (handle_status text_eq unmarshal_pods [] (done [])).namespaces
        ≡ plus (number_of (λ pod. text_eq pod.namespace (codes "a")) pods) none)
    × (lookup (codes "a") (handle_status text_eq unmarshal_pods [] (done [])).phases
        ≡ plus (number_of (λ pod. text_eq pod.phase (codes "a")) pods) none)
    × ((handle_status text_eq unmarshal_pods [] (done [])).observability_health
        ≡ health_of (number_of (watched text_eq) pods))
handle_status-counts_example =
    handle_status-counts text_eq unmarshal_pods [] [] pods (codes "a") refl

-- Numbers in place of floats.
abbrev pub numbers : Floats
numbers = record { Float = ℕ; nought = 0; add = λ m n. m + n; per_mebi = λ n. n; round2 = λ n. n }

abbrev pub no_jobs : Text → Fallible (List (Job numbers))
no_jobs blob = fail (codes "unexpected end of JSON input")

abbrev pub missing_file : Text → Contents
missing_file p = failed no_file

abbrev pub nothing : Text → Bool
nothing p = false

abbrev pub runs : List (Text × Bool)
runs =
    (codes "run-1", true)
    ∷ (codes "run-3", true)
    ∷ (codes "notes", false)
    ∷ (codes "run-2", true)
    ∷ []

handle_latest_benchmark-IsLatest_example :
    (found : Option (BenchSummary numbers)) × (handle_latest_benchmark numbers no_jobs nothing
        missing_file [] server
        (λ p. entries runs)
      ≡ answer found)
    × IsLatest numbers no_jobs nothing missing_file [] server runs found
handle_latest_benchmark-IsLatest_example =
    handle_latest_benchmark-IsLatest numbers no_jobs nothing missing_file [] server
      (λ p. entries runs) runs refl

abbrev pub targets : List Text
targets = codes "ost-7" ∷ codes "ost-3" ∷ []

pub targets-IsId : All IsId targets
unfolding trim_space
targets-IsId = ground arith

-- The service on an empty database.
abbrev pub begun : MdsService Db
begun = record started {
  db =
      (
        codes "inodes",
        (codes "root", encoding (new_root tables 100 (mds_config [] (join_csv targets)))) ∷ [],
      )
      ∷ (codes "dirents", [])
      ∷ [];
  ost_ids = targets;
  stripe_sz = 1024 * 1024;
  inodes = (codes "root", new_root tables 100 (mds_config [] (join_csv targets))) ∷ [];
}
