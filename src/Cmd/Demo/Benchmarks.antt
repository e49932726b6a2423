-- ===== src/Cmd/Demo/Benchmarks.antt =====
-- `handleLatestBenchmark` of cmd/demo-ui/main.go. The arithmetic of float64 is a parameter.
use kube_pfs.Base.{Bool, Option, none, some, List, [], ◌∷◌, Fallible, done, fail, if◌then◌else◌}
use kube_pfs.Cmd.Demo.{Reply, answer, error_reply, Server, join_parts}
use kube_pfs.FileSystem.{Contents, IoError, bytes, failed, missing, other}
use kube_pfs.Text.{Text, codes, text_eq}
use kube_pfs.Text.Edit.{trim_space}
use kube_pfs.Text.Order.{sort_strings}
use kube_pfs.Text.Search.{split_on}

-- The operations on float64 that the handler uses: the number 0, the sum, the division by 1024 *
-- 1024, and the rounding by a print with "%.2f".
pub record Floats : Type 1 where
  pub Float : Type 0
  pub nought : Float
  pub add : Float → Float → Float
  pub per_mebi : Float → Float
  pub round2 : Float → Float

-- What os.ReadDir answers: names, each with IsDir().
pub data Listing : Type 0 where
  entries : List (Text × Bool) → Listing
  unlisted : IoError → Listing

-- candidates
unfoldable pub directories : List (Text × Bool) → List Text
directories [] = []
directories ((name, is_dir) ∷ ds) =
    let rest = directories ds in if is_dir then name ∷ rest else rest

-- xs[len(xs)-1], with what stands for it in an empty list
abbrev pub last_or : Text → List Text → Text
last_or d [] = d
last_or d (x ∷ xs) = last_or x xs

module _ (floats : Floats) where
  open floats use {Float, nought, add, per_mebi, round2}

  -- A job of the output of fio.
  pub record Job : Type 0 where
    pub read_bytes : Float
    pub read_iops : Float
    pub write_bytes : Float
    pub write_iops : Float

  -- The four results of `parseFioSummary`.
  pub record Fio : Type 0 where
    pub read_mbps : Float
    pub write_mbps : Float
    pub read_iops : Float
    pub write_iops : Float

  pub record BenchSummary : Type 0 where
    pub run_id : Text
    pub path : Text
    pub seq_read_mbps : Float
    pub seq_write_mbps : Float
    pub rand_read_iops : Float
    pub rand_write_iops : Float
    pub metadata_info : Text
    pub collected_at : Text
    pub has_fio_sequential : Bool
    pub has_fio_random : Bool

  unfoldable pub add_jobs : List Job → Fio → Fio
  add_jobs [] sum = sum
  add_jobs (job ∷ jobs) sum = add_jobs jobs (record {
    read_mbps = add sum.read_mbps (per_mebi job.read_bytes);
    write_mbps = add sum.write_mbps (per_mebi job.write_bytes);
    read_iops = add sum.read_iops job.read_iops;
    write_iops = add sum.write_iops job.write_iops;
  })

  abbrev pub rounded : Fio → Fio
  rounded sum = record {
    read_mbps = round2 sum.read_mbps;
    write_mbps = round2 sum.write_mbps;
    read_iops = round2 sum.read_iops;
    write_iops = round2 sum.write_iops;
  }

  abbrev pub no_fio : Fio
  no_fio = record {
    read_mbps = nought;
    write_mbps = nought;
    read_iops = nought;
    write_iops = nought;
  }

  module _ (unmarshal : Text → Fallible (List Job)) (exists : Text → Bool)
      (read_file : Text → Contents) where
    -- `parseFioSummary`, given json.Unmarshal.
    unfoldable pub parse_fio_summary : Text → Fallible Fio
    parse_fio_summary path = elim (read_file path) [
      | failed (missing m) ↦ fail m
      | failed (other m) ↦ fail m
      | bytes blob ↦ elim (unmarshal blob) [
        | fail e ↦ fail e
        | done jobs ↦ done (rounded (add_jobs jobs no_fio))
      ]
    ]

    -- The numbers of a file of fio, which are all zero when it is missing or not understood.
    unfoldable pub fio_of : Text → Fio
    fio_of file =
        if exists file
        then elim (parse_fio_summary file) [ fail e ↦ no_fio | done fio ↦ fio ]
        else no_fio

    unfoldable pub metadata_of : Contents → Text
    metadata_of (failed e) = codes "mdtest output not found"
    metadata_of (bytes blob) =
        let text = trim_space blob in
        if text_eq text [] then codes "mdtest output is empty" else last_or [] (split_on 10 text)

    -- `summarizeBenchmarkRun`, which answers no error.
    unfoldable pub summarize_benchmark_run : Text → BenchSummary
    summarize_benchmark_run run_path =
        let seq_file = join_parts (run_path ∷ codes "fio-seq.json" ∷ []) in
        let rand_file = join_parts (run_path ∷ codes "fio-rand.json" ∷ []) in
        let mdtest_file = join_parts (run_path ∷ codes "mdtest.txt" ∷ []) in
        record {
          run_id = [];
          path = [];
          seq_read_mbps = (fio_of seq_file).read_mbps;
          seq_write_mbps = (fio_of seq_file).write_mbps;
          rand_read_iops = (fio_of rand_file).read_iops;
          rand_write_iops = (fio_of rand_file).write_iops;
          metadata_info = metadata_of (read_file mdtest_file);
          collected_at = [];
          has_fio_sequential = exists seq_file;
          has_fio_random = exists rand_file;
        }

    abbrev pub bench_root : Server → Text
    bench_root server = join_parts (server.repo_root ∷ codes "artifacts" ∷ codes "bench" ∷ [])

    -- The summary of the run in the directory that sorts last.
    unfoldable pub latest_run : Text → Server → Text → List Text → BenchSummary
    latest_run now server c cs =
        let latest = last_or [] (sort_strings (c ∷ cs)) in
        let run_path = join_parts (bench_root server ∷ latest ∷ []) in
        record (summarize_benchmark_run run_path) {
          run_id = latest;
          path = run_path;
          collected_at = now;
        }

    abbrev pub latest_of : Text → Server → List Text → Option BenchSummary
    latest_of now server [] = none
    latest_of now server (c ∷ cs) = some (latest_run now server c cs)

    -- The handler, given os.ReadDir: `answer none` says that nothing is available.
    unfoldable pub handle_latest_benchmark :
        Text → Server → (Text → Listing) → Reply (Option BenchSummary)
    handle_latest_benchmark now server read_dir = elim (read_dir (bench_root server)) [
      | unlisted (missing m) ↦ answer none
      | unlisted (other m) ↦ error_reply 500 m
      | entries ds ↦ answer (latest_of now server (directories ds))
    ]
