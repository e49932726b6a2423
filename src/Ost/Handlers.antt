-- ===== src/Ost/Handlers.antt =====
-- The state and the handlers of pkg/ost/service.go. A handler's `defer s.observe(…)` runs behind
-- everything else that it does, on every way out.
use kube_pfs.Base.{
  ℕ, ◌+◌, ◌%◌, ◌^◌, true, false, ◌&&◌, Option, none, some, [], ◌++◌, Fallible, done, fail, ltb,
  length, take, drop, if◌then◌else◌,
}
use kube_pfs.FileSystem.{FileSystem, missing, other, error_text, bytes, failed}
use kube_pfs.Metrics.{Metrics, inc_iops, observe_write_latency, add_read_throughput}
use kube_pfs.Ost.Paths.{block_path}
use kube_pfs.Proto.Storage.{
  BlockRef, WriteBlockRequest, write_block_request_get, WriteBlockResponse, ReadBlockRequest,
  read_block_request_get, ReadBlockResponse, DeleteBlockRequest, delete_block_request_get,
  DeleteBlockResponse, HealthResponse,
}
use kube_pfs.Status.{Result, ok, err, invalid_argument, not_found, internal}
use kube_pfs.Text.{Text, codes, text_eq}
use kube_pfs.Text.Path.{dir}

-- The counters are atomic uint64 values.
pub record Service (Fs : Type 0) : Type 0 where
  pub ost_id : Text
  pub data_dir : Text
  pub iops_total : ℕ
  pub bytes_total : ℕ
  pub latency_ns : ℕ
  pub metrics : Metrics
  pub fs : Fs

-- The nanoseconds since the start of a call, as `observe` reads the clock twice: for the
-- histogram of writes, and for the counter.
pub record Elapsed : Type 0 where
  pub timed : ℕ
  pub counted : ℕ

module _ {Fs : Type 0} where
  -- `observe`; `n` is a length.
  unfoldable pub observe : Text → ℕ → Elapsed → Service Fs → Service Fs
  observe op n elapsed s =
      let m = inc_iops (codes "ost") s.ost_id op s.metrics in
      record s {
        iops_total = (s.iops_total + 1) % 2 ^ 64;
        metrics =
            if text_eq op (codes "write")
            then observe_write_latency (codes "ost") s.ost_id elapsed.timed m
            else m;
        bytes_total = if ltb 0 n then (s.bytes_total + n) % 2 ^ 64 else s.bytes_total;
        latency_ns = (s.latency_ns + elapsed.counted) % 2 ^ 64;
      }

  unfoldable pub get_health : Service Fs → HealthResponse
  get_health s = record {
    ost_id = s.ost_id;
    healthy = true;
    iops_total = s.iops_total;
    throughput_bytes = s.bytes_total;
  }

-- blob[offset:], then blob[:length] if the length is positive and shorter
unfoldable pub window : ℕ → ℕ → Text → Text
window offset len blob =
    if ltb (length blob) offset
    then []
    else (let rest = drop offset blob in
        if ltb 0 len && ltb len (length rest) then take len rest else rest)

module _ (files : FileSystem) where
  open files use {Fs, mkdir_all, write_file, remove, read_file}

  -- NewService, on a new directory: an error, or the service.
  unfoldable pub new_service : Text → Text → Fs → Fallible (Service Fs) × Fs
  new_service ost_id data_dir f =
      if text_eq ost_id []
      then (fail (codes "ost id is required"), f)
      else if text_eq data_dir []
      then (fail (codes "data dir is required"), f)
      else (let (e, g) = mkdir_all data_dir f in
          elim e [
            | some x ↦ (fail (codes "create data dir: " ++ error_text x), g)
            | none ↦ (
              done (record {
                ost_id = ost_id;
                data_dir = data_dir;
                iops_total = 0;
                bytes_total = 0;
                latency_ns = 0;
                metrics = [];
                fs = g;
              }),
              g,
            )
          ])

  unfoldable pub write_path : Text → Text → Service Fs → Result WriteBlockResponse × Service Fs
  write_path path payload s =
      let (e, f) = mkdir_all (dir path) s.fs in
      elim e [
        | some x ↦
            (err internal (codes "mkdir block parent: " ++ error_text x), record s { fs = f })
        | none ↦
            let (e', g) = write_file path payload f in
            elim e' [
              | some x ↦ (err internal (codes "write block: " ++ error_text x), record s { fs = g })
              | none ↦ (ok (record { bytes_written = length payload }), record s { fs = g })
            ]
      ]

  unfoldable pub read_path : Text → ℕ → ℕ → Service Fs → Result ReadBlockResponse × Service Fs
  unfolding window
  read_path path offset len s = elim (read_file path s.fs) [
    | failed (missing m) ↦ (err not_found (codes "block not found"), s)
    | failed (other m) ↦ (err internal (codes "read block: " ++ m), s)
    | bytes blob ↦ (
      ok (record { payload = window offset len blob }),
      if ltb (length blob) offset then s else record s {
        metrics =
            add_read_throughput (codes "ost") s.ost_id (length (window offset len blob)) s.metrics;
      },
    )
  ]

  unfoldable pub delete_path : Text → Service Fs → Result DeleteBlockResponse × Service Fs
  delete_path path s =
      let (e, f) = remove path s.fs in
      elim e [
        | none ↦ (ok (record { deleted = true }), record s { fs = f })
        | some (missing m) ↦ (ok (record { deleted = false }), record s { fs = f })
        | some (other m) ↦ (err internal (codes "delete block: " ++ m), record s { fs = f })
      ]

  -- A handler without its deferred call: what it does with the block that the request names.
  abbrev pub on_block {ℓ} :
      {A : Type ℓ}
      → Option BlockRef
      → (Text → Service Fs → Result A × Service Fs)
      → Service Fs
      → Result A × Service Fs
  on_block none act s = (err invalid_argument (codes "block is required"), s)
  on_block (some ref) act s = act (block_path s.data_dir ref) s

  unfoldable pub write_block :
      Elapsed → Option WriteBlockRequest → Service Fs → Result WriteBlockResponse × Service Fs
  write_block elapsed request s =
      let req = write_block_request_get request in
      let (r, t) = on_block req.block (λ path. write_path path req.payload) s in
      (r, observe (codes "write") (length req.payload) elapsed t)

  unfoldable pub read_block :
      Elapsed → Option ReadBlockRequest → Service Fs → Result ReadBlockResponse × Service Fs
  read_block elapsed request s =
      let req = read_block_request_get request in
      let (r, t) = on_block req.block (λ path. read_path path req.offset req.length) s in
      (r, observe (codes "read") 0 elapsed t)

  unfoldable pub delete_block :
      Elapsed → Option DeleteBlockRequest → Service Fs → Result DeleteBlockResponse × Service Fs
  delete_block elapsed request s =
      let (r, t) = on_block (delete_block_request_get request).block delete_path s in
      (r, observe (codes "delete") 0 elapsed t)
