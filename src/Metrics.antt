-- ===== src/Metrics.antt =====
-- pkg/metrics/metrics.go. The Prometheus client is not modelled: what the package asks of it is
-- kept as the list of calls made, oldest first. Durations are nanoseconds.
use kube_pfs.Base.{ℕ, zero, suc, List, [], ◌∷◌, ◌++◌}
use kube_pfs.Text.{Text, codes}

-- One call on a metric, with its label values.
pub data Sample : Type 0 where
  write_latency : Text → Text → ℕ → Sample
  read_throughput : Text → Text → ℕ → Sample
  iops_total : Text → Text → Text → Sample
  mds_lock_contention : ℕ → Sample
  csi_ops_total : Text → Text → Sample
  fault_events_total : Text → Text → Sample
  fault_last_event_unix : ℕ → Sample

abbrev pub Metrics : Type 0
Metrics = List Sample

-- ObserveWriteLatency
abbrev pub observe_write_latency : Text → Text → ℕ → Metrics → Metrics
observe_write_latency component node d m = m ++ write_latency component node d ∷ []

-- AddReadThroughput; `bytes` is a length, so `bytes <= 0` says that it is zero.
abbrev pub add_read_throughput : Text → Text → ℕ → Metrics → Metrics
add_read_throughput component node zero m = m
add_read_throughput component node (suc b) m = m ++ read_throughput component node (suc b) ∷ []

-- IncIOPS
abbrev pub inc_iops : Text → Text → Text → Metrics → Metrics
inc_iops component node op m = m ++ iops_total component node op ∷ []

-- ObserveMDSLockContention
abbrev pub observe_mds_lock_contention : ℕ → Metrics → Metrics
observe_mds_lock_contention d m = m ++ mds_lock_contention d ∷ []

-- IncCSIOp
abbrev pub inc_csi_op : Text → Text → Metrics → Metrics
inc_csi_op operation result m = m ++ csi_ops_total operation result ∷ []

-- RecordFaultEvent
abbrev pub record_fault_event : Text → Text → ℕ → Metrics → Metrics
record_fault_event action status unix m =
    m ++ fault_events_total action status ∷ fault_last_event_unix unix ∷ []

-- An HTTP server that runs beside the program: its address, and the one pattern that it has a
-- handler for. The error with which it ends is dropped.
pub record HttpServer : Type 0 where
  pub addr : Text
  pub pattern : Text

-- StartServer
unfoldable pub start_server : Text → HttpServer
start_server listen_addr = record { addr = listen_addr; pattern = codes "/metrics" }
