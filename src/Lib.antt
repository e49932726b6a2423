-- ===== src/Lib.antt =====
-- kube-pfs: a small parallel file system for Kubernetes, in Go. This library models its services
-- and proves what makes them correct.
--
-- The parts. A metadata service (pkg/mds/service.go) keeps the tree of inodes in two maps, writes
-- each change to a bbolt database, loads both maps from it at its start, and gives each new file a
-- stripe layout over the storage targets. Each storage target runs a storage service
-- (pkg/ost/service.go) that keeps blocks as files below its data directory. A CSI plugin
-- (pkg/csi/service.go) keeps a table of volumes and prepares mount points on a node. All of them
-- count their operations with pkg/metrics/metrics.go, and their messages are those of
-- pkg/proto/gen. The programs under cmd start the services, and three more work around them:
-- seed-metrics calls the metadata and the storage service over gRPC, fault-injector disturbs pods
-- or block files and logs what it did to a timeline, and demo-ui answers the state of the cluster,
-- that timeline and the last benchmark run over HTTP.
--
-- The files.
--   Base and its children: library names passed on, Boolean tests on the native numbers, lists, and
--     `Fallible`, an answer or an error text.
--   Text and its children: Go strings as lists of codes, with the functions of `strings`, `sort`,
--     `path/filepath` and `fmt` that the services call: TrimSpace, ReplaceAll, Contains, SplitN,
--     Strings, Join, Clean, Dir and %d, each with the laws that the proofs use.
--   Table: a Go map as an association list.
--   Status: the answer of a handler: a message, a gRPC status, or a panic.
--   FileSystem: the calls of package `os` on the disk, a parameter with its documented laws.
--   Proto/Metadata, Proto/Storage: the message structs and getters of pkg/proto/gen/metadata.pb.go
--     and pkg/proto/gen/object_storage.pb.go. The field Data of a block is `payload`.
--   Metrics: pkg/metrics/metrics.go; the calls on the Prometheus client are kept as a list.
--   Mds: pkg/mds/service.go. Mds/State has Service and Config; Mds/Backend is bbolt and the protobuf
--     codec, a parameter with their documented laws; Mds/Stripe is nextStripeLayout; Mds/Persist is
--     putInode, persistCreate and persistUnlink; Mds/Create is Create and cloneInode; Mds/Query is
--     Lookup, Stat and ListDir; Mds/Unlink is Unlink; Mds/Load is NewService, loadOrInitRoot and Close.
--     Mds/Create/Effect and Mds/Unlink/Effect list the ways in which the two handlers end,
--     Mds/Tree has the invariant of the maps and the histories of requests, Mds/Namespace the view
--     of the maps as names, Mds/Recovery the database as a copy of the maps, and runs with restarts.
--     Mds/Recovery/Replayed has such a run as a client replays its answers.
--   Ost: pkg/ost/service.go. Ost/Paths is sanitize and blockPath, Ost/Handlers the rest;
--     Ost/Counters and Ost/History have runs of calls, and Ost/Overlap has a WriteBlock in its steps,
--     between which other calls take theirs. Each call of package os is one step there.
--   Csi: pkg/csi/service.go. Csi/State is Service, NewService, sanitizeName and the identity
--     handlers, Csi/Controller and Csi/Node the others; Csi/Asked says on
--     its own what a CreateVolume asks for, and Csi/History has runs of calls.
--   Cmd/Rpc: a call over gRPC, with a parameter for what becomes of it on the way.
--   Cmd/Flags: Parse of package flag. Cmd/Host: the disk and the commands of fault-injector and the
--     JSON of its events, parameters with their documented laws.
--   Cmd/Seed: cmd/seed-metrics/main.go. Cmd/Seed/Rounds is what an iteration does that goes on to
--     the next one.
--   Cmd/Faults: cmd/fault-injector/main.go. Cmd/Faults/Actions has what its three actions do.
--   Cmd/Demo: cmd/demo-ui/main.go. Cmd/Demo/Timeline is handleFaults, Cmd/Demo/Status is
--     handleStatus and parsePodItems, Cmd/Demo/Benchmarks is handleLatestBenchmark, Cmd/Demo/Query
--     is handlePromQuery, Cmd/Demo/Main is main, and Cmd/Demo/Routes its routes and withCORS.
--   Cmd/Program: a main function around its service: the flags, the start, and Serve.
--   Cmd/Servers: the start of the services in main of cmd/mds, cmd/ost, cmd/csi-controller and
--     cmd/csi-node; Cmd/Servers/Programs has the four main functions.
--   Tests: concrete parameters, and the theorems at concrete inputs.
--
-- How state is modelled. A handler is a function from the state and the request to the answer and
-- the new state. The handlers that use the maps of the metadata service or the volumes of the plugin
-- hold the lock to the end, so each is one step. What they read of the clock is an argument, and so
-- are the database, the disk and the lower case of a character. An absent request is `none`, read by
-- the getters as the code reads a nil pointer. Strings are lists of codes with no bound. The counters
-- wrap around at 2^64, and the stripe counter is read as a signed int.
--
-- Fuel. Only `decimal` uses fuel, one more than the number: each round divides by ten, so it is
-- enough. All other loops are structural.
--
-- Not modelled: the gRPC stubs and the protobuf runtime, which are generated; the gRPC and HTTP
-- servers, and what programs write to the log; the declarations of the metrics; file modes; the limit
-- of memory; reads of a file while it is being written. bbolt, encoding/json, float64,
-- strconv.ParseInt, net/url and net/http with its ServeMux are parameters.
pub mod Base
pub mod Text
pub mod Table
pub mod Status
pub mod Proto
pub mod Metrics
pub mod Mds
pub mod FileSystem
pub mod Ost
pub mod Csi
pub mod Cmd
mod Tests
