-- ===== src/Cmd/Seed.antt =====
-- `main` of cmd/seed-metrics/main.go: a client that makes a file, writes, reads and deletes a block
-- of it, and removes the file.
pub mod Rounds
pub mod Clean
pub mod Completes
pub mod Blocks
use kube_pfs.Base.{
  ℕ, zero, suc, ◌+◌, ◌%◌, Bool, false, Option, none, some, [], ◌∷◌, ◌++◌, Fallible, done, fail,
  ◌==◌, if◌then◌else◌,
}
use kube_pfs.Cmd.Rpc.{Wire, Delivery, rpc}
use kube_pfs.FileSystem.{FileSystem}
use kube_pfs.Mds.Backend.{Backend}
use kube_pfs.Mds.Create.{create}
use kube_pfs.Mds.Query.{look_up, stat, list_dir}
use kube_pfs.Mds.State.{Clock}
use kube_pfs.Mds.State.{Service as MdsService}
use kube_pfs.Mds.Unlink.{unlink}
use kube_pfs.Ost.Handlers.{Elapsed, write_block, read_block, delete_block}
use kube_pfs.Ost.Handlers.{Service as OstService}
use kube_pfs.Proto.Metadata.{
  Inode, CreateRequest, LookupRequest, StatRequest, ListDirRequest, UnlinkRequest,
}
use kube_pfs.Proto.Storage.{BlockRef, WriteBlockRequest, ReadBlockRequest, DeleteBlockRequest}
use kube_pfs.Text.{Text, codes}
use kube_pfs.Text.Decimal.{decimal}

-- The two services that the client is connected to.
pub record World (Db Fs : Type 0) : Type 0 where
  pub mds : MdsService Db
  pub ost : OstService Fs

-- What happens around one call of the metadata service: its way, and the clock of the service.
pub record MdsCall : Type 0 where
  pub way : Delivery
  pub clock : Clock

pub record OstCall : Type 0 where
  pub way : Delivery
  pub elapsed : Elapsed

-- One iteration: the time in the name of the file, the answers of randSrc.Intn(8192) and, for each
-- byte, of randSrc.Intn(255), and the eight calls.
pub record Round : Type 0 where
  pub unix_nano : ℕ
  pub extra : ℕ
  pub draw : ℕ → ℕ
  pub creates : MdsCall
  pub looks_up : MdsCall
  pub stats : MdsCall
  pub lists : MdsCall
  pub writes : OstCall
  pub reads : OstCall
  pub deletes : OstCall
  pub unlinks : MdsCall

-- fmt.Sprintf("seed-%d-%d.bin", time.Now().UnixNano(), i)
unfoldable pub seed_name : ℕ → ℕ → Text
seed_name i unix_nano =
    codes "seed-" ++ (decimal unix_nano ++ (codes "-" ++ (decimal i ++ codes ".bin")))

-- payload[j] = byte(randSrc.Intn(255)), for the indices from `j` on that are left
drawn : (ℕ → ℕ) → ℕ → ℕ → Text
drawn draw j zero = []
drawn draw j (suc rest) = draw j % 256 ∷ drawn draw (j + 1) rest

unfoldable pub seed_payload : Round → Text
unfolding drawn
seed_payload round = drawn round.draw 0 (8192 + round.extra)

abbrev pub seed_block : Text → BlockRef
seed_block inode_id = record { file_id = inode_id; chunk_id = 0; ost_id = codes "ost-0" }

abbrev pub create_request : Text → CreateRequest
create_request name = record {
  parent_inode_id = codes "root";
  name = name;
  is_dir = false;
  mode = 0o644;
}

abbrev pub unlink_request : Text → UnlinkRequest
unlink_request name = record { parent_inode_id = codes "root"; name = name }

abbrev pub lookup_request : Text → LookupRequest
lookup_request name = record { parent_inode_id = codes "root"; name = name }

abbrev pub stat_request : Text → StatRequest
stat_request inode_id = record { inode_id = inode_id }

abbrev pub list_request : ListDirRequest
list_request = record { inode_id = codes "root" }

abbrev pub Pair : Backend → FileSystem → Type 0
Pair backend files = World backend.Db files.Fs

module _ (wire : Wire) (backend : Backend) (files : FileSystem) where
  -- The three reads whose answers are dropped.
  unfoldable pub look_around : Round → Text → Text → MdsService backend.Db → MdsService backend.Db
  look_around round name inode_id s =
      let s₁ =
        (rpc wire round.looks_up.way
          (look_up backend round.looks_up.clock (some (lookup_request name))) s).1 in
      let s₂ =
        (rpc wire round.stats.way (stat backend round.stats.clock (some (stat_request inode_id)))
          s₁).1 in
      (rpc wire round.lists.way (list_dir backend round.lists.clock (some list_request)) s₂).1

  -- The two calls at the end, whose answers are dropped.
  unfoldable pub clean_up : Round → Text → Text → Pair backend files → Pair backend files
  clean_up round name inode_id w =
      let gone : DeleteBlockRequest = record { block = some (seed_block inode_id) } in
      record {
        ost =
            (rpc wire round.deletes.way (delete_block files round.deletes.elapsed (some gone))
              w.ost).1;
        mds =
            (rpc wire round.unlinks.way
              (unlink backend round.unlinks.clock (some (unlink_request name))) w.mds).1;
      }

  -- The block is written and read; `none` goes on.
  unfoldable pub use_block :
      ℕ → Round → Text → OstService files.Fs → Option Text × OstService files.Fs
  use_block i round inode_id o =
      let put : WriteBlockRequest = record {
        block = some (seed_block inode_id);
        payload = seed_payload round;
      } in
      let (r, o₁) =
        rpc wire round.writes.way (write_block files round.writes.elapsed (some put)) o in
      elim r [
        | fail e ↦
            (some (codes "ost write failed at iteration " ++ (decimal i ++ (codes ": " ++ e))), o₁)
        | done _ ↦
            let get : ReadBlockRequest = record {
              block = some (seed_block inode_id);
              offset = 0;
              length = 0;
            } in
            let (r', o₂) =
              rpc wire round.reads.way (read_block files round.reads.elapsed (some get)) o₁ in
            elim r' [
              | fail e ↦ (
                some (codes "ost read failed at iteration " ++ (decimal i ++ (codes ": " ++ e))),
                o₂,
              )
              | done _ ↦ (none, o₂)
            ]
      ]

  -- The rest of the iteration, given the inode that Create answered.
  unfoldable pub use_file :
      ℕ → Round → Text → Inode → Pair backend files → Option Text × Pair backend files
  use_file i round name inode w =
      let s = look_around round name inode.inode_id w.mds in
      let (e, o) = use_block i round inode.inode_id w.ost in
      elim e [
        | some m ↦ (some m, record { mds = s; ost = o })
        | none ↦ (none, clean_up round name inode.inode_id (record { mds = s; ost = o }))
      ]

  -- One iteration: the message of log.Fatalf, which ends the program, or none.
  unfoldable pub seed_round : ℕ → Round → Pair backend files → Option Text × Pair backend files
  seed_round i round w =
      let name = seed_name i round.unix_nano in
      let (r, s) =
        rpc wire round.creates.way (create backend round.creates.clock (some (create_request name)))
          w.mds in
      let w₁ = record w { mds = s } in
      elim r [
        | fail e ↦
            (some (codes "mds create failed at iteration " ++ (decimal i ++ (codes ": " ++ e))), w₁)
        | done resp ↦ elim resp.inode [
          | none ↦ (some (codes "mds create returned nil inode at iteration " ++ decimal i), w₁)
          | some inode ↦ use_file i round name inode w₁
        ]
      ]

  -- The loop, from the iteration `i` on.
  unfoldable pub seed_rounds :
      ℕ → ℕ → (ℕ → Round) → Pair backend files → Option Text × Pair backend files
  seed_rounds zero i rounds w = (none, w)
  seed_rounds (suc left) i rounds w =
      let (e, w') = seed_round i (rounds i) w in
      elim e [ some m ↦ (some m, w') | none ↦ seed_rounds left (i + 1) rounds w' ]

  -- The program, for a flag -n that is not negative (a negative one ends it like zero), given what
  -- the two grpc.DialContext answered: the message of the log.Fatalf that ends it, or the line that
  -- it prints.
  unfoldable pub seed :
      ℕ
      → Option Text
      → Option Text
      → (ℕ → Round)
      → Pair backend files
      → Fallible Text × Pair backend files
  seed iterations dial_mds dial_ost rounds w =
      if iterations == 0 then (fail (codes "-n must be > 0"), w) else elim dial_mds [
        | some e ↦ (fail (codes "connect mds: " ++ e), w)
        | none ↦ elim dial_ost [
          | some e ↦ (fail (codes "connect ost: " ++ e), w)
          | none ↦
              let (e, w') = seed_rounds iterations 0 rounds w in
              elim e [
                | some m ↦ (fail m, w')
                | none ↦ (
                  done (
                      codes "seeded metrics with "
                      ++ (decimal iterations ++ codes " synthetic metadata/data operations\n")),
                  w',
                )
              ]
        ]
      ]
