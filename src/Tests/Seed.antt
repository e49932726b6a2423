-- ===== src/Tests/Seed.antt =====
-- The seeding of the metrics at work, on a database and a disk in memory, with every call answered.
use kube_pfs.Base.{ℕ, ◌≡◌, refl, true, none, ◌++◌, done, arith}
use kube_pfs.Cmd.Rpc.{Wire, answered}
use kube_pfs.Cmd.Seed.{Round, MdsCall, OstCall, Pair, seed}
use kube_pfs.Cmd.Seed.Blocks.{seed-keeps_blocks}
use kube_pfs.Cmd.Seed.Clean.{seed-SameMaps}
use kube_pfs.Cmd.Seed.Completes.{seed-completes}
use kube_pfs.Mds.Create.{inode_id_at}
use kube_pfs.Mds.Namespace.Undone.{SameMaps}
use kube_pfs.Mds.Persist.{
  dirent_key, persist_create, persist_unlink, put_inode, create_tx, unlink_tx,
}
use kube_pfs.Mds.State.{children, set_child, delete_child}
use kube_pfs.Mds.Tree.Handlers.{HasTree}
use kube_pfs.Ost.Blocks.{read_request}
use kube_pfs.Ost.Handlers.{read_block}
use kube_pfs.Ost.Paths.{sanitize}
use kube_pfs.Text.Edit.{replace_char, replace_pair, trim_space}
use kube_pfs.Proto.Metadata.{Inode}
use kube_pfs.Status.{ok}
use kube_pfs.Table.{has, lookup, insert, delete, lookup-insert}
use kube_pfs.Tests.Codec.{marshal, encoding}
use kube_pfs.Tests.Instances.{tables, disk, Db}
use kube_pfs.Tests.Mds.{start, at, start-HasTree}
use kube_pfs.Tests.Ost as OstTests
use kube_pfs.Text.{Text, codes, text_eq}
use kube_pfs.Text.Decimal.{decimal}

abbrev wire : Wire
wire = record { status_text = λ c m. m; broken = codes "the connection is closed" }

abbrev mds_call : ℕ → MdsCall
mds_call n = record { way = answered; clock = at n }

abbrev ost_call : OstCall
ost_call = record { way = answered; elapsed = OstTests.elapsed }

-- The iterations read the same time, and no byte is drawn but 7.
abbrev rounds : ℕ → Round
rounds i = record {
  unix_nano = 100;
  extra = 3;
  draw = λ j. 7;
  creates = mds_call 5;
  looks_up = mds_call 6;
  stats = mds_call 6;
  lists = mds_call 6;
  writes = ost_call;
  reads = ost_call;
  deletes = ost_call;
  unlinks = mds_call 7;
}

abbrev both : Pair tables disk
both = record { mds = start; ost = OstTests.start }

-- Both buckets are there.
abbrev IsReady : Db → Type 0
IsReady d = (has (codes "inodes") d ≡ true) × (has (codes "dirents") d ≡ true)

has-set_child : (k p n v : Text) (d : Db) → has k d ≡ true → has k (set_child p n v d) ≡ true
unfolding set_child
has-set_child k p n v d h = ground (arith, h, lookup-insert k p (insert n v (children p d)) d)

has-delete_child : (k p n : Text) (d : Db) → has k d ≡ true → has k (delete_child p n d) ≡ true
unfolding delete_child
has-delete_child k p n d h = ground (arith, h, lookup-insert k p (delete n (children p d)) d)

saves :
    (i : Inode) (d : Db)
    → IsReady d
    → ((persist_create tables i d).0 ≡ none) × IsReady (persist_create tables i d).1
unfolding persist_create create_tx put_inode marshal
saves i d h =
    let one = set_child (codes "inodes") i.inode_id (encoding i) d in
    let two = set_child (codes "dirents") (dirent_key i.parent_inode_id i.name) i.inode_id one in
    let first : IsReady one = (has-set_child _ _ _ _ d h.0, has-set_child _ _ _ _ d h.1) in
    let all : persist_create tables i d ≡ (none, two) = ground (arith, h) in
    rw all (refl, (has-set_child _ _ _ _ one first.0, has-set_child _ _ _ _ one first.1))

keeps :
    (parent name id : Text) (d : Db)
    → IsReady d
    → IsReady (persist_unlink tables parent name id d).1
unfolding persist_unlink unlink_tx
keeps parent name id d h =
    let one = delete_child (codes "inodes") id d in
    let two = delete_child (codes "dirents") (dirent_key parent name) one in
    let first : IsReady one = (has-delete_child _ _ _ d h.0, has-delete_child _ _ _ d h.1) in
    let all : persist_unlink tables parent name id d ≡ (none, two) = ground (arith, h) in
    rw all (has-delete_child _ _ _ one first.0, has-delete_child _ _ _ one first.1)

-- The witnesses.
abbrev line : Text
line = codes "seeded metrics with " ++ (decimal 2 ++ codes " synthetic metadata/data operations\n")

fresh : (j : ℕ) → lookup (inode_id_at (rounds j).creates.clock) start.inodes ≡ none
unfolding lookup text_eq
fresh j = refl

seed-completes_example : (seed wire tables disk 2 none none rounds both).0 ≡ done line
unfolding lookup text_eq
seed-completes_example =
    seed-completes wire tables disk IsReady saves keeps (λ p f. refl) (λ p b f. refl) rounds
      (λ j. record { creates = refl; writes = refl; reads = refl; unlinks = refl }) 2 both
      (omega arith) start-HasTree fresh (λ j. refl) (omega arith) (refl, refl)

seed-SameMaps_example :
    SameMaps start (seed wire tables disk 2 none none rounds both).1.mds
    × HasTree (seed wire tables disk 2 none none rounds both).1.mds
seed-SameMaps_example =
    seed-SameMaps wire tables disk 2 none none rounds both line start-HasTree (λ j. refl) fresh
      seed-completes_example

-- A block of another file is there before.
abbrev beside : Pair tables disk
beside = record { mds = start; ost = OstTests.one_block }

seed-keeps_blocks_example :
    (read_block disk OstTests.elapsed
      (read_request (OstTests.chunk 0) 1 3)
      (seed wire tables disk 2 none none rounds beside).1.ost).0
    ≡ ok (record { payload = codes "ell" })
unfolding sanitize replace_pair replace_char trim_space decimal text_eq
seed-keeps_blocks_example =
    seed-keeps_blocks disk OstTests.elapsed (OstTests.chunk 0) 1 3
      (record { payload = codes "ell" }) wire tables rounds (λ j e. ground (arith, e)) 2 none none
      beside OstTests.read_there
