-- ===== src/Tests/Mds.antt =====
-- The metadata service at work: a directory and a file in it are created, and the file is removed.
use mathlib.Core.List.{Perm}
use kube_pfs.Base.{
  inr, ℕ, ◌+◌, ◌-◌, ◌^◌, ◌%◌, ◌≤◌, ◌↔◌, length, ◌≡◌, ◌≢◌, refl, inl, true, false, none, some, [],
  ◌∷◌, arith,
}
use kube_pfs.Mds.Create.{
  create, inode_id_at, clone_inode, new_inode, link_inode, check_create, finish_create,
}
use kube_pfs.Mds.Load.{new_root}
use kube_pfs.Mds.Namespace.{at_name, at_id, resolve}
use kube_pfs.Mds.Namespace.Added.{create-look_up, create_unsaved-look_up, resolve-create_ne}
use kube_pfs.Mds.Namespace.Removed.{unlink-look_up, resolve-unlink_ne, unlink-full}
use kube_pfs.Mds.Persist.{persist_create, persist_unlink, put_inode, create_tx, unlink_tx}
use kube_pfs.Mds.Query.{look_up, stat, observed}
use kube_pfs.Mds.State.{Config, Service, Clock, child, ensure_dir, set_child, delete_child}
use kube_pfs.Mds.Stripe.{next_stripe_layout, stripe_start, rotation}
use kube_pfs.Mds.Stripe.Rotation.{turned, next_stripe_layout-rotates, next_stripe_layout-panics}
use kube_pfs.Mds.Tree.Handlers.{HasTree, create-HasTree, unlink-HasTree}
use kube_pfs.Mds.Unlink.{unlink, unlink_inode, unlink_target, finish_unlink, answer}
use kube_pfs.Proto.Metadata.{Inode, CreateRequest, UnlinkRequest}
use kube_pfs.Status.{ok, err, panic, internal, not_found, failed_precondition}
use kube_pfs.Table.{lookup, insert, delete}
use kube_pfs.Tests.Codec.{marshal}
use kube_pfs.Tests.Instances.{tables, Db}
use kube_pfs.Text.{Text, codes, text_eq, text_eq_iff}
use kube_pfs.Text.Decimal.{decimal}
use kube_pfs.Text.Search.{contains}

abbrev pub config : Config
config = record {
  bolt_path = codes "/var/lib/mds.db";
  ost_ids = codes "ost-0" ∷ codes "ost-1" ∷ [];
  default_mode = 0o755;
  default_stripe_sz = 4096;
}

abbrev pub start : Service Db
start = record {
  db = (codes "inodes", []) ∷ (codes "dirents", []) ∷ [];
  inodes = (codes "root", new_root tables 100 config) ∷ [];
  dirents = (codes "root", []) ∷ [];
  ost_ids = config.ost_ids;
  stripe_sz = 4096;
  rr = 0;
  metrics = [];
}

abbrev pub at : ℕ → Clock
at n = record { wait = 10; unix = 100; unix_nano = n }

child-start : (p n : Text) → child p n start.dirents ≡ none
unfolding lookup
child-start p n = ground arith

pub start-HasTree : HasTree start
unfolding lookup text_eq
start-HasTree = record {
  root_dir = refl;
  own_id = λ k i h. ground (arith, text_eq_iff (codes "root") k);
  under_dir = λ k m h. ground arith;
  linked = λ p n k h. absurd (ground (arith, child-start p n));
  placed = λ k i h apart. absurd (ground (arith, text_eq_iff (codes "root") k));
  root_unlinked = λ p n h. ground (arith, child-start p n);
}

-- The requests, and the states behind them.
abbrev pub make_dir : CreateRequest
make_dir = record { parent_inode_id = codes "root"; name = codes "data"; is_dir = true; mode = 0 }

abbrev pub make_file : CreateRequest
make_file = record {
  parent_inode_id = codes "inode-1";
  name = codes "log";
  is_dir = false;
  mode = 0;
}

abbrev pub with_dir : Service Db
with_dir = (create tables (at 1) (some make_dir) start).1

abbrev pub with_file : Service Db
with_file = (create tables (at 2) (some make_file) with_dir).1

abbrev pub remove_file : UnlinkRequest
remove_file = record { parent_inode_id = codes "inode-1"; name = codes "log" }

abbrev remove_dir : UnlinkRequest
remove_dir = record { parent_inode_id = codes "root"; name = codes "data" }

abbrev pub removed : Service Db
removed = (unlink tables (at 3) (some remove_file) with_file).1

abbrev made_dir : Inode
made_dir =
    new_inode (at 1) make_dir (new_root tables 100 config)
      (record { stripe_size_bytes = 0; ost_ids = [] }) start

with_dir-HasTree : HasTree with_dir
unfolding lookup text_eq
with_dir-HasTree = create-HasTree tables (at 1) start start-HasTree (some make_dir) refl

pub with_file-HasTree : HasTree with_file
unfolding create check_create lookup text_eq contains next_stripe_layout stripe_start rotation
    finish_create link_inode persist_create create_tx put_inode marshal new_inode decimal ensure_dir
    set_child insert
with_file-HasTree = create-HasTree tables (at 2) with_dir with_dir-HasTree (some make_file) refl

create-HasTree_example : HasTree with_dir
unfolding lookup text_eq
create-HasTree_example = create-HasTree tables (at 1) start start-HasTree (some make_dir) refl

unlink-HasTree_example : HasTree removed
unlink-HasTree_example = unlink-HasTree tables (at 3) with_file with_file-HasTree (some remove_file)

dir_made : (create tables (at 1) (some make_dir) start).0 ≡ ok (record { inode = some made_dir })
unfolding create check_create lookup text_eq contains next_stripe_layout stripe_start rotation
    finish_create link_inode persist_create create_tx put_inode marshal new_inode decimal ensure_dir
    set_child insert
dir_made = refl

file_removed : (unlink tables (at 3) (some remove_file) with_file).0 ≡ answer true
unfolding create check_create lookup text_eq contains next_stripe_layout stripe_start rotation
    finish_create link_inode persist_create create_tx put_inode marshal new_inode decimal ensure_dir
    set_child insert unlink unlink_target unlink_inode finish_unlink delete_child delete
    persist_unlink unlink_tx
file_removed = refl

create-look_up_example :
    ((look_up tables (at 5) (at_name (codes "root") (codes "data")) with_dir).0
      ≡ ok (record { inode = some made_dir }))
    × ((stat tables (at 5) (at_id (inode_id_at (at 1))) with_dir).0
        ≡ ok (record { inode = some made_dir }))
unfolding lookup text_eq
create-look_up_example =
    create-look_up tables (at 1) (some make_dir) start start-HasTree refl (at 5)
      (record { inode = some made_dir }) dir_made

-- Without its buckets, the database refuses the transaction.
abbrev unready : Service Db
unready = record start { db = [] }

not_saved :
    (create tables (at 1) (some make_dir) unready).0
    ≡ err internal (codes "persist create: metadata buckets are missing")
unfolding create check_create lookup text_eq contains next_stripe_layout stripe_start rotation
    finish_create link_inode persist_create create_tx put_inode marshal new_inode decimal ensure_dir
    set_child insert
not_saved = refl

create_unsaved-look_up_example :
    (i : Inode) × ((look_up tables
        (at 5)
        (at_name (codes "root") (codes "data"))
        (create tables (at 1) (some make_dir) unready).1).0
      ≡ ok (record { inode = clone_inode tables (some i) }))
unfolding lookup text_eq
create_unsaved-look_up_example =
    create_unsaved-look_up tables (at 1) (some make_dir) unready start-HasTree refl (at 5)
      (codes "persist create: metadata buckets are missing") not_saved

resolve-create_ne_example :
    resolve (codes "root") (codes "data") with_file ≡ resolve (codes "root") (codes "data") with_dir
unfolding create check_create lookup text_eq contains next_stripe_layout stripe_start rotation
    finish_create link_inode persist_create create_tx put_inode marshal new_inode decimal ensure_dir
    set_child insert
resolve-create_ne_example =
    resolve-create_ne tables (at 2) (some make_file) with_dir with_dir-HasTree refl (codes "root")
      (codes "data") (inr (λ e. ground (arith, e)))

unlink-look_up_example :
    (i : Inode) × (resolve (codes "inode-1") (codes "log") with_file ≡ some i)
    × ((m : Text) × ((look_up tables (at 5) (at_name (codes "inode-1") (codes "log")) removed).0
          ≡ err not_found m))
    × ((m : Text) × ((stat tables (at 5) (at_id i.inode_id) removed).0 ≡ err not_found m))
unlink-look_up_example =
    unlink-look_up tables (at 3) (some remove_file) with_file with_file-HasTree (at 5) file_removed

resolve-unlink_ne_example :
    resolve (codes "root") (codes "data") removed ≡ resolve (codes "root") (codes "data") with_file
resolve-unlink_ne_example =
    resolve-unlink_ne tables (at 3) (some remove_file) with_file with_file-HasTree (codes "root")
      (codes "data") (inl (λ e. ground (arith, e)))

unlink-full_example :
    ((unlink tables (at 3) (some remove_dir) with_file).0
      ≡ err failed_precondition (codes "directory is not empty"))
    × ((unlink tables (at 3) (some remove_dir) with_file).1 ≡ observed (at 3) with_file)
unfolding create check_create lookup text_eq contains next_stripe_layout stripe_start rotation
    finish_create link_inode persist_create create_tx put_inode marshal new_inode decimal ensure_dir
    set_child insert
unlink-full_example =
    unlink-full tables (at 3) (some remove_dir) with_file with_file-HasTree (codes "inode-1")
      (codes "log") (codes "inode-2") refl refl

next_stripe_layout-rotates_example :
    (next_stripe_layout with_dir
      ≡ (ok (record { stripe_size_bytes = 4096; ost_ids = turned with_dir }), with_dir.rr + 1))
    × Perm (turned with_dir) with_dir.ost_ids
unfolding create check_create lookup text_eq contains next_stripe_layout stripe_start rotation
    finish_create link_inode persist_create create_tx put_inode marshal new_inode decimal ensure_dir
    set_child insert
next_stripe_layout-rotates_example = next_stripe_layout-rotates with_dir (omega arith) (omega arith)

-- Three targets, and a counter that has reached 2^63.
abbrev worn : Service Db
worn = record start { ost_ids = codes "a" ∷ codes "b" ∷ codes "c" ∷ []; rr = 2 ^ 63 }

next_stripe_layout-panics_example :
    ((next_stripe_layout worn).0 ≡ panic)
    ↔ ((2 ^ 63 ≤ worn.rr) × ((2 ^ 64 - worn.rr) % length worn.ost_ids ≢ 0))
next_stripe_layout-panics_example = next_stripe_layout-panics worn (omega arith) (omega arith)
