-- ===== src/Tests/Replays.antt =====
-- The metadata service through restarts, on a database in memory, and on one that is soon full.
use kube_pfs.Base.{
  ◌≡◌, refl, some, List, [], ◌∷◌, done, fail, Fallible, arith, ltb, length, if◌then◌else◌, Bool,
}
use kube_pfs.Mds.Backend.{Backend}
use kube_pfs.Mds.Create.{create, check_create, link_inode, new_inode, finish_create}
use kube_pfs.Mds.Load.{new_service, load_tx, load_inodes, load_dirents, init_root}
use kube_pfs.Mds.Namespace.{at_name, resolve}
use kube_pfs.Mds.Namespace.Undone.{SameMaps}
use kube_pfs.Mds.Namespace.View.{Shows}
use kube_pfs.Mds.Persist.{put_inode, persist_create, create_tx}
use kube_pfs.Mds.Query.{look_up}
use kube_pfs.Mds.Recovery.{IsStored}
use kube_pfs.Mds.Recovery.Failed
use kube_pfs.Mds.Recovery.Failed.{Failing, new_service-Failing}
use kube_pfs.Mds.Recovery.Replayed.{
  Request, creates, unlinks, restarts, replay, serve, handle, look_up-replay,
}
use kube_pfs.Mds.Recovery.Succeeds.{new_service-succeeds}
use kube_pfs.Mds.State.{Service, bucket_inodes, ensure_dir, set_child, children}
use kube_pfs.Mds.Stripe.{next_stripe_layout, stripe_start, rotation}
use kube_pfs.Status.{err, internal}
use kube_pfs.Table.{lookup, insert, delete}
use kube_pfs.Tests.Codec.{marshal, unmarshal}
use kube_pfs.Tests.Histories.{begun}
use kube_pfs.Tests.Instances.{tables, Db, visible}
use kube_pfs.Tests.Mds.{config, at, make_dir, start-HasTree}
use kube_pfs.Tests.Recovery.{
  begun-IsStored, settled, settled-HasTree, settled-IsStored, settled_ok, again, started,
  remove_dir, dir_removed_again, fresh,
}
use kube_pfs.Text.{Text, codes, text_eq}
use kube_pfs.Text.Decimal.{decimal}
use kube_pfs.Text.Search.{contains, split_two}

new_service-succeeds_example :
    (t : Service Db) × (new_service tables 200 config (done settled.db) ≡ done t)
    × SameMaps settled t
new_service-succeeds_example =
    new_service-succeeds tables (λ b d. (ensure_dir b d, refl)) (λ d. (d, refl)) 200 config settled
      settled-HasTree settled-IsStored

abbrev history : List Request
history =
    creates (at 1) (some make_dir) ∷ restarts 200 config ∷ unlinks (at 3) (some remove_dir) ∷ []

look_up-replay_example :
    Shows
      (replay tables history begun (λ q m. resolve q m begun) (codes "root") (codes "data"))
      (look_up tables (at 5) (at_name (codes "root") (codes "data")) (serve tables history begun)).0
look_up-replay_example =
    look_up-replay tables history begun (at 5) (codes "root") (codes "data") start-HasTree
      begun-IsStored
      (
        (fresh, λ m e. cc (e, settled_ok)),
        ((again, started), (rw (started, handle) (λ m e. cc (e, dir_removed_again)), tt)),
      )

-- A commit fails as soon as there are two inodes.
abbrev is_full : Db → Bool
is_full d = ltb 1 (length (children bucket_inodes d))

abbrev commit_small : Db → Fallible Db
commit_small d = if is_full d then fail (codes "no space left on device") else done d

get-commit_small :
    (c j : Text) (d e : Db) → commit_small d ≡ done e → tables.get c j e ≡ tables.get c j d
get-commit_small c j d e h = ground (arith, h)

abbrev small : Backend
small = record tables { commit = commit_small; get-commit = get-commit_small }

begun-IsStored-small : IsStored small begun
begun-IsStored-small = record {
  inode_copy = begun-IsStored.inode_copy;
  entry_copy = begun-IsStored.entry_copy;
  plain_id = begun-IsStored.plain_id;
}

-- The directory is in the maps, and not in the database.
not_saved :
    (create small (at 1) (some make_dir) begun).0
    ≡ err internal (codes "persist create: no space left on device")
unfolding create check_create lookup text_eq contains next_stripe_layout stripe_start rotation
    finish_create link_inode persist_create create_tx put_inode marshal new_inode decimal ensure_dir
    set_child insert
not_saved = refl

abbrev failed : Service Db
failed = (create small (at 1) (some make_dir) begun).1

failing : Failing small begun failed
failing = Failed.creates (at 1) (some make_dir) (λ resp e. cc (e, not_saved))

abbrev restarted : Service Db
restarted = record begun { rr = 0; metrics = [] }

started_small : new_service small 200 config (done failed.db) ≡ done restarted
unfolding create check_create lookup text_eq contains next_stripe_layout stripe_start rotation
    finish_create link_inode persist_create create_tx put_inode marshal new_inode decimal ensure_dir
    set_child insert new_service load_tx load_inodes load_dirents init_root visible unmarshal
    split_two delete
started_small = refl

new_service-Failing_example : SameMaps begun restarted
new_service-Failing_example =
    new_service-Failing small begun failed restarted 200 config start-HasTree begun-IsStored-small
      failing started_small
