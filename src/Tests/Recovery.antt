-- ===== src/Tests/Recovery.antt =====
-- The metadata service at work with its database: a directory is made, the service is started
-- again, and the directory is removed.
use kube_pfs.Base.{none, ◌≡◌, refl, true, some, [], ◌∷◌, done, arith, inl, inr, Bool-cases}
use kube_pfs.Mds.Create.{create, inode_id_at, check_create, link_inode, new_inode, finish_create}
use kube_pfs.Mds.Load.{new_root, new_service, load_tx, load_inodes, load_dirents, init_root}
use kube_pfs.Mds.Persist.{put_inode, persist_create, create_tx, persist_unlink, unlink_tx}
use kube_pfs.Mds.Recovery.{IsStored}
use kube_pfs.Mds.Recovery.Handlers.{create-IsStored}
use kube_pfs.Mds.Recovery.Lives.{Life, begins, goes_on, creates, unlinks, restarts, Life-IsSound}
use kube_pfs.Mds.Recovery.Restart.{list_dir_lost}
use kube_pfs.Mds.State.{Service, child, ensure_dir, set_child, delete_child}
use kube_pfs.Mds.Stripe.{next_stripe_layout, stripe_start, rotation}
use kube_pfs.Mds.Tree.Handlers.{HasTree, create-HasTree}
use kube_pfs.Mds.Unlink.{unlink, unlink_inode, unlink_target, finish_unlink, answer}
use kube_pfs.Proto.Metadata.{Inode, UnlinkRequest}
use kube_pfs.Mds.Query.{list_dir}
use kube_pfs.Mds.Namespace.Listed.{at_dir}
use kube_pfs.Status.{not_found, err, ok}
use kube_pfs.Table.{lookup, insert, delete}
use kube_pfs.Tests.Codec.{marshal, unmarshal, unmarshal-marshal}
use kube_pfs.Tests.Histories.{begun}
use kube_pfs.Tests.Instances.{tables, Db, visible}
use kube_pfs.Tests.Mds.{config, at, make_dir, start-HasTree}
use kube_pfs.Text.{Text, codes, text_eq, text_eq_iff}
use kube_pfs.Text.Decimal.{decimal}
use kube_pfs.Text.Search.{contains, split_two}

pub begun-IsStored : IsStored tables begun
unfolding lookup text_eq contains marshal
begun-IsStored = record {
  inode_copy = λ k. elim (Bool-cases (text_eq (codes "root") k)) [
    | inl e ↦ rw e (unmarshal-marshal (new_root tables 100 config) _ refl)
    | inr e ↦ rw e tt
  ];
  entry_copy = λ p n plain. ground (arith);
  plain_id = λ k i h. ground (arith, text_eq_iff (codes "root") k);
}

abbrev pub settled : Service Db
settled = (create tables (at 1) (some make_dir) begun).1

pub settled-HasTree : HasTree settled
unfolding lookup text_eq
settled-HasTree = create-HasTree tables (at 1) begun start-HasTree (some make_dir) refl

abbrev made_dir : Inode
made_dir =
    new_inode (at 1) make_dir (new_root tables 100 config)
      (record { stripe_size_bytes = 0; ost_ids = [] }) begun

pub settled_ok :
    (create tables (at 1) (some make_dir) begun).0 ≡ ok (record { inode = some made_dir })
unfolding create check_create lookup text_eq contains next_stripe_layout stripe_start rotation
    finish_create link_inode persist_create create_tx put_inode marshal new_inode decimal ensure_dir
    set_child insert
settled_ok = refl

pub settled-IsStored : IsStored tables settled
unfolding lookup text_eq
settled-IsStored =
    create-IsStored tables begun start-HasTree begun-IsStored (at 1) (some make_dir) refl
      (λ m e. cc (e, settled_ok))

-- The service that is started on the database; the empty directory has no map in it.
abbrev pub again : Service Db
again = record settled {
  dirents = (codes "root", (codes "data", codes "inode-1") ∷ []) ∷ [];
  rr = 0;
  metrics = [];
}

pub started : new_service tables 200 config (done settled.db) ≡ done again
unfolding create check_create lookup text_eq contains next_stripe_layout stripe_start rotation
    finish_create link_inode persist_create create_tx put_inode marshal new_inode decimal ensure_dir
    set_child insert new_service load_tx load_inodes load_dirents init_root visible unmarshal
    split_two delete
started = refl

abbrev pub remove_dir : UnlinkRequest
remove_dir = record { parent_inode_id = codes "root"; name = codes "data" }

bare : (n : Text) → child (codes "inode-1") n settled.dirents ≡ none
unfolding create check_create lookup text_eq contains next_stripe_layout stripe_start rotation
    finish_create link_inode persist_create create_tx put_inode marshal new_inode decimal ensure_dir
    set_child insert
bare n = refl

list_dir_lost_example :
    (list_dir tables (at 5) (at_dir (codes "inode-1")) again).0
    ≡ err not_found (codes "directory inode not found")
unfolding contains
list_dir_lost_example =
    list_dir_lost tables 200 config settled settled-HasTree settled-IsStored again (at 5)
      (codes "inode-1") started refl (λ e. ground (arith, e)) bare

-- The directory is made, the service is started again, and the directory is removed.
pub dir_removed_again : (unlink tables (at 3) (some remove_dir) again).0 ≡ answer true
unfolding create check_create lookup text_eq contains next_stripe_layout stripe_start rotation
    finish_create link_inode persist_create create_tx put_inode marshal new_inode decimal ensure_dir
    set_child insert unlink unlink_target unlink_inode finish_unlink delete_child delete
    persist_unlink unlink_tx
dir_removed_again = refl

pub fresh : lookup (inode_id_at (at 1)) begun.inodes ≡ none
unfolding lookup text_eq
fresh = refl

life : Life tables begun (unlink tables (at 3) (some remove_dir) again).1
life =
    goes_on again _
      (goes_on settled again
        (goes_on begun settled begins
          (creates (at 1) (some make_dir) fresh (λ m e. cc (e, settled_ok))))
        (restarts 200 config again started))
      (unlinks (at 3) (some remove_dir) (λ m e. cc (e, dir_removed_again)))

Life-IsSound_example :
    HasTree (unlink tables (at 3) (some remove_dir) again).1
    × IsStored tables (unlink tables (at 3) (some remove_dir) again).1
Life-IsSound_example = Life-IsSound tables begun _ life start-HasTree begun-IsStored
