-- ===== src/Mds/Tree/Handlers.antt =====
-- The tree behind `Create` and `Unlink` of pkg/mds/service.go.
use kube_pfs.Base.{◌≡◌, refl, Option, none}
use kube_pfs.Mds.Backend.{Backend}
use kube_pfs.Mds.Create.{create, link_inode, new_inode, inode_id_at}
use kube_pfs.Mds.Create.Effect
use kube_pfs.Mds.Create.Effect.{Passes, staged, create-Effect}
use kube_pfs.Mds.Query.{observed}
use kube_pfs.Mds.State.{Service, Clock}
use kube_pfs.Mds.Tree.{IsTree, IsDirectory}
use kube_pfs.Mds.Tree.Cut.{unlink_inode-IsTree}
use kube_pfs.Mds.Tree.Link.{link_inode-IsTree}
use kube_pfs.Mds.Unlink.{unlink}
use kube_pfs.Mds.Unlink.Effect as UnlinkEffect
use kube_pfs.Mds.Unlink.Effect.{Target, cut, unlink-Effect}
use kube_pfs.Proto.Metadata.{
  Inode, StripeLayout, CreateRequest, create_request_get, UnlinkRequest, unlink_request_get,
}
use kube_pfs.Table.{lookup}
use kube_pfs.Text.{Text}

-- The maps of the state are a tree.
abbrev pub HasTree : {Db : Type 0} → Service Db → Type 0
HasTree s = IsTree s.inodes s.dirents

module _ (backend : Backend) (clock : Clock) (s : Service backend.Db) (tree : HasTree s) where
  module _ (req : CreateRequest) (parent : Inode) (layout : StripeLayout)
      (passes : Passes req s.inodes s.dirents parent)
      (fresh : lookup (inode_id_at clock) s.inodes ≡ none) where
    own : parent.inode_id ≡ req.parent_inode_id
    own = tree.own_id req.parent_inode_id parent passes.there

    parent-dir : IsDirectory (lookup parent.inode_id s.inodes)
    parent-dir = rw (own, passes.there) passes.dir

    linked-HasTree : HasTree (
        link_inode parent
          (new_inode clock req parent layout (staged backend clock s))
          (staged backend clock s))
    unfolding new_inode
    linked-HasTree =
        link_inode-IsTree parent (new_inode clock req parent layout (staged backend clock s))
          (staged backend clock s) tree parent-dir passes.free fresh refl

  create_kept :
      (request : Option CreateRequest)
      → lookup (inode_id_at clock) s.inodes ≡ none
      → {t : Service backend.Db}
      → Effect.Effect backend clock s
          (create_request_get request)
          (create backend clock request s).0
          t
      → HasTree t
  create_kept request fresh (Effect.refused c m _ _ e) = rw e tree
  create_kept request fresh (Effect.broke parent _ _ _ e) = rw e tree
  create_kept request fresh (Effect.unsaved parent inode layout m p i _ _ e) =
      rw (e, i) (linked-HasTree (create_request_get request) parent layout p fresh)
  create_kept request fresh (Effect.stored parent inode layout p _ i _ _ e) =
      rw (e, i) (linked-HasTree (create_request_get request) parent layout p fresh)

  -- Create keeps the tree on every branch, if the id made from the clock is not in use.
  pub create-HasTree :
      (request : Option CreateRequest)
      → lookup (inode_id_at clock) s.inodes ≡ none
      → HasTree (create backend clock request s).1
  create-HasTree request fresh = create_kept request fresh (create-Effect backend clock s request)

  cut-HasTree :
      (req : UnlinkRequest) (id : Text) (inode : Inode)
      → Target backend clock s req id inode
      → HasTree (cut backend clock s req inode)
  cut-HasTree req id inode t =
      let own = tree.own_id id inode t.there in
      unlink_inode-IsTree req.parent_inode_id req.name inode (observed clock s) tree
        (cc (own, t.entry)) (cc (own, t.there)) t.empty

  unlink_kept :
      (request : Option UnlinkRequest) {t : Service backend.Db}
      → UnlinkEffect.Effect backend clock s
          (unlink_request_get request)
          (unlink backend clock request s).0
          t
      → HasTree t
  unlink_kept request (UnlinkEffect.no_parent _ _ e) = rw e tree
  unlink_kept request (UnlinkEffect.no_entry _ _ e) = rw e tree
  unlink_kept request (UnlinkEffect.dangling _ _ _ _ e) = rw e tree
  unlink_kept request (UnlinkEffect.not_empty _ _ _ _ _ _ _ e) = rw e tree
  unlink_kept request (UnlinkEffect.unsaved id inode m t _ _ e) =
      rw e (cut-HasTree (unlink_request_get request) id inode t)
  unlink_kept request (UnlinkEffect.removed id inode t _ _ e) =
      rw e (cut-HasTree (unlink_request_get request) id inode t)

  -- Unlink keeps the tree on every branch.
  pub unlink-HasTree : (request : Option UnlinkRequest) → HasTree (unlink backend clock request s).1
  unlink-HasTree request = unlink_kept request (unlink-Effect backend clock s request)
