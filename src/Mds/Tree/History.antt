-- ===== src/Mds/Tree/History.antt =====
-- The tree through a history of requests.
use kube_pfs.Base.{◌≡◌, Option, none}
use kube_pfs.Mds.Backend.{Backend}
use kube_pfs.Mds.Create.{create, inode_id_at}
use kube_pfs.Mds.Query.{look_up, stat, list_dir}
use kube_pfs.Mds.State.{Service, Clock}
use kube_pfs.Mds.Tree.Handlers.{HasTree, create-HasTree, unlink-HasTree}
use kube_pfs.Mds.Unlink.{unlink}
use kube_pfs.Proto.Metadata.{
  CreateRequest, UnlinkRequest, LookupRequest, StatRequest, ListDirRequest,
}
use kube_pfs.Table.{lookup}

module _ (backend : Backend) where
  open backend use {Db}

  -- One request. A Create reads a time that no inode was made at.
  pub data Step (s : Service Db) : Service Db → Type 0 where
    creates :
        (clock : Clock) (request : Option CreateRequest)
        → lookup (inode_id_at clock) s.inodes ≡ none
        → Step s (create backend clock request s).1
    unlinks :
        (clock : Clock) (request : Option UnlinkRequest) → Step s (unlink backend clock request s).1
    looks_up :
        (clock : Clock) (request : Option LookupRequest)
        → Step s (look_up backend clock request s).1
    stats : (clock : Clock) (request : Option StatRequest) → Step s (stat backend clock request s).1
    lists :
        (clock : Clock) (request : Option ListDirRequest)
        → Step s (list_dir backend clock request s).1

  pub data Run (s : Service Db) : Service Db → Type 0 where
    idle : Run s s
    step : (t u : Service Db) → Run s t → Step t u → Run s u

  Step-HasTree : {s t : Service Db} → Step s t → HasTree s → HasTree t
  unfolding look_up stat list_dir
  Step-HasTree {s = s} (creates clock request fresh) tree =
      create-HasTree backend clock s tree request fresh
  Step-HasTree {s = s} (unlinks clock request) tree = unlink-HasTree backend clock s tree request
  Step-HasTree (looks_up clock request) tree = tree
  Step-HasTree (stats clock request) tree = tree
  Step-HasTree (lists clock request) tree = tree

  -- A run of requests of all kinds, however they are answered, keeps the tree, if no Create of it
  -- reads a time at which an inode that is still there was made.
  pub Run-HasTree : {s t : Service Db} → Run s t → HasTree s → HasTree t
  Run-HasTree idle tree = tree
  Run-HasTree (step t u run last) tree = Step-HasTree last (Run-HasTree run tree)
