-- ===== src/Mds/Recovery/Lives.antt =====
-- Runs of pkg/mds/service.go with restarts in them: NewService on the database that the service
-- before has left.
use kube_pfs.Base.{ℕ, ◌≡◌, ◌≢◌, ◌∙◌, refl, sym, ap, Option, none, done}
use kube_pfs.Mds.Backend.{Backend}
use kube_pfs.Mds.Create.{create, inode_id_at}
use kube_pfs.Mds.Load.{new_service}
use kube_pfs.Mds.Query.{look_up, stat, list_dir}
use kube_pfs.Mds.Recovery.{IsStored}
use kube_pfs.Mds.Recovery.Handlers.{create-IsStored, unlink-IsStored}
use kube_pfs.Mds.State.{Config, Service, Clock}
use kube_pfs.Mds.Tree.Handlers.{HasTree, create-HasTree, unlink-HasTree}
use kube_pfs.Mds.Unlink.{unlink}
use kube_pfs.Proto.Metadata.{
  CreateRequest, UnlinkRequest, LookupRequest, StatRequest, ListDirRequest,
}
use kube_pfs.Status.{err, internal}
use kube_pfs.Table.{lookup}
use kube_pfs.Text.{Text}
use kube_pfs.Mds.Recovery.Again.{restart-IsKept}

module _ (backend : Backend) where
  open backend use {Db}

  -- One request, or a restart that succeeds. A Create reads a time that no inode was made at.
  pub data Step (s : Service Db) : Service Db → Type 0 where
    creates :
        (clock : Clock) (request : Option CreateRequest)
        → lookup (inode_id_at clock) s.inodes ≡ none
        → ((m : Text) → (create backend clock request s).0 ≢ err internal m)
        → Step s (create backend clock request s).1
    unlinks :
        (clock : Clock) (request : Option UnlinkRequest)
        → ((m : Text) → (unlink backend clock request s).0 ≢ err internal m)
        → Step s (unlink backend clock request s).1
    looks_up :
        (clock : Clock) (request : Option LookupRequest)
        → Step s (look_up backend clock request s).1
    stats : (clock : Clock) (request : Option StatRequest) → Step s (stat backend clock request s).1
    lists :
        (clock : Clock) (request : Option ListDirRequest)
        → Step s (list_dir backend clock request s).1
    restarts :
        (now : ℕ) (config : Config) (t : Service Db)
        → new_service backend now config (done s.db) ≡ done t
        → Step s t

  pub data Life (s : Service Db) : Service Db → Type 0 where
    begins : Life s s
    goes_on : (t u : Service Db) → Life s t → Step t u → Life s u

  abbrev pub IsSound : Service Db → Type 0
  IsSound s = HasTree s × IsStored backend s

  watched-IsStored :
      (s t : Service Db)
      → t.inodes ≡ s.inodes
      → t.dirents ≡ s.dirents
      → t.db ≡ s.db
      → IsStored backend s
      → IsStored backend t
  watched-IsStored s t e f g stored = record {
    inode_copy = λ k. rw (e, g) (stored.inode_copy k);
    entry_copy = λ p n plain. rw (f, g) (stored.entry_copy p n plain);
    plain_id = λ k i h. stored.plain_id k i (sym (ap (lookup k) e) ∙ h);
  }

  pub Step-IsSound : (s t : Service Db) → Step s t → IsSound s → IsSound t
  unfolding look_up stat list_dir
  Step-IsSound s t (creates clock request fresh fine) (tree, stored) = (
    create-HasTree backend clock s tree request fresh,
    create-IsStored backend s tree stored clock request fresh fine,
  )
  Step-IsSound s t (unlinks clock request fine) (tree, stored) = (
    unlink-HasTree backend clock s tree request,
    unlink-IsStored backend s tree stored clock request fine,
  )
  Step-IsSound s t (looks_up clock request) (tree, stored) =
      (tree, watched-IsStored s _ refl refl refl stored)
  Step-IsSound s t (stats clock request) (tree, stored) =
      (tree, watched-IsStored s _ refl refl refl stored)
  Step-IsSound s t (lists clock request) (tree, stored) =
      (tree, watched-IsStored s _ refl refl refl stored)
  Step-IsSound s t (restarts now config _ h) (tree, stored) =
      restart-IsKept backend now config s tree stored t h

  -- Through every run of requests of all kinds with restarts of the service anywhere between them,
  -- the maps stay a tree and the database agrees with them, if both is so at the start, every
  -- restart succeeds, no Create or Unlink of the run answers an internal error, and no Create reads
  -- a time at which an inode that is still there was made.
  pub Life-IsSound :
      (s t : Service Db)
      → Life s t
      → HasTree s
      → IsStored backend s
      → HasTree t × IsStored backend t
  Life-IsSound s t begins tree stored = (tree, stored)
  Life-IsSound s t (goes_on u _ life last) tree stored =
      Step-IsSound u t last (Life-IsSound s u life tree stored)
