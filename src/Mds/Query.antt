-- ===== src/Mds/Query.antt =====
-- The handlers of pkg/mds/service.go that only read: `Lookup`, `Stat` and `ListDir`.

use kube_pfs.Base.{Option, none, some, List, [], ◌∷◌}
use kube_pfs.Mds.Backend.{Backend}
use kube_pfs.Mds.Create.{clone_inode}
use kube_pfs.Mds.State.{Service, Clock}
use kube_pfs.Metrics.{observe_mds_lock_contention}
use kube_pfs.Proto.Metadata.{
  Inode, LookupRequest, lookup_request_get, LookupResponse, StatRequest, stat_request_get,
  StatResponse, ListDirRequest, list_dir_request_get, ListDirResponse,
}
use kube_pfs.Status.{Result, ok, not_found, or_refuse, ◌>>=◌}
use kube_pfs.Table.{Table, lookup, keys}
use kube_pfs.Text.{Text, codes}
use kube_pfs.Text.Order.{sort_strings}

module _ {Db : Type 0} where
  -- The wait for the read lock is observed; nothing else of the state changes.
  abbrev pub observed : Clock → Service Db → Service Db
  observed clock s = record s { metrics = observe_mds_lock_contention clock.wait s.metrics }

module _ (backend : Backend) where
  open backend use {Db, clone}

  unfoldable pub lookup_entry : Option LookupRequest → Service Db → Result LookupResponse
  lookup_entry request s = do
    let req = lookup_request_get request
    entries ←
        or_refuse (lookup req.parent_inode_id s.dirents) not_found (codes "parent inode not found")
    id ← or_refuse (lookup req.name entries) not_found (codes "entry not found")
    ok (record { inode = clone_inode backend (lookup id s.inodes) })

  -- Lookup
  unfoldable pub look_up :
      Clock → Option LookupRequest → Service Db → Result LookupResponse × Service Db
  unfolding lookup_entry
  look_up clock request s = (lookup_entry request s, observed clock s)

  unfoldable pub stat_inode : Option StatRequest → Service Db → Result StatResponse
  stat_inode request s = do
    inode ←
        or_refuse (lookup (stat_request_get request).inode_id s.inodes) not_found
          (codes "inode not found")
    ok (record { inode = clone_inode backend (some inode) })

  -- Stat
  unfoldable pub stat : Clock → Option StatRequest → Service Db → Result StatResponse × Service Db
  unfolding stat_inode
  stat clock request s = (stat_inode request s, observed clock s)

  -- The loop over the sorted names: a name whose inode is missing is passed over.
  unfoldable pub collect_entries : List Text → Table Text → Table Inode → List Inode
  collect_entries [] entries inodes = []
  collect_entries (n ∷ names) entries inodes =
      let rest = collect_entries names entries inodes in
      elim (lookup n entries) [
        | none ↦ elim (lookup [] inodes) [ none ↦ rest | some i ↦ clone i ∷ rest ]
        | some id ↦ elim (lookup id inodes) [ none ↦ rest | some i ↦ clone i ∷ rest ]
      ]

  unfoldable pub list_entries : Option ListDirRequest → Service Db → Result ListDirResponse
  unfolding collect_entries
  list_entries request s = do
    entries ←
        or_refuse (lookup (list_dir_request_get request).inode_id s.dirents) not_found
          (codes "directory inode not found")
    ok (record { entries = collect_entries (sort_strings (keys entries)) entries s.inodes })

  -- ListDir
  unfoldable pub list_dir :
      Clock → Option ListDirRequest → Service Db → Result ListDirResponse × Service Db
  unfolding list_entries
  list_dir clock request s = (list_entries request s, observed clock s)
