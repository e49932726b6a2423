-- ===== src/Mds/Unlink.antt =====
-- `Unlink` of pkg/mds/service.go.
pub mod Effect
use kube_pfs.Base.{Bool, true, false, ◌&&◌, Option, none, some, [], ◌∷◌, ◌++◌, if◌then◌else◌}
use kube_pfs.Mds.Backend.{Backend}
use kube_pfs.Mds.Persist.{persist_unlink}
use kube_pfs.Mds.Query.{observed}
use kube_pfs.Mds.State.{Service, Clock, children, delete_child}
use kube_pfs.Proto.Metadata.{Inode, UnlinkRequest, unlink_request_get, UnlinkResponse}
use kube_pfs.Status.{Result, ok, err, not_found, failed_precondition, internal}
use kube_pfs.Table.{Table, lookup, delete}
use kube_pfs.Text.{Text, codes}

-- len(m) > 0
abbrev pub is_nonempty {ℓ} : {V : Type ℓ} → Table V → Bool
is_nonempty [] = false
is_nonempty (_ ∷ _) = true

module _ {Db : Type 0} where
  -- The three deletes, in the order of the code.
  unfoldable pub unlink_inode : Text → Text → Inode → Service Db → Service Db
  unlink_inode parent name inode s = record s {
    dirents = delete inode.inode_id (delete_child parent name s.dirents);
    inodes = delete inode.inode_id s.inodes;
  }

abbrev pub answer : Bool → Result UnlinkResponse
answer b = ok (record { deleted = b })

module _ (backend : Backend) where
  open backend use {Db}

  unfoldable pub finish_unlink :
      Text → Text → Text → Service Db → Result UnlinkResponse × Service Db
  finish_unlink parent name id s =
      let (e, d) = persist_unlink backend parent name id s.db in
      elim e [
        | some m ↦ (err internal (codes "persist unlink: " ++ m), record s { db = d })
        | none ↦ (answer true, record s { db = d })
      ]

  -- What happens to the inode that the entry leads to; `none` is a nil pointer.
  unfoldable pub unlink_target :
      UnlinkRequest → Option Inode → Service Db → Result UnlinkResponse × Service Db
  unlink_target req none s = (answer false, s)
  unlink_target req (some inode) s =
      if inode.is_dir && is_nonempty (children inode.inode_id s.dirents)
      then (err failed_precondition (codes "directory is not empty"), s)
      else finish_unlink req.parent_inode_id req.name inode.inode_id
          (unlink_inode req.parent_inode_id req.name inode s)

  unfoldable pub unlink :
      Clock → Option UnlinkRequest → Service Db → Result UnlinkResponse × Service Db
  unlink clock request s =
      let req = unlink_request_get request in
      let s₀ = observed clock s in
      elim (lookup req.parent_inode_id s₀.dirents) [
        | none ↦ (err not_found (codes "parent inode not found"), s₀)
        | some entries ↦ elim (lookup req.name entries) [
          | none ↦ (answer false, s₀)
          | some id ↦ unlink_target req (lookup id s₀.inodes) s₀
        ]
      ]
