-- ===== src/Mds/Unlink/Effect.antt =====
-- What `Unlink` does to the maps: nothing, or one cut. Later proofs use this, and not the code.
use kube_pfs.Base.{
  ◌≡◌, refl, true, false, ◌&&◌, Option, none, some, ◌++◌, arith, inl, inr, Option-cases, Bool-cases,
}
use kube_pfs.Mds.Backend.{Backend}
use kube_pfs.Mds.Persist.{persist_unlink}
use kube_pfs.Mds.Query.{observed}
use kube_pfs.Mds.State.{Service, Clock, children, child}
use kube_pfs.Mds.Unlink.{unlink_inode, unlink_target, finish_unlink, unlink, answer, is_nonempty}
use kube_pfs.Proto.Metadata.{Inode, UnlinkRequest, unlink_request_get, UnlinkResponse}
use kube_pfs.Status.{Result, err, not_found, failed_precondition, internal}
use kube_pfs.Table.{lookup}
use kube_pfs.Text.{Text, codes}

module _ (backend : Backend) (clock : Clock) (s : Service backend.Db) where
  abbrev pub cut : UnlinkRequest → Inode → Service backend.Db
  cut req inode = unlink_inode req.parent_inode_id req.name inode (observed clock s)

  -- The entry leads to an inode: under `id`, which has no entries of its own.
  pub record Target (req : UnlinkRequest) (id : Text) (inode : Inode) : Type 0 where
    pub entry : child req.parent_inode_id req.name s.dirents ≡ some id
    pub there : lookup id s.inodes ≡ some inode
    pub empty : (inode.is_dir && is_nonempty (children inode.inode_id s.dirents)) ≡ false

  -- The ways in which the handler ends.
  pub data Effect (req : UnlinkRequest) (r : Result UnlinkResponse) (t : Service backend.Db)
      : Type 0 where
    no_parent :
        lookup req.parent_inode_id s.dirents ≡ none
        → r ≡ err not_found (codes "parent inode not found")
        → t ≡ observed clock s
        → Effect req r t
    no_entry :
        child req.parent_inode_id req.name s.dirents ≡ none
        → r ≡ answer false
        → t ≡ observed clock s
        → Effect req r t
    dangling :
        (id : Text)
        → child req.parent_inode_id req.name s.dirents ≡ some id
        → lookup id s.inodes ≡ none
        → r ≡ answer false
        → t ≡ observed clock s
        → Effect req r t
    not_empty :
        (id : Text) (inode : Inode)
        → child req.parent_inode_id req.name s.dirents ≡ some id
        → lookup id s.inodes ≡ some inode
        → inode.is_dir ≡ true
        → is_nonempty (children inode.inode_id s.dirents) ≡ true
        → r ≡ err failed_precondition (codes "directory is not empty")
        → t ≡ observed clock s
        → Effect req r t
    unsaved :
        (id : Text) (inode : Inode) (m : Text)
        → Target req id inode
        → (persist_unlink backend req.parent_inode_id req.name inode.inode_id s.db).0 ≡ some m
        → r ≡ err internal (codes "persist unlink: " ++ m)
        → t ≡ record (cut req inode) {
          db = (persist_unlink backend req.parent_inode_id req.name inode.inode_id s.db).1;
        }
        → Effect req r t
    removed :
        (id : Text) (inode : Inode)
        → Target req id inode
        → (persist_unlink backend req.parent_inode_id req.name inode.inode_id s.db).0 ≡ none
        → r ≡ answer true
        → t ≡ record (cut req inode) {
          db = (persist_unlink backend req.parent_inode_id req.name inode.inode_id s.db).1;
        }
        → Effect req r t

  module _ (req : UnlinkRequest) (id : Text) (inode : Inode) (target : Target req id inode) where
    abbrev finished : Result UnlinkResponse × Service backend.Db
    finished = finish_unlink backend req.parent_inode_id req.name inode.inode_id (cut req inode)

    finish_unlink-Effect : Effect req finished.0 finished.1
    unfolding finish_unlink unlink_inode
    finish_unlink-Effect =
        elim (Option-cases
          (persist_unlink backend req.parent_inode_id req.name inode.inode_id s.db).0) [
            | inl saved ↦ removed id inode target saved (ground arith) (ground arith)
            | inr (m, failed) ↦ unsaved id inode m target failed (ground arith) (ground arith)
          ]

  abbrev reached : UnlinkRequest → Text → Result UnlinkResponse × Service backend.Db
  reached req id = unlink_target backend req (lookup id s.inodes) (observed clock s)

  unlink_target-Effect :
      (req : UnlinkRequest) (id : Text)
      → child req.parent_inode_id req.name s.dirents ≡ some id
      → Effect req (reached req id).0 (reached req id).1
  unfolding unlink_target
  unlink_target-Effect req id entry = elim (Option-cases (lookup id s.inodes)) [
    | inl e ↦ rw (e, unlink_target) (dangling id entry e refl refl)
    | inr (inode, e) ↦
        rw (e, unlink_target)
          (elim (Bool-cases (inode.is_dir && is_nonempty (children inode.inode_id s.dirents))) [
            | inl full ↦
                rw full (not_empty id inode entry e (ground arith) (ground arith) refl refl)
            | inr empty ↦ rw empty (
                finish_unlink-Effect req id inode
                  (record { entry = entry; there = e; empty = empty }))
          ])
  ]

  pub unlink-Effect :
      (request : Option UnlinkRequest)
      → Effect
          (unlink_request_get request)
          (unlink backend clock request s).0
          (unlink backend clock request s).1
  unfolding unlink
  unlink-Effect request =
      let req = unlink_request_get request in
      elim (Option-cases (lookup req.parent_inode_id s.dirents)) [
        | inl e ↦ rw (e, unlink) (no_parent e refl refl)
        | inr (entries, e) ↦ elim (Option-cases (lookup req.name entries)) [
          | inl e' ↦ rw (e, unlink) (rw e' (no_entry (ground arith) refl refl))
          | inr (id, e') ↦ rw (e, unlink) (rw e' (unlink_target-Effect req id (ground arith)))
        ]
      ]
