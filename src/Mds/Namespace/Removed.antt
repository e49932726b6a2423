-- ===== src/Mds/Namespace/Removed.antt =====
-- `Unlink` of pkg/mds/service.go, as a later `Lookup` or `Stat` shows it.
use kube_pfs.Base.{
  ◌≡◌, ◌≢◌, refl, ◌⊎◌, true, ◌&&◌, Option, none, some, [], ◌∷◌, arith, inl, inr, Option-cases,
}
use kube_pfs.Mds.Backend.{Backend}
use kube_pfs.Mds.Namespace.{at_name, at_id, resolve, look_up_missing, stat_missing}
use kube_pfs.Mds.Query.{look_up, stat, observed}
use kube_pfs.Mds.State.{Service, Clock, child, children}
use kube_pfs.Mds.Tree.{IsDirectory}
use kube_pfs.Mds.Tree.Cut.{child-unlink_inode, lookup-unlink_inode, no_children}
use kube_pfs.Mds.Tree.Handlers.{HasTree}
use kube_pfs.Mds.Unlink.{unlink, answer, is_nonempty}
use kube_pfs.Mds.Unlink.Effect as UnlinkEffect
use kube_pfs.Mds.Unlink.Effect.{Target, cut, unlink-Effect}
use kube_pfs.Proto.Metadata.{Inode, UnlinkRequest, unlink_request_get, UnlinkResponse}
use kube_pfs.Status.{Result, err, not_found, failed_precondition}
use kube_pfs.Table.{Table, lookup}
use kube_pfs.Text.{Text, codes, text_eq_iff, text_eq_refl}

-- A map that holds a key is not empty.
is_nonempty-lookup : (n k : Text) (m : Table Text) → lookup n m ≡ some k → is_nonempty m ≡ true
unfolding lookup
is_nonempty-lookup n k [] h = cc
is_nonempty-lookup n k (e ∷ m) h = refl

module _ (backend : Backend) (clock : Clock) (request : Option UnlinkRequest)
    (s : Service backend.Db) (tree : HasTree s) where
  abbrev req : UnlinkRequest
  req = unlink_request_get request

  abbrev after : Service backend.Db
  after = (unlink backend clock request s).1

  module _ (id : Text) (inode : Inode) (target : Target backend clock s req id inode) where
    abbrev gone : Service backend.Db
    gone = cut backend clock s req inode

    own : inode.inode_id ≡ id
    own = tree.own_id id inode target.there

    pub child-gone : child req.parent_inode_id req.name gone.dirents ≡ none
    child-gone = ground (
      arith,
      child-unlink_inode req.parent_inode_id req.name inode (observed clock s) req.parent_inode_id
          req.name,
      text_eq_refl req.parent_inode_id,
      text_eq_refl req.name,
    )

    lookup-gone : lookup inode.inode_id gone.inodes ≡ none
    lookup-gone = ground (
      arith,
      lookup-unlink_inode req.parent_inode_id req.name inode (observed clock s) inode.inode_id,
      text_eq_refl inode.inode_id,
    )

    resolve-gone_ne :
        (p n : Text) → (p ≢ req.parent_inode_id) ⊎ (n ≢ req.name) → resolve p n gone ≡ resolve p n s
    resolve-gone_ne p n other = elim (Option-cases (child p n s.dirents)) [
      | inl e ↦
          ground
            (arith, child-unlink_inode req.parent_inode_id req.name inode (observed clock s) p n)
      | inr (k, e) ↦ ground (
        arith,
        child-unlink_inode req.parent_inode_id req.name inode (observed clock s) p n,
        lookup-unlink_inode req.parent_inode_id req.name inode (observed clock s) k,
        own,
        tree.linked p n k e,
        tree.linked req.parent_inode_id req.name id target.entry,
        no_children req.parent_inode_id req.name inode s tree (cc (own, target.entry))
            (cc (own, target.there)) target.empty n,
        text_eq_iff inode.inode_id p,
        text_eq_iff inode.inode_id k,
        text_eq_iff req.parent_inode_id p,
        text_eq_iff req.name n,
      )
    ]

  removed :
      (later : Clock) {r : Result UnlinkResponse} {t : Service backend.Db}
      → r ≡ answer true
      → UnlinkEffect.Effect backend clock s req r t
      → (i : Inode) × (resolve req.parent_inode_id req.name s ≡ some i)
        × ((m : Text) × ((look_up backend later (at_name req.parent_inode_id req.name) t).0
              ≡ err not_found m))
        × ((m : Text) × ((stat backend later (at_id i.inode_id) t).0 ≡ err not_found m))
  removed later h (UnlinkEffect.no_parent _ e _) = absurd (cc (h, e))
  removed later h (UnlinkEffect.no_entry _ e _) = absurd (cc (h, e))
  removed later h (UnlinkEffect.dangling _ _ _ e _) = absurd (cc (h, e))
  removed later h (UnlinkEffect.not_empty _ _ _ _ _ _ e _) = absurd (cc (h, e))
  removed later h (UnlinkEffect.unsaved _ _ _ _ _ e _) = absurd (cc (h, e))
  removed later {t = t} h (UnlinkEffect.removed id inode target _ _ e) = (
    inode,
    ground (arith, target.entry, target.there),
    look_up_missing backend t req.parent_inode_id req.name later
        (rw e (child-gone id inode target)),
    (
      codes "inode not found",
      stat_missing backend t inode.inode_id later (rw e (lookup-gone id inode target)),
    ),
  )

  -- After an Unlink that answers `deleted`, the name led to an inode before, Lookup of the name is
  -- not found, and so is Stat of the inode. The maps are a tree.
  pub unlink-look_up :
      (later : Clock)
      → (unlink backend clock request s).0 ≡ answer true
      → (i : Inode) × (resolve req.parent_inode_id req.name s ≡ some i)
        × ((m : Text) × ((look_up backend later (at_name req.parent_inode_id req.name) after).0
              ≡ err not_found m))
        × ((m : Text) × ((stat backend later (at_id i.inode_id) after).0 ≡ err not_found m))
  unlink-look_up later h = removed later h (unlink-Effect backend clock s request)

  kept_elsewhere :
      {r : Result UnlinkResponse} {t : Service backend.Db}
      → UnlinkEffect.Effect backend clock s req r t
      → (p n : Text) → (p ≢ req.parent_inode_id) ⊎ (n ≢ req.name)
      → resolve p n t ≡ resolve p n s
  kept_elsewhere (UnlinkEffect.no_parent _ _ e) p n _ = rw e
  kept_elsewhere (UnlinkEffect.no_entry _ _ e) p n _ = rw e
  kept_elsewhere (UnlinkEffect.dangling _ _ _ _ e) p n _ = rw e
  kept_elsewhere (UnlinkEffect.not_empty _ _ _ _ _ _ _ e) p n _ = rw e
  kept_elsewhere (UnlinkEffect.unsaved id inode m target _ _ e) p n other =
      rw e (resolve-gone_ne id inode target p n other)
  kept_elsewhere (UnlinkEffect.removed id inode target _ _ e) p n other =
      rw e (resolve-gone_ne id inode target p n other)

  -- Whatever Unlink answers, every other name leads to the inode that it led to before. The maps
  -- are a tree.
  pub resolve-unlink_ne :
      (p n : Text) → (p ≢ req.parent_inode_id) ⊎ (n ≢ req.name) → resolve p n after ≡ resolve p n s
  resolve-unlink_ne = kept_elsewhere (unlink-Effect backend clock s request)

  -- The target holds an entry.
  module _ (id name' child' : Text) (entry : child req.parent_inode_id req.name s.dirents ≡ some id)
      (inside : child id name' s.dirents ≡ some child') where
    id-dir : IsDirectory (lookup id s.inodes)
    unfolding lookup
    id-dir = elim (Option-cases (lookup id s.dirents)) [
      | inl e ↦ absurd (ground arith)
      | inr (m, e) ↦ tree.under_dir id m e
    ]

    full :
        (inode : Inode)
        → lookup id s.inodes ≡ some inode
        → (inode.is_dir && is_nonempty (children inode.inode_id s.dirents)) ≡ true
    full inode there = ground (
      arith,
      id-dir,
      tree.own_id id inode there,
      is_nonempty-lookup name' child' (children id s.dirents) inside,
    )

    refused :
        {r : Result UnlinkResponse} {t : Service backend.Db}
        → UnlinkEffect.Effect backend clock s req r t
        → (r ≡ err failed_precondition (codes "directory is not empty")) × (t ≡ observed clock s)
    unfolding lookup
    refused (UnlinkEffect.no_parent e _ _) = absurd (ground arith)
    refused (UnlinkEffect.no_entry e _ _) = absurd (cc (e, entry))
    refused (UnlinkEffect.dangling k e l _ _) = absurd (ground (arith, id-dir))
    refused (UnlinkEffect.not_empty _ _ _ _ _ _ e f) = (e, f)
    refused (UnlinkEffect.unsaved k inode m target _ _ _) =
        absurd (ground (arith, target.entry, target.there, target.empty, full inode))
    refused (UnlinkEffect.removed k inode target _ _ _) =
        absurd (ground (arith, target.entry, target.there, target.empty, full inode))

    -- Unlink of a directory that holds an entry is a failed precondition, and changes nothing but
    -- the metrics. The maps are a tree.
    pub unlink-full :
        ((unlink backend clock request s).0
          ≡ err failed_precondition (codes "directory is not empty"))
        × (after ≡ observed clock s)
    unlink-full = refused (unlink-Effect backend clock s request)
