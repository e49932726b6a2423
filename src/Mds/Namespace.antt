-- ===== src/Mds/Namespace.antt =====
-- What a client sees after `Create` and `Unlink` in pkg/mds/service.go, through the handlers
-- `Lookup`, `Stat` and `ListDir`.
pub mod Added
pub mod Removed
pub mod Listed
pub mod Undone
pub mod View
pub mod Told
use kube_pfs.Base.{
  ◌≡◌, ◌≢◌, ◌∙◌, refl, sym, ap, ◌⊎◌, Bool, true, false, ◌&&◌, Option, none, some, List, [], ◌∷◌,
  arith, if◌then◌else◌, inl, inr, Option-cases, Bool-cases,
}
use kube_pfs.Mds.Backend.{Backend}
use kube_pfs.Mds.Create.{create, link_inode, new_inode, inode_id_at, clone_inode}
use kube_pfs.Mds.Create.Effect
use kube_pfs.Mds.Create.Effect.{Passes, staged, create-Effect}
use kube_pfs.Mds.Query.{look_up, lookup_entry, stat, stat_inode}
use kube_pfs.Mds.State.{Service, Clock, child}
use kube_pfs.Mds.Tree.{IsTree, IsDirectory}
use kube_pfs.Mds.Tree.Cut.{child-unlink_inode, lookup-unlink_inode}
use kube_pfs.Mds.Tree.Handlers.{HasTree}
use kube_pfs.Mds.Tree.Link.{child-link_inode, lookup-link_inode}
use kube_pfs.Mds.Unlink.{unlink, unlink_inode, answer}
use kube_pfs.Mds.Unlink.Effect as UnlinkEffect
use kube_pfs.Mds.Unlink.Effect.{Target, cut, unlink-Effect}
use kube_pfs.Proto.Metadata.{
  Inode, StripeLayout, CreateRequest, create_request_get, CreateResponse, UnlinkRequest,
  unlink_request_get, UnlinkResponse, LookupRequest, LookupResponse, StatRequest,
}
use kube_pfs.Status.{Result, ok, err, not_found}
use kube_pfs.Table.{lookup}
use kube_pfs.Text.{Text, codes, text_eq, text_eq_iff, text_eq_refl}

-- The requests of a client.
abbrev pub at_name : Text → Text → Option LookupRequest
at_name p n = some (record { parent_inode_id = p; name = n })

abbrev pub at_id : Text → Option StatRequest
at_id k = some (record { inode_id = k })

-- The inode that an entry leads to.
abbrev pub resolve : {Db : Type 0} → Text → Text → Service Db → Option Inode
resolve p n s = elim (child p n s.dirents) [ none ↦ none | some id ↦ lookup id s.inodes ]

module _ (backend : Backend) (s : Service backend.Db) where
  pub lookup_entry-child :
      (p n id : Text)
      → child p n s.dirents ≡ some id
      → lookup_entry backend (at_name p n) s
        ≡ ok (record { inode = clone_inode backend (lookup id s.inodes) })
  unfolding lookup_entry lookup
  lookup_entry-child p n id h = ground arith

  pub lookup_entry_missing :
      (p n : Text)
      → child p n s.dirents ≡ none
      → (m : Text) × (lookup_entry backend (at_name p n) s ≡ err not_found m)
  unfolding lookup_entry
  lookup_entry_missing p n h = elim (Option-cases (lookup p s.dirents)) [
    | inl e ↦ (codes "parent inode not found", ground arith)
    | inr (m, e) ↦ (codes "entry not found", ground arith)
  ]

  -- What Lookup and Stat answer for an entry that is there.
  pub look_up-child :
      (p n id : Text) (i : Inode) (clock : Clock)
      → child p n s.dirents ≡ some id
      → lookup id s.inodes ≡ some i
      → ((look_up backend clock (at_name p n) s).0
          ≡ ok (record { inode = clone_inode backend (some i) }))
        × ((stat backend clock (at_id id) s).0
            ≡ ok (record { inode = clone_inode backend (some i) }))
  unfolding look_up stat stat_inode
  look_up-child p n id i clock c l = (lookup_entry-child p n id c ∙ rw l, ground arith)

  pub look_up_missing :
      (p n : Text) (clock : Clock)
      → child p n s.dirents ≡ none
      → (m : Text) × ((look_up backend clock (at_name p n) s).0 ≡ err not_found m)
  unfolding look_up
  look_up_missing p n clock c = lookup_entry_missing p n c

  pub stat_missing :
      (k : Text) (clock : Clock)
      → lookup k s.inodes ≡ none
      → (stat backend clock (at_id k) s).0 ≡ err not_found (codes "inode not found")
  unfolding stat stat_inode
  stat_missing k clock l = ground arith

-- The state behind a linked inode.
module _ (backend : Backend) (clock : Clock) (s : Service backend.Db) (tree : HasTree s)
    (req : CreateRequest) (parent : Inode) (layout : StripeLayout)
    (passes : Passes req s.inodes s.dirents parent)
    (fresh : lookup (inode_id_at clock) s.inodes ≡ none) where
  abbrev pub inode : Inode
  inode = new_inode clock req parent layout (staged backend clock s)

  abbrev pub linked : Service backend.Db
  linked = link_inode parent inode (staged backend clock s)

  -- The parent's key is not the new id.
  id-ne-parent : inode_id_at clock ≢ req.parent_inode_id
  id-ne-parent e = let gone = rw e at fresh in cc (gone, passes.there)

  own : parent.inode_id ≡ req.parent_inode_id
  own = tree.own_id req.parent_inode_id parent passes.there

  -- The new id has no entries yet.
  no_entries : (n : Text) → child (inode_id_at clock) n s.dirents ≡ none
  unfolding lookup
  no_entries n = elim (Option-cases (lookup (inode_id_at clock) s.dirents)) [
    | inl e ↦ ground (arith, e)
    | inr (m, e) ↦ absurd (rw fresh at (tree.under_dir (inode_id_at clock) m e))
  ]

  pub child-linked : child req.parent_inode_id req.name linked.dirents ≡ some (inode_id_at clock)
  unfolding new_inode
  child-linked = ground (
    arith,
    child-link_inode parent inode (staged backend clock s) req.parent_inode_id req.name,
    own,
    id-ne-parent,
    text_eq_iff (inode_id_at clock) req.parent_inode_id,
    text_eq_iff parent.inode_id req.parent_inode_id,
    text_eq_refl req.name,
  )

  pub lookup-linked : lookup (inode_id_at clock) linked.inodes ≡ some inode
  unfolding new_inode
  lookup-linked = ground (
    arith,
    lookup-link_inode parent inode (staged backend clock s) (inode_id_at clock),
    text_eq_refl (inode_id_at clock),
  )

  pub resolve-linked_ne :
      (p n : Text) → (p ≢ req.parent_inode_id) ⊎ (n ≢ req.name) → resolve p n linked ≡ resolve p n s
  unfolding new_inode
  resolve-linked_ne p n other = elim (Option-cases (child p n s.dirents)) [
    | inl e ↦ ground (
      arith,
      child-link_inode parent inode (staged backend clock s) p n,
      own,
      text_eq_iff (inode_id_at clock) p,
      text_eq_iff parent.inode_id p,
      text_eq_iff req.name n,
    )
    | inr (id, e) ↦ ground (
      arith,
      child-link_inode parent inode (staged backend clock s) p n,
      lookup-link_inode parent inode (staged backend clock s) id,
      own,
      tree.linked p n id e,
      no_entries n,
      text_eq_iff (inode_id_at clock) p,
      text_eq_iff (inode_id_at clock) id,
      text_eq_iff parent.inode_id p,
      text_eq_iff req.name n,
    )
  ]
