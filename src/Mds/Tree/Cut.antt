-- ===== src/Mds/Tree/Cut.antt =====
-- `Unlink` takes one inode without entries out of the tree.
use kube_pfs.Base.{◌≡◌, ◌≢◌, false, ◌&&◌, none, some, arith, if◌then◌else◌, inl, inr, Option-cases}
use kube_pfs.Mds.State.{Service, root_inode_id, children, child, delete_child, child-delete_child}
use kube_pfs.Mds.Tree.{IsAt, IsDirectory, IsTree}
use kube_pfs.Mds.Unlink.{unlink_inode, is_nonempty}
use kube_pfs.Proto.Metadata.{Inode}
use kube_pfs.Table.{Table, lookup, delete, lookup-delete, lookup-insert}
use kube_pfs.Text.{Text, text_eq, text_eq_iff}

child-delete :
    (k q m : Text) (d : Table (Table Text))
    → child q m (delete k d) ≡ (if text_eq k q then none else child q m d)
unfolding lookup
child-delete k q m d = ground (arith, lookup-delete q k d)

module _ {Db : Type 0} (parent name : Text) (inode : Inode) (s : Service Db) where
  pub child-unlink_inode :
      (q m : Text)
      → child q m (unlink_inode parent name inode s).dirents ≡ (
          if text_eq inode.inode_id q
          then none
          else if text_eq parent q && text_eq name m
          then none
          else child q m s.dirents)
  unfolding unlink_inode
  child-unlink_inode q m = ground (
    arith,
    child-delete inode.inode_id q m (delete_child parent name s.dirents),
    child-delete_child parent name q m s.dirents,
  )

  pub lookup-unlink_inode :
      (k : Text)
      → lookup k (unlink_inode parent name inode s).inodes
        ≡ (if text_eq inode.inode_id k then none else lookup k s.inodes)
  unfolding unlink_inode
  lookup-unlink_inode k = lookup-delete k inode.inode_id s.inodes

-- Taking out an inode that has no entries keeps the tree.
module _ {Db : Type 0} (parent name : Text) (inode : Inode) (s : Service Db)
    (tree : IsTree s.inodes s.dirents) (entry : child parent name s.dirents ≡ some inode.inode_id)
    (there : lookup inode.inode_id s.inodes ≡ some inode)
    (empty : (inode.is_dir && is_nonempty (children inode.inode_id s.dirents)) ≡ false) where
  abbrev after : Service Db
  after = unlink_inode parent name inode s

  pub no_children : (n : Text) → child inode.inode_id n s.dirents ≡ none
  unfolding lookup
  no_children n = elim (Option-cases (lookup inode.inode_id s.dirents)) [
    | inl e ↦ ground arith
    | inr (m, e) ↦ ground (arith, tree.under_dir _ m e)
  ]

  not-root : inode.inode_id ≢ root_inode_id
  not-root e = ground (arith, tree.root_unlinked parent name)

  at_parent : (inode.parent_inode_id ≡ parent) × (inode.name ≡ name)
  at_parent = let h = tree.linked parent name inode.inode_id entry in rw there at h

  root_dir : IsDirectory (lookup root_inode_id after.inodes)
  root_dir = ground (
    arith,
    lookup-unlink_inode parent name inode s root_inode_id,
    not-root,
    tree.root_dir,
    text_eq_iff inode.inode_id root_inode_id,
  )

  own_id : (k : Text) (i : Inode) → lookup k after.inodes ≡ some i → i.inode_id ≡ k
  own_id k i e = ground (arith, lookup-unlink_inode parent name inode s k, tree.own_id k i)

  under_dir :
      (k : Text) (m : Table Text)
      → lookup k after.dirents ≡ some m
      → IsDirectory (lookup k after.inodes)
  unfolding unlink_inode delete_child lookup
  under_dir k m e = elim (Option-cases (lookup k s.dirents)) [
    | inl no_map ↦ ground (
      arith,
      lookup-delete k inode.inode_id s.inodes,
      lookup-delete k inode.inode_id (delete_child parent name s.dirents),
      lookup-insert k parent (delete name (children parent s.dirents)) s.dirents,
      text_eq_iff parent k,
    )
    | inr (old, e') ↦ ground (
      arith,
      lookup-delete k inode.inode_id s.inodes,
      lookup-delete k inode.inode_id (delete_child parent name s.dirents),
      tree.under_dir k old e',
    )
  ]

  linked : (p n k : Text) → child p n after.dirents ≡ some k → IsAt p n (lookup k after.inodes)
  linked p n k e = ground (
    arith,
    lookup-unlink_inode parent name inode s k,
    child-unlink_inode parent name inode s p n,
    tree.linked p n k,
    at_parent,
    text_eq_iff inode.inode_id k,
    text_eq_iff parent p,
    text_eq_iff name n,
  )

  placed :
      (k : Text) (i : Inode)
      → lookup k after.inodes ≡ some i
      → k ≢ root_inode_id
      → child i.parent_inode_id i.name after.dirents ≡ some k
  placed k i e h = ground (
    arith,
    lookup-unlink_inode parent name inode s k,
    child-unlink_inode parent name inode s i.parent_inode_id i.name,
    tree.placed k i,
    no_children i.name,
    text_eq_iff inode.inode_id k,
    text_eq_iff inode.inode_id i.parent_inode_id,
    text_eq_iff parent i.parent_inode_id,
    text_eq_iff name i.name,
  )

  root_unlinked : (p n : Text) → child p n after.dirents ≢ some root_inode_id
  root_unlinked p n e =
      ground (arith, child-unlink_inode parent name inode s p n, tree.root_unlinked p n)

  pub unlink_inode-IsTree : IsTree after.inodes after.dirents
  unlink_inode-IsTree = record {
    root_dir = root_dir;
    own_id = own_id;
    under_dir = under_dir;
    linked = linked;
    placed = placed;
    root_unlinked = root_unlinked;
  }
