-- ===== src/Mds/Tree/Link.antt =====
-- `Create` adds one inode to the tree, under a free name of a directory.
use kube_pfs.Base.{
  ◌≡◌, ◌≢◌, refl, ◌&&◌, none, some, [], arith, if◌then◌else◌, inl, inr, Option-cases,
}
use kube_pfs.Mds.Create.{link_inode}
use kube_pfs.Mds.State.{
  Service, root_inode_id, children, child, ensure_dir, set_child, child-ensure_dir, child-set_child,
}
use kube_pfs.Mds.Tree.{IsAt, IsDirectory, IsTree}
use kube_pfs.Proto.Metadata.{Inode}
use kube_pfs.Table.{Table, lookup, insert, lookup-insert}
use kube_pfs.Text.{Text, text_eq, text_eq_iff}

-- A new map in place of the entries of one key.
pub child-insert_empty :
    (k q m : Text) (d : Table (Table Text))
    → child q m (insert k [] d) ≡ (if text_eq k q then none else child q m d)
unfolding lookup
child-insert_empty k q m d = ground (arith, lookup-insert q k [] d)

module _ {Db : Type 0} (parent inode : Inode) (s : Service Db) where
  pub child-link_inode :
      (q m : Text)
      → child q m (link_inode parent inode s).dirents ≡ (
          if inode.is_dir && text_eq inode.inode_id q
          then none
          else if text_eq parent.inode_id q && text_eq inode.name m
          then some inode.inode_id
          else child q m s.dirents)
  unfolding link_inode
  child-link_inode q m = ground (
    arith,
    child-insert_empty inode.inode_id q m (
        set_child parent.inode_id inode.name inode.inode_id (ensure_dir parent.inode_id s.dirents)),
    child-set_child parent.inode_id inode.name q m (ensure_dir parent.inode_id s.dirents)
        inode.inode_id,
    child-ensure_dir parent.inode_id q m s.dirents,
  )

  pub lookup-link_inode :
      (k : Text)
      → lookup k (link_inode parent inode s).inodes
        ≡ (if text_eq inode.inode_id k then some inode else lookup k s.inodes)
  unfolding link_inode
  lookup-link_inode k = lookup-insert k inode.inode_id inode s.inodes

-- Linking a fresh inode under a free name of a directory keeps the tree.
module _ {Db : Type 0} (parent inode : Inode) (s : Service Db) (tree : IsTree s.inodes s.dirents)
    (dir : IsDirectory (lookup parent.inode_id s.inodes))
    (free : child parent.inode_id inode.name s.dirents ≡ none)
    (fresh : lookup inode.inode_id s.inodes ≡ none)
    (under : inode.parent_inode_id ≡ parent.inode_id) where
  abbrev after : Service Db
  after = link_inode parent inode s

  not-root : inode.inode_id ≢ root_inode_id
  not-root e = let gone = rw e at fresh in rw gone at tree.root_dir

  ne_of_directory : (k : Text) → IsDirectory (lookup k s.inodes) → inode.inode_id ≢ k
  ne_of_directory k h e = let gone = rw e at fresh in rw gone at h

  root_dir : IsDirectory (lookup root_inode_id after.inodes)
  root_dir = ground (
    arith,
    lookup-link_inode parent inode s root_inode_id,
    not-root,
    tree.root_dir,
    text_eq_iff inode.inode_id root_inode_id,
  )

  no_children : (n : Text) → child inode.inode_id n s.dirents ≡ none
  unfolding lookup
  no_children n = elim (Option-cases (lookup inode.inode_id s.dirents)) [
    | inl e ↦ ground arith
    | inr (m, e) ↦ absurd (ne_of_directory inode.inode_id (tree.under_dir _ m e) refl)
  ]

  own_id : (k : Text) (i : Inode) → lookup k after.inodes ≡ some i → i.inode_id ≡ k
  own_id k i e =
      ground
        (arith, lookup-link_inode parent inode s k, tree.own_id k i, text_eq_iff inode.inode_id k)

  linked : (p n k : Text) → child p n after.dirents ≡ some k → IsAt p n (lookup k after.inodes)
  linked p n k e = ground (
    arith,
    lookup-link_inode parent inode s k,
    child-link_inode parent inode s p n,
    tree.linked p n k,
    text_eq_iff inode.inode_id k,
    text_eq_iff parent.inode_id p,
    text_eq_iff inode.name n,
  )

  placed :
      (k : Text) (i : Inode)
      → lookup k after.inodes ≡ some i
      → k ≢ root_inode_id
      → child i.parent_inode_id i.name after.dirents ≡ some k
  placed k i e h = ground (
    arith,
    lookup-link_inode parent inode s k,
    child-link_inode parent inode s i.parent_inode_id i.name,
    tree.placed k i,
    no_children i.name,
    ne_of_directory parent.inode_id dir,
    text_eq_iff inode.inode_id k,
    text_eq_iff inode.inode_id i.parent_inode_id,
    text_eq_iff parent.inode_id i.parent_inode_id,
    text_eq_iff inode.name i.name,
  )

  root_unlinked : (p n : Text) → child p n after.dirents ≢ some root_inode_id
  root_unlinked p n e =
      ground (arith, not-root, child-link_inode parent inode s p n, tree.root_unlinked p n)

  under_dir :
      (k : Text) (m : Table Text)
      → lookup k after.dirents ≡ some m
      → IsDirectory (lookup k after.inodes)
  unfolding link_inode set_child ensure_dir
  under_dir k m e = ground (
    arith,
    lookup-insert k inode.inode_id inode s.inodes,
    lookup-insert k inode.inode_id [] (
        set_child parent.inode_id inode.name inode.inode_id (ensure_dir parent.inode_id s.dirents)),
    lookup-insert k parent.inode_id
        (insert inode.name inode.inode_id
          (children parent.inode_id (ensure_dir parent.inode_id s.dirents)))
        (ensure_dir parent.inode_id s.dirents),
    lookup-insert k parent.inode_id [] s.dirents,
    dir,
    ne_of_directory k,
    tree.under_dir k m,
    text_eq_iff inode.inode_id k,
    text_eq_iff parent.inode_id k,
  )

  pub link_inode-IsTree : IsTree after.inodes after.dirents
  link_inode-IsTree = record {
    root_dir = root_dir;
    own_id = own_id;
    under_dir = under_dir;
    linked = linked;
    placed = placed;
    root_unlinked = root_unlinked;
  }
