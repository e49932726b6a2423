-- ===== src/Mds/Tree.antt =====
-- The two maps of pkg/mds/service.go, `inodes` and `dirents`, as a tree of directories: the
-- invariant, and how the writes of `Create` and `Unlink` act on it.
pub mod Link
pub mod Cut
pub mod Handlers
pub mod Fresh
pub mod History
use kube_pfs.Base.{◌≡◌, ◌≢◌, true, Option, none, some}
use kube_pfs.Mds.State.{root_inode_id, child}
use kube_pfs.Proto.Metadata.{Inode}
use kube_pfs.Table.{Table, lookup}
use kube_pfs.Text.{Text}

-- The inode is there, with this parent and this name.
abbrev pub IsAt : Text → Text → Option Inode → Type 0
IsAt p n none = ⊥
IsAt p n (some i) = (i.parent_inode_id ≡ p) × (i.name ≡ n)

-- The inode is there, and is a directory.
abbrev pub IsDirectory : Option Inode → Type 0
IsDirectory none = ⊥
IsDirectory (some i) = i.is_dir ≡ true

pub record IsTree (inodes : Table Inode) (dirents : Table (Table Text)) : Type 0 where
  pub root_dir : IsDirectory (lookup root_inode_id inodes)
  -- An inode stands under its own id.
  pub own_id : (k : Text) (i : Inode) → lookup k inodes ≡ some i → i.inode_id ≡ k
  -- Only directories have entries.
  pub under_dir :
      (k : Text) (m : Table Text) → lookup k dirents ≡ some m → IsDirectory (lookup k inodes)
  -- An entry leads to an inode that names the entry's directory and name.
  pub linked : (p n k : Text) → child p n dirents ≡ some k → IsAt p n (lookup k inodes)
  -- Every inode but the root stands in the directory that it names, under its name.
  pub placed :
      (k : Text) (i : Inode)
      → lookup k inodes ≡ some i
      → k ≢ root_inode_id
      → child i.parent_inode_id i.name dirents ≡ some k
  pub root_unlinked : (p n : Text) → child p n dirents ≢ some root_inode_id
