-- ===== src/Mds/Recovery.antt =====
-- The database of pkg/mds/service.go as a copy of the maps in memory: what it means that they
-- agree. The modules below are about `Create`, `Unlink` and `NewService`.
pub mod Loading
pub mod Begun
pub mod Restart
pub mod Saved
pub mod Handlers
pub mod Again
pub mod Lives
pub mod Succeeds
pub mod Failed
pub mod Replayed
use kube_pfs.Base.{◌≡◌, false, Option, none, some, done}
use kube_pfs.Mds.Backend.{Backend}
use kube_pfs.Mds.Persist.{dirent_key}
use kube_pfs.Mds.State.{Service, bucket_inodes, bucket_dirents, child}
use kube_pfs.Proto.Metadata.{Inode}
use kube_pfs.Table.{lookup}
use kube_pfs.Text.{Text}
use kube_pfs.Text.Search.{contains}

module _ (backend : Backend) where
  open backend use {Db, get, unmarshal}

  -- A blob is there for an inode that is there, and is decoded to it.
  abbrev pub IsCopy : Option Inode → Option Text → Type 0
  IsCopy none none = Unit
  IsCopy (some i) (some v) = unmarshal v ≡ done i
  IsCopy _ _ = ⊥

  -- The database holds the inodes and the entries of the maps. No id has a NUL in it, so a key of
  -- the bucket of entries tells the parent from the name.
  pub record IsStored (s : Service Db) : Type 0 where
    pub inode_copy : (k : Text) → IsCopy (lookup k s.inodes) (get bucket_inodes k s.db)
    pub entry_copy :
        (p n : Text)
        → contains 0 p ≡ false
        → get bucket_dirents (dirent_key p n) s.db ≡ child p n s.dirents
    pub plain_id : (k : Text) (i : Inode) → lookup k s.inodes ≡ some i → contains 0 k ≡ false
