-- ===== src/Mds/Persist.antt =====
-- `putInode`, `persistCreate` and `persistUnlink` of pkg/mds/service.go: what one transaction
-- writes.
use kube_pfs.Base.{Bool, not, ◌||◌, Option, ◌∷◌, ◌++◌, Fallible, fail, ◌>>=◌, if◌then◌else◌}
use kube_pfs.Mds.Backend.{Backend, update}
use kube_pfs.Mds.State.{bucket_inodes, bucket_dirents}
use kube_pfs.Proto.Metadata.{Inode}
use kube_pfs.Text.{Text, codes}

-- The key of an entry in the bucket of entries: parent + "\x00" + name
abbrev pub dirent_key : Text → Text → Text
dirent_key parent name = parent ++ 0 ∷ name

module _ (backend : Backend) where
  open backend use {Db, has_bucket, put, remove, marshal}

  abbrev pub missing_buckets : Db → Bool
  missing_buckets d = not (has_bucket bucket_inodes d) || not (has_bucket bucket_dirents d)

  unfoldable pub put_inode : Inode → Db → Fallible Db
  put_inode inode d = do blob ← marshal inode; put bucket_inodes inode.inode_id blob d

  unfoldable pub create_tx : Inode → Db → Fallible Db
  unfolding put_inode
  create_tx inode d = if missing_buckets d then fail (codes "metadata buckets are missing") else do
    d' ← put_inode inode d
    put bucket_dirents (dirent_key inode.parent_inode_id inode.name) inode.inode_id d'

  unfoldable pub persist_create : Inode → Db → Option Text × Db
  unfolding create_tx
  persist_create inode = update backend (create_tx inode)

  unfoldable pub unlink_tx : Text → Text → Text → Db → Fallible Db
  unlink_tx parent name id d =
      if missing_buckets d
      then fail (codes "metadata buckets are missing")
      else do d' ← remove bucket_inodes id d; remove bucket_dirents (dirent_key parent name) d'

  unfoldable pub persist_unlink : Text → Text → Text → Db → Option Text × Db
  unfolding unlink_tx
  persist_unlink parent name id = update backend (unlink_tx parent name id)
