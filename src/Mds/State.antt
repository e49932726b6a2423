-- ===== src/Mds/State.antt =====
-- The state of the metadata service, and the maps of directory entries that it keeps.
use kube_pfs.Base.{ℕ, ◌≡◌, ◌&&◌, Option, none, some, List, [], arith, if◌then◌else◌}
use kube_pfs.Metrics.{Metrics}
use kube_pfs.Proto.Metadata.{Inode}
use kube_pfs.Table.{has, Table, lookup, insert, delete, lookup-insert, lookup-delete}
use kube_pfs.Text.{Text, codes, text_eq, text_eq_iff}

-- The constants of the file.
abbrev pub root_inode_id : Text
root_inode_id = codes "root"

abbrev pub bucket_inodes : Text
bucket_inodes = codes "inodes"

abbrev pub bucket_dirents : Text
bucket_dirents = codes "dirents"

pub record Config : Type 0 where
  pub bolt_path : Text
  pub ost_ids : List Text
  pub default_mode : ℕ
  pub default_stripe_sz : ℕ

-- `rr` is the uint64 that the stripe layouts count, `metrics` the calls made on the metrics so far.
-- The lock makes each handler one step of the state.
pub record Service (Db : Type 0) : Type 0 where
  pub db : Db
  pub inodes : Table Inode
  pub dirents : Table (Table Text)
  pub ost_ids : List Text
  pub stripe_sz : ℕ
  pub rr : ℕ
  pub metrics : Metrics

-- What a handler reads of the clock: the wait for the lock in nanoseconds, time.Now().Unix(), and
-- time.Now().UnixNano().
pub record Clock : Type 0 where
  pub wait : ℕ
  pub unix : ℕ
  pub unix_nano : ℕ

-- s.dirents[p], which is nil, and empty to a reader, if the key is missing.
abbrev pub children : Text → Table (Table Text) → Table Text
children p d = elim (lookup p d) [ none ↦ [] | some m ↦ m ]

-- s.dirents[p][n]
abbrev pub child : Text → Text → Table (Table Text) → Option Text
child p n d = lookup n (children p d)

-- if _, ok := s.dirents[p]; !ok { s.dirents[p] = map[string]string{} }
unfoldable pub ensure_dir : Text → Table (Table Text) → Table (Table Text)
ensure_dir p d = if has p d then d else insert p [] d

-- s.dirents[p][n] = id, on a map that is there
unfoldable pub set_child : Text → Text → Text → Table (Table Text) → Table (Table Text)
set_child p n id d = insert p (insert n id (children p d)) d

-- delete(children, n), where children is s.dirents[p] and is there
unfoldable pub delete_child : Text → Text → Table (Table Text) → Table (Table Text)
delete_child p n d = insert p (delete n (children p d)) d

pub child-ensure_dir :
    (p q m : Text) (d : Table (Table Text)) → child q m (ensure_dir p d) ≡ child q m d
unfolding ensure_dir lookup
child-ensure_dir p q m d = ground (arith, lookup-insert q p [] d, text_eq_iff p q)

module _ (p n q m : Text) (d : Table (Table Text)) where
  pub child-set_child :
      (id : Text)
      → child q m (set_child p n id d)
        ≡ (if text_eq p q && text_eq n m then some id else child q m d)
  unfolding set_child
  child-set_child id = ground (
    arith,
    lookup-insert q p (insert n id (children p d)) d,
    lookup-insert m n id (children p d),
    text_eq_iff p q,
  )

  pub child-delete_child :
      child q m (delete_child p n d) ≡ (if text_eq p q && text_eq n m then none else child q m d)
  unfolding delete_child
  child-delete_child = ground (
    arith,
    lookup-insert q p (delete n (children p d)) d,
    lookup-delete m n (children p d),
    text_eq_iff p q,
  )
