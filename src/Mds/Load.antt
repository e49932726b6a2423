-- ===== src/Mds/Load.antt =====
-- `NewService` and `loadOrInitRoot` of pkg/mds/service.go.
use kube_pfs.Base.{
  Option, ℕ, ◌*◌, true, none, some, [], ◌∷◌, ◌++◌, Fallible, done, fail, ◌>>=◌, ◌==◌, if◌then◌else◌,
}
use kube_pfs.Mds.Backend.{Backend}
use kube_pfs.Mds.Persist.{put_inode}
use kube_pfs.Mds.State.{
  Config, Service, root_inode_id, bucket_inodes, bucket_dirents, ensure_dir, set_child,
}
use kube_pfs.Proto.Metadata.{Inode}
use kube_pfs.Table.{Table, insert, has}
use kube_pfs.Text.{Text, codes}
use kube_pfs.Text.Search.{split_two}

-- The two maps while they are built.
pub record Maps : Type 0 where
  pub inodes : Table Inode
  pub dirents : Table (Table Text)

-- The loop over the bucket of entries: a key without "\x00" is passed over.
unfoldable pub load_dirents : Table Text → Table (Table Text) → Table (Table Text)
load_dirents [] d = d
load_dirents ((k, v) ∷ pairs) d = load_dirents pairs (elim (split_two 0 k) [
  | none ↦ d
  | some (parent, name) ↦ set_child parent name v (ensure_dir parent d)
])

-- The defaults that NewService puts in for what is zero.
abbrev pub with_defaults : Config → Config
with_defaults cfg = record {
  bolt_path = cfg.bolt_path;
  ost_ids = elim cfg.ost_ids [
    | [] ↦ codes "ost-0" ∷ codes "ost-1" ∷ codes "ost-2" ∷ []
    | x ∷ xs ↦ x ∷ xs
  ];
  default_mode = if cfg.default_mode == 0 then 0o644 else cfg.default_mode;
  default_stripe_sz = if cfg.default_stripe_sz == 0 then 1024 * 1024 else cfg.default_stripe_sz;
}

module _ (backend : Backend) where
  open backend use {Db, create_bucket, entries, unmarshal}

  -- The loop over the bucket of inodes.
  unfoldable pub load_inodes : Table Text → Table Inode → Fallible (Table Inode)
  load_inodes [] m = done m
  load_inodes ((k, v) ∷ pairs) m = do inode ← unmarshal v; load_inodes pairs (insert k inode m)

  -- The root directory of a new database.
  abbrev pub new_root : ℕ → Config → Inode
  new_root now cfg = record {
    inode_id = root_inode_id;
    parent_inode_id = [];
    name = codes "/";
    is_dir = true;
    size_bytes = 0;
    mode = cfg.default_mode;
    created_unix = now;
    modified_unix = now;
    stripe_layout =
        some (record { stripe_size_bytes = cfg.default_stripe_sz; ost_ids = cfg.ost_ids });
  }

  -- The root is in the maps: as it was loaded, or new, and then written to the database.
  unfoldable pub init_root : ℕ → Config → Maps → Db → Fallible (Maps × Db)
  init_root now cfg m d =
      if has root_inode_id m.inodes
      then done (record m { dirents = ensure_dir root_inode_id m.dirents }, d)
      else do
        d' ← put_inode backend (new_root now cfg) d
        done (
          record {
            inodes = insert root_inode_id (new_root now cfg) m.inodes;
            dirents = insert root_inode_id [] m.dirents;
          },
          d',
        )

  -- The transaction of loadOrInitRoot: the maps that it leaves, and what it writes.
  unfoldable pub load_tx : ℕ → Config → Db → Fallible (Maps × Db)
  load_tx now cfg d = do
    d₁ ← create_bucket bucket_inodes d
    d₂ ← create_bucket bucket_dirents d₁
    inodes ← load_inodes (entries bucket_inodes d₂) []
    init_root now cfg
        (record { inodes = inodes; dirents = load_dirents (entries bucket_dirents d₂) [] }) d₂

  -- NewService, given what bbolt.Open answered. The maps of a failed transaction are dropped with
  -- the service.
  unfoldable pub new_service : ℕ → Config → Fallible Db → Fallible (Service Db)
  new_service now config opened = do
    let cfg = with_defaults config
    db ← elim opened [ fail e ↦ fail (codes "open boltdb: " ++ e) | done d ↦ done d ]
    (m, d) ← load_tx now cfg db
    d' ← backend.commit d
    done (record {
      db = d';
      inodes = m.inodes;
      dirents = m.dirents;
      ost_ids = cfg.ost_ids;
      stripe_sz = cfg.default_stripe_sz;
      rr = 0;
      metrics = [];
    })

  -- Close, given what bbolt's Close answers for the database.
  unfoldable pub close : (Db → Option Text) → Service Db → Option Text
  close close_db s = close_db s.db
