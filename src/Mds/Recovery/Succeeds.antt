-- ===== src/Mds/Recovery/Succeeds.antt =====
-- `NewService` of pkg/mds/service.go starts on every database that a service has left, if the
-- database itself does not fail.
use kube_pfs.Base.{ℕ, ◌≡◌, ◌∙◌, refl, sym, Option, none, some, [], ◌∷◌, arith, done}
use kube_pfs.Mds.Backend.{Backend}
use kube_pfs.Mds.Load.{
  Maps, with_defaults, load_inodes, load_dirents, init_root, load_tx, new_service,
}
use kube_pfs.Mds.Namespace.Undone.{SameMaps}
use kube_pfs.Mds.Recovery.{IsCopy, IsStored}
use kube_pfs.Mds.Recovery.Restart.{has_root, inodes_same, new_service-restored}
use kube_pfs.Mds.State.{Config, Service, bucket_inodes, bucket_dirents, root_inode_id, ensure_dir}
use kube_pfs.Mds.Tree.Handlers.{HasTree}
use kube_pfs.Proto.Metadata.{Inode}
use kube_pfs.Table.{Table, lookup, insert, HasUniqueKeys}
use kube_pfs.Text.{Text, text_eq_iff}

module _ (backend : Backend) where
  open backend use {
    Db, create_bucket, entries, get, commit, unmarshal, get-create_bucket, lookup-entries,
    entries-HasUniqueKeys,
  }

  -- Every blob is decoded, so the loop over the bucket of inodes ends with a table.
  load_inodes-succeeds :
      (pairs : Table Text) (m : Table Inode)
      → HasUniqueKeys pairs
      → ((k v : Text) → lookup k pairs ≡ some v → (i : Inode) × (unmarshal v ≡ done i))
      → (r : Table Inode) × (load_inodes backend pairs m ≡ done r)
  unfolding load_inodes lookup
  load_inodes-succeeds [] m u h = (m, refl)
  load_inodes-succeeds ((k, v) ∷ pairs) m u h =
      let (i, e) = h k v (ground (arith, text_eq_iff k k)) in
      let (r, f) =
        load_inodes-succeeds pairs (insert k i m) u.1
          (λ j w there. h j w (ground (arith, there, u.0, text_eq_iff k j))) in
      (r, ground (arith, e, f))

  copy-decoded :
      (x : Option Inode) (v : Text)
      → IsCopy backend x (some v)
      → (i : Inode) × (unmarshal v ≡ done i)
  copy-decoded none v c = absurd c
  copy-decoded (some i) v c = (i, c)

  module _ (creates : (b : Text) (d : Db) → (e : Db) × (create_bucket b d ≡ done e))
      (commits : (d : Db) → (e : Db) × (commit d ≡ done e)) (now : ℕ) (config : Config)
      (s : Service Db) (tree : HasTree s) (stored : IsStored backend s) where
    abbrev cfg : Config
    cfg = with_defaults config

    load_tx-succeeds : (m : Maps) × ((d : Db) × (load_tx backend now cfg s.db ≡ done (m, d)))
    unfolding load_tx init_root
    load_tx-succeeds =
        let (d₁, e) = creates bucket_inodes s.db in
        let (d₂, f) = creates bucket_dirents d₁ in
        let decoded : (k v : Text)
            → lookup k (entries bucket_inodes d₂) ≡ some v
            → (i : Inode) × (unmarshal v ≡ done i) =
          λ k v there.
            let same : get bucket_inodes k s.db ≡ some v =
              sym (get-create_bucket bucket_inodes bucket_inodes k s.db d₁ e)
              ∙ sym (get-create_bucket bucket_dirents bucket_inodes k d₁ d₂ f)
              ∙ sym (lookup-entries bucket_inodes k d₂)
              ∙ there in
            copy-decoded (lookup k s.inodes) v (rw same at (stored.inode_copy k)) in
        let (r, g) =
          load_inodes-succeeds (entries bucket_inodes d₂) []
            (entries-HasUniqueKeys bucket_inodes d₂) decoded in
        let root =
          has_root backend now config s tree stored r
            (inodes_same backend now config s tree stored d₁ d₂ e f r g root_inode_id) in
        (
          record {
            inodes = r;
            dirents = ensure_dir root_inode_id (load_dirents (entries bucket_dirents d₂) []);
          },
          (d₂, rw (e, f, g, root) refl),
        )

    -- If no making of a bucket and no commit fails, then NewService succeeds on the database of
    -- every service whose maps are a tree with which the database agrees, and it answers a service
    -- with the same inode for each id and the same id for each name in each directory.
    pub new_service-succeeds :
        (t : Service Db) × (new_service backend now config (done s.db) ≡ done t) × SameMaps s t
    unfolding new_service
    new_service-succeeds =
        let (m, (d, e)) = load_tx-succeeds in
        let (d', f) = commits d in
        let t : Service Db = record {
          db = d';
          inodes = m.inodes;
          dirents = m.dirents;
          ost_ids = cfg.ost_ids;
          stripe_sz = cfg.default_stripe_sz;
          rr = 0;
          metrics = [];
        } in
        let started : new_service backend now config (done s.db) ≡ done t = rw (e, f) refl in
        (t, started, new_service-restored backend now config s tree stored t started)
