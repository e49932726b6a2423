-- ===== src/Mds/Tree/Fresh.antt =====
-- The maps that `NewService` of pkg/mds/service.go makes for a new database.
use kube_pfs.Base.{ℕ, ◌≡◌, ◌∙◌, refl, true, none, [], ◌∷◌, done, bind-done, arith}
use kube_pfs.Mds.Backend.{Backend}
use kube_pfs.Mds.Load.{
  Maps, with_defaults, new_root, load_inodes, load_dirents, init_root, load_tx, new_service,
}
use kube_pfs.Mds.Persist.{put_inode}
use kube_pfs.Mds.State.{Config, Service, root_inode_id, bucket_inodes, bucket_dirents, child}
use kube_pfs.Mds.Tree.{IsTree}
use kube_pfs.Mds.Tree.Handlers.{HasTree}
use kube_pfs.Proto.Metadata.{Inode}
use kube_pfs.Table.{lookup, insert, empty_of_none}
use kube_pfs.Text.{Text, text_eq, text_eq_iff}

-- A root directory alone.
abbrev pub alone : Inode → Maps
alone root = record { inodes = (root_inode_id, root) ∷ []; dirents = (root_inode_id, []) ∷ [] }

pub child-alone : (root : Inode) (p n : Text) → child p n (alone root).dirents ≡ none
unfolding lookup
child-alone root p n = ground arith

alone-IsTree :
    (root : Inode)
    → root.inode_id ≡ root_inode_id
    → root.is_dir ≡ true
    → IsTree (alone root).inodes (alone root).dirents
unfolding lookup text_eq
alone-IsTree root own dir = record {
  root_dir = dir;
  own_id = λ k i h. ground (arith, text_eq_iff root_inode_id k, own);
  under_dir = λ k m h. ground (arith, dir);
  linked = λ p n k h. absurd (ground (arith, child-alone root p n));
  placed = λ k i h apart. absurd (ground (arith, text_eq_iff root_inode_id k));
  root_unlinked = λ p n h. ground (arith, child-alone root p n);
}

module _ (backend : Backend) (now : ℕ) (config : Config) (opened : backend.Db)
    (empty : (b k : Text) → backend.get b k opened ≡ none) where
  open backend use {Db, create_bucket, entries, get, get-create_bucket, lookup-entries}

  abbrev cfg : Config
  cfg = with_defaults config

  pub no_entries :
      (d₁ d₂ : Db)
      → create_bucket bucket_inodes opened ≡ done d₁
      → create_bucket bucket_dirents d₁ ≡ done d₂
      → (b : Text) → entries b d₂ ≡ []
  no_entries d₁ d₂ e f b = empty_of_none (entries b d₂) (λ k.
      lookup-entries b k d₂
      ∙ get-create_bucket bucket_dirents b k d₁ d₂ f
      ∙ get-create_bucket bucket_inodes b k opened d₁ e
      ∙ empty b k)

  pub load_tx-alone :
      (m : Maps) (d : Db)
      → load_tx backend now cfg opened ≡ done (m, d)
      → m ≡ alone (new_root backend now cfg)
  unfolding load_tx load_inodes load_dirents init_root lookup insert
  load_tx-alone m d h =
      let (d₁, e, h₁) = bind-done (create_bucket bucket_inodes opened) _ h in
      let (d₂, f, h₂) = bind-done (create_bucket bucket_dirents d₁) _ h₁ in
      let loaded =
        rw (no_entries d₁ d₂ e f bucket_inodes, no_entries d₁ d₂ e f bucket_dirents) at h₂ in
      let (d₃, g, h₃) = bind-done (put_inode backend (new_root backend now cfg) d₂) _ loaded in
      ground (arith, h₃)

  -- A service that NewService answers for a database without an entry holds a tree.
  pub new_service-HasTree :
      (s : Service Db) → new_service backend now config (done opened) ≡ done s → HasTree s
  unfolding new_service
  new_service-HasTree s h =
      let ((m, d), e, h₁) = bind-done (load_tx backend now cfg opened) _ h in
      let (d', f, h₂) = bind-done (backend.commit d) _ h₁ in
      let same = load_tx-alone m d e in
      let inodes : s.inodes ≡ (alone (new_root backend now cfg)).inodes =
        ground (arith, h₂, same) in
      let dirents : s.dirents ≡ (alone (new_root backend now cfg)).dirents =
        ground (arith, h₂, same) in
      rw (inodes, dirents) (alone-IsTree (new_root backend now cfg) refl refl)
