-- ===== src/Mds/Recovery/Begun.antt =====
-- The database that `NewService` of pkg/mds/service.go makes of a new one.
use kube_pfs.Base.{
  ℕ, ◌≡◌, ◌∙◌, sym, ap, ◌&&◌, none, some, done, bind-done, arith, if◌then◌else◌, Bool-cases, inl,
  inr,
}
use kube_pfs.Mds.Backend.{Backend}
use kube_pfs.Mds.Load.{
  Maps, with_defaults, new_root, load_inodes, load_dirents, init_root, load_tx, new_service,
}
use kube_pfs.Mds.Persist.{dirent_key, put_inode}
use kube_pfs.Mds.Recovery.{IsStored}
use kube_pfs.Mds.State.{Config, Service, root_inode_id, bucket_inodes, bucket_dirents, child}
use kube_pfs.Mds.Tree.Fresh.{alone, child-alone, no_entries, load_tx-alone, new_service-HasTree}
use kube_pfs.Mds.Tree.Handlers.{HasTree}
use kube_pfs.Proto.Metadata.{Inode}
use kube_pfs.Table.{lookup, insert}
use kube_pfs.Text.{Text, text_eq, text_eq_iff}
use kube_pfs.Text.Search.{contains}

module _ (backend : Backend) (now : ℕ) (config : Config) (opened : backend.Db)
    (empty : (b k : Text) → backend.get b k opened ≡ none) where
  open backend use {
    Db, create_bucket, entries, get, put, marshal, get-create_bucket, get-put, get-commit,
    unmarshal-marshal,
  }

  abbrev root : Inode
  root = new_root backend now (with_defaults config)

  -- The root alone is written.
  load_tx-written :
      (m : Maps) (d : Db)
      → load_tx backend now (with_defaults config) opened ≡ done (m, d)
      → (v : Text) × (marshal root ≡ done v)
        × ((c j : Text)
            → get c j d
              ≡ (if text_eq bucket_inodes c && text_eq root_inode_id j then some v else none))
  unfolding load_tx load_inodes load_dirents init_root lookup insert put_inode
  load_tx-written m d h =
      let (d₁, e, h₁) = bind-done (create_bucket bucket_inodes opened) _ h in
      let (d₂, f, h₂) = bind-done (create_bucket bucket_dirents d₁) _ h₁ in
      let bare = no_entries backend now config opened empty d₁ d₂ e f in
      let loaded = rw (bare bucket_inodes, bare bucket_dirents) at h₂ in
      let (d₃, g, h₃) = bind-done (put_inode backend root d₂) _ loaded in
      let (v, encoded, written) = bind-done (marshal root) _ g in
      (
        v,
        encoded,
        λ c j. ground (
          arith,
          h₃,
          get-put bucket_inodes root_inode_id v c j d₂ d₃ written,
          get-create_bucket bucket_dirents c j d₁ d₂ f,
          get-create_bucket bucket_inodes c j opened d₁ e,
          empty c j,
        ),
      )

  root-IsStored :
      (s : Service Db) (v : Text)
      → marshal root ≡ done v
      → s.inodes ≡ (alone root).inodes
      → s.dirents ≡ (alone root).dirents
      → ((c j : Text)
          → get c j s.db
            ≡ (if text_eq bucket_inodes c && text_eq root_inode_id j then some v else none))
      → IsStored backend s
  unfolding lookup text_eq contains
  root-IsStored s v encoded inodes dirents gets = record {
    inode_copy = λ k. elim (Bool-cases (text_eq root_inode_id k)) [
      | inl e ↦ rw (inodes, gets bucket_inodes k, e) (unmarshal-marshal root v encoded)
      | inr e ↦ rw (inodes, gets bucket_inodes k, e) tt
    ];
    entry_copy = λ p n plain.
        gets bucket_dirents (dirent_key p n)
        ∙ sym (child-alone root p n)
        ∙ sym (ap (child p n) dirents);
    plain_id = λ k i there. ground (arith, there, inodes, text_eq_iff root_inode_id k);
  }

  -- A service that NewService answers for a database without an entry holds a tree, and its
  -- database agrees with its maps.
  pub new_service-IsStored :
      (s : Service Db)
      → new_service backend now config (done opened) ≡ done s
      → HasTree s × IsStored backend s
  unfolding new_service
  new_service-IsStored s h =
      let ((m, d), e, h₁) = bind-done (load_tx backend now (with_defaults config) opened) _ h in
      let (d', f, h₂) = bind-done (backend.commit d) _ h₁ in
      let same = load_tx-alone backend now config opened empty m d e in
      let (v, encoded, written) = load_tx-written m d e in
      let inodes : s.inodes ≡ (alone root).inodes = ground (arith, h₂, same) in
      let dirents : s.dirents ≡ (alone root).dirents = ground (arith, h₂, same) in
      let db : s.db ≡ d' = ground (arith, h₂) in
      let kept : (b k : Text) → get b k s.db ≡ get b k d =
        λ b k. ap (get b k) db ∙ get-commit b k d d' f in
      (
        new_service-HasTree backend now config opened empty s h,
        root-IsStored s v encoded inodes dirents (λ c j. kept c j ∙ written c j),
      )
