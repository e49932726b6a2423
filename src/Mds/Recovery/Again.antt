-- ===== src/Mds/Recovery/Again.antt =====
-- The maps and the database behind `NewService` of pkg/mds/service.go on a database that another
-- service has left.
use kube_pfs.Base.{
  ℕ, ◌≡◌, ◌∙◌, refl, sym, ap, some, [], arith, done, bind-done, inl, inr, Bool-cases, Option-cases,
  Fallible,
}
use kube_pfs.Mds.Backend.{Backend}
use kube_pfs.Mds.Load.{
  Maps, with_defaults, load_inodes, load_dirents, init_root, load_tx, new_service,
}
use kube_pfs.Mds.Recovery.{IsStored}
use kube_pfs.Mds.Recovery.Loading.{lookup-load_dirents_nul}
use kube_pfs.Mds.Recovery.Restart.{has_root, inodes_same, IsRestored, load_tx-IsRestored}
use kube_pfs.Mds.State.{
  Config, Service, root_inode_id, bucket_inodes, bucket_dirents, child, ensure_dir,
}
use kube_pfs.Mds.Tree.{IsTree, IsDirectory}
use kube_pfs.Mds.Tree.Handlers.{HasTree}
use kube_pfs.Table.{Table, lookup, lookup-insert}
use kube_pfs.Text.{Text, text_eq, text_eq_iff}
use kube_pfs.Text.Search.{contains}

module _ (backend : Backend) (now : ℕ) (config : Config) (s : Service backend.Db) (tree : HasTree s)
    (stored : IsStored backend s) where
  open backend use {Db, create_bucket, entries, get, get-create_bucket, get-commit}

  abbrev cfg : Config
  cfg = with_defaults config

  -- What the transaction of the start has made of the directories and the database.
  abbrev IsLoaded : Maps → Db → Type 0
  IsLoaded m d =
      ((b k : Text) → get b k d ≡ get b k s.db)
      × (m.dirents ≡ ensure_dir root_inode_id (load_dirents (entries bucket_dirents d) []))

  load_tx-IsLoaded : (m : Maps) (d : Db) → load_tx backend now cfg s.db ≡ done (m, d) → IsLoaded m d
  unfolding load_tx init_root
  load_tx-IsLoaded m d h =
      let (d₁, e, h₁) = bind-done (create_bucket bucket_inodes s.db) _ h in
      let (d₂, f, h₂) = bind-done (create_bucket bucket_dirents d₁) _ h₁ in
      let (r, g, h₃) = bind-done (load_inodes backend (entries bucket_inodes d₂) []) _ h₂ in
      let root =
        has_root backend now config s tree stored r
          (inodes_same backend now config s tree stored d₁ d₂ e f r g root_inode_id) in
      let loaded = load_dirents (entries bucket_dirents d₂) [] in
      let is : ◌≡◌ {A = Fallible (Maps × Db)}
          (done (record { inodes = r; dirents = ensure_dir root_inode_id loaded }, d₂))
          (done (m, d)) =
        rw root at h₃ in
      (
        λ b k. ground (
          arith,
          is,
          get-create_bucket bucket_dirents b k d₁ d₂ f,
          get-create_bucket bucket_inodes b k s.db d₁ e,
        ),
        ground (arith, is),
      )

  module _ (m : Maps) (d : Db) (loaded : load_tx backend now cfg s.db ≡ done (m, d)) where
    restored : IsRestored backend now config s tree stored m
    restored = load_tx-IsRestored backend now config s tree stored m d loaded

    -- A directory that has a map has an inode.
    under_dir :
        (p : Text) (entries_of : Table Text)
        → lookup p m.dirents ≡ some entries_of
        → IsDirectory (lookup p m.inodes)
    unfolding ensure_dir lookup
    under_dir p entries_of h = elim (Option-cases (lookup p s.dirents)) [
      | inr (old, e) ↦ rw (restored.0 p) (tree.under_dir p old e)
      | inl e ↦ elim (Bool-cases (text_eq root_inode_id p)) [
        | inl is_root ↦
            rw (restored.0 p, sym ((text_eq_iff root_inode_id p).0 is_root)) tree.root_dir
        | inr other ↦ elim (Bool-cases (contains 0 p)) [
          | inr plain ↦ absurd (
              ground (
                arith,
                h,
                restored.2 p plain (λ f. ground (arith, f, other, text_eq_iff root_inode_id p))
                    (λ n. ground (arith, e)),
              ))
          | inl nul ↦
              let (_, shape) = load_tx-IsLoaded m d loaded in
              let made = load_dirents (entries bucket_dirents d) [] in
              let gone = lookup-load_dirents_nul (entries bucket_dirents d) [] p nul refl in
              absurd (ground (arith, h, shape, gone, other, lookup-insert p root_inode_id [] made))
        ]
      ]
    ]

    restored-IsTree : IsTree m.inodes m.dirents
    restored-IsTree = record {
      root_dir = rw (restored.0 root_inode_id) tree.root_dir;
      own_id = λ k i h. tree.own_id k i (sym (restored.0 k) ∙ h);
      under_dir = under_dir;
      linked = λ p n k h. rw (restored.0 k) (tree.linked p n k (sym (restored.1 p n) ∙ h));
      placed = λ k i h apart.
          restored.1 i.parent_inode_id i.name ∙ tree.placed k i (sym (restored.0 k) ∙ h) apart;
      root_unlinked = λ p n h. tree.root_unlinked p n (sym (restored.1 p n) ∙ h);
    }

  -- A restart keeps the tree, and the database agrees with the maps behind it.
  module _ (t : Service Db) (h : new_service backend now config (done s.db) ≡ done t) where
    pub restart-IsKept : HasTree t × IsStored backend t
    unfolding new_service
    restart-IsKept =
        let ((m, d), e, h₁) = bind-done (load_tx backend now cfg s.db) _ h in
        let (d', f, h₂) = bind-done (backend.commit d) _ h₁ in
        let (gets, _) = load_tx-IsLoaded m d e in
        let inodes : t.inodes ≡ m.inodes = ground (arith, h₂) in
        let dirents : t.dirents ≡ m.dirents = ground (arith, h₂) in
        let db : t.db ≡ d' = ground (arith, h₂) in
        let kept : (b k : Text) → get b k t.db ≡ get b k s.db =
          λ b k. ap (get b k) db ∙ get-commit b k d d' f ∙ gets b k in
        let same = restored m d e in
        (
          rw (inodes, dirents) (restored-IsTree m d e),
          record {
            inode_copy = λ k. rw (kept bucket_inodes k, inodes, same.0 k) (stored.inode_copy k);
            entry_copy = λ p n plain.
                kept bucket_dirents _
                ∙ stored.entry_copy p n plain
                ∙ sym (same.1 p n)
                ∙ ap (child p n) (sym dirents);
            plain_id = λ k i k_there.
                stored.plain_id k i (sym (same.0 k) ∙ sym (ap (lookup k) inodes) ∙ k_there);
          },
        )
