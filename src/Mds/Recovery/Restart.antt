-- ===== src/Mds/Recovery/Restart.antt =====
-- `NewService` of pkg/mds/service.go on a database that another service has left.
use kube_pfs.Base.{
  false, refl, ◌≢◌, ℕ, ◌≡◌, ◌∙◌, sym, true, Option, none, some, [], arith, done, bind-done, inl,
  inr, Bool-cases, Option-cases, Fallible,
}
use kube_pfs.Mds.Backend.{Backend}
use kube_pfs.Mds.Load.{
  Maps, with_defaults, load_inodes, load_dirents, init_root, load_tx, new_service,
}
use kube_pfs.Mds.Persist.{dirent_key}
use kube_pfs.Mds.Recovery.{IsCopy, IsStored}
use kube_pfs.Mds.Recovery.Loading.{
  Loaded, load_inodes-Loaded, child-load_dirents, child-load_dirents_nul, lookup-load_dirents,
}
use kube_pfs.Mds.State.{
  Config, Clock, Service, root_inode_id, bucket_inodes, bucket_dirents, child, ensure_dir,
  child-ensure_dir,
}
use kube_pfs.Mds.Tree.Handlers.{HasTree}
use kube_pfs.Proto.Metadata.{Inode}
use kube_pfs.Status.{err, not_found}
use kube_pfs.Mds.Query.{list_dir, list_entries}
use kube_pfs.Mds.Namespace.Listed.{at_dir}
use kube_pfs.Table.{lookup-insert, Table, lookup, has}
use kube_pfs.Text.{Text, codes, text_eq_iff}
use kube_pfs.Text.Search.{contains}

same_inode :
    (backend : Backend) (x : Option Inode) (y : Option Text) (z : Option Inode)
    → IsCopy backend x y
    → Loaded backend y none z
    → z ≡ x
same_inode backend none none z c l = l
same_inode backend none (some v) z c l = absurd c
same_inode backend (some i) none z c l = absurd c
same_inode backend (some i) (some v) z c (j, e, f) = grind (arith, c, e, f)

module _ (backend : Backend) (now : ℕ) (config : Config) (s : Service backend.Db) (tree : HasTree s)
    (stored : IsStored backend s) where
  open backend use {
    Db, create_bucket, entries, get, get-create_bucket, lookup-entries, entries-HasUniqueKeys,
  }

  abbrev cfg : Config
  cfg = with_defaults config

  -- Only ids without a NUL have entries.
  no_child : (p n : Text) → contains 0 p ≡ true → child p n s.dirents ≡ none
  unfolding lookup
  no_child p n nul = elim (Option-cases (lookup p s.dirents)) [
    | inl e ↦ ground (arith, e)
    | inr (m, e) ↦ elim (Option-cases (lookup p s.inodes)) [
      | inl f ↦ absurd (rw f at (tree.under_dir p m e))
      | inr (i, f) ↦ absurd (ground (arith, stored.plain_id p i f))
    ]
  ]

  pub has_root :
      (r : Table Inode)
      → lookup root_inode_id r ≡ lookup root_inode_id s.inodes
      → has root_inode_id r ≡ true
  has_root r same = elim (Option-cases (lookup root_inode_id s.inodes)) [
    | inl f ↦ absurd (rw f at tree.root_dir)
    | inr (i, f) ↦ ground (arith, same, f)
  ]

  abbrev pub IsRestored : Maps → Type 0
  IsRestored m =
      ((k : Text) → lookup k m.inodes ≡ lookup k s.inodes)
      × ((p n : Text) → child p n m.dirents ≡ child p n s.dirents)
      × ((p : Text)
          → contains 0 p ≡ false
          → p ≢ root_inode_id
          → ((n : Text) → child p n s.dirents ≡ none)
          → lookup p m.dirents ≡ none)

  module _ (d₁ d₂ : Db) (first : create_bucket bucket_inodes s.db ≡ done d₁)
      (second : create_bucket bucket_dirents d₁ ≡ done d₂) where
    bucket : (b k : Text) → lookup k (entries b d₂) ≡ get b k s.db
    bucket b k =
        lookup-entries b k d₂
        ∙ get-create_bucket bucket_dirents b k d₁ d₂ second
        ∙ get-create_bucket bucket_inodes b k s.db d₁ first

    pub inodes_same :
        (r : Table Inode)
        → load_inodes backend (entries bucket_inodes d₂) [] ≡ done r
        → (k : Text) → lookup k r ≡ lookup k s.inodes
    unfolding lookup
    inodes_same r e k =
        let loaded =
          load_inodes-Loaded backend (entries bucket_inodes d₂) [] r
            (entries-HasUniqueKeys bucket_inodes d₂) e k in
        same_inode backend (lookup k s.inodes) (get bucket_inodes k s.db) (lookup k r)
          (stored.inode_copy k) (rw (bucket bucket_inodes k) at loaded)

    dirents_same :
        (p n : Text) → child p n (load_dirents (entries bucket_dirents d₂) []) ≡ child p n s.dirents
    unfolding lookup
    dirents_same p n = elim (Bool-cases (contains 0 p)) [
      | inl nul ↦
          child-load_dirents_nul (entries bucket_dirents d₂) [] p n nul ∙ sym (no_child p n nul)
      | inr plain ↦
          let loaded =
            child-load_dirents (entries bucket_dirents d₂) [] p n
              (entries-HasUniqueKeys bucket_dirents d₂) plain in
          ground
            (arith, loaded, bucket bucket_dirents (dirent_key p n), stored.entry_copy p n plain)
    ]

    dirents_lost :
        (p : Text)
        → contains 0 p ≡ false
        → p ≢ root_inode_id
        → ((n : Text) → child p n s.dirents ≡ none)
        → lookup p (ensure_dir root_inode_id (load_dirents (entries bucket_dirents d₂) [])) ≡ none
    unfolding ensure_dir lookup
    dirents_lost p plain other bare =
        let lost =
          lookup-load_dirents (entries bucket_dirents d₂) [] p
            (λ n. bucket bucket_dirents (dirent_key p n) ∙ stored.entry_copy p n plain ∙ bare n)
            refl in
        let loaded = load_dirents (entries bucket_dirents d₂) [] in
        ground (arith, lost, lookup-insert p root_inode_id [] loaded, text_eq_iff root_inode_id p)

  pub load_tx-IsRestored :
      (m : Maps) (d : Db) → load_tx backend now cfg s.db ≡ done (m, d) → IsRestored m
  unfolding load_tx init_root
  load_tx-IsRestored m d h =
      let (d₁, e, h₁) = bind-done (create_bucket bucket_inodes s.db) _ h in
      let (d₂, f, h₂) = bind-done (create_bucket bucket_dirents d₁) _ h₁ in
      let (r, g, h₃) = bind-done (load_inodes backend (entries bucket_inodes d₂) []) _ h₂ in
      let root = has_root r (inodes_same d₁ d₂ e f r g root_inode_id) in
      let loaded = load_dirents (entries bucket_dirents d₂) [] in
      let is : ◌≡◌ {A = Fallible (Maps × Db)}
          (done (record { inodes = r; dirents = ensure_dir root_inode_id loaded }, d₂))
          (done (m, d)) =
        rw root at h₃ in
      (
        λ k. ground (arith, is, inodes_same d₁ d₂ e f r g k),
        λ p n.
            ground
              (arith, is, dirents_same d₁ d₂ e f p n, child-ensure_dir root_inode_id p n loaded),
        λ p plain other bare. ground (arith, is, dirents_lost d₁ d₂ e f p plain other bare),
      )

  -- A service that NewService answers for the database of another service has the same inode for
  -- each id, and the same id for each name in each directory. The maps of the other service are a
  -- tree, and its database agrees with them.
  pub new_service-restored :
      (t : Service Db)
      → new_service backend now config (done s.db) ≡ done t
      → ((k : Text) → lookup k t.inodes ≡ lookup k s.inodes)
        × ((p n : Text) → child p n t.dirents ≡ child p n s.dirents)
  unfolding new_service
  new_service-restored t h =
      let ((m, d), e, h₁) = bind-done (load_tx backend now cfg s.db) _ h in
      let (d', f, h₂) = bind-done (backend.commit d) _ h₁ in
      let (inodes, dirents, lost) = load_tx-IsRestored m d e in
      (λ k. ground (arith, h₂, inodes k), λ p n. ground (arith, h₂, dirents p n))

  -- On a service that NewService answers for the database of another service, ListDir of an id that
  -- had no entries there is not found, if the id is not that of the root and has no NUL. The maps of
  -- the other service are a tree, and its database agrees with them.
  pub list_dir_lost :
      (t : Service Db) (later : Clock) (p : Text)
      → new_service backend now config (done s.db) ≡ done t
      → contains 0 p ≡ false
      → p ≢ root_inode_id
      → ((n : Text) → child p n s.dirents ≡ none)
      → (list_dir backend later (at_dir p) t).0 ≡ err not_found (codes "directory inode not found")
  unfolding new_service list_dir list_entries
  list_dir_lost t later p h plain other bare =
      let ((m, d), e, h₁) = bind-done (load_tx backend now cfg s.db) _ h in
      let (d', f, h₂) = bind-done (backend.commit d) _ h₁ in
      let (inodes, dirents, lost) = load_tx-IsRestored m d e in
      ground (arith, h₂, lost p plain other bare)
