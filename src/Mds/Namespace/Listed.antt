-- ===== src/Mds/Namespace/Listed.antt =====
-- What `ListDir` of pkg/mds/service.go answers.
use mathlib.Core.List.{Perm, map}
use kube_pfs.Base.{
  ◌≡◌, refl, Option, some, List, [], ◌∷◌, arith, All, All-imp, Bool-cases, inl, inr, Option-cases,
}
use kube_pfs.Mds.Backend.{Backend}
use kube_pfs.Mds.Namespace.{resolve}
use kube_pfs.Mds.Query.{collect_entries, list_entries, list_dir}
use kube_pfs.Mds.State.{Service, Clock, child}
use kube_pfs.Mds.Tree.Handlers.{HasTree}
use kube_pfs.Proto.Metadata.{Inode, ListDirRequest}
use kube_pfs.Status.{ok}
use kube_pfs.Table.{Table, lookup, keys}
use kube_pfs.Text.{Text, text_eq, text_eq_refl}
use kube_pfs.Text.Order.{
  sort_strings, sort_strings-perm, sort_strings-IsSorted, IsSorted, All-sort_strings,
}

abbrev pub at_dir : Text → Option ListDirRequest
at_dir p = some (record { inode_id = p })

abbrev pub name_of : Inode → Text
name_of i = i.name

-- The map holds the name, and leads to an inode.
abbrev Leads : Table Text → Table Inode → Text → Inode → Type 0
Leads entries inodes n i =
    (id : Text) × (lookup n entries ≡ some id) × (lookup id inodes ≡ some i) × (i.name ≡ n)

lookup-keys {ℓ} : {W : Type ℓ} (m : Table W) → All (λ n. (v : W) × (lookup n m ≡ some v)) (keys m)
unfolding lookup
lookup-keys [] = tt
lookup-keys {W = W} ((k, v) ∷ m) = (
  (v, rw (text_eq_refl k) refl),
  All-imp (λ n. (w : W) × (lookup n m ≡ some w)) (λ n. (w : W) × (lookup n ((k, v) ∷ m) ≡ some w))
      (λ n h. elim (Bool-cases (text_eq k n)) [
        | inl e ↦ (v, ground arith)
        | inr e ↦ (h.0, ground (arith, h.1))
      ])
      (keys m) (lookup-keys m),
)

module _ (backend : Backend) (entries : Table Text) (inodes : Table Inode) where
  collected :
      (names : List Text)
      → All (λ n. (i : Inode) × Leads entries inodes n i) names
      → (map name_of (collect_entries backend names entries inodes) ≡ names)
        × All (λ i. Leads entries inodes i.name i) (collect_entries backend names entries inodes)
  unfolding collect_entries
  collected [] h = (refl, tt)
  collected (n ∷ names) ((i, (id, found, there, named)), h) =
      let (same, leads) = collected names h in
      let step : collect_entries backend (n ∷ names) entries inodes
          ≡ i ∷ collect_entries backend names entries inodes =
        ground (arith, found, there, backend.clone_eq i) in
      rw step (rw (named, same) refl, ((id, rw named found, there, refl), leads))

module _ (backend : Backend) (clock : Clock) (s : Service backend.Db) (tree : HasTree s) where
  leads :
      (p : Text) (m : Table Text)
      → lookup p s.dirents ≡ some m
      → (n id : Text) → lookup n m ≡ some id
      → (i : Inode) × Leads m s.inodes n i
  leads p m there n id found =
      let entry : child p n s.dirents ≡ some id = ground (arith, there, found) in
      let at = tree.linked p n id entry in
      elim (Option-cases (lookup id s.inodes)) [
        | inl e ↦ absurd (rw e at at)
        | inr (i, e) ↦ (i, (id, found, e, (rw e at at).1))
      ]

  -- ListDir of a directory whose map is there answers, sorted by name, one inode for each name of
  -- the map, which is the inode that the name leads to. The maps are a tree.
  pub list_dir-lists :
      (p : Text) (m : Table Text)
      → lookup p s.dirents ≡ some m
      → (entries : List Inode) × ((list_dir backend clock (at_dir p) s).0
          ≡ ok (record { entries = entries }))
        × Perm (map name_of entries) (keys m)
        × IsSorted (map name_of entries)
        × All (λ i. resolve p i.name s ≡ some i) entries
  unfolding list_dir list_entries
  list_dir-lists p m there =
      let names = sort_strings (keys m) in
      let all =
        All-sort_strings (λ n. (i : Inode) × Leads m s.inodes n i) (keys m)
          (All-imp (λ n. (v : Text) × (lookup n m ≡ some v))
            (λ n. (i : Inode) × Leads m s.inodes n i) (λ n h. leads p m there n h.0 h.1) (keys m)
            (lookup-keys m)) in
      let (same, led) = collected backend m s.inodes names all in
      (
        collect_entries backend names m s.inodes,
        rw there refl,
        rw same (sort_strings-perm (keys m)),
        rw same (sort_strings-IsSorted (keys m)),
        All-imp (λ i. Leads m s.inodes i.name i) (λ i. resolve p i.name s ≡ some i)
            (λ i h. ground (arith, there, h.1, h.2)) (collect_entries backend names m s.inodes) led,
      )
