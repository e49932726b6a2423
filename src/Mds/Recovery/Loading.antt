-- ===== src/Mds/Recovery/Loading.antt =====
-- The two loops of `loadOrInitRoot` in pkg/mds/service.go over a bucket whose keys are distinct.
use kube_pfs.Base.{
  ◌≡◌, ◌∙◌, refl, true, false, Option, none, some, [], ◌∷◌, arith, done, bind-done, ◌&&◌, inl, inr,
  Bool-cases, Option-cases,
}
use kube_pfs.Mds.Backend.{Backend}
use kube_pfs.Mds.Load.{load_inodes, load_dirents}
use kube_pfs.Mds.Persist.{dirent_key}
use kube_pfs.Mds.State.{children, child, ensure_dir, set_child, child-ensure_dir, child-set_child}
use kube_pfs.Proto.Metadata.{Inode}
use kube_pfs.Table.{Table, lookup, insert, HasUniqueKeys, lookup-insert}
use kube_pfs.Text.{Text, text_eq, text_eq_iff}
use kube_pfs.Text.Search.{contains, contains-Lacks, split_two, split_two-append}

module _ (backend : Backend) where
  open backend use {unmarshal}

  -- What the table holds for a key behind the loop, given what the bucket and the table held.
  abbrev pub Loaded : Option Text → Option Inode → Option Inode → Type 0
  Loaded none old new = new ≡ old
  Loaded (some v) old new = (i : Inode) × (unmarshal v ≡ done i) × (new ≡ some i)

  pub load_inodes-Loaded :
      (pairs : Table Text) (m r : Table Inode)
      → HasUniqueKeys pairs
      → load_inodes backend pairs m ≡ done r
      → (k : Text) → Loaded (lookup k pairs) (lookup k m) (lookup k r)
  unfolding load_inodes lookup
  load_inodes-Loaded [] m r u h k = ground arith
  load_inodes-Loaded ((j, v) ∷ pairs) m r u h k =
      let (i, e, h') = bind-done (unmarshal v) _ h in
      let rest = load_inodes-Loaded pairs (insert j i m) r u.1 h' k in
      elim (Bool-cases (text_eq j k)) [
        | inl same ↦
            let gone : lookup k pairs ≡ none = ground (arith, u.0, text_eq_iff j k) in
            let put : lookup k (insert j i m) ≡ some i = ground (arith, lookup-insert k j i m) in
            let kept : lookup k r ≡ lookup k (insert j i m) = rw gone at rest in
            rw same (i, e, kept ∙ put)
        | inr apart ↦
            let put : lookup k (insert j i m) ≡ lookup k m =
              ground (arith, lookup-insert k j i m) in
            rw apart (rw put at rest)
      ]

-- A key that is split is put together again.
split_two-eq :
    (k a b : Text) → split_two 0 k ≡ some (a, b) → (k ≡ dirent_key a b) × (contains 0 a ≡ false)
unfolding split_two contains
split_two-eq [] a b h = absurd (cc h)
split_two-eq (c ∷ k) a b h = elim (Option-cases (split_two 0 k)) [
  | inl e ↦ ground arith
  | inr ((x, y), e) ↦ ground (arith, split_two-eq k x y e)
]

-- Keys of plain parents are equal exactly if both parts are.
pub dirent_key-text_eq :
    (a b p n : Text)
    → contains 0 a ≡ false
    → contains 0 p ≡ false
    → text_eq (dirent_key a b) (dirent_key p n) ≡ (text_eq a p && text_eq b n)
dirent_key-text_eq a b p n h k =
    let one = split_two-append 0 a b (contains-Lacks 0 a h) in
    let two = split_two-append 0 p n (contains-Lacks 0 p k) in
    ground (
      arith,
      one,
      two,
      text_eq_iff (dirent_key a b) (dirent_key p n),
      text_eq_iff a p,
      text_eq_iff b n,
    )

pub child-load_dirents :
    (pairs : Table Text) (d : Table (Table Text)) (p n : Text)
    → HasUniqueKeys pairs
    → contains 0 p ≡ false
    → child p n (load_dirents pairs d)
      ≡ elim (lookup (dirent_key p n) pairs) [ none ↦ child p n d | some v ↦ some v ]
unfolding load_dirents lookup
child-load_dirents [] d p n u plain = refl
child-load_dirents ((k, v) ∷ pairs) d p n u plain = elim (Option-cases (split_two 0 k)) [
  | inl e ↦
      let two = split_two-append 0 p n (contains-Lacks 0 p plain) in
      let apart : text_eq k (dirent_key p n) ≡ false =
        ground (arith, text_eq_iff k (dirent_key p n)) in
      ground (arith, apart, child-load_dirents pairs d p n u.1 plain)
  | inr ((a, b), e) ↦
      let (whole, plain_a) = split_two-eq k a b e in
      let same = dirent_key-text_eq a b p n plain_a plain in
      let rest = child-load_dirents pairs (set_child a b v (ensure_dir a d)) p n u.1 plain in
      ground (
        arith,
        whole,
        same,
        rest,
        u.0,
        text_eq_iff k (dirent_key p n),
        child-set_child a b p n (ensure_dir a d) v,
        child-ensure_dir a p n d,
      )
]

pub child-load_dirents_nul :
    (pairs : Table Text) (d : Table (Table Text)) (p n : Text)
    → contains 0 p ≡ true
    → child p n (load_dirents pairs d) ≡ child p n d
unfolding load_dirents
child-load_dirents_nul [] d p n nul = refl
child-load_dirents_nul ((k, v) ∷ pairs) d p n nul = elim (Option-cases (split_two 0 k)) [
  | inl e ↦ ground (arith, child-load_dirents_nul pairs d p n nul)
  | inr ((a, b), e) ↦
      let (_, plain_a) = split_two-eq k a b e in
      let rest = child-load_dirents_nul pairs (set_child a b v (ensure_dir a d)) p n nul in
      ground (
        arith,
        rest,
        text_eq_iff a p,
        child-set_child a b p n (ensure_dir a d) v,
        child-ensure_dir a p n d,
      )
]

-- A parent with a NUL gets no map.
pub lookup-load_dirents_nul :
    (pairs : Table Text) (d : Table (Table Text)) (p : Text)
    → contains 0 p ≡ true
    → lookup p d ≡ none
    → lookup p (load_dirents pairs d) ≡ none
unfolding load_dirents lookup ensure_dir set_child
lookup-load_dirents_nul [] d p nul gone = gone
lookup-load_dirents_nul ((k, v) ∷ pairs) d p nul gone = elim (Option-cases (split_two 0 k)) [
  | inl e ↦ ground (arith, lookup-load_dirents_nul pairs d p nul gone)
  | inr ((a, b), e) ↦
      let (_, plain_a) = split_two-eq k a b e in
      let apart : text_eq a p ≡ false = ground (arith, text_eq_iff a p, nul, plain_a) in
      let kept : lookup p (set_child a b v (ensure_dir a d)) ≡ none = ground (
        arith,
        lookup-insert p a (insert b v (children a (ensure_dir a d))) (ensure_dir a d),
        lookup-insert p a [] d,
      ) in
      ground (arith, lookup-load_dirents_nul pairs (set_child a b v (ensure_dir a d)) p nul kept)
]

-- A parent that has no key gets no map.
pub lookup-load_dirents :
    (pairs : Table Text) (d : Table (Table Text)) (p : Text)
    → ((n : Text) → lookup (dirent_key p n) pairs ≡ none)
    → lookup p d ≡ none
    → lookup p (load_dirents pairs d) ≡ none
unfolding load_dirents lookup ensure_dir set_child
lookup-load_dirents [] d p bare gone = gone
lookup-load_dirents ((k, v) ∷ pairs) d p bare gone =
    let rest : (n : Text) → lookup (dirent_key p n) pairs ≡ none = λ n. ground (arith, bare n) in
    elim (Option-cases (split_two 0 k)) [
      | inl e ↦ ground (arith, lookup-load_dirents pairs d p rest gone)
      | inr ((a, b), e) ↦
          let (whole, _) = split_two-eq k a b e in
          let apart : text_eq a p ≡ false =
            ground (arith, bare b, whole, text_eq_iff a p, text_eq_iff k (dirent_key p b)) in
          let kept : lookup p (set_child a b v (ensure_dir a d)) ≡ none = ground (
            arith,
            lookup-insert p a (insert b v (children a (ensure_dir a d))) (ensure_dir a d),
            lookup-insert p a [] d,
          ) in
          ground (arith, lookup-load_dirents pairs (set_child a b v (ensure_dir a d)) p rest kept)
    ]
