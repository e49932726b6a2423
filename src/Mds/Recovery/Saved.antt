-- ===== src/Mds/Recovery/Saved.antt =====
-- What a transaction of `persistCreate` or `persistUnlink` in pkg/mds/service.go leaves in the
-- database when it succeeds.
use kube_pfs.Base.{
  Fallible-cases, ◌≡◌, inl, inr, ◌&&◌, none, some, arith, Fallible, done, bind-done, if◌then◌else◌,
  Bool-cases,
}
use kube_pfs.Mds.Backend.{Backend, update}
use kube_pfs.Mds.Persist.{
  dirent_key, missing_buckets, put_inode, create_tx, persist_create, unlink_tx, persist_unlink,
}
use kube_pfs.Mds.State.{bucket_inodes, bucket_dirents}
use kube_pfs.Proto.Metadata.{Inode}
use kube_pfs.Text.{Text, text_eq}

module _ (backend : Backend) where
  open backend use {Db, get, put, remove, commit, marshal, get-put, get-remove, get-commit}

  update-saved :
      (f : Db → Fallible Db) (d : Db)
      → (update backend f d).0 ≡ none
      → (e : Db) × (f d ≡ done e) × ((c j : Text) → get c j (update backend f d).1 ≡ get c j e)
  update-saved f d h = elim (Fallible-cases (f d)) [
    | inl (e, g) ↦ elim (Fallible-cases (commit e)) [
      | inl (e', k) ↦ (e, g, λ c j. ground (arith, get-commit c j e e', g, k))
      | inr (m, k) ↦ absurd (ground (arith, g, k))
    ]
    | inr (m, g) ↦ absurd (ground (arith, g))
  ]

  -- The entry leads to the id, the blob of the inode stands under it, and all else is as before.
  pub persist_create-get :
      (inode : Inode) (d : Db)
      → (persist_create backend inode d).0 ≡ none
      → (v : Text) × (marshal inode ≡ done v)
        × ((c j : Text)
            → get c j (persist_create backend inode d).1 ≡ (
                if text_eq bucket_dirents c
                  && text_eq (dirent_key inode.parent_inode_id inode.name) j
                then some inode.inode_id
                else if text_eq bucket_inodes c && text_eq inode.inode_id j
                then some v
                else get c j d))
  unfolding persist_create create_tx put_inode
  persist_create-get inode d h =
      let (e, g, kept) = update-saved (create_tx backend inode) d h in
      elim (Bool-cases (missing_buckets backend d)) [
        | inl bad ↦ absurd (ground (arith, g, bad))
        | inr good ↦
            let (d₁, put_first, g₁) = bind-done (put_inode backend inode d) _ (rw good at g) in
            let (v, encoded, put_blob) = bind-done (marshal inode) _ put_first in
            (
              v,
              encoded,
              λ c j. ground (
                arith,
                kept c j,
                get-put bucket_inodes inode.inode_id v c j d d₁ put_blob,
                get-put bucket_dirents (dirent_key inode.parent_inode_id inode.name) inode.inode_id
                    c j d₁ e g₁,
              ),
            )
      ]

  -- The entry and the blob are gone, and all else is as before.
  pub persist_unlink-get :
      (parent name id : Text) (d : Db)
      → (persist_unlink backend parent name id d).0 ≡ none
      → (c j : Text)
      → get c j (persist_unlink backend parent name id d).1 ≡ (
          if text_eq bucket_dirents c && text_eq (dirent_key parent name) j
          then none
          else if text_eq bucket_inodes c && text_eq id j
          then none
          else get c j d)
  unfolding persist_unlink unlink_tx
  persist_unlink-get parent name id d h c j =
      let (e, g, kept) = update-saved (unlink_tx backend parent name id) d h in
      elim (Bool-cases (missing_buckets backend d)) [
        | inl bad ↦ absurd (ground (arith, g, bad))
        | inr good ↦
            let (d₁, first, second) = bind-done (remove bucket_inodes id d) _ (rw good at g) in
            ground (
              arith,
              kept c j,
              get-remove bucket_inodes id c j d d₁ first,
              get-remove bucket_dirents (dirent_key parent name) c j d₁ e second,
            )
      ]
