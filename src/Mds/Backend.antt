-- ===== src/Mds/Backend.antt =====
-- What pkg/mds/service.go uses of go.etcd.io/bbolt and of google.golang.org/protobuf/proto: a
-- parameter of the service, with the documented behaviour that the code relies on.
use kube_pfs.Base.{◌≡◌, Bool, ◌&&◌, Option, none, some, if◌then◌else◌, Fallible, done, fail}
use kube_pfs.Text.{Text, text_eq}
use kube_pfs.Table.{Table, lookup, HasUniqueKeys}
use kube_pfs.Proto.Metadata.{Inode}

pub record Backend : Type 1 where
  -- The contents of a database, as a transaction sees them.
  pub Db : Type 0
  -- tx.Bucket(b) != nil, and tx.CreateBucketIfNotExists(b)
  pub has_bucket : Text → Db → Bool
  pub create_bucket : Text → Db → Fallible Db
  -- On the bucket b: Get(k), Put(k, v), Delete(k), and the pairs that ForEach visits.
  pub get : Text → Text → Db → Option Text
  pub put : Text → Text → Text → Db → Fallible Db
  pub remove : Text → Text → Db → Fallible Db
  pub entries : Text → Db → Table Text
  -- The commit that ends db.Update.
  pub commit : Db → Fallible Db
  -- gproto.Marshal, gproto.Unmarshal, gproto.Clone
  pub marshal : Inode → Fallible Text
  pub unmarshal : Text → Fallible Inode
  pub clone : Inode → Inode
  -- A write is seen by the reads behind it, and touches one key of one bucket.
  pub get-put :
      (b k v c j : Text) (d e : Db)
      → put b k v d ≡ done e
      → get c j e ≡ (if text_eq b c && text_eq k j then some v else get c j d)
  pub get-remove :
      (b k c j : Text) (d e : Db)
      → remove b k d ≡ done e
      → get c j e ≡ (if text_eq b c && text_eq k j then none else get c j d)
  pub get-create_bucket :
      (b c j : Text) (d e : Db) → create_bucket b d ≡ done e → get c j e ≡ get c j d
  pub get-commit : (c j : Text) (d e : Db) → commit d ≡ done e → get c j e ≡ get c j d
  -- ForEach visits every pair of the bucket once.
  pub lookup-entries : (b k : Text) (d : Db) → lookup k (entries b d) ≡ get b k d
  pub entries-HasUniqueKeys : (b : Text) (d : Db) → HasUniqueKeys (entries b d)
  -- An encoded message is decoded to itself, and a clone is equal to the original.
  pub unmarshal-marshal : (i : Inode) (v : Text) → marshal i ≡ done v → unmarshal v ≡ done i
  pub clone_eq : (i : Inode) → clone i ≡ i

module _ (backend : Backend) where
  open backend use {Db, commit}

  -- db.Update(f): the transaction is kept only if `f` and the commit succeed. `none` is a nil error.
  abbrev pub update : (Db → Fallible Db) → Db → Option Text × Db
  update f d = elim (f d) [
    | fail e ↦ (some e, d)
    | done d' ↦ elim (commit d') [ fail e ↦ (some e, d) | done d'' ↦ (none, d'') ]
  ]
