-- ===== src/Tests/Instances.antt =====
-- A database that is a table of tables, and a file system that is a table of files: both never
-- fail.
use kube_pfs.Base.{
  ◌≡◌, refl, ◌&&◌, Option, none, some, [], ◌∷◌, Fallible, done, arith, if◌then◌else◌,
}
use kube_pfs.FileSystem.{AreApart, FileSystem, Contents, IoError, bytes, failed, missing, Missing}
use kube_pfs.Mds.Backend.{Backend}
use kube_pfs.Mds.State.{
  children, child, ensure_dir, set_child, delete_child, child-ensure_dir, child-set_child,
  child-delete_child,
}
use kube_pfs.Table.{
  Table, has, lookup, insert, delete, HasUniqueKeys, lookup-insert, lookup-delete,
  delete-HasUniqueKeys,
}
use kube_pfs.Tests.Codec.{marshal, unmarshal, unmarshal-marshal}
use kube_pfs.Text.{Text, codes, text_eq, text_eq_iff, text_eq_refl}

-- The entries, without those that an earlier one hides.
unfoldable pub visible : Table Text → Table Text
visible [] = []
visible ((k, v) ∷ m) = (k, v) ∷ delete k (visible m)

pub lookup-visible : (j : Text) (m : Table Text) → lookup j (visible m) ≡ lookup j m
unfolding visible lookup
lookup-visible j [] = refl
lookup-visible j ((k, v) ∷ m) = ground (arith, lookup-delete j k (visible m), lookup-visible j m)

pub visible-HasUniqueKeys : (m : Table Text) → HasUniqueKeys (visible m)
unfolding visible
visible-HasUniqueKeys [] = tt
visible-HasUniqueKeys ((k, v) ∷ m) = (
  ground (arith, lookup-delete k k (visible m), text_eq_refl k),
  delete-HasUniqueKeys k (visible m) (visible-HasUniqueKeys m),
)

abbrev pub Db : Type 0
Db = Table (Table Text)

pub get-put :
    (b k v c j : Text) (d e : Db)
    → ◌≡◌ {A = Fallible Db} (done (set_child b k v d)) (done e)
    → child c j e ≡ (if text_eq b c && text_eq k j then some v else child c j d)
get-put b k v c j d e h = ground (arith, child-set_child b k c j d v)

pub get-remove :
    (b k c j : Text) (d e : Db)
    → ◌≡◌ {A = Fallible Db} (done (delete_child b k d)) (done e)
    → child c j e ≡ (if text_eq b c && text_eq k j then none else child c j d)
get-remove b k c j d e h = ground (arith, child-delete_child b k c j d)

pub get-create_bucket :
    (b c j : Text) (d e : Db)
    → ◌≡◌ {A = Fallible Db} (done (ensure_dir b d)) (done e)
    → child c j e ≡ child c j d
get-create_bucket b c j d e h = ground (arith, child-ensure_dir b c j d)

pub get-commit :
    (c j : Text) (d e : Db) → ◌≡◌ {A = Fallible Db} (done d) (done e) → child c j e ≡ child c j d
get-commit c j d e h = ground arith

abbrev pub tables : Backend
tables = record {
  Db = Db;
  has_bucket = λ b d. has b d;
  create_bucket = λ b d. done (ensure_dir b d);
  get = λ b k d. child b k d;
  put = λ b k v d. done (set_child b k v d);
  remove = λ b k d. done (delete_child b k d);
  entries = λ b d. visible (children b d);
  commit = λ d. done d;
  marshal = marshal;
  unmarshal = unmarshal;
  clone = λ i. i;
  get-put = get-put;
  get-remove = get-remove;
  get-create_bucket = get-create_bucket;
  get-commit = get-commit;
  lookup-entries = λ b k d. lookup-visible k (children b d);
  entries-HasUniqueKeys = λ b d. visible-HasUniqueKeys (children b d);
  unmarshal-marshal = unmarshal-marshal;
  clone_eq = λ i. refl;
}

abbrev pub Files : Type 0
Files = Table Text

abbrev pub no_file : IoError
no_file = missing (codes "no such file or directory")

unfoldable pub read_file : Text → Files → Contents
read_file p f = elim (lookup p f) [ none ↦ failed no_file | some b ↦ bytes b ]

unfoldable pub remove_file : Text → Files → Option IoError × Files
remove_file p f = if has p f then (none, delete p f) else (some no_file, f)

pub read-write_self :
    (p b : Text) (f : Files)
    → ◌≡◌ {A = Option IoError} none none
    → read_file p (insert p b f) ≡ bytes b
unfolding read_file
read-write_self p b f h = ground (arith, lookup-insert p p b f, text_eq_refl p)

pub read-write_ne :
    (p q b c : Text) (f : Files)
    → AreApart p q
    → read_file q f ≡ bytes c
    → read_file q (insert p b f) ≡ bytes c
unfolding read_file
read-write_ne p q b c f apart h = ground (arith, apart.0, lookup-insert q p b f, text_eq_iff p q)

pub read-remove_self :
    (p : Text) (f : Files) → (remove_file p f).0 ≡ none → Missing (read_file p (remove_file p f).1)
unfolding read_file remove_file
read-remove_self p f h = ground (arith, lookup-delete p p f, text_eq_refl p)

pub read-remove_ne :
    (p q c : Text) (f : Files)
    → AreApart p q
    → read_file q f ≡ bytes c
    → read_file q (remove_file p f).1 ≡ bytes c
unfolding read_file remove_file
read-remove_ne p q c f apart h = ground (arith, apart.0, lookup-delete q p f, text_eq_iff p q)

abbrev pub disk : FileSystem
disk = record {
  Fs = Files;
  mkdir_all = λ p f. (none, f);
  write_file = λ p b f. (none, insert p b f);
  remove = remove_file;
  remove_all = λ p f. (none, delete p f);
  read_file = read_file;
  read-write_self = read-write_self;
  read-write_ne = read-write_ne;
  read-mkdir_all = λ p q c f h. h;
  read-remove_self = read-remove_self;
  read-remove_ne = read-remove_ne;
}
