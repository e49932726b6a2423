-- ===== src/Mds/Namespace/View.antt =====
-- The namespace of pkg/mds/service.go as a client knows it from the answers: a map of names.
use kube_pfs.Base.{
  ◌≡◌, ◌≢◌, ◌∙◌, sym, ◌⊎◌, inl, inr, ◌&&◌, Option, none, some, arith, if◌then◌else◌, Bool-cases,
}
use kube_pfs.Mds.Namespace.{resolve}
use kube_pfs.Mds.State.{Service, child}
use kube_pfs.Proto.Metadata.{
  Inode, CreateRequest, CreateResponse, UnlinkRequest, UnlinkResponse, LookupResponse,
}
use kube_pfs.Status.{Result, ok, err, panic, not_found}
use kube_pfs.Table.{lookup}
use kube_pfs.Text.{Text, text_eq, text_eq_iff}

-- The namespace as a client sees it: the inode that a name of a directory leads to.
abbrev pub View : Type 0
View = Text → Text → Option Inode

abbrev pub set_view : Text → Text → Option Inode → View → View
set_view p n i view q m = if text_eq p q && text_eq n m then i else view q m

-- What an answer tells of the namespace.
abbrev pub after_create : CreateRequest → Result CreateResponse → View → View
after_create req (ok resp) view = set_view req.parent_inode_id req.name resp.inode view
after_create req (err c m) view = view
after_create req panic view = view

abbrev pub after_unlink : UnlinkRequest → Result UnlinkResponse → View → View
after_unlink req (ok resp) view =
    if resp.deleted then set_view req.parent_inode_id req.name none view else view
after_unlink req (err c m) view = view
after_unlink req panic view = view

-- What Lookup has to answer for an inode of the view, or for a name that is not there.
abbrev pub Shows : Option Inode → Result LookupResponse → Type 0
Shows (some i) r = r ≡ ok (record { inode = some i })
Shows none r = (m : Text) × (r ≡ err not_found m)

pub resolve-child :
    {Db : Type 0} (s : Service Db) (p n id : Text) (i : Option Inode)
    → child p n s.dirents ≡ some id
    → lookup id s.inodes ≡ i
    → resolve p n s ≡ i
unfolding lookup
resolve-child s p n id i e f = ground (arith, e, f)

pub resolve_missing :
    {Db : Type 0} (s : Service Db) (p n : Text) → child p n s.dirents ≡ none → resolve p n s ≡ none
unfolding lookup
resolve_missing s p n e = ground (arith, e)

abbrev pub Agrees : {Db : Type 0} → View → Service Db → Type 0
Agrees view s = (p n : Text) → resolve p n s ≡ view p n

-- A map that is changed at one name only agrees with the view that is changed there.
pub set_view-Agrees :
    {Db : Type 0} (s t : Service Db) (view : View) (p n : Text) (i : Option Inode)
    → Agrees view s
    → resolve p n t ≡ i
    → ((q m : Text) → (q ≢ p) ⊎ (m ≢ n) → resolve q m t ≡ resolve q m s)
    → Agrees (set_view p n i view) t
set_view-Agrees s t view p n i agrees here elsewhere q m = elim (Bool-cases (text_eq p q)) [
  | inr e ↦ rw e (elsewhere q m (inl (ground (arith, e, text_eq_iff p q))) ∙ agrees q m)
  | inl e ↦ elim (Bool-cases (text_eq n m)) [
    | inr f ↦ rw (e, f) (elsewhere q m (inr (ground (arith, f, text_eq_iff n m))) ∙ agrees q m)
    | inl f ↦ rw (e, f, sym ((text_eq_iff p q).0 e), sym ((text_eq_iff n m).0 f)) here
  ]
]
