-- ===== src/Mds/Recovery/Handlers.antt =====
-- The database behind `Create` and `Unlink` of pkg/mds/service.go.
use kube_pfs.Base.{
  ◌≡◌, ◌≢◌, refl, false, Option, none, some, arith, inl, inr, Bool-cases, Option-cases, All-append,
  All-imp,
}
use kube_pfs.Mds.Backend.{Backend}
use kube_pfs.Mds.Create.{create, new_inode, inode_id_at}
use kube_pfs.Mds.Create.Effect
use kube_pfs.Mds.Create.Effect.{Passes, staged, create-Effect}
use kube_pfs.Mds.Namespace.{inode, linked}
use kube_pfs.Mds.Persist.{dirent_key, persist_create, persist_unlink}
use kube_pfs.Mds.Query.{observed}
use kube_pfs.Mds.Recovery.{IsStored}
use kube_pfs.Mds.Recovery.Loading.{dirent_key-text_eq}
use kube_pfs.Mds.Recovery.Saved.{persist_create-get, persist_unlink-get}
use kube_pfs.Mds.State.{Service, Clock, bucket_inodes, bucket_dirents, child}
use kube_pfs.Mds.Tree.Cut.{child-unlink_inode, lookup-unlink_inode, no_children}
use kube_pfs.Mds.Tree.Handlers.{HasTree}
use kube_pfs.Mds.Tree.Link.{child-link_inode, lookup-link_inode}
use kube_pfs.Mds.Unlink.{unlink}
use kube_pfs.Mds.Unlink.Effect as UnlinkEffect
use kube_pfs.Mds.Unlink.Effect.{Target, cut, unlink-Effect}
use kube_pfs.Proto.Metadata.{
  Inode, StripeLayout, CreateRequest, create_request_get, CreateResponse, UnlinkRequest,
  unlink_request_get, UnlinkResponse,
}
use kube_pfs.Status.{Result, err, internal}
use kube_pfs.Table.{lookup}
use kube_pfs.Text.{Text, codes, text_eq, text_eq_iff}
use kube_pfs.Text.Decimal.{decimal, decimal-IsDigit, IsDigit}
use kube_pfs.Text.Search.{contains, Lacks-contains}

inode_id_at_plain : (clock : Clock) → contains 0 (inode_id_at clock) ≡ false
inode_id_at_plain clock =
    let digits =
      All-imp IsDigit (λ c. c ≢ 0) (λ c h. omega arith) (decimal clock.unix_nano)
        (decimal-IsDigit clock.unix_nano) in
    Lacks-contains 0 (inode_id_at clock)
      (All-append (λ c. c ≢ 0) (codes "inode-") (decimal clock.unix_nano) (omega arith) digits)

module _ (backend : Backend) (s : Service backend.Db) (tree : HasTree s)
    (stored : IsStored backend s) where
  open backend use {get, unmarshal-marshal}

  -- A key without an inode has no entries, and one with an inode has no NUL.
  no_entries : (k n : Text) → lookup k s.inodes ≡ none → child k n s.dirents ≡ none
  unfolding lookup
  no_entries k n gone = elim (Option-cases (lookup k s.dirents)) [
    | inl e ↦ ground (arith, e)
    | inr (m, e) ↦ absurd (rw gone at (tree.under_dir k m e))
  ]

  plain_parent : (p n k : Text) → child p n s.dirents ≡ some k → contains 0 p ≡ false
  plain_parent p n k entry = elim (Option-cases (lookup p s.inodes)) [
    | inl e ↦ absurd (ground (arith, no_entries p n e))
    | inr (i, e) ↦ stored.plain_id p i e
  ]

  module _ (clock : Clock) (req : CreateRequest) (parent : Inode) (layout : StripeLayout)
      (passes : Passes req s.inodes s.dirents parent)
      (fresh : lookup (inode_id_at clock) s.inodes ≡ none) where
    abbrev new : Inode
    new = inode backend clock s tree req parent layout passes fresh

    abbrev saved : Service backend.Db
    saved = record (linked backend clock s tree req parent layout passes fresh) {
      db = (persist_create backend new s.db).1;
    }

    own : parent.inode_id ≡ req.parent_inode_id
    own = tree.own_id req.parent_inode_id parent passes.there

    saved-IsStored : (persist_create backend new s.db).0 ≡ none → IsStored backend saved
    unfolding text_eq new_inode
    saved-IsStored kept =
        let (v, encoded, after) = persist_create-get backend new s.db kept in
        let found = lookup-link_inode parent new (staged backend clock s) in
        let plain_new = inode_id_at_plain clock in
        let plain_parent = stored.plain_id req.parent_inode_id parent passes.there in
        record {
          inode_copy = λ k. elim (Bool-cases (text_eq (inode_id_at clock) k)) [
            | inl same ↦
                let here : lookup k saved.inodes ≡ some new = ground (arith, found k) in
                let there : get bucket_inodes k saved.db ≡ some v =
                  ground (arith, after bucket_inodes k) in
                rw (here, there) (unmarshal-marshal new v encoded)
            | inr apart ↦
                let here : lookup k saved.inodes ≡ lookup k s.inodes = ground (arith, found k) in
                let there : get bucket_inodes k saved.db ≡ get bucket_inodes k s.db =
                  ground (arith, after bucket_inodes k) in
                rw (here, there) (stored.inode_copy k)
          ];
          entry_copy = λ p n plain. ground (
            arith,
            after bucket_dirents (dirent_key p n),
            child-link_inode parent new (staged backend clock s) p n,
            dirent_key-text_eq parent.inode_id req.name p n (rw own plain_parent) plain,
            stored.entry_copy p n plain,
            no_entries (inode_id_at clock) n fresh,
            own,
            passes.there,
            fresh,
            text_eq_iff (inode_id_at clock) p,
            text_eq_iff parent.inode_id p,
          );
          plain_id = λ k i there.
              ground
                (arith, found k, stored.plain_id k i, plain_new, text_eq_iff (inode_id_at clock) k);
        }

  unchanged :
      (t : Service backend.Db)
      → t.inodes ≡ s.inodes
      → t.dirents ≡ s.dirents
      → t.db ≡ s.db
      → IsStored backend t
  unchanged t inodes dirents db = record {
    inode_copy = λ k. rw (inodes, db) (stored.inode_copy k);
    entry_copy = λ p n plain. rw (dirents, db) (stored.entry_copy p n plain);
    plain_id = λ k i. rw inodes (stored.plain_id k i);
  }

  create_kept :
      (clock : Clock) (request : Option CreateRequest)
      → lookup (inode_id_at clock) s.inodes ≡ none
      → {r : Result CreateResponse} {t : Service backend.Db} → ((m : Text) → r ≢ err internal m)
      → Effect.Effect backend clock s (create_request_get request) r t
      → IsStored backend t
  create_kept clock request fresh sound (Effect.refused c m _ _ e) =
      rw e (unchanged (observed clock s) refl refl refl)
  create_kept clock request fresh sound (Effect.broke parent _ _ _ e) =
      rw e (unchanged (staged backend clock s) refl refl refl)
  create_kept clock request fresh sound (Effect.unsaved parent inode layout m p i _ e _) =
      absurd (sound _ e)
  create_kept clock request fresh sound (Effect.stored parent inode layout p _ i kept _ e) =
      rw (e, i)
        (saved-IsStored clock (create_request_get request) parent layout p fresh (rw i at kept))

  -- The database agrees with the maps behind a Create that answers no internal error. It agrees
  -- with them before, the maps are a tree, and the new id was not in use.
  pub create-IsStored :
      (clock : Clock) (request : Option CreateRequest)
      → lookup (inode_id_at clock) s.inodes ≡ none
      → ((m : Text) → (create backend clock request s).0 ≢ err internal m)
      → IsStored backend (create backend clock request s).1
  create-IsStored clock request fresh sound =
      create_kept clock request fresh sound (create-Effect backend clock s request)

  module _ (clock : Clock) (req : UnlinkRequest) (id : Text) (inode : Inode)
      (target : Target backend clock s req id inode) where
    abbrev cleared : Service backend.Db
    cleared = record (cut backend clock s req inode) {
      db = (persist_unlink backend req.parent_inode_id req.name inode.inode_id s.db).1;
    }

    own_id : inode.inode_id ≡ id
    own_id = tree.own_id id inode target.there

    cleared-IsStored :
        (persist_unlink backend req.parent_inode_id req.name inode.inode_id s.db).0 ≡ none
        → IsStored backend cleared
    unfolding text_eq
    cleared-IsStored kept =
        let after =
          persist_unlink-get backend req.parent_inode_id req.name inode.inode_id s.db kept in
        let found = lookup-unlink_inode req.parent_inode_id req.name inode (observed clock s) in
        let empty =
          no_children req.parent_inode_id req.name inode (observed clock s) tree
            (cc (own_id, target.entry)) (cc (own_id, target.there)) target.empty in
        record {
          inode_copy = λ k. elim (Bool-cases (text_eq inode.inode_id k)) [
            | inl same ↦
                let here : lookup k cleared.inodes ≡ none = ground (arith, found k) in
                let there : get bucket_inodes k cleared.db ≡ none =
                  ground (arith, after bucket_inodes k) in
                rw (here, there) tt
            | inr apart ↦
                let here : lookup k cleared.inodes ≡ lookup k s.inodes = ground (arith, found k) in
                let there : get bucket_inodes k cleared.db ≡ get bucket_inodes k s.db =
                  ground (arith, after bucket_inodes k) in
                rw (here, there) (stored.inode_copy k)
          ];
          entry_copy = λ p n plain. ground (
            arith,
            after bucket_dirents (dirent_key p n),
            child-unlink_inode req.parent_inode_id req.name inode (observed clock s) p n,
            dirent_key-text_eq req.parent_inode_id req.name p n
                (plain_parent req.parent_inode_id req.name id target.entry) plain,
            stored.entry_copy p n plain,
            empty n,
            text_eq_iff inode.inode_id p,
          );
          plain_id = λ k i there. ground (arith, found k, stored.plain_id k i);
        }

  unlink_kept :
      (clock : Clock) (req : UnlinkRequest) {r : Result UnlinkResponse} {t : Service backend.Db}
      → ((m : Text) → r ≢ err internal m)
      → UnlinkEffect.Effect backend clock s req r t
      → IsStored backend t
  unlink_kept clock req sound (UnlinkEffect.no_parent _ _ e) =
      rw e (unchanged (observed clock s) refl refl refl)
  unlink_kept clock req sound (UnlinkEffect.no_entry _ _ e) =
      rw e (unchanged (observed clock s) refl refl refl)
  unlink_kept clock req sound (UnlinkEffect.dangling _ _ _ _ e) =
      rw e (unchanged (observed clock s) refl refl refl)
  unlink_kept clock req sound (UnlinkEffect.not_empty _ _ _ _ _ _ _ e) =
      rw e (unchanged (observed clock s) refl refl refl)
  unlink_kept clock req sound (UnlinkEffect.unsaved _ _ _ _ _ e _) = absurd (sound _ e)
  unlink_kept clock req sound (UnlinkEffect.removed id inode target kept _ e) =
      rw e (cleared-IsStored clock req id inode target kept)

  -- The database agrees with the maps behind an Unlink that answers no internal error. It agrees
  -- with them before, and the maps are a tree.
  pub unlink-IsStored :
      (clock : Clock) (request : Option UnlinkRequest)
      → ((m : Text) → (unlink backend clock request s).0 ≢ err internal m)
      → IsStored backend (unlink backend clock request s).1
  unlink-IsStored clock request sound =
      unlink_kept clock (unlink_request_get request) sound (unlink-Effect backend clock s request)
