-- ===== src/Mds/Namespace/Added.antt =====
-- `Create` of pkg/mds/service.go, as a later `Lookup` or `Stat` shows it.
use kube_pfs.Base.{◌≡◌, ◌≢◌, ◌∙◌, sym, ap, ◌⊎◌, Option, none, some}
use kube_pfs.Mds.Backend.{Backend}
use kube_pfs.Mds.Create.{create, link_inode, new_inode, inode_id_at, clone_inode}
use kube_pfs.Mds.Create.Effect
use kube_pfs.Mds.Create.Effect.{Passes, staged, check_create-ne-internal, create-Effect}
use kube_pfs.Mds.Namespace.{
  at_name, at_id, resolve, look_up-child, linked, child-linked, lookup-linked, resolve-linked_ne,
}
use kube_pfs.Mds.Query.{look_up, stat}
use kube_pfs.Mds.State.{Service, Clock}
use kube_pfs.Mds.Tree.Handlers.{HasTree}
use kube_pfs.Proto.Metadata.{Inode, StripeLayout, CreateRequest, create_request_get, CreateResponse}
use kube_pfs.Status.{Result, ok, ok-injective, err, internal}
use kube_pfs.Table.{lookup}
use kube_pfs.Text.{Text}

module _ (backend : Backend) (clock : Clock) (request : Option CreateRequest)
    (s : Service backend.Db) (tree : HasTree s)
    (fresh : lookup (inode_id_at clock) s.inodes ≡ none) where
  abbrev req : CreateRequest
  req = create_request_get request

  abbrev after : Service backend.Db
  after = (create backend clock request s).1

  shown :
      (parent inode : Inode) (layout : StripeLayout) {t : Service backend.Db}
      → Passes req s.inodes s.dirents parent
      → inode ≡ new_inode clock req parent layout (staged backend clock s)
      → (d : backend.Db) → t ≡ record (link_inode parent inode (staged backend clock s)) { db = d }
      → (later : Clock)
      → ((look_up backend later (at_name req.parent_inode_id req.name) t).0
          ≡ ok (record { inode = clone_inode backend (some inode) }))
        × ((stat backend later (at_id (inode_id_at clock)) t).0
            ≡ ok (record { inode = clone_inode backend (some inode) }))
  shown parent inode layout passes i d e later =
      rw (e, i)
        (look_up-child backend
          (record (linked backend clock s tree req parent layout passes fresh) { db = d })
          req.parent_inode_id req.name (inode_id_at clock)
          (new_inode clock req parent layout (staged backend clock s)) later
          (child-linked backend clock s tree req parent layout passes fresh)
          (lookup-linked backend clock s tree req parent layout passes fresh))

  created :
      (later : Clock) {r : Result CreateResponse} {t : Service backend.Db} (resp : CreateResponse)
      → r ≡ ok resp
      → Effect.Effect backend clock s req r t
      → ((look_up backend later (at_name req.parent_inode_id req.name) t).0
          ≡ ok (record { inode = resp.inode }))
        × ((stat backend later (at_id (inode_id_at clock)) t).0
            ≡ ok (record { inode = resp.inode }))
  created later resp h (Effect.refused _ _ _ e _) = absurd (cc (h, e))
  created later resp h (Effect.broke _ _ _ e _) = absurd (cc (h, e))
  created later resp h (Effect.unsaved _ _ _ _ _ _ _ e _) = absurd (cc (h, e))
  created later resp h (Effect.stored parent inode layout p _ i _ e t) =
      let same = ap (λ (c : CreateResponse). c.inode) (ok-injective (sym h ∙ e)) in
      let (found, known) = shown parent inode layout p i _ t later in
      (cc (found, same), cc (known, same))

  -- After a successful Create, Lookup of the parent and the name answers the inode that Create
  -- answered, and so does Stat of the new id. The maps are a tree, and the new id was not in use.
  pub create-look_up :
      (later : Clock) (resp : CreateResponse)
      → (create backend clock request s).0 ≡ ok resp
      → ((look_up backend later (at_name req.parent_inode_id req.name) after).0
          ≡ ok (record { inode = resp.inode }))
        × ((stat backend later (at_id (inode_id_at clock)) after).0
            ≡ ok (record { inode = resp.inode }))
  create-look_up later resp h = created later resp h (create-Effect backend clock s request)

  unsaved :
      (later : Clock) {r : Result CreateResponse} {t : Service backend.Db} (m : Text)
      → r ≡ err internal m
      → Effect.Effect backend clock s req r t
      → (i : Inode) × ((look_up backend later (at_name req.parent_inode_id req.name) t).0
          ≡ ok (record { inode = clone_inode backend (some i) }))
  unsaved later m h (Effect.refused c k refusal e _) =
      absurd (check_create-ne-internal backend clock s req c k m refusal (sym e ∙ h))
  unsaved later m h (Effect.broke _ _ _ e _) = absurd (cc (h, e))
  unsaved later m h (Effect.unsaved parent inode layout _ p i _ e t) =
      (inode, (shown parent inode layout p i _ t later).0)
  unsaved later m h (Effect.stored _ _ _ _ _ _ _ e _) = absurd (cc (h, e))

  -- A Create that answers an internal error, since its transaction failed, has added the entry all
  -- the same: a later Lookup finds it. The maps are a tree, and the new id was not in use.
  pub create_unsaved-look_up :
      (later : Clock) (m : Text)
      → (create backend clock request s).0 ≡ err internal m
      → (i : Inode) × ((look_up backend later (at_name req.parent_inode_id req.name) after).0
          ≡ ok (record { inode = clone_inode backend (some i) }))
  create_unsaved-look_up later m h = unsaved later m h (create-Effect backend clock s request)

  kept_elsewhere :
      {r : Result CreateResponse} {t : Service backend.Db}
      → Effect.Effect backend clock s req r t
      → (p n : Text) → (p ≢ req.parent_inode_id) ⊎ (n ≢ req.name)
      → resolve p n t ≡ resolve p n s
  kept_elsewhere (Effect.refused _ _ _ _ e) p n _ = rw e
  kept_elsewhere (Effect.broke _ _ _ _ e) p n _ = rw e
  kept_elsewhere (Effect.unsaved parent inode layout _ q i _ _ e) p n other =
      rw (e, i) (resolve-linked_ne backend clock s tree req parent layout q fresh p n other)
  kept_elsewhere (Effect.stored parent inode layout q _ i _ _ e) p n other =
      rw (e, i) (resolve-linked_ne backend clock s tree req parent layout q fresh p n other)

  -- Whatever Create answers, every other name, in the same directory or in another one, leads to
  -- the inode that it led to before. The maps are a tree, and the new id was not in use.
  pub resolve-create_ne :
      (p n : Text) → (p ≢ req.parent_inode_id) ⊎ (n ≢ req.name) → resolve p n after ≡ resolve p n s
  resolve-create_ne = kept_elsewhere (create-Effect backend clock s request)
