-- ===== src/Mds/Recovery/Failed.antt =====
-- `Create` and `Unlink` of pkg/mds/service.go that answer an error, and a restart behind them.
use kube_pfs.Base.{ℕ, ◌≡◌, ◌≢◌, true, Option, some, arith, Fallible, done, inl, inr, Fallible-cases}
use kube_pfs.Mds.Backend.{Backend, update}
use kube_pfs.Mds.Create.{create}
use kube_pfs.Mds.Create.Effect
use kube_pfs.Mds.Create.Effect.{create-Effect}
use kube_pfs.Mds.Load.{new_service}
use kube_pfs.Mds.Namespace.Undone.{SameMaps}
use kube_pfs.Mds.Persist.{create_tx, persist_create, unlink_tx, persist_unlink}
use kube_pfs.Mds.Recovery.{IsStored}
use kube_pfs.Mds.Recovery.Restart.{new_service-restored}
use kube_pfs.Mds.State.{Config, Service, Clock}
use kube_pfs.Mds.Tree.Handlers.{HasTree}
use kube_pfs.Mds.Unlink.{unlink, answer}
use kube_pfs.Mds.Unlink.Effect as UnlinkEffect
use kube_pfs.Mds.Unlink.Effect.{unlink-Effect}
use kube_pfs.Proto.Metadata.{Inode, CreateRequest, CreateResponse, UnlinkRequest, UnlinkResponse}
use kube_pfs.Status.{Result, ok}
use kube_pfs.Text.{Text}

module _ (backend : Backend) where
  open backend use {Db, commit}

  update-failed :
      (f : Db → Fallible Db) (d : Db) (m : Text)
      → (update backend f d).0 ≡ some m
      → (update backend f d).1 ≡ d
  update-failed f d m h = elim (Fallible-cases (f d)) [
    | inr (e, g) ↦ ground (arith, g)
    | inl (d₁, g) ↦ elim (Fallible-cases (commit d₁)) [
      | inr (e, k) ↦ ground (arith, g, k)
      | inl (d₂, k) ↦ absurd (ground (arith, g, k, h))
    ]
  ]

  persist_create-failed :
      (i : Inode) (d : Db) (m : Text)
      → (persist_create backend i d).0 ≡ some m
      → (persist_create backend i d).1 ≡ d
  unfolding persist_create
  persist_create-failed i = update-failed (create_tx backend i)

  persist_unlink-failed :
      (parent name id : Text) (d : Db) (m : Text)
      → (persist_unlink backend parent name id d).0 ≡ some m
      → (persist_unlink backend parent name id d).1 ≡ d
  unfolding persist_unlink
  persist_unlink-failed parent name id = update-failed (unlink_tx backend parent name id)

  module _ (clock : Clock) (s : Service Db) where
    created-same :
        (req : CreateRequest) {r : Result CreateResponse} {t : Service Db}
        → ((resp : CreateResponse) → r ≢ ok resp)
        → Effect.Effect backend clock s req r t
        → t.db ≡ s.db
    created-same req bad (Effect.refused _ _ _ _ e) = rw e
    created-same req bad (Effect.broke _ _ _ _ e) = rw e
    created-same req bad (Effect.unsaved _ i _ m _ _ failed _ e) =
        rw e (persist_create-failed i s.db m failed)
    created-same req bad (Effect.stored _ _ _ _ _ _ _ e _) = absurd (bad _ e)

    unlinked-same :
        (req : UnlinkRequest) {r : Result UnlinkResponse} {t : Service Db}
        → r ≢ answer true
        → UnlinkEffect.Effect backend clock s req r t
        → t.db ≡ s.db
    unlinked-same req bad (UnlinkEffect.no_parent _ _ e) = rw e
    unlinked-same req bad (UnlinkEffect.no_entry _ _ e) = rw e
    unlinked-same req bad (UnlinkEffect.dangling _ _ _ _ e) = rw e
    unlinked-same req bad (UnlinkEffect.not_empty _ _ _ _ _ _ _ e) = rw e
    unlinked-same req bad (UnlinkEffect.unsaved _ inode m _ failed _ e) =
        rw e (persist_unlink-failed req.parent_inode_id req.name inode.inode_id s.db m failed)
    unlinked-same req bad (UnlinkEffect.removed _ _ _ _ e _) = absurd (bad e)

  -- A Create that does not succeed, or an Unlink that does not answer `deleted`.
  pub data Failing (s : Service Db) : Service Db → Type 0 where
    creates :
        (clock : Clock) (request : Option CreateRequest)
        → ((resp : CreateResponse) → (create backend clock request s).0 ≢ ok resp)
        → Failing s (create backend clock request s).1
    unlinks :
        (clock : Clock) (request : Option UnlinkRequest)
        → (unlink backend clock request s).0 ≢ answer true
        → Failing s (unlink backend clock request s).1

  Failing-same : (s u : Service Db) → Failing s u → u.db ≡ s.db
  Failing-same s u (creates clock request bad) =
      created-same clock s _ bad (create-Effect backend clock s request)
  Failing-same s u (unlinks clock request bad) =
      unlinked-same clock s _ bad (unlink-Effect backend clock s request)

  -- A service that NewService answers for the database behind a Create that does not succeed, or an
  -- Unlink that does not answer `deleted`, has the same inode for each id, and the same id for each
  -- name in each directory, as the service before the request, also where the request has changed
  -- the maps in memory. The maps were a tree before it, and the database agreed with them.
  pub new_service-Failing :
      (s u t : Service Db) (now : ℕ) (config : Config)
      → HasTree s
      → IsStored backend s
      → Failing s u
      → new_service backend now config (done u.db) ≡ done t
      → SameMaps s t
  new_service-Failing s u t now config tree stored failing h =
      new_service-restored backend now config s tree stored t (rw (Failing-same s u failing) at h)
