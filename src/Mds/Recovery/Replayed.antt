-- ===== src/Mds/Recovery/Replayed.antt =====
-- Histories of requests to pkg/mds/service.go with restarts between them, as a client replays the
-- answers on a map of names.
use kube_pfs.Base.{
  ℕ, done, fail, ◌≡◌, ◌≢◌, ◌∙◌, refl, sym, inl, inr, Option, none, List, [], ◌∷◌, arith,
  Option-cases,
}
use kube_pfs.Mds.Backend.{Backend}
use kube_pfs.Mds.Create.{create, inode_id_at}
use kube_pfs.Mds.Create.Effect.{create-Effect}
use kube_pfs.Mds.Namespace.{at_name, resolve}
use kube_pfs.Mds.Namespace.Added.{resolve-create_ne}
use kube_pfs.Mds.Namespace.Removed.{resolve-unlink_ne}
use kube_pfs.Mds.Query.{look_up, stat, list_dir}
use kube_pfs.Mds.State.{Config, Service, Clock, child}
use kube_pfs.Mds.Tree.Handlers.{HasTree}
use kube_pfs.Mds.Unlink.{unlink}
use kube_pfs.Mds.Unlink.Effect.{unlink-Effect}
use kube_pfs.Proto.Metadata.{
  CreateRequest, create_request_get, UnlinkRequest, unlink_request_get, LookupRequest, StatRequest,
  ListDirRequest,
}
use kube_pfs.Status.{err, internal}
use kube_pfs.Table.{lookup}
use kube_pfs.Text.{Text}
use kube_pfs.Mds.Namespace.Told.{created-Agrees, unlinked-Agrees, resolve-Shows}
use kube_pfs.Mds.Namespace.View.{View, after_create, after_unlink, Shows, Agrees}
use kube_pfs.Mds.Load.{new_service}
use kube_pfs.Mds.Namespace.Undone.{SameMaps}
use kube_pfs.Mds.Recovery.{IsStored}
use kube_pfs.Mds.Recovery.Lives
use kube_pfs.Mds.Recovery.Lives.{Step, Step-IsSound, IsSound}
use kube_pfs.Mds.Recovery.Restart.{new_service-restored}

pub data Request : Type 0 where
  creates : Clock → Option CreateRequest → Request
  unlinks : Clock → Option UnlinkRequest → Request
  looks_up : Clock → Option LookupRequest → Request
  stats : Clock → Option StatRequest → Request
  lists : Clock → Option ListDirRequest → Request
  restarts : ℕ → Config → Request

SameMaps-resolve :
    {Db : Type 0} (s t : Service Db) (p n : Text) → SameMaps s t → resolve p n t ≡ resolve p n s
unfolding lookup
SameMaps-resolve s t p n (inodes, dirents) = elim (Option-cases (child p n s.dirents)) [
  | inl e ↦ ground (arith, e, dirents p n)
  | inr (id, e) ↦ ground (arith, e, dirents p n, inodes id)
]

module _ (backend : Backend) where
  open backend use {Db}

  -- A restart is of the service on its own database.
  abbrev pub handle : Request → Service Db → Service Db
  handle (creates clock request) s = (create backend clock request s).1
  handle (unlinks clock request) s = (unlink backend clock request s).1
  handle (looks_up clock request) s = (look_up backend clock request s).1
  handle (stats clock request) s = (stat backend clock request s).1
  handle (lists clock request) s = (list_dir backend clock request s).1
  handle (restarts now config) s = elim (new_service backend now config (done s.db)) [
    | done t ↦ t
    | fail e ↦ s
  ]

  abbrev pub serve : List Request → Service Db → Service Db
  serve [] s = s
  serve (request ∷ requests) s = serve requests (handle request s)

  -- The view behind a request, by its answer.
  abbrev pub told : Request → Service Db → View → View
  told (creates clock request) s view =
      after_create (create_request_get request) (create backend clock request s).0 view
  told (unlinks clock request) s view =
      after_unlink (unlink_request_get request) (unlink backend clock request s).0 view
  told (looks_up clock request) s view = view
  told (stats clock request) s view = view
  told (lists clock request) s view = view
  told (restarts now config) s view = view

  abbrev pub replay : List Request → Service Db → View → View
  replay [] s view = view
  replay (request ∷ requests) s view = replay requests (handle request s) (told request s view)

  -- A Create reads a time that no inode was made at, no transaction fails, and a restart succeeds.
  abbrev pub IsFine : Request → Service Db → Type 0
  IsFine (creates clock request) s =
      (lookup (inode_id_at clock) s.inodes ≡ none)
      × ((m : Text) → (create backend clock request s).0 ≢ err internal m)
  IsFine (unlinks clock request) s =
      (m : Text) → (unlink backend clock request s).0 ≢ err internal m
  IsFine (restarts now config) s =
      (t : Service Db) × (new_service backend now config (done s.db) ≡ done t)
  IsFine _ s = Unit

  abbrev pub AreFine : List Request → Service Db → Type 0
  AreFine [] s = Unit
  AreFine (request ∷ requests) s = IsFine request s × AreFine requests (handle request s)

  handle-Step :
      (request : Request) (s : Service Db) → IsFine request s → Step backend s (handle request s)
  unfolding look_up stat list_dir
  handle-Step (creates clock request) s (fresh, fine) = Lives.creates clock request fresh fine
  handle-Step (unlinks clock request) s fine = Lives.unlinks clock request fine
  handle-Step (looks_up clock request) s fine = Lives.looks_up clock request
  handle-Step (stats clock request) s fine = Lives.stats clock request
  handle-Step (lists clock request) s fine = Lives.lists clock request
  handle-Step (restarts now config) s (t, h) = rw (h, handle) (Lives.restarts now config t h)

  handle-Agrees :
      (request : Request) (s : Service Db) (view : View)
      → IsSound backend s
      → IsFine request s
      → Agrees view s
      → Agrees (told request s view) (handle request s)
  unfolding look_up stat list_dir
  handle-Agrees (creates clock request) s view (tree, _) (fresh, fine) agrees =
      created-Agrees backend clock s tree view agrees (create_request_get request) fresh fine
        (resolve-create_ne backend clock request s tree fresh)
        (create-Effect backend clock s request)
  handle-Agrees (unlinks clock request) s view (tree, _) fine agrees =
      unlinked-Agrees backend clock s tree view agrees (unlink_request_get request) fine
        (resolve-unlink_ne backend clock request s tree) (unlink-Effect backend clock s request)
  handle-Agrees (looks_up clock request) s view sound fine agrees = agrees
  handle-Agrees (stats clock request) s view sound fine agrees = agrees
  handle-Agrees (lists clock request) s view sound fine agrees = agrees
  handle-Agrees (restarts now config) s view (tree, stored) (t, h) agrees =
      let (inodes, dirents) = new_service-restored backend now config s tree stored t h in
      λ p n. rw (h, handle) (SameMaps-resolve s t p n (inodes, dirents) ∙ agrees p n)

  serve-Agrees :
      (requests : List Request) (s : Service Db) (view : View)
      → IsSound backend s
      → AreFine requests s
      → Agrees view s
      → HasTree (serve requests s) × Agrees (replay requests s view) (serve requests s)
  serve-Agrees [] s view (tree, _) fine agrees = (tree, agrees)
  serve-Agrees (request ∷ requests) s view sound (one, more) agrees =
      serve-Agrees requests (handle request s) (told request s view)
        (Step-IsSound backend s _ (handle-Step request s one) sound) more
        (handle-Agrees request s view sound one agrees)

  -- After any requests of all kinds with restarts anywhere between them, a Lookup answers what a
  -- client has on its map of names who starts with the names that lead to an inode, puts in the
  -- inode that a Create answers and takes out the name of an Unlink that answers `deleted`. At the
  -- start the maps are a tree and the database agrees with them; no transaction of a request fails,
  -- every restart succeeds, and no Create reads a time at which an inode that is still there was
  -- made.
  pub look_up-replay :
      (requests : List Request) (s : Service Db) (later : Clock) (p n : Text)
      → HasTree s
      → IsStored backend s
      → AreFine requests s
      → Shows
          (replay requests s (λ q m. resolve q m s) p n)
          (look_up backend later (at_name p n) (serve requests s)).0
  look_up-replay requests s later p n tree stored fine =
      let (kept, agrees) =
        serve-Agrees requests s (λ q m. resolve q m s) (tree, stored) fine (λ q m. refl) in
      rw (sym (agrees p n)) (resolve-Shows backend (serve requests s) later p n kept)
