-- ===== src/Mds/Namespace/Told.antt =====
-- What the answers of `Create`, `Unlink` and `Lookup` of pkg/mds/service.go tell of the map of names.
use kube_pfs.Base.{◌≡◌, ◌≢◌, ◌⊎◌, inl, inr, none, some, Option-cases}
use kube_pfs.Mds.Backend.{Backend}
use kube_pfs.Mds.Create.{inode_id_at, clone_inode, new_inode}
use kube_pfs.Mds.Create.Effect
use kube_pfs.Mds.Create.Effect.{create-Effect, staged}
use kube_pfs.Mds.Namespace.{
  at_name, resolve, look_up-child, look_up_missing, linked, child-linked, lookup-linked,
}
use kube_pfs.Mds.Namespace.Removed.{child-gone}
use kube_pfs.Mds.Query.{look_up}
use kube_pfs.Mds.State.{Service, Clock, child}
use kube_pfs.Mds.Tree.Handlers.{HasTree}
use kube_pfs.Mds.Unlink.Effect as UnlinkEffect
use kube_pfs.Mds.Unlink.Effect.{cut, unlink-Effect}
use kube_pfs.Proto.Metadata.{CreateRequest, CreateResponse, UnlinkRequest, UnlinkResponse}
use kube_pfs.Status.{Result, err, internal}
use kube_pfs.Table.{lookup}
use kube_pfs.Text.{Text}
use kube_pfs.Mds.Namespace.View.{
  View, after_create, after_unlink, Shows, Agrees, set_view-Agrees, resolve-child, resolve_missing,
}

module _ (backend : Backend) where
  open backend use {Db}

  module _ (clock : Clock) (s : Service Db) (tree : HasTree s) (view : View)
      (agrees : Agrees view s) where
    pub created-Agrees :
        (req : CreateRequest) {r : Result CreateResponse} {t : Service Db}
        → lookup (inode_id_at clock) s.inodes ≡ none
        → ((m : Text) → r ≢ err internal m)
        → ((p n : Text)
            → (p ≢ req.parent_inode_id) ⊎ (n ≢ req.name)
            → resolve p n t ≡ resolve p n s)
        → Effect.Effect backend clock s req r t
        → Agrees (after_create req r view) t
    created-Agrees req fresh fine elsewhere (Effect.refused _ _ _ e f) = rw (e, f) agrees
    created-Agrees req fresh fine elsewhere (Effect.broke _ _ _ e f) = rw (e, f) agrees
    created-Agrees req fresh fine elsewhere (Effect.unsaved _ _ _ m _ _ _ e _) = absurd (fine _ e)
    created-Agrees req {t = t} fresh fine elsewhere
          (Effect.stored parent inode layout p _ i _ e f) =
        let entry = child-linked backend clock s tree req parent layout p fresh in
        let there = lookup-linked backend clock s tree req parent layout p fresh in
        let here : resolve req.parent_inode_id req.name t ≡ clone_inode backend (some inode) =
          rw (f, i, backend.clone_eq (new_inode clock req parent layout (staged backend clock s)))
            (resolve-child (linked backend clock s tree req parent layout p fresh)
              req.parent_inode_id req.name (inode_id_at clock) _ entry there) in
        rw e (
          set_view-Agrees s t view req.parent_inode_id req.name (clone_inode backend (some inode))
            agrees here elsewhere)

    pub unlinked-Agrees :
        (req : UnlinkRequest) {r : Result UnlinkResponse} {t : Service Db}
        → ((m : Text) → r ≢ err internal m)
        → ((p n : Text)
            → (p ≢ req.parent_inode_id) ⊎ (n ≢ req.name)
            → resolve p n t ≡ resolve p n s)
        → UnlinkEffect.Effect backend clock s req r t
        → Agrees (after_unlink req r view) t
    unlinked-Agrees req fine elsewhere (UnlinkEffect.no_parent _ e f) = rw (e, f) agrees
    unlinked-Agrees req fine elsewhere (UnlinkEffect.no_entry _ e f) = rw (e, f) agrees
    unlinked-Agrees req fine elsewhere (UnlinkEffect.dangling _ _ _ e f) = rw (e, f) agrees
    unlinked-Agrees req fine elsewhere (UnlinkEffect.not_empty _ _ _ _ _ _ e f) = rw (e, f) agrees
    unlinked-Agrees req fine elsewhere (UnlinkEffect.unsaved _ _ m _ _ e _) = absurd (fine _ e)
    unlinked-Agrees req {t = t} fine elsewhere (UnlinkEffect.removed id inode target _ e f) =
        let here : resolve req.parent_inode_id req.name t ≡ none = rw f (
          resolve_missing (cut backend clock s req inode) req.parent_inode_id req.name
            (child-gone backend clock (some req) s tree id inode target)) in
        rw e (set_view-Agrees s t view req.parent_inode_id req.name none agrees here elsewhere)

  pub resolve-Shows :
      (s : Service Db) (later : Clock) (p n : Text)
      → HasTree s
      → Shows (resolve p n s) (look_up backend later (at_name p n) s).0
  resolve-Shows s later p n tree = elim (Option-cases (child p n s.dirents)) [
    | inl e ↦ rw (resolve_missing s p n e) (look_up_missing backend s p n later e)
    | inr (id, e) ↦ elim (Option-cases (lookup id s.inodes)) [
      | inl f ↦ absurd (rw f at (tree.linked p n id e))
      | inr (i, f) ↦
          let found = (look_up-child backend s p n id i later e f).0 in
          rw (resolve-child s p n id (some i) e f) (rw (backend.clone_eq i) at found)
    ]
  ]
