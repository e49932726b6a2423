-- ===== src/Mds/Create/Total.antt =====
-- When `Create` of pkg/mds/service.go succeeds, and what `Create` and `Unlink` do to the counter of
-- the stripe layouts.
use kube_pfs.Base.{
  ◌+◌, ◌≤◌, ◌<◌, ◌^◌, ◌≡◌, refl, ap, false, true, Option, none, some, [], arith, inl, inr,
  Option-cases, ◌==◌, length, Bool-cases, ◌%◌, ◌-◌,
}
use kube_pfs.Mds.Backend.{Backend}
use kube_pfs.Mds.Create.{create, check_create, link_inode, clone_inode}
use kube_pfs.Mds.Create.Effect
use kube_pfs.Mds.Create.Effect.{Passes, waited, staged, create-Effect}
use kube_pfs.Mds.Persist.{persist_create, persist_unlink}
use kube_pfs.Mds.State.{Service, Clock, child, root_inode_id}
use kube_pfs.Mds.Stripe.{next_stripe_layout, stripe_start, rotation}
use kube_pfs.Mds.Tree.Handlers.{HasTree}
use kube_pfs.Mds.Unlink.{unlink, unlink_inode}
use kube_pfs.Mds.Unlink.Effect as UnlinkEffect
use kube_pfs.Mds.Unlink.Effect.{unlink-Effect}
use kube_pfs.Proto.Metadata.{
  Inode, StripeLayout, CreateRequest, CreateResponse, UnlinkRequest, UnlinkResponse,
  unlink_request_get,
}
use kube_pfs.Status.{Result, ok}
use kube_pfs.Table.{lookup}
use kube_pfs.Text.{Text, text_eq}
use kube_pfs.Text.Search.{contains}

next_stripe_layout-ok :
    {Db : Type 0} (s : Service Db)
    → s.rr < 2 ^ 63
    → ((layout : StripeLayout) × ((next_stripe_layout s).0 ≡ ok layout))
      × ((next_stripe_layout s).1 ≤ s.rr + 1)
unfolding next_stripe_layout stripe_start
next_stripe_layout-ok s h =
    let before : ((s.rr + 1) % 2 ^ 64 + 2 ^ 64 - 1) % 2 ^ 64 ≡ s.rr = omega arith in
    let after : (s.rr + 1) % 2 ^ 64 ≡ s.rr + 1 = omega arith in
    elim (Bool-cases (length s.ost_ids == 0)) [
      | inl e ↦ rw e ((_, refl), omega arith)
      | inr e ↦
          let ids = s.ost_ids in
          let layout : StripeLayout = record {
            stripe_size_bytes = s.stripe_sz;
            ost_ids = rotation ids (s.rr % length ids) 0 (length ids);
          } in
          let whole : next_stripe_layout s ≡ (ok layout, s.rr + 1) =
            ground (arith, e, before, after, h) in
          ((layout, ap (λ r. r.0) whole), rw whole (omega arith))
    ]

module _ (backend : Backend) (clock : Clock) (s : Service backend.Db) (tree : HasTree s)
    (small : s.rr < 2 ^ 63) (IsReady : backend.Db → Type 0)
    (saves : (i : Inode) (d : backend.Db)
      → IsReady d
      → ((persist_create backend i d).0 ≡ none) × IsReady (persist_create backend i d).1)
    (ready : IsReady s.db) where
  module _ (req : CreateRequest) (at_root : req.parent_inode_id ≡ root_inode_id)
      (named : text_eq req.name [] ≡ false) (plain : contains b'/' req.name ≡ false)
      (free : child root_inode_id req.name s.dirents ≡ none) where
    checked : (parent : Inode) × (check_create req (waited backend clock s) ≡ ok parent)
    unfolding check_create text_eq
    checked = elim (Option-cases (lookup root_inode_id s.inodes)) [
      | inl e ↦ absurd (rw e at tree.root_dir)
      | inr (i, e) ↦
          let dir : i.is_dir ≡ true = (rw e at tree.root_dir) in
          let own = tree.own_id root_inode_id i e in
          (i, ground (arith, e, dir, own, at_root, named, plain, free))
    ]

    answered :
        {r : Result CreateResponse} {t : Service backend.Db}
        → Effect.Effect backend clock s req r t
        → (resp : CreateResponse) × (file : Inode) × (r ≡ ok resp)
          × (resp.inode ≡ some file)
          × (t.rr ≤ s.rr + 1)
          × IsReady t.db
    unfolding link_inode
    answered (Effect.refused c m e _ _) = absurd (let (p, f) = checked in cc (e, f))
    answered (Effect.broke _ _ e _ _) =
        absurd
          (let ((layout, f), _) = next_stripe_layout-ok (waited backend clock s) small in cc (e, f))
    answered (Effect.unsaved parent i layout m _ _ e _ _) = absurd (cc (e, (saves i s.db ready).0))
    answered (Effect.stored parent i layout _ _ _ _ e f) =
        let (_, more) = next_stripe_layout-ok (waited backend clock s) small in
        (
          record { inode = clone_inode backend (some i) },
          backend.clone i,
          e,
          refl,
          rw f more,
          rw f (saves i s.db ready).1,
        )

    -- Create of a plain name that the root does not hold answers an inode.
    pub create-succeeds :
        (resp : CreateResponse) × (file : Inode) × ((create backend clock (some req) s).0 ≡ ok resp)
        × (resp.inode ≡ some file)
        × ((create backend clock (some req) s).1.rr ≤ s.rr + 1)
        × IsReady (create backend clock (some req) s).1.db
    create-succeeds = answered (create-Effect backend clock s (some req))

module _ (backend : Backend) (clock : Clock) (s : Service backend.Db)
    (IsReady : backend.Db → Type 0)
    (keeps : (parent name id : Text) (d : backend.Db)
      → IsReady d
      → IsReady (persist_unlink backend parent name id d).1)
    (ready : IsReady s.db) where
  -- The counter is kept, and the database stays ready.
  abbrev pub IsKept : Service backend.Db → Type 0
  IsKept t = (t.rr ≡ s.rr) × IsReady t.db

  kept :
      (req : UnlinkRequest) {r : Result UnlinkResponse} {t : Service backend.Db}
      → UnlinkEffect.Effect backend clock s req r t
      → IsKept t
  unfolding unlink_inode
  kept req (UnlinkEffect.no_parent _ _ e) = rw e (refl, ready)
  kept req (UnlinkEffect.no_entry _ _ e) = rw e (refl, ready)
  kept req (UnlinkEffect.dangling _ _ _ _ e) = rw e (refl, ready)
  kept req (UnlinkEffect.not_empty _ _ _ _ _ _ _ e) = rw e (refl, ready)
  kept req (UnlinkEffect.unsaved _ _ _ _ _ _ e) = rw e (refl, keeps _ _ _ s.db ready)
  kept req (UnlinkEffect.removed _ _ _ _ _ e) = rw e (refl, keeps _ _ _ s.db ready)

  pub unlink-IsKept : (request : Option UnlinkRequest) → IsKept (unlink backend clock request s).1
  unlink-IsKept request = kept (unlink_request_get request) (unlink-Effect backend clock s request)
