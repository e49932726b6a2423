-- ===== src/Mds/Create/Effect.antt =====
-- What `Create` does to the maps: nothing, or one link. Later proofs use this, and not the code.
use kube_pfs.Base.{
  ◌≡◌, ◌≢◌, refl, true, false, Option, none, some, [], ◌++◌, arith, inl, inr, Option-cases,
}
use kube_pfs.Mds.Backend.{Backend}
use kube_pfs.Mds.Create.{check_create, new_inode, link_inode, clone_inode, finish_create, create}
use kube_pfs.Mds.Persist.{persist_create}
use kube_pfs.Mds.State.{Service, Clock, child}
use kube_pfs.Mds.Stripe.{next_stripe_layout}
use kube_pfs.Metrics.{observe_mds_lock_contention}
use kube_pfs.Proto.Metadata.{Inode, StripeLayout, CreateRequest, create_request_get, CreateResponse}
use kube_pfs.Status.{Code, internal, Result, Result-cases, ok, err, panic}
use kube_pfs.Table.{Table, lookup}
use kube_pfs.Text.{Text, codes, text_eq}
use kube_pfs.Text.Search.{contains}

-- A successful check: the parent is a directory, and the name is one that it does not hold yet.
pub record Passes (req : CreateRequest) (inodes : Table Inode) (dirents : Table (Table Text))
    (parent : Inode) : Type 0 where
  pub there : lookup req.parent_inode_id inodes ≡ some parent
  pub dir : parent.is_dir ≡ true
  pub free : child parent.inode_id req.name dirents ≡ none
  pub named : text_eq req.name [] ≡ false
  pub plain : contains b'/' req.name ≡ false

pub check_create-Passes :
    {Db : Type 0} (req : CreateRequest) (s : Service Db) (parent : Inode)
    → check_create req s ≡ ok parent
    → Passes req s.inodes s.dirents parent
unfolding check_create
check_create-Passes req s parent h = ground arith

module _ (backend : Backend) (clock : Clock) (s : Service backend.Db) where
  -- The state once the lock is held.
  abbrev pub waited : Service backend.Db
  waited = record s { metrics = observe_mds_lock_contention clock.wait s.metrics }

  -- The state once the stripe layout is taken.
  abbrev pub staged : Service backend.Db
  staged = record waited { rr = (next_stripe_layout waited).1 }

  -- The four ways in which the handler ends.
  pub data Effect (req : CreateRequest) (r : Result CreateResponse) (t : Service backend.Db)
      : Type 0 where
    -- A test fails: nothing is changed but the metrics.
    refused :
        (c : Code) (m : Text)
        → check_create req waited ≡ err c m
        → r ≡ err c m
        → t ≡ waited
        → Effect req r t
    -- The stripe counter has no valid index left.
    broke :
        (parent : Inode)
        → Passes req s.inodes s.dirents parent
        → (next_stripe_layout waited).0 ≡ panic
        → r ≡ panic
        → t ≡ staged
        → Effect req r t
    -- The inode is linked, and the transaction fails.
    unsaved :
        (parent inode : Inode) (layout : StripeLayout) (m : Text)
        → Passes req s.inodes s.dirents parent
        → inode ≡ new_inode clock req parent layout staged
        → (persist_create backend inode s.db).0 ≡ some m
        → r ≡ err internal (codes "persist create: " ++ m)
        → t ≡ record (link_inode parent inode staged) { db = (persist_create backend inode s.db).1 }
        → Effect req r t
    -- The inode is linked and stored.
    stored :
        (parent inode : Inode) (layout : StripeLayout)
        → Passes req s.inodes s.dirents parent
        → (next_stripe_layout waited).0 ≡ ok layout
        → inode ≡ new_inode clock req parent layout staged
        → (persist_create backend inode s.db).0 ≡ none
        → r ≡ ok (record { inode = clone_inode backend (some inode) })
        → t ≡ record (link_inode parent inode staged) { db = (persist_create backend inode s.db).1 }
        → Effect req r t

  check_create-ne-panic : (req : CreateRequest) → check_create req waited ≢ panic
  unfolding check_create
  check_create-ne-panic req h = ground arith

  -- The tests raise no internal error.
  pub check_create-ne-internal :
      (req : CreateRequest) (c : Code) (m k : Text)
      → check_create req waited ≡ err c m
      → ◌≢◌ {A = Result CreateResponse} (err c m) (err internal k)
  unfolding check_create
  check_create-ne-internal req c m k h e = ground arith

  next_stripe_layout-ne-err : (c : Code) (m : Text) → (next_stripe_layout waited).0 ≢ err c m
  unfolding next_stripe_layout
  next_stripe_layout-ne-err c m h = ground arith

  module _ (req : CreateRequest) (parent : Inode) (ok_parent : Passes req s.inodes s.dirents parent)
      (layout : StripeLayout) (e : (next_stripe_layout waited).0 ≡ ok layout) where
    abbrev inode : Inode
    inode = new_inode clock req parent layout staged

    finish_create-Effect :
        Effect req
          (finish_create backend inode (link_inode parent inode staged)).0
          (finish_create backend inode (link_inode parent inode staged)).1
    unfolding finish_create link_inode
    finish_create-Effect = elim (Option-cases (persist_create backend inode s.db).0) [
      | inl saved ↦ stored parent inode layout ok_parent e refl saved (ground arith) (ground arith)
      | inr (m, failed) ↦
          unsaved parent inode layout m ok_parent refl failed (ground arith) (ground arith)
    ]

  pub create-Effect :
      (request : Option CreateRequest)
      → Effect
          (create_request_get request)
          (create backend clock request s).0
          (create backend clock request s).1
  unfolding create
  create-Effect request = elim (Result-cases (check_create (create_request_get request) waited)) [
    | inr (inl (c, m, e)) ↦ rw (e, create) (refused c m e refl refl)
    | inr (inr e) ↦ absurd (check_create-ne-panic _ e)
    | inl (parent, e) ↦
        let pass = check_create-Passes (create_request_get request) waited parent e in
        rw (e, create)
          (elim (Result-cases (next_stripe_layout waited).0) [
            | inl (layout, e') ↦
                rw e' (finish_create-Effect (create_request_get request) parent pass layout e')
            | inr (inl (c, m, e')) ↦ absurd (next_stripe_layout-ne-err c m e')
            | inr (inr e') ↦ rw e' (broke parent pass e' refl refl)
          ])
  ]
