-- ===== src/Mds/Create.antt =====
-- `Create` of pkg/mds/service.go.
pub mod Effect
pub mod Total
use kube_pfs.Base.{◌||◌, not, Option, none, some, [], ◌++◌, ◌==◌, if◌then◌else◌}
use kube_pfs.Mds.Backend.{Backend}
use kube_pfs.Mds.Persist.{persist_create}
use kube_pfs.Mds.State.{Service, Clock, children, ensure_dir, set_child}
use kube_pfs.Mds.Stripe.{next_stripe_layout}
use kube_pfs.Metrics.{observe_mds_lock_contention}
use kube_pfs.Proto.Metadata.{Inode, StripeLayout, CreateRequest, create_request_get, CreateResponse}
use kube_pfs.Status.{
  Result, ok, err, panic, invalid_argument, not_found, already_exists, failed_precondition,
  internal, refuse_if, or_refuse, ◌>>=◌, ◌>>◌,
}
use kube_pfs.Table.{has, lookup, insert}
use kube_pfs.Text.{Text, codes, text_eq}
use kube_pfs.Text.Decimal.{decimal}
use kube_pfs.Text.Search.{contains}

-- inodeID := fmt.Sprintf("inode-%d", time.Now().UnixNano())
abbrev pub inode_id_at : Clock → Text
inode_id_at clock = codes "inode-" ++ decimal clock.unix_nano

module _ {Db : Type 0} where
  -- The tests before anything is changed: the parent inode, or the error.
  unfoldable pub check_create : CreateRequest → Service Db → Result Inode
  check_create req s = do
    refuse_if (text_eq req.parent_inode_id [] || text_eq req.name []) invalid_argument
        (codes "parent_inode_id and name are required")
    parent ←
        or_refuse (lookup req.parent_inode_id s.inodes) not_found (codes "parent inode not found")
    refuse_if (not parent.is_dir) failed_precondition (codes "parent inode is not a directory")
    refuse_if (contains b'/' req.name) invalid_argument (codes "name cannot contain '/'")
    refuse_if (has req.name (children parent.inode_id s.dirents)) already_exists
        (codes "entry already exists")
    ok parent

  -- The inode that is built, given what `nextStripeLayout` answered.
  unfoldable pub new_inode : Clock → CreateRequest → Inode → StripeLayout → Service Db → Inode
  new_inode clock req parent layout s = record {
    inode_id = inode_id_at clock;
    parent_inode_id = parent.inode_id;
    name = req.name;
    is_dir = req.is_dir;
    size_bytes = 0;
    mode = if req.mode == 0 then 0o644 else req.mode;
    created_unix = clock.unix;
    modified_unix = clock.unix;
    stripe_layout =
        if req.is_dir
        then some (record { stripe_size_bytes = s.stripe_sz; ost_ids = s.ost_ids })
        else some layout;
  }

  -- The writes to the two maps.
  unfoldable pub link_inode : Inode → Inode → Service Db → Service Db
  link_inode parent inode s =
      let entries =
        set_child parent.inode_id inode.name inode.inode_id
          (ensure_dir parent.inode_id s.dirents) in
      record s {
        dirents = if inode.is_dir then insert inode.inode_id [] entries else entries;
        inodes = insert inode.inode_id inode s.inodes;
      }

module _ (backend : Backend) where
  open backend use {Db, clone}

  -- cloneInode
  abbrev pub clone_inode : Option Inode → Option Inode
  clone_inode none = none
  clone_inode (some i) = some (clone i)

  -- `persistCreate`, and the response.
  unfoldable pub finish_create : Inode → Service Db → Result CreateResponse × Service Db
  finish_create inode s =
      let (e, d) = persist_create backend inode s.db in
      elim e [
        | some m ↦ (err internal (codes "persist create: " ++ m), record s { db = d })
        | none ↦ (ok (record { inode = clone_inode (some inode) }), record s { db = d })
      ]

  unfoldable pub create :
      Clock → Option CreateRequest → Service Db → Result CreateResponse × Service Db
  create clock request s =
      let req = create_request_get request in
      let s₀ = record s { metrics = observe_mds_lock_contention clock.wait s.metrics } in
      elim (check_create req s₀) [
        | err c m ↦ (err c m, s₀)
        | panic ↦ (panic, s₀)
        | ok parent ↦
            let (answer, rr') = next_stripe_layout s₀ in
            let s₁ = record s₀ { rr = rr' } in
            elim answer [
              | err c m ↦ (err c m, s₁)
              | panic ↦ (panic, s₁)
              | ok layout ↦
                  let inode = new_inode clock req parent layout s₁ in
                  finish_create inode (link_inode parent inode s₁)
            ]
      ]
