-- ===== src/Tests/Histories.antt =====
-- The metadata service from its start on an empty database through a few requests, and a listing.
use mathlib.Core.List.{Perm, map}
use kube_pfs.Base.{◌≡◌, refl, some, [], ◌∷◌, List, All}
use kube_pfs.Mds.Load.{new_root, new_service, load_tx, load_inodes, load_dirents, init_root}
use kube_pfs.Mds.Namespace.{resolve}
use kube_pfs.Mds.Namespace.Listed.{name_of, at_dir, list_dir-lists}
use kube_pfs.Mds.Persist.{put_inode, persist_create, create_tx}
use kube_pfs.Mds.Create.{create, check_create, link_inode, new_inode, finish_create}
use kube_pfs.Mds.Query.{list_dir}
use kube_pfs.Mds.State.{Service, ensure_dir, set_child}
use kube_pfs.Mds.Stripe.{next_stripe_layout, stripe_start, rotation}
use kube_pfs.Mds.Recovery.{IsStored}
use kube_pfs.Mds.Recovery.Begun.{new_service-IsStored}
use kube_pfs.Mds.Tree.Handlers.{HasTree}
use kube_pfs.Mds.Tree.History.{Run, idle, step, creates, unlinks, Run-HasTree}
use kube_pfs.Proto.Metadata.{Inode}
use kube_pfs.Status.{ok}
use kube_pfs.Table.{lookup, insert}
use kube_pfs.Tests.Codec.{marshal, encoding}
use kube_pfs.Tests.Instances.{tables, Db, visible}
use kube_pfs.Tests.Mds.{
  config, start, at, make_dir, make_file, with_dir, with_file, remove_file, removed, start-HasTree,
  with_file-HasTree,
}
use kube_pfs.Text.{codes, text_eq}
use kube_pfs.Text.Decimal.{decimal}
use kube_pfs.Text.Order.{IsSorted}
use kube_pfs.Text.Search.{contains}

abbrev pub begun : Service Db
begun = record start {
  db =
      (codes "inodes", (codes "root", encoding (new_root tables 100 config)) ∷ [])
      ∷ (codes "dirents", [])
      ∷ [];
}

new_service-IsStored_example : HasTree begun × IsStored tables begun
unfolding new_service load_tx load_inodes load_dirents init_root put_inode lookup insert text_eq
    ensure_dir set_child marshal visible
new_service-IsStored_example = new_service-IsStored tables 100 config [] (λ b k. refl) begun refl

requests : Run tables start removed
unfolding create check_create lookup text_eq contains next_stripe_layout stripe_start rotation
    finish_create link_inode persist_create create_tx put_inode marshal new_inode decimal ensure_dir
    set_child insert
requests =
    step with_file removed
      (step with_dir with_file (step start with_dir idle (creates (at 1) (some make_dir) refl))
        (creates (at 2) (some make_file) refl))
      (unlinks (at 3) (some remove_file))

Run-HasTree_example : HasTree removed
Run-HasTree_example = Run-HasTree tables requests start-HasTree

list_dir-lists_example :
    (entries : List Inode) × ((list_dir tables (at 4) (at_dir (codes "inode-1")) with_file).0
      ≡ ok (record { entries = entries }))
    × Perm (map name_of entries) (codes "log" ∷ [])
    × IsSorted (map name_of entries)
    × All (λ i. resolve (codes "inode-1") i.name with_file ≡ some i) entries
unfolding create check_create lookup text_eq contains next_stripe_layout stripe_start rotation
    finish_create link_inode persist_create create_tx put_inode marshal new_inode decimal ensure_dir
    set_child insert
list_dir-lists_example =
    list_dir-lists tables (at 4) with_file with_file-HasTree (codes "inode-1")
      ((codes "log", codes "inode-2") ∷ []) refl
