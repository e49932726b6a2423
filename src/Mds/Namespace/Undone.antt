-- ===== src/Mds/Namespace/Undone.antt =====
-- `Create` of a file and `Unlink` of it behind each other, in pkg/mds/service.go.
use kube_pfs.Base.{
  ℕ, ◌≡◌, refl, false, ◌&&◌, none, some, arith, if◌then◌else◌, inl, inr, Option-cases,
}
use kube_pfs.Mds.Backend.{Backend}
use kube_pfs.Mds.Create.{create, new_inode, inode_id_at}
use kube_pfs.Mds.Create.Effect
use kube_pfs.Mds.Create.Effect.{Passes, staged, create-Effect}
use kube_pfs.Mds.Namespace.{inode}
use kube_pfs.Mds.Query.{observed}
use kube_pfs.Mds.State.{Service, Clock, child}
use kube_pfs.Mds.Tree.Cut.{child-unlink_inode, lookup-unlink_inode}
use kube_pfs.Mds.Tree.Handlers.{HasTree}
use kube_pfs.Mds.Tree.Link.{child-link_inode, lookup-link_inode}
use kube_pfs.Mds.Unlink.{unlink}
use kube_pfs.Mds.Unlink.Effect as UnlinkEffect
use kube_pfs.Mds.Unlink.Effect.{Target, cut, unlink-Effect}
use kube_pfs.Metrics.{Metrics}
use kube_pfs.Proto.Metadata.{Inode, CreateRequest, CreateResponse, UnlinkRequest, UnlinkResponse}
use kube_pfs.Status.{Result, ok}
use kube_pfs.Table.{lookup}
use kube_pfs.Text.{Text, text_eq, text_eq_iff, text_eq_refl}

-- Both states have the same inode for each id, and the same id for each name in each directory.
abbrev pub SameMaps : {Db : Type 0} → Service Db → Service Db → Type 0
SameMaps s t =
    ((k : Text) → lookup k t.inodes ≡ lookup k s.inodes)
    × ((p n : Text) → child p n t.dirents ≡ child p n s.dirents)

module _ (backend : Backend) (s : Service backend.Db) (tree : HasTree s) (parent_id name : Text)
    (id : Text) (fresh : lookup id s.inodes ≡ none) where
  -- An id that is not in use has no entries.
  bare : (n : Text) → child id n s.dirents ≡ none
  unfolding lookup
  bare n = elim (Option-cases (lookup id s.dirents)) [
    | inl e ↦ ground (arith, e)
    | inr (m, e) ↦ absurd (rw fresh at (tree.under_dir id m e))
  ]

  -- The maps with one file more.
  record HasFile (t : Service backend.Db) (file : Inode) : Type 0 where
    is_file : file.is_dir ≡ false
    own : file.inode_id ≡ id
    free : child parent_id name s.dirents ≡ none
    lookups :
        (k : Text) → lookup k t.inodes ≡ (if text_eq id k then some file else lookup k s.inodes)
    children :
        (p n : Text)
        → child p n t.dirents
          ≡ (if text_eq parent_id p && text_eq name n then some id else child p n s.dirents)

  abbrev request : UnlinkRequest
  request = record { parent_inode_id = parent_id; name = name }

  module _ (t : Service backend.Db) (file : Inode) (has : HasFile t file) (clock : Clock) where
    entry : child parent_id name t.dirents ≡ some id
    entry = ground (arith, has.children parent_id name, text_eq_refl parent_id, text_eq_refl name)

    there : lookup id t.inodes ≡ some file
    there = ground (arith, has.lookups id, text_eq_refl id)

    cut-SameMaps :
        (key : Text) (i : Inode)
        → Target backend clock t request key i
        → SameMaps s (cut backend clock t request i)
    cut-SameMaps key i target =
        let own : i.inode_id ≡ id =
          ground (arith, entry, there, target.entry, target.there, has.own) in
        (
          λ k. ground (
            arith,
            own,
            lookup-unlink_inode parent_id name i (observed clock t) k,
            has.lookups k,
            fresh,
            text_eq_iff id k,
          ),
          λ p n. ground (
            arith,
            own,
            child-unlink_inode parent_id name i (observed clock t) p n,
            has.children p n,
            has.free,
            bare n,
            text_eq_iff id p,
            text_eq_iff parent_id p,
            text_eq_iff name n,
          ),
        )

    unlinked-SameMaps :
        {r : Result UnlinkResponse} {u : Service backend.Db}
        → UnlinkEffect.Effect backend clock t request r u
        → SameMaps s u
    unfolding lookup
    unlinked-SameMaps (UnlinkEffect.no_parent gone _ _) = absurd (ground (arith, entry, gone))
    unlinked-SameMaps (UnlinkEffect.no_entry gone _ _) = absurd (ground (arith, entry, gone))
    unlinked-SameMaps (UnlinkEffect.dangling key e gone _ _) =
        absurd (ground (arith, entry, there, e, gone))
    unlinked-SameMaps (UnlinkEffect.not_empty key i e found dir _ _ _) =
        absurd (ground (arith, entry, there, e, found, dir, has.is_file))
    unlinked-SameMaps (UnlinkEffect.unsaved key i _ target _ _ e) = rw e (cut-SameMaps key i target)
    unlinked-SameMaps (UnlinkEffect.removed key i target _ _ e) = rw e (cut-SameMaps key i target)

module _ (backend : Backend) (clock : Clock) (s : Service backend.Db) (tree : HasTree s)
    (parent_id name : Text) (mode : ℕ) (fresh : lookup (inode_id_at clock) s.inodes ≡ none) where
  abbrev file_request : CreateRequest
  file_request = record { parent_inode_id = parent_id; name = name; is_dir = false; mode = mode }

  created-HasFile :
      {r : Result CreateResponse} {t : Service backend.Db} (resp : CreateResponse)
      → r ≡ ok resp
      → Effect.Effect backend clock s file_request r t
      → (file : Inode) × HasFile backend s tree parent_id name (inode_id_at clock) fresh t file
  unfolding new_inode
  created-HasFile resp h (Effect.refused _ _ _ e _) = absurd (cc (h, e))
  created-HasFile resp h (Effect.broke _ _ _ e _) = absurd (cc (h, e))
  created-HasFile resp h (Effect.unsaved _ _ _ _ _ _ _ e _) = absurd (cc (h, e))
  created-HasFile resp h (Effect.stored parent i layout passes _ made _ _ e) =
      let new = inode backend clock s tree file_request parent layout passes fresh in
      let own = tree.own_id parent_id parent passes.there in
      (
        new,
        record {
          is_file = refl;
          own = refl;
          free = rw own at passes.free;
          lookups =
              λ k. ground (arith, e, made, lookup-link_inode parent new (staged backend clock s) k);
          children = λ p n.
              ground
                (arith, e, made, own, child-link_inode parent new (staged backend clock s) p n);
        },
      )

  -- A file that Create makes under an id that is not in use, and that Unlink is asked to remove,
  -- with only metrics counted between the two, is gone: the maps have the same inode for each id
  -- and the same id for each name in each directory as before Create, whatever Unlink answers. The
  -- maps are a tree.
  pub unlink-create :
      (resp : CreateResponse) (later : Clock) (m : Metrics)
      → (create backend clock (some file_request) s).0 ≡ ok resp
      → SameMaps s
          (unlink backend later
            (some (record { parent_inode_id = parent_id; name = name }))
            (record (create backend clock (some file_request) s).1 { metrics = m })).1
  unlink-create resp later m h =
      let (file, has) =
        created-HasFile resp h (create-Effect backend clock s (some file_request)) in
      let t = record (create backend clock (some file_request) s).1 { metrics = m } in
      unlinked-SameMaps backend s tree parent_id name (inode_id_at clock) fresh t file
        (record {
          is_file = has.is_file;
          own = has.own;
          free = has.free;
          lookups = has.lookups;
          children = has.children;
        })
        later
        (unlink-Effect backend later t (some (record { parent_inode_id = parent_id; name = name })))
