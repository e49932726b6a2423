-- ===== src/Csi/History.antt =====
-- Histories of calls to pkg/csi/service.go, and the volumes that they leave, from the calls alone.
use kube_pfs.Base.{
  ℕ, ℤ, ◌≡◌, refl, inl, inr, false, Bool, not, ◌&&◌, Option, none, some, List, [], ◌∷◌, arith,
  if◌then◌else◌, Option-cases,
}
use kube_pfs.Csi.Asked.{asked_capacity, asked_id, capacity_of-asked, volume_id_of-asked}
use kube_pfs.Csi.Controller.{
  create_volume, delete_volume, controller_publish_volume, controller_unpublish_volume,
  validate_volume_capabilities,
}
use kube_pfs.Csi.Messages.{
  Volume, CreateVolumeRequest, NodeStageVolumeRequest, NodePublishVolumeRequest,
}
use kube_pfs.Csi.Node.{
  node_stage_volume, node_unstage_volume, node_publish_volume, node_unpublish_volume,
}
use kube_pfs.Csi.State.{Service, new_service}
use kube_pfs.FileSystem.{FileSystem}
use kube_pfs.Status.{ok}
use kube_pfs.Table.{lookup, lookup-insert, lookup-delete}
use kube_pfs.Text.{Text, codes, text_eq, text_eq_iff}
use kube_pfs.Text.Edit.{trim_space}

-- A call of the controller or of the node. A validation brings a list of capabilities.
pub data Call {ℓ} (C : Type ℓ) : Type ℓ where
  creates : CreateVolumeRequest → Call C
  deletes : Text → Call C
  publishes unpublishes : Call C
  validates : List C → Call C
  stages : NodeStageVolumeRequest → Call C
  unstages : Text → Call C
  mounts : NodePublishVolumeRequest → Call C
  unmounts : Text → Call C

-- The volume of an id, with a capacity.
abbrev pub volume_of : Text → ℤ → Volume
volume_of id capacity = record {
  volume_id = id;
  capacity_bytes = capacity;
  volume_context = (codes "driver", codes "kube-pfs.csi.dev") ∷ [];
}

-- The volume of an id, if a capacity is given.
abbrev pub volume_held : Text → Option ℤ → Option Volume
volume_held id none = none
volume_held id (some n) = some (volume_of id n)

abbrev Holds : {Fs : Type 0} → Text → Option ℤ → Service Fs → Type 0
Holds id held s = lookup id s.volumes ≡ volume_held id held

-- The capacity that CreateVolume answers behind a history of calls.
abbrev pub capacity_or : Option ℤ → Option ℤ → ℤ
capacity_or none range = asked_capacity range
capacity_or (some n) range = n

deleted-Holds :
    {Fs : Type 0} (id gone : Text) (held : Option ℤ) (s : Service Fs)
    → Holds id held s
    → Holds id (if text_eq gone id then none else held) (delete_volume gone s).1
unfolding delete_volume
deleted-Holds id gone held s h = ground (arith, h, lookup-delete id gone s.volumes)

module _ (lower : ℕ → ℕ) where
  -- A creation makes the volume of the id.
  abbrev pub is_for : Text → CreateVolumeRequest → Bool
  is_for id req = not (text_eq (trim_space req.name) []) && text_eq (asked_id lower req.name) id

  abbrev pub after_creation : Text → CreateVolumeRequest → Option ℤ → Option ℤ
  after_creation id req (some n) = some n
  after_creation id req none =
      if is_for id req then some (asked_capacity req.capacity_range) else none

  -- The capacity of the volume of an id: of the first creation for it since its last deletion.
  abbrev pub capacity_after {ℓ} : {C : Type ℓ} → Text → Option ℤ → Call C → Option ℤ
  capacity_after id held (creates req) = after_creation id req held
  capacity_after id held (deletes gone) = if text_eq gone id then none else held
  capacity_after id held call = held

  abbrev pub requested {ℓ} : {C : Type ℓ} → Text → Option ℤ → List (Call C) → Option ℤ
  requested id held [] = held
  requested id held (call ∷ calls) = requested id (capacity_after id held call) calls

  created-Holds :
      {Fs : Type 0} (id : Text) (held : Option ℤ) (req : CreateVolumeRequest) (s : Service Fs)
      → Holds id held s
      → Holds id (after_creation id req held) (create_volume lower req s).1
  unfolding create_volume
  created-Holds id (some n) req s h = ground (
    arith,
    h,
    lookup-insert id (asked_id lower req.name)
        (volume_of (asked_id lower req.name) (asked_capacity req.capacity_range)) s.volumes,
    text_eq_iff (asked_id lower req.name) id,
    volume_id_of-asked lower req.name,
    capacity_of-asked req.capacity_range,
  )
  created-Holds id none req s h = ground (
    arith,
    h,
    lookup-insert id (asked_id lower req.name)
        (volume_of (asked_id lower req.name) (asked_capacity req.capacity_range)) s.volumes,
    text_eq_iff (asked_id lower req.name) id,
    volume_id_of-asked lower req.name,
    capacity_of-asked req.capacity_range,
  )

  module _ {ℓ} {C : Type ℓ} (files : FileSystem) where
    open files use {Fs}

    abbrev pub handle : Call C → Service Fs → Service Fs
    handle (creates req) s = (create_volume lower req s).1
    handle (deletes id) s = (delete_volume id s).1
    handle publishes s = (controller_publish_volume s).1
    handle unpublishes s = (controller_unpublish_volume s).1
    handle (validates capabilities) s = (validate_volume_capabilities capabilities s).1
    handle (stages req) s = (node_stage_volume files req s).1
    handle (unstages staging) s = (node_unstage_volume files staging s).1
    handle (mounts req) s = (node_publish_volume files req s).1
    handle (unmounts target) s = (node_unpublish_volume files target s).1

    abbrev pub serve : List (Call C) → Service Fs → Service Fs
    serve [] s = s
    serve (call ∷ calls) s = serve calls (handle call s)

    handle-Holds :
        (id : Text) (held : Option ℤ) (call : Call C) (s : Service Fs)
        → Holds id held s
        → Holds id (capacity_after id held call) (handle call s)
    unfolding controller_publish_volume controller_unpublish_volume validate_volume_capabilities
        node_stage_volume node_unstage_volume node_publish_volume node_unpublish_volume
    handle-Holds id held (creates req) s h = created-Holds id held req s h
    handle-Holds id held (deletes gone) s h = deleted-Holds id gone held s h
    handle-Holds id held publishes s h = h
    handle-Holds id held unpublishes s h = h
    handle-Holds id held (validates []) s h = h
    handle-Holds id held (validates (c ∷ cs)) s h = h
    handle-Holds id held (stages req) s h = ground (arith, h)
    handle-Holds id held (unstages staging) s h = ground (arith, h)
    handle-Holds id held (mounts req) s h = ground (arith, h)
    handle-Holds id held (unmounts target) s h = ground (arith, h)

    serve-Holds :
        (id : Text) (held : Option ℤ) (calls : List (Call C)) (s : Service Fs)
        → Holds id held s
        → Holds id (requested id held calls) (serve calls s)
    serve-Holds id held [] s h = h
    serve-Holds id held (call ∷ calls) s h =
        serve-Holds id (capacity_after id held call) calls (handle call s)
          (handle-Holds id held call s h)

    -- On a new service, behind any calls of the controller and the node, however they are answered,
    -- a CreateVolume with a name that is not blank answers the volume of the name's id, which is
    -- "kube-pfs-" and the trimmed name in lower case with dashes for spaces, slashes and
    -- underscores: with the capacity of the first CreateVolume for the id since its last
    -- DeleteVolume, and with the capacity that it asks for itself if there is none. The capacity
    -- that is asked for is the required bytes if they are positive, and 1073741824 else.
    pub create_volume-serve :
        (node_id : Text) (fs : Fs) (calls : List (Call C)) (req : CreateVolumeRequest)
        → text_eq (trim_space req.name) [] ≡ false
        → (create_volume lower req (serve calls (new_service node_id fs))).0
          ≡ ok (
              volume_of
                (asked_id lower req.name)
                (capacity_or (requested (asked_id lower req.name) none calls) req.capacity_range))
    unfolding create_volume new_service lookup
    create_volume-serve node_id fs calls req named =
        let id = asked_id lower req.name in
        let held = serve-Holds id none calls (new_service node_id fs) refl in
        elim (Option-cases (requested id none calls)) [
          | inl e ↦ ground (
            arith,
            named,
            e,
            held,
            volume_id_of-asked lower req.name,
            capacity_of-asked req.capacity_range,
          )
          | inr (n, e) ↦ ground (arith, named, e, held, volume_id_of-asked lower req.name)
        ]
