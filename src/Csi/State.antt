-- ===== src/Csi/State.antt =====
-- The state of pkg/csi/service.go, and what its handlers share.
use kube_pfs.Base.{ℕ, List, [], ◌∷◌, if◌then◌else◌}
use kube_pfs.Csi.Messages.{
  Volume, Capability, controller_service, create_delete_volume, publish_unpublish_volume,
  stage_unstage_volume,
}
use kube_pfs.Metrics.{Metrics, inc_csi_op}
use kube_pfs.Table.{Table}
use kube_pfs.Text.{Text, codes, text_eq}
use kube_pfs.Text.Edit.{trim_space, replace_char, to_lower}

abbrev pub plugin_name : Text
plugin_name = codes "kube-pfs.csi.dev"

abbrev pub plugin_version : Text
plugin_version = codes "0.2.0"

pub record Service (Fs : Type 0) : Type 0 where
  pub node_id : Text
  pub volumes : Table Volume
  pub metrics : Metrics
  pub fs : Fs

-- NewService
unfoldable pub new_service : {Fs : Type 0} → Text → Fs → Service Fs
new_service node_id f = record {
  node_id = if text_eq node_id [] then codes "kube-pfs-node" else node_id;
  volumes = [];
  metrics = [];
  fs = f;
}

-- metrics.IncCSIOp(op, result)
abbrev pub count : {Fs : Type 0} → Text → Text → Service Fs → Service Fs
count op result s = record s { metrics = inc_csi_op op result s.metrics }

-- sanitizeName
unfoldable pub sanitize_name : (ℕ → ℕ) → Text → Text
sanitize_name lower s =
    let t =
      replace_char b'_' b'-'
        (replace_char b'/' b'-' (replace_char b' ' b'-' (to_lower lower (trim_space s)))) in
    if text_eq t [] then codes "vol" else t

-- The handlers of the identity service and the two lists of capabilities.
abbrev pub get_plugin_info : Text × Text
get_plugin_info = (plugin_name, plugin_version)

abbrev pub get_plugin_capabilities : List Capability
get_plugin_capabilities = controller_service ∷ []

-- Probe answers an empty message.
abbrev pub probe : Unit {0}
probe = tt

abbrev pub controller_get_capabilities : List Capability
controller_get_capabilities = create_delete_volume ∷ publish_unpublish_volume ∷ []

abbrev pub node_get_capabilities : List Capability
node_get_capabilities = stage_unstage_volume ∷ []

abbrev pub node_get_info : {Fs : Type 0} → Service Fs → Text
node_get_info s = s.node_id
