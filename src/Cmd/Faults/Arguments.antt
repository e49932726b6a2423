-- ===== src/Cmd/Faults/Arguments.antt =====
-- The two readings of the arguments in cmd/fault-injector/main.go: the scan for the timeline, and
-- the flag sets of the actions.
use kube_pfs.Base.{◌≡◌, ◌≢◌, ◌∙◌, refl, List, [], ◌∷◌, done, arith, All, if◌then◌else◌}
use kube_pfs.Cmd.Faults.{timeline_path}
use kube_pfs.Cmd.Flags.{FlagSet, Settings, parse, value_of}
use kube_pfs.Cmd.Flags.Spelled.{spelled_out, IsDefined, parsed_flag}
use kube_pfs.Text.{Text, codes, text_eq, text_eq_iff}

-- A setting that the flag set accepts, and whose value is not "--timeline".
abbrev pub IsPlain : FlagSet → (Text × Text) → Type 0
IsPlain flags (name, value) = IsDefined flags (name, value) × (value ≢ codes "--timeline")

-- A value is passed over.
timeline_path_value :
    (path value : Text) (args : List Text)
    → value ≢ codes "--timeline"
    → timeline_path path (value ∷ args) ≡ timeline_path path args
unfolding timeline_path
timeline_path_value path value [] h = refl
timeline_path_value path value (a ∷ args) h = ground (arith, text_eq_iff value (codes "--timeline"))

dashed-text_eq :
    (name : Text)
    → text_eq (b'-' ∷ b'-' ∷ name) (codes "--timeline") ≡ text_eq name (codes "timeline")
unfolding text_eq
dashed-text_eq name = refl

-- On flags that are written "--name value", none with the value "--timeline", that the flag set of
-- the action defines and accepts, Parse answers them as they stand, and the scan finds the value
-- that Parse gives the flag "timeline", whatever the default.
pub timeline_path-parse :
    (flags : FlagSet) (default : Text) (settings : Settings)
    → All (IsPlain flags) settings
    → (parse flags (spelled_out settings) ≡ done settings)
      × (timeline_path default (spelled_out settings)
          ≡ value_of (codes "timeline") default settings)
unfolding timeline_path value_of parse
timeline_path-parse flags default [] h = (refl, refl)
timeline_path-parse flags default ((name, value) ∷ settings) h =
    let path = if text_eq name (codes "timeline") then value else default in
    let (more, found) = timeline_path-parse flags path settings h.1 in
    let skip = timeline_path_value path value (spelled_out settings) h.0.1 in
    (parsed_flag flags name value settings h.0.0 more, rw (dashed-text_eq name) (skip ∙ found))
