-- ===== src/Tests/Programs.antt =====
-- The programs at work from their arguments, and the demo from a request.
use kube_pfs.Base.{
  ◌≡◌, refl, true, ◌&&◌, Option, none, some, List, [], ◌∷◌, done, fail, arith, All, if◌then◌else◌,
}
use kube_pfs.Cmd.Demo.Benchmarks.{entries}
use kube_pfs.Cmd.Demo.Query.{Web}
use kube_pfs.Cmd.Demo.Routes.{
  Request, Outside, Mux, no_content, written, respond, bodies, respond-handle,
}
use kube_pfs.Cmd.Flags.{Settings, parse, argument, value_of, is_one_of}
use kube_pfs.Cmd.Flags.Spelled.{IsDefined}
use kube_pfs.Cmd.Program.{run, flags_of}
use kube_pfs.Cmd.Servers.{start_mds, split_csv, nonempty_parts}
use kube_pfs.Cmd.Servers.Targets.{join_csv}
use kube_pfs.Mds.Load.{new_service as new_mds, load_tx, load_inodes, load_dirents, init_root}
use kube_pfs.Mds.Persist.{put_inode}
use kube_pfs.Mds.State.{ensure_dir, set_child}
use kube_pfs.Tests.Codec.{marshal as marshal_inode}
use kube_pfs.Text.Edit.{trim_space}
use kube_pfs.Cmd.Servers.Flagged.{main_mds-ost_ids}
use kube_pfs.Cmd.Servers.Programs.{mds_program, main_mds}
use kube_pfs.Csi.State.{Service, new_service}
use kube_pfs.Metrics.{start_server}
use kube_pfs.Table.{lookup, insert}
use kube_pfs.Tests.Demo.{
  targets, targets-IsId, begun, server, unmarshal_pods, numbers, no_jobs, missing_file, nothing,
  runs,
}
use kube_pfs.Tests.Instances.{tables, visible, disk, Files}
use kube_pfs.Tests.Machine.{codec}
use kube_pfs.Text.{Text, codes, text_eq, text_eq_iff}
use kube_pfs.Text.Path.{clean}
use kube_pfs.Text.Search.{split_on, split_two}

abbrev node_flags : Settings
node_flags = (codes "node-id", codes "worker-2") ∷ []

abbrev node_started : Service Files
node_started = new_service (codes "worker-2") []

abbrev bind : Text → Files → Option Text × Files
bind path f = (none, f)

abbrev mds_flags : Settings
mds_flags = (codes "ost-ids", join_csv targets) ∷ []

mds_flags-AreDefined : All (IsDefined (flags_of mds_program)) mds_flags
unfolding text_eq
mds_flags-AreDefined = ground arith

main_mds-ost_ids_example : begun.ost_ids ≡ targets
unfolding main_mds run parse argument split_two value_of start_mds new_mds load_tx load_inodes
    load_dirents init_root put_inode lookup insert text_eq ensure_dir set_child marshal_inode
    visible split_csv split_on nonempty_parts trim_space
main_mds-ost_ids_example =
    main_mds-ost_ids disk tables 100 (λ path f. (done [], f)) (λ address. none) none none mds_flags
      (some (start_server (codes ":9101"))) targets [] begun mds_flags-AreDefined targets-IsId refl
      refl

-- The routes of the demo: a path that is registered and clean has its own pattern.
abbrev match : List Text → Text → Option Text
match ps path = if is_one_of path ps && text_eq (clean path) path then some path else none

match_own : (ps : List Text) (p : Text) → is_one_of p ps ≡ true → clean p ≡ p → match ps p ≡ some p
match_own ps p h k = ground (arith, h, k, text_eq_iff (clean p) p)

abbrev mux : Mux
mux = record { match = match; match_own = match_own }

abbrev web : Web
web = record {
  Url = Text;
  parse_url = λ u. done u;
  with_query = λ expr u. u;
  new_request = λ u. none;
  send = λ u. fail (codes "connection refused");
}

abbrev outside : Outside numbers
outside = record {
  now = [];
  pods = done [];
  equal_fold = text_eq;
  unmarshal_pods = unmarshal_pods;
  codec = codec;
  read_file = missing_file;
  read_dir = λ p. entries runs;
  exists = nothing;
  unmarshal_jobs = no_jobs;
  web = web;
  file = λ req. (200, []);
}

abbrev get_faults : Request
get_faults = record { method = codes "GET"; path = codes "/api/faults"; expr = [] }

respond-handle_example :
    (lookup
        (codes "Access-Control-Allow-Origin")
        (respond numbers outside server mux get_faults).headers
      ≡ some (codes "*"))
    × All
        (λ entry.
          (respond numbers outside server mux (record get_faults { path = entry.0 })).content
          ≡ (if text_eq (codes "GET") (codes "OPTIONS") then no_content else written entry.1))
        (bodies numbers outside server get_faults)
respond-handle_example = respond-handle numbers outside server mux get_faults
