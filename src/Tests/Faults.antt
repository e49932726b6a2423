-- ===== src/Tests/Faults.antt =====
-- The fault injector at work, on a machine in memory.
use kube_pfs.Base.{◌≡◌, ◌+◌, ◌*◌, ◌%◌, map, refl, none, [], ◌∷◌, ◌++◌, done, arith, inr, drop, All}
use kube_pfs.Cmd.Faults.{Now, timeline_path}
use kube_pfs.Cmd.Faults.Actions.{
  run_corrupt_block, corrupt_flags, overwrite, strings_only, bytes_count,
}
use kube_pfs.Cmd.Faults.Arguments.{IsPlain, timeline_path-parse}
use kube_pfs.Cmd.Flags.Spelled.{spelled_out}
use kube_pfs.Cmd.Faults.Corrupt.{
  corrupt, corrupted, indices, corrupt-read_block, corrupt-read_block_ne,
}
use kube_pfs.Cmd.Flags.{FlagSet, Settings, parse, value_of, argument}
use kube_pfs.Ost.Blocks.{read_request, section}
use kube_pfs.Ost.Handlers.{read_block, read_path, window, write_block, write_path, observe}
use kube_pfs.Ost.Paths.{block_path, sanitize}
use kube_pfs.Status.{ok}
use kube_pfs.Table.{lookup, insert}
use kube_pfs.Tests.Instances.{disk, read_file}
use kube_pfs.Tests.Machine.{machine, open_to_write, write_at_start}
use kube_pfs.Tests.Ost.{elapsed, chunk, two_blocks}
use kube_pfs.Text.{codes, text_eq}
use kube_pfs.Text.Decimal.{decimal}
use kube_pfs.Text.Edit.{trim_space, replace_char, replace_pair}
use kube_pfs.Text.Path.{join_path}
use kube_pfs.Text.Search.{split_two}

abbrev flags : FlagSet
flags = strings_only (codes "namespace" ∷ codes "name" ∷ codes "timeline" ∷ [])

abbrev settings : Settings
settings = (codes "name", codes "pod-1") ∷ (codes "timeline", codes "/tmp/t.jsonl") ∷ []

settings-IsPlain : All (IsPlain flags) settings
unfolding text_eq
settings-IsPlain = ground arith

timeline_path-parse_example :
    (parse flags (spelled_out settings) ≡ done settings)
    × (timeline_path (codes "/tmp/d") (spelled_out settings)
        ≡ value_of (codes "timeline") (codes "/tmp/d") settings)
timeline_path-parse_example = timeline_path-parse flags (codes "/tmp/d") settings settings-IsPlain

abbrev pub now : Now
now = record { rfc3339 = codes "2024-01-01T00:00:00Z"; unix = 1704067200 }

corrupts :
    (run_corrupt_block machine
      (corrupt machine (block_path two_blocks.data_dir (chunk 0)) 2)
      two_blocks.fs).0
    ≡ none
unfolding write_block observe write_path insert text_eq block_path join_path sanitize replace_pair
    replace_char trim_space decimal run_corrupt_block parse argument corrupt_flags overwrite
    bytes_count value_of split_two open_to_write write_at_start lookup
corrupts = refl

both_read :
    ((read_block disk elapsed (read_request (chunk 0) 0 0) two_blocks).0
      ≡ ok (record { payload = codes "hello" }))
    × ((read_block disk elapsed (read_request (chunk 1) 1 3) two_blocks).0
        ≡ ok (record { payload = codes "orl" }))
unfolding write_block observe write_path insert text_eq block_path join_path sanitize replace_pair
    replace_char trim_space decimal lookup read_block read_path window read_file
both_read = (refl, refl)

corrupt-read_block_example :
    (read_block disk elapsed
      (read_request (chunk 0) 1 3)
      (corrupted machine two_blocks (chunk 0) 2 (omega arith) (omega arith) corrupts)).0
    ≡ ok (record {
      payload = section 1 3 (map (λ i. (i * 17 + 31) % 255) (indices 2) ++ drop 2 (codes "hello"));
    })
corrupt-read_block_example =
    corrupt-read_block machine two_blocks (chunk 0) 2 (omega arith) (omega arith) corrupts elapsed
      elapsed 1 3 (codes "hello") both_read.0

corrupt-read_block_ne_example :
    (read_block disk elapsed
      (read_request (chunk 1) 1 3)
      (corrupted machine two_blocks (chunk 0) 2 (omega arith) (omega arith) corrupts)).0
    ≡ ok (record { payload = codes "orl" })
corrupt-read_block_ne_example =
    corrupt-read_block_ne machine two_blocks (chunk 0) 2 (omega arith) (omega arith) corrupts
      elapsed elapsed 1 3 (chunk 1) (record { payload = codes "orl" })
      (inr (λ e. ground (arith, e))) both_read.1
