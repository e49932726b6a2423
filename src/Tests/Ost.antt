-- ===== src/Tests/Ost.antt =====
-- The storage service at work, on a disk in memory.
use kube_pfs.Base.{none, ◌∷◌, true, ◌+◌, ◌%◌, ◌^◌, ◌⊎◌, List, ℕ, ◌≡◌, refl, []}
use kube_pfs.Ost.Blocks.{
  write_request, read_request, delete_request, section, read_block-write_block,
  read_block-delete_block,
}
use kube_pfs.Ost.Collision.{read_block-write_block_collision}
use kube_pfs.Ost.Counters.{Call, writes, reads, deletes, serve, get_health-serve}
use kube_pfs.Ost.Paths.Below.{block_path-below}
use kube_pfs.Ost.History.{read_block-serve}
use kube_pfs.Ost.Handlers.{
  get_health, Service, Elapsed, write_block, read_block, delete_block, write_path, delete_path,
  observe,
}
use kube_pfs.Ost.Paths.{block_path, block_file, sanitize}
use kube_pfs.Ost.Paths.Distinct.{IsName}
use kube_pfs.Proto.Storage.{BlockRef}
use kube_pfs.Status.{ok, err, not_found}
use kube_pfs.Table.{lookup, insert}
use kube_pfs.Tests.Instances.{disk, Files, remove_file}
use kube_pfs.Text.{Text, codes, text_eq}
use kube_pfs.Text.Decimal.{decimal}
use kube_pfs.Text.Path.{join_path, clean, render, dot}
use kube_pfs.Text.Edit.{replace_char, replace_pair, trim_space}

abbrev pub start : Service Files
start = record {
  ost_id = codes "ost-0";
  data_dir = codes "/data";
  iops_total = 0;
  bytes_total = 0;
  latency_ns = 0;
  metrics = [];
  fs = [];
}

abbrev pub elapsed : Elapsed
elapsed = record { timed = 5; counted = 7 }

abbrev pub chunk : ℕ → BlockRef
chunk n = record { file_id = codes "inode-7"; chunk_id = n; ost_id = codes "ost-0" }

abbrev pub payload : Text
payload = codes "hello"

abbrev pub one_block : Service Files
one_block = (write_block disk elapsed (write_request (chunk 0) payload) start).1

abbrev pub two_blocks : Service Files
two_blocks = (write_block disk elapsed (write_request (chunk 1) (codes "world")) one_block).1

abbrev deleted : Service Files
deleted = (delete_block disk elapsed (delete_request (chunk 0)) two_blocks).1

pub read_there :
    (read_block disk elapsed (read_request (chunk 0) 1 3) one_block).0
    ≡ ok (record { payload = codes "ell" })
unfolding write_block write_path
read_there =
    (read_block-write_block disk start (chunk 0) elapsed payload elapsed 1 3
      (record { bytes_written = 5 }) refl).0

read_block-delete_block_example :
    (read_block disk elapsed (read_request (chunk 0) 1 3) deleted).0
    ≡ err not_found (codes "block not found")
unfolding delete_block delete_path remove_file lookup write_block observe write_path insert text_eq
    block_path join_path sanitize replace_pair replace_char trim_space decimal
read_block-delete_block_example =
    read_block-delete_block disk two_blocks (chunk 0) elapsed elapsed 1 3 refl

read_block-write_block_collision_example :
    (read_block disk elapsed
      (read_request (record { file_id = codes "a/b"; chunk_id = 0; ost_id = codes "ost-0" }) 0 0)
      (write_block disk elapsed
        (write_request
          (record { file_id = codes "a_b"; chunk_id = 0; ost_id = codes "ost-0" })
          payload)
        start).1).0
    ≡ ok (record { payload = section 0 0 payload })
unfolding write_block write_path
read_block-write_block_collision_example =
    read_block-write_block_collision disk start (codes "a") (codes "b") 0 (codes "ost-0") elapsed
      elapsed payload 0 0 (record { bytes_written = 5 }) refl

abbrev calls : List Call
calls =
    writes elapsed (write_request (chunk 0) payload)
    ∷ reads elapsed (read_request (chunk 0) 0 0)
    ∷ writes elapsed none
    ∷ deletes elapsed (delete_request (chunk 9))
    ∷ []

get_health-serve_example :
    ((get_health (serve disk calls start)).iops_total % 2 ^ 64
      ≡ ((get_health start).iops_total + 4) % 2 ^ 64)
    × ((get_health (serve disk calls start)).throughput_bytes % 2 ^ 64
        ≡ ((get_health start).throughput_bytes + 5) % 2 ^ 64)
get_health-serve_example = get_health-serve disk calls start

block_path-below_example :
    (parts : List Text) × (clean (codes "/data") ≡ render true parts)
    × IsName (sanitize (codes "inode-7"))
    × ((block_path (codes "/data") (chunk 0)
          ≡ render true (block_file 0 ∷ sanitize (codes "inode-7") ∷ parts))
        ⊎ ((sanitize (codes "inode-7") ≡ dot)
            × (block_path (codes "/data") (chunk 0) ≡ render true (block_file 0 ∷ parts))))
unfolding text_eq
block_path-below_example = block_path-below (codes "/data") (chunk 0) refl

abbrev history : List Call
history =
    writes elapsed (write_request (chunk 0) (codes "old"))
    ∷ writes elapsed (write_request (chunk 0) payload)
    ∷ writes elapsed (write_request (chunk 1) (codes "world"))
    ∷ reads elapsed (read_request (chunk 0) 0 0)
    ∷ deletes elapsed (delete_request (chunk 1))
    ∷ []

read_block-serve_example :
    (read_block disk elapsed (read_request (chunk 0) 1 3) (serve disk history start)).0
    ≡ ok (record { payload = section 1 3 payload })
unfolding sanitize replace_pair replace_char trim_space text_eq write_block write_path observe
read_block-serve_example = read_block-serve disk (chunk 0) history start elapsed 1 3 payload refl
