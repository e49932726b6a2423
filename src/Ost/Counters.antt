-- ===== src/Ost/Counters.antt =====
-- The counters of pkg/ost/service.go through a history of calls, as `GetHealth` reports them.
use kube_pfs.Base.{ℕ, ◌+◌, ◌%◌, ◌^◌, ◌≡◌, Option, List, [], ◌∷◌, arith, length}
use kube_pfs.FileSystem.{FileSystem}
use kube_pfs.Ost.Handlers.{
  Service, Elapsed, observe, get_health, write_path, read_path, delete_path, write_block,
  read_block, delete_block,
}
use kube_pfs.Proto.Storage.{
  WriteBlockRequest, write_block_request_get, ReadBlockRequest, DeleteBlockRequest,
}

pub data Call : Type 0 where
  writes : Elapsed → Option WriteBlockRequest → Call
  reads : Elapsed → Option ReadBlockRequest → Call
  deletes : Elapsed → Option DeleteBlockRequest → Call

-- The bytes that the calls ask to write, whether the writes succeed or not.
abbrev pub asked_bytes : List Call → ℕ
asked_bytes [] = 0
asked_bytes (writes elapsed request ∷ calls) =
    length (write_block_request_get request).payload + asked_bytes calls
asked_bytes (reads elapsed request ∷ calls) = asked_bytes calls
asked_bytes (deletes elapsed request ∷ calls) = asked_bytes calls

module _ (files : FileSystem) where
  open files use {Fs}

  abbrev pub serve : List Call → Service Fs → Service Fs
  serve [] s = s
  serve (writes elapsed request ∷ calls) s = serve calls (write_block files elapsed request s).1
  serve (reads elapsed request ∷ calls) s = serve calls (read_block files elapsed request s).1
  serve (deletes elapsed request ∷ calls) s = serve calls (delete_block files elapsed request s).1

  module _ (elapsed : Elapsed) (s : Service Fs) where
    written :
        (request : Option WriteBlockRequest)
        → ((write_block files elapsed request s).1.iops_total ≡ (s.iops_total + 1) % 2 ^ 64)
          × ((write_block files elapsed request s).1.bytes_total % 2 ^ 64
              ≡ (s.bytes_total + length (write_block_request_get request).payload) % 2 ^ 64)
    unfolding write_block write_path observe
    written request = (ground arith, ground arith)

    read :
        (request : Option ReadBlockRequest)
        → ((read_block files elapsed request s).1.iops_total ≡ (s.iops_total + 1) % 2 ^ 64)
          × ((read_block files elapsed request s).1.bytes_total ≡ s.bytes_total)
    unfolding read_block read_path observe
    read request = (ground arith, ground arith)

    deleted :
        (request : Option DeleteBlockRequest)
        → ((delete_block files elapsed request s).1.iops_total ≡ (s.iops_total + 1) % 2 ^ 64)
          × ((delete_block files elapsed request s).1.bytes_total ≡ s.bytes_total)
    unfolding delete_block delete_path observe
    deleted request = (ground arith, ground arith)

  -- After a run of calls, GetHealth reports what it reported before plus one operation for each
  -- call and the bytes of each write, also of the calls that fail. The sums are modulo 2^64.
  pub get_health-serve :
      (calls : List Call) (s : Service Fs)
      → ((get_health (serve calls s)).iops_total % 2 ^ 64
          ≡ ((get_health s).iops_total + length calls) % 2 ^ 64)
        × ((get_health (serve calls s)).throughput_bytes % 2 ^ 64
            ≡ ((get_health s).throughput_bytes + asked_bytes calls) % 2 ^ 64)
  unfolding get_health
  get_health-serve [] s = (ground arith, ground arith)
  get_health-serve (writes elapsed request ∷ calls) s =
      let one = written elapsed s request in
      let rest = get_health-serve calls (write_block files elapsed request s).1 in
      (omega (arith, one.0, rest.0), omega (arith, one.1, rest.1))
  get_health-serve (reads elapsed request ∷ calls) s =
      let one = read elapsed s request in
      let rest = get_health-serve calls (read_block files elapsed request s).1 in
      (omega (arith, one.0, rest.0), omega (arith, one.1, rest.1))
  get_health-serve (deletes elapsed request ∷ calls) s =
      let one = deleted elapsed s request in
      let rest = get_health-serve calls (delete_block files elapsed request s).1 in
      (omega (arith, one.0, rest.0), omega (arith, one.1, rest.1))
