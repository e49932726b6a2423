-- ===== src/Ost/Reading.antt =====
-- What `ReadBlock` of pkg/ost/service.go leaves as it was.
use kube_pfs.Base.{◌≡◌, Option, ℕ, inl, inr, arith, Option-cases}
use kube_pfs.FileSystem.{FileSystem, Contents-cases}
use kube_pfs.Ost.Handlers.{Service, Elapsed, observe, read_path, read_block}
use kube_pfs.Ost.Paths.{block_path}
use kube_pfs.Proto.Storage.{ReadBlockRequest, read_block_request_get}
use kube_pfs.Text.{Text}

module _ (files : FileSystem) where
  open files use {Fs, read_file}

  read_path-same :
      (path : Text) (from count : ℕ) (o : Service Fs)
      → ((read_path files path from count o).1.fs ≡ o.fs)
        × ((read_path files path from count o).1.data_dir ≡ o.data_dir)
  unfolding read_path
  read_path-same path from count o = elim (Contents-cases (read_file path o.fs)) [
    | inl (b, e) ↦ (ground (arith, e), ground (arith, e))
    | inr (inl (m, e)) ↦ (ground (arith, e), ground (arith, e))
    | inr (inr (m, e)) ↦ (ground (arith, e), ground (arith, e))
  ]

  pub read_block-same :
      (elapsed : Elapsed) (request : Option ReadBlockRequest) (o : Service Fs)
      → ((read_block files elapsed request o).1.fs ≡ o.fs)
        × ((read_block files elapsed request o).1.data_dir ≡ o.data_dir)
  unfolding read_block observe
  read_block-same elapsed request o =
      let req = read_block_request_get request in
      elim (Option-cases req.block) [
        | inl e ↦ (ground (arith, e), ground (arith, e))
        | inr (b, e) ↦
            let same = read_path-same (block_path o.data_dir b) req.offset req.length o in
            (ground (arith, e, same), ground (arith, e, same))
      ]
