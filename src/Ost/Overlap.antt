-- ===== src/Ost/Overlap.antt =====
-- A `WriteBlock` of pkg/ost/service.go in its steps, with the steps of other calls between them.
-- Each call of package os is one step, and so is the deferred `observe`.
pub mod Written
use kube_pfs.Base.{
  ℕ, ◌+◌, ◌-◌, ◌≤◌, All, ◌≡◌, ◌≢◌, ◌∙◌, refl, sym, ◌⊎◌, Option, none, some, List, [], ◌∷◌, ◌++◌,
  arith, length, inl, inr, Option-cases,
}
use kube_pfs.FileSystem.{FileSystem, error_text, bytes}
use kube_pfs.Metrics.{add_read_throughput}
use kube_pfs.Ost.Blocks.{write_request, read_request, section, read_block-answer}
use kube_pfs.Ost.Handlers.{Service, Elapsed, observe, write_path, write_block, read_block}
use kube_pfs.Ost.Paths.{block_path}
use kube_pfs.Proto.Storage.{BlockRef, WriteBlockResponse}
use kube_pfs.Status.{Result, ok, err, internal}
use kube_pfs.Text.{Text, codes}
use kube_pfs.Text.Path.{dir}

-- How far a WriteBlock has come: to its directory, to its file, to its deferred call, to the end.
pub data Progress : Type 0 where
  begun prepared : Progress
  answered ended : Result WriteBlockResponse → Progress

-- The steps of other calls that change the state: of WriteBlock, of DeleteBlock, of ReadBlock, which
-- counts the bytes that it answers, and `observe`.
pub data Action : Type 0 where
  makes_dir : BlockRef → Action
  writes_file : BlockRef → Text → Action
  removes_file : BlockRef → Action
  counts_read : ℕ → Action
  observes : Text → ℕ → Elapsed → Action

-- Whose turn it is.
pub data Turn : Type 0 where
  own : Turn
  other : Action → Turn

module _ (files : FileSystem) where
  open files use {
    Fs, mkdir_all, write_file, remove, read_file, read-write_self, read-write_ne, read-mkdir_all,
    read-remove_ne,
  }

  unfoldable pub act : Action → Service Fs → Service Fs
  act (makes_dir q) s = record s { fs = (mkdir_all (dir (block_path s.data_dir q)) s.fs).1 }
  act (writes_file q b) s = record s { fs = (write_file (block_path s.data_dir q) b s.fs).1 }
  act (removes_file q) s = record s { fs = (remove (block_path s.data_dir q) s.fs).1 }
  act (counts_read n) s = record s {
    metrics = add_read_throughput (codes "ost") s.ost_id n s.metrics;
  }
  act (observes op n elapsed) s = observe op n elapsed s

  module _ (ref : BlockRef) (payload : Text) (elapsed : Elapsed) where
    unfoldable pub step : Progress → Service Fs → Progress × Service Fs
    step begun s =
        let (e, f) = mkdir_all (dir (block_path s.data_dir ref)) s.fs in
        elim e [
          | some x ↦ (
            answered (err internal (codes "mkdir block parent: " ++ error_text x)),
            record s { fs = f },
          )
          | none ↦ (prepared, record s { fs = f })
        ]
    step prepared s =
        let (e, f) = write_file (block_path s.data_dir ref) payload s.fs in
        elim e [
          | some x ↦
              (answered (err internal (codes "write block: " ++ error_text x)), record s { fs = f })
          | none ↦ (answered (ok (record { bytes_written = length payload })), record s { fs = f })
        ]
    step (answered r) s = (ended r, observe (codes "write") (length payload) elapsed s)
    step (ended r) s = (ended r, s)

    unfoldable pub turns : List Turn → Progress → Service Fs → Progress × Service Fs
    turns [] at s = (at, s)
    turns (own ∷ more) at s = let (now, t) = step at s in turns more now t
    turns (other action ∷ more) at s = turns more at (act action s)
