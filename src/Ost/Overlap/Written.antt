-- ===== src/Ost/Overlap/Written.antt =====
-- What a `WriteBlock` of pkg/ost/service.go leaves while other calls overlap with it.
use kube_pfs.Base.{ℕ, ◌≡◌, ◌≢◌, ◌∙◌, refl, ◌⊎◌, List, [], ◌∷◌, All, length, inl, inr, Option-cases}
use kube_pfs.FileSystem.{FileSystem, bytes}
use kube_pfs.Ost.Blocks.{read_request, section, read_block-answer}
use kube_pfs.Ost.Handlers.{Service, Elapsed, observe, read_block}
use kube_pfs.Ost.Overlap.{
  Progress, begun, prepared, answered, ended, Action, makes_dir, writes_file, removes_file,
  counts_read, observes, Turn, own, other, act, step, turns,
}
use kube_pfs.Ost.Paths.{block_path, sanitize}
use kube_pfs.Ost.Paths.Distinct.{block_path-AreApart}
use kube_pfs.Proto.Storage.{BlockRef, WriteBlockResponse}
use kube_pfs.Status.{Result, ok, err, panic}
use kube_pfs.Text.{Text}
use kube_pfs.Text.Path.{dir}

module _ (files : FileSystem) (ref : BlockRef) (payload : Text) (elapsed : Elapsed) where
  open files use {
    Fs, mkdir_all, write_file, remove, read_file, read-write_self, read-write_ne, read-mkdir_all,
    read-remove_ne,
  }

  -- Another block: with another sanitized file id, or another chunk.
  abbrev pub IsOther : BlockRef → Type 0
  IsOther q = (sanitize q.file_id ≢ sanitize ref.file_id) ⊎ (q.chunk_id ≢ ref.chunk_id)

  -- The steps of other calls write and remove other blocks.
  abbrev pub IsApart : Turn → Type 0
  IsApart (other (writes_file q b)) = IsOther q
  IsApart (other (removes_file q)) = IsOther q
  IsApart _ = Unit

  abbrev IsSaved : Result WriteBlockResponse → Service Fs → Type 0
  IsSaved (ok resp) s =
      (read_file (block_path s.data_dir ref) s.fs ≡ bytes payload)
      × (resp.bytes_written ≡ length payload)
  IsSaved _ s = Unit

  -- A WriteBlock that has answered successfully has written its file.
  abbrev IsWritten : Progress → Service Fs → Type 0
  IsWritten (answered r) s = IsSaved r s
  IsWritten (ended r) s = IsSaved r s
  IsWritten _ s = Unit

  act-dir : (action : Action) (s : Service Fs) → (act files action s).data_dir ≡ s.data_dir
  unfolding act observe
  act-dir (makes_dir q) s = refl
  act-dir (writes_file q b) s = refl
  act-dir (removes_file q) s = refl
  act-dir (counts_read n) s = refl
  act-dir (observes op n elapsed) s = refl

  act-read_file :
      (action : Action) (s : Service Fs)
      → IsApart (other action)
      → read_file (block_path s.data_dir ref) s.fs ≡ bytes payload
      → read_file (block_path s.data_dir ref) (act files action s).fs ≡ bytes payload
  unfolding act observe
  act-read_file (makes_dir q) s apart h = read-mkdir_all _ _ payload s.fs h
  act-read_file (writes_file q b) s apart h =
      read-write_ne _ _ b payload s.fs (block_path-AreApart s.data_dir q ref apart) h
  act-read_file (removes_file q) s apart h =
      read-remove_ne _ _ payload s.fs (block_path-AreApart s.data_dir q ref apart) h
  act-read_file (counts_read n) s apart h = h
  act-read_file (observes op n elapsed) s apart h = h

  act-IsSaved :
      (action : Action) (r : Result WriteBlockResponse) (s : Service Fs)
      → IsApart (other action)
      → IsSaved r s
      → IsSaved r (act files action s)
  act-IsSaved action (ok resp) s apart (there, count) =
      (rw (act-dir action s) (act-read_file action s apart there), count)
  act-IsSaved action (err c m) s apart h = tt
  act-IsSaved action panic s apart h = tt

  act-IsWritten :
      (action : Action) (at : Progress) (s : Service Fs)
      → IsApart (other action)
      → IsWritten at s
      → IsWritten at (act files action s)
  act-IsWritten action begun s apart h = tt
  act-IsWritten action prepared s apart h = tt
  act-IsWritten action (answered r) s apart h = act-IsSaved action r s apart h
  act-IsWritten action (ended r) s apart h = act-IsSaved action r s apart h

  step-IsWritten :
      (at : Progress) (s : Service Fs)
      → IsWritten at s
      → IsWritten (step files ref payload elapsed at s).0 (step files ref payload elapsed at s).1
  unfolding step observe
  step-IsWritten begun s h =
      elim (Option-cases (mkdir_all (dir (block_path s.data_dir ref)) s.fs).0) [
        | inl e ↦ rw (e, step) tt
        | inr (x, e) ↦ rw (e, step) tt
      ]
  step-IsWritten prepared s h =
      elim (Option-cases (write_file (block_path s.data_dir ref) payload s.fs).0) [
        | inl e ↦ rw (e, step) (read-write_self (block_path s.data_dir ref) payload s.fs e, refl)
        | inr (x, e) ↦ rw (e, step) tt
      ]
  step-IsWritten (answered (ok resp)) s h = h
  step-IsWritten (answered (err c m)) s h = tt
  step-IsWritten (answered panic) s h = tt
  step-IsWritten (ended r) s h = h

  turns-IsWritten :
      (list : List Turn) (at : Progress) (s : Service Fs)
      → All IsApart list
      → IsWritten at s
      → IsWritten
          (turns files ref payload elapsed list at s).0
          (turns files ref payload elapsed list at s).1
  unfolding turns
  turns-IsWritten [] at s apart h = h
  turns-IsWritten (own ∷ more) at s (_, apart) h =
      turns-IsWritten more _ _ apart (step-IsWritten at s h)
  turns-IsWritten (other action ∷ more) at s (one, apart) h =
      turns-IsWritten more at _ apart (act-IsWritten action at s one h)

  -- A WriteBlock that has ended with success reports the number of the bytes, and a ReadBlock of
  -- the block then answers the section of these bytes that it asks for, whatever steps of other
  -- calls there were between its own steps and behind them, if they write and remove other blocks
  -- only: with another sanitized file id or another chunk.
  pub read_block-turns :
      (list : List Turn) (s t : Service Fs) (resp : WriteBlockResponse) (later : Elapsed)
      (offset len : ℕ)
      → All IsApart list
      → turns files ref payload elapsed list begun s ≡ (ended (ok resp), t)
      → ((read_block files later (read_request ref offset len) t).0
          ≡ ok (record { payload = section offset len payload }))
        × (resp.bytes_written ≡ length payload)
  read_block-turns list s t resp later offset len apart h =
      let (stored, count) = rw h at (turns-IsWritten list begun s apart tt) in
      (read_block-answer files t ref later offset len ∙ rw stored, count)
