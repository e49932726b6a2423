-- ===== src/Ost/Blocks.antt =====
-- The handlers of pkg/ost/service.go against a map of blocks.
use kube_pfs.Base.{
  ℕ, zero, suc, ◌≤◌, ◌≡◌, ◌≢◌, ◌∙◌, refl, sym, true, Option, some, [], ◌∷◌, ◌++◌, ltb, arith,
  length, take, drop, if◌then◌else◌, take_of_length-le, ◌⊎◌, inl, inr,
}
use kube_pfs.FileSystem.{
  AreApart, FileSystem, missing, other, bytes, failed, Contents, Contents-cases, Missing,
}
use kube_pfs.Ost.Handlers.{
  Service, Elapsed, observe, window, write_path, read_path, delete_path, write_block, read_block,
  delete_block,
}
use kube_pfs.Ost.Paths.{block_path, sanitize}
use kube_pfs.Ost.Paths.Distinct.{block_path-AreApart}
use kube_pfs.Proto.Storage.{
  BlockRef, WriteBlockRequest, WriteBlockResponse, ReadBlockRequest, ReadBlockResponse,
  DeleteBlockRequest,
}
use kube_pfs.Status.{Result, ok, err, not_found, internal}
use kube_pfs.Text.{Text, codes}
use kube_pfs.Text.Path.{dir}

-- The requests of a client.
abbrev pub write_request : BlockRef → Text → Option WriteBlockRequest
write_request ref b = some (record { block = some ref; payload = b })

abbrev pub read_request : BlockRef → ℕ → ℕ → Option ReadBlockRequest
read_request ref offset len = some (record { block = some ref; offset = offset; length = len })

abbrev pub delete_request : BlockRef → Option DeleteBlockRequest
delete_request ref = some (record { block = some ref })

-- The bytes from `offset` on, `len` of them at most, or all if `len` is zero.
abbrev pub section : ℕ → ℕ → Text → Text
section offset len b = if ltb 0 len then take len (drop offset b) else drop offset b

drop_of_length-le : (n : ℕ) (b : Text) → length b ≤ n → drop n b ≡ []
drop_of_length-le zero [] h = refl
drop_of_length-le (suc n) [] h = refl
drop_of_length-le zero (c ∷ b) h = absurd (omega arith)
drop_of_length-le (suc n) (c ∷ b) h = drop_of_length-le n b (omega arith)

window-section : (offset len : ℕ) (b : Text) → window offset len b ≡ section offset len b
unfolding window
window-section offset len b =
    ground (arith, drop_of_length-le offset b, take_of_length-le len (drop offset b))

module _ (files : FileSystem) where
  open files use {
    Fs, mkdir_all, write_file, remove, read_file, read-write_self, read-write_ne, read-mkdir_all,
    read-remove_self, read-remove_ne,
  }

  -- What a read answers for the contents of the file.
  abbrev pub read_answer : ℕ → ℕ → Contents → Result ReadBlockResponse
  read_answer offset len (bytes b) = ok (record { payload = section offset len b })
  read_answer offset len (failed (missing m)) = err not_found (codes "block not found")
  read_answer offset len (failed (other m)) = err internal (codes "read block: " ++ m)

  pub read_block-answer :
      (s : Service Fs) (ref : BlockRef) (elapsed : Elapsed) (offset len : ℕ)
      → (read_block files elapsed (read_request ref offset len) s).0
        ≡ read_answer offset len (read_file (block_path s.data_dir ref) s.fs)
  unfolding read_block read_path
  read_block-answer s ref elapsed offset len =
      elim (Contents-cases (read_file (block_path s.data_dir ref) s.fs)) [
        | inl (b, e) ↦ ground (arith, window-section offset len b)
        | inr (inl (m, e)) ↦ ground arith
        | inr (inr (m, e)) ↦ ground arith
      ]

  answer-Missing :
      (offset len : ℕ) (c : Contents)
      → Missing c
      → read_answer offset len c ≡ err not_found (codes "block not found")
  answer-Missing offset len (bytes b) h = absurd h
  answer-Missing offset len (failed (missing m)) h = refl
  answer-Missing offset len (failed (other m)) h = absurd h

  pub read_answer-ok :
      (offset len : ℕ) (c : Contents) (resp : ReadBlockResponse)
      → read_answer offset len c ≡ ok resp
      → (b : Text) × (c ≡ bytes b)
  read_answer-ok offset len (bytes b) resp h = (b, refl)
  read_answer-ok offset len (failed (missing m)) resp h = absurd (cc h)
  read_answer-ok offset len (failed (other m)) resp h = absurd (cc h)

  -- A read that succeeded succeeds alike in a state whose file has kept its contents.
  pub read_block_kept :
      (s t : Service Fs) (ref : BlockRef) (before later : Elapsed) (offset len : ℕ)
      (resp : ReadBlockResponse)
      → t.data_dir ≡ s.data_dir
      → ((c : Text)
          → read_file (block_path s.data_dir ref) s.fs ≡ bytes c
          → read_file (block_path s.data_dir ref) t.fs ≡ bytes c)
      → (read_block files before (read_request ref offset len) s).0 ≡ ok resp
      → (read_block files later (read_request ref offset len) t).0 ≡ ok resp
  read_block_kept s t ref before later offset len resp same kept h =
      let answered = sym (read_block-answer s ref before offset len) ∙ h in
      let (c, found) = read_answer-ok offset len _ resp answered in
      read_block-answer t ref later offset len ∙ rw (same, kept c found) (rw found at answered)

  module _ (s : Service Fs) (ref : BlockRef) (elapsed : Elapsed) where
    abbrev path : Text
    path = block_path s.data_dir ref

    module _ (b : Text) where
      abbrev pub written : Service Fs
      written = (write_block files elapsed (write_request ref b) s).1

      pub written-dir : written.data_dir ≡ s.data_dir
      unfolding write_block write_path observe
      written-dir = ground arith

      pub written-ok :
          (resp : WriteBlockResponse)
          → (write_block files elapsed (write_request ref b) s).0 ≡ ok resp
          → (read_file path written.fs ≡ bytes b) × (resp.bytes_written ≡ length b)
      unfolding write_block write_path observe
      written-ok resp h = ground (arith, read-write_self path b (mkdir_all (dir path) s.fs).1)

      pub written-kept :
          (q c : Text)
          → AreApart path q
          → read_file q s.fs ≡ bytes c
          → read_file q written.fs ≡ bytes c
      unfolding write_block write_path observe
      written-kept q c apart h = ground (
        arith,
        read-mkdir_all (dir path) q c s.fs,
        read-write_ne path q b c (mkdir_all (dir path) s.fs).1,
      )

      -- A successful WriteBlock reports the number of the bytes, and a ReadBlock of the same block
      -- behind it answers the section of these bytes that it asks for, at each offset and length.
      pub read_block-write_block :
          (later : Elapsed) (offset len : ℕ) (resp : WriteBlockResponse)
          → (write_block files elapsed (write_request ref b) s).0 ≡ ok resp
          → ((read_block files later (read_request ref offset len) written).0
              ≡ ok (record { payload = section offset len b }))
            × (resp.bytes_written ≡ length b)
      read_block-write_block later offset len resp h =
          let (stored, count) = written-ok resp h in
          (read_block-answer written ref later offset len ∙ rw (written-dir, stored), count)

      -- Whatever WriteBlock answers, a block with another sanitized file id or another chunk that
      -- could be read before it is read to the same bytes behind it.
      pub read_block-write_block_ne :
          (ref' : BlockRef) (before later : Elapsed) (offset len : ℕ) (resp : ReadBlockResponse)
          → (sanitize ref.file_id ≢ sanitize ref'.file_id) ⊎ (ref.chunk_id ≢ ref'.chunk_id)
          → (read_block files before (read_request ref' offset len) s).0 ≡ ok resp
          → (read_block files later (read_request ref' offset len) written).0 ≡ ok resp
      read_block-write_block_ne ref' before later offset len resp apart =
          read_block_kept s written ref' before later offset len resp written-dir (λ c.
            written-kept (block_path s.data_dir ref') c
              (block_path-AreApart s.data_dir ref ref' apart))

    abbrev pub deleted : Service Fs
    deleted = (delete_block files elapsed (delete_request ref) s).1

    pub deleted-dir : deleted.data_dir ≡ s.data_dir
    unfolding delete_block delete_path observe
    deleted-dir = ground arith

    pub deleted-kept :
        (q c : Text)
        → AreApart path q
        → read_file q s.fs ≡ bytes c
        → read_file q deleted.fs ≡ bytes c
    unfolding delete_block delete_path observe
    deleted-kept q c apart h = ground (arith, read-remove_ne path q c s.fs)

    deleted-Missing :
        (delete_block files elapsed (delete_request ref) s).0 ≡ ok (record { deleted = true })
        → Missing (read_file path deleted.fs)
    unfolding delete_block delete_path observe
    deleted-Missing h = ground (arith, read-remove_self path s.fs)

    -- Behind a DeleteBlock that answers `deleted`, a ReadBlock of the block is not found.
    pub read_block-delete_block :
        (later : Elapsed) (offset len : ℕ)
        → (delete_block files elapsed (delete_request ref) s).0 ≡ ok (record { deleted = true })
        → (read_block files later (read_request ref offset len) deleted).0
          ≡ err not_found (codes "block not found")
    read_block-delete_block later offset len h =
        read_block-answer deleted ref later offset len
        ∙ rw deleted-dir (answer-Missing offset len _ (deleted-Missing h))

    -- Whatever DeleteBlock answers, a block with another sanitized file id or another chunk that
    -- could be read before it is read to the same bytes behind it.
    pub read_block-delete_block_ne :
        (ref' : BlockRef) (before later : Elapsed) (offset len : ℕ) (resp : ReadBlockResponse)
        → (sanitize ref.file_id ≢ sanitize ref'.file_id) ⊎ (ref.chunk_id ≢ ref'.chunk_id)
        → (read_block files before (read_request ref' offset len) s).0 ≡ ok resp
        → (read_block files later (read_request ref' offset len) deleted).0 ≡ ok resp
    read_block-delete_block_ne ref' before later offset len resp apart =
        read_block_kept s deleted ref' before later offset len resp deleted-dir (λ c.
          deleted-kept (block_path s.data_dir ref') c
            (block_path-AreApart s.data_dir ref ref' apart))
