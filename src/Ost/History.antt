-- ===== src/Ost/History.antt =====
-- Histories of calls to pkg/ost/service.go, as a client that watches one block replays them.
use kube_pfs.Base.{
  ℕ, ◌≡◌, ◌∙◌, refl, sym, inl, inr, Bool, true, false, ◌&&◌, ◌==◌, Option, none, some, List, [],
  ◌∷◌, arith, if◌then◌else◌, Bool-cases, Option-cases,
}
use kube_pfs.FileSystem.{AreApart, FileSystem, bytes}
use kube_pfs.Ost.Blocks.{
  write_request, read_request, delete_request, section, read_block-answer, written-dir, written-ok,
  written-kept, deleted-dir, deleted-kept,
}
use kube_pfs.Ost.Counters.{Call, writes, reads, deletes, serve}
use kube_pfs.Ost.Handlers.{Service, Elapsed, observe, write_block, read_block, delete_block}
use kube_pfs.Ost.Paths.{block_path, sanitize}
use kube_pfs.Ost.Paths.Distinct.{block_path-AreApart}
use kube_pfs.Ost.Reading.{read_block-same}
use kube_pfs.Proto.Storage.{
  BlockRef, WriteBlockRequest, write_block_request_get, WriteBlockResponse, DeleteBlockRequest,
  delete_block_request_get,
}
use kube_pfs.Status.{Result, ok, err, panic}
use kube_pfs.Text.{Text, text_eq, text_eq_iff}

-- Two references name one block: the sanitized file ids and the chunks are the same.
abbrev pub same_block : BlockRef → BlockRef → Bool
same_block r q = text_eq (sanitize r.file_id) (sanitize q.file_id) && (r.chunk_id == q.chunk_id)

-- What a client knows of a block from the answers alone: the bytes of the last write to it, until
-- one of its writes fails or it is deleted.
abbrev pub after_write :
    BlockRef → Option BlockRef → Text → Result WriteBlockResponse → Option Text → Option Text
after_write ref none payload answer known = known
after_write ref (some q) payload (ok resp) known = if same_block q ref then some payload else known
after_write ref (some q) payload (err c m) known = if same_block q ref then none else known
after_write ref (some q) payload panic known = if same_block q ref then none else known

abbrev pub after_delete : BlockRef → Option BlockRef → Option Text → Option Text
after_delete ref none known = known
after_delete ref (some q) known = if same_block q ref then none else known

same_block-path :
    (dir : Text) (r q : BlockRef) → same_block r q ≡ true → block_path dir r ≡ block_path dir q
unfolding block_path
same_block-path dir r q h = ground (arith, text_eq_iff (sanitize r.file_id) (sanitize q.file_id))

same_block-AreApart :
    (dir : Text) (r q : BlockRef)
    → same_block r q ≡ false
    → AreApart (block_path dir r) (block_path dir q)
same_block-AreApart dir r q h =
    elim (Bool-cases (text_eq (sanitize r.file_id) (sanitize q.file_id))) [
      | inl e ↦ block_path-AreApart dir r q (inr (ground (arith, e)))
      | inr e ↦
          block_path-AreApart dir r q
            (inl (ground (arith, e, text_eq_iff (sanitize r.file_id) (sanitize q.file_id))))
    ]

module _ (files : FileSystem) (ref : BlockRef) where
  open files use {Fs, read_file}

  abbrev pub replay : List Call → Service Fs → Option Text → Option Text
  replay [] s known = known
  replay (writes elapsed request ∷ calls) s known =
      let req = write_block_request_get request in
      let (answer, t) = write_block files elapsed request s in
      replay calls t (after_write ref req.block req.payload answer known)
  replay (reads elapsed request ∷ calls) s known =
      replay calls (read_block files elapsed request s).1 known
  replay (deletes elapsed request ∷ calls) s known =
      replay calls (delete_block files elapsed request s).1
        (after_delete ref (delete_block_request_get request).block known)

  abbrev Holds : Option Text → Service Fs → Type 0
  Holds known s = (b : Text) → known ≡ some b → read_file (block_path s.data_dir ref) s.fs ≡ bytes b

  write_block_named :
      (elapsed : Elapsed) (request : Option WriteBlockRequest) (s : Service Fs) (q : BlockRef)
      → (write_block_request_get request).block ≡ some q
      → write_block files elapsed request s
        ≡ write_block files elapsed (write_request q (write_block_request_get request).payload) s
  unfolding write_block
  write_block_named elapsed request s q h = rw h

  write_block_unnamed :
      (elapsed : Elapsed) (request : Option WriteBlockRequest) (s : Service Fs)
      → (write_block_request_get request).block ≡ none
      → ((write_block files elapsed request s).1.fs ≡ s.fs)
        × ((write_block files elapsed request s).1.data_dir ≡ s.data_dir)
  unfolding write_block observe
  write_block_unnamed elapsed request s h = (ground (arith, h), ground (arith, h))

  delete_block_unnamed :
      (elapsed : Elapsed) (request : Option DeleteBlockRequest) (s : Service Fs)
      → (delete_block_request_get request).block ≡ none
      → ((delete_block files elapsed request s).1.fs ≡ s.fs)
        × ((delete_block files elapsed request s).1.data_dir ≡ s.data_dir)
  unfolding delete_block observe
  delete_block_unnamed elapsed request s h = (ground (arith, h), ground (arith, h))

  delete_block_named :
      (elapsed : Elapsed) (request : Option DeleteBlockRequest) (s : Service Fs) (q : BlockRef)
      → (delete_block_request_get request).block ≡ some q
      → delete_block files elapsed request s ≡ delete_block files elapsed (delete_request q) s
  unfolding delete_block
  delete_block_named elapsed request s q h = rw h

  module _ (elapsed : Elapsed) (q : BlockRef) (payload : Text) (s : Service Fs) where
    abbrev wrote : Service Fs
    wrote = (write_block files elapsed (write_request q payload) s).1

    wrote-kept :
        (known : Option Text) → same_block q ref ≡ false → Holds known s → Holds known wrote
    wrote-kept known other holds b e = rw (written-dir files s q elapsed payload) (
        written-kept files s q elapsed payload (block_path s.data_dir ref) b
          (same_block-AreApart s.data_dir q ref other) (holds b e))

    wrote-Holds :
        (known : Option Text) (answer : Result WriteBlockResponse)
        → (write_block files elapsed (write_request q payload) s).0 ≡ answer
        → Holds known s
        → Holds (after_write ref (some q) payload answer known) wrote
    wrote-Holds known (ok resp) h holds b e = elim (Bool-cases (same_block q ref)) [
      | inl same ↦
          let stored = (written-ok files s q elapsed payload resp h).0 in
          let last : payload ≡ b = ground (arith, same, e) in
          rw
            (
              written-dir files s q elapsed payload,
              sym (same_block-path s.data_dir q ref same),
              sym last,
            )
            stored
      | inr other ↦ wrote-kept known other holds b (rw other at e)
    ]
    wrote-Holds known (err c m) h holds b e = elim (Bool-cases (same_block q ref)) [
      | inl same ↦ absurd (ground (arith, same, e))
      | inr other ↦ wrote-kept known other holds b (rw other at e)
    ]
    wrote-Holds known panic h holds b e = elim (Bool-cases (same_block q ref)) [
      | inl same ↦ absurd (ground (arith, same, e))
      | inr other ↦ wrote-kept known other holds b (rw other at e)
    ]

  deleted-Holds :
      (elapsed : Elapsed) (q : BlockRef) (s : Service Fs) (known : Option Text)
      → Holds known s
      → Holds (after_delete ref (some q) known) (delete_block files elapsed (delete_request q) s).1
  deleted-Holds elapsed q s known holds b e = elim (Bool-cases (same_block q ref)) [
    | inl same ↦ absurd (ground (arith, same, e))
    | inr other ↦ rw (deleted-dir files s q elapsed) (
        deleted-kept files s q elapsed (block_path s.data_dir ref) b
          (same_block-AreApart s.data_dir q ref other) (holds b (rw other at e)))
  ]

  write-Holds :
      (elapsed : Elapsed) (request : Option WriteBlockRequest) (s : Service Fs)
      (known : Option Text)
      → Holds known s
      → Holds
          (after_write ref
            (write_block_request_get request).block
            (write_block_request_get request).payload
            (write_block files elapsed request s).0
            known)
          (write_block files elapsed request s).1
  write-Holds elapsed request s known holds =
      let req = write_block_request_get request in
      elim (Option-cases req.block) [
        | inl e ↦
            let (fs, dir) = write_block_unnamed elapsed request s e in
            λ b h. rw (fs, dir) (holds b (rw e at h))
        | inr (q, e) ↦
            rw (e, write_block_named elapsed request s q e)
              (wrote-Holds elapsed q req.payload s known _ refl holds)
      ]

  delete-Holds :
      (elapsed : Elapsed) (request : Option DeleteBlockRequest) (s : Service Fs)
      (known : Option Text)
      → Holds known s
      → Holds
          (after_delete ref (delete_block_request_get request).block known)
          (delete_block files elapsed request s).1
  delete-Holds elapsed request s known holds =
      elim (Option-cases (delete_block_request_get request).block) [
        | inl e ↦
            let (fs, dir) = delete_block_unnamed elapsed request s e in
            λ b h. rw (fs, dir) (holds b (rw e at h))
        | inr (q, e) ↦
            rw (e, delete_block_named elapsed request s q e) (deleted-Holds elapsed q s known holds)
      ]

  serve-Holds :
      (calls : List Call) (s : Service Fs) (known : Option Text)
      → Holds known s
      → Holds (replay calls s known) (serve files calls s)
  serve-Holds [] s known holds = holds
  serve-Holds (writes elapsed request ∷ calls) s known holds =
      serve-Holds calls _ _ (write-Holds elapsed request s known holds)
  serve-Holds (reads elapsed request ∷ calls) s known holds =
      let (fs, dir) = read_block-same files elapsed request s in
      serve-Holds calls _ known (λ b e. rw (fs, dir) (holds b e))
  serve-Holds (deletes elapsed request ∷ calls) s known holds =
      serve-Holds calls _ _ (delete-Holds elapsed request s known holds)

  -- Behind any calls, however they are answered, a ReadBlock answers the section that it asks for
  -- of the bytes that the last successful WriteBlock to the block has brought, if no WriteBlock to
  -- it failed and no DeleteBlock named it after that. A reference names the same block if its
  -- sanitized file id and its chunk are the same.
  pub read_block-serve :
      (calls : List Call) (s : Service Fs) (later : Elapsed) (offset len : ℕ) (b : Text)
      → replay calls s none ≡ some b
      → (read_block files later (read_request ref offset len) (serve files calls s)).0
        ≡ ok (record { payload = section offset len b })
  read_block-serve calls s later offset len b h =
      let nothing : Holds none s = λ c e. absurd (cc e) in
      read_block-answer files (serve files calls s) ref later offset len
      ∙ rw (serve-Holds calls s none nothing b h)
