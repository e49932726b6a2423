-- ===== src/Cmd/Faults/Corrupt.antt =====
-- What corrupt-block of cmd/fault-injector/main.go does to the blocks of the storage service.
use kube_pfs.Base.{
  ℕ, zero, suc, ◌+◌, ◌*◌, ◌%◌, ◌^◌, ◌<◌, ◌≡◌, ◌≢◌, ◌∙◌, ◌⊎◌, refl, ap, sym, none, List, [], ◌∷◌,
  ◌++◌, done, arith, map, length, drop, inl, inr, Option-cases,
}
use kube_pfs.Cmd.Faults.Actions.{pattern, run_corrupt_block, corrupt_flags, overwrite, bytes_count}
use kube_pfs.Cmd.Flags.{argument, parse, value_of}
use kube_pfs.Cmd.Host.{Host}
use kube_pfs.FileSystem.{AreApart, bytes}
use kube_pfs.Ost.Blocks.{read_request, section, read_block-answer, read_answer-ok, read_block_kept}
use kube_pfs.Ost.Handlers.{Service, Elapsed, read_block}
use kube_pfs.Ost.Paths.{block_path, sanitize}
use kube_pfs.Ost.Paths.Distinct.{block_path-AreApart}
use kube_pfs.Proto.Storage.{BlockRef, ReadBlockResponse}
use kube_pfs.Status.{ok}
use kube_pfs.Text.{Text, codes, text_eq}
use kube_pfs.Text.Decimal.{decimal}
use kube_pfs.Text.Search.{split_two}

length-pattern : (i n : ℕ) → length (pattern i n) ≡ n
unfolding pattern
length-pattern i zero = refl
length-pattern i (suc n) = omega (arith, length-pattern (i + 1) n)

-- The numbers below a number, in order.
abbrev pub indices : ℕ → List ℕ
indices zero = []
indices (suc n) = indices n ++ n ∷ []

pattern-suc : (i n : ℕ) → pattern i (suc n) ≡ pattern i n ++ ((i + n) * 17 + 31) % 255 ∷ []
unfolding pattern
pattern-suc i zero = ground arith
pattern-suc i (suc n) =
    let moved : i + 1 + n ≡ i + suc n = omega arith in
    ap (◌∷◌ ((i * 17 + 31) % 255)) (rw moved at (pattern-suc (i + 1) n))

map-append_one : (f : ℕ → ℕ) (xs : List ℕ) (x : ℕ) → map f (xs ++ x ∷ []) ≡ map f xs ++ f x ∷ []
map-append_one f [] x = refl
map-append_one f (y ∷ ys) x = ap (◌∷◌ (f y)) (map-append_one f ys x)

-- The bytes of the pattern, one by one.
pattern-indices : (n : ℕ) → pattern 0 n ≡ map (λ i. (i * 17 + 31) % 255) (indices n)
unfolding pattern
pattern-indices zero = refl
pattern-indices (suc n) =
    let same : 0 + n ≡ n = omega arith in
    pattern-suc 0 n
    ∙ rw (same, pattern-indices n, map-append_one (λ i. (i * 17 + 31) % 255) (indices n) n) refl

module _ (host : Host) where
  open host use {files}

  -- fault-injector corrupt-block --path p --bytes n
  abbrev pub corrupt : Text → ℕ → List Text
  corrupt p n = codes "--path" ∷ p ∷ codes "--bytes" ∷ decimal n ∷ []

  parse-corrupt :
      (p : Text) (n : ℕ)
      → n < 2 ^ 63
      → parse (corrupt_flags host) (corrupt p n)
        ≡ done ((codes "path", p) ∷ (codes "bytes", decimal n) ∷ [])
  unfolding parse argument split_two corrupt_flags text_eq
  parse-corrupt p n h = ground (arith, host.parse_int-decimal n h)

  corrupt-overwrite :
      (p : Text) (n : ℕ) (f : files.Fs)
      → n < 2 ^ 63
      → 0 < n
      → (run_corrupt_block host (corrupt p n) f).0 ≡ none
      → (run_corrupt_block host (corrupt p n) f ≡ overwrite host p n f)
  unfolding run_corrupt_block value_of bytes_count text_eq
  corrupt-overwrite p zero f h k ends = absurd (omega arith)
  corrupt-overwrite p (suc m) f h k ends =
      let numbered = host.parse_int-decimal (suc m) h in
      let parsed = parse-corrupt p (suc m) h in ground (arith, numbered, parsed)

  module _ (p : Text) (n : ℕ) (f : files.Fs) (ends : (overwrite host p n f).0 ≡ none) where
    overwrite_self :
        (c : Text)
        → files.read_file p f ≡ bytes c
        → files.read_file p (overwrite host p n f).1 ≡ bytes (pattern 0 n ++ drop n c)
    unfolding overwrite
    overwrite_self c there =
        let g = host.open_to_write p f in
        let put = host.write_at_start p (pattern 0 n) g.1 in
        let open_there = host.read-open_to_write p p c f there in
        elim (Option-cases g.0) [
          | inr (x, e) ↦ absurd (ground (arith, e))
          | inl e ↦ elim (Option-cases put.0) [
            | inr (x, e') ↦ absurd (ground (arith, e, e'))
            | inl e' ↦
                let now = host.read-write_at_start p (pattern 0 n) c g.1 open_there e' in
                ground (arith, e, e', now, length-pattern 0 n)
          ]
        ]

    overwrite_ne :
        (q c : Text)
        → AreApart p q
        → files.read_file q f ≡ bytes c
        → files.read_file q (overwrite host p n f).1 ≡ bytes c
    unfolding overwrite
    overwrite_ne q c apart there =
        let g = host.open_to_write p f in
        let open_there = host.read-open_to_write p q c f there in
        let now = host.read-write_at_start_ne p q (pattern 0 n) c g.1 apart open_there in
        elim (Option-cases g.0) [
          | inr (x, e) ↦ ground (arith, e, open_there)
          | inl e ↦ elim (Option-cases (host.write_at_start p (pattern 0 n) g.1).0) [
            | inr (x, e') ↦ ground (arith, e, e', now)
            | inl e' ↦ ground (arith, e, e', now)
          ]
        ]

  module _ (s : Service files.Fs) (ref : BlockRef) (n : ℕ) (few : n < 2 ^ 63) (many : 0 < n)
      (ends : (run_corrupt_block host (corrupt (block_path s.data_dir ref) n) s.fs).0 ≡ none) where
    abbrev pub corrupted : Service files.Fs
    corrupted = record s {
      fs = (run_corrupt_block host (corrupt (block_path s.data_dir ref) n) s.fs).1;
    }

    whole :
        run_corrupt_block host (corrupt (block_path s.data_dir ref) n) s.fs
        ≡ overwrite host (block_path s.data_dir ref) n s.fs
    whole = corrupt-overwrite (block_path s.data_dir ref) n s.fs few many ends

    good : (overwrite host (block_path s.data_dir ref) n s.fs).0 ≡ none
    good = ap (λ r. r.0) (sym whole) ∙ ends

    new_fs : corrupted.fs ≡ (overwrite host (block_path s.data_dir ref) n s.fs).1
    new_fs = ap (λ r. r.1) whole

    -- When corrupt-block, called with the path of a block of a storage service and a number of bytes
    -- from 1 to 2^63 - 1, ends well, and the block could be read, then a ReadBlock of it, at each
    -- offset and length, answers from these contents: as many bytes as the number says, of which the
    -- one at the index i is (17 i + 31) modulo 255, and behind them what the block had there before.
    pub corrupt-read_block :
        (before later : Elapsed) (offset len : ℕ) (c : Text)
        → (read_block files before (read_request ref 0 0) s).0 ≡ ok (record { payload = c })
        → (read_block files later (read_request ref offset len) corrupted).0
          ≡ ok (record {
            payload = section offset len (map (λ i. (i * 17 + 31) % 255) (indices n) ++ drop n c);
          })
    corrupt-read_block before later offset len c h =
        let p = block_path s.data_dir ref in
        let answered = sym (read_block-answer files s ref before 0 0) ∙ h in
        let (b, found) = read_answer-ok files 0 0 _ (record { payload = c }) answered in
        let same : b ≡ c = ground (arith, answered, found) in
        let now = overwrite_self p n s.fs good c (rw (sym same) found) in
        read_block-answer files corrupted ref later offset len
        ∙ rw (new_fs, now, pattern-indices n) refl

    -- When corrupt-block, called with the path of a block of a storage service and a number of bytes
    -- from 1 to 2^63 - 1, ends well, then every block with another sanitized file id or another
    -- chunk that could be read before is read to the same bytes.
    pub corrupt-read_block_ne :
        (before later : Elapsed) (offset len : ℕ) (other : BlockRef) (resp : ReadBlockResponse)
        → (sanitize ref.file_id ≢ sanitize other.file_id) ⊎ (ref.chunk_id ≢ other.chunk_id)
        → (read_block files before (read_request other offset len) s).0 ≡ ok resp
        → (read_block files later (read_request other offset len) corrupted).0 ≡ ok resp
    corrupt-read_block_ne before later offset len other resp apart other_read =
        read_block_kept files s corrupted other before later offset len resp refl
          (λ d there. rw new_fs (
            overwrite_ne (block_path s.data_dir ref) n s.fs good (block_path s.data_dir other) d
              (block_path-AreApart s.data_dir ref other apart) there))
          other_read
