-- ===== src/Cmd/Seed/Completes.antt =====
-- When cmd/seed-metrics/main.go runs to its end.
use kube_pfs.Base.{
  ℕ, zero, suc, ◌+◌, ◌^◌, ◌≤◌, ◌<◌, ◌≡◌, ◌∙◌, refl, ap, false, none, some, [], ◌++◌, done, arith,
  All-append, All-imp, length,
}
use kube_pfs.Cmd.Rpc.{Wire, answered}
use kube_pfs.Cmd.Seed.{
  Round, Pair, seed, seed_rounds, seed_round, use_block, use_file, clean_up, seed_name,
  seed_payload, seed_block, create_request, unlink_request,
}
use kube_pfs.Cmd.Seed.Clean.{seed_round-IsClean}
use kube_pfs.Cmd.Seed.Rounds.{made, looked, look_around-Counted, seed_round-GoesOn}
use kube_pfs.FileSystem.{FileSystem}
use kube_pfs.Mds.Backend.{Backend}
use kube_pfs.Mds.Create.{inode_id_at}
use kube_pfs.Mds.Create.Total.{create-succeeds, unlink-IsKept}
use kube_pfs.Mds.Persist.{persist_create, persist_unlink}
use kube_pfs.Mds.State.{Service, child, root_inode_id}
use kube_pfs.Mds.Tree.Handlers.{HasTree}
use kube_pfs.Mds.Unlink.{unlink}
use kube_pfs.Ost.Blocks.{write_request, read_block-write_block}
use kube_pfs.Ost.Handlers.{Elapsed, write_block, write_path}
use kube_pfs.Ost.Handlers.{Service as OstService}
use kube_pfs.Ost.Paths.{block_path}
use kube_pfs.Proto.Metadata.{Inode}
use kube_pfs.Proto.Storage.{BlockRef}
use kube_pfs.Status.{ok}
use kube_pfs.Table.{lookup}
use kube_pfs.Text.{Text, codes, text_eq}
use kube_pfs.Text.Path.{dir}
use kube_pfs.Text.Decimal.{decimal, IsDigit, decimal-IsDigit}
use kube_pfs.Text.Search.{contains, Lacks, Lacks-contains}

decimal-Lacks : (n : ℕ) → Lacks b'/' (decimal n)
decimal-Lacks n =
    All-imp IsDigit _ (λ c digit. ground (arith, digit)) (decimal n) (decimal-IsDigit n)

seed_name-plain : (i t : ℕ) → contains b'/' (seed_name i t) ≡ false
unfolding seed_name
seed_name-plain i t =
    let ends : Text = decimal i ++ codes ".bin" in
    let ends-Lacks : Lacks b'/' ends =
      All-append _ (decimal i) (codes ".bin") (decimal-Lacks i) (ground arith) in
    let all-Lacks : Lacks b'/' (decimal t ++ (codes "-" ++ ends)) =
      All-append _ (decimal t) (codes "-" ++ ends) (decimal-Lacks t) (ground (arith, ends-Lacks)) in
    Lacks-contains b'/' (seed_name i t) (ground (arith, all-Lacks))

seed_name_named : (i t : ℕ) → text_eq (seed_name i t) [] ≡ false
unfolding seed_name text_eq
seed_name_named i t = refl

module _ (wire : Wire) (backend : Backend) (files : FileSystem) (IsReady : backend.Db → Type 0)
    (saves : (i : Inode) (d : backend.Db)
      → IsReady d
      → ((persist_create backend i d).0 ≡ none) × IsReady (persist_create backend i d).1)
    (keeps : (parent name id : Text) (d : backend.Db)
      → IsReady d
      → IsReady (persist_unlink backend parent name id d).1)
    (makes : (p : Text) (f : files.Fs) → (files.mkdir_all p f).0 ≡ none)
    (stores : (p b : Text) (f : files.Fs) → (files.write_file p b f).0 ≡ none) where
  -- The calls whose failure ends the program, and Unlink, are answered.
  pub record IsAnswered (round : Round) : Type 0 where
    pub creates : round.creates.way ≡ answered
    pub writes : round.writes.way ≡ answered
    pub reads : round.reads.way ≡ answered
    pub unlinks : round.unlinks.way ≡ answered

  write_path-ok :
      (path b : Text) (o : OstService files.Fs)
      → (write_path files path b o).0 ≡ ok (record { bytes_written = length b })
  unfolding write_path
  write_path-ok path b o =
      ground (arith, makes (dir path) o.fs, stores path b (files.mkdir_all (dir path) o.fs).1)

  write_block-ok :
      (elapsed : Elapsed) (ref : BlockRef) (b : Text) (o : OstService files.Fs)
      → (write_block files elapsed (write_request ref b) o).0
        ≡ ok (record { bytes_written = length b })
  unfolding write_block
  write_block-ok elapsed ref b o = write_path-ok (block_path o.data_dir ref) b o

  use_block-completes :
      (i : ℕ) (round : Round) (id : Text) (o : OstService files.Fs)
      → IsAnswered round
      → (use_block wire backend files i round id o).0 ≡ none
  unfolding use_block
  use_block-completes i round id o calm =
      let put = write_request (seed_block id) (seed_payload round) in
      let written : (write_block files round.writes.elapsed put o).0
          ≡ ok (record { bytes_written = length (seed_payload round) }) =
        write_block-ok round.writes.elapsed (seed_block id) (seed_payload round) o in
      let (read, _) =
        read_block-write_block files o (seed_block id) round.writes.elapsed (seed_payload round)
          round.reads.elapsed 0 0 (record { bytes_written = length (seed_payload round) })
          written in
      ground (arith, read, written, calm.writes, calm.reads)

  module _ (i : ℕ) (round : Round) (w : Pair backend files) (tree : HasTree w.mds)
      (calm : IsAnswered round)
      (fresh : lookup (inode_id_at round.creates.clock) w.mds.inodes ≡ none)
      (free : child root_inode_id (seed_name i round.unix_nano) w.mds.dirents ≡ none)
      (small : w.mds.rr < 2 ^ 63) (ready : IsReady w.mds.db) where
    seed_round-completes :
        ((seed_round wire backend files i round w).0 ≡ none)
        × ((seed_round wire backend files i round w).1.mds.rr ≤ w.mds.rr + 1)
        × IsReady (seed_round wire backend files i round w).1.mds.db
    unfolding seed_round use_file clean_up
    seed_round-completes =
        let (resp, file, created, there, more, ready₁) =
          create-succeeds backend round.creates.clock w.mds tree small IsReady saves ready
            (create_request (seed_name i round.unix_nano)) refl (seed_name_named i round.unix_nano)
            (seed_name-plain i round.unix_nano) free in
        let stored = use_block-completes i round file.inode_id w.ost calm in
        let ends : (seed_round wire backend files i round w).0 ≡ none =
          ground (arith, created, there, stored, calm.creates) in
        let on = seed_round-GoesOn wire backend files i round w ends in
        let (m, counted) =
          look_around-Counted wire backend files round (seed_name i round.unix_nano)
            on.file.inode_id (made wire backend files i round w).1 in
        let s = looked wire backend files i round w on.file in
        let ready₂ : IsReady s.db = rw counted ready₁ in
        let (same_rr, ready₃) =
          unlink-IsKept backend round.unlinks.clock s IsReady keeps ready₂
            (some (unlink_request (seed_name i round.unix_nano))) in
        let last : (seed_round wire backend files i round w).1.mds
            ≡ (unlink backend round.unlinks.clock
                (some (unlink_request (seed_name i round.unix_nano))) s).1 =
          ap (λ (v : Pair backend files). v.mds) on.left ∙ ground (arith, calm.unlinks) in
        let around : s.rr ≡ (made wire backend files i round w).1.rr =
          ap (λ (s : Service backend.Db). s.rr) counted in
        let rr : (seed_round wire backend files i round w).1.mds.rr ≡ s.rr =
          ap (λ (s : Service backend.Db). s.rr) last ∙ same_rr in
        (ends, omega arith, rw last ready₃)

  module _ (rounds : ℕ → Round) (calm : (j : ℕ) → IsAnswered (rounds j)) where
    seed_rounds-completes :
        (left i : ℕ) (w : Pair backend files)
        → HasTree w.mds
        → ((j : ℕ) → lookup (inode_id_at (rounds j).creates.clock) w.mds.inodes ≡ none)
        → ((j : ℕ) → child root_inode_id (seed_name j (rounds j).unix_nano) w.mds.dirents ≡ none)
        → w.mds.rr + left ≤ 2 ^ 63
        → IsReady w.mds.db
        → (seed_rounds wire backend files left i rounds w).0 ≡ none
    unfolding seed_rounds
    seed_rounds-completes zero i w tree fresh free small ready = refl
    seed_rounds-completes (suc left) i w tree fresh free small ready =
        let one = seed_round wire backend files i (rounds i) w in
        let (ends, more, ready') =
          seed_round-completes i (rounds i) w tree (calm i) (fresh i) (free i) (omega arith)
            ready in
        let (same, tree') =
          seed_round-IsClean wire backend files i (rounds i) w tree (fresh i) (calm i).unlinks
            ends in
        let rest =
          seed_rounds-completes left (i + 1) one.1 tree' (λ j. same.0 _ ∙ fresh j)
            (λ j. same.1 _ _ ∙ free j) (omega arith) ready' in
        ground (arith, ends, rest)

    -- The seeding program runs to its end and prints its line, for every count of operations above
    -- zero, if both connections are made; the calls of Create, WriteBlock, ReadBlock and Unlink
    -- arrive and are answered; the database is in a state in which the transaction of Create goes
    -- through, and the transactions of Create and Unlink keep it in such a state; no call of package
    -- os that makes directories or writes a file fails; the maps of the metadata service are a tree; no id that Create makes from
    -- its clock and no name that the program makes in the root directory is in use before; and the
    -- counter of the stripe layouts does not pass 2^63 within that many Creates.
    pub seed-completes :
        (n : ℕ) (w : Pair backend files)
        → 0 < n
        → HasTree w.mds
        → ((j : ℕ) → lookup (inode_id_at (rounds j).creates.clock) w.mds.inodes ≡ none)
        → ((j : ℕ) → child root_inode_id (seed_name j (rounds j).unix_nano) w.mds.dirents ≡ none)
        → w.mds.rr + n ≤ 2 ^ 63
        → IsReady w.mds.db
        → (seed wire backend files n none none rounds w).0
          ≡ done (
              codes "seeded metrics with "
              ++ (decimal n ++ codes " synthetic metadata/data operations\n"))
    unfolding seed
    seed-completes n w some_left tree fresh free small ready =
        ground (arith, seed_rounds-completes n 0 w tree fresh free small ready)
