-- ===== src/Cmd/Seed/Blocks.antt =====
-- What cmd/seed-metrics/main.go leaves of the blocks that were there before it.
use kube_pfs.Base.{
  ℕ, zero, suc, ◌+◌, ◌≡◌, ◌≢◌, Option, some, arith, inl, inr, Option-cases, Bool-cases,
  Fallible-cases, ◌==◌,
}
use kube_pfs.Cmd.Rpc.{Wire, Delivery, answered, lost, unanswered, rpc, rpc-done}
use kube_pfs.Cmd.Seed.{
  Round, Pair, seed, seed_rounds, seed_round, use_file, use_block, clean_up, look_around, seed_name,
  seed_payload, seed_block, create_request,
}
use kube_pfs.FileSystem.{FileSystem}
use kube_pfs.Mds.Backend.{Backend}
use kube_pfs.Mds.Create.{create, inode_id_at, new_inode}
use kube_pfs.Mds.Create.Effect
use kube_pfs.Mds.Create.Effect.{create-Effect}
use kube_pfs.Mds.State.{Service, Clock}
use kube_pfs.Ost.Blocks.{
  write_request, read_request, delete_request, read_block_kept, read_block-write_block_ne,
  read_block-delete_block_ne,
}
use kube_pfs.Ost.Handlers.{Elapsed, write_block, read_block, delete_block}
use kube_pfs.Ost.Handlers.{Service as OstService}
use kube_pfs.Ost.Paths.{sanitize}
use kube_pfs.Ost.Reading.{read_block-same}
use kube_pfs.Proto.Metadata.{Inode, CreateRequest, CreateResponse}
use kube_pfs.Proto.Storage.{BlockRef, ReadBlockResponse}
use kube_pfs.Status.{Result, ok}
use kube_pfs.Text.{Text}

module _ (backend : Backend) where
  made-id :
      (clock : Clock) (s : Service backend.Db) (req : CreateRequest) {r : Result CreateResponse}
      {t : Service backend.Db} (resp : CreateResponse) (file : Inode)
      → r ≡ ok resp
      → resp.inode ≡ some file
      → Effect.Effect backend clock s req r t
      → file.inode_id ≡ inode_id_at clock
  unfolding new_inode
  made-id clock s req resp file h k (Effect.refused _ _ _ e _) = absurd (cc (h, e))
  made-id clock s req resp file h k (Effect.broke _ _ _ e _) = absurd (cc (h, e))
  made-id clock s req resp file h k (Effect.unsaved _ _ _ _ _ _ _ e _) = absurd (cc (h, e))
  made-id clock s req resp file h k (Effect.stored _ i _ _ _ made _ e _) =
      ground (arith, h, k, e, made, backend.clone_eq i)

module _ (files : FileSystem) (watch : Elapsed) (ref : BlockRef) (offset len : ℕ)
    (resp : ReadBlockResponse) where
  -- ReadBlock of the block answers this.
  abbrev IsRead : OstService files.Fs → Type 0
  IsRead o = (read_block files watch (read_request ref offset len) o).0 ≡ ok resp

  rpc-IsRead :
      {A : Type 0} (wire : Wire) (way : Delivery)
      (call : OstService files.Fs → Result A × OstService files.Fs)
      → ((o : OstService files.Fs) → IsRead o → IsRead (call o).1)
      → (o : OstService files.Fs) → IsRead o
      → IsRead (rpc wire way call o).1
  rpc-IsRead wire answered call h o k = h o k
  rpc-IsRead wire (lost e) call h o k = k
  rpc-IsRead wire (unanswered e) call h o k = h o k

  module _ (wire : Wire) (backend : Backend) where
    module _ (id : Text) (apart : sanitize id ≢ sanitize ref.file_id) where
      use_block-IsRead :
          (i : ℕ) (round : Round) (o : OstService files.Fs)
          → IsRead o
          → IsRead (use_block wire backend files i round id o).1
      unfolding use_block
      use_block-IsRead i round o h =
          let put = write_request (seed_block id) (seed_payload round) in
          let get = read_request (seed_block id) 0 0 in
          let write = write_block files round.writes.elapsed put in
          let read = read_block files round.reads.elapsed get in
          let one = rpc wire round.writes.way write o in
          let h₁ : IsRead one.1 =
            rpc-IsRead wire round.writes.way write
              (λ p.
                read_block-write_block_ne files p (seed_block id) round.writes.elapsed
                  (seed_payload round) ref watch watch offset len resp (inl apart))
              o h in
          let h₂ : IsRead (rpc wire round.reads.way read one.1).1 =
            rpc-IsRead wire round.reads.way read
              (λ p.
                let (fs, dir) = read_block-same files round.reads.elapsed get p in
                read_block_kept files p (read p).1 ref watch watch offset len resp dir
                  (λ c there. rw fs there))
              one.1 h₁ in
          elim (Fallible-cases one.0) [
            | inr (e, bad) ↦ ground (arith, bad, h₁)
            | inl (a, good) ↦ elim (Fallible-cases (rpc wire round.reads.way read one.1).0) [
              | inr (e, bad) ↦ ground (arith, good, bad, h₂)
              | inl (b, fine) ↦ ground (arith, good, fine, h₂)
            ]
          ]

      clean_up-IsRead :
          (round : Round) (name : Text) (w : Pair backend files)
          → IsRead w.ost
          → IsRead (clean_up wire backend files round name id w).ost
      unfolding clean_up
      clean_up-IsRead round name w =
          rpc-IsRead wire round.deletes.way
            (delete_block files round.deletes.elapsed (delete_request (seed_block id)))
            (λ p.
              read_block-delete_block_ne files p (seed_block id) round.deletes.elapsed ref watch
                watch offset len resp (inl apart))
            w.ost

    use_file-IsRead :
        (i : ℕ) (round : Round) (name : Text) (file : Inode) (w : Pair backend files)
        → sanitize file.inode_id ≢ sanitize ref.file_id
        → IsRead w.ost
        → IsRead (use_file wire backend files i round name file w).1.ost
    unfolding use_file
    use_file-IsRead i round name file w apart h =
        let used = use_block wire backend files i round file.inode_id w.ost in
        let s = look_around wire backend files round name file.inode_id w.mds in
        let kept = use_block-IsRead file.inode_id apart i round w.ost h in
        let cleaned =
          clean_up-IsRead file.inode_id apart round name (record { mds = s; ost = used.1 }) kept in
        elim (Option-cases used.0) [
          | inl none_left ↦ ground (arith, none_left, cleaned)
          | inr (m, bad) ↦ ground (arith, bad, kept)
        ]

    seed_round-IsRead :
        (i : ℕ) (round : Round) (w : Pair backend files)
        → sanitize (inode_id_at round.creates.clock) ≢ sanitize ref.file_id
        → IsRead w.ost
        → IsRead (seed_round wire backend files i round w).1.ost
    unfolding seed_round
    seed_round-IsRead i round w apart h =
        let request = create_request (seed_name i round.unix_nano) in
        let ask = create backend round.creates.clock (some request) in
        let call = rpc wire round.creates.way ask w.mds in
        elim (Fallible-cases call.0) [
          | inr (e, bad) ↦ ground (arith, bad, h)
          | inl (r, good) ↦ elim (Option-cases r.inode) [
            | inl e ↦ ground (arith, good, e, h)
            | inr (file, e) ↦
                let (_, came, _) = rpc-done wire round.creates.way ask w.mds r good in
                let id =
                  made-id backend round.creates.clock w.mds request r file came e
                    (create-Effect backend round.creates.clock w.mds (some request)) in
                let kept =
                  use_file-IsRead i round (seed_name i round.unix_nano) file
                    (record w { mds = call.1 }) (rw id apart) h in
                ground (arith, good, e, kept)
          ]
        ]

    module _ (rounds : ℕ → Round)
        (apart : (j : ℕ)
          → sanitize (inode_id_at (rounds j).creates.clock) ≢ sanitize ref.file_id) where
      seed_rounds-IsRead :
          (left i : ℕ) (w : Pair backend files)
          → IsRead w.ost
          → IsRead (seed_rounds wire backend files left i rounds w).1.ost
      unfolding seed_rounds
      seed_rounds-IsRead zero i w h = h
      seed_rounds-IsRead (suc left) i w h =
          let one = seed_round wire backend files i (rounds i) w in
          let kept = seed_round-IsRead i (rounds i) w (apart i) h in
          let rest = seed_rounds-IsRead left (i + 1) one.1 kept in
          elim (Option-cases one.0) [
            | inl e ↦ ground (arith, e, rest)
            | inr (m, e) ↦ ground (arith, e, kept)
          ]

      -- A block that ReadBlock answers before the seeding program is answered with the same bytes
      -- behind it, wherever the program ends and whatever becomes of its calls on the way. The
      -- sanitized file id of the block is that of none of the ids that Create makes from its clock
      -- for the program.
      pub seed-keeps_blocks :
          (n : ℕ) (dial_mds dial_ost : Option Text) (w : Pair backend files)
          → (read_block files watch (read_request ref offset len) w.ost).0 ≡ ok resp
          → (read_block files watch
              (read_request ref offset len)
              (seed wire backend files n dial_mds dial_ost rounds w).1.ost).0
            ≡ ok resp
      unfolding seed
      seed-keeps_blocks n dial_mds dial_ost w h =
          let all = seed_rounds wire backend files n 0 rounds w in
          let kept : IsRead all.1.ost = seed_rounds-IsRead n 0 w h in
          elim (Bool-cases (n == 0)) [
            | inl e ↦ ground (arith, e, h)
            | inr e ↦ elim (Option-cases dial_mds) [
              | inr (m, e') ↦ ground (arith, e, e', h)
              | inl e' ↦ elim (Option-cases dial_ost) [
                | inr (m, e'') ↦ ground (arith, e, e', e'', h)
                | inl e'' ↦ elim (Option-cases all.0) [
                  | inr (m, bad) ↦ ground (arith, e, e', e'', bad, kept)
                  | inl fine ↦ ground (arith, e, e', e'', fine, kept)
                ]
              ]
            ]
          ]
