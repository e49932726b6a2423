-- ===== src/Cmd/Seed/Rounds.antt =====
-- What an iteration of cmd/seed-metrics/main.go does that goes on to the next one. Later proofs use
-- this, and not the code.
use kube_pfs.Base.{ℕ, ◌≡◌, refl, Option, none, some, arith, inl, inr, Option-cases, Fallible-cases}
use kube_pfs.Cmd.Rpc.{Wire, Delivery, answered, lost, unanswered, rpc, rpc-done}
use kube_pfs.Cmd.Seed.{
  Round, Pair, seed_round, use_file, use_block, look_around, clean_up, seed_name, create_request,
  lookup_request, stat_request, list_request,
}
use kube_pfs.FileSystem.{FileSystem}
use kube_pfs.Mds.Backend.{Backend}
use kube_pfs.Mds.Create.{create}
use kube_pfs.Mds.Query.{look_up, stat, list_dir}
use kube_pfs.Mds.State.{Service}
use kube_pfs.Ost.Handlers.{Service as OstService}
use kube_pfs.Metrics.{Metrics}
use kube_pfs.Proto.Metadata.{Inode, CreateResponse}
use kube_pfs.Status.{Result, ok}
use kube_pfs.Text.{Text}

module _ (wire : Wire) (backend : Backend) (files : FileSystem) where
  -- Only metrics are counted.
  abbrev pub Counted : Service backend.Db → Service backend.Db → Type 0
  Counted s t = (m : Metrics) × (t ≡ record s { metrics = m })

  Counted-trans : (s t u : Service backend.Db) → Counted s t → Counted t u → Counted s u
  Counted-trans s t u (a, e) (b, f) = (b, cc (e, f))

  rpc-Counted :
      {A : Type 0} (way : Delivery) (call : Service backend.Db → Result A × Service backend.Db)
      → ((s : Service backend.Db) → Counted s (call s).1)
      → (s : Service backend.Db) → Counted s (rpc wire way call s).1
  rpc-Counted answered call h s = h s
  rpc-Counted (lost e) call h s = (s.metrics, refl)
  rpc-Counted (unanswered e) call h s = h s

  pub look_around-Counted :
      (round : Round) (name id : Text) (s : Service backend.Db)
      → Counted s (look_around wire backend files round name id s)
  unfolding look_around look_up stat list_dir
  look_around-Counted round name id s =
      let one = look_up backend round.looks_up.clock (some (lookup_request name)) in
      let two = stat backend round.stats.clock (some (stat_request id)) in
      let three = list_dir backend round.lists.clock (some list_request) in
      let s₁ = (rpc wire round.looks_up.way one s).1 in
      let s₂ = (rpc wire round.stats.way two s₁).1 in
      Counted-trans s s₁ _ (rpc-Counted round.looks_up.way one (λ t. ((one t).1.metrics, refl)) s) (
        Counted-trans s₁ s₂ _ (rpc-Counted round.stats.way two (λ t. ((two t).1.metrics, refl)) s₁)
          (rpc-Counted round.lists.way three (λ t. ((three t).1.metrics, refl)) s₂))

  module _ (i : ℕ) (round : Round) (w : Pair backend files) where
    abbrev name : Text
    name = seed_name i round.unix_nano

    abbrev pub made : Result CreateResponse × Service backend.Db
    made = create backend round.creates.clock (some (create_request name)) w.mds

    abbrev pub looked : Inode → Service backend.Db
    looked file = look_around wire backend files round name file.inode_id made.1

    abbrev pub used : Inode → Option Text × OstService files.Fs
    used file = use_block wire backend files i round file.inode_id w.ost

    -- The iteration has come to its end in the state `t`.
    pub record GoesOn (t : Pair backend files) : Type 0 where
      pub resp : CreateResponse
      pub file : Inode
      pub created : made.0 ≡ ok resp
      pub with_file : resp.inode ≡ some file
      pub stored : (used file).0 ≡ none
      pub left :
          t
          ≡ clean_up wire backend files round name file.inode_id
              (record { mds = looked file; ost = (used file).1 })

    pub seed_round-GoesOn :
        (seed_round wire backend files i round w).0 ≡ none
        → GoesOn (seed_round wire backend files i round w).1
    unfolding seed_round use_file
    seed_round-GoesOn h =
        let call =
          rpc wire round.creates.way
            (create backend round.creates.clock (some (create_request name))) w.mds in
        elim (Fallible-cases call.0) [
          | inr (e, failed) ↦ absurd (ground (arith, failed))
          | inl (resp, good) ↦ elim (Option-cases resp.inode) [
            | inl nil ↦ absurd (ground (arith, good, nil))
            | inr (file, there) ↦ elim (Option-cases (used file).0) [
              | inr (m, bad) ↦ absurd (ground (arith, good, there, bad))
              | inl stored ↦
                  let (way, created, same) =
                    rpc-done wire round.creates.way
                      (create backend round.creates.clock (some (create_request name))) w.mds resp
                      good in
                  record {
                    resp = resp;
                    file = file;
                    created = created;
                    with_file = there;
                    stored = stored;
                    left = ground (arith, good, there, stored, same);
                  }
            ]
          ]
        ]
