-- ===== src/Cmd/Seed/Clean.antt =====
-- What cmd/seed-metrics/main.go leaves in the metadata service.
use kube_pfs.Base.{
  ℕ, zero, suc, ◌+◌, ◌≡◌, ◌∙◌, refl, Option, none, some, done, arith, inl, inr, Option-cases,
}
use kube_pfs.Cmd.Rpc.{Wire, answered}
use kube_pfs.Cmd.Seed.{
  Round, Pair, seed, seed_rounds, seed_round, clean_up, seed_name, create_request, unlink_request,
}
use kube_pfs.Cmd.Seed.Rounds.{made, look_around-Counted, seed_round-GoesOn}
use kube_pfs.FileSystem.{FileSystem}
use kube_pfs.Mds.Backend.{Backend}
use kube_pfs.Mds.Create.{inode_id_at}
use kube_pfs.Mds.Namespace.Undone.{SameMaps, unlink-create}
use kube_pfs.Mds.State.{Service, root_inode_id}
use kube_pfs.Mds.Tree.Handlers.{HasTree, create-HasTree, unlink-HasTree}
use kube_pfs.Mds.Unlink.{unlink}
use kube_pfs.Table.{lookup}
use kube_pfs.Text.{Text}

-- The maps are as before, and a tree.
abbrev pub IsClean : {Db : Type 0} → Service Db → Service Db → Type 0
IsClean s t = SameMaps s t × HasTree t

module _ (wire : Wire) (backend : Backend) (files : FileSystem) where
  pub seed_round-IsClean :
      (i : ℕ) (round : Round) (w : Pair backend files)
      → HasTree w.mds
      → lookup (inode_id_at round.creates.clock) w.mds.inodes ≡ none
      → round.unlinks.way ≡ answered
      → (seed_round wire backend files i round w).0 ≡ none
      → IsClean w.mds (seed_round wire backend files i round w).1.mds
  unfolding clean_up
  seed_round-IsClean i round w tree fresh way h =
      let on = seed_round-GoesOn wire backend files i round w h in
      let name = seed_name i round.unix_nano in
      let after = made wire backend files i round w in
      let (m, counted) =
        look_around-Counted wire backend files round name on.file.inode_id after.1 in
      let counting = record after.1 { metrics = m } in
      let last = unlink backend round.unlinks.clock (some (unlink_request name)) in
      let same : (seed_round wire backend files i round w).1.mds ≡ (last counting).1 =
        ground (arith, on.left, counted, way) in
      rw same (
        unlink-create backend round.creates.clock w.mds tree root_inode_id name 0o644 fresh on.resp
            round.unlinks.clock m on.created,
        unlink-HasTree backend round.unlinks.clock counting
            (create-HasTree backend round.creates.clock w.mds tree (some (create_request name))
              fresh)
            (some (unlink_request name)),
      )

  module _ (rounds : ℕ → Round) (calm : (j : ℕ) → (rounds j).unlinks.way ≡ answered) where
    seed_rounds-IsClean :
        (left i : ℕ) (w : Pair backend files)
        → HasTree w.mds
        → ((j : ℕ) → lookup (inode_id_at (rounds j).creates.clock) w.mds.inodes ≡ none)
        → (seed_rounds wire backend files left i rounds w).0 ≡ none
        → IsClean w.mds (seed_rounds wire backend files left i rounds w).1.mds
    unfolding seed_rounds
    seed_rounds-IsClean zero i w tree fresh h = (((λ k. refl), (λ p n. refl)), tree)
    seed_rounds-IsClean (suc left) i w tree fresh h =
        let one = seed_round wire backend files i (rounds i) w in
        elim (Option-cases one.0) [
          | inr (m, e) ↦ absurd (ground (arith, e))
          | inl e ↦
              let (same, tree') = seed_round-IsClean i (rounds i) w tree (fresh i) (calm i) e in
              let (rest, tree'') =
                seed_rounds-IsClean left (i + 1) one.1 tree' (λ j. same.0 _ ∙ fresh j)
                  (ground (arith, e)) in
              rw (e, seed_rounds)
                (((λ k. rest.0 k ∙ same.0 k), (λ p n. rest.1 p n ∙ same.1 p n)), tree'')
        ]

  -- When the seeding program ends well, the metadata service has the same inode for each id, and
  -- the same id for each name in each directory, as before it, and its maps are a tree: every file
  -- that the program made is gone. The maps are a tree before, no id that Create makes from its
  -- clock is in use, and every Unlink arrives and is answered, with whatever answer.
  pub seed-SameMaps :
      (n : ℕ) (dial_mds dial_ost : Option Text) (rounds : ℕ → Round) (w : Pair backend files)
      (line : Text)
      → HasTree w.mds
      → ((j : ℕ) → (rounds j).unlinks.way ≡ answered)
      → ((j : ℕ) → lookup (inode_id_at (rounds j).creates.clock) w.mds.inodes ≡ none)
      → (seed wire backend files n dial_mds dial_ost rounds w).0 ≡ done line
      → SameMaps w.mds (seed wire backend files n dial_mds dial_ost rounds w).1.mds
        × HasTree (seed wire backend files n dial_mds dial_ost rounds w).1.mds
  unfolding seed
  seed-SameMaps n dial_mds dial_ost rounds w line tree calm fresh h =
      let all = seed_rounds wire backend files n 0 rounds w in
      let ended : all.0 ≡ none = ground (arith, h) in
      let same : (seed wire backend files n dial_mds dial_ost rounds w).1 ≡ all.1 =
        ground (arith, h) in
      rw same (seed_rounds-IsClean rounds calm n 0 w tree fresh ended)
