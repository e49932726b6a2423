-- ===== src/Cmd/Servers/Targets.antt =====
-- The targets that main of cmd/mds/main.go gives the metadata service.
use kube_pfs.Base.{
  ℕ, ◌≡◌, ◌≢◌, ◌∙◌, refl, ap, Option, List, [], ◌∷◌, ◌++◌, map, Fallible, done, fail, bind-done,
  arith, All, inl, inr, Option-cases, Fallible-cases,
}
use kube_pfs.Cmd.Servers.{nonempty_parts, split_csv, mds_config, start_mds}
use kube_pfs.FileSystem.{FileSystem}
use kube_pfs.Mds.Backend.{Backend}
use kube_pfs.Mds.Load.{new_service, load_tx, with_defaults}
use kube_pfs.Mds.State.{Config, Service}
use kube_pfs.Text.{Text, codes, text_eq, text_eq_iff}
use kube_pfs.Text.Edit.{trim_space}
use kube_pfs.Text.Search.{Lacks, split_on, split_on-Lacks, split_on-append}

-- The ids with commas between them.
abbrev pub join_csv : List Text → Text
join_csv [] = []
join_csv (p ∷ []) = p
join_csv (p ∷ q ∷ ps) = p ++ b',' ∷ join_csv (q ∷ ps)

abbrev pub or_default_targets : List Text → List Text
or_default_targets [] = codes "ost-0" ∷ codes "ost-1" ∷ codes "ost-2" ∷ []
or_default_targets (x ∷ xs) = x ∷ xs

-- A text that is not empty, with no comma in it and no space around it.
abbrev pub IsId : Text → Type 0
IsId p = (p ≢ []) × (trim_space p ≡ p) × Lacks b',' p

split_on-join_csv :
    (p : Text) (ps : List Text) → All IsId (p ∷ ps) → split_on b',' (join_csv (p ∷ ps)) ≡ p ∷ ps
split_on-join_csv p [] h = split_on-Lacks b',' p h.0.2
split_on-join_csv p (q ∷ ps) h =
    split_on-append b',' p (join_csv (q ∷ ps)) h.0.2 ∙ ap (◌∷◌ p) (split_on-join_csv q ps h.1)

nonempty_parts-All : (ps : List Text) → All IsId ps → nonempty_parts (map trim_space ps) ≡ ps
unfolding nonempty_parts
nonempty_parts-All [] h = refl
nonempty_parts-All (p ∷ ps) h =
    ground (arith, h.0.0, h.0.1, nonempty_parts-All ps h.1, text_eq_iff p [])

split_csv-join_csv : (ps : List Text) → All IsId ps → split_csv (join_csv ps) ≡ ps
unfolding split_csv split_on trim_space nonempty_parts text_eq
split_csv-join_csv [] h = refl
split_csv-join_csv (p ∷ ps) h =
    ap (λ qs. nonempty_parts (map trim_space qs)) (split_on-join_csv p ps h)
    ∙ nonempty_parts-All (p ∷ ps) h

module _ (backend : Backend) where
  new_service-ost_ids :
      (now : ℕ) (config : Config) (opened : Fallible backend.Db) (s : Service backend.Db)
      → new_service backend now config opened ≡ done s
      → s.ost_ids ≡ (with_defaults config).ost_ids
  unfolding new_service
  new_service-ost_ids now config opened s h =
      let (d, _, h₁) =
        bind-done (elim opened [ fail e ↦ fail (codes "open boltdb: " ++ e) | done d ↦ done d ]) _
          h in
      let (m, _, h₂) = bind-done (load_tx backend now (with_defaults config) d) _ h₁ in
      let (d', _, h₃) = bind-done (backend.commit m.1) _ h₂ in ground (arith, h₃)

  -- Targets that are passed to main of cmd/mds with commas between them, each of them not empty,
  -- without a comma, and without space around it, are those over which the started metadata service
  -- makes its layouts, in the same order; the three default targets take their place when there is
  -- none.
  pub start_mds-ost_ids :
      (files : FileSystem) (now : ℕ) (bolt_path : Text) (ids : List Text)
      (open_db : files.Fs → Fallible backend.Db × files.Fs) (listen : Option Text) (f : files.Fs)
      (s : Service backend.Db)
      → All IsId ids
      → (start_mds files backend now bolt_path (join_csv ids) open_db listen f).0 ≡ done s
      → s.ost_ids ≡ or_default_targets ids
  unfolding start_mds
  start_mds-ost_ids files now bolt_path ids open_db listen f s good h =
      let config = mds_config bolt_path (join_csv ids) in
      let made = files.mkdir_all (codes "./data") f in
      let opened = (open_db made.1).0 in
      elim (Option-cases made.0) [
        | inr (x, e) ↦ absurd (ground (arith, e))
        | inl e ↦ elim (Fallible-cases (new_service backend now config opened)) [
          | inr (x, e') ↦ absurd (ground (arith, e, e'))
          | inl (t, e') ↦ elim (Option-cases listen) [
            | inr (x, e'') ↦ absurd (ground (arith, e, e', e''))
            | inl e'' ↦
                let same : t ≡ s = ground (arith, e, e', e'') in
                new_service-ost_ids now config opened s (e' ∙ ap done same)
                ∙ ap or_default_targets (split_csv-join_csv ids good)
          ]
        ]
      ]
