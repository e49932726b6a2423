-- ===== src/Cmd/Demo/Latest.antt =====
-- Which run `handleLatestBenchmark` of cmd/demo-ui/main.go answers.
use kube_pfs.Base.{
  ◌≡◌, ◌≢◌, ◌⊎◌, refl, ap, true, false, none, some, List, [], ◌∷◌, arith, inl, inr, All, All-imp,
  Bool, Fallible, Option,
}
use kube_pfs.Cmd.Demo.{answer, Server, join_parts}
use kube_pfs.Cmd.Demo.Benchmarks.{
  Floats, Job, BenchSummary, Listing, entries, directories, last_or, latest_run, latest_of,
  handle_latest_benchmark,
}
use kube_pfs.FileSystem.{Contents}
use kube_pfs.Text.{Text, codes}
use kube_pfs.Text.Order.{
  text_leb, text_leb_refl, sort_strings, IsSorted, sort_strings-IsSorted, All-sort_strings,
  sort_strings-All,
}

abbrev pub IsOneOf : {A : Type 0} → A → List A → Type 0
IsOneOf x [] = ⊥
IsOneOf x (y ∷ ys) = (x ≡ y) ⊎ IsOneOf x ys

IsOneOf-self : (ts : List Text) → All (λ t. IsOneOf t ts) ts
IsOneOf-self [] = tt
IsOneOf-self (t ∷ ts) = (
  inl refl,
  All-imp (λ u. IsOneOf u ts) (λ u. IsOneOf u (t ∷ ts)) (λ u h. inr h) ts (IsOneOf-self ts),
)

last_or-All {κ} :
    (P : Text → Type κ) (d : Text) (ts : List Text) → P d → All P ts → P (last_or d ts)
last_or-All P d [] h a = h
last_or-All P d (t ∷ ts) h a = last_or-All P t ts a.0 a.1

-- The last text of a sorted list is the greatest.
last_or-IsSorted :
    (d : Text) (ts : List Text)
    → All (λ t. text_leb d t ≡ true) ts
    → IsSorted ts
    → (text_leb d (last_or d ts) ≡ true) × All (λ t. text_leb t (last_or d ts) ≡ true) ts
last_or-IsSorted d [] a h = (text_leb_refl d, tt)
last_or-IsSorted d (t ∷ ts) a h =
    let rest = last_or-IsSorted t ts h.0 h.1 in
    (last_or-All (λ u. text_leb d u ≡ true) t ts a.0 a.1, rest)

last_or-All_ne {κ} :
    (P : Text → Type κ) (d : Text) (ts : List Text) → ts ≢ [] → All P ts → P (last_or d ts)
last_or-All_ne P d [] h a = absurd (h refl)
last_or-All_ne P d (t ∷ ts) h a = last_or-All P t ts a.0 a.1

All-above_nil : (ts : List Text) → All (λ t. text_leb [] t ≡ true) ts
unfolding text_leb
All-above_nil [] = tt
All-above_nil (t ∷ ts) = (refl, All-above_nil ts)

-- One of the texts, and at least every one of them.
abbrev pub IsGreatest : Text → List Text → Type 0
IsGreatest t ts = IsOneOf t ts × All (λ u. text_leb u t ≡ true) ts

sort_strings-IsGreatest :
    (c : Text) (cs : List Text) → IsGreatest (last_or [] (sort_strings (c ∷ cs))) (c ∷ cs)
sort_strings-IsGreatest c cs =
    let sorted = sort_strings (c ∷ cs) in
    let some_left : sorted ≢ [] = λ e. (sort_strings-All (λ t. ⊥) (c ∷ cs) (rw e tt)).0 in
    let members = All-sort_strings (λ t. IsOneOf t (c ∷ cs)) (c ∷ cs) (IsOneOf-self (c ∷ cs)) in
    let (_, below) =
      last_or-IsSorted [] sorted (All-above_nil sorted) (sort_strings-IsSorted (c ∷ cs)) in
    (
      last_or-All_ne (λ t. IsOneOf t (c ∷ cs)) [] sorted some_left members,
      sort_strings-All (λ t. text_leb t (last_or [] sorted) ≡ true) (c ∷ cs) below,
    )

directories-nil : (ds : List (Text × Bool)) → directories ds ≡ [] → All (λ e. e.1 ≡ false) ds
unfolding directories
directories-nil [] h = tt
directories-nil ((name, true) ∷ ds) h = absurd (ground (arith, h))
directories-nil ((name, false) ∷ ds) h = (refl, directories-nil ds h)

directories-IsOneOf :
    (t : Text) (ds : List (Text × Bool)) → IsOneOf t (directories ds) → IsOneOf (t, true) ds
unfolding directories
directories-IsOneOf t [] h = h
directories-IsOneOf t ((name, true) ∷ ds) (inl e) = inl (ap (λ u. (u, true)) e)
directories-IsOneOf t ((name, true) ∷ ds) (inr h) = inr (directories-IsOneOf t ds h)
directories-IsOneOf t ((name, false) ∷ ds) h = inr (directories-IsOneOf t ds h)

directories-All {κ} :
    (P : Text → Type κ) (ds : List (Text × Bool))
    → All P (directories ds)
    → All (λ e. (e.1 ≡ false) ⊎ P e.0) ds
unfolding directories
directories-All P [] h = tt
directories-All P ((name, true) ∷ ds) h = (inr h.0, directories-All P ds h.1)
directories-All P ((name, false) ∷ ds) h = (inl refl, directories-All P ds h)

module _ (floats : Floats) (unmarshal : Text → Fallible (List (Job floats))) (exists : Text → Bool)
    (read_file : Text → Contents) (now : Text) (server : Server) where
  -- The directory of the benchmark runs.
  abbrev pub runs_path : Text
  runs_path = join_parts (server.repo_root ∷ codes "artifacts" ∷ codes "bench" ∷ [])

  -- What the handler answers on these entries, which are names, each with whether it is a directory.
  abbrev pub IsLatest : List (Text × Bool) → Option (BenchSummary floats) → Type 0
  IsLatest ds none = All (λ e. e.1 ≡ false) ds
  IsLatest ds (some summary) =
      IsOneOf (summary.run_id, true) ds
      × All (λ e. (e.1 ≡ false) ⊎ (text_leb e.0 summary.run_id ≡ true)) ds
      × (summary.path ≡ join_parts (runs_path ∷ summary.run_id ∷ []))

  latest_of-IsLatest :
      (ds : List (Text × Bool)) (names : List Text)
      → directories ds ≡ names
      → IsLatest ds (latest_of floats unmarshal exists read_file now server names)
  unfolding latest_run
  latest_of-IsLatest ds [] h = directories-nil ds h
  latest_of-IsLatest ds (c ∷ cs) h =
      let (found, greatest) = sort_strings-IsGreatest c cs in
      let latest = last_or [] (sort_strings (c ∷ cs)) in
      (
        directories-IsOneOf latest ds (rw h found),
        directories-All (λ t. text_leb t latest ≡ true) ds (rw h greatest),
        refl,
      )

  -- When artifacts/bench below the root of the repository can be listed, the demo answers; nothing is
  -- available if no entry is a directory; and else the run it answers is an entry that is a
  -- directory, no entry that is a directory sorts behind it, and its path is that of this entry.
  pub handle_latest_benchmark-IsLatest :
      (read_dir : Text → Listing) (ds : List (Text × Bool))
      → read_dir runs_path ≡ entries ds
      → (found : Option (BenchSummary floats)) × (handle_latest_benchmark floats unmarshal exists
            read_file now server read_dir
          ≡ answer found)
        × IsLatest ds found
  unfolding handle_latest_benchmark
  handle_latest_benchmark-IsLatest read_dir ds h = (
    latest_of floats unmarshal exists read_file now server (directories ds),
    ground (arith, h),
    latest_of-IsLatest ds (directories ds) refl,
  )
