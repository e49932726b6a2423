-- ===== src/Cmd/Demo/Counted.antt =====
-- What `handleStatus` of cmd/demo-ui/main.go counts, against counts of the pods one by one.
use kube_pfs.Base.{
  ℕ, zero, suc, ◌+◌, ◌≡◌, ◌∙◌, refl, Bool, true, ◌||◌, ◌&&◌, Option, none, some, List, [], ◌∷◌,
  Fallible, done, arith, inl, inr, Option-cases, ltb, map, if◌then◌else◌,
}
use kube_pfs.Cmd.Demo.Status.{
  PodItem, RawPod, Condition, is_ready, pod_item, ClusterStatus, increment, count_pod, count_pods,
  health, handle_status, parse_pod_items, is_prometheus, is_grafana, unknown_status,
}
use kube_pfs.Table.{Table, lookup, lookup-insert}
use kube_pfs.Text.{Text, codes, text_eq, text_eq_iff}
use kube_pfs.Text.Search.{has_prefix}

-- The number of elements that pass the test.
abbrev pub number_of {ℓ} : {A : Type ℓ} → (A → Bool) → List A → ℕ
number_of test [] = 0
number_of test (x ∷ xs) = (if test x then 1 else 0) + number_of test xs

-- A count of a map to which so many are added; a count of zero has no key.
abbrev pub plus : ℕ → Option ℕ → Option ℕ
plus zero count = count
plus (suc n) none = some (suc n)
plus (suc n) (some m) = some (m + suc n)

lookup-increment :
    (j k : Text) (counts : Table ℕ)
    → lookup j (increment k counts) ≡ plus (if text_eq k j then 1 else 0) (lookup j counts)
unfolding increment
lookup-increment j k counts = elim (Option-cases (lookup j counts)) [
  | inl e ↦ ground (
    arith,
    lookup-insert j k (elim (lookup k counts) [ none ↦ 1 | some n ↦ n + 1 ]) counts,
    text_eq_iff k j,
    e,
  )
  | inr (n, e) ↦ ground (
    arith,
    lookup-insert j k (elim (lookup k counts) [ none ↦ 1 | some n ↦ n + 1 ]) counts,
    text_eq_iff k j,
    e,
  )
]

plus-plus : (m n : ℕ) (count : Option ℕ) → plus m (plus n count) ≡ plus (n + m) count
plus-plus zero n count = ground arith
plus-plus (suc m) zero count = ground arith
plus-plus (suc m) (suc n) none = ground arith
plus-plus (suc m) (suc n) (some k) = ground arith

-- The pods of Prometheus and Grafana that are ready.
abbrev pub is_watched : PodItem → Bool
is_watched pod = pod.ready && (is_prometheus pod || is_grafana pod)

count_pod-counts :
    (pod : PodItem) (s : ClusterStatus) (n : ℕ)
    → ((count_pod pod (s, n)).0.namespaces ≡ increment pod.namespace s.namespaces)
      × ((count_pod pod (s, n)).0.phases ≡ increment pod.phase s.phases)
      × ((count_pod pod (s, n)).0.connected ≡ s.connected)
      × ((count_pod pod (s, n)).1 ≡ (if is_watched pod then 1 else 0) + n)
unfolding count_pod
count_pod-counts pod s n = (ground arith, ground arith, ground arith, ground arith)

count_pods-counts :
    (key : Text) (pods : List PodItem) (s : ClusterStatus) (n : ℕ)
    → (lookup key (count_pods pods (s, n)).0.namespaces
        ≡ plus (number_of (λ pod. text_eq pod.namespace key) pods) (lookup key s.namespaces))
      × (lookup key (count_pods pods (s, n)).0.phases
          ≡ plus (number_of (λ pod. text_eq pod.phase key) pods) (lookup key s.phases))
      × ((count_pods pods (s, n)).0.connected ≡ s.connected)
      × ((count_pods pods (s, n)).1 ≡ number_of is_watched pods + n)
unfolding count_pods
count_pods-counts key [] s n = (refl, refl, refl, omega arith)
count_pods-counts key (pod ∷ pods) s n =
    let (space, phase, kept, watched) = count_pod-counts pod s n in
    let next = count_pod pod (s, n) in
    let (spaces, phases, keeps, more) = count_pods-counts key pods next.0 next.1 in
    (
      spaces
          ∙ rw (space, lookup-increment key pod.namespace s.namespaces)
              (plus-plus (number_of (λ p. text_eq p.namespace key) pods)
                (if text_eq pod.namespace key then 1 else 0) (lookup key s.namespaces)),
      phases
          ∙ rw (phase, lookup-increment key pod.phase s.phases)
              (plus-plus (number_of (λ p. text_eq p.phase key) pods)
                (if text_eq pod.phase key then 1 else 0) (lookup key s.phases)),
      keeps ∙ kept,
      omega arith,
    )

number_of-map {ℓ ℓ'} :
    {A : Type ℓ} {B : Type ℓ'} (test : B → Bool) (test' : A → Bool) (f : A → B) (xs : List A)
    → ((x : A) → test (f x) ≡ test' x)
    → number_of test (map f xs) ≡ number_of test' xs
number_of-map test test' f [] same = refl
number_of-map test test' f (x ∷ xs) same = rw (same x, number_of-map test test' f xs same) refl

-- What the number of pods that are ready says of the health.
abbrev pub health_of : ℕ → Text
health_of zero = codes "down"
health_of (suc zero) = codes "degraded"
health_of (suc (suc n)) = codes "healthy"

health-health_of : (n : ℕ) → health n ≡ health_of n
unfolding health
health-health_of zero = refl
health-health_of (suc zero) = refl
health-health_of (suc (suc n)) = ground arith

module _ (equal_fold : Text → Text → Bool) where
  -- A pod of Prometheus or Grafana with a condition "Ready" that is "True".
  abbrev pub says_ready : Condition → Bool
  says_ready c = text_eq c.kind (codes "Ready") && equal_fold c.status (codes "True")

  abbrev pub watched : RawPod → Bool
  watched pod =
      ltb 0 (number_of says_ready pod.conditions)
      && (has_prefix (codes "kube-pfs-prometheus") pod.name
          || has_prefix (codes "kube-pfs-grafana") pod.name)

  is_ready-number_of :
      (cs : List Condition) → is_ready equal_fold cs ≡ ltb 0 (number_of says_ready cs)
  unfolding is_ready
  is_ready-number_of [] = refl
  is_ready-number_of (c ∷ cs) = ground (arith, is_ready-number_of cs)

  is_watched-watched : (pod : RawPod) → is_watched (pod_item equal_fold pod) ≡ watched pod
  is_watched-watched pod = rw (is_ready-number_of pod.conditions) refl

  -- When kubectl answers and its output is understood, the demo says that it is connected; it counts
  -- for each namespace, and for each phase, the pods that have it, with no key for none; and its
  -- health is "down" for no pod of Prometheus or Grafana that is ready, "degraded" for one, and
  -- "healthy" for more. A pod is ready if it has a condition "Ready" that is "True", and it is of
  -- Prometheus or Grafana if its name starts with "kube-pfs-prometheus" or "kube-pfs-grafana".
  pub handle_status-counts :
      (unmarshal : Text → Fallible (List RawPod)) (generated_at out : Text) (raw : List RawPod)
      (key : Text)
      → unmarshal out ≡ done raw
      → ((handle_status equal_fold unmarshal generated_at (done out)).connected ≡ true)
        × (lookup key (handle_status equal_fold unmarshal generated_at (done out)).namespaces
            ≡ plus (number_of (λ pod. text_eq pod.namespace key) raw) none)
        × (lookup key (handle_status equal_fold unmarshal generated_at (done out)).phases
            ≡ plus (number_of (λ pod. text_eq pod.phase key) raw) none)
        × ((handle_status equal_fold unmarshal generated_at (done out)).observability_health
            ≡ health_of (number_of watched raw))
  unfolding handle_status parse_pod_items lookup
  handle_status-counts unmarshal generated_at out raw key h =
      let pods = map (pod_item equal_fold) raw in
      let before = record (unknown_status generated_at) { connected = true } in
      let (spaces, phases, kept, seen) = count_pods-counts key pods before 0 in
      let space =
        number_of-map (λ pod. text_eq pod.namespace key) (λ pod. text_eq pod.namespace key)
          (pod_item equal_fold) raw (λ pod. refl) in
      let phase =
        number_of-map (λ pod. text_eq pod.phase key) (λ pod. text_eq pod.phase key)
          (pod_item equal_fold) raw (λ pod. refl) in
      let ready = number_of-map is_watched watched (pod_item equal_fold) raw is_watched-watched in
      let counted : (count_pods pods (before, 0)).1 ≡ number_of watched raw = omega arith in
      (
        ground (arith, h, kept),
        ground (arith, h, space, spaces),
        ground (arith, h, phase, phases),
        ground (arith, h, counted, health-health_of (number_of watched raw)),
      )
